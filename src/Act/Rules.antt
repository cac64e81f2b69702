-- ===== src/Act/Rules.antt =====
-- What an action guarantees when it returns and when it raises, with a rule for each way to build one.
use binance_bot.Base.{◌≡◌, refl, String, Bool, true, false, Option, none, some, List, if◌then◌else◌}
use binance_bot.Storage.Rows.{Store, DbError}
use binance_bot.Storage.Tx.{Tx, Result, ok, err, connection}
use binance_bot.Act.{
  Failure, Outcome, done, failed, Call, Event, World, Act, Reply, answer, failure, pure, fail,
  rethrow, reads, observes, logged, received, ask, stored, db, need, fail_if, resume, recover,
  ◌>>=◌, catch,
}

module _ {F : Type 0} where
  abbrev pub Post :
      {A : Type 0} → (A → World F → Type 0) → (World F → Type 0) → Outcome A × World F → Type 0
  Post Q R (done a, w) = Q a w
  Post Q R (failed e, w) = R w

  -- From `P`, the action returns with `Q` or raises with `R`.
  pub record Ensures {A : Type 0} (P : World F → Type 0) (Q : A → World F → Type 0)
      (R : World F → Type 0) (m : Act F A) : Type 0 where
    pub at : (w : World F) → P w → Post Q R (m w)

  -- The action keeps `P`, whether it returns or raises.
  abbrev pub Keeps : {A : Type 0} → (World F → Type 0) → Act F A → Type 0
  Keeps P m = Ensures P (λ a. P) P m

module _ {F A : Type 0} (Q : A → World F → Type 0) (R : World F → Type 0) where
  Post-resume :
      {B : Type 0} {S : B → World F → Type 0} (r : Outcome A × World F) (f : A → Act F B)
      → Post Q R r
      → ((a : A) → Ensures (Q a) S R (f a))
      → Post S R (resume r f)
  Post-resume (done a, w) f h k = (k a).at w h
  Post-resume (failed e, w) f h k = h

  Post-recover :
      {S : World F → Type 0} (r : Outcome A × World F) (h : Failure → Act F A)
      → Post Q S r
      → ((e : Failure) → Ensures S Q R (h e))
      → Post Q R (recover r h)
  Post-recover (done a, w) h p k = p
  Post-recover (failed e, w) h p k = (k e).at w p

  Post-received : (r : Reply A) (w : World F) → ((a : A) → Q a w) → R w → Post Q R (received r w)
  Post-received (answer a) w h k = h a
  Post-received (failure e) w h k = k

  Post-stored :
      (w : World F) (r : Result A × Store F)
      → ((a : A) → r.0 ≡ ok a → Q a (record w { store = r.1 }))
      → ((e : DbError) → r.0 ≡ err e → R (record w { store = r.1 }))
      → Post Q R (stored w r)
  Post-stored w (ok a, s) q r = q a refl
  Post-stored w (err e, s) q r = r e refl

module _ {F A B : Type 0} {P : World F → Type 0} {R : World F → Type 0} where
  pub bind :
      {Q : A → World F → Type 0} {S : B → World F → Type 0} {m : Act F A} {f : A → Act F B}
      → Ensures P Q R m
      → ((a : A) → Ensures (Q a) S R (f a))
      → Ensures P S R (m >>= f)
  unfolding ◌>>=◌
  bind {m = m} {f = f} h k = record { at = λ w p. Post-resume _ _ (m w) f (h.at w p) k }

module _ {F A : Type 0} {P : World F → Type 0} {Q : A → World F → Type 0}
    {R : World F → Type 0} where
  pub try :
      {S : World F → Type 0} {m : Act F A} {h : Failure → Act F A}
      → Ensures P Q S m
      → ((e : Failure) → Ensures S Q R (h e))
      → Ensures P Q R (catch m h)
  unfolding catch
  try {m = m} {h = h} p k = record { at = λ w x. Post-recover _ _ (m w) h (p.at w x) k }

  pub returns : (a : A) → ((w : World F) → P w → Q a w) → Ensures P Q R (pure a)
  unfolding pure
  returns a h = record { at = h }

  pub raises : (e : String) → ((w : World F) → P w → R w) → Ensures P Q R (fail {A = A} e)
  unfolding fail
  raises e h = record { at = h }

  pub rethrows : (e : Failure) → ((w : World F) → P w → R w) → Ensures P Q R (rethrow {A = A} e)
  unfolding rethrow
  rethrows e h = record { at = h }

  pub either :
      (b : Bool) {m n : Act F A}
      → Ensures (λ w. P w × (b ≡ true)) Q R m
      → Ensures (λ w. P w × (b ≡ false)) Q R n
      → Ensures P Q R (if b then m else n)
  either true h k = record { at = λ w p. h.at w (p, refl) }
  either false h k = record { at = λ w p. k.at w (p, refl) }

  -- a request may be answered by anything, and may fail
  pub asks :
      (k : Call F) (f : List (Event F) → Reply A)
      → ((w : World F) → P w → (a : A) → Q a (logged k w))
      → ((w : World F) → P w → R (logged k w))
      → Ensures P Q R (ask k f)
  unfolding ask
  asks k f q r = record { at = λ w p. Post-received Q R (f w.calls) (logged k w) (q w p) (r w p) }

  -- a request, with the answer it was given
  pub answers :
      (k : Call F) (f : List (Event F) → Reply A)
      → ((w : World F) → P w → (a : A) (cs : List (Event F)) → f cs ≡ answer a → Q a (logged k w))
      → ((w : World F) → P w → R (logged k w))
      → Ensures P Q R (ask k f)
  unfolding ask
  answers k f q r = record {
    at = λ w p. Post-reply (f w.calls) (logged k w) (λ a e. q w p a w.calls e) (r w p);
  }
    where
      Post-reply :
          (x : Reply A) (w : World F)
          → ((a : A) → x ≡ answer a → Q a w)
          → R w
          → Post Q R (received x w)
      Post-reply (answer a) w h k = h a refl
      Post-reply (failure e) w h k = k

  -- a call of the store, by its result
  pub calls_db :
      (m : Tx F A)
      → ((w : World F)
          → P w
          → (a : A) → (connection m w.store).0 ≡ ok a
          → Q a (record w { store = (connection m w.store).1 }))
      → ((w : World F)
          → P w
          → (e : DbError) → (connection m w.store).0 ≡ err e
          → R (record w { store = (connection m w.store).1 }))
      → Ensures P Q R (db m)
  unfolding db
  calls_db m q r = record { at = λ w p. Post-stored Q R w (connection m w.store) (q w p) (r w p) }

module _ {F : Type 0} {A : Type 0} {P : World F → Type 0} {R : World F → Type 0} where
  pub needs :
      (o : Option A) (e : String)
      → ((w : World F) → P w → R w)
      → Ensures P (λ a w. P w × (o ≡ some a)) R (need o e)
  unfolding need
  needs none e h = record { at = h }
  needs (some a) e h = record { at = λ w p. (p, refl) }

  pub looks : (f : Store F → A) → Ensures P (λ a w. P w × (a ≡ f w.store)) R (reads f)
  unfolding reads
  looks f = record { at = λ w p. (p, refl) }

  pub sees : (f : List (Event F) → A) → Ensures P (λ a. P) R (observes f)
  unfolding observes
  sees f = record { at = λ w p. p }

module _ {F : Type 0} {P : World F → Type 0} {R : World F → Type 0} where
  pub guards :
      (b : Bool) (e : String)
      → ((w : World F) → P w → R w)
      → Ensures P (λ _ w. P w × (b ≡ false)) R (fail_if b e)
  unfolding fail_if
  guards true e h = record { at = h }
  guards false e h = record { at = λ w p. (p, refl) }

module _ {F : Type 0} {P : World F → Type 0} {R : World F → Type 0} where
  -- a test that knows its outcome when it raises
  pub checks :
      (b : Bool) (e : String)
      → ((w : World F) → P w → b ≡ true → R w)
      → Ensures P (λ _ w. P w × (b ≡ false)) R (fail_if b e)
  unfolding fail_if
  checks true e h = record { at = λ w p. h w p refl }
  checks false e h = record { at = λ w p. (p, refl) }

module _ {F A : Type 0} where
  -- a weaker demand, from a stronger assumption
  pub weaken :
      {P P' : World F → Type 0} {Q Q' : A → World F → Type 0} {R R' : World F → Type 0}
      {m : Act F A}
      → ((w : World F) → P' w → P w)
      → ((a : A) (w : World F) → Q a w → Q' a w)
      → ((w : World F) → R w → R' w)
      → Ensures P Q R m
      → Ensures P' Q' R' m
  weaken {Q = Q} {Q' = Q'} {R = R} {R' = R'} {m = m} p q r h = record {
    at = λ w x. mono (m w) (h.at w (p w x));
  }
    where
      mono : (o : Outcome A × World F) → Post Q R o → Post Q' R' o
      mono (done a, w) y = q a w y
      mono (failed e, w) y = r w y

module _ {F : Type 0} where
  abbrev pub Any : World F → Type 0
  Any w = Unit {0}

  -- any action may return or raise
  pub anyhow : {A : Type 0} {P : World F → Type 0} (m : Act F A) → Ensures P (λ a. Any) Any m
  anyhow {A = A} m = record { at = λ w p. decided (m w) }
    where
      decided : (r : Outcome A × World F) → Post {A = A} (λ a. Any) Any r
      decided (done a, w) = tt
      decided (failed e, w) = tt
