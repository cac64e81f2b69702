-- ===== src/Act/Steady.antt =====
-- Actions that keep an invariant of the tables and one of the requests, and may raise at any point.
use binance_bot.Base.{◌≡◌, String, Bool, true, false, Option, none, some, List, ◌∷◌, if◌then◌else◌}
use binance_bot.Storage.Rows.{Store}
use binance_bot.Storage.Tx.{Tx, Result, ok, err, connection, settle_tx}
use binance_bot.Storage.Rules.{Keeps as TxKeeps, After}
use binance_bot.Act.{
  Failure, Call, send_order, send_oco, Event, World, Inventory, Act, Reply, pure, fail, rethrow,
  reads, observes, ask, db, need, recall, remember, fail_if, ◌>>=◌, catch,
}
use binance_bot.Act.Rules.{Ensures, Keeps, bind, try, returns, raises, rethrows, asks, calls_db}

-- neither a market order nor an order list
abbrev pub is_quiet : {F : Type 0} → Call F → Bool
is_quiet (send_order _ _ _ _) = false
is_quiet (send_oco _) = false
is_quiet _ = true

module _ {F : Type 0} (I : Store F → Type 0) (Q : List (Event F) → Type 0) where
  abbrev pub Both : World F → Type 0
  Both w = I w.store × Q w.calls

  pub record Steady {A : Type 0} (m : Act F A) : Type 0 where
    pub kept : Keeps Both m

  -- requests that ask only do not touch the invariant of the requests
  pub record Quiet : Type 0 where
    pub quiet :
        (k : Call F) (s : Store F) (cs : List (Event F))
        → is_quiet k ≡ true
        → Q cs
        → Q (record { call = k; before = s } ∷ cs)

module _ {F : Type 0} (I : Store F → Type 0) where
  settled_store :
      {A : Type 0} (s : Store F) (r : Result (A × Store F)) → I s → After I r → I (settle_tx r s).1
  settled_store s (ok (a, s')) h k = k
  settled_store s (err e) h k = h

  -- after a call of the store, whatever its result
  pub connection-keeps :
      {A : Type 0} (m : Tx F A) (s : Store F) → TxKeeps I m → I s → I (connection m s).1
  unfolding connection
  connection-keeps m s k h = settled_store s (m s) h (k.at s h)

module _ {F : Type 0} (I : Store F → Type 0) (Q : List (Event F) → Type 0) where
  -- a call of the store that leaves something more
  pub db-leaves :
      {A : Type 0} (S : A → World F → Type 0) (m : Tx F A)
      → TxKeeps I m
      → ((w : World F) (a : A)
          → (connection m w.store).0 ≡ ok a
          → S a (record w { store = (connection m w.store).1 }))
      → Ensures (Both I Q) (λ a w. Both I Q w × S a w) (Both I Q) (db m)
  db-leaves S m k h =
      calls_db m (λ w p a e. ((connection-keeps I m w.store k p.0, p.1), h w a e))
        (λ w p e x. (connection-keeps I m w.store k p.0, p.1))

module _ {F : Type 0} {I : Store F → Type 0} {Q : List (Event F) → Type 0} where
  pub Steady-bind :
      {A B : Type 0} (m : Act F A) (f : A → Act F B)
      → Steady I Q m
      → ((a : A) → Steady I Q (f a))
      → Steady I Q (m >>= f)
  Steady-bind m f h k = record { kept = bind h.kept λ a. (k a).kept }

  pub Steady-catch :
      {A : Type 0} (m : Act F A) (h : Failure → Act F A)
      → Steady I Q m
      → ((e : Failure) → Steady I Q (h e))
      → Steady I Q (catch m h)
  Steady-catch m h x k = record { kept = try x.kept λ e. (k e).kept }

  pub Steady-pure : {A : Type 0} (a : A) → Steady I Q (pure a)
  Steady-pure a = record { kept = returns a λ w p. p }

  pub Steady-fail : {A : Type 0} (e : String) → Steady I Q (fail {A = A} e)
  Steady-fail e = record { kept = raises e λ w p. p }

  pub Steady-rethrow : {A : Type 0} (e : Failure) → Steady I Q (rethrow {A = A} e)
  Steady-rethrow e = record { kept = rethrows e λ w p. p }

  pub Steady-reads : {A : Type 0} (f : Store F → A) → Steady I Q (reads f)
  unfolding reads
  Steady-reads f = record { kept = record { at = λ w p. p } }

  pub Steady-observes : {A : Type 0} (f : List (Event F) → A) → Steady I Q (observes f)
  unfolding observes
  Steady-observes f = record { kept = record { at = λ w p. p } }

  pub Steady-recall : Steady I Q recall
  unfolding recall
  Steady-recall = record { kept = record { at = λ w p. p } }

  pub Steady-remember : (i : Inventory F) → Steady I Q (remember i)
  unfolding remember
  Steady-remember i = record { kept = record { at = λ w p. p } }

  pub Steady-need : {A : Type 0} (o : Option A) (e : String) → Steady I Q (need o e)
  unfolding need
  Steady-need none e = record { kept = record { at = λ w p. p } }
  Steady-need (some a) e = record { kept = record { at = λ w p. p } }

  pub Steady-fail_if : (b : Bool) (e : String) → Steady I Q (fail_if b e)
  unfolding fail_if
  Steady-fail_if true e = record { kept = record { at = λ w p. p } }
  Steady-fail_if false e = record { kept = record { at = λ w p. p } }

  pub Steady-if :
      {A : Type 0} (b : Bool) (m n : Act F A)
      → Steady I Q m
      → Steady I Q n
      → Steady I Q (if b then m else n)
  Steady-if true m n h k = h
  Steady-if false m n h k = k

  pub Steady-option :
      {A B : Type 0} (o : Option A) (m : Act F B) (n : A → Act F B)
      → Steady I Q m
      → ((a : A) → Steady I Q (n a))
      → Steady I Q (elim o [ none ↦ m | some a ↦ n a ])
  Steady-option none m n h k = h
  Steady-option (some a) m n h k = k a

  pub Steady-ask :
      {A : Type 0} (q : Quiet I Q) (k : Call F) (f : List (Event F) → Reply A)
      → is_quiet k ≡ true
      → Steady I Q (ask k f)
  Steady-ask q k f e = record {
    kept =
        asks k f (λ w p a. (p.0, q.quiet k w.store w.calls e p.1))
          (λ w p. (p.0, q.quiet k w.store w.calls e p.1));
  }

  pub Steady-db : {A : Type 0} (m : Tx F A) → TxKeeps I m → Steady I Q (db m)
  Steady-db m k = record {
    kept =
        calls_db m (λ w p a e. (connection-keeps I m w.store k p.0, p.1))
          (λ w p e x. (connection-keeps I m w.store k p.0, p.1));
  }
