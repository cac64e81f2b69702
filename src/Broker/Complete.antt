-- ===== src/Broker/Complete.antt =====
-- Recovery reports on every order that was unresolved (app/execution/broker.py:
-- reconcile_unresolved_orders).
use binance_bot.Base.{
  ◌≡◌, refl, ap, ◌&&◌, arith, ◌||◌, ◌++◌, String, Bool, true, false, not, Option, none, some, List,
  [], ◌∷◌, map, str_mem, if◌then◌else◌,
}
use mathlib.Core.List.{append-nil}
use mathlib.Core.Path.{subst, sym, ◌∙◌}
use binance_bot.Base.Float.{Float, ◌≤?◌, nought}
use binance_bot.Config.{Mode, mode_eq}
use binance_bot.Storage.Rows.{OrderRow}
use binance_bot.Storage.Orders.{unresolved_orders}
use binance_bot.Exchange.Answers.{Order, Fill, Bot, or_default}
use binance_bot.Act.{Act, World, Outcome, done, failed, Failure, reads, catch, ◌>>=◌}
use binance_bot.Act.Rules.{Any, anyhow, Post, Ensures, bind, try, returns}
use binance_bot.Broker.{terminal_statuses}
use binance_bot.Broker.Recovery.{
  Recovery, append, Verified, require_recovery, apply_verified, settle_fills, recover_executed,
  record_unexecuted, mismatched, recover_order, recover_row, recover_rows,
  reconcile_unresolved_orders,
}

-- a status that recovery counts as final
abbrev pub final_status : Option String → Bool
final_status status = elim status [
  | none ↦ false
  | some s ↦ str_mem s ("REJECTED" ∷ terminal_statuses)
]

-- a result is only marked resolved with a final status
abbrev pub is_settled : Recovery → Bool
is_settled x = not x.resolved || final_status x.status

-- no result is marked resolved without a final status
abbrev pub all_settled : List Recovery → Bool
all_settled [] = true
all_settled (x ∷ xs) = let rest = all_settled xs in is_settled x && rest

all_settled-append :
    (xs : List Recovery) (x : Recovery)
    → all_settled xs ≡ true
    → is_settled x ≡ true
    → all_settled (xs ++ x ∷ []) ≡ true
all_settled-append [] x h k = ground arith
all_settled-append (y ∷ ys) x h k = ground (arith, all_settled-append ys x)

module _ {F : Type 0} where
  -- if the action returns, then what is true of `A`
  record Yields {A : Type 0} (Q : A → Type 0) (m : Act F A) : Type 0 where
    yields : Ensures Any (λ a w. Q a) Any m

  Yields-bind :
      {A B : Type 0} {Q : B → Type 0} (m : Act F A) (f : A → Act F B)
      → ((a : A) → Yields Q (f a))
      → Yields Q (m >>= f)
  Yields-bind m f k = record { yields = bind (anyhow m) λ a. (k a).yields }

  Yields-catch :
      {A : Type 0} {Q : A → Type 0} (m : Act F A) (h : Failure → Act F A)
      → Yields Q m
      → ((e : Failure) → Yields Q (h e))
      → Yields Q (catch m h)
  Yields-catch m h x k = record { yields = try x.yields λ e. (k e).yields }

  Yields-if :
      {A : Type 0} {Q : A → Type 0} (b : Bool) (m n : Act F A)
      → Yields Q m
      → Yields Q n
      → Yields Q (if b then m else n)
  Yields-if true m n h k = h
  Yields-if false m n h k = k

  Yields-option :
      {A B : Type 0} {Q : B → Type 0} (o : Option A) (m : Act F B) (n : A → Act F B)
      → Yields Q m
      → ((a : A) → Yields Q (n a))
      → Yields Q (elim o [ none ↦ m | some a ↦ n a ])
  Yields-option none m n h k = h
  Yields-option (some a) m n h k = k a

  -- exactly one result is appended, and it is about this order
  abbrev Appends : List Recovery → OrderRow F → List Recovery → Type 0
  Appends results row next =
      (x : Recovery) × (next ≡ results ++ x ∷ [])
      × (x.client_order_id ≡ row.client_order_id)
      × (is_settled x ≡ true)

  append-Appends :
      (results : List Recovery) (row : OrderRow F) (x : Recovery)
      → x.client_order_id ≡ row.client_order_id
      → is_settled x ≡ true
      → Yields (Appends results row) (append results x)
  unfolding append
  append-Appends results row x h k = record { yields = returns _ λ w p. (x, refl, h, k) }

module _ {F D : Type 0} ⦃fl : Float F⦄ ⦃dl : Float D⦄ (b : Bot F D) (results : List Recovery) where
  require_recovery-Appends :
      (row : OrderRow F) (o : Order F) (x : F)
      → Yields (Appends results row) (require_recovery b results row o x)
  unfolding require_recovery
  require_recovery-Appends row o x = Yields-bind _ _ λ u. append-Appends results row _ refl refl

  apply_verified-Appends :
      (row : OrderRow F) (v : Verified F)
      → str_mem (or_default v.order.status "UNKNOWN") terminal_statuses ≡ true
      → Yields (Appends results row) (apply_verified b results row v)
  unfolding apply_verified
  apply_verified-Appends row v h =
      Yields-catch _ _ (Yields-bind _ _ λ u. append-Appends results row _ refl (ground arith))
        λ e. append-Appends results row _ refl refl

  settle_fills-Appends :
      (row : OrderRow F) (o : Order F) (x : F) (fs : List (Fill F))
      → str_mem (or_default o.status "UNKNOWN") terminal_statuses ≡ true
      → Yields (Appends results row) (settle_fills b results row o x fs)
  unfolding settle_fills
  settle_fills-Appends row o x fs h =
      Yields-if _ _ _ (append-Appends results row _ refl refl)
        (Yields-bind _ _ λ fee. Yields-bind _ _ λ u. apply_verified-Appends row _ h)

  recover_executed-Appends :
      (row : OrderRow F) (o : Order F) (x : F) (id : String)
      → str_mem (or_default o.status "UNKNOWN") terminal_statuses ≡ true
      → Yields (Appends results row) (recover_executed b results row o x id)
  unfolding recover_executed
  recover_executed-Appends row o x id h = Yields-bind _ _ λ listed. Yields-bind _ _ λ entries.
      Yields-bind _ _ λ own. Yields-bind _ _ λ total.
        Yields-if _ _ _ (Yields-bind _ _ λ fills. settle_fills-Appends row o x fills h)
          (require_recovery-Appends row o x)

  record_unexecuted-Appends :
      (row : OrderRow F) (o : Order F) (s : String)
      → Yields (Appends results row) (record_unexecuted b results row o s)
  unfolding record_unexecuted
  record_unexecuted-Appends row o s =
      Yields-bind _ _ λ u. append-Appends results row _ refl (ground arith)

  terminal-Appends :
      (row : OrderRow F) (o : Order F) (x : F) (id : String) (t : Bool)
      → str_mem (or_default o.status "UNKNOWN") terminal_statuses ≡ t
      → Yields (Appends results row) (
          if not t
          then require_recovery b results row o x
          else recover_executed b results row o x id)
  terminal-Appends row o x id true h = recover_executed-Appends row o x id h
  terminal-Appends row o x id false h = require_recovery-Appends row o x

  recover_order-Appends :
      (row : OrderRow F) (o : Order F)
      → Yields (Appends results row) (recover_order b results row o)
  unfolding recover_order
  recover_order-Appends row o = Yields-bind _ _ λ x.
      Yields-if (mismatched b row o x) _ _ (append-Appends results row _ refl refl) (
        Yields-if (x ≤? nought) _ _ (record_unexecuted-Appends row o _) (
          Yields-option o.order_id _ _ (require_recovery-Appends row o x)
            λ id. terminal-Appends row o x id _ refl))

  recover_row-Appends :
      (row : OrderRow F) → Yields (Appends results row) (recover_row b results row)
  unfolding recover_row
  recover_row-Appends row = Yields-bind _ _ λ r.
      Yields-option r _ _ (append-Appends results row _ refl refl)
        λ x. Yields-bind _ _ λ o. recover_order-Appends row o

module _ {F D : Type 0} ⦃fl : Float F⦄ ⦃dl : Float D⦄ (b : Bot F D) where
  -- the client ids, in order
  abbrev pub ids_of_rows : List (OrderRow F) → List String
  ids_of_rows rows = map (λ row. row.client_order_id) rows

  abbrev pub ids_of_results : List Recovery → List String
  ids_of_results xs = map (λ x. x.client_order_id) xs

  ids-append :
      (xs : List Recovery) (x : Recovery) (id : String) (ids : List String)
      → x.client_order_id ≡ id
      → ids_of_results (xs ++ x ∷ []) ++ ids ≡ ids_of_results xs ++ id ∷ ids
  ids-append [] x id ids h = ap (λ i. i ∷ ids) h
  ids-append (y ∷ ys) x id ids h = ap (λ l. y.client_order_id ∷ l) (ids-append ys x id ids h)

  -- what the loop returns, from the results so far
  abbrev Completes : List Recovery → List (OrderRow F) → List Recovery → Type 0
  Completes results rows xs =
      (ids_of_results xs ≡ ids_of_results results ++ ids_of_rows rows) × (all_settled xs ≡ true)

  recover_rows-Completes :
      (results : List Recovery) (rows : List (OrderRow F))
      → all_settled results ≡ true
      → Yields (Completes results rows) (recover_rows b results rows)
  unfolding recover_rows
  recover_rows-Completes results [] h = record { yields = returns _ λ w p. (sym (append-nil _), h) }
  recover_rows-Completes results (row ∷ rows) h = record {
    yields = bind (recover_row-Appends b results row).yields λ next. record {
      at = λ w (x, e, same, settled).
          subst
            (λ next.
              Post (λ xs w. Completes results (row ∷ rows) xs) Any (recover_rows b next rows w))
            (sym e)
            (continued x w same (recover_rows b (results ++ x ∷ []) rows w) (
              (recover_rows-Completes (results ++ x ∷ []) rows
                  (all_settled-append results x h settled)).yields.at
                w tt));
    };
  }
    where
      continued :
          (x : Recovery) (w : World F)
          → x.client_order_id ≡ row.client_order_id
          → (r : Outcome (List Recovery) × World F)
          → Post (λ xs w. Completes (results ++ x ∷ []) rows xs) Any r
          → Post (λ xs w. Completes results (row ∷ rows) xs) Any r
      continued x w same (done xs, v) (ids, k) =
          (ids ∙ ids-append results x row.client_order_id (ids_of_rows rows) same, k)
      continued x w same (failed e, v) k = tt

  started :
      (w : World F)
      → mode_eq b.settings.mode Mode.paper ≡ false
      → reconcile_unresolved_orders b w
        ≡ recover_rows b [] (unresolved_orders b.settings.mode b.settings.symbol w.store) w
  unfolding reconcile_unresolved_orders ◌>>=◌ reads
  started w m = rw m refl

  -- On an exchange, recovery that returns has appended exactly one result for each order that was
  -- unresolved when it started, in their order, whichever way the exchange answered about it; and a
  -- result is marked resolved only with a final status, FILLED, CANCELED, EXPIRED, EXPIRED_IN_MATCH or
  -- REJECTED.
  pub reconcile_unresolved_orders_complete :
      (w w' : World F) (xs : List Recovery)
      → mode_eq b.settings.mode Mode.paper ≡ false
      → reconcile_unresolved_orders b w ≡ (done xs, w')
      → (ids_of_results xs
          ≡ ids_of_rows (unresolved_orders b.settings.mode b.settings.symbol w.store))
        × (all_settled xs ≡ true)
  reconcile_unresolved_orders_complete w w' xs m e =
      let rows = unresolved_orders b.settings.mode b.settings.symbol w.store in
      subst (Post (λ xs w. Completes [] rows xs) Any) (sym (started w m) ∙ e)
        ((recover_rows-Completes [] rows refl).yields.at w tt)
