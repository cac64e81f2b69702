-- ===== src/Broker/Recovering.antt =====
-- What recovering orders keeps: it submits no market order (app/execution/broker.py:
-- reconcile_unresolved_orders).
use binance_bot.Base.{String, not, List, [], ◌∷◌, str_mem}
use binance_bot.Base.Float.{Float, ◌⊕◌, ◌≤?◌, nought}
use binance_bot.Storage.Rows.{Store, OrderRow}
use binance_bot.Storage.Rules.{Atoms}
use binance_bot.Storage.Keeps.{open_trade-Keeps, close_trade-Keeps}
use binance_bot.Storage.Orders.{OrderUpdate}
use binance_bot.Exchange.Answers.{
  Response, not_object, object, Order, AccountFill, Fill, Bot, or_default,
}
use binance_bot.Act.{Event}
use binance_bot.Act.Steady.{
  Steady, Steady-bind, Steady-catch, Steady-pure, Steady-fail, Steady-reads, Steady-observes,
  Steady-need, Steady-fail_if, Steady-if, Steady-option, Steady-ask, Steady-db,
}
use binance_bot.Broker.{terminal_statuses, get_order}
use binance_bot.Broker.Recovery.{
  Recovery, append, Verified, own_entries, to_fills, entry_total, write_order, require_recovery,
  apply_buy, apply_sell, apply_verified, settle_fills, look_up_fills, recover_executed,
  record_unexecuted, mismatched, recover_order, look_up, recover_row, recover_rows,
  reconcile_unresolved_orders,
}
use binance_bot.Broker.Entry.{risk_prices_from_fill-Steady}
use binance_bot.Protection.Listing.{Listing, place_exchange_protection-Steady}

module _ {F D : Type 0} ⦃fl : Float F⦄ ⦃dl : Float D⦄ (b : Bot F D) {I : Store F → Type 0}
    {Q : List (Event F) → Type 0} (a : Atoms I) (l : Listing I Q) where
  append-Steady : (rs : List Recovery) (x : Recovery) → Steady I Q (append rs x)
  unfolding append
  append-Steady rs x = Steady-pure _

  own_entries-Steady :
      (id : String) (rs : List (Response (AccountFill F))) → Steady I Q (own_entries id rs)
  unfolding own_entries
  own_entries-Steady id [] = Steady-pure []
  own_entries-Steady id (not_object ∷ rest) = Steady-fail _
  own_entries-Steady id (object x ∷ rest) =
      search (Steady-bind, own_entries-Steady id rest, Steady-pure)

  to_fills-Steady : (xs : List (AccountFill F)) → Steady I Q (to_fills xs)
  unfolding to_fills
  to_fills-Steady [] = Steady-pure []
  to_fills-Steady (x ∷ xs) = Steady-bind _ _ (Steady-need _ _) λ price.
      Steady-bind _ _ (Steady-need _ _)
        λ qty. Steady-bind _ _ (to_fills-Steady xs) λ fills. Steady-pure _

  entry_total-Steady : (acc : F) (xs : List (AccountFill F)) → Steady I Q (entry_total acc xs)
  unfolding entry_total
  entry_total-Steady acc [] = Steady-pure acc
  entry_total-Steady acc (x ∷ xs) =
      Steady-bind _ _ (Steady-need _ _) λ q. entry_total-Steady (acc ⊕ q) xs

  write_order-Steady : (row : OrderRow F) (u : OrderUpdate F) → Steady I Q (write_order b row u)
  unfolding write_order
  write_order-Steady row u =
      Steady-bind _ _ (Steady-observes _) λ now. Steady-db _ (a.updated _ _ _)

  require_recovery-Steady :
      (rs : List Recovery) (row : OrderRow F) (o : Order F) (x : F)
      → Steady I Q (require_recovery b rs row o x)
  unfolding require_recovery
  require_recovery-Steady rs row o x = search (Steady-bind, write_order-Steady, append-Steady)

  apply_buy-Steady : (row : OrderRow F) (v : Verified F) → Steady I Q (apply_buy b row v)
  unfolding apply_buy
  apply_buy-Steady row v =
      search
        (
          Steady-bind,
          Steady-reads,
          Steady-fail_if,
          risk_prices_from_fill-Steady b a l,
          Steady-observes,
          Steady-db,
          open_trade-Keeps a,
          Steady-need,
          place_exchange_protection-Steady b a l,
          Steady-pure,
        )
        depth 20

  apply_sell-Steady : (row : OrderRow F) (v : Verified F) → Steady I Q (apply_sell b row v)
  unfolding apply_sell
  apply_sell-Steady row v =
      search
        (
          Steady-bind,
          Steady-reads,
          Steady-need,
          Steady-observes,
          Steady-db,
          close_trade-Keeps a,
          Steady-pure,
        )
        depth 12

  apply_verified-Steady :
      (rs : List Recovery) (row : OrderRow F) (v : Verified F)
      → Steady I Q (apply_verified b rs row v)
  unfolding apply_verified
  apply_verified-Steady rs row v =
      search
        (Steady-catch, Steady-bind, Steady-if, apply_buy-Steady, apply_sell-Steady, append-Steady)
        depth 12

  settle_fills-Steady :
      (rs : List Recovery) (row : OrderRow F) (o : Order F) (x : F) (fs : List (Fill F))
      → Steady I Q (settle_fills b rs row o x fs)
  unfolding settle_fills
  settle_fills-Steady rs row o x fs =
      search
        (
          Steady-if,
          append-Steady,
          Steady-bind,
          Steady-ask l.still,
          write_order-Steady,
          apply_verified-Steady,
        )
        depth 12

  look_up_fills-Steady : (id : String) → Steady I Q (look_up_fills b id)
  unfolding look_up_fills
  look_up_fills-Steady id = search (Steady-catch, Steady-ask l.still, Steady-pure)

  recover_executed-Steady :
      (rs : List Recovery) (row : OrderRow F) (o : Order F) (x : F) (id : String)
      → Steady I Q (recover_executed b rs row o x id)
  unfolding recover_executed
  recover_executed-Steady rs row o x id =
      search
        (
          Steady-bind, look_up_fills-Steady, Steady-need, own_entries-Steady, entry_total-Steady,
          Steady-if, to_fills-Steady, settle_fills-Steady, require_recovery-Steady,
        )
        depth 16

  record_unexecuted-Steady :
      (rs : List Recovery) (row : OrderRow F) (o : Order F) (status : String)
      → Steady I Q (record_unexecuted b rs row o status)
  unfolding record_unexecuted
  record_unexecuted-Steady rs row o status = search (Steady-bind, write_order-Steady, append-Steady)

  recover_order-Steady :
      (rs : List Recovery) (row : OrderRow F) (o : Order F) → Steady I Q (recover_order b rs row o)
  unfolding recover_order
  recover_order-Steady rs row o = Steady-bind _ _ (Steady-need _ _) λ x.
      Steady-if (mismatched b row o x) _ _ (append-Steady rs _) (
        Steady-if (x ≤? nought) _ _ (record_unexecuted-Steady rs row o _) (
          Steady-option o.order_id _ _ (require_recovery-Steady rs row o x) λ id.
            Steady-if (not (str_mem (or_default o.status "UNKNOWN") terminal_statuses)) _ _
              (require_recovery-Steady rs row o x) (recover_executed-Steady rs row o x id)))

  look_up-Steady : (row : OrderRow F) → Steady I Q (look_up b row)
  unfolding look_up get_order
  look_up-Steady row = search (Steady-catch, Steady-bind, Steady-ask l.still, Steady-pure)

  recover_row-Steady : (rs : List Recovery) (row : OrderRow F) → Steady I Q (recover_row b rs row)
  unfolding recover_row
  recover_row-Steady rs row = Steady-bind _ _ (look_up-Steady row) λ r.
      Steady-option r _ _ (append-Steady rs _)
        λ x. Steady-bind _ _ (Steady-need _ _) λ o. recover_order-Steady rs row o

  recover_rows-Steady :
      (rs : List Recovery) (rows : List (OrderRow F)) → Steady I Q (recover_rows b rs rows)
  unfolding recover_rows
  recover_rows-Steady rs [] = Steady-pure rs
  recover_rows-Steady rs (row ∷ rows) =
      Steady-bind _ _ (recover_row-Steady rs row) λ next. recover_rows-Steady next rows

  pub reconcile_unresolved_orders-Steady : Steady I Q (reconcile_unresolved_orders b)
  unfolding reconcile_unresolved_orders
  reconcile_unresolved_orders-Steady =
      search (Steady-if, Steady-pure, Steady-bind, Steady-reads, recover_rows-Steady)
