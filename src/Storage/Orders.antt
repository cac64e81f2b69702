-- ===== src/Storage/Orders.antt =====
-- The order ledger of app/storage/db.py: intents, updates, and the once-only application to trades.
use binance_bot.Base.{
  ℕ, ◌+◌, String, Bool, true, false, not, ◌&&◌, ◌||◌, Option, none, List, [], ◌∷◌, reverse, ◌==◌,
  str_eq, str_mem, if◌then◌else◌, any, select, update_where, count_where,
}
use binance_bot.Base.Float.{Float, ◌<?◌, nought}
use binance_bot.Config.{Mode, mode_eq}
use binance_bot.Storage.Rows.{Store, OrderRow, DbError, open_for}
use binance_bot.Storage.Tx.{Tx, ok, err, ◌>>=◌, ◌>>◌, gets, raise_if}

-- ('FILLED','CANCELED','REJECTED','EXPIRED','EXPIRED_IN_MATCH')
abbrev pub final_statuses : List String
final_statuses = "FILLED" ∷ "CANCELED" ∷ "REJECTED" ∷ "EXPIRED" ∷ "EXPIRED_IN_MATCH" ∷ []

-- ('FILLED','CANCELED','EXPIRED','EXPIRED_IN_MATCH')
abbrev pub fill_statuses : List String
fill_statuses = "FILLED" ∷ "CANCELED" ∷ "EXPIRED" ∷ "EXPIRED_IN_MATCH" ∷ []

unfoldable pub is_final : String → Bool
is_final s = str_mem s final_statuses

unfoldable pub is_fill : String → Bool
is_fill s = str_mem s fill_statuses

-- the test on the side and the recorded position
unfoldable pub side_conflicts : String → Bool → Bool
side_conflicts side position =
    not (str_mem side ("BUY" ∷ "SELL" ∷ []))
    || ((str_eq side "BUY" && position) || (str_eq side "SELL" && not position))

-- what `update_order_record` writes
pub record OrderUpdate (F : Type 0) : Type 0 where
  pub binance_order_id : Option String
  pub executed_quantity : F
  pub average_fill_price : Option F
  pub status : String
  pub commission_quote : F
  pub commission_details : String

module _ {F : Type 0} where
  abbrev pub has_client_id : String → OrderRow F → Bool
  has_client_id c o = str_eq o.client_order_id c

  abbrev pub mark_applied : OrderRow F → OrderRow F
  mark_applied o = record o { ledger_applied = true }

  abbrev pub write_update : OrderUpdate F → ℕ → OrderRow F → OrderRow F
  write_update u now o = record o {
    binance_order_id = u.binance_order_id;
    executed_quantity = u.executed_quantity;
    average_fill_price = u.average_fill_price;
    status = u.status;
    commission_quote = u.commission_quote;
    commission_details = u.commission_details;
    updated_at = now;
  }

module _ {F : Type 0} ⦃fl : Float F⦄ where
  -- the WHERE of `unresolved_orders`, of `tracked_symbols` and of the check in `record_order_intent`
  unfoldable pub is_unresolved : Mode → String → OrderRow F → Bool
  is_unresolved m s o =
      (mode_eq o.mode m && str_eq o.symbol s)
      && (not (is_final o.status) || (nought <? o.executed_quantity && not o.ledger_applied))

  -- ORDER BY id ASC
  unfoldable pub unresolved_orders : Mode → String → Store F → List (OrderRow F)
  unresolved_orders m s st = reverse (select (is_unresolved m s) st.orders)

  unfoldable pub has_unresolved_order : Mode → String → Store F → Bool
  has_unresolved_order m s st = elim (unresolved_orders m s st) [ [] ↦ false | _ ∷ _ ↦ true ]

  unfoldable pub new_order : ℕ → Mode → String → String → String → F → ℕ → OrderRow F
  new_order i m s c side qty now = record {
    id = i;
    mode = m;
    symbol = s;
    client_order_id = c;
    binance_order_id = none;
    side = side;
    requested_quantity = qty;
    executed_quantity = nought;
    average_fill_price = none;
    status = "PENDING_SUBMIT";
    commission_quote = nought;
    commission_details = "";
    created_at = now;
    updated_at = now;
    ledger_applied = false;
  }

  -- INSERT INTO orders; `client_order_id` is UNIQUE
  unfoldable pub insert_order : Mode → String → String → String → F → ℕ → Tx F (Unit {0})
  unfolding new_order
  insert_order m s c side qty now st =
      if any (has_client_id c) st.orders
      then err DbError.unique_violation
      else ok (
        tt,
        record st {
          orders = new_order st.next_order m s c side qty now ∷ st.orders;
          next_order = st.next_order + 1;
        },
      )

  unfoldable pub record_order_intent : Mode → String → String → String → F → ℕ → Tx F (Unit {0})
  unfolding insert_order side_conflicts
  record_order_intent m s c side qty now = do
    pending ← gets (λ st. any (is_unresolved m s) st.orders)
    raise_if pending DbError.unresolved_exists
    position ← gets (λ st. any (open_for m s) st.trades)
    raise_if (side_conflicts side position) DbError.side_conflict
    insert_order m s c side qty now

  -- the WHERE of `_apply_order_conn`
  unfoldable pub is_applicable : String → String → Mode → String → OrderRow F → Bool
  is_applicable c side m s o =
      str_eq o.client_order_id c
      && (str_eq o.side side
          && ((mode_eq o.mode m && str_eq o.symbol s)
              && (not o.ledger_applied && (nought <? o.executed_quantity && is_fill o.status))))

  -- `_apply_order_conn`
  unfoldable pub apply_order : String → String → Mode → String → Tx F (Unit {0})
  apply_order c side m s st =
      if count_where (is_applicable c side m s) st.orders == 1
      then ok (
        tt,
        record st { orders = update_where (is_applicable c side m s) mark_applied st.orders },
      )
      else err DbError.order_not_applicable

  unfoldable pub update_order_record : String → OrderUpdate F → ℕ → Tx F (Unit {0})
  update_order_record c u now st =
      if count_where (has_client_id c) st.orders == 1
      then ok
          (tt, record st { orders = update_where (has_client_id c) (write_update u now) st.orders })
      else err DbError.order_not_updated
