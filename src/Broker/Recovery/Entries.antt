-- ===== src/Broker/Recovery/Entries.antt =====
-- The fills of an order that is recovered, and the results of recovery (app/execution/broker.py:
-- reconcile_unresolved_orders).
use binance_bot.Base.{
  String, Bool, true, false, not, ◌&&◌, Option, none, some, List, [], ◌∷◌, ◌++◌, str_eq,
  if◌then◌else◌,
}
use binance_bot.Base.Float.{Float, ◌⊕◌, lit, nought}
use binance_bot.Storage.Rows.{OrderRow}
use binance_bot.Storage.Orders.{OrderUpdate}
use binance_bot.Exchange.Answers.{
  Response, not_object, object, Fill, Order, AccountFill, or_default, is_close,
}
use binance_bot.Act.{Act, pure, fail, need, ◌>>=◌}

-- an entry of the list that is returned
pub record Recovery : Type 0 where
  pub client_order_id : String
  pub resolved : Bool
  pub status : Option String

-- an order whose fills are verified
pub record Verified (F : Type 0) : Type 0 where
  pub order : Order F
  pub executed : F
  pub fill_price : F
  pub fee_quote : F

abbrev pub verify : {F : Type 0} → Order F → F → F → F → Verified F
verify o executed price fee = record {
  order = o;
  executed = executed;
  fill_price = price;
  fee_quote = fee;
}

abbrev pub is_recovered : Recovery → Bool
is_recovered x = x.resolved

module _ {F : Type 0} where
  abbrev pub unresolved_entry : OrderRow F → Option String → Recovery
  unresolved_entry row status = record {
    client_order_id = row.client_order_id;
    resolved = false;
    status = status;
  }

  abbrev pub resolved_entry : OrderRow F → String → Recovery
  resolved_entry row status = record {
    client_order_id = row.client_order_id;
    resolved = true;
    status = some status;
  }

  -- results.append(entry)
  unfoldable pub append : List Recovery → Recovery → Act F (List Recovery)
  append results x = pure (results ++ x ∷ [])

  -- the entries of an order
  unfoldable pub own_entries :
      String → List (Response (AccountFill F)) → Act F (List (AccountFill F))
  own_entries id [] = pure []
  own_entries id (not_object ∷ rest) = fail "A fill is not an object"
  own_entries id (object a ∷ rest) = do
    own ← own_entries id rest
    pure (if str_eq a.order_id id then a ∷ own else own)

  abbrev pub is_some_list : List (AccountFill F) → Bool
  is_some_list [] = false
  is_some_list (a ∷ rest) = true

  -- all(item["commissionAsset"] for item in fills)
  abbrev pub all_have_asset : List (AccountFill F) → Bool
  all_have_asset [] = true
  all_have_asset (a ∷ items) =
      let rest = all_have_asset items in not (str_eq (or_default a.commission_asset "") "") && rest

  -- the entries as fills; a price that cannot be read raises
  unfoldable pub to_fills : List (AccountFill F) → Act F (List (Fill F))
  to_fills [] = pure []
  to_fills (a ∷ rest) = do
    price ← need a.price "A fill's price cannot be read"
    qty ← need a.qty "A fill's quantity cannot be read"
    fills ← to_fills rest
    pure (
        record {
          price = price;
          qty = qty;
          commission = a.commission;
          commission_asset = a.commission_asset;
        }
        ∷ fills)

module _ {F : Type 0} ⦃fl : Float F⦄ where
  unfoldable pub entry_total : F → List (AccountFill F) → Act F F
  entry_total acc [] = pure acc
  entry_total acc (a ∷ rest) = do
    qty ← need a.qty "A fill's quantity cannot be read"
    entry_total (acc ⊕ qty) rest

  unfoldable pub is_complete : List (AccountFill F) → F → F → Bool
  is_complete entries total executed =
      is_some_list entries
      && (all_have_asset entries
          && is_close (lit 1 1000000000) (lit 1 1000000000000) total executed)

  -- nothing was executed
  unfoldable pub unexecuted_update : Order F → String → OrderUpdate F
  unexecuted_update o status = record {
    binance_order_id = o.order_id;
    executed_quantity = nought;
    average_fill_price = none;
    status = status;
    commission_quote = nought;
    commission_details = "[]";
  }
