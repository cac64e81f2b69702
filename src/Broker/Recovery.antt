-- ===== src/Broker/Recovery.antt =====
-- Orders whose outcome was uncertain are looked up again and applied once their fills are complete
-- (app/execution/broker.py: reconcile_unresolved_orders). The texts of the errors are left out.
pub mod Entries
unfoldable pub use binance_bot.Broker.Recovery.Entries.*
use binance_bot.Base.{
  String, Bool, true, false, not, ◌&&◌, ◌||◌, Option, none, some, List, [], ◌∷◌, str_eq, str_mem,
  if◌then◌else◌,
}
use binance_bot.Base.Float.{Float, ◌⊕◌, ◌⊖◌, ◌<?◌, ◌≤?◌, is_finite, lit, nought, fmax}
use binance_bot.Config.{Mode, mode_eq}
use binance_bot.Storage.Rows.{OrderRow}
use binance_bot.Storage.Orders.{OrderUpdate, unresolved_orders, update_order_record}
use binance_bot.Storage.Trades.{NewTrade, open_trade}
use binance_bot.Storage.Execution.{close_trade}
use binance_bot.Exchange.{is_positive}
use binance_bot.Exchange.Answers.{
  Response, not_object, object, Fill, Order, AccountFill, Bot, has_text, or_default, is_close,
  weighted_fill_price, base_commission,
}
use binance_bot.Act.{
  Act, ask_fills, ask_market, pure, fail, reads, observes, ask, db, need, fail_if, catch, ◌>>=◌,
  ◌>>◌,
}
use binance_bot.Broker.{
  terminal_statuses, to_object, executed_number, commission_entries, get_order,
}
use binance_bot.Broker.Paper.{risk_prices_from_fill}
use binance_bot.Protection.Fill.{is_present}
use binance_bot.Protection.Placement.{open_trade_of, place_exchange_protection}

module _ {F D : Type 0} ⦃fl : Float F⦄ ⦃dl : Float D⦄ (b : Bot F D) where
  open b use {settings, exchange, cv, py}

  unfoldable pub required_update : OrderRow F → Order F → F → OrderUpdate F
  required_update row o executed = record {
    binance_order_id = o.order_id;
    executed_quantity = executed;
    average_fill_price = none;
    status = "RECOVERY_REQUIRED";
    commission_quote = row.commission_quote;
    commission_details =
        py.loads (if str_eq row.commission_details "" then "[]" else row.commission_details);
  }

  unfoldable pub verified_update : Verified F → OrderUpdate F
  verified_update v = record {
    binance_order_id = v.order.order_id;
    executed_quantity = v.executed;
    average_fill_price = some v.fill_price;
    status = or_default v.order.status "UNKNOWN";
    commission_quote = v.fee_quote;
    commission_details = py.dumps (commission_entries v.order.fills);
  }

  unfoldable pub write_order : OrderRow F → OrderUpdate F → Act F (Unit {0})
  write_order row u = do
    now ← observes exchange.now
    db (update_order_record row.client_order_id u now)

  -- an update that leaves the order unresolved
  unfoldable pub require_recovery : List Recovery → OrderRow F → Order F → F → Act F (List Recovery)
  require_recovery results row o executed = do
    write_order row (required_update row o executed)
    append results (unresolved_entry row (some "RECOVERY_REQUIRED"))

  unfoldable pub recovered_trade : Verified F → String → F → F × F → NewTrade F
  recovered_trade v client held (stop, take) = record {
    mode = settings.mode;
    symbol = settings.symbol;
    quantity = held;
    entry_price = v.fill_price;
    entry_fee = v.fee_quote;
    reason = "Recovered Binance BUY after restart";
    stop_price = stop;
    take_profit_price = take;
    state_updates = [];
    client_order_id = some client;
  }

  unfoldable pub apply_buy : OrderRow F → Verified F → Act F (Unit {0})
  apply_buy row v = do
    found ← reads (open_trade_of b)
    fail_if (is_present found)
        "An open position already exists; recovered BUY cannot be applied safely"
    let held = fmax nought (v.executed ⊖ base_commission cv v.order settings.base_asset)
    fail_if (held ≤? nought) "Recovered BUY left no usable base quantity"
    prices ← risk_prices_from_fill b v.fill_price
    now ← observes exchange.now
    id ← db (open_trade (recovered_trade v row.client_order_id held prices) now)
    reloaded ← reads (open_trade_of b)
    trade ← need reloaded "Recovered BUY was applied but the local position could not be reloaded"
    placed ← place_exchange_protection b trade
    pure tt

  unfoldable pub apply_sell : OrderRow F → Verified F → Act F (Unit {0})
  apply_sell row v = do
    found ← reads (open_trade_of b)
    trade ← need found "No local open position exists for recovered SELL"
    now ← observes exchange.now
    closed ← db (
        close_trade trade.id v.fill_price v.fee_quote "Recovered Binance SELL after restart"
          (some v.executed) [] (some row.client_order_id) now)
    pure tt

  unfoldable pub apply_verified : List Recovery → OrderRow F → Verified F → Act F (List Recovery)
  apply_verified results row v =
      catch
        (do
          if str_eq row.side "BUY" then apply_buy row v else apply_sell row v
          append results (resolved_entry row (or_default v.order.status "UNKNOWN")))
        λ e. append results (unresolved_entry row (some "RECOVERY_REQUIRED"))

  -- complete fills
  unfoldable pub settle_fills :
      List Recovery → OrderRow F → Order F → F → List (Fill F) → Act F (List Recovery)
  settle_fills results row o executed fills = do
    let verified = record o { fills = fills }
    let price = weighted_fill_price cv verified nought
    if not (is_positive price)
        then append results (unresolved_entry row (some "RECOVERY_REQUIRED"))
        else (do
          fee ← ask ask_market (λ c. exchange.fee_quote c verified price)
          let v = verify verified executed price fee
          write_order row (verified_update v)
          apply_verified results row v)

  -- a failed look-up of the fills counts as none
  unfoldable pub look_up_fills : String → Act F (Option (List (Response (AccountFill F))))
  look_up_fills id =
      catch (ask (ask_fills settings.symbol id) (λ c. exchange.fills c settings.symbol id))
        λ e. pure (some [])

  unfoldable pub recover_executed :
      List Recovery → OrderRow F → Order F → F → String → Act F (List Recovery)
  recover_executed results row o executed id = do
    listed ← look_up_fills id
    entries ← need listed "The fills are not a list"
    own ← own_entries id entries
    total ← entry_total nought own
    if is_complete own total executed
        then (do fills ← to_fills own; settle_fills results row o executed fills)
        else require_recovery results row o executed

  unfoldable pub record_unexecuted :
      List Recovery → OrderRow F → Order F → String → Act F (List Recovery)
  record_unexecuted results row o status = do
    write_order row (unexecuted_update o status)
    append results (record {
      client_order_id = row.client_order_id;
      resolved = str_mem status ("REJECTED" ∷ terminal_statuses);
      status = some status;
    })

  unfoldable pub mismatched : OrderRow F → Order F → F → Bool
  mismatched row o executed =
      not (has_text o.symbol settings.symbol)
      || (not (has_text o.side row.side)
          || (not (has_text o.client_order_id row.client_order_id)
              || (not (is_finite executed) || executed <? row.executed_quantity)))

  -- the answer about an order
  unfoldable pub recover_order : List Recovery → OrderRow F → Order F → Act F (List Recovery)
  recover_order results row o = do
    executed ← need (executed_number nought o.executed_qty) "The executed quantity cannot be read"
    let status = or_default o.status "UNKNOWN"
    if mismatched row o executed
        then append results (unresolved_entry row none)
        else if executed ≤? nought
        then record_unexecuted results row o status
        else elim o.order_id [
          | none ↦ require_recovery results row o executed
          | some id ↦
              if not (str_mem status terminal_statuses)
              then require_recovery results row o executed
              else recover_executed results row o executed id
        ]

  unfoldable pub look_up : OrderRow F → Act F (Option (Response (Order F)))
  look_up row = catch (get_order b row.client_order_id >>= λ r. pure (some r)) λ e. pure none

  -- one turn of the loop
  unfoldable pub recover_row : List Recovery → OrderRow F → Act F (List Recovery)
  recover_row results row = do
    response ← look_up row
    elim response [
      | none ↦ append results (unresolved_entry row (some row.status))
      | some r ↦ need (to_object r) "The answer is not an object" >>= recover_order results row
    ]

  unfoldable pub recover_rows : List Recovery → List (OrderRow F) → Act F (List Recovery)
  recover_rows results [] = pure results
  recover_rows results (row ∷ rows) = do next ← recover_row results row; recover_rows next rows

  -- `reconcile_unresolved_orders`
  unfoldable pub reconcile_unresolved_orders : Act F (List Recovery)
  reconcile_unresolved_orders =
      if mode_eq settings.mode Mode.paper
      then pure []
      else (reads (unresolved_orders settings.mode settings.symbol) >>= recover_rows [])
