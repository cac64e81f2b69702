-- ===== src/Protection/Fill.antt =====
-- Reconciling an order list with the tables (app/execution/protection.py: _protective_fill and
-- inspect_exchange_protection).
pub mod Entries
unfoldable pub use binance_bot.Protection.Fill.Entries.*
use binance_bot.Base.{
  ℕ, String, Bool, true, false, not, ◌&&◌, ◌||◌, Option, none, some, List, [], ◌∷◌, str_eq, str_mem,
  any, select, if◌then◌else◌,
}
use binance_bot.Base.Float.{Float, ◌⊕◌, ◌⊗◌, ◌<?◌, ◌≤?◌, is_finite, lit, nought}
use binance_bot.Config.{is_exchange}
use binance_bot.Storage.Rows.{Trade, ProtectionStatus}
use binance_bot.Storage.Trades.{set_trade_protection, get_open_trade}
use binance_bot.Storage.Execution.{
  Cumulative, unchanged, applied, Outcome as Execution, apply_protective_execution,
}
use binance_bot.Exchange.{Checked, passed, raised, is_positive}
use binance_bot.Exchange.Answers.{
  Response, not_object, object, Order, Child, Fill, AccountFill, Bot, or_default, or_nought,
  is_close, fill_total, weighted_fill_price,
}
use binance_bot.Act.{
  Act, ask_order, ask_order_list, ask_fills, ask_market, pure, fail, reads, observes, ask, db, need,
  fail_if, catch, ◌>>=◌, ◌>>◌,
}
use binance_bot.Protection.{and_then, validate_order_list, validate_child_order, status_of}

module _ {F D : Type 0} ⦃fl : Float F⦄ ⦃dl : Float D⦄ (b : Bot F D) where
  open b use {settings, exchange, cv, py}

  -- the status becomes PROTECTION_UNKNOWN, then the exception
  unfoldable pub mark_fail : {A : Type 0} → ℕ → Option String → String → String → Act F A
  mark_fail i order_list_id list_id e = do
    db (set_trade_protection i order_list_id (some list_id) ProtectionStatus.unknown)
    fail e

  -- `str(trade.get("symbol") or self.settings.symbol)`
  abbrev pub symbol_of : Trade F → String
  symbol_of trade = or_default (some trade.symbol) settings.symbol

  unfoldable pub ask_child : String → Child → Act F (ChildState F)
  ask_child symbol k = do
    let client = or_default k.client_order_id ""
    response ← ask (ask_order symbol client) (λ c. exchange.order c symbol client)
    o ← lift (validate_child_order py symbol k response)
    given ← need o.executed_qty "Protective child-order execution quantity is missing"
    q ← need given "Protective child-order execution quantity is invalid"
    fail_if (bad_quantity q (status_of py o)) "Protective child-order execution quantity is invalid"
    pure (record { order = o; executed = q; status = status_of py o })

  unfoldable pub ask_children : String → List Child → Act F (List (ChildState F))
  ask_children symbol [] = pure []
  ask_children symbol (k ∷ ks) = do
    s ← ask_child symbol k
    ss ← ask_children symbol ks
    pure (s ∷ ss)

  abbrev pub exit_reason : Trade F → Order F → F → String
  exit_reason trade o price =
      if py.contains "TAKE_PROFIT" (or_default o.kind "None")
        || (nought <? o.price && trade.entry_price ≤? price)
      then "Exchange take profit"
      else "Exchange stop loss"

  abbrev pub cumulative : Trade F → F → F → F → Cumulative F
  cumulative trade qty quote fee = record {
    qty = or_nought trade.protective_list_base_qty ⊕ qty;
    quote_amount = or_nought trade.protective_list_base_quote ⊕ quote;
    fee_quote = or_nought trade.protective_list_base_fee_quote ⊕ fee;
  }

  -- the executed child: its fills are looked up, checked and applied
  unfoldable pub apply_child : Trade F → ChildState F → Act F (Reconciled F)
  apply_child trade k = do
    let id = or_default k.order.order_id "None"
    listed ← ask (ask_fills (symbol_of trade) id) (λ c. exchange.fills c (symbol_of trade) id)
    entries ← need listed "Binance trade-fill response is not a list"
    fills ← lift (account_fills (symbol_of trade) id entries)
    fail_if (incomplete fills k.executed)
        "Protective order executed but complete Binance fills are not yet available"
    fail_if (not (is_positive (quote_total nought fills)))
        "Protective cumulative quote could not be verified"
    let verified = record k.order { fills = fills }
    let price = weighted_fill_price cv verified nought
    fail_if (not (is_positive price)) "Protective fill price could not be verified"
    fee ← ask ask_market (λ c. exchange.fee_quote c verified price)
    now ← observes exchange.now
    outcome ← db (
        apply_protective_execution trade.id
          (cumulative trade k.executed (quote_total nought fills) fee)
          (exit_reason trade k.order price) now)
    pure (record {
      fill_price = price;
      fee = fee;
      reason = exit_reason trade k.order price;
      outcome = outcome;
    })

  abbrev pub to_fill : Reconciled F → Bool → Bool → ProtectiveFill F
  to_fill r pending done = record {
    closed = r.outcome;
    fill_price = r.fill_price;
    exit_fee_quote = r.fee;
    reason = r.reason;
    partial_pending = pending;
    is_applied = done;
  }

  -- the dict that is returned, or None
  unfoldable pub fill_result : Reconciled F → Bool → Option (ProtectiveFill F)
  fill_result r partial = elim r.outcome [
    | none ↦ some (to_fill r partial false)
    | some o ↦ elim o [
      | unchanged q ↦ if partial then some (to_fill r true false) else none
      | applied x ↦ some (to_fill r (x.partial && partial) true)
    ]
  ]

  -- one child was executed
  unfoldable pub fill_of_child :
      Trade F
      → String
      → Option String
      → ProtectionStatus
      → Bool
      → ChildState F
      → Act F (Option (ProtectiveFill F))
  fill_of_child trade list_id order_list_id status pair k = do
    r ← catch (apply_child trade k) λ e.
        mark_fail trade.id order_list_id list_id
          "Protective execution could not be reconciled safely"
    refreshed ← reads (get_open_trade settings.symbol settings.mode)
    if is_executing status && (not pair && is_present refreshed)
        then mark_fail trade.id order_list_id list_id
            "A protective leg executed but both OCO legs are not confirmed active"
        else pure
            (fill_result r (str_eq k.status "PARTIALLY_FILLED" && (is_executing status && pair)))

  -- by the number of children that report an execution
  unfoldable pub fill_of_states :
      Trade F
      → String
      → Option String
      → ProtectionStatus
      → Bool
      → List (ChildState F)
      → Act F (Option (ProtectiveFill F))
  fill_of_states trade list_id order_list_id status pair [] =
      if is_executing status && not pair
      then mark_fail trade.id order_list_id list_id
          "Executing protective list does not have both active child orders"
      else pure none
  fill_of_states trade list_id order_list_id status pair (k ∷ []) =
      fill_of_child trade list_id order_list_id status pair k
  fill_of_states trade list_id order_list_id status pair (k ∷ k' ∷ ks) =
      mark_fail trade.id order_list_id list_id
        "Both protective OCO legs report executions; position requires manual reconciliation"

  -- a list that was validated
  unfoldable pub fill_of_list :
      Trade F → String → ℕ × ProtectionStatus × List Child → Act F (Option (ProtectiveFill F))
  fill_of_list trade list_id (id, status, children) = do
    let order_list_id = some (py.show id)
    db (set_trade_protection trade.id order_list_id (some list_id) status)
    if bad_baseline (or_nought trade.protective_list_base_qty)
          || (bad_baseline (or_nought trade.protective_list_base_quote)
              || bad_baseline (or_nought trade.protective_list_base_fee_quote))
        then mark_fail trade.id order_list_id list_id
            "Protective-list accounting baseline is invalid"
        else do
          states ← catch (ask_children (symbol_of trade) children) λ e.
              mark_fail trade.id order_list_id list_id
                "Protective child order could not be verified safely"
          if is_terminal_list status && not (all_in final_child_statuses states)
              then mark_fail trade.id order_list_id list_id
                  "Terminal protective list still has a non-terminal child order"
              else fill_of_states trade list_id order_list_id status
                  (is_executing status && all_in active_statuses states)
                  (select (λ k. nought <? k.executed) states)

  unfoldable pub fill_of_identity : Trade F → String → Act F (Option (ProtectiveFill F))
  fill_of_identity trade list_id = do
    response ← ask (ask_order_list list_id) (λ c. exchange.order_list c list_id)
    listed ←
        catch
          (lift (
            validate_order_list py (symbol_of trade) list_id trade.protective_order_list_id
              response))
          λ e.
            mark_fail trade.id trade.protective_order_list_id list_id
              "Protective order list could not be verified safely"
    fill_of_list trade list_id listed

  -- `_protective_fill`
  unfoldable pub protective_fill : Trade F → Act F (Option (ProtectiveFill F))
  protective_fill trade = elim (truthy trade.protective_list_client_order_id) [
    | none ↦ pure none
    | some list_id ↦ if is_exchange settings.mode then fill_of_identity trade list_id else pure none
  ]
