-- ===== src/Broker/Exit/Sale.antt =====
-- Selling a position (app/execution/broker.py: _position_inventory_issue, and maybe_exit from where
-- there is a reason to sell).
use binance_bot.Base.{
  String, ◌<>◌, Bool, true, false, not, ◌&&◌, Option, none, some, List, [], ◌∷◌, str_eq,
  if◌then◌else◌,
}
use binance_bot.Base.Float.{Float, ◌⊕◌, ◌⊖◌, ◌⊗◌, ◌<?◌, ◌≤?◌, lit, nought, fmax, fmin}
use binance_bot.Config.{Mode, mode_eq}
use binance_bot.Storage.Rows.{Trade}
use binance_bot.Storage.Execution.{close_trade}
use binance_bot.Exchange.Answers.{Balance, Bot, executed_or_zero, weighted_fill_price}
use binance_bot.Act.{
  Act, ask_account, pure, reads, observes, recall, remember, ask, db, ◌>>=◌, ◌>>◌,
}
use binance_bot.Broker.{Submitted, submit_market_order}
use binance_bot.Broker.Paper.{
  quote_key, base_key, paper_quote, paper_base, paper_sell_price, paper_fee, normalized_quantity,
}
use binance_bot.Broker.Enter.{Details, ExecutionResult, result, refused}
use binance_bot.Protection.Fill.{ProtectiveFill, is_present, truthy}
use binance_bot.Protection.Placement.{open_trade_of}
use binance_bot.Protection.Cancel.{cancel_exchange_protection}

module _ {F : Type 0} where
  -- `trade.get("protective_list_client_order_id")`
  abbrev pub position_is_listed : Trade F → Bool
  position_is_listed trade = is_present (truthy trade.protective_list_client_order_id)

  -- what a protective fill means for an exit
  unfoldable pub filled_result : ProtectiveFill F → ExecutionResult F
  filled_result fill =
      if fill.partial_pending && not fill.is_applied
      then result "HOLD" true
          "Exchange protective order partially filled; remaining quantity is still protected"
          (Details.protection_filled fill)
      else result "SELL" true fill.reason (Details.protection_filled fill)

module _ {F : Type 0} ⦃fl : Float F⦄ where
  -- the first entry of the asset: free and locked
  abbrev pub find_balance : String → List (Balance F) → F × F
  find_balance asset [] = (nought, nought)
  find_balance asset (x ∷ xs) =
      let rest = find_balance asset xs in if str_eq x.asset asset then (x.free, x.locked) else rest

  -- the texts leave out the quantities
  unfoldable pub inventory_issue : Trade F → F → F → Option String
  inventory_issue trade free total =
      let tolerance = fmax (lit 1 1000000000000) (trade.quantity ⊗ lit 1 100000000) in
      if total ⊕ tolerance <? trade.quantity
      then some
          "Position reconciliation required: local quantity exceeds exchange total. Trading is blocked for this position until account/order history is reconciled."
      else if free ⊕ tolerance <? trade.quantity && not (position_is_listed trade)
      then some
          "Position reconciliation required: base asset is locked outside the bot's local position state. Trading is blocked until the lock/order is reconciled."
      else none

module _ {F D : Type 0} ⦃fl : Float F⦄ ⦃dl : Float D⦄ (b : Bot F D) where
  open b use {settings, exchange, cv, py}

  -- the answer is kept until `account_refresh_seconds` have passed
  unfoldable pub check_inventory : Trade F → F → Act F (Option String)
  check_inventory trade now = do
    balances ← ask ask_account exchange.balances
    let (free, locked) = find_balance settings.base_asset balances
    let issue = inventory_issue trade (cv.flo (cv.dec free)) (cv.flo (cv.dec free ⊕ cv.dec locked))
    remember (record { checked_at = now; issue = issue })
    pure issue

  unfoldable pub position_inventory_issue : Trade F → Act F (Option String)
  position_inventory_issue trade = if mode_eq settings.mode Mode.paper then pure none else (do
    now ← observes exchange.monotonic
    last ← recall
    if now ⊖ last.checked_at <? settings.account_refresh_seconds
        then pure last.issue
        else check_inventory trade now)

  abbrev pub paper_updates : F → F → D → D → List (String × String)
  paper_updates fill_price qty quote base =
      let proceeds = cv.dec fill_price ⊗ cv.dec qty in
      (
        quote_key b,
        py.show_decimal (quote ⊕ (proceeds ⊖ paper_fee b (cv.dec fill_price) (cv.dec qty))),
      )
      ∷ (base_key b, py.show_decimal (fmax nought (base ⊖ cv.dec qty)))
      ∷ []

  unfoldable pub sell_paper : F → String → Trade F → Act F (ExecutionResult F)
  sell_paper price reason trade = do
    let fill_price = paper_sell_price b price
    let fee = cv.flo (paper_fee b (cv.dec fill_price) (cv.dec trade.quantity))
    quote ← reads (paper_quote b)
    base ← reads (paper_base b)
    now ← observes exchange.now
    closed ← db (
        close_trade trade.id (cv.flo (cv.dec fill_price)) fee reason
          (some (cv.flo (cv.dec trade.quantity)))
          (paper_updates fill_price trade.quantity quote base) none now)
    pure (result "SELL" true "Paper position closed" (Details.position_closed closed))

  -- an order that was executed
  unfoldable pub close_executed : Trade F → F → String → Submitted F → Act F (ExecutionResult F)
  close_executed trade price reason s = do
    now ← observes exchange.now
    closed ← db (
        close_trade trade.id (weighted_fill_price cv s.order price) s.fee_quote reason
          (some (executed_or_zero cv s.order)) [] (some s.client_order_id) now)
    pure (result "SELL" true "Binance market sell executed" (Details.order_closed closed s))

  unfoldable pub sell_quantity : Trade F → F → String → F → Act F (ExecutionResult F)
  sell_quantity trade price reason qty = do
    s ← submit_market_order b "SELL" qty
    if executed_or_zero cv s.order ≤? nought
        then pure (
            result "SELL" false
              ("Binance order " <> (s.client_order_id <> " did not report an executed quantity"))
              (Details.order_reported s.order))
        else close_executed trade price reason s

  -- as much of the position as is free
  unfoldable pub sell_available : F → String → Trade F → Act F (ExecutionResult F)
  sell_available price reason trade = do
    balances ← ask ask_account exchange.balances
    let (available, _) = find_balance settings.base_asset balances
    qty ← normalized_quantity b (fmin trade.quantity available) price
    if qty ≤? nought
        then pure (refused "SELL" "Sell quantity violates Binance market filters")
        else sell_quantity trade price reason qty

  unfoldable pub sell_unprotected :
      F → String → Option (ProtectiveFill F) → Act F (ExecutionResult F)
  sell_unprotected price reason (some fill) = pure (filled_result fill)
  sell_unprotected price reason none = do
    found ← reads (open_trade_of b)
    elim found [
      | none ↦
          pure (
            result "SELL" true "Position was already closed by exchange protection" Details.nothing)
      | some trade ↦ sell_available price reason trade
    ]

  unfoldable pub sell_verified : F → String → Trade F → Option String → Act F (ExecutionResult F)
  sell_verified price reason trade (some issue) = pure (refused "SELL" issue)
  sell_verified price reason trade none =
      cancel_exchange_protection b trade >>= sell_unprotected price reason

  -- on the exchange, the protection is cancelled first
  unfoldable pub sell_exchange : F → String → Trade F → Act F (ExecutionResult F)
  sell_exchange price reason trade =
      if mode_eq settings.mode Mode.live && not settings.allow_live_trading
      then pure (refused "SELL" "Live trading blocked: ALLOW_LIVE_TRADING=false")
      else (position_inventory_issue trade >>= sell_verified price reason trade)

  unfoldable pub sell : F → String → Trade F → Act F (ExecutionResult F)
  sell price reason trade =
      if mode_eq settings.mode Mode.paper
      then sell_paper price reason trade
      else sell_exchange price reason trade
