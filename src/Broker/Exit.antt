-- ===== src/Broker/Exit.antt =====
-- Closing a position (app/execution/broker.py: _position_inventory_issue and maybe_exit). The method
-- is cut where it may return: each part below goes on with the next.
pub mod Sale
use binance_bot.Base.{
  ℕ, String, ◌<>◌, Bool, true, false, not, ◌&&◌, ◌||◌, Option, none, some, List, [], ◌∷◌, str_eq,
  if◌then◌else◌,
}
use binance_bot.Base.Float.{Float, ◌⊕◌, ◌⊖◌, ◌⊗◌, ◌⊘◌, ◌<?◌, ◌≤?◌, lit, nought, fmax}
use binance_bot.Config.{Settings, is_exchange}
use binance_bot.Models.{SignalSide, StrategySignal}
use binance_bot.Storage.Rows.{Trade}
use binance_bot.Storage.Orders.{has_unresolved_order}
use binance_bot.Storage.Trades.{raise_position_stop}
use binance_bot.Exchange.{is_positive}
use binance_bot.Exchange.Answers.{Bot}
use binance_bot.Act.{Act, pure, fail, reads, db, fail_if, ◌>>=◌, ◌>>◌}
use binance_bot.Broker.Paper.{normalized_price}
use binance_bot.Broker.Enter.{Details, ExecutionResult, result, refused}
use binance_bot.Broker.Exit.Sale.{position_is_listed, filled_result, sell}
use binance_bot.Protection.Fill.{ProtectiveFill, is_present, protective_fill}
use binance_bot.Protection.Placement.{
  Placement, opt_is_terminal, open_trade_of, rearm_terminal_protection, place_exchange_protection,
}

module _ {F : Type 0} ⦃fl : Float F⦄ where
  -- why the position is sold, if it is
  unfoldable pub exit_reason : Trade F → StrategySignal F → F → Option String
  exit_reason trade signal price =
      if price ≤? trade.stop_price
      then some "Stop loss"
      else if trade.take_profit_price ≤? price
      then some "Take profit"
      else elim signal.side [
        | SignalSide.sell ↦ some signal.reason
        | SignalSide.buy ↦ none
        | SignalSide.hold ↦ none
      ]

  -- `float(trade.get("highest_price") or entry)`
  abbrev pub previous_high : Trade F → F
  previous_high t = elim t.highest_price [
    | none ↦ t.entry_price
    | some h ↦ if h ≤? nought && nought ≤? h then t.entry_price else h
  ]

  unfoldable pub breakeven : Settings F → Trade F → F
  breakeven c t =
      let fee_rate = c.trading_fee_bps ⊘ lit 10000 1 in
      let slip = c.paper_slippage_bps ⊘ lit 10000 1 in
      let unit_cost = t.entry_price ⊕ t.entry_fee ⊘ t.quantity in
      unit_cost ⊘ ((lit 1 1 ⊖ fee_rate) ⊗ (lit 1 1 ⊖ slip))

  -- the stop after the break-even rule
  unfoldable pub breakeven_stop : Settings F → Trade F → F → F → F
  unfolding breakeven
  breakeven_stop c t high price =
      if t.entry_price ⊗ (lit 1 1 ⊕ c.breakeven_activation_pct) ≤? high && breakeven c t <? price
      then fmax t.stop_price (breakeven c t)
      else t.stop_price

  -- and after the trailing rule
  unfoldable pub candidate_stop : Settings F → Trade F → F → F → F
  unfolding breakeven_stop
  candidate_stop c t high price =
      let stop = breakeven_stop c t high price in
      if t.entry_price ⊗ (lit 1 1 ⊕ c.trailing_stop_activation_pct) ≤? high
      then fmax stop (high ⊗ (lit 1 1 ⊖ c.trailing_stop_distance_pct))
      else stop

module _ {F D : Type 0} ⦃fl : Float F⦄ ⦃dl : Float D⦄ (b : Bot F D) where
  open b use {settings}

  -- no reason to sell
  unfoldable pub retain : Trade F → Act F (ExecutionResult F)
  retain trade =
      if is_exchange settings.mode && not (position_is_listed trade)
      then (do
        placed ← place_exchange_protection b trade
        pure (
            result "HOLD" true "Open position retained; exchange protection installed"
              (Details.protection_placed placed)))
      else pure (result "HOLD" true "Open position retained" Details.nothing)

  unfoldable pub raise_stop : Trade F → F → F → Act F (ExecutionResult F)
  raise_stop trade high candidate = do
    stop ← normalized_price b candidate
    written ← db (raise_position_stop trade.id high stop)
    if trade.stop_price <? written.1
        then pure (
            result "HOLD" true "Position retained; protective stop raised"
              (Details.stop_raised written.0 written.1))
        else retain trade

  -- the trailing stop; the old stop was checked before
  unfoldable pub trail : Trade F → F → Act F (ExecutionResult F)
  trail trade price =
      let high = fmax (previous_high trade) price in
      let candidate = candidate_stop settings trade high price in
      if settings.enable_trailing_stop
        && (previous_high trade <? high || trade.stop_price <? candidate)
      then raise_stop trade high candidate
      else retain trade

  unfoldable pub rearmed_result : Bool → Placement F → ExecutionResult F
  rearmed_result still placed =
      if not still
      then result "SELL" true "Exchange protective fill closed the position during reconciliation"
          (Details.protection_placed placed)
      else if not placed.protected
      then result "HOLD" false
          "Terminal exchange protection was reconciled but the remaining position is not protected"
          (Details.protection_placed placed)
      else result "HOLD" true
          "Terminal exchange protection reconciled; remaining position re-protected"
          (Details.protection_placed placed)

  -- no reason to sell, and the list is terminal
  unfoldable pub rearm_position : Trade F → Act F (ExecutionResult F)
  rearm_position trade = do
    placed ← rearm_terminal_protection b trade none
    still ← reads (open_trade_of b)
    pure (rearmed_result (is_present still) placed)

  -- the position as it is after the protective fills; an empty reason is no `None`, which skips the
  -- rearming and the trailing stop, and is false, which retains the position
  unfoldable pub exit_position : StrategySignal F → F → Trade F → Act F (ExecutionResult F)
  exit_position signal price trade = elim (exit_reason trade signal price) [
    | some reason ↦ if str_eq reason "" then retain trade else sell b price reason trade
    | none ↦
        if is_exchange settings.mode
          && (position_is_listed trade && opt_is_terminal trade.protection_status)
        then rearm_position trade
        else trail trade price
  ]

  unfoldable pub exit_reconciled :
      StrategySignal F → F → Option (ProtectiveFill F) → Act F (ExecutionResult F)
  exit_reconciled signal price (some fill) = pure (filled_result fill)
  exit_reconciled signal price none = do
    found ← reads (open_trade_of b)
    elim found [
      | none ↦ pure (result "SELL" true "Exchange protective fill reconciled" Details.nothing)
      | some trade ↦ exit_position signal price trade
    ]

  unfoldable pub exit_open : StrategySignal F → F → Trade F → Act F (ExecutionResult F)
  exit_open signal price trade =
      if is_exchange settings.mode && position_is_listed trade
      then (protective_fill b trade >>= exit_reconciled signal price)
      else exit_position signal price trade

  -- `maybe_exit`
  unfoldable pub maybe_exit : StrategySignal F → F → Act F (ExecutionResult F)
  maybe_exit signal price =
      if not (is_positive price)
      then pure (refused "HOLD" "Invalid exit price; awaiting valid market data")
      else (do
        found ← reads (open_trade_of b)
        unresolved ← reads (has_unresolved_order settings.mode settings.symbol)
        elim found [
          | none ↦ pure (result "HOLD" true "No open position" Details.nothing)
          | some trade ↦
              if unresolved
              then pure (
                  refused "HOLD"
                    "An earlier Binance order has an unresolved outcome; duplicate exit submission is blocked")
              else exit_open signal price trade
        ])
