-- ===== src/Broker/Enter.antt =====
-- Opening a position (app/execution/broker.py: enter).
use binance_bot.Base.{
  ℕ, String, ◌<>◌, Bool, true, false, not, ◌&&◌, ◌||◌, Option, none, some, [], ◌∷◌, if◌then◌else◌,
}
use binance_bot.Base.Float.{Float, ◌⊕◌, ◌⊖◌, ◌⊗◌, ◌<?◌, ◌≤?◌, is_finite, lit, nought, fmax}
use binance_bot.Config.{Mode, mode_eq, is_exchange}
use binance_bot.Models.{StrategySignal, RiskDecision}
use binance_bot.Storage.Orders.{has_unresolved_order}
use binance_bot.Storage.Trades.{NewTrade, open_trade, get_open_trade}
use binance_bot.Storage.Execution.{Closed}
use binance_bot.Risk.{is_buy}
use binance_bot.Exchange.{Checked, passed, raised, Liquidity, is_positive, check_entry_liquidity}
use binance_bot.Exchange.Answers.{
  Order, Bot, executed_or_zero, weighted_fill_price, base_commission,
}
use binance_bot.Act.{Act, ask_market, pure, reads, observes, ask, db, need, fail_if, ◌>>=◌, ◌>>◌}
use binance_bot.Broker.{Submitted, submit_market_order}
use binance_bot.Broker.Paper.{
  quote_key, base_key, paper_quote, paper_base, paper_buy_price, paper_fee, normalized_quantity,
  risk_prices_from_fill,
}
use binance_bot.Protection.Fill.{ProtectiveFill, is_present}
use binance_bot.Protection.Placement.{Placement, open_trade_of, place_exchange_protection}

-- the dict of a result, by what it tells
pub data Details (F : Type 0) : Type 0 where
  nothing order_not_submitted : Details F
  -- id, quantity and price of a new position
  position_opened : ℕ → F → F → Details F
  -- the order of a new position, and its protection
  order_opened : ℕ → Submitted F → Option (Placement F) → Details F
  order_reported : Order F → Details F
  protection_filled : ProtectiveFill F → Details F
  protection_placed : Placement F → Details F
  -- highest price and stop
  stop_raised : F → F → Details F
  position_closed : Closed F → Details F
  order_closed : Closed F → Submitted F → Details F

pub record ExecutionResult (F : Type 0) : Type 0 where
  pub action : String
  pub executed : Bool
  pub message : String
  pub details : Details F

module _ {F : Type 0} where
  abbrev pub result : String → Bool → String → Details F → ExecutionResult F
  result action executed message details = record {
    action = action;
    executed = executed;
    message = message;
    details = details;
  }

  abbrev pub refused : String → String → ExecutionResult F
  refused action message = result action false message Details.nothing

module _ {F D : Type 0} ⦃fl : Float F⦄ ⦃dl : Float D⦄ (b : Bot F D) where
  open b use {settings, exchange, cv, py}

  unfoldable pub bad_entry : F → F → F → Bool
  bad_entry price qty confidence =
      not (is_positive price)
      || (not (is_finite qty)
          || (not (is_finite confidence) || not (nought ≤? confidence && confidence ≤? lit 1 1)))

  unfoldable pub paper_trade : StrategySignal F → F → F → F × F → D → D → NewTrade F
  unfolding quote_key base_key
  paper_trade signal fill_price qty (stop, take) quote base =
      let price = cv.dec fill_price in
      let fee = paper_fee b price (cv.dec qty) in
      record {
        mode = settings.mode;
        symbol = settings.symbol;
        quantity = cv.flo (cv.dec qty);
        entry_price = cv.flo price;
        entry_fee = cv.flo fee;
        reason = signal.reason;
        stop_price = stop;
        take_profit_price = take;
        state_updates =
            (quote_key b, py.show_decimal (quote ⊖ (price ⊗ cv.dec qty ⊕ fee)))
            ∷ (base_key b, py.show_decimal (base ⊕ cv.dec qty))
            ∷ [];
        client_order_id = none;
      }

  abbrev pub paper_cost : F → F → D
  paper_cost fill_price qty =
      cv.dec fill_price ⊗ cv.dec qty ⊕ paper_fee b (cv.dec fill_price) (cv.dec qty)

  unfoldable pub open_paper : StrategySignal F → F → F → F × F → D → D → Act F (ExecutionResult F)
  open_paper signal fill_price qty prices quote base = do
    now ← observes exchange.now
    id ← db (open_trade (paper_trade signal fill_price qty prices quote base) now)
    pure (
        result "BUY" true "Paper position opened"
          (Details.position_opened id (cv.flo (cv.dec qty)) (cv.flo (cv.dec fill_price))))

  -- the paper branch; the cash is read after the last await
  unfoldable pub enter_paper : StrategySignal F → F → F → Act F (ExecutionResult F)
  enter_paper signal qty price = do
    prices ← risk_prices_from_fill b (paper_buy_price b price)
    quote ← reads (paper_quote b)
    base ← reads (paper_base b)
    if quote <? paper_cost (paper_buy_price b price) qty
        then pure (refused "BUY" "Insufficient paper quote balance")
        else open_paper signal (paper_buy_price b price) qty prices quote base

  -- `check_entry_liquidity`: its first guard, then the request
  unfoldable pub entry_liquidity : F → F → Act F (Checked (Liquidity F))
  entry_liquidity qty price =
      if not (is_positive qty && is_positive price)
      then pure (raised "Invalid entry size or reference price")
      else (do
        started ← observes exchange.monotonic
        book ← ask ask_market (λ c. exchange.book c settings.symbol)
        answered ← observes exchange.monotonic
        pure (check_entry_liquidity cv settings qty price started answered book))

  -- the position that a buy order left
  unfoldable pub held_trade : StrategySignal F → Submitted F → F → F → F × F → NewTrade F
  held_trade signal s held fill_price (stop, take) = record {
    mode = settings.mode;
    symbol = settings.symbol;
    quantity = held;
    entry_price = fill_price;
    entry_fee = s.fee_quote;
    reason = signal.reason;
    stop_price = stop;
    take_profit_price = take;
    state_updates = [];
    client_order_id = some s.client_order_id;
  }

  -- `if mode in {"testnet", "live"}` the new position is protected
  unfoldable pub protect_entry : Act F (Option (Placement F))
  protect_entry =
      if is_exchange settings.mode
      then (do
        found ← reads (open_trade_of b)
        trade ← need found "No open trade"
        placed ← place_exchange_protection b trade
        pure (some placed))
      else pure none

  -- a buy order that was executed
  unfoldable pub open_executed : StrategySignal F → F → Submitted F → Act F (ExecutionResult F)
  open_executed signal price s = do
    let fill_price = weighted_fill_price cv s.order price
    let raw_held =
        fmax nought (executed_or_zero cv s.order ⊖ base_commission cv s.order settings.base_asset)
    held ← normalized_quantity b raw_held fill_price
    fail_if (held ≤? nought)
        "Executed buy left no exchange-tradable base quantity; manual reconciliation is required"
    prices ← risk_prices_from_fill b fill_price
    now ← observes exchange.now
    id ← db (open_trade (held_trade signal s held fill_price prices) now)
    placed ← protect_entry
    pure (result "BUY" true "Binance market buy executed" (Details.order_opened id s placed))

  unfoldable pub buy : StrategySignal F → F → F → Act F (ExecutionResult F)
  buy signal qty price = do
    s ← submit_market_order b "BUY" qty
    if executed_or_zero cv s.order ≤? nought
        then pure (
            result "BUY" false
              ("Binance order " <> (s.client_order_id <> " did not report an executed quantity"))
              (Details.order_reported s.order))
        else open_executed signal price s

  -- the branch of testnet and live
  unfoldable pub enter_exchange : StrategySignal F → F → F → Act F (ExecutionResult F)
  enter_exchange signal qty price =
      if mode_eq settings.mode Mode.live && not settings.allow_live_trading
      then pure (refused "BUY" "Live trading blocked: ALLOW_LIVE_TRADING=false")
      else (do
        liquidity ← entry_liquidity qty price
        elim liquidity [
          | raised e ↦ pure (result "BUY" false e Details.order_not_submitted)
          | passed l ↦ buy signal qty price
        ])

  -- no order and no position is in the way
  unfoldable pub enter_sized : StrategySignal F → F → F → Act F (ExecutionResult F)
  enter_sized signal quantity price = do
    qty ← normalized_quantity b quantity price
    if not (is_positive qty) || quantity <? qty
        then pure (refused "BUY" "Quantity violates Binance market quantity/notional filters")
        else if mode_eq settings.mode Mode.paper
        then enter_paper signal qty price
        else enter_exchange signal qty price

  unfoldable pub enter_checked : StrategySignal F → F → F → Act F (ExecutionResult F)
  enter_checked signal quantity price = do
    unresolved ← reads (has_unresolved_order settings.mode settings.symbol)
    held ← reads (get_open_trade settings.symbol settings.mode)
    if unresolved
        then pure (
            refused "BUY"
              "An earlier Binance order has an unresolved outcome; new entries are blocked")
        else if is_present held
        then pure (refused "BUY" "Position already open")
        else enter_sized signal quantity price

  -- `enter`
  unfoldable pub enter : StrategySignal F → RiskDecision F → F → Act F (ExecutionResult F)
  enter signal risk price =
      if not (is_buy signal.side)
      then pure (refused "BUY" "Entry requires a BUY signal")
      else if bad_entry price risk.quantity signal.confidence
      then pure (refused "BUY" "Invalid entry price or quantity")
      else if not risk.allowed || risk.quantity ≤? nought
      then pure (refused "BUY" risk.reason)
      else enter_checked signal risk.quantity price
