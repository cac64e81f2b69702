-- ===== src/Risk.antt =====
-- The entry decision (app/risk/manager.py, class RiskManager). Its arithmetic is on `Decimal`s, the
-- type D here, between conversions from and to floats, the type F.
pub mod Bounds
use binance_bot.Base.{
  String, ◌<>◌, Bool, true, false, not, ◌&&◌, ◌||◌, Option, none, some, if◌then◌else◌,
}
use binance_bot.Base.Float.{
  Float, ◌⊕◌, ◌⊖◌, ◌⊗◌, ◌⊘◌, ◌<?◌, ◌≤?◌, is_finite, lit, nought, negate, fmax, fmin,
}
use binance_bot.Config.{Mode, Settings, mode_eq}
use binance_bot.Models.{SignalSide, StrategySignal, RiskDecision}

module _ {F : Type 0} ⦃fl : Float F⦄ where
  -- min(max(stop_pct, fixed_stop / 2, atr_stop_min_pct), fixed_stop * 2, atr_stop_max_pct)
  unfoldable pub clamped_stop : Settings F → F → F
  clamped_stop c atr =
      let raw = c.atr_stop_multiplier ⊗ atr in
      let floor = fmax (fmax raw (c.stop_loss_pct ⊘ lit 2 1)) c.atr_stop_min_pct in
      fmin (fmin floor (c.stop_loss_pct ⊗ lit 2 1)) c.atr_stop_max_pct

  unfoldable pub scaled_take : Settings F → F → F
  scaled_take c stop = fmin (stop ⊗ (c.take_profit_pct ⊘ c.stop_loss_pct)) (lit 30 100)

  -- (stop_pct, take_profit_pct)
  unfoldable pub atr_scaled_stop_distances : Settings F → StrategySignal F → Option (F × F)
  unfolding clamped_stop scaled_take
  atr_scaled_stop_distances c signal = if not c.use_atr_stops then none else elim signal.atr_pct [
    | none ↦ none
    | some atr ↦
        if not (is_finite atr) || atr ≤? nought
        then none
        else some (clamped_stop c atr, scaled_take c (clamped_stop c atr))
  ]

-- the keyword arguments of `evaluate_entry`
pub record EntryInput (F : Type 0) : Type 0 where
  pub signal : StrategySignal F
  pub price : F
  pub equity : F
  pub daily_realized_pnl : F
  pub threshold : F
  pub risk_multiplier : F

-- `Decimal(str(x))`, `float(d)`, and `f"{x:.3f}"`
pub record Conversion (F D : Type 0) : Type 0 where
  pub dec : F → D
  pub flo : D → F
  pub fixed3 : F → String

abbrev pub is_buy : SignalSide → Bool
is_buy SignalSide.buy = true
is_buy SignalSide.sell = false
is_buy SignalSide.hold = false

module _ {F : Type 0} ⦃fl : Float F⦄ where
  unfoldable pub inputs_finite : EntryInput F → Bool
  inputs_finite e =
      is_finite e.price
      && (is_finite e.equity
          && (is_finite e.daily_realized_pnl
              && (is_finite e.threshold
                  && (is_finite e.risk_multiplier && is_finite e.signal.confidence))))

  pub denied : String → RiskDecision F
  denied reason = record {
    allowed = false;
    reason = reason;
    quantity = nought;
    stop_price = none;
    take_profit_price = none;
  }

module _ {F D : Type 0} ⦃fl : Float F⦄ ⦃dl : Float D⦄ (cv : Conversion F D) where
  open cv use {dec, flo, fixed3}

  unfoldable pub daily_loss_reached : Settings F → EntryInput F → Bool
  daily_loss_reached c e =
      dec e.daily_realized_pnl ≤? negate (dec e.equity ⊗ dec c.max_daily_loss_fraction)

  unfoldable pub fee_rate : Settings F → D
  fee_rate c = dec c.trading_fee_bps ⊘ lit 10000 1

  unfoldable pub slippage_rate : Settings F → D
  slippage_rate c =
      dec (if mode_eq c.mode Mode.paper then c.paper_slippage_bps else c.max_entry_slippage_bps)
      ⊘ lit 10000 1

  unfoldable pub multiplier : EntryInput F → D
  multiplier e = dec (fmax (lit 5 10) (fmin e.risk_multiplier (lit 1 1)))

  -- risk_budget / stop_distance
  unfoldable pub quantity_by_risk : Settings F → EntryInput F → D → D
  unfolding fee_rate slippage_rate multiplier
  quantity_by_risk c e stop_pct =
      dec e.equity
      ⊗ dec c.risk_per_trade
      ⊗ multiplier e
      ⊘ (dec e.price ⊗ (stop_pct ⊕ lit 2 1 ⊗ fee_rate c ⊕ lit 2 1 ⊗ slippage_rate c))

  unfoldable pub quantity_by_exposure : Settings F → EntryInput F → D
  unfolding fee_rate slippage_rate multiplier
  quantity_by_exposure c e =
      dec e.equity
      ⊗ dec c.max_position_fraction
      ⊗ multiplier e
      ⊘ (dec e.price ⊗ (lit 1 1 ⊕ slippage_rate c) ⊗ (lit 1 1 ⊕ fee_rate c))

  -- the stop and take-profit fractions that are used
  unfoldable pub distances : Settings F → StrategySignal F → D × D
  distances c signal = elim (atr_scaled_stop_distances c signal) [
    | none ↦ (dec c.stop_loss_pct, dec c.take_profit_pct)
    | some (stop, take) ↦ (dec stop, dec take)
  ]

  unfoldable pub approved : Settings F → EntryInput F → RiskDecision F
  approved c e =
      let (stop_pct, take_pct) = distances c e.signal in
      let quantity = fmin (quantity_by_risk c e stop_pct) (quantity_by_exposure c e) in
      record {
        allowed = true;
        reason = "Approved by deterministic risk engine";
        quantity = flo (fmax quantity nought);
        stop_price = some (flo (dec e.price ⊗ (lit 1 1 ⊖ stop_pct)));
        take_profit_price = some (flo (dec e.price ⊗ (lit 1 1 ⊕ take_pct)));
      }

  unfoldable pub evaluate_entry : Settings F → EntryInput F → RiskDecision F
  unfolding denied
  evaluate_entry c e =
      if not (inputs_finite e)
      then denied "Non-finite market or risk input"
      else if not (is_buy e.signal.side)
      then denied "No buy signal"
      else if e.signal.confidence <? e.threshold
      then denied (
          "Confidence "
          <> (fixed3 e.signal.confidence <> (" below threshold " <> fixed3 e.threshold)))
      else if e.equity ≤? nought || e.price ≤? nought
      then denied "Equity or market price is zero"
      else if daily_loss_reached c e
      then denied "Daily loss limit reached"
      else approved c e
