-- ===== src/Strategy.antt =====
-- The entry and exit decision (app/strategy/ensemble.py, class EnsembleStrategy). The indicators
-- (app/strategy/indicators.py, computed by pandas) are a parameter of the model.
pub mod Checks
pub mod Confidence
use binance_bot.Base.{
  ℕ, String, ◌<>◌, Bool, true, false, not, ◌&&◌, ◌||◌, Option, none, some, List, [], ◌∷◌, ltb,
  if◌then◌else◌, length, any, All,
}
use binance_bot.Base.Float.{
  Float, ◌⊕◌, ◌⊖◌, ◌⊗◌, ◌⊘◌, ◌<?◌, ◌≤?◌, negate, is_finite, lit, nought, fmax, fmin, fabs,
}
use binance_bot.Models.{SignalSide, StrategySignal}

-- the constructor's arguments
pub record EnsembleStrategy (F : Type 0) : Type 0 where
  pub min_volume_ratio : F
  pub max_extension_atr : F
  pub min_trend_atr : F
  pub min_adx : F

-- a row of the columns open, high, low, close and volume, as floats
pub record Candle (F : Type 0) : Type 0 where
  pub open_price : F
  pub high : F
  pub low : F
  pub close : F
  pub volume : F

-- the columns of `enrich` that `evaluate` reads
pub record Bar (F : Type 0) : Type 0 where
  pub close : F
  pub ema_fast : F
  pub ema_slow : F
  pub rsi : F
  pub momentum_5 : F
  pub volume_ratio : F
  pub atr : F
  pub atr_pct : F
  pub adx : F
  pub plus_di : F
  pub minus_di : F
  pub ema_slow_slope_5 : F

-- The last two rows of `enrich`, and whether all their columns are finite.
pub record Enriched (F : Type 0) : Type 0 where
  pub latest : Bar F
  pub previous : Bar F
  pub all_finite : Bool

-- the data frame: columns missing, not numbers, or candles
pub data Frame (F : Type 0) : Type 0 where
  missing_columns : Frame F
  not_numeric : ℕ → Frame F
  candles : List (Candle F) → Frame F

module _ {F : Type 0} ⦃fl : Float F⦄ where
  abbrev pub hold_signal : String → Option F → StrategySignal F
  hold_signal why atr = record {
    side = SignalSide.hold;
    confidence = nought;
    reason = why;
    atr_pct = atr;
  }

  -- a row that makes the data invalid
  unfoldable pub bad_candle : Candle F → Bool
  bad_candle k =
      not (
        is_finite k.open_price
        && (is_finite k.high && (is_finite k.low && (is_finite k.close && is_finite k.volume))))
      || (k.open_price ≤? nought
          || (k.high ≤? nought
              || (k.low ≤? nought
                  || (k.close ≤? nought
                      || (k.volume <? nought
                          || (k.high <? fmax (fmax k.open_price k.close) k.low
                              || fmin (fmin k.open_price k.close) k.high <? k.low))))))

  unfoldable pub bullish : Bar F → Bool
  bullish x = x.ema_slow <? x.ema_fast && (x.ema_fast <? x.close && nought <? x.momentum_5)

  unfoldable pub bearish : Bar F → Bool
  bearish x = x.ema_fast <? x.ema_slow && (x.close <? x.ema_fast && x.momentum_5 <? nought)

  unfoldable pub fresh_bull_cross : Bar F → Bar F → Bool
  fresh_bull_cross x prev = prev.ema_fast ≤? prev.ema_slow && x.ema_slow <? x.ema_fast

  -- features["trend_separation_atr"]
  unfoldable pub trend_separation_atr : Bar F → F
  trend_separation_atr x = if nought <? x.atr then (x.ema_fast ⊖ x.ema_slow) ⊘ x.atr else nought

  abbrev pub rsi_ok : Bar F → Bool
  rsi_ok x = lit 43 1 ≤? x.rsi && x.rsi ≤? lit 70 1

module _ {F : Type 0} ⦃fl : Float F⦄ (p : EnsembleStrategy F) where
  -- `checks`
  unfoldable pub entry_checks : Bar F → List (String × Bool)
  unfolding trend_separation_atr
  entry_checks x =
      ("Fast EMA above slow EMA", x.ema_slow <? x.ema_fast)
      ∷ ("Close above fast EMA", x.ema_fast <? x.close)
      ∷ ("Positive 5-candle momentum", nought <? x.momentum_5)
      ∷ ("RSI between 43 and 70", rsi_ok x)
      ∷ ("Sufficient EMA separation", p.min_trend_atr ≤? trend_separation_atr x)
      ∷ ("ADX confirms a trending market", p.min_adx ≤? x.adx)
      ∷ ("Positive directional movement", x.minus_di <? x.plus_di)
      ∷ ("Medium-term EMA slope is positive", nought <? x.ema_slow_slope_5)
      ∷ ("Sufficient relative volume", p.min_volume_ratio ≤? x.volume_ratio)
      ∷ (
        "Price not overextended",
        nought <? x.atr && (x.close ⊖ x.ema_fast) ≤? p.max_extension_atr ⊗ x.atr,
      )
      ∷ []

  -- the sum of `components`
  unfoldable pub buy_confidence : Bar F → Bar F → F
  unfolding fresh_bull_cross
  buy_confidence x prev =
      nought
      ⊕ lit 55 100
      ⊕ fmin (fabs ((x.ema_fast ⊖ x.ema_slow) ⊘ x.close) ⊗ lit 35 1) (lit 12 100)
      ⊕ fmin (fmax x.momentum_5 nought ⊗ lit 8 1) (lit 10 100)
      ⊕ fmin (fmax (x.adx ⊖ p.min_adx) nought ⊗ lit 2 1000) (lit 8 100)
      ⊕ fmin (fmax x.ema_slow_slope_5 nought ⊗ lit 40 1) (lit 8 100)
      ⊕ (if lit 105 100 <? x.volume_ratio then lit 5 100 else nought)
      ⊕ (if fresh_bull_cross x prev then lit 8 100 else nought)
      ⊕ (if lit 4 100 <? x.atr_pct then negate (lit 8 100) else nought)

  -- a flat market with a bullish set-up
  unfoldable pub entry_signal : Bar F → Bar F → StrategySignal F
  unfolding trend_separation_atr buy_confidence
  entry_signal x prev =
      if trend_separation_atr x <? p.min_trend_atr
      then hold_signal "Entry blocked: weak EMA trend separation" (some x.atr_pct)
      else if x.adx <? p.min_adx
      then hold_signal "Entry blocked: ADX shows a weak or choppy trend" (some x.atr_pct)
      else if x.plus_di ≤? x.minus_di
      then hold_signal "Entry blocked: bearish directional pressure" (some x.atr_pct)
      else if x.ema_slow_slope_5 ≤? nought
      then hold_signal "Entry blocked: medium-term trend is not rising" (some x.atr_pct)
      else if x.volume_ratio <? p.min_volume_ratio
      then hold_signal "Entry blocked: weak relative volume" (some x.atr_pct)
      else if x.atr ≤? nought || p.max_extension_atr ⊗ x.atr <? x.close ⊖ x.ema_fast
      then hold_signal "Entry blocked: price extended above EMA trend" (some x.atr_pct)
      else record {
        side = SignalSide.buy;
        confidence = fmax nought (fmin (buy_confidence x prev) (lit 95 100));
        reason = "Bullish EMA trend with positive momentum and acceptable RSI";
        atr_pct = some x.atr_pct;
      }

  -- the confidence of the bearish exit
  unfoldable pub bearish_confidence : Bar F → F
  unfolding trend_separation_atr
  bearish_confidence x =
      if p.min_trend_atr ⊗ lit 15 10 ≤? trend_separation_atr x
      then lit 75 100 ⊕ lit 10 100
      else lit 75 100

-- `"; ".join(failed)`
unfoldable pub join_failed : List (String × Bool) → String
join_failed [] = ""
join_failed ((name, true) ∷ cs) = join_failed cs
join_failed ((name, false) ∷ cs) =
    let rest = join_failed cs in if any (λ c. not c.1) cs then name <> ("; " <> rest) else name

module _ {F : Type 0} ⦃fl : Float F⦄ (p : EnsembleStrategy F) where
  -- the branches on the position, from `if not has_position and bullish …` on
  unfoldable pub decide : Bar F → Bar F → Bool → StrategySignal F
  unfolding bullish bearish entry_signal bearish_confidence entry_checks join_failed
  decide x prev has_position =
      if not has_position && (bullish x && rsi_ok x)
      then entry_signal p x prev
      else if has_position && bearish x
      then record {
        side = SignalSide.sell;
        confidence = fmin (bearish_confidence p x) (lit 95 100);
        reason = "Exit signal from confirmed bearish trend";
        atr_pct = some x.atr_pct;
      }
      else if has_position && (x.ema_fast <? x.ema_slow && x.close <? x.ema_slow)
      then record {
        side = SignalSide.sell;
        confidence = if nought ≤? x.momentum_5 then lit 65 100 else lit 75 100;
        reason = "Trend flip exit: price closed below both EMAs";
        atr_pct = some x.atr_pct;
      }
      else if has_position
      then hold_signal "Position retained; no strategy exit" (some x.atr_pct)
      else hold_signal ("Entry requirements not met: " <> join_failed (entry_checks p x))
          (some x.atr_pct)

  -- numeric candles
  unfoldable pub evaluate_candles :
      (List (Candle F) → Enriched F) → List (Candle F) → Bool → StrategySignal F
  unfolding bad_candle decide
  evaluate_candles enrich ks has_position =
      if any bad_candle ks
      then hold_signal "Invalid candle data" none
      else (let df = enrich ks in
          if not df.all_finite
          then hold_signal "Indicators unavailable for latest candles" none
          else decide df.latest df.previous has_position)

  unfoldable pub evaluate : (List (Candle F) → Enriched F) → Frame F → Bool → StrategySignal F
  unfolding evaluate_candles
  evaluate enrich missing_columns has_position = hold_signal "Missing OHLCV candle data" none
  evaluate enrich (not_numeric n) has_position =
      if ltb n 60
      then hold_signal "Not enough candles" none
      else hold_signal "Invalid candle data" none
  evaluate enrich (candles ks) has_position =
      if ltb (length ks) 60
      then hold_signal "Not enough candles" none
      else evaluate_candles enrich ks has_position
