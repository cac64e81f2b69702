-- ===== src/Strategy/Checks.antt =====
-- What a buy and a sell signal stand for (app/strategy/ensemble.py).
use mathlib.Core.Path.{subst, sym}
use binance_bot.Base.{
  ◌≡◌, ◌↔◌, ◌&&◌, refl, Bool, true, false, not, ◌||◌, List, arith, any, ltb, length,
}
use binance_bot.Base.Float.{Float, ◌⊗◌, ◌⊖◌, ◌<?◌, ◌≤?◌, nought, IsOrdered}
use binance_bot.Models.{SignalSide}
use binance_bot.Strategy.{
  EnsembleStrategy, Candle, Bar, Enriched, Frame, missing_columns, not_numeric, candles, bad_candle,
  bullish, bearish, rsi_ok, trend_separation_atr, entry_checks, entry_signal, decide,
  evaluate_candles, evaluate,
}

module _ {F : Type 0} ⦃fl : Float F⦄ where
  -- The compared values are numbers, as IEEE division can leave a NaN.
  pub record AllNumbers (p : EnsembleStrategy F) (x : Bar F) : Type 0 where
    pub separation : trend_separation_atr x ≤? trend_separation_atr x ≡ true
    pub min_trend : p.min_trend_atr ≤? p.min_trend_atr ≡ true
    pub adx : x.adx ≤? x.adx ≡ true
    pub min_adx : p.min_adx ≤? p.min_adx ≡ true
    pub plus_di : x.plus_di ≤? x.plus_di ≡ true
    pub minus_di : x.minus_di ≤? x.minus_di ≡ true
    pub slope : x.ema_slow_slope_5 ≤? x.ema_slow_slope_5 ≡ true
    pub zero : nought {F = F} ≤? nought ≡ true
    pub volume : x.volume_ratio ≤? x.volume_ratio ≡ true
    pub min_volume : p.min_volume_ratio ≤? p.min_volume_ratio ≡ true
    pub atr : x.atr ≤? x.atr ≡ true
    pub extension : x.close ⊖ x.ema_fast ≤? x.close ⊖ x.ema_fast ≡ true
    pub max_extension : p.max_extension_atr ⊗ x.atr ≤? p.max_extension_atr ⊗ x.atr ≡ true

  entry_signal-buy :
      (ord : IsOrdered F) (p : EnsembleStrategy F) (x prev : Bar F)
      → AllNumbers p x
      → bullish x ≡ true
      → rsi_ok x ≡ true
      → (entry_signal p x prev).side ≡ SignalSide.buy
      → any (λ c. not c.1) (entry_checks p x) ≡ false
  unfolding entry_signal entry_checks bullish
  entry_signal-buy ord p x prev n b r h = ground (
    arith,
    n,
    ord.lt-eq-not-le (trend_separation_atr x) p.min_trend_atr n.separation n.min_trend,
    ord.lt-eq-not-le x.adx p.min_adx n.adx n.min_adx,
    ord.lt-eq-not-le x.minus_di x.plus_di n.minus_di n.plus_di,
    ord.lt-eq-not-le nought x.ema_slow_slope_5 n.zero n.slope,
    ord.lt-eq-not-le x.volume_ratio p.min_volume_ratio n.volume n.min_volume,
    ord.lt-eq-not-le nought x.atr n.zero n.atr,
    ord.lt-eq-not-le (p.max_extension_atr ⊗ x.atr) (x.close ⊖ x.ema_fast) n.max_extension
        n.extension,
  )

  decide-buy :
      (p : EnsembleStrategy F) (x prev : Bar F) (has_position : Bool)
      → (decide p x prev has_position).side ≡ SignalSide.buy
      → (has_position ≡ false)
        × (bullish x ≡ true)
        × (rsi_ok x ≡ true)
        × ((entry_signal p x prev).side ≡ SignalSide.buy)
  unfolding decide
  decide-buy p x prev has_position h = ground arith

  -- A buy signal is only given without a position, on at least 60 valid candles whose indicators are
  -- finite, and with every entry check passed, where the compared values are numbers.
  pub evaluate-buy :
      (ord : IsOrdered F) (p : EnsembleStrategy F) (enrich : List (Candle F) → Enriched F)
      (ks : List (Candle F)) (has_position : Bool)
      → AllNumbers p (enrich ks).latest
      → (evaluate p enrich (candles ks) has_position).side ≡ SignalSide.buy
      → (has_position ≡ false)
        × (ltb (length ks) 60 ≡ false)
        × (any bad_candle ks ≡ false)
        × ((enrich ks).all_finite ≡ true)
        × (any (λ c. not c.1) (entry_checks p (enrich ks).latest) ≡ false)
  unfolding evaluate evaluate_candles
  evaluate-buy ord p enrich ks has_position n h =
      let latest = (enrich ks).latest in
      let prev = (enrich ks).previous in
      let (flat, b, r, e) = decide-buy p latest prev has_position (ground arith) in
      (flat, ground arith, ground arith, ground arith, entry_signal-buy ord p latest prev n b r e)

  -- The bar ends a position: the fast average is below the slow one, and either the price has closed
  -- below the fast one while momentum is negative, or it has closed below the slow one.
  abbrev pub ends_position : Bar F → Bool
  ends_position x =
      x.ema_fast <? x.ema_slow
      && (x.close <? x.ema_fast && x.momentum_5 <? nought || x.close <? x.ema_slow)

  decide-sell :
      (p : EnsembleStrategy F) (x prev : Bar F) (has_position : Bool)
      → ((decide p x prev has_position).side ≡ SignalSide.sell)
        ↔ ((has_position ≡ true) × (ends_position x ≡ true))
  unfolding decide entry_signal bearish
  decide-sell p x prev has_position = (λ h. (ground arith, ground arith), λ h. ground arith)

  sell-cases :
      (p : EnsembleStrategy F) (enrich : List (Candle F) → Enriched F) (frame : Frame F)
      (has_position : Bool)
      → (evaluate p enrich frame has_position).side ≡ SignalSide.sell
      → (has_position ≡ true)
        × (ks : List (Candle F)) × (frame ≡ candles ks)
        × (ltb (length ks) 60 ≡ false)
        × (any bad_candle ks ≡ false)
        × ((enrich ks).all_finite ≡ true)
        × (ends_position (enrich ks).latest ≡ true)
  unfolding evaluate evaluate_candles
  sell-cases p enrich missing_columns has_position h = absurd (ground arith)
  sell-cases p enrich (not_numeric n) has_position h = absurd (ground arith)
  sell-cases p enrich (candles ks) has_position h =
      let decided =
        (decide-sell p (enrich ks).latest (enrich ks).previous has_position).0 (ground arith) in
      (decided.0, ks, refl, ground arith, ground arith, ground arith, decided.1)

  -- A sell signal is given exactly with a position, on at least 60 valid candles whose indicators are
  -- finite, when the fast average is below the slow one and either the price has closed below the fast
  -- one while momentum is negative or it has closed below the slow one, whether or not it is below the
  -- fast one.
  pub evaluate-sell :
      (p : EnsembleStrategy F) (enrich : List (Candle F) → Enriched F) (frame : Frame F)
      (has_position : Bool)
      → ((evaluate p enrich frame has_position).side ≡ SignalSide.sell) ↔ (
          (has_position ≡ true)
          × (ks : List (Candle F)) × (frame ≡ candles ks)
          × (ltb (length ks) 60 ≡ false)
          × (any bad_candle ks ≡ false)
          × ((enrich ks).all_finite ≡ true)
          × (ends_position (enrich ks).latest ≡ true))
  unfolding evaluate evaluate_candles
  evaluate-sell p enrich frame has_position = (
    sell-cases p enrich frame has_position,
    λ (held, ks, e, long, valid, finite, ends).
        let sells : (evaluate p enrich (candles ks) has_position).side ≡ SignalSide.sell = ground (
          arith,
          (decide-sell p (enrich ks).latest (enrich ks).previous has_position).1 (held, ends),
        ) in
        subst (λ f. (evaluate p enrich f has_position).side ≡ SignalSide.sell) (sym e) sells,
  )
