-- ===== src/Strategy/Confidence.antt =====
-- The range of a signal's confidence, and a bonus that no bearish exit receives
-- (app/strategy/ensemble.py).
use binance_bot.Base.{ℕ, ◌≤◌, ◌≡◌, refl, Bool, true, List, arith}
use binance_bot.Base.Float.{
  Float, ◌⊕◌, ◌⊖◌, ◌⊗◌, ◌⊘◌, ◌<?◌, ◌≤?◌, lit, nought, fmax, fmin, IsOrdered,
}
use binance_bot.Models.{SignalSide}
use binance_bot.Strategy.{
  EnsembleStrategy, Candle, Bar, Enriched, Frame, missing_columns, not_numeric, candles, bearish,
  trend_separation_atr, entry_signal, bearish_confidence, buy_confidence, decide, evaluate_candles,
  evaluate,
}

module _ {F : Type 0} ⦃fl : Float F⦄ where
  -- between zero and 0.95
  pub InRange : F → Type 0
  InRange x = (nought ≤? x ≡ true) × (x ≤? lit 95 100 ≡ true)

  -- 0.75 + 0.10
  abbrev pub raised : F
  raised = lit 75 100 ⊕ lit 10 100

module _ {F : Type 0} ⦃fl : Float F⦄ (ord : IsOrdered F) where
  lit-InRange : (n : ℕ) → n ≤ 95 → InRange {F = F} (lit n 100)
  unfolding InRange
  lit-InRange n h = (
    ord.lit-le 0 1 n 100 (omega arith) (omega arith) (omega arith),
    ord.lit-le n 100 95 100 (omega arith) (omega arith) (omega arith),
  )

  nought-InRange : InRange {F = F} nought
  unfolding InRange
  nought-InRange = (
    ord.lit-le 0 1 0 1 (omega arith) (omega arith) (omega arith),
    ord.lit-le 0 1 95 100 (omega arith) (omega arith) (omega arith),
  )

  -- also of a NaN
  clamped-InRange : (x : F) → InRange (fmax nought (fmin x (lit 95 100)))
  unfolding InRange
  clamped-InRange x =
      let top = lit {F = F} 95 100 in
      let (z, t) = nought-InRange in
      ground (
        arith,
        ord.le-ends nought top,
        ord.lt-ends nought x,
        ord.lt-ends nought top,
        ord.lt-eq-not-le nought x,
        ord.lt-eq-not-le nought top,
        ord.lt-eq-not-le top x,
        ord.le_total nought x,
        ord.le_total nought top,
      )

  capped-InRange : (x : F) → nought ≤? x ≡ true → InRange (fmin x (lit 95 100))
  unfolding InRange
  capped-InRange x h =
      let top = lit {F = F} 95 100 in
      let (z, t) = nought-InRange in
      ground (
        arith,
        ord.le-ends nought x,
        ord.le-ends nought top,
        ord.lt-eq-not-le top x,
        ord.le_total top x,
      )

  entry_signal-InRange :
      (p : EnsembleStrategy F) (x prev : Bar F) → InRange (entry_signal p x prev).confidence
  unfolding entry_signal InRange
  entry_signal-InRange p x prev =
      ground (arith, nought-InRange, clamped-InRange (buy_confidence p x prev))

  decide-InRange :
      (p : EnsembleStrategy F) (x prev : Bar F) (has_position : Bool)
      → nought ≤? raised {F = F} ≡ true
      → InRange (decide p x prev has_position).confidence
  unfolding decide bearish_confidence InRange
  decide-InRange p x prev has_position h = ground (
    arith,
    nought-InRange,
    entry_signal-InRange p x prev,
    capped-InRange (lit 75 100) (lit-InRange 75 (omega arith)).0,
    capped-InRange raised h,
    lit-InRange 65 (omega arith),
    lit-InRange 75 (omega arith),
  )

  -- Every signal's confidence is between 0 and 0.95, whatever the candles and the indicators, and a
  -- hold has confidence 0. The rounded sum of 0.75 and 0.10 is not negative.
  pub evaluate-confidence :
      (p : EnsembleStrategy F) (enrich : List (Candle F) → Enriched F) (frame : Frame F)
      (has_position : Bool)
      → nought ≤? raised {F = F} ≡ true
      → InRange (evaluate p enrich frame has_position).confidence
        × ((evaluate p enrich frame has_position).side ≡ SignalSide.hold
            → (evaluate p enrich frame has_position).confidence ≡ nought)
  unfolding evaluate evaluate_candles decide entry_signal
  evaluate-confidence p enrich missing_columns has_position h = (nought-InRange, λ e. refl)
  evaluate-confidence p enrich (not_numeric n) has_position h =
      (ground (arith, nought-InRange), λ e. ground arith)
  evaluate-confidence p enrich (candles ks) has_position h = (
    ground (
      arith,
      nought-InRange,
      decide-InRange p (enrich ks).latest (enrich ks).previous has_position h,
    ),
    λ e. ground arith,
  )

  -- The bonus for a wide separation of the averages is never added to the confidence of a bearish
  -- exit: the separation has a sign, and is not positive while the fast average is below the slow
  -- one. The required separation times 1.5 is a positive number; a difference of a smaller and a
  -- larger number is not positive, nor is its quotient by a positive number.
  pub bearish_confidence-no_bonus :
      (p : EnsembleStrategy F) (x : Bar F)
      → (x.ema_fast <? x.ema_slow ≡ true → x.ema_fast ⊖ x.ema_slow ≤? nought ≡ true)
      → ((a : F) → a ≤? nought ≡ true → nought <? x.atr ≡ true → a ⊘ x.atr ≤? nought ≡ true)
      → nought <? p.min_trend_atr ⊗ lit 15 10 ≡ true
      → bearish x ≡ true
      → bearish_confidence p x ≡ lit 75 100
  unfolding bearish_confidence trend_separation_atr bearish
  bearish_confidence-no_bonus p x sub div pos h =
      let bound = p.min_trend_atr ⊗ lit 15 10 in
      let gap = x.ema_fast ⊖ x.ema_slow in
      ground (
        arith,
        nought-InRange,
        div gap,
        ord.le_trans bound (gap ⊘ x.atr) nought,
        ord.lt-ends nought bound,
        ord.lt-eq-not-le nought bound,
      )
