-- ===== src/Risk/Bounds.antt =====
-- What an approval guarantees, and the range of the volatility-scaled stop (app/risk/manager.py).
use binance_bot.Base.{◌≡◌, true, false, arith, ◌↔◌}
use binance_bot.Base.Float.{
  Float, ◌⊗◌, ◌⊘◌, ◌<?◌, ◌≤?◌, lit, nought, fmax, fmin, IsOrdered, le-fmax_left, le-fmax_right,
  fmin-le_left, fmin-le_right,
}
use binance_bot.Config.{Settings}
use binance_bot.Risk.{
  EntryInput, Conversion, is_buy, clamped_stop, inputs_finite, daily_loss_reached, quantity_by_risk,
  quantity_by_exposure, distances, approved, evaluate_entry,
}

module _ {F : Type 0} ⦃fl : Float F⦄ where
  -- not a NaN
  abbrev pub IsNumber : F → Type 0
  IsNumber x = x ≤? x ≡ true

  le-fmin : (x a b : F) → x ≤? a ≡ true → x ≤? b ≡ true → x ≤? fmin a b ≡ true
  le-fmin x a b h k = ground arith

  fmax-IsNumber : (a b : F) → IsNumber a → IsNumber b → IsNumber (fmax a b)
  fmax-IsNumber a b h k = ground arith

  fmin-IsNumber : (a b : F) → IsNumber a → IsNumber b → IsNumber (fmin a b)
  fmin-IsNumber a b h k = ground arith

  fmax-le : (a b x : F) → a ≤? x ≡ true → b ≤? x ≡ true → fmax a b ≤? x ≡ true
  fmax-le a b x h k = ground arith

module _ {F : Type 0} ⦃fl : Float F⦄ (ord : IsOrdered F) (c : Settings F) (atr : F) where
  abbrev half : F
  half = c.stop_loss_pct ⊘ lit 2 1

  abbrev double : F
  double = c.stop_loss_pct ⊗ lit 2 1

  -- The volatility-scaled stop is at most twice the fixed stop and at most the absolute maximum; it is
  -- at least half the fixed stop and at least the absolute minimum, wherever those lie below both
  -- upper limits. All of these are numbers.
  pub clamped_stop_bounds :
      IsNumber (c.atr_stop_multiplier ⊗ atr)
      → IsNumber half
      → IsNumber c.atr_stop_min_pct
      → IsNumber double
      → IsNumber c.atr_stop_max_pct
      → (clamped_stop c atr ≤? double ≡ true)
        × (clamped_stop c atr ≤? c.atr_stop_max_pct ≡ true)
        × (half ≤? double ≡ true
            → half ≤? c.atr_stop_max_pct ≡ true
            → half ≤? clamped_stop c atr ≡ true)
        × (c.atr_stop_min_pct ≤? double ≡ true
            → c.atr_stop_min_pct ≤? c.atr_stop_max_pct ≡ true
            → c.atr_stop_min_pct ≤? clamped_stop c atr ≡ true)
  unfolding clamped_stop
  clamped_stop_bounds nr nh nl nd nm =
      let raw = c.atr_stop_multiplier ⊗ atr in
      let inner = fmax raw half in
      let floor = fmax inner c.atr_stop_min_pct in
      let cap = fmin floor double in
      let ni = fmax-IsNumber raw half nr nh in
      let nf = fmax-IsNumber inner c.atr_stop_min_pct ni nl in
      let nc = fmin-IsNumber floor double nf nd in
      let half-floor =
        ord.le_trans half inner floor (le-fmax_right ord raw half nr nh)
          (le-fmax_left ord inner c.atr_stop_min_pct ni) in
      let min-floor = le-fmax_right ord inner c.atr_stop_min_pct ni nl in
      (
        ord.le_trans (fmin cap c.atr_stop_max_pct) cap double
            (fmin-le_left ord cap c.atr_stop_max_pct nc) (fmin-le_right ord floor double nf nd),
        fmin-le_right ord cap c.atr_stop_max_pct nc nm,
        λ h k. le-fmin half cap c.atr_stop_max_pct (le-fmin half floor double half-floor h) k,
        λ h k.
            le-fmin c.atr_stop_min_pct cap c.atr_stop_max_pct
              (le-fmin c.atr_stop_min_pct floor double min-floor h) k,
      )

module _ {F D : Type 0} ⦃fl : Float F⦄ ⦃dl : Float D⦄ (cv : Conversion F D) (c : Settings F)
    (e : EntryInput F) where
  open cv use {flo}

  -- An entry is approved exactly when every input is finite, the signal is a buy, its confidence is
  -- not below the threshold, equity and price are positive, and the daily loss limit is not reached.
  pub evaluate_entry-allowed : ((evaluate_entry cv c e).allowed ≡ true) ↔ (
      (inputs_finite e ≡ true)
      × (is_buy e.signal.side ≡ true)
      × ((e.signal.confidence <? e.threshold) ≡ false)
      × ((e.equity ≤? nought) ≡ false)
      × ((e.price ≤? nought) ≡ false)
      × (daily_loss_reached cv c e ≡ false))
  unfolding evaluate_entry approved
  evaluate_entry-allowed = (λ h. ground arith, λ h. ground arith)

  -- An approved quantity is a conversion of a number that is not negative, and that is within the
  -- risk budget and within the exposure limit where these two allow for a quantity at all.
  pub evaluate_entry-sized :
      IsOrdered D
      → IsNumber (quantity_by_risk cv c e (distances cv c e.signal).0)
      → IsNumber (quantity_by_exposure cv c e)
      → (evaluate_entry cv c e).allowed ≡ true
      → (q : D) × ((evaluate_entry cv c e).quantity ≡ flo q)
        × (nought ≤? q ≡ true)
        × (nought ≤? quantity_by_risk cv c e (distances cv c e.signal).0 ≡ true
            → nought ≤? quantity_by_exposure cv c e ≡ true
            → (q ≤? quantity_by_risk cv c e (distances cv c e.signal).0 ≡ true)
              × (q ≤? quantity_by_exposure cv c e ≡ true))
  unfolding evaluate_entry approved
  evaluate_entry-sized ord nr nx ok =
      let a = quantity_by_risk cv c e (distances cv c e.signal).0 in
      let b = quantity_by_exposure cv c e in
      let m = fmin a b in
      let nm = fmin-IsNumber a b nr nx in
      let nz = ord.finite-le nought ord.nought_finite in
      (
        fmax m nought,
        ground arith,
        le-fmax_right ord m nought nm nz,
        λ h k. (
          fmax-le m nought a (fmin-le_left ord a b nr) h,
          fmax-le m nought b (fmin-le_right ord a b nr nx) k,
        ),
      )
