-- ===== src/Learning/Clamp.antt =====
-- What adaptation can reach, and that a trade is learnt from once (app/agents/learning.py).
use binance_bot.Base.{ℕ, ◌≡◌, true, List, [], ◌∷◌, arith}
use binance_bot.Base.Float.{Float, ◌≤?◌, lit, IsOrdered, le-fmax_left}
use binance_bot.Config.{Settings}
use binance_bot.Storage.Rows.{Trade}
use binance_bot.Learning.{
  Saved, missing, unreadable, saved, default_profile, clamp_multiplier, clamp_profile, load,
  learned, update_enabled, update,
}

module _ {F : Type 0} ⦃fl : Float F⦄ where
  -- between one half and one
  pub InBand : F → Type 0
  InBand x = (lit 5 10 ≤? x ≡ true) × (x ≤? lit 1 1 ≡ true)

module _ {F : Type 0} ⦃fl : Float F⦄ (ord : IsOrdered F) where
  half-le : lit {F = F} 5 10 ≤? lit 1 1 ≡ true
  half-le = ord.lit-le 5 10 1 1 (omega arith) (omega arith) (omega arith)

  one-le : lit {F = F} 1 1 ≤? lit 1 1 ≡ true
  one-le = ord.lit-le 1 1 1 1 (omega arith) (omega arith) (omega arith)

  clamp_multiplier-InBand : (x : F) → InBand (clamp_multiplier x)
  unfolding clamp_multiplier InBand
  clamp_multiplier-InBand x = ground (
    arith,
    half-le,
    ord.le-ends (lit 5 10) (lit 1 1),
    ord.lt-ends (lit 5 10) x,
    ord.lt-eq-not-le (lit 5 10) x,
    ord.lt-eq-not-le x (lit 1 1),
    ord.le_total (lit 5 10) x,
    ord.le_total x (lit 1 1),
  )

  -- Whatever the profile file holds, and learning enabled or not, the loaded threshold is not below
  -- the configured minimum (a number) and the loaded multiplier is between one half and one.
  pub load-bounds :
      (c : Settings F) (file : Saved F)
      → c.min_signal_confidence ≤? c.min_signal_confidence ≡ true
      → (c.min_signal_confidence ≤? (load c file).confidence_threshold ≡ true)
        × InBand (load c file).risk_multiplier
  unfolding load default_profile clamp_profile InBand
  load-bounds c missing h = ground (arith, half-le, one-le)
  load-bounds c unreadable h = ground (arith, half-le, one-le)
  load-bounds c (saved p) h = ground (
    arith,
    half-le,
    one-le,
    le-fmax_left ord c.min_signal_confidence p.confidence_threshold h,
    clamp_multiplier-InBand p.risk_multiplier,
  )

module _ {F : Type 0} ⦃fl : Float F⦄ where
  -- Learning a second time from the same closed trades leaves the profile file as it is, whatever the
  -- file was before the first time.
  pub update-once :
      (round : ℕ → F → F) (c : Settings F) (now now' : ℕ) (trades : List (Trade F)) (file : Saved F)
      → (update round c now' trades (update round c now trades file).1).1
        ≡ (update round c now trades file).1
  unfolding update update_enabled learned
  update-once round c now now' [] file = ground arith
  update-once round c now now' (t ∷ ts) file = ground arith
