-- ===== src/Learning.antt =====
-- Adaptation from completed trades (app/agents/learning.py, class LearningAgent). The profile file is
-- the state; `round` is a parameter, as a double's rounding to decimals is the runtime's.
pub mod Clamp
use binance_bot.Base.{
  ℕ, Bool, true, false, not, ◌&&◌, ◌||◌, Option, none, some, List, [], ◌∷◌, ltb, leb, ◌==◌,
  if◌then◌else◌, length, take, count_where,
}
use binance_bot.Base.Float.{Float, ◌⊕◌, ◌⊖◌, ◌⊘◌, ◌<?◌, ◌≤?◌, lit, nought, fmax, fmin}
use binance_bot.Config.{Mode, Settings, mode_eq}
use binance_bot.Storage.Rows.{Trade}

pub record LearningProfile (F : Type 0) : Type 0 where
  pub confidence_threshold : F
  pub risk_multiplier : F
  pub last_win_rate : Option F
  pub last_avg_pnl_pct : Option F
  pub samples : ℕ
  pub updated_at : Option ℕ
  pub last_trade_id : Option ℕ

-- The profile file: absent, not a profile (reading it raises), or a profile.
pub data Saved (F : Type 0) : Type 0 where
  missing unreadable : Saved F
  saved : LearningProfile F → Saved F

abbrev pub learning_enabled_for_mode : {F : Type 0} → Settings F → Bool
learning_enabled_for_mode c =
    c.enable_adaptive_learning && not (mode_eq c.mode Mode.live && not c.allow_adaptive_live)

abbrev pub is_last_trade : {F : Type 0} → LearningProfile F → ℕ → Bool
is_last_trade p i = elim p.last_trade_id [ none ↦ false | some j ↦ j == i ]

module _ {F : Type 0} ⦃fl : Float F⦄ where
  unfoldable pub default_profile : Settings F → LearningProfile F
  default_profile c = record {
    confidence_threshold = c.min_signal_confidence;
    risk_multiplier = lit 1 1;
    last_win_rate = none;
    last_avg_pnl_pct = none;
    samples = 0;
    updated_at = none;
    last_trade_id = none;
  }

  -- min(1.0, max(0.5, x))
  unfoldable pub clamp_multiplier : F → F
  clamp_multiplier x = fmin (lit 1 1) (fmax (lit 5 10) x)

  -- the two clamped assignments of `load`
  unfoldable pub clamp_profile : Settings F → LearningProfile F → LearningProfile F
  unfolding clamp_multiplier
  clamp_profile c p = record p {
    confidence_threshold = fmax c.min_signal_confidence p.confidence_threshold;
    risk_multiplier = clamp_multiplier p.risk_multiplier;
  }

  unfoldable pub load : Settings F → Saved F → LearningProfile F
  unfolding default_profile clamp_profile
  load c file = if not (learning_enabled_for_mode c) then default_profile c else elim file [
    | missing ↦ default_profile c
    | unreadable ↦ default_profile c
    | saved p ↦ clamp_profile c p
  ]

  -- `float(x or 0)`
  abbrev pub or_zero : Option F → F
  or_zero none = nought
  or_zero (some p) = p

  abbrev pub is_win : Trade F → Bool
  is_win t = nought <? or_zero t.pnl

  abbrev pub sum_pnl_pct : F → List (Trade F) → F
  sum_pnl_pct acc [] = acc
  sum_pnl_pct acc (t ∷ ts) = sum_pnl_pct (acc ⊕ or_zero t.pnl_pct) ts

  abbrev pub win_rate_of : List (Trade F) → F
  win_rate_of sample = lit (count_where is_win sample) 1 ⊘ lit (length sample) 1

  abbrev pub avg_pnl_pct_of : List (Trade F) → F
  avg_pnl_pct_of sample = sum_pnl_pct nought sample ⊘ lit (length sample) 1

  -- (threshold, risk_multiplier) after the sample
  unfoldable pub adjust : Settings F → F → F → F → F → F × F
  adjust c win_rate avg_pnl_pct threshold multiplier =
      if win_rate <? lit 45 100 || avg_pnl_pct ≤? nought
      then (fmin (lit 95 100) (threshold ⊕ lit 3 100), fmax (lit 50 100) (multiplier ⊖ lit 5 100))
      else if lit 60 100 <? win_rate && nought <? avg_pnl_pct
      then (
        fmax c.min_signal_confidence (threshold ⊖ lit 2 100),
        fmin (lit 1 1) (multiplier ⊕ lit 5 100),
      )
      else (threshold, multiplier)

  -- the profile that is written; `round n x` is `round(x, n)`
  unfoldable pub learned :
      (ℕ → F → F) → Settings F → ℕ → LearningProfile F → List (Trade F) → ℕ → LearningProfile F
  unfolding adjust clamp_multiplier
  learned round c now p sample latest =
      let (threshold, multiplier) =
        adjust c (win_rate_of sample) (avg_pnl_pct_of sample)
          (fmax c.min_signal_confidence p.confidence_threshold)
          (clamp_multiplier p.risk_multiplier) in
      record {
        confidence_threshold = round 4 (fmax c.min_signal_confidence threshold);
        risk_multiplier = round 4 multiplier;
        last_win_rate = some (round 4 (win_rate_of sample));
        last_avg_pnl_pct = some (round 6 (avg_pnl_pct_of sample));
        samples = length sample;
        updated_at = some now;
        last_trade_id = some latest;
      }

  -- `closed_trades[0]["id"]` on an empty list, which `min_trades_for_learning = 0` would allow, raises;
  -- the setting is at least 1.
  unfoldable pub update_enabled :
      (ℕ → F → F) → Settings F → ℕ → List (Trade F) → Saved F → LearningProfile F × Saved F
  unfolding load learned
  update_enabled round c now [] file = (load c file, file)
  update_enabled round c now (t ∷ ts) file =
      let p = load c file in
      if ltb (length (t ∷ ts)) c.min_trades_for_learning || is_last_trade p t.id
      then (p, file)
      else (let q = learned round c now p (take 50 (t ∷ ts)) t.id in (q, saved q))

  -- the profile returned, and the file
  unfoldable pub update :
      (ℕ → F → F) → Settings F → ℕ → List (Trade F) → Saved F → LearningProfile F × Saved F
  unfolding update_enabled default_profile
  update round c now trades file =
      if not (learning_enabled_for_mode c)
      then (default_profile c, file)
      else update_enabled round c now trades file
