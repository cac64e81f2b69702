-- ===== src/Tests/Decisions.antt =====
-- The strategy, the risk engine and the adaptation on concrete inputs.
use binance_bot.Base.{
  arith, zero, suc, ℕ, ◌≡◌, ◌↔◌, refl, true, false, not, none, some, List, [], ◌∷◌, any, length,
  ltb,
}
use binance_bot.Base.Float.{◌⊖◌, ◌⊘◌, ◌⊗◌, ◌≤?◌, ◌<?◌, lit, nought}
use binance_bot.Base.Fixed.{ℤ, negsuc, fixed_float, fixed-IsOrdered}
use binance_bot.Storage.Rows.{Trade}
use binance_bot.Models.{SignalSide}
use binance_bot.Risk.{
  EntryInput, Conversion, is_buy, clamped_stop, inputs_finite, daily_loss_reached, quantity_by_risk,
  quantity_by_exposure, distances, evaluate_entry, approved,
}
use binance_bot.Risk.Bounds.{clamped_stop_bounds, evaluate_entry-allowed, evaluate_entry-sized}
use binance_bot.Learning.{Saved, saved, load, update}
use binance_bot.Learning.Clamp.{InBand, load-bounds, update-once}
use binance_bot.Strategy.{
  EnsembleStrategy, Candle, Bar, Enriched, candles, entry_checks, bad_candle, bearish,
  bearish_confidence, evaluate, evaluate_candles, trend_separation_atr, decide, entry_signal,
}
use binance_bot.Strategy.Checks.{ends_position, evaluate-buy, evaluate-sell}
use binance_bot.Strategy.Confidence.{InRange, evaluate-confidence, bearish_confidence-no_bonus}
use binance_bot.Tests.Data.{num, settings, position}

number : (x : ℤ) → x ≤? x ≡ true
number x = fixed-IsOrdered.finite-le x refl

clamped_stop_bounds_example :
    (clamped_stop settings (num 3 100) ≤? num 24 1000 ≡ true)
    × (clamped_stop settings (num 3 100) ≤? num 5 100 ≡ true)
    × (num 6 1000 ≤? num 24 1000 ≡ true
        → num 6 1000 ≤? num 5 100 ≡ true
        → num 6 1000 ≤? clamped_stop settings (num 3 100) ≡ true)
    × (num 6 1000 ≤? num 24 1000 ≡ true
        → num 6 1000 ≤? num 5 100 ≡ true
        → num 6 1000 ≤? clamped_stop settings (num 3 100) ≡ true)
clamped_stop_bounds_example =
    clamped_stop_bounds fixed-IsOrdered settings (num 3 100) refl refl refl refl refl

abbrev conversion : Conversion ℤ ℤ
conversion = record { dec = λ x. x; flo = λ x. x; fixed3 = λ x. "" }

-- a buy at 100 with 1000 of equity
abbrev entry : EntryInput ℤ
entry = record {
  signal = record {
    side = SignalSide.buy;
    confidence = num 8 10;
    reason = "buy";
    atr_pct = some (num 1 100);
  };
  price = num 100 1;
  equity = num 1000 1;
  daily_realized_pnl = num 0 1;
  threshold = num 7 10;
  risk_multiplier = num 1 1;
}

abbrev late : EntryInput ℤ
late = record entry { daily_realized_pnl = negsuc 10000000000000 }

evaluate_entry-allowed_example : ((evaluate_entry conversion settings entry).allowed ≡ true) ↔ (
    (inputs_finite entry ≡ true)
    × (is_buy SignalSide.buy ≡ true)
    × ((num 8 10 <? num 7 10) ≡ false)
    × ((num 1000 1 ≤? nought) ≡ false)
    × ((num 100 1 ≤? nought) ≡ false)
    × (daily_loss_reached conversion settings entry ≡ false))
evaluate_entry-allowed_example = evaluate_entry-allowed conversion settings entry

evaluate_entry-sized_example :
    (q : ℤ) × ((evaluate_entry conversion settings entry).quantity ≡ q)
    × (nought ≤? q ≡ true)
    × (nought
            ≤? quantity_by_risk conversion settings entry
                (distances conversion settings entry.signal).0
          ≡ true
        → nought ≤? quantity_by_exposure conversion settings entry ≡ true
        → (q
              ≤? quantity_by_risk conversion settings entry
                  (distances conversion settings entry.signal).0
            ≡ true)
          × (q ≤? quantity_by_exposure conversion settings entry ≡ true))
unfolding evaluate_entry inputs_finite daily_loss_reached approved
evaluate_entry-sized_example =
    evaluate_entry-sized conversion settings entry fixed-IsOrdered
      (number
        (quantity_by_risk conversion settings entry (distances conversion settings entry.signal).0))
      (number (quantity_by_exposure conversion settings entry)) refl

-- a profile file that asks for too much
abbrev greedy : Saved ℤ
greedy = saved (record {
  confidence_threshold = num 1 10;
  risk_multiplier = num 4 1;
  last_win_rate = none;
  last_avg_pnl_pct = none;
  samples = 0;
  updated_at = none;
  last_trade_id = none;
})

load-bounds_example :
    (num 7 10 ≤? (load settings greedy).confidence_threshold ≡ true)
    × InBand (load settings greedy).risk_multiplier
load-bounds_example = load-bounds fixed-IsOrdered settings greedy refl

abbrev ten_trades : List (Trade ℤ)
ten_trades =
    position ∷ position ∷ position ∷ position ∷ position ∷ position ∷ position ∷ position ∷ position
    ∷ position ∷ []

update-once_example :
    (update
      (λ n x. x)
      settings
      9000
      ten_trades
      (update (λ n x. x) settings 8000 ten_trades greedy).1).1
    ≡ (update (λ n x. x) settings 8000 ten_trades greedy).1
update-once_example = update-once (λ n x. x) settings 8000 9000 ten_trades greedy

abbrev strategy : EnsembleStrategy ℤ
strategy = record {
  min_volume_ratio = num 75 100;
  max_extension_atr = num 2 1;
  min_trend_atr = num 25 100;
  min_adx = num 16 1;
}

-- a rising market, and a falling one
abbrev rising : Bar ℤ
rising = record {
  close = num 102 1;
  ema_fast = num 101 1;
  ema_slow = num 100 1;
  rsi = num 55 1;
  momentum_5 = num 1 100;
  volume_ratio = num 1 1;
  atr = num 2 1;
  atr_pct = num 2 100;
  adx = num 25 1;
  plus_di = num 30 1;
  minus_di = num 10 1;
  ema_slow_slope_5 = num 1 1000;
}

abbrev falling : Bar ℤ
falling = record rising { close = num 98 1; ema_fast = num 99 1; momentum_5 = negsuc 10000000000 }

abbrev flat_candle : Candle ℤ
flat_candle = record {
  open_price = num 100 1;
  high = num 103 1;
  low = num 99 1;
  close = num 102 1;
  volume = num 5 1;
}

abbrev repeat : ℕ → Candle ℤ → List (Candle ℤ)
repeat zero k = []
repeat (suc n) k = k ∷ repeat n k

abbrev history : List (Candle ℤ)
history = repeat 60 flat_candle

abbrev indicators : Bar ℤ → List (Candle ℤ) → Enriched ℤ
indicators x ks = record { latest = x; previous = x; all_finite = true }

evaluate-buy_example :
    (false ≡ false)
    × (ltb (length history) 60 ≡ false)
    × (any bad_candle history ≡ false)
    × (true ≡ true)
    × (any (λ c. not c.1) (entry_checks strategy rising) ≡ false)
unfolding evaluate evaluate_candles decide entry_signal
evaluate-buy_example =
    evaluate-buy fixed-IsOrdered strategy (indicators rising) history false
      (record {
        separation = number (trend_separation_atr rising);
        min_trend = number strategy.min_trend_atr;
        adx = number rising.adx;
        min_adx = number strategy.min_adx;
        plus_di = number rising.plus_di;
        minus_di = number rising.minus_di;
        slope = number rising.ema_slow_slope_5;
        zero = number nought;
        volume = number rising.volume_ratio;
        min_volume = number strategy.min_volume_ratio;
        atr = number rising.atr;
        extension = number (rising.close ⊖ rising.ema_fast);
        max_extension = number (strategy.max_extension_atr ⊗ rising.atr);
      })
      refl

-- a close between the two averages, while momentum is not negative
abbrev between : Bar ℤ
between = record rising { close = num 995 10; ema_fast = num 99 1 }

evaluate-sell_example :
    ((evaluate strategy (indicators between) (candles history) true).side ≡ SignalSide.sell) ↔ (
      (true ≡ true)
      × (ks : List (Candle ℤ)) × (candles history ≡ candles ks)
      × (ltb (length ks) 60 ≡ false)
      × (any bad_candle ks ≡ false)
      × (true ≡ true)
      × (ends_position between ≡ true))
evaluate-sell_example = evaluate-sell strategy (indicators between) (candles history) true

evaluate-confidence_example :
    InRange (evaluate strategy (indicators rising) (candles history) false).confidence
    × ((evaluate strategy (indicators rising) (candles history) false).side ≡ SignalSide.hold
        → (evaluate strategy (indicators rising) (candles history) false).confidence ≡ nought)
evaluate-confidence_example =
    evaluate-confidence fixed-IsOrdered strategy (indicators rising) (candles history) false refl

quotient_sign : (a b : ℤ) → a ≤? nought ≡ true → nought <? b ≡ true → a ⊘ b ≤? nought ≡ true
quotient_sign a b h k = ground arith

bearish_confidence-no_bonus_example : bearish_confidence strategy falling ≡ lit 75 100
unfolding bearish
bearish_confidence-no_bonus_example =
    bearish_confidence-no_bonus fixed-IsOrdered strategy falling (λ h. refl)
      (λ a h k. quotient_sign a falling.atr h k) refl refl
