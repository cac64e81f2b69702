-- ===== src/Tests/Markets.antt =====
-- Price ticks, the freshness of an entry and the portfolio's limits on concrete inputs.
use binance_bot.Base.{◌+◌, ◌≤◌, ◌≡◌, ◌⊎◌, ◌↔◌, refl, String, true, false, none, some, List, [], ◌∷◌}
use binance_bot.Base.Float.{◌⊖◌, ◌⊗◌, ◌⊘◌, ◌<?◌, ◌≤?◌, is_finite, lit, nought, fmax, fabs}
use binance_bot.Base.Fixed.{ℤ, fixed_float, fixed-IsOrdered}
use binance_bot.Models.{SignalSide}
use binance_bot.Storage.Rows.{Store, TradeStatus, opt_str_eq}
use binance_bot.Act.{Outcome, done, failed, message}
use binance_bot.Storage.Trades.{closed_trades}
use binance_bot.Storage.History.{empty}
use binance_bot.Market.{
  PriceState, Tick, Candidate, unpriced, on_price_tick, market_snapshot, stale_limit_ms,
  entry_quality_reason,
}
use binance_bot.Market.Fresh.{
  IsPriced, reached, receive_all, receive_all-newest, market_snapshot-connected,
  entry_quality_reason-none, IsCooledDown,
}
use binance_bot.Portfolio.{Valuation, EntryRequest, Texts, execute_entry}
use binance_bot.Portfolio.Admission.{WithinBudget, IsAdmitted, execute_entry-guarded}
use binance_bot.Tests.Data.{btc, num, settings, position}

abbrev first_ticks : List (Tick ℤ)
first_ticks = record { price = num 100 1; event_time_ms = 5000; now = 5010; mono = num 5 1 } ∷ []

-- a late tick, and one without a price
abbrev later_ticks : List (Tick ℤ)
later_ticks =
    record { price = num 99 1; event_time_ms = 4000; now = 5020; mono = num 502 100 }
    ∷ record { price = num 0 1; event_time_ms = 6000; now = 6010; mono = num 6 1 }
    ∷ []

receive_all-newest_example :
    IsPriced (receive_all later_ticks (receive_all first_ticks unpriced))
    × (reached 5000
          (receive_all later_ticks (receive_all first_ticks unpriced)).latest_price_event_ms
        ≡ true)
unfolding receive_all on_price_tick
receive_all-newest_example = receive_all-newest first_ticks later_ticks 5000 refl

abbrev live_price : PriceState ℤ
live_price = record {
  latest_price = some (num 100 1);
  latest_price_event_ms = some 5000;
  latest_price_received_monotonic = some (num 5 1);
  latest_price_source = some "websocket";
}

market_snapshot-connected_example :
    (settings.use_websocket_market_data ≡ true)
    × (opt_str_eq live_price.latest_price_source (some "websocket") ≡ true)
    × (fmax nought ((num 6 1 ⊖ num 5 1) ⊗ lit 1000 1) ≤? stale_limit_ms settings ≡ true)
    × (num 1000 1 ≤? stale_limit_ms settings ≡ true)
unfolding market_snapshot
market_snapshot-connected_example =
    market_snapshot-connected fixed-IsOrdered settings 6000 (num 6 1) (num 5 1) 5000 live_price refl
      refl refl refl refl

abbrev candidate : Candidate ℤ
candidate = record {
  signal = record { side = SignalSide.buy; confidence = num 8 10; reason = "buy"; atr_pct = none };
  candle_close_time = 1000000;
  signal_price = num 100 1;
}

-- a position that was closed 100 seconds before
abbrev left : Store ℤ
left = record empty {
  trades = record position { status = TradeStatus.closed; closed_at = some 1400000 } ∷ [];
}

entry_quality_reason-none_example :
    (entry_quality_reason settings 900000 1000 1500000 left candidate (num 101 1) ≡ none) ↔ (
      (1500000 ≤ candidate.candle_close_time + 900000 + 1000)
      × (is_finite candidate.signal_price ≡ true)
      × ((candidate.signal_price ≤? nought) ≡ false)
      × (is_finite (num 101 1) ≡ true)
      × ((num 101 1 ≤? nought) ≡ false)
      × ((settings.max_entry_deviation_pct <? fabs (num 101 1 ⊘ candidate.signal_price ⊖ lit 1 1))
          ≡ false)
      × IsCooledDown settings 1500000 (closed_trades settings.mode settings.symbol left))
entry_quality_reason-none_example =
    entry_quality_reason-none settings 900000 1000 1500000 left candidate (num 101 1)

abbrev texts : Texts ℤ
texts = record { show = λ n. ""; show_ceil = λ x. "" }

abbrev valuation : Valuation ℤ
valuation = record {
  equity = some (num 1000 1);
  error = none;
  available_quote = num 1000 1;
  exposure = num 0 1;
}

abbrev request : EntryRequest ℤ
request = record { symbol = btc; notional = some (num 50 1); expected_price = none }

-- a submission that raises
abbrev refuses_order : Store ℤ → Outcome String × Store ℤ
refuses_order st = (failed (message "no answer"), st)

execute_entry-guarded_example :
    ((reason : String) × (execute_entry texts settings
          (btc ∷ [])
          (λ r. r)
          refuses_order
          5000
          valuation
          (market_snapshot settings 6000 (num 6 1) live_price)
          request
          empty
        ≡ (done reason, empty, false)))
    ⊎ ((equity : ℤ) × (execute_entry texts settings
            (btc ∷ [])
            (λ r. r)
            refuses_order
            5000
            valuation
            (market_snapshot settings 6000 (num 6 1) live_price)
            request
            empty
          ≡ (failed (message "no answer"), empty, true))
        × IsAdmitted texts settings (btc ∷ []) 5000 empty btc
        × WithinBudget texts settings (btc ∷ []) 5000 empty valuation (num 50 1) equity)
execute_entry-guarded_example =
    execute_entry-guarded texts settings (btc ∷ []) (λ r. r) refuses_order 5000 valuation
      (market_snapshot settings 6000 (num 6 1) live_price) request (num 50 1) empty refl
