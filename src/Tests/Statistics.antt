-- ===== src/Tests/Statistics.antt =====
-- The statistics of concrete closed trades.
use binance_bot.Base.{◌≡◌, refl, true, some, List, [], ◌∷◌}
use binance_bot.Base.Float.{◌≤?◌, ◌<?◌, nought}
use binance_bot.Base.Fixed.{ℤ, negsuc, fixed_float, fixed-IsOrdered}
use binance_bot.Storage.Rows.{Trade}
use binance_bot.Performance.{pnls, performance_from_trades}
use binance_bot.Performance.Counts.{
  count_if, drop_after, IsDrop, performance_from_trades-max_drawdown,
}
use binance_bot.Tests.Data.{num, position}

-- a gain and a loss
abbrev results : List (Trade ℤ)
results = record position { pnl = some (num 4 1) } ∷ record position { pnl = some (negsuc 2) } ∷ []

performance_from_trades-max_drawdown_example :
    ((performance_from_trades (λ n x. x) results).wins ≡ count_if (λ x. nought <? x) results)
    × ((performance_from_trades (λ n x. x) results).losses ≡ count_if (λ x. x <? nought) results)
    × (drop_after (num 4 1 ∷ negsuc 2 ∷ [])
          ≤? (performance_from_trades (λ n x. x) results).max_drawdown
        ≡ true)
    × IsDrop (pnls results) (performance_from_trades (λ n x. x) results).max_drawdown
performance_from_trades-max_drawdown_example =
    performance_from_trades-max_drawdown fixed-IsOrdered (λ n x. x) results (num 4 1 ∷ []) []
      (negsuc 2) refl refl
