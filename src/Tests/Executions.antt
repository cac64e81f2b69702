-- ===== src/Tests/Executions.antt =====
-- A protective execution on a concrete position.
use binance_bot.Base.{◌≡◌, ◌⊎◌, refl, true, none, some}
use binance_bot.Base.Fixed.{ℤ, fixed_float, fixed-IsRounded}
use binance_bot.Storage.Rows.{Store}
use binance_bot.Storage.Tx.{ok, err}
use binance_bot.Storage.Trades.{find_open, opened_row}
use binance_bot.Storage.Execution.{
  Closed, unchanged, Cumulative, apply_protective_execution, apply_to_row, apply_delta, tolerance,
  delta_price, protective_sale, finish_protective,
}
use binance_bot.Storage.Replay.{apply_protective_execution-replay}
use binance_bot.Tests.Data.{num, held}

-- the protective sale of one of the two units at 104, with a fee of 0.1
abbrev total : Cumulative ℤ
total = record { qty = num 1 1; quote_amount = num 104 1; fee_quote = num 1 10 }

abbrev after : Store ℤ
after = elim (apply_protective_execution 1 total "target" 5000 held) [
  | ok (_, st) ↦ st
  | err _ ↦ held
]

abbrev sale : Closed ℤ
sale = record {
  id = 2;
  source_trade_id = some 1;
  pnl = num 38 10;
  pnl_pct = num 38 1000;
  partial = true;
  executed_quantity = num 1 1;
  remaining_quantity = num 1 1;
}

apply_protective_execution-replay_example :
    (apply_protective_execution 1 total "again" 6000 after ≡ ok (none, after))
    ⊎ ((q : ℤ) × (apply_protective_execution 1 total "again" 6000 after
          ≡ ok (some (unchanged q), after)))
unfolding apply_protective_execution apply_to_row apply_delta find_open opened_row tolerance
    delta_price finish_protective protective_sale
apply_protective_execution-replay_example =
    apply_protective_execution-replay fixed-IsRounded 1 total "target" "again" 5000 6000 held after
      sale (record { qty = refl; quote_amount = refl; fee_quote = refl }) refl
