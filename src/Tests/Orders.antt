-- ===== src/Tests/Orders.antt =====
-- The checks before an order on concrete inputs.
use binance_bot.Base.{◌≡◌, refl, true, false, not, ◌&&◌, some, [], ◌∷◌, str_eq}
use binance_bot.Base.Float.{◌⊖◌, ◌<?◌, ◌≤?◌}
use binance_bot.Base.Fixed.{ℤ, fixed_float}
use binance_bot.Config.{Mode, mode_eq, is_exchange}
use binance_bot.Risk.{Conversion}
use binance_bot.Exchange.{
  Book, Liquidity, OcoOrder, is_positive, place_protective_oco, check_entry_liquidity,
}
use binance_bot.Exchange.Guards.{
  IsWithinLimits, place_protective_oco-passed, check_entry_liquidity-passed,
}
use binance_bot.Tests.Data.{btc, num, settings}

abbrev order : OcoOrder ℤ
order = record {
  symbol = btc;
  side = "SELL";
  quantity = num 2 1;
  list_client_order_id = "agt-prot-1";
  above_type = "LIMIT_MAKER";
  above_client_order_id = "agt-tp-1";
  above_price = num 104 1;
  below_type = "STOP_LOSS";
  below_client_order_id = "agt-sl-1";
  below_stop_price = num 98 1;
}

place_protective_oco-passed_example :
    (is_exchange settings.mode ≡ true)
    × ((mode_eq settings.mode Mode.live && not settings.allow_live_trading) ≡ false)
    × (str_eq btc settings.symbol ≡ true)
    × (is_positive (num 2 1) ≡ true)
    × (is_positive (num 104 1) ≡ true)
    × (is_positive (num 98 1) ≡ true)
    × ((num 104 1 ≤? num 98 1) ≡ false)
    × (order ≡ record {
      symbol = btc;
      side = "SELL";
      quantity = num 2 1;
      list_client_order_id = "agt-prot-1";
      above_type = "LIMIT_MAKER";
      above_client_order_id = "agt-tp-1";
      above_price = num 104 1;
      below_type = "STOP_LOSS";
      below_client_order_id = "agt-sl-1";
      below_stop_price = num 98 1;
    })
unfolding place_protective_oco
place_protective_oco-passed_example =
    place_protective_oco-passed settings btc (num 2 1) (num 104 1) (num 98 1) "agt-prot-1"
      "agt-tp-1" "agt-sl-1" order refl

abbrev exact : Conversion ℤ ℤ
exact = record { dec = λ x. x; flo = λ x. x; fixed3 = λ x. "" }

-- one unit at 100.01 and another at 100.03
abbrev depth : Book ℤ
depth = record {
  bids = (num 9999 100, num 5 1) ∷ [];
  asks = (num 10001 100, num 1 1) ∷ (num 10003 100, num 3 1) ∷ [];
}

abbrev estimate : Liquidity ℤ
estimate = record {
  spread_bps = num 2 1;
  estimated_fill_price = num 10002 100;
  estimated_slippage_bps = num 2 1;
}

check_entry_liquidity-passed_example :
    (k : Book ℤ) × (some depth ≡ some k)
    × (is_positive (num 2 1) ≡ true)
    × (is_positive (num 100 1) ≡ true)
    × ((settings.market_data_stale_seconds <? num 2 1 ⊖ num 1 1) ≡ false)
    × IsWithinLimits exact settings k.bids k.asks (num 2 1) (num 100 1) estimate
unfolding check_entry_liquidity
check_entry_liquidity-passed_example =
    check_entry_liquidity-passed exact settings (num 2 1) (num 100 1) (num 1 1) (num 2 1)
      (some depth) estimate refl
