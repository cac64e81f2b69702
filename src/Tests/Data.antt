-- ===== src/Tests/Data.antt =====
-- Settings, orders and tables that the tests share.
use binance_bot.Base.{ℕ, String, true, false, some, [], ◌∷◌}
use binance_bot.Base.Float.{lit}
use binance_bot.Base.Fixed.{ℤ, fixed_float}
use binance_bot.Config.{Mode, Settings}
use binance_bot.Storage.Rows.{Store, Trade}
use binance_bot.Storage.Orders.{OrderUpdate, new_order, write_update}
use binance_bot.Storage.Trades.{NewTrade, opened_row}
use binance_bot.Storage.History.{empty}

abbrev pub btc : String
btc = "BTCUSDT"

abbrev pub num : ℕ → ℕ → ℤ
num n d = lit n d

abbrev pub settings : Settings ℤ
settings = record {
  mode = Mode.testnet;
  allow_live_trading = false;
  live_protection_validated = false;
  symbol = btc;
  base_asset = "BTC";
  quote_asset = "USDT";
  symbols = "";
  max_concurrent_positions = 2;
  allow_multi_symbol_live = false;
  universe_mode = "configured";
  universe_max_symbols = 15;
  universe_min_quote_volume = num 1000000 1;
  universe_refresh_minutes = 60;
  universe_pinned_symbols = "";
  universe_excluded_bases = "USDC";
  interval = "15m";
  cycle_seconds = num 1 1;
  use_websocket_market_data = true;
  market_data_stale_seconds = num 3 1;
  strategy_refresh_grace_seconds = num 1 1;
  account_refresh_seconds = num 5 1;
  account_max_age_seconds = num 15 1;
  max_entry_deviation_pct = num 15 1000;
  max_portfolio_exposure_fraction = num 15 100;
  entry_cooldown_seconds = num 60 1;
  entry_retry_seconds = num 30 1;
  binance_api_key = "key";
  binance_api_secret = "secret";
  paper_starting_balance = num 1000 1;
  risk_per_trade = num 25 10000;
  max_position_fraction = num 5 100;
  max_daily_loss_fraction = num 1 100;
  stop_loss_pct = num 12 1000;
  take_profit_pct = num 24 1000;
  use_atr_stops = true;
  atr_stop_multiplier = num 2 1;
  atr_stop_min_pct = num 6 1000;
  atr_stop_max_pct = num 5 100;
  enable_trailing_stop = true;
  trailing_stop_activation_pct = num 1 100;
  trailing_stop_distance_pct = num 8 1000;
  breakeven_activation_pct = num 6 1000;
  strategy_min_trend_atr = num 25 100;
  strategy_min_adx = num 16 1;
  max_consecutive_losses = 3;
  loss_streak_pause_seconds = num 3600 1;
  strategy_min_volume_ratio = num 75 100;
  strategy_max_extension_atr = num 2 1;
  min_signal_confidence = num 7 10;
  trading_fee_bps = num 10 1;
  paper_slippage_bps = num 2 1;
  max_entry_spread_bps = num 20 1;
  max_entry_slippage_bps = num 25 1;
  enable_adaptive_learning = true;
  allow_adaptive_live = false;
  min_trades_for_learning = 10;
  enable_llm_advisor = false;
  openai_api_key = "";
  openai_model = "gpt-5.6";
  database_path = "data/trading_bot.db";
  learning_profile_path = "data/learning_profile.json";
  notify_webhook_url = "https://hooks.example/bot";
  notify_telegram_bot_token = "";
  notify_telegram_chat_id = "";
  notify_min_interval_seconds = num 300 1;
}

abbrev pub fill : OrderUpdate ℤ
fill = record {
  binance_order_id = some "77";
  executed_quantity = num 2 1;
  average_fill_price = some (num 100 1);
  status = "FILLED";
  commission_quote = num 2 10;
  commission_details = "[]";
}

abbrev pub new_btc : NewTrade ℤ
new_btc = record {
  mode = Mode.testnet;
  symbol = btc;
  quantity = num 2 1;
  entry_price = num 100 1;
  entry_fee = num 2 10;
  reason = "signal";
  stop_price = num 98 1;
  take_profit_price = num 104 1;
  state_updates = [];
  client_order_id = some "buy-1";
}

-- an intent, and the same order filled
abbrev pub pending : Store ℤ
pending = record empty {
  orders = new_order 1 Mode.testnet btc "buy-1" "BUY" (num 2 1) 1000 ∷ [];
  next_order = 2;
}

abbrev pub filled : Store ℤ
filled = record empty {
  orders = write_update fill 1500 (new_order 1 Mode.testnet btc "buy-1" "BUY" (num 2 1) 1000) ∷ [];
  next_order = 2;
}

-- the filled order's position: 2 units bought at 100
abbrev pub position : Trade ℤ
position = opened_row new_btc 2000 1

abbrev pub held : Store ℤ
held = record empty { trades = position ∷ []; next_trade = 2 }
