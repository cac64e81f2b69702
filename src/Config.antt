-- ===== src/Config.antt =====
-- The runtime settings (app/config.py, class Settings).
use binance_bot.Base.{ℕ, String, Bool, true, false}

pub data Mode : Type 0 where
  paper testnet live : Mode

abbrev pub mode_eq : Mode → Mode → Bool
mode_eq Mode.paper Mode.paper = true
mode_eq Mode.testnet Mode.testnet = true
mode_eq Mode.live Mode.live = true
mode_eq _ _ = false

-- `self.settings.mode in {"testnet", "live"}`
abbrev pub is_exchange : Mode → Bool
is_exchange Mode.paper = false
is_exchange Mode.testnet = true
is_exchange Mode.live = true

pub record Settings (F : Type 0) : Type 0 where
  pub mode : Mode
  pub allow_live_trading : Bool
  pub live_protection_validated : Bool
  pub symbol : String
  pub base_asset : String
  pub quote_asset : String
  pub symbols : String
  pub max_concurrent_positions : ℕ
  pub allow_multi_symbol_live : Bool
  pub universe_mode : String
  pub universe_max_symbols : ℕ
  pub universe_min_quote_volume : F
  pub universe_refresh_minutes : ℕ
  pub universe_pinned_symbols : String
  pub universe_excluded_bases : String
  pub interval : String
  pub cycle_seconds : F
  pub use_websocket_market_data : Bool
  pub market_data_stale_seconds : F
  pub strategy_refresh_grace_seconds : F
  pub account_refresh_seconds : F
  pub account_max_age_seconds : F
  pub max_entry_deviation_pct : F
  pub max_portfolio_exposure_fraction : F
  pub entry_cooldown_seconds : F
  pub entry_retry_seconds : F
  pub binance_api_key : String
  pub binance_api_secret : String
  pub paper_starting_balance : F
  pub risk_per_trade : F
  pub max_position_fraction : F
  pub max_daily_loss_fraction : F
  pub stop_loss_pct : F
  pub take_profit_pct : F
  pub use_atr_stops : Bool
  pub atr_stop_multiplier : F
  pub atr_stop_min_pct : F
  pub atr_stop_max_pct : F
  pub enable_trailing_stop : Bool
  pub trailing_stop_activation_pct : F
  pub trailing_stop_distance_pct : F
  pub breakeven_activation_pct : F
  pub strategy_min_trend_atr : F
  pub strategy_min_adx : F
  pub max_consecutive_losses : ℕ
  pub loss_streak_pause_seconds : F
  pub strategy_min_volume_ratio : F
  pub strategy_max_extension_atr : F
  pub min_signal_confidence : F
  pub trading_fee_bps : F
  pub paper_slippage_bps : F
  pub max_entry_spread_bps : F
  pub max_entry_slippage_bps : F
  pub enable_adaptive_learning : Bool
  pub allow_adaptive_live : Bool
  pub min_trades_for_learning : ℕ
  pub enable_llm_advisor : Bool
  pub openai_api_key : String
  pub openai_model : String
  pub database_path : String
  pub learning_profile_path : String
  pub notify_webhook_url : String
  pub notify_telegram_bot_token : String
  pub notify_telegram_chat_id : String
  pub notify_min_interval_seconds : F
