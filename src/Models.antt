-- ===== src/Models.antt =====
-- The values that the parts exchange (app/models.py).
use binance_bot.Base.{String, Bool, Option}

pub data SignalSide : Type 0 where
  buy sell hold : SignalSide

pub record StrategySignal (F : Type 0) : Type 0 where
  pub side : SignalSide
  pub confidence : F
  pub reason : String
  -- the one feature that code outside the strategy reads: `features.get("atr_pct")`
  pub atr_pct : Option F

pub record RiskDecision (F : Type 0) : Type 0 where
  pub allowed : Bool
  pub reason : String
  pub quantity : F
  pub stop_price : Option F
  pub take_profit_price : Option F
