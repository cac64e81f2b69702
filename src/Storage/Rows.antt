-- ===== src/Storage/Rows.antt =====
-- The tables of app/storage/db.py. A table lists its rows newest first, so that `ORDER BY id DESC
-- LIMIT 1` is the first match. Instants are milliseconds since the epoch, in place of ISO texts.
use binance_bot.Base.{ℕ, String, Bool, true, false, Option, none, some, List, ◌&&◌, ◌==◌, str_eq}
use binance_bot.Config.{Mode, mode_eq}

pub data TradeStatus : Type 0 where
  opened closed : TradeStatus

-- Every text that the program writes to `protection_status`.
pub data ProtectionStatus : Type 0 where
  submitting unknown executing all_done reject expired : ProtectionStatus
  list_reconciled canceled_for_exit : ProtectionStatus

pub record Trade (F : Type 0) : Type 0 where
  pub id : ℕ
  pub mode : Mode
  pub symbol : String
  pub quantity : F
  pub entry_price : F
  pub exit_price : Option F
  pub entry_fee : F
  pub exit_fee : F
  pub pnl : Option F
  pub pnl_pct : Option F
  pub status : TradeStatus
  pub entry_reason : String
  pub exit_reason : Option String
  pub stop_price : F
  pub take_profit_price : F
  pub highest_price : Option F
  pub protective_order_list_id : Option String
  pub protective_list_client_order_id : Option String
  pub protection_status : Option ProtectionStatus
  pub protective_applied_qty : F
  pub protective_applied_quote : F
  pub protective_applied_fee_quote : F
  pub protective_list_base_qty : Option F
  pub protective_list_base_quote : Option F
  pub protective_list_base_fee_quote : Option F
  pub opened_at : ℕ
  pub closed_at : Option ℕ

pub record OrderRow (F : Type 0) : Type 0 where
  pub id : ℕ
  pub mode : Mode
  pub symbol : String
  pub client_order_id : String
  pub binance_order_id : Option String
  pub side : String
  pub requested_quantity : F
  pub executed_quantity : F
  pub average_fill_price : Option F
  pub status : String
  pub commission_quote : F
  pub commission_details : String
  pub created_at : ℕ
  pub updated_at : ℕ
  pub ledger_applied : Bool

-- `next_trade` and `next_order` are the AUTOINCREMENT counters.
pub record Store (F : Type 0) : Type 0 where
  pub trades : List (Trade F)
  pub orders : List (OrderRow F)
  pub states : List (String × String)
  pub next_trade : ℕ
  pub next_order : ℕ

abbrev pub is_open : TradeStatus → Bool
is_open TradeStatus.opened = true
is_open TradeStatus.closed = false

module _ {F : Type 0} where
  -- WHERE id=? AND status='OPEN'
  abbrev pub open_with_id : ℕ → Trade F → Bool
  open_with_id i t = t.id == i && is_open t.status

  -- WHERE symbol=? AND mode=? AND status='OPEN'
  abbrev pub open_for : Mode → String → Trade F → Bool
  open_for m s t = is_open t.status && (mode_eq t.mode m && str_eq t.symbol s)

abbrev pub opt_str_eq : Option String → Option String → Bool
opt_str_eq none none = true
opt_str_eq (some a) (some b) = str_eq a b
opt_str_eq _ _ = false

pub data DbError : Type 0 where
  no_open_trade order_not_applicable unique_violation nonpositive_quantity : DbError
  quantity_backwards accounting_backwards no_quote_value exceeds_position : DbError
  unresolved_exists side_conflict order_not_updated : DbError
