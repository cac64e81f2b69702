-- ===== src/Storage/Trades.antt =====
-- Opening and protecting a position (app/storage/db.py: open_trade, set_trade_protection,
-- clear_trade_protection, raise_position_stop, get_open_trade and the queries on trades).
use binance_bot.Base.{
  ℕ, ◌+◌, String, Bool, true, false, not, ◌&&◌, Option, none, some, List, [], ◌∷◌, str_mem, ◌==◌,
  str_eq, if◌then◌else◌, any, find, select, length, update_where, count_where,
}
use binance_bot.Base.Float.{◌≤?◌, Float, nought, fmax}
use binance_bot.Config.{Mode, mode_eq}
use binance_bot.Storage.Rows.{
  Store, Trade, TradeStatus, ProtectionStatus, DbError, is_open, open_with_id, open_for, opt_str_eq,
}
use binance_bot.Storage.Tx.{Tx, ok, err, ◌>>=◌, ◌>>◌, pure, gets, modify, require, put_states}
use binance_bot.Storage.Orders.{apply_order}

-- AND symbol IN (…), if any symbols are given
abbrev pub in_symbols : List String → String → Bool
in_symbols [] s = true
in_symbols (x ∷ xs) s = str_mem s (x ∷ xs)

module _ {F : Type 0} where
  -- INSERT INTO trades, under the index uq_trades_one_open_per_mode_symbol; returns `lastrowid`
  unfoldable pub insert_trade : (ℕ → Trade F) → Tx F ℕ
  insert_trade row st =
      let t = row st.next_trade in
      if is_open t.status && any (open_for t.mode t.symbol) st.trades
      then err DbError.unique_violation
      else ok (st.next_trade, record st { trades = t ∷ st.trades; next_trade = st.next_trade + 1 })

  -- SELECT * FROM trades WHERE id=? AND status='OPEN'
  unfoldable pub find_open : ℕ → Store F → Option (Trade F)
  find_open i st = find (open_with_id i) st.trades

  unfoldable pub get_open_trade : String → Mode → Store F → Option (Trade F)
  get_open_trade s m st = find (open_for m s) st.trades

  abbrev pub with_trades : (List (Trade F) → List (Trade F)) → Store F → Store F
  with_trades f st = record st { trades = f st.trades }

  abbrev pub has_id : ℕ → Trade F → Bool
  has_id i t = t.id == i

  -- the two UPDATE statements of `set_trade_protection`
  abbrev pub write_identity :
      Bool → Option String → Option String → ProtectionStatus → Trade F → Trade F
  write_identity true list_id client status t = record t {
    protective_order_list_id = list_id;
    protective_list_client_order_id = client;
    protection_status = some status;
    protective_list_base_qty = some t.protective_applied_qty;
    protective_list_base_quote = some t.protective_applied_quote;
    protective_list_base_fee_quote = some t.protective_applied_fee_quote;
  }
  write_identity false list_id client status t = record t {
    protective_order_list_id = list_id;
    protective_list_client_order_id = client;
    protection_status = some status;
  }

  unfoldable pub set_trade_protection :
      ℕ → Option String → Option String → ProtectionStatus → Tx F (Unit {0})
  unfolding find_open
  set_trade_protection i list_id client status = do
    found ← gets (find_open i)
    row ← require found DbError.no_open_trade
    let fresh = not (opt_str_eq row.protective_list_client_order_id client)
    modify
        (with_trades (update_where (open_with_id i) (write_identity fresh list_id client status)))

  abbrev pub erase_identity : Option ProtectionStatus → Trade F → Trade F
  erase_identity status t = record t {
    protective_order_list_id = none;
    protective_list_client_order_id = none;
    protection_status = status;
  }

  unfoldable pub clear_trade_protection : ℕ → Option ProtectionStatus → Tx F (Unit {0})
  clear_trade_protection i status st =
      if count_where (open_with_id i) st.trades == 1
      then ok (tt, with_trades (update_where (open_with_id i) (erase_identity status)) st)
      else err DbError.no_open_trade

  unfoldable pub count_open_trades : Mode → List String → Store F → ℕ
  count_open_trades m symbols st = length (
      select (λ t. (mode_eq t.mode m && is_open t.status) && in_symbols symbols t.symbol) st.trades)

  unfoldable pub closed_trades : Mode → String → Store F → List (Trade F)
  closed_trades m s st =
      select (λ t. not (is_open t.status) && (mode_eq t.mode m && str_eq t.symbol s)) st.trades

-- the arguments of `open_trade`
pub record NewTrade (F : Type 0) : Type 0 where
  pub mode : Mode
  pub symbol : String
  pub quantity : F
  pub entry_price : F
  pub entry_fee : F
  pub reason : String
  pub stop_price : F
  pub take_profit_price : F
  pub state_updates : List (String × String)
  pub client_order_id : Option String

module _ {F : Type 0} where
  abbrev pub write_states : List (String × String) → Store F → Store F
  write_states us st = record st { states = put_states us st.states }

  abbrev pub write_stop : F → F → Trade F → Trade F
  write_stop high stop t = record t { highest_price = some high; stop_price = stop }

module _ {F : Type 0} ⦃fl : Float F⦄ where
  -- `float(row["highest_price"] or row["entry_price"])`: a stored 0.0 is false
  abbrev pub high_water : Trade F → F
  high_water t = elim t.highest_price [
    | none ↦ t.entry_price
    | some h ↦ if h ≤? nought && nought ≤? h then t.entry_price else h
  ]

  unfoldable pub opened_row : NewTrade F → ℕ → ℕ → Trade F
  opened_row n now i = record {
    id = i;
    mode = n.mode;
    symbol = n.symbol;
    quantity = n.quantity;
    entry_price = n.entry_price;
    exit_price = none;
    entry_fee = n.entry_fee;
    exit_fee = nought;
    pnl = none;
    pnl_pct = none;
    status = TradeStatus.opened;
    entry_reason = n.reason;
    exit_reason = none;
    stop_price = n.stop_price;
    take_profit_price = n.take_profit_price;
    highest_price = some n.entry_price;
    protective_order_list_id = none;
    protective_list_client_order_id = none;
    protection_status = none;
    protective_applied_qty = nought;
    protective_applied_quote = nought;
    protective_applied_fee_quote = nought;
    protective_list_base_qty = none;
    protective_list_base_quote = none;
    protective_list_base_fee_quote = none;
    opened_at = now;
    closed_at = none;
  }

  -- `if client_order_id is not None: self._apply_order_conn(…)`
  unfoldable pub apply_optional : Option String → String → Mode → String → Tx F (Unit {0})
  apply_optional none side m s = pure tt
  apply_optional (some c) side m s = apply_order c side m s

  unfoldable pub open_trade : NewTrade F → ℕ → Tx F ℕ
  unfolding insert_trade opened_row apply_optional
  open_trade n now = do
    apply_optional n.client_order_id "BUY" n.mode n.symbol
    modify (write_states n.state_updates)
    insert_trade (opened_row n now)

  -- returns (highest_price, stop_price)
  unfoldable pub raise_position_stop : ℕ → F → F → Tx F (F × F)
  unfolding find_open
  raise_position_stop i observed stop = do
    found ← gets (find_open i)
    row ← require found DbError.no_open_trade
    let new_high = fmax (high_water row) observed
    let new_stop = fmax row.stop_price stop
    modify (with_trades (update_where (has_id i) (write_stop new_high new_stop)))
    pure (new_high, new_stop)
