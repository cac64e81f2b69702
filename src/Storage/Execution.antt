-- ===== src/Storage/Execution.antt =====
-- Closing a position, whole or in part (app/storage/db.py: close_trade and
-- apply_protective_execution).
use binance_bot.Base.{
  ℕ, String, Bool, true, false, Option, none, some, List, if◌then◌else◌, update_where,
}
use binance_bot.Base.Float.{Float, ◌⊕◌, ◌⊖◌, ◌⊗◌, ◌⊘◌, ◌<?◌, ◌≤?◌, lit, nought, fmax, fmin}
use binance_bot.Storage.Rows.{Trade, TradeStatus, DbError}
use binance_bot.Storage.Tx.{Tx, ok, ◌>>=◌, ◌>>◌, pure, gets, modify, raise_if, require}
use binance_bot.Storage.Trades.{
  find_open, insert_trade, has_id, with_trades, apply_optional, write_states,
}

-- the dict that both operations return for an applied execution
pub record Closed (F : Type 0) : Type 0 where
  pub id : ℕ
  pub source_trade_id : Option ℕ
  pub pnl : F
  pub pnl_pct : F
  pub partial : Bool
  pub executed_quantity : F
  pub remaining_quantity : F

-- the allocation of fees and the profit of a sale of `sold` units
pub record Settlement (F : Type 0) : Type 0 where
  pub allocated_entry_fee : F
  pub pnl : F
  pub pnl_pct : F

-- a sale to write down: quantity, price, fee, what is left, and the profit
pub record Sale (F : Type 0) : Type 0 where
  pub sold : F
  pub price : F
  pub fee : F
  pub reason : String
  pub remaining : F
  pub settlement : Settlement F

module _ {F : Type 0} where
  -- UPDATE trades SET exit_price=?, …, status='CLOSED'
  abbrev pub write_closed : Sale F → ℕ → Trade F → Trade F
  write_closed x now t = record t {
    exit_price = some x.price;
    exit_fee = x.fee;
    pnl = some x.settlement.pnl;
    pnl_pct = some x.settlement.pnl_pct;
    status = TradeStatus.closed;
    exit_reason = some x.reason;
    closed_at = some now;
  }

  -- the dict returned; a whole sale reports 0.0 remaining
  abbrev pub closed_result : Sale F → ℕ → Option ℕ → Bool → F → Closed F
  closed_result x i source part remaining = record {
    id = i;
    source_trade_id = source;
    pnl = x.settlement.pnl;
    pnl_pct = x.settlement.pnl_pct;
    partial = part;
    executed_quantity = x.sold;
    remaining_quantity = remaining;
  }

  abbrev pub keep : Trade F → Trade F
  keep t = t

module _ {F : Type 0} ⦃fl : Float F⦄ where
  unfoldable pub settle : Trade F → F → F → F → Settlement F
  settle t sold price fee =
      let ratio = if nought <? t.quantity then sold ⊘ t.quantity else lit 1 1 in
      let allocated = t.entry_fee ⊗ ratio in
      let gross = (price ⊖ t.entry_price) ⊗ sold in
      let pnl = gross ⊖ allocated ⊖ fee in
      let cost = t.entry_price ⊗ sold in
      record {
        allocated_entry_fee = allocated;
        pnl = pnl;
        pnl_pct = if nought <? cost then pnl ⊘ cost else nought;
      }

  -- the row inserted for the part that was sold
  unfoldable pub partial_row : Trade F → Sale F → ℕ → ℕ → Trade F
  partial_row t x now i = record {
    id = i;
    mode = t.mode;
    symbol = t.symbol;
    quantity = x.sold;
    entry_price = t.entry_price;
    exit_price = some x.price;
    entry_fee = x.settlement.allocated_entry_fee;
    exit_fee = x.fee;
    pnl = some x.settlement.pnl;
    pnl_pct = some x.settlement.pnl_pct;
    status = TradeStatus.closed;
    entry_reason = t.entry_reason;
    exit_reason = some x.reason;
    stop_price = t.stop_price;
    take_profit_price = t.take_profit_price;
    highest_price = none;
    protective_order_list_id = none;
    protective_list_client_order_id = none;
    protection_status = none;
    protective_applied_qty = nought;
    protective_applied_quote = nought;
    protective_applied_fee_quote = nought;
    protective_list_base_qty = none;
    protective_list_base_quote = none;
    protective_list_base_fee_quote = none;
    opened_at = t.opened_at;
    closed_at = some now;
  }

  -- UPDATE trades SET quantity=?, entry_fee=?
  abbrev pub write_remaining : Trade F → Sale F → Trade F → Trade F
  write_remaining row x t = record t {
    quantity = x.remaining;
    entry_fee = fmax nought (row.entry_fee ⊖ x.settlement.allocated_entry_fee);
  }

  -- The two endings: a partial sale leaves the row open and inserts a closed one, a whole sale
  -- closes the row. `extra` is what the caller writes to the open row besides.
  unfoldable pub finish_partial : Trade F → Sale F → (Trade F → Trade F) → ℕ → Tx F (Closed F)
  unfolding insert_trade partial_row
  finish_partial row x extra now = do
    modify (with_trades (update_where (has_id row.id) (λ t. extra (write_remaining row x t))))
    i ← insert_trade (partial_row row x now)
    pure (closed_result x i (some row.id) true x.remaining)

  unfoldable pub finish_whole : Trade F → Sale F → (Trade F → Trade F) → ℕ → Tx F (Closed F)
  finish_whole row x extra now = do
    modify (with_trades (update_where (has_id row.id) (λ t. extra (write_closed x now t))))
    pure (closed_result x row.id none false nought)

  -- `position_qty if executed_quantity is None else min(position_qty, max(0.0, executed_quantity))`
  unfoldable pub sold_quantity : F → Option F → F
  sold_quantity position none = position
  sold_quantity position (some executed) = fmin position (fmax nought executed)

  -- from the position's row on: lines after `_apply_order_conn`
  unfoldable pub close_row :
      Trade F → F → F → String → Option F → List (String × String) → ℕ → Tx F (Closed F)
  unfolding settle finish_partial finish_whole sold_quantity
  close_row row price fee reason executed updates now = do
    let sold = sold_quantity row.quantity executed
    raise_if (sold ≤? nought) DbError.nonpositive_quantity
    modify (write_states updates)
    let remaining = fmax nought (row.quantity ⊖ sold)
    let x : Sale F = record {
      sold = sold;
      price = price;
      fee = fee;
      reason = reason;
      remaining = remaining;
      settlement = settle row sold price fee;
    }
    if lit 1 1000000000000 <? remaining
        then finish_partial row x keep now
        else finish_whole row x keep now

  unfoldable pub close_trade :
      ℕ → F → F → String → Option F → List (String × String) → Option String → ℕ → Tx F (Closed F)
  unfolding close_row find_open apply_optional
  close_trade i price fee reason executed updates client now = do
    found ← gets (find_open i)
    row ← require found DbError.no_open_trade
    apply_optional client "SELL" row.mode row.symbol
    close_row row price fee reason executed updates now

-- the dict of `apply_protective_execution`: nothing new, or an applied execution
pub data Outcome (F : Type 0) : Type 0 where
  unchanged : F → Outcome F
  applied : Closed F → Outcome F

-- The cumulative numbers reported by the exchange, cut off at zero.
pub record Cumulative (F : Type 0) : Type 0 where
  pub qty : F
  pub quote_amount : F
  pub fee_quote : F

module _ {F : Type 0} where
  abbrev pub write_cumulative : Cumulative F → Trade F → Trade F
  write_cumulative c t = record t {
    protective_applied_qty = c.qty;
    protective_applied_quote = c.quote_amount;
    protective_applied_fee_quote = c.fee_quote;
  }

module _ {F : Type 0} ⦃fl : Float F⦄ where
  abbrev pub cut_off : Cumulative F → Cumulative F
  cut_off c = record {
    qty = fmax nought c.qty;
    quote_amount = fmax nought c.quote_amount;
    fee_quote = fmax nought c.fee_quote;
  }

  abbrev pub original_quantity : Trade F → F
  original_quantity t = t.quantity ⊕ t.protective_applied_qty

  unfoldable pub tolerance : Trade F → F
  tolerance t = fmax (lit 1 1000000000000) (original_quantity t ⊗ lit 1 1000000000)

  -- the quote value of the delta, and its price
  unfoldable pub delta_quote : Trade F → Cumulative F → F
  delta_quote row total = fmax nought (total.quote_amount ⊖ row.protective_applied_quote)

  unfoldable pub delta_price : Trade F → Cumulative F → F → F
  unfolding delta_quote
  delta_price row total delta_qty =
      if nought <? delta_quote row total then delta_quote row total ⊘ delta_qty else nought

  -- the sale of the delta
  unfoldable pub protective_sale : Trade F → Cumulative F → F → String → Sale F
  unfolding settle delta_price
  protective_sale row total delta_qty reason =
      let delta_fee = fmax nought (total.fee_quote ⊖ row.protective_applied_fee_quote) in
      let sold = fmin row.quantity delta_qty in
      record {
        sold = sold;
        price = delta_price row total delta_qty;
        fee = delta_fee;
        reason = reason;
        remaining = fmax nought (row.quantity ⊖ sold);
        settlement = settle row sold (delta_price row total delta_qty) delta_fee;
      }

  -- `if remaining > tolerance`
  unfoldable pub finish_protective : Trade F → Sale F → Cumulative F → ℕ → Tx F (Closed F)
  unfolding finish_partial finish_whole tolerance
  finish_protective row x total now =
      if tolerance row <? x.remaining
      then finish_partial row x (write_cumulative total) now
      else finish_whole row x (write_cumulative total) now

  -- a fresh delta is checked and sold; `total` is already cut off
  unfoldable pub apply_delta : Trade F → Cumulative F → F → String → ℕ → Tx F (Outcome F)
  apply_delta row total delta_qty reason now = do
    raise_if (delta_price row total delta_qty ≤? nought) DbError.no_quote_value
    raise_if (row.quantity ⊕ tolerance row <? delta_qty) DbError.exceeds_position
    r ← finish_protective row (protective_sale row total delta_qty reason) total now
    pure (applied r)

  -- the checks against the row, then the delta
  unfoldable pub apply_to_row : Trade F → Cumulative F → String → ℕ → Tx F (Outcome F)
  apply_to_row row total reason now = do
    raise_if (total.qty ⊕ tolerance row <? row.protective_applied_qty) DbError.quantity_backwards
    raise_if (total.quote_amount ⊕ lit 1 1000000000 <? row.protective_applied_quote)
        DbError.accounting_backwards
    raise_if (total.fee_quote ⊕ lit 1 1000000000 <? row.protective_applied_fee_quote)
        DbError.accounting_backwards
    let delta_qty = fmax nought (total.qty ⊖ row.protective_applied_qty)
    if delta_qty ≤? tolerance row
        then pure (unchanged row.quantity)
        else apply_delta row total delta_qty reason now

  -- `none` if the trade is no longer open
  unfoldable pub apply_protective_execution :
      ℕ → Cumulative F → String → ℕ → Tx F (Option (Outcome F))
  apply_protective_execution i c reason now st = elim (find_open i st) [
    | none ↦ ok (none, st)
    | some row ↦ (do r ← apply_to_row row (cut_off c) reason now; pure (some r)) st
  ]
