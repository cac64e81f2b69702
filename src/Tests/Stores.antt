-- ===== src/Tests/Stores.antt =====
-- The order ledger and the positions on concrete tables.
use binance_bot.Base.{ℕ, ◌≡◌, ◌≤◌, refl, true, false, none, some, List, [], ◌∷◌, any, count_where}
use binance_bot.Base.Float.{◌≤?◌}
use binance_bot.Base.Fixed.{ℤ, fixed_float, fixed-IsOrdered}
use binance_bot.Config.{Mode}
use binance_bot.Storage.Rows.{Store, DbError, open_for}
use binance_bot.Storage.Tx.{ok, err, put_states}
use binance_bot.Storage.Orders.{
  is_unresolved, unresolved_orders, side_conflicts, new_order, record_order_intent, apply_order,
  mark_applied, is_fill, is_applicable,
}
use binance_bot.Storage.Trades.{
  find_open, open_trade, raise_position_stop, write_stop, high_water, opened_row,
}
use binance_bot.Storage.History.{Op, run, empty}
use binance_bot.Storage.History.{run-one_open}
use binance_bot.Storage.Ledger.{record_order_intent-exclusive, apply_order-once}
use binance_bot.Storage.Once.{open_trade-once}
use binance_bot.Storage.Position.{raise_position_stop-ratchet}
use binance_bot.Tests.Data.{btc, num, fill, new_btc, pending, filled, position, held}

-- buy, fill, open, open again, close with a reason
abbrev calls : List (Op ℤ × ℕ)
calls =
    (Op.intend Mode.testnet btc "buy-1" "BUY" (num 2 1), 1000)
    ∷ (Op.update "buy-1" fill, 1500)
    ∷ (Op.open_position new_btc, 2000)
    ∷ (Op.open_position (record new_btc { client_order_id = none }), 2500)
    ∷ (Op.close 1 (num 105 1) (num 2 10) "target" none [] none, 3000)
    ∷ []

run-one_open_example : count_where (open_for Mode.testnet btc) (run calls empty).trades ≤ 1
run-one_open_example = run-one_open calls Mode.testnet btc

record_order_intent-exclusive_example :
    (any (is_unresolved Mode.testnet btc) (empty {F = ℤ}).orders ≡ false)
    × (side_conflicts "BUY" (any (open_for Mode.testnet btc) (empty {F = ℤ}).trades) ≡ false)
    × (pending.trades ≡ (empty {F = ℤ}).trades)
    × (unresolved_orders Mode.testnet btc pending
        ≡ new_order 1 Mode.testnet btc "buy-1" "BUY" (num 2 1) 1000 ∷ [])
unfolding record_order_intent
record_order_intent-exclusive_example =
    record_order_intent-exclusive Mode.testnet btc "buy-1" "BUY" (num 2 1) 1000 empty pending refl

abbrev spent : Store ℤ
spent = record filled { orders = elim filled.orders [ [] ↦ [] | o ∷ os ↦ mark_applied o ∷ os ] }

apply_order-once_example :
    apply_order "buy-1" "BUY" Mode.testnet btc spent ≡ err DbError.order_not_applicable
unfolding apply_order new_order is_applicable is_fill
apply_order-once_example = apply_order-once "buy-1" "BUY" Mode.testnet btc filled spent refl

abbrev opened_store : Store ℤ
opened_store = record spent { trades = position ∷ []; next_trade = 2 }

open_trade-once_example :
    open_trade new_btc 9000
      (run ((Op.close 1 (num 105 1) (num 2 10) "target" none [] none, 3000) ∷ []) opened_store)
    ≡ err DbError.order_not_applicable
unfolding open_trade new_order apply_order is_applicable is_fill put_states
open_trade-once_example =
    open_trade-once new_btc new_btc 2000 9000 1 "buy-1" filled opened_store
      ((Op.close 1 (num 105 1) (num 2 10) "target" none [] none, 3000) ∷ [])
      (record { one_open = tt; ids = tt; clients = (refl, tt) }) refl refl refl

raise_position_stop-ratchet_example :
    (h s : ℤ) × (st' : Store ℤ) × (raise_position_stop 1 (num 103 1) (num 101 1) held
      ≡ ok ((h, s), st'))
    × (find_open 1 st' ≡ some (write_stop h s position))
    × (position.stop_price ≤? s ≡ true)
    × (num 101 1 ≤? s ≡ true)
    × (high_water position ≤? h ≡ true)
    × (num 103 1 ≤? h ≡ true)
unfolding find_open opened_row
raise_position_stop-ratchet_example =
    raise_position_stop-ratchet fixed-IsOrdered 1 (num 103 1) (num 101 1) held position refl refl
      refl refl refl
