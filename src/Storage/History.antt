-- ===== src/Storage/History.antt =====
-- Any sequence of calls of the store, each in its own transaction (app/storage/db.py).
use binance_bot.Base.{
  ℕ, ◌≤◌, ◌≡◌, refl, Bool, true, false, String, Option, List, [], ◌∷◌, arith, any, update_where,
  count_where, eq_iff, Bool-cases, inl, inr,
}
use binance_bot.Base.Float.{Float}
use binance_bot.Config.{Mode, mode_eq}
use binance_bot.Storage.Rows.{Store, Trade, OrderRow, ProtectionStatus, open_for}
use binance_bot.Storage.Tx.{Tx, Result, ok, err, ◌>>=◌, pure, modify, connection, settle_tx}
use binance_bot.Storage.Orders.{
  insert_order, apply_order, is_applicable, mark_applied, has_client_id, write_update, OrderUpdate,
  record_order_intent, update_order_record,
}
use binance_bot.Storage.Trades.{
  NewTrade, insert_trade, set_trade_protection, clear_trade_protection, open_trade,
  raise_position_stop, write_states,
}
use binance_bot.Storage.Execution.{Cumulative, close_trade, apply_protective_execution}
use binance_bot.Storage.Sound.{
  IsSound, OnePerMarket, IsSound-update, UniqueClients-update, Descending-raise,
}
use binance_bot.Storage.Rules.{After, Keeps, Atoms, Keeps-bind, Keeps-pure, Keeps-states}
use binance_bot.Storage.Keeps.{
  set_trade_protection-Keeps, clear_trade_protection-Keeps, raise_position_stop-Keeps,
  record_order_intent-Keeps, open_trade-Keeps, close_trade-Keeps, apply_protective_execution-Keeps,
}

-- the calls that write
pub data Op (F : Type 0) : Type 0 where
  set_states : List (String × String) → Op F
  open_position : NewTrade F → Op F
  protect : ℕ → Option String → Option String → ProtectionStatus → Op F
  unprotect : ℕ → Option ProtectionStatus → Op F
  raise_stop : ℕ → F → F → Op F
  close : ℕ → F → F → String → Option F → List (String × String) → Option String → Op F
  execute : ℕ → Cumulative F → String → Op F
  intend : Mode → String → String → String → F → Op F
  update : String → OrderUpdate F → Op F

abbrev pub empty : {F : Type 0} → Store F
empty = record { trades = []; orders = []; states = []; next_trade = 1; next_order = 1 }

module _ {F : Type 0} ⦃fl : Float F⦄ where
  abbrev drop_result : {A : Type 0} → Tx F A → Tx F (Unit {0})
  drop_result m = m >>= λ _. pure tt

  unfoldable pub perform : Op F → ℕ → Tx F (Unit {0})
  perform (set_states us) now = modify (write_states us)
  perform (open_position n) now = drop_result (open_trade n now)
  perform (protect i l c p) now = set_trade_protection i l c p
  perform (unprotect i p) now = clear_trade_protection i p
  perform (raise_stop i o p) now = drop_result (raise_position_stop i o p)
  perform (close i p f r e us c) now = drop_result (close_trade i p f r e us c now)
  perform (execute i c r) now = drop_result (apply_protective_execution i c r now)
  perform (intend m s c side q) now = record_order_intent m s c side q now
  perform (update c u) now = update_order_record c u now

  unfoldable pub run : List (Op F × ℕ) → Store F → Store F
  unfolding perform connection
  run [] st = st
  run ((op, now) ∷ rest) st = run rest (connection (perform op now) st).1

module _ {F : Type 0} ⦃fl : Float F⦄ {P : Store F → Type 0} (a : Atoms P) where
  drop_result-Keeps : {A : Type 0} (m : Tx F A) → Keeps P m → Keeps P (drop_result m)
  drop_result-Keeps m k = Keeps-bind m (λ _. pure tt) k (λ _. Keeps-pure tt)

  perform-Keeps : (op : Op F) (now : ℕ) → Keeps P (perform op now)
  unfolding perform
  perform-Keeps (set_states us) now = Keeps-states a us
  perform-Keeps (open_position n) now = drop_result-Keeps _ (open_trade-Keeps a n now)
  perform-Keeps (protect i l c p) now = set_trade_protection-Keeps a i l c p
  perform-Keeps (unprotect i p) now = clear_trade_protection-Keeps a i p
  perform-Keeps (raise_stop i o p) now = drop_result-Keeps _ (raise_position_stop-Keeps a i o p)
  perform-Keeps (close i p f r e us c) now =
      drop_result-Keeps _ (close_trade-Keeps a i p f r e us c now)
  perform-Keeps (execute i c r) now =
      drop_result-Keeps _ (apply_protective_execution-Keeps a i c r now)
  perform-Keeps (intend m s c side q) now = record_order_intent-Keeps a m s c side q now
  perform-Keeps (update c u) now = a.updated c u now

settle_tx-keeps :
    {F A : Type 0} (P : Store F → Type 0) (r : Result (A × Store F)) (st : Store F)
    → After P r
    → P st
    → P (settle_tx r st).1
settle_tx-keeps P (ok (a, s)) st k h = k
settle_tx-keeps P (err e) st k h = h

module _ {F : Type 0} ⦃fl : Float F⦄ {P : Store F → Type 0} (a : Atoms P) where
  -- What the single writes keep, every sequence of calls keeps, failing calls included.
  pub run_keeps : (ops : List (Op F × ℕ)) (st : Store F) → P st → P (run ops st)
  unfolding run
  run_keeps [] st h = h
  run_keeps ((op, now) ∷ rest) st h =
      run_keeps rest _
        (settle_tx-keeps P (perform op now st) st ((perform-Keeps a op now).at st h) h)

mode_eq_sound : (a b : Mode) → mode_eq a b ≡ true → a ≡ b
mode_eq_sound a b h = ground arith

count_where-zero :
    {A : Type 0} (p : A → Bool) (xs : List A) → any p xs ≡ false → count_where p xs ≡ 0
count_where-zero p [] h = refl
count_where-zero p (x ∷ xs) h = ground (arith, count_where-zero p xs)

module _ {F : Type 0} where
  none_open_later :
      (m : Mode) (s : String) (t : Trade F) (ts : List (Trade F))
      → OnePerMarket (t ∷ ts)
      → open_for m s t ≡ true
      → any (open_for m s) ts ≡ false
  none_open_later m s t ts h e =
      let same_mode : t.mode ≡ m = mode_eq_sound t.mode m (ground arith) in
      let same_symbol : t.symbol ≡ s = (eq_iff t.symbol s).0 (ground arith) in
      rw (← same_mode, ← same_symbol) (h.0 (ground arith))

  pub open_count_le_one :
      (m : Mode) (s : String) (ts : List (Trade F))
      → OnePerMarket ts
      → count_where (open_for m s) ts ≤ 1
  open_count_le_one m s [] h = omega arith
  open_count_le_one m s (t ∷ ts) h = elim (Bool-cases (open_for m s t)) [
    | inl e ↦
        rw e (rw (count_where-zero (open_for m s) ts (none_open_later m s t ts h e)) (omega arith))
    | inr e ↦ rw e (open_count_le_one m s ts h.1)
  ]

  rows_update :
      (f : OrderRow F → OrderRow F) (q : OrderRow F → Bool)
      → ((o : OrderRow F) → (f o).client_order_id ≡ o.client_order_id)
      → (s : Store F) → IsSound s
      → IsSound (record s { orders = update_where q f s.orders })
  rows_update f q k s h = record {
    one_open = h.one_open;
    ids = h.ids;
    clients = UniqueClients-update f k q s.orders h.clients;
  }

  -- A fresh row takes the next id; an open one is refused while its market has an open row.
  insert_trade-IsSound :
      (row : ℕ → Trade F) → ((i : ℕ) → (row i).id ≡ i) → Keeps IsSound (insert_trade row)
  unfolding insert_trade
  insert_trade-IsSound row k = record {
    at = λ s h. ground (arith, k s.next_trade, Descending-raise s.next_trade s.next_trade s.trades);
  }

  pub empty-IsSound : IsSound (empty {F = F})
  empty-IsSound = record { one_open = tt; ids = tt; clients = tt }

module _ {F : Type 0} ⦃fl : Float F⦄ where
  apply_order-IsSound :
      (c side : String) (m : Mode) (sy : String) → Keeps {F = F} IsSound (apply_order c side m sy)
  unfolding apply_order
  apply_order-IsSound c side m sy = record {
    at =
        λ s h. ground (arith, rows_update mark_applied (is_applicable c side m sy) (λ o. refl) s h);
  }

  update_order_record-IsSound :
      (c : String) (u : OrderUpdate F) (now : ℕ) → Keeps IsSound (update_order_record c u now)
  unfolding update_order_record
  update_order_record-IsSound c u now = record {
    at = λ s h. ground (arith, rows_update (write_update u now) (has_client_id c) (λ o. refl) s h);
  }

  insert_order-IsSound :
      (m : Mode) (sy c side : String) (q : F) (now : ℕ)
      → Keeps IsSound (insert_order m sy c side q now)
  unfolding insert_order
  insert_order-IsSound m sy c side q now = record { at = λ s h. ground arith }

  pub IsSound-atoms : Atoms {F = F} IsSound
  IsSound-atoms = record {
    trades = λ q f k s h. IsSound-update f k q s h;
    inserted = insert_trade-IsSound;
    states = λ us s h. record { one_open = h.one_open; ids = h.ids; clients = h.clients };
    applied = apply_order-IsSound;
    updated = update_order_record-IsSound;
    intended = insert_order-IsSound;
  }

module _ {F : Type 0} ⦃fl : Float F⦄ where
  -- Whatever sequence of store calls is made on empty tables, failing calls included, there is at
  -- most one open position of any mode and symbol.
  pub run-one_open :
      (ops : List (Op F × ℕ)) (m : Mode) (s : String)
      → count_where (open_for m s) (run ops empty).trades ≤ 1
  run-one_open ops m s =
      open_count_le_one m s (run ops empty).trades
        (run_keeps IsSound-atoms ops empty empty-IsSound).one_open
