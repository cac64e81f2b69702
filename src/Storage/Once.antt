-- ===== src/Storage/Once.antt =====
-- An exchange order changes the trade ledger at most once, whatever happens in between
-- (app/storage/db.py: _apply_order_conn under open_trade and close_trade).
use binance_bot.Base.{
  ℕ, ◌≡◌, refl, Bool, true, false, not, ◌&&◌, String, some, List, [], ◌∷◌, arith, any, update_where,
  count_where, str_eq, eq_iff, Bool-cases, inl, inr,
}
use binance_bot.Base.Float.{Float}
use binance_bot.Config.{Mode}
use binance_bot.Storage.Rows.{Store, Trade, OrderRow, DbError}
use binance_bot.Storage.Tx.{Result-cases, ok, err}
use binance_bot.Storage.Orders.{
  OrderUpdate, has_client_id, is_applicable, mark_applied, apply_order, write_update,
  update_order_record, insert_order,
}
use binance_bot.Storage.Trades.{NewTrade, open_trade, insert_trade}
use binance_bot.Storage.Sound.{UniqueClients, IsSound}
use binance_bot.Storage.Rules.{Keeps, Atoms}
use binance_bot.Storage.History.{Op, run, run_keeps}
use binance_bot.Storage.Ledger.{count_where-none, any-weaken, update_where-none}

module _ {F : Type 0} where
  -- a row of this client id that was not applied yet
  abbrev pub unapplied : String → OrderRow F → Bool
  unapplied c o = has_client_id c o && not o.ledger_applied

  -- The order is known, and was applied.
  pub record IsSpent (c : String) (s : Store F) : Type 0 where
    pub known : any (has_client_id c) s.orders ≡ true
    pub spent : any (unapplied c) s.orders ≡ false

  any-update_true :
      (p q : OrderRow F → Bool) (f : OrderRow F → OrderRow F)
      → ((o : OrderRow F) → p o ≡ true → p (f o) ≡ true)
      → (os : List (OrderRow F)) → any p os ≡ true
      → any p (update_where q f os) ≡ true
  any-update_true p q f k [] h = h
  any-update_true p q f k (o ∷ os) h = ground (arith, k o, any-update_true p q f k os)

  any-update_false :
      (p q : OrderRow F → Bool) (f : OrderRow F → OrderRow F)
      → ((o : OrderRow F) → p o ≡ false → p (f o) ≡ false)
      → (os : List (OrderRow F)) → any p os ≡ false
      → any p (update_where q f os) ≡ false
  any-update_false p q f k [] h = h
  any-update_false p q f k (o ∷ os) h = ground (arith, k o, any-update_false p q f k os)

  -- a change that keeps the client id and does not take the mark back
  IsSpent-update :
      (c : String) (q : OrderRow F → Bool) (f : OrderRow F → OrderRow F)
      → ((o : OrderRow F) → (f o).client_order_id ≡ o.client_order_id)
      → ((o : OrderRow F) → o.ledger_applied ≡ true → (f o).ledger_applied ≡ true)
      → (s : Store F) → IsSpent c s
      → IsSpent c (record s { orders = update_where q f s.orders })
  IsSpent-update c q f k l s h = record {
    known = any-update_true (has_client_id c) q f (λ o e. rw (k o) e) s.orders h.known;
    spent = any-update_false (unapplied c) q f (λ o e. ground (arith, k o, l o)) s.orders h.spent;
  }

module _ {F : Type 0} ⦃fl : Float F⦄ where
  apply_order-IsSpent :
      (c d side : String) (m : Mode) (sy : String)
      → Keeps {F = F} (IsSpent c) (apply_order d side m sy)
  unfolding apply_order
  apply_order-IsSpent c d side m sy = record {
    at = λ s h. ground (
      arith,
      IsSpent-update c (is_applicable d side m sy) mark_applied (λ o. refl) (λ o e. refl) s h,
    );
  }

  update_order_record-IsSpent :
      (c d : String) (u : OrderUpdate F) (now : ℕ) → Keeps (IsSpent c) (update_order_record d u now)
  unfolding update_order_record
  update_order_record-IsSpent c d u now = record {
    at = λ s h.
        ground (
          arith,
          IsSpent-update c (has_client_id d) (write_update u now) (λ o. refl) (λ o e. e) s h,
        );
  }

  insert_order-IsSpent :
      (c : String) (m : Mode) (sy d side : String) (q : F) (now : ℕ)
      → Keeps (IsSpent c) (insert_order m sy d side q now)
  unfolding insert_order
  insert_order-IsSpent c m sy d side q now = record {
    at = λ s h. elim (Bool-cases (str_eq d c)) [
      | inl e ↦ (let same : d ≡ c = (eq_iff d c).0 e in rw (same, h.known) tt)
      | inr e ↦ ground arith
    ];
  }

  insert_trade-IsSpent : (c : String) (row : ℕ → Trade F) → Keeps (IsSpent c) (insert_trade row)
  unfolding insert_trade
  insert_trade-IsSpent c row = record { at = λ s h. ground arith }

  IsSpent-atoms : (c : String) → Atoms {F = F} (IsSpent c)
  IsSpent-atoms c = record {
    trades = λ q f k s h. record { known = h.known; spent = h.spent };
    inserted = λ row k. insert_trade-IsSpent c row;
    states = λ us s h. record { known = h.known; spent = h.spent };
    applied = apply_order-IsSpent c;
    updated = update_order_record-IsSpent c;
    intended = insert_order-IsSpent c;
  }

  applicable_client :
      (c side : String) (m : Mode) (sy : String) (o : OrderRow F)
      → has_client_id c o ≡ false
      → is_applicable c side m sy o ≡ false
  unfolding is_applicable
  applicable_client c side m sy o h = ground arith

  applicable_unapplied :
      (c side : String) (m : Mode) (sy : String) (o : OrderRow F)
      → unapplied c o ≡ false
      → is_applicable c side m sy o ≡ false
  unfolding is_applicable
  applicable_unapplied c side m sy o h = ground arith

  -- with one row to a client id, applying it leaves no row of that id unapplied
  mark-unapplied :
      (c side : String) (m : Mode) (sy : String) (os : List (OrderRow F))
      → UniqueClients os
      → count_where (is_applicable c side m sy) os ≡ 1
      → (any (has_client_id c) (update_where (is_applicable c side m sy) mark_applied os) ≡ true)
        × (any (unapplied c) (update_where (is_applicable c side m sy) mark_applied os) ≡ false)
  mark-unapplied c side m sy [] u e = absurd (omega arith)
  mark-unapplied c side m sy (o ∷ os) u e = elim (Bool-cases (has_client_id c o)) [
    | inl mine ↦
        (let same : o.client_order_id ≡ c = (eq_iff o.client_order_id c).0 mine in
          let alone : any (has_client_id c) os ≡ false = rw same at u.0 in
          let idle : any (is_applicable c side m sy) os ≡ false =
            any-weaken (is_applicable c side m sy) (has_client_id c) os
              (applicable_client c side m sy) alone in
          let clean : any (unapplied c) os ≡ false =
            any-weaken (unapplied c) (has_client_id c) os (λ x k. ground arith) alone in
          ground (
            arith,
            update_where-none (is_applicable c side m sy) mark_applied os idle,
            count_where-none (is_applicable c side m sy) os idle,
          ))
    | inr other ↦
        ground (arith, applicable_client c side m sy o other, mark-unapplied c side m sy os u.1)
  ]

  apply_order-spends :
      (c side : String) (m : Mode) (sy : String) (st st' : Store F)
      → IsSound st
      → apply_order c side m sy st ≡ ok (tt, st')
      → IsSpent c st'
  unfolding apply_order
  apply_order-spends c side m sy st st' sound h =
      let r = mark-unapplied c side m sy st.orders sound.clients (ground arith) in
      let e : st'.orders ≡ update_where (is_applicable c side m sy) mark_applied st.orders =
        ground arith in
      record { known = rw e r.0; spent = rw e r.1 }

  apply_order-of_IsSpent :
      (c side : String) (m : Mode) (sy : String) (st : Store F)
      → IsSpent c st
      → apply_order c side m sy st ≡ err DbError.order_not_applicable
  unfolding apply_order
  apply_order-of_IsSpent c side m sy st h = ground (
    arith,
    count_where-none (is_applicable c side m sy) st.orders (
        any-weaken (is_applicable c side m sy) (unapplied c) st.orders
          (applicable_unapplied c side m sy) h.spent),
  )

  open_trade-spends :
      (n : NewTrade F) (now i : ℕ) (c : String) (st st' : Store F)
      → IsSound st
      → n.client_order_id ≡ some c
      → open_trade n now st ≡ ok (i, st')
      → IsSpent c st'
  unfolding open_trade
  open_trade-spends n now i c st st' sound e h =
      elim (Result-cases (apply_order c "BUY" n.mode n.symbol st)) [
        | inl ((_, mid), k) ↦
            (let spent = apply_order-spends c "BUY" n.mode n.symbol st mid sound k in
              let same : st'.orders ≡ mid.orders = ground arith in
              record { known = rw same spent.known; spent = rw same spent.spent })
        | inr (x, k) ↦ absurd (ground arith)
      ]

  open_trade-of_IsSpent :
      (n : NewTrade F) (now : ℕ) (c : String) (st : Store F)
      → IsSpent c st
      → n.client_order_id ≡ some c
      → open_trade n now st ≡ err DbError.order_not_applicable
  unfolding open_trade
  open_trade-of_IsSpent n now c st h e =
      ground (arith, apply_order-of_IsSpent c "BUY" n.mode n.symbol st h)

  -- Once a recovered or executed order has opened a position in sound tables, no later call opens a
  -- position for that client order id again, whatever store calls are made in between.
  pub open_trade-once :
      (n n' : NewTrade F) (now now' i : ℕ) (c : String) (st st' : Store F) (ops : List (Op F × ℕ))
      → IsSound st
      → n.client_order_id ≡ some c
      → n'.client_order_id ≡ some c
      → open_trade n now st ≡ ok (i, st')
      → open_trade n' now' (run ops st') ≡ err DbError.order_not_applicable
  open_trade-once n n' now now' i c st st' ops sound e e' h =
      open_trade-of_IsSpent n' now' c (run ops st')
        (run_keeps (IsSpent-atoms c) ops st' (open_trade-spends n now i c st st' sound e h)) e'
