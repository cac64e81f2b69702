-- ===== src/Storage/Ledger.antt =====
-- The order ledger: one unresolved order at a time, and an order is applied once
-- (app/storage/db.py: record_order_intent, update_order_record, _apply_order_conn).
use binance_bot.Base.{
  ℕ, ◌≡◌, refl, Bool, true, false, String, List, [], ◌∷◌, arith, any, select, update_where,
  count_where, eq_refl, Bool-cases, inl, inr,
}
use binance_bot.Base.Float.{Float}
use binance_bot.Config.{Mode, mode_eq}
use binance_bot.Storage.Rows.{Store, OrderRow, DbError, open_for}
use binance_bot.Storage.Tx.{ok, err}
use binance_bot.Storage.Orders.{
  is_final, is_unresolved, unresolved_orders, has_unresolved_order, new_order, side_conflicts,
  record_order_intent, is_applicable, mark_applied, apply_order,
}

module _ {A : Type 0} where
  pub select-none : (p : A → Bool) (xs : List A) → any p xs ≡ false → select p xs ≡ []
  select-none p [] h = refl
  select-none p (x ∷ xs) h = ground (arith, select-none p xs)

  -- an update whose test no row passes
  pub update_where-none :
      (p : A → Bool) (f : A → A) (xs : List A) → any p xs ≡ false → update_where p f xs ≡ xs
  update_where-none p f [] h = refl
  update_where-none p f (x ∷ xs) h = ground (arith, update_where-none p f xs)

  pub count_where-none : (p : A → Bool) (xs : List A) → any p xs ≡ false → count_where p xs ≡ 0
  count_where-none p [] h = refl
  count_where-none p (x ∷ xs) h = ground (arith, count_where-none p xs)

  -- a stronger test passes nowhere either
  pub any-weaken :
      (p q : A → Bool) (xs : List A)
      → ((x : A) → q x ≡ false → p x ≡ false)
      → any q xs ≡ false
      → any p xs ≡ false
  any-weaken p q [] k h = refl
  any-weaken p q (x ∷ xs) k h = ground (arith, k x, any-weaken p q xs k)

  -- after an update of every row that passes, none does, if the change makes them fail
  pub any-update_self :
      (p : A → Bool) (f : A → A) (xs : List A)
      → ((x : A) → p (f x) ≡ false)
      → any p (update_where p f xs) ≡ false
  any-update_self p f [] k = refl
  any-update_self p f (x ∷ xs) k = elim (Bool-cases (p x)) [
    | inl e ↦ rw e (rw (k x) (any-update_self p f xs k))
    | inr e ↦ rw e (rw e (any-update_self p f xs k))
  ]

pub mode_eq_refl : (m : Mode) → mode_eq m m ≡ true
mode_eq_refl Mode.paper = refl
mode_eq_refl _ = refl

module _ {F : Type 0} ⦃fl : Float F⦄ where
  new_order-is_unresolved :
      (i : ℕ) (m : Mode) (s c side : String) (q : F) (now : ℕ)
      → is_unresolved m s (new_order i m s c side q now) ≡ true
  unfolding is_unresolved new_order is_final
  new_order-is_unresolved i m s c side q now = rw (eq_refl s, mode_eq_refl m)

  unresolved_orders-new :
      (m : Mode) (s c side : String) (q : F) (now : ℕ) (st st' : Store F)
      → any (is_unresolved m s) st.orders ≡ false
      → st'.orders ≡ new_order st.next_order m s c side q now ∷ st.orders
      → unresolved_orders m s st' ≡ new_order st.next_order m s c side q now ∷ []
  unfolding unresolved_orders
  unresolved_orders-new m s c side q now st st' h e = rw e (
      rw (new_order-is_unresolved st.next_order m s c side q now)
        (rw (select-none (is_unresolved m s) st.orders h)))

  -- A recorded intent means that the market had no unresolved order and a position that fits the
  -- side; the positions are as before, and the market's unresolved orders are the new one alone.
  pub record_order_intent-exclusive :
      (m : Mode) (s c side : String) (q : F) (now : ℕ) (st st' : Store F)
      → record_order_intent m s c side q now st ≡ ok (tt, st')
      → (any (is_unresolved m s) st.orders ≡ false)
        × (side_conflicts side (any (open_for m s) st.trades) ≡ false)
        × (st'.trades ≡ st.trades)
        × (unresolved_orders m s st' ≡ new_order st.next_order m s c side q now ∷ [])
  unfolding record_order_intent
  record_order_intent-exclusive m s c side q now st st' h =
      ground (arith, unresolved_orders-new m s c side q now st st')

  unresolved_orders-none :
      (m : Mode) (s : String) (st : Store F)
      → any (is_unresolved m s) st.orders ≡ false
      → unresolved_orders m s st ≡ []
  unfolding unresolved_orders
  unresolved_orders-none m s st h = rw (select-none (is_unresolved m s) st.orders h)

  has_unresolved_order-any :
      (m : Mode) (s : String) (st : Store F)
      → has_unresolved_order m s st ≡ true
      → any (is_unresolved m s) st.orders ≡ true
  unfolding has_unresolved_order
  has_unresolved_order-any m s st h = elim (Bool-cases (any (is_unresolved m s) st.orders)) [
    | inl e ↦ e
    | inr e ↦ absurd (ground (arith, unresolved_orders-none m s st e))
  ]

  is_applicable-mark :
      (c side : String) (m : Mode) (s : String) (o : OrderRow F)
      → is_applicable c side m s (mark_applied o) ≡ false
  unfolding is_applicable
  is_applicable-mark c side m s o = ground arith

  -- An order that was applied to the ledger cannot be applied again.
  pub apply_order-once :
      (c side : String) (m : Mode) (s : String) (st st' : Store F)
      → apply_order c side m s st ≡ ok (tt, st')
      → apply_order c side m s st' ≡ err DbError.order_not_applicable
  unfolding apply_order
  apply_order-once c side m s st st' h = ground (
    arith,
    any-update_self (is_applicable c side m s) mark_applied st.orders
        (is_applicable-mark c side m s),
    count_where-none (is_applicable c side m s) st'.orders,
  )
