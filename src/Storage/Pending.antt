-- ===== src/Storage/Pending.antt =====
-- An order row between its intent and its application (app/storage/db.py): it stays unresolved until
-- it is final and what it executed is applied.
use mathlib.Core.List.{reverse_aux}
use binance_bot.Base.{
  ℕ, ◌≡◌, refl, Bool, true, false, not, ◌&&◌, String, List, [], ◌∷◌, reverse, arith, any, select,
  update_where, str_eq, eq_refl,
}
use binance_bot.Base.Float.{Float, ◌<?◌, nought}
use binance_bot.Config.{Mode, mode_eq}
use binance_bot.Storage.Rows.{Store, OrderRow, DbError, open_for}
use binance_bot.Storage.Tx.{Result, ok, err, connection}
use binance_bot.Storage.Orders.{
  OrderUpdate, side_conflicts, is_final, is_unresolved, unresolved_orders, has_unresolved_order,
  new_order, insert_order, has_client_id, record_order_intent, write_update, update_order_record,
}
use binance_bot.Storage.Ledger.{mode_eq_refl}

module _ {A : Type 0} where
  pub any-update :
      (p p' g : A → Bool) (f : A → A)
      → ((x : A) → p x ≡ true → g x ≡ true)
      → ((x : A) → p x ≡ true → p' (f x) ≡ true)
      → (xs : List A) → any p xs ≡ true
      → any p' (update_where g f xs) ≡ true
  any-update p p' g f h k [] e = absurd (ground arith)
  any-update p p' g f h k (x ∷ xs) e = ground (arith, h x, k x, any-update p p' g f h k xs)

  pub any_mono :
      (p q : A → Bool) (xs : List A)
      → ((x : A) → p x ≡ true → q x ≡ true)
      → any p xs ≡ true
      → any q xs ≡ true
  any_mono p q [] h e = absurd (ground arith)
  any_mono p q (x ∷ xs) h e = ground (arith, h x, any_mono p q xs h)

  abbrev is_cons : List A → Bool
  is_cons [] = false
  is_cons (x ∷ xs) = true

  is_cons-reverse_aux : (xs ys : List A) → is_cons ys ≡ true → is_cons (reverse_aux xs ys) ≡ true
  is_cons-reverse_aux [] ys h = h
  is_cons-reverse_aux (x ∷ xs) ys h = is_cons-reverse_aux xs (x ∷ ys) refl

  is_cons-reverse : (xs : List A) → is_cons xs ≡ true → is_cons (reverse xs) ≡ true
  is_cons-reverse [] h = h
  is_cons-reverse (x ∷ xs) h = is_cons-reverse_aux xs (x ∷ []) refl

  is_cons-select : (p : A → Bool) (xs : List A) → any p xs ≡ true → is_cons (select p xs) ≡ true
  is_cons-select p [] h = h
  is_cons-select p (x ∷ xs) h = ground (arith, is_cons-select p xs)

module _ {F : Type 0} (m : Mode) (s c : String) where
  -- the order of this id and market, not applied yet
  abbrev pub is_live : OrderRow F → Bool
  is_live o = has_client_id c o && ((mode_eq o.mode m && str_eq o.symbol s) && not o.ledger_applied)

  -- and not final
  abbrev pub is_waiting : OrderRow F → Bool
  is_waiting o = is_live o && not (is_final o.status)

module _ {F : Type 0} ⦃fl : Float F⦄ (m : Mode) (s c : String) where
  -- and executed
  abbrev pub is_bought : OrderRow F → Bool
  is_bought o = is_live m s c o && nought <? o.executed_quantity

  unresolved_row : (o : OrderRow F) → is_waiting m s c o ≡ true → is_unresolved m s o ≡ true
  unfolding is_unresolved
  unresolved_row o h = ground arith

  bought_row : (o : OrderRow F) → is_bought o ≡ true → is_unresolved m s o ≡ true
  unfolding is_unresolved
  bought_row o h = ground arith

  pub has_unresolved_order-of_any :
      (st : Store F) → any (is_unresolved m s) st.orders ≡ true → has_unresolved_order m s st ≡ true
  unfolding has_unresolved_order unresolved_orders
  has_unresolved_order-of_any st h =
      let found =
        is_cons-reverse (select (is_unresolved m s) st.orders)
          (is_cons-select (is_unresolved m s) st.orders h) in
      ground arith

  pub has_unresolved_order-of_waiting :
      (st : Store F) → any (is_waiting m s c) st.orders ≡ true → has_unresolved_order m s st ≡ true
  has_unresolved_order-of_waiting st h =
      has_unresolved_order-of_any st
        (any_mono (is_waiting m s c) (is_unresolved m s) st.orders unresolved_row h)

  pub has_unresolved_order-of_bought :
      (st : Store F) → any is_bought st.orders ≡ true → has_unresolved_order m s st ≡ true
  has_unresolved_order-of_bought st h =
      has_unresolved_order-of_any st (any_mono is_bought (is_unresolved m s) st.orders bought_row h)

  new_order-is_waiting :
      (i : ℕ) (side : String) (q : F) (now : ℕ)
      → is_waiting m s c (new_order i m s c side q now) ≡ true
  unfolding new_order is_final
  new_order-is_waiting i side q now = rw (eq_refl c, eq_refl s, mode_eq_refl m)

  -- what a recorded intent leaves, and what a refused one does
  pub record_order_intent-waiting :
      (side : String) (q : F) (now : ℕ) (st : Store F) (u : Unit {0})
      → (connection (record_order_intent m s c side q now) st).0 ≡ ok u
      → any (is_waiting m s c) (connection (record_order_intent m s c side q now) st).1.orders
        ≡ true
  unfolding connection record_order_intent
  record_order_intent-waiting side q now st u h =
      ground (arith, new_order-is_waiting st.next_order side q now)

  -- an update of the order keeps it live
  pub update_order_record-live :
      (p : OrderRow F → Bool) (u : OrderUpdate F) (now : ℕ) (st : Store F)
      → ((o : OrderRow F) → is_live m s c o ≡ true → p (write_update u now o) ≡ true)
      → any (is_live m s c) st.orders ≡ true
      → (r : Unit {0}) → (connection (update_order_record c u now) st).0 ≡ ok r
      → any p (connection (update_order_record c u now) st).1.orders ≡ true
  unfolding connection update_order_record
  update_order_record-live p u now st k h r e = ground (
    arith,
    any-update (is_live m s c) p (has_client_id c) (write_update u now) (λ o l. ground arith) k
        st.orders h,
  )

module _ {F A : Type 0} where
  pub connection-err :
      (t : Store F → Result (A × Store F)) (st : Store F) (e : DbError)
      → (connection t st).0 ≡ err e
      → (connection t st).1 ≡ st
  unfolding connection
  connection-err t st e h = ground arith

module _ {F : Type 0} ⦃fl : Float F⦄ where
  -- an accepted intent sells exactly when the tables have an open position
  pub record_order_intent-side :
      (m : Mode) (s c side : String) (q : F) (now : ℕ) (st : Store F) (u : Unit {0})
      → (connection (record_order_intent m s c side q now) st).0 ≡ ok u
      → any (open_for m s) (connection (record_order_intent m s c side q now) st).1.trades
        ≡ str_eq side "SELL"
  unfolding connection record_order_intent side_conflicts insert_order
  record_order_intent-side m s c side q now st u h = ground arith
