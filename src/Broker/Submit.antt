-- ===== src/Broker/Submit.antt =====
-- A market order whose outcome is not certain blocks the market (app/execution/broker.py:
-- _submit_market_order).
use binance_bot.Base.{ℕ, ◌≡◌, ◌⊎◌, inl, inr, refl, String, Bool, true, false, Option, arith, any}
use mathlib.Core.Path.{subst, ◌∙◌}
use binance_bot.Base.Float.{Float, ◌<?◌, nought}
use binance_bot.Storage.Rows.{DbError}
use binance_bot.Storage.Tx.{ok, err, connection}
use binance_bot.Storage.Orders.{
  OrderUpdate, is_final, has_unresolved_order, record_order_intent, update_order_record,
}
use binance_bot.Storage.Pending.{
  is_live, is_waiting, is_bought, any_mono, has_unresolved_order-of_waiting,
  has_unresolved_order-of_bought, record_order_intent-waiting, update_order_record-live,
  connection-err,
}
use binance_bot.Exchange.Answers.{Order, Bot}
use binance_bot.Act.{World, failed, Failure}
use binance_bot.Act.Rules.{
  Post, Ensures, Keeps, bind, try, returns, raises, asks, calls_db, needs, sees, guards, checks,
  weaken,
}
use binance_bot.Broker.{
  unknown_update, market_order, get_order, mark_unknown, block_resubmission, place_order,
  needs_recovery, fill_price_of, order_update, accept_order, submit_recorded, submit_market_order,
}

module _ {F D : Type 0} ⦃fl : Float F⦄ ⦃dl : Float D⦄ (b : Bot F D) where
  open b use {settings, exchange}

  -- the order waits in the tables
  abbrev Waiting : String → World F → Type 0
  Waiting c w = any (is_waiting settings.mode settings.symbol c) w.store.orders ≡ true

  -- the market has an unresolved order
  abbrev pub Blocked : World F → Type 0
  Blocked w = has_unresolved_order settings.mode settings.symbol w.store ≡ true

  blocked : (c : String) (w : World F) → Waiting c w → Blocked w
  blocked c w h = has_unresolved_order-of_waiting settings.mode settings.symbol c w.store h

  row_is_live :
      (c : String) (w : World F)
      → Waiting c w
      → any (is_live settings.mode settings.symbol c) w.store.orders ≡ true
  row_is_live c w h =
      any_mono (is_waiting settings.mode settings.symbol c)
        (is_live settings.mode settings.symbol c) w.store.orders (λ o k. ground arith) h

  market_order-Waiting : (side c : String) (qty : F) → Keeps (Waiting c) (market_order b side qty c)
  unfolding market_order
  market_order-Waiting side c qty = bind (guards _ _ λ w p. p) λ _.
      bind (guards _ _ λ w p. p.0) λ _. bind (guards _ _ λ w p. p.0.0) λ _.
        bind (asks _ _ (λ w p a. p.0.0.0) (λ w p. p.0.0.0))
          λ t. bind (guards _ _ λ w p. p) λ _. asks _ _ (λ w p a. p.0) (λ w p. p.0)

  update-Waiting :
      (c : String) (u : OrderUpdate F) (now : ℕ) (w : World F)
      → is_final u.status ≡ false
      → Waiting c w
      → (r : Unit {0}) → (connection (update_order_record c u now) w.store).0 ≡ ok r
      → any
          (is_waiting settings.mode settings.symbol c)
          (connection (update_order_record c u now) w.store).1.orders
        ≡ true
  update-Waiting c u now w f h r e =
      update_order_record-live settings.mode settings.symbol c
        (is_waiting settings.mode settings.symbol c) u now w.store (λ o k. ground arith)
        (row_is_live c w h) r e

  -- a failed call of the store changes nothing
  stays :
      (c : String) (u : OrderUpdate F) (now : ℕ) (w : World F) (e : DbError)
      → Waiting c w
      → (connection (update_order_record c u now) w.store).0 ≡ err e
      → any
          (is_waiting settings.mode settings.symbol c)
          (connection (update_order_record c u now) w.store).1.orders
        ≡ true
  stays c u now w e h k = rw (connection-err (update_order_record c u now) w.store e k) h

  mark_unknown-Waiting : (c : String) → Keeps (Waiting c) (mark_unknown b c)
  unfolding mark_unknown
  mark_unknown-Waiting c = bind (sees _) λ now.
      calls_db _
        (λ w p r k.
          update-Waiting c (unknown_update nought) now w (unfold unknown_update is_final in refl) p
            r k)
        (λ w p e k. stays c (unknown_update nought) now w e p k)

  place_order-Waiting :
      (side c : String) (qty : F)
      → Ensures (Waiting c) (λ _. Waiting c) Blocked (place_order b side qty c)
  unfolding place_order block_resubmission get_order
  place_order-Waiting side c qty = try (market_order-Waiting side c qty) λ e.
      try {S = Waiting c} (asks _ _ (λ w p a. p) (λ w p. p)) λ e'.
        bind (weaken (λ w p. p) (λ a w p. p) (blocked c) (mark_unknown-Waiting c))
          λ _. raises _ (blocked c)

  -- after the final update: an executed order is still unresolved
  executed_blocks :
      (c : String) (o : Order F) (executed fee : F) (fill : Option F) (now : ℕ) (w : World F)
      → Waiting c w
      → (r : Unit {0})
      → (connection (update_order_record c (order_update b o executed fill fee) now) w.store).0
        ≡ ok r
      → nought <? executed ≡ true
      → has_unresolved_order settings.mode settings.symbol
          (connection (update_order_record c (order_update b o executed fill fee) now) w.store).1
        ≡ true
  unfolding order_update
  executed_blocks c o executed fee fill now w h r e pos =
      has_unresolved_order-of_bought settings.mode settings.symbol c _ (
        update_order_record-live settings.mode settings.symbol c
          (is_bought settings.mode settings.symbol c) (order_update b o executed fill fee) now
          w.store (λ o k. ground arith) (row_is_live c w h) r e)

  -- where the order was executed, the market stays blocked
  abbrev BlockedIf : Bool → World F → Type 0
  BlockedIf e w = e ≡ true → Blocked w

  recovery_executed :
      (o : Order F) (executed : F) (fill : Option F)
      → needs_recovery b o executed fill ≡ true
      → nought <? executed ≡ true
  unfolding needs_recovery
  recovery_executed o executed fill h = ground arith

  accept_order-Blocked :
      (side c : String) (qty : F) (o : Order F)
      → Ensures (Waiting c) (λ _ _. Unit) Blocked (accept_order b side qty c o)
  unfolding accept_order
  accept_order-Blocked side c qty o = bind (guards _ _ (blocked c)) λ _.
      bind (needs _ _ (λ w p. blocked c w p.0)) λ executed.
        bind (guards _ _ (λ w p. blocked c w p.0.0)) λ _.
          bind {Q = λ a. Waiting c} (asks _ _ (λ w p a. p.0.0.0) (λ w p. blocked c w p.0.0.0))
            λ fee. bind (sees _) λ now.
              bind {Q = λ a. BlockedIf (nought <? executed)}
                (calls_db _
                  (λ w p r k e.
                    executed_blocks c o executed fee (fill_price_of b o executed) now w p r k e)
                  (λ w p e k.
                    blocked c
                      (record w {
                        store =
                            (connection
                              (update_order_record c
                                (order_update b o executed (fill_price_of b o executed) fee) now)
                              w.store).1;
                      })
                      (stays c (order_update b o executed (fill_price_of b o executed) fee) now w e
                        p k)))
                λ _.
                  bind
                    (checks _ _
                      (λ w p k. p (recovery_executed o executed (fill_price_of b o executed) k)))
                    λ _. returns _ (λ w p. tt)

  submit_recorded-Blocked :
      (side c : String) (qty : F)
      → Ensures (Waiting c) (λ _ _. Unit) Blocked (submit_recorded b side qty c)
  unfolding submit_recorded
  submit_recorded-Blocked side c qty = bind (place_order-Waiting side c qty) λ r.
      bind (needs _ _ (blocked c))
        λ o. weaken (λ w p. p.0) (λ a w p. p) (λ w p. p) (accept_order-Blocked side c qty o)

  module _ (w0 : World F) where
    -- the tables and the requests are as at the start
    abbrev Untouched : World F → Type 0
    Untouched w = (w.store ≡ w0.store) × (w.calls ≡ w0.calls)

    abbrev Safe : World F → Type 0
    Safe w = Untouched w ⊎ Blocked w

    submit_market_order-Safe :
        (side : String) (qty : F)
        → Ensures Untouched (λ _ _. Unit) Safe (submit_market_order b side qty)
    unfolding submit_market_order
    submit_market_order-Safe side qty = bind (sees _) λ c. bind (sees _) λ now.
        bind {Q = λ a. Waiting c}
          (calls_db _
            (λ w p r k.
              record_order_intent-waiting settings.mode settings.symbol c side qty now w.store r k)
            (λ w p e k. inl (
              connection-err (record_order_intent settings.mode settings.symbol c side qty now)
                    w.store e k
                  ∙ p.0,
              p.1,
            )))
          λ _. weaken (λ w p. p) (λ a w p. p) (λ w p. inr p) (submit_recorded-Blocked side c qty)

  -- When sending an order raises, then either its intent was refused, and the tables and the requests
  -- are as before, or the market has an unresolved order.
  pub submit_market_order-raises :
      (side : String) (qty : F) (w w' : World F) (e : Failure)
      → submit_market_order b side qty w ≡ (failed e, w')
      → ((w'.store ≡ w.store) × (w'.calls ≡ w.calls))
        ⊎ (has_unresolved_order settings.mode settings.symbol w'.store ≡ true)
  submit_market_order-raises side qty w w' e h =
      subst (Post (λ _ _. Unit) (Safe w)) h
        ((submit_market_order-Safe w side qty).at w (refl, refl))
