-- ===== src/Broker/Cash.antt =====
-- A paper purchase spends what it costs, and no more than there is (app/execution/broker.py: enter).
use binance_bot.Base.{
  ℕ, ◌≡◌, refl, String, Bool, true, false, not, ◌||◌, ◌⊎◌, inl, inr, none, List, [], ◌∷◌, arith,
  if◌then◌else◌,
}
use binance_bot.Base.Float.{Float, ◌⊕◌, ◌⊖◌, ◌<?◌, ◌≤?◌, nought}
use binance_bot.Config.{Mode, mode_eq}
use binance_bot.Models.{StrategySignal, RiskDecision}
use binance_bot.Risk.{is_buy}
use binance_bot.Storage.Tx.{ok, connection, put_states}
use binance_bot.Storage.Trades.{NewTrade, open_trade, apply_optional, insert_trade}
use binance_bot.Storage.Rows.{Store}
use mathlib.Core.Path.{subst, ap, ◌∙◌}
use binance_bot.Storage.Pending.{connection-err}
use binance_bot.Exchange.{is_positive}
use binance_bot.Exchange.Answers.{Bot}
use binance_bot.Act.{World, Act, pure}
use binance_bot.Act.Rules.{
  Post, Ensures, bind, returns, asks, sees, looks, calls_db, either, weaken,
}
use binance_bot.Protection.Fill.{is_present}
use binance_bot.Broker.Paper.{
  quote_key, base_key, paper_quote, paper_base, paper_buy_price, normalized_quantity,
  normalized_price, risk_prices_from_fill,
}
use binance_bot.Broker.Enter.{
  ExecutionResult, refused, bad_entry, paper_cost, paper_trade, open_paper, enter_paper,
  enter_sized, enter_checked, enter,
}

module _ {F A : Type 0} {P : World F → Type 0} {Q : A → World F → Type 0}
    {R : World F → Type 0} where
  -- a test whose outcome is known
  taken :
      (b : Bool) {m : Act F A} (n : Act F A)
      → b ≡ true
      → Ensures P Q R m
      → Ensures P Q R (if b then m else n)
  taken true n e h = h
  taken false n e h = absurd (ground arith)

module _ {F D : Type 0} ⦃fl : Float F⦄ ⦃dl : Float D⦄ (b : Bot F D) where
  open b use {settings, cv, py}

  open_trade-states :
      (n : NewTrade F) (now : ℕ) (st : Store F) (i : ℕ)
      → n.client_order_id ≡ none
      → (connection (open_trade n now) st).0 ≡ ok i
      → (connection (open_trade n now) st).1.states ≡ put_states n.state_updates st.states
  unfolding connection open_trade apply_optional insert_trade
  open_trade-states n now st i c h = ground arith

  -- what a purchase of `qty` leaves in the states
  abbrev pub spent : F → F → Store F → List (String × String)
  spent price qty st =
      (quote_key b, py.show_decimal (paper_quote b st ⊖ paper_cost b (paper_buy_price b price) qty))
      ∷ (base_key b, py.show_decimal (paper_base b st ⊕ cv.dec qty))
      ∷ []

  -- nothing was bought, or a quantity that the cash of `st` pays for
  abbrev pub Paid : Store F → F → F → ExecutionResult F → World F → Type 0
  Paid st quantity price r w =
      ((r.executed ≡ false) × (w.store ≡ st))
      ⊎ ((r.executed ≡ true)
          × ((qty : F) × (is_positive qty ≡ true)
              × (quantity <? qty ≡ false)
              × (paper_quote b st <? paper_cost b (paper_buy_price b price) qty ≡ false)
              × (w.store.states ≡ put_states (spent price qty st) st.states)))

  module _ (st : Store F) (signal : StrategySignal F) (quantity price : F) where
    abbrev Same : World F → Type 0
    Same w = w.store ≡ st

    paper_trade-spent :
        (qty : F) (prices : F × F) (quote base : D)
        → quote ≡ paper_quote b st
        → base ≡ paper_base b st
        → (paper_trade b signal (paper_buy_price b price) qty prices quote base).state_updates
          ≡ spent price qty st
    unfolding paper_trade
    paper_trade-spent qty prices quote base q p = rw (q, p) refl

    paper_trade-client :
        (qty : F) (prices : F × F) (quote base : D)
        → (paper_trade b signal (paper_buy_price b price) qty prices quote base).client_order_id
          ≡ none
    unfolding paper_trade
    paper_trade-client qty prices quote base = refl

    recorded :
        (qty : F) (prices : F × F) (quote base : D) (now : ℕ) (w : World F) (i : ℕ)
        → quote ≡ paper_quote b st
        → base ≡ paper_base b st
        → Same w
        → (connection
            (open_trade (paper_trade b signal (paper_buy_price b price) qty prices quote base) now)
            w.store).0
          ≡ ok i
        → (connection
            (open_trade (paper_trade b signal (paper_buy_price b price) qty prices quote base) now)
            w.store).1.states
          ≡ put_states (spent price qty st) st.states
    recorded qty prices quote base now w i q p h e =
        open_trade-states _ now w.store i (paper_trade-client qty prices quote base) e
        ∙ (ap (λ us. put_states us w.store.states) (paper_trade-spent qty prices quote base q p)
            ∙ ap (λ s. put_states (spent price qty st) s.states) h)

    open_paper-Paid :
        (qty : F) (prices : F × F) (quote base : D)
        → is_positive qty ≡ true
        → quantity <? qty ≡ false
        → quote ≡ paper_quote b st
        → base ≡ paper_base b st
        → quote <? paper_cost b (paper_buy_price b price) qty ≡ false
        → Ensures Same
            (Paid st quantity price)
            Same
            (open_paper b signal (paper_buy_price b price) qty prices quote base)
    unfolding open_paper
    open_paper-Paid qty prices quote base pos le q p enough = bind (sees _) λ now.
        bind {Q = λ i w. w.store.states ≡ put_states (spent price qty st) st.states}
          (calls_db _ (λ w h i e. recorded qty prices quote base now w i q p h e)
            (λ w h e x. connection-err _ w.store e x ∙ h))
          λ i. returns _ λ w h. inr (
            refl,
            (
              qty,
              pos,
              le,
              subst (λ z. z <? paper_cost b (paper_buy_price b price) qty ≡ false) q enough,
              h,
            ),
          )

    -- the test of the cash; `quote` and `base` were just read
    afford :
        (qty : F) (prices : F × F) (quote base : D)
        → is_positive qty ≡ true
        → quantity <? qty ≡ false
        → Ensures
            (λ w. Same w × (quote ≡ paper_quote b w.store) × (base ≡ paper_base b w.store))
            (Paid st quantity price)
            Same
            (if quote <? paper_cost b (paper_buy_price b price) qty
              then pure (refused "BUY" "Insufficient paper quote balance")
              else open_paper b signal (paper_buy_price b price) qty prices quote base)
    afford qty prices quote base pos le = either _ (returns _ λ w h. inl (refl, h.0.0)) (record {
      at = λ w h.
          (open_paper-Paid qty prices quote base pos le (h.0.1 ∙ ap (paper_quote b) h.0.0)
              (h.0.2 ∙ ap (paper_base b) h.0.0) h.1).at
            w h.0.0;
    })

    enter_paper-Paid :
        (qty : F)
        → is_positive qty ≡ true
        → quantity <? qty ≡ false
        → Ensures Same (Paid st quantity price) Same (enter_paper b signal qty price)
    unfolding enter_paper risk_prices_from_fill normalized_price
    enter_paper-Paid qty pos le =
        bind {Q = λ a. Same}
          (bind {Q = λ a. Same} (asks _ _ (λ w h a. h) (λ w h. h)) λ stop.
            bind {Q = λ a. Same} (asks _ _ (λ w h a. h) (λ w h. h)) λ take. returns _ λ w h. h)
          λ prices.
            bind {Q = λ quote w. Same w × (quote ≡ paper_quote b w.store)} (looks _) λ quote.
              bind (looks _) λ base.
                weaken (λ w h. (h.0.0, h.0.1, h.1)) (λ r w h. h) (λ w h. h)
                  (afford qty prices quote base pos le)

    enter_sized-Paid :
        mode_eq settings.mode Mode.paper ≡ true
        → Ensures Same (Paid st quantity price) Same (enter_sized b signal quantity price)
    unfolding enter_sized normalized_quantity
    enter_sized-Paid m = bind {Q = λ a. Same} (asks _ _ (λ w h a. h) (λ w h. h)) λ qty.
        either _ (returns _ λ w h. inl (refl, h.0)) (
          taken _ _ m
            (record { at = λ w h. (enter_paper-Paid qty (ground arith) (ground arith)).at w h.0 }))

    enter_checked-Paid :
        mode_eq settings.mode Mode.paper ≡ true
        → Ensures Same (Paid st quantity price) Same (enter_checked b signal quantity price)
    unfolding enter_checked
    enter_checked-Paid m =
        bind {Q = λ a. Same} (weaken (λ w h. h) (λ a w h. h.0) (λ w h. h) (looks _)) λ unresolved.
          bind {Q = λ a. Same} (weaken (λ w h. h) (λ a w h. h.0) (λ w h. h) (looks _)) λ held.
            either unresolved (returns _ λ w h. inl (refl, h.0)) (
              either (is_present held) (returns _ λ w h. inl (refl, h.0.0))
                (weaken (λ w h. h.0.0) (λ r w h. h) (λ w h. h) (enter_sized-Paid m)))

  enter-Paid :
      (st : Store F) (signal : StrategySignal F) (risk : RiskDecision F) (price : F)
      → mode_eq settings.mode Mode.paper ≡ true
      → Ensures
          (λ w. w.store ≡ st)
          (Paid st risk.quantity price)
          (λ w. w.store ≡ st)
          (enter b signal risk price)
  unfolding enter
  enter-Paid st signal risk price m =
      either (not (is_buy signal.side)) (returns _ λ w h. inl (refl, h.0)) (
        either (bad_entry b price risk.quantity signal.confidence)
          (returns _ λ w h. inl (refl, h.0.0))
          (either (not risk.allowed || risk.quantity ≤? nought)
            (returns _ λ w h. inl (refl, h.0.0.0))
            (weaken (λ w h. h.0.0.0) (λ r w h. h) (λ w h. h)
              (enter_checked-Paid st signal risk.quantity price m))))

  -- In paper mode, `enter` either does not succeed and leaves the tables as they are, or it succeeds
  -- and there is a positive quantity, at most the one that was approved, whose cost with the fee the
  -- recorded cash covered, and by which the recorded cash and inventory changed. If it raises, the
  -- tables are as they were.
  pub enter-paper_cash :
      (signal : StrategySignal F) (risk : RiskDecision F) (price : F) (w : World F)
      → mode_eq settings.mode Mode.paper ≡ true
      → Post
          (Paid w.store risk.quantity price)
          (λ w'. w'.store ≡ w.store)
          (enter b signal risk price w)
  enter-paper_cash signal risk price w m = (enter-Paid w.store signal risk price m).at w refl
