-- ===== src/Broker/Blocked.antt =====
-- An order whose outcome is not certain blocks further orders (app/execution/broker.py: enter and
-- maybe_exit).
use binance_bot.Base.{◌≡◌, refl, true, false, not, ◌&&◌, ◌||◌, inl, inr, Option-cases, Bool-cases}
use binance_bot.Base.Float.{Float, ◌≤?◌, nought}
use binance_bot.Models.{StrategySignal, RiskDecision}
use binance_bot.Risk.{is_buy}
use binance_bot.Storage.Orders.{has_unresolved_order}
use binance_bot.Exchange.{is_positive}
use binance_bot.Exchange.Answers.{Bot}
use binance_bot.Act.{World, done, pure, reads, ◌>>=◌}
use binance_bot.Broker.Enter.{ExecutionResult, bad_entry, enter_checked, enter}
use binance_bot.Broker.Exit.{maybe_exit}
use binance_bot.Protection.Fill.{is_present}
use binance_bot.Protection.Placement.{open_trade_of}

module _ {F D : Type 0} ⦃fl : Float F⦄ ⦃dl : Float D⦄ (b : Bot F D) where
  enter_checked-blocked :
      (signal : StrategySignal F) (quantity price : F) (w : World F)
      → has_unresolved_order b.settings.mode b.settings.symbol w.store ≡ true
      → (r : ExecutionResult F) × (enter_checked b signal quantity price w ≡ (done r, w))
        × (r.executed ≡ false)
  unfolding enter_checked ◌>>=◌ reads pure
  enter_checked-blocked signal quantity price w h = rw h (_, refl, refl)

  -- While the market has an unresolved order, `enter` returns without success and without any request
  -- or change, for every signal, decision and price.
  pub enter-blocked :
      (signal : StrategySignal F) (risk : RiskDecision F) (price : F) (w : World F)
      → has_unresolved_order b.settings.mode b.settings.symbol w.store ≡ true
      → (r : ExecutionResult F) × (enter b signal risk price w ≡ (done r, w)) × (r.executed ≡ false)
  unfolding enter pure
  enter-blocked signal risk price w h = elim (Bool-cases (not (is_buy signal.side))) [
    | inl e ↦ rw e (_, refl, refl)
    | inr e ↦ elim (Bool-cases (bad_entry b price risk.quantity signal.confidence)) [
      | inl e' ↦ rw (e, e') (_, refl, refl)
      | inr e' ↦ elim (Bool-cases (not risk.allowed || risk.quantity ≤? nought)) [
        | inl e'' ↦ rw (e, e', e'') (_, refl, refl)
        | inr e'' ↦ rw (e, e', e'') (enter_checked-blocked signal risk.quantity price w h)
      ]
    ]
  ]

  -- While the market has an unresolved order, `maybe_exit` returns without any request or change; it
  -- reports success only if the price is valid and there is no position to close.
  pub maybe_exit-blocked :
      (signal : StrategySignal F) (price : F) (w : World F)
      → has_unresolved_order b.settings.mode b.settings.symbol w.store ≡ true
      → (r : ExecutionResult F) × (maybe_exit b signal price w ≡ (done r, w))
        × (r.executed ≡ (is_positive price && not (is_present (open_trade_of b w.store))))
  unfolding maybe_exit ◌>>=◌ reads pure
  maybe_exit-blocked signal price w h = elim (Bool-cases (is_positive price)) [
    | inr e ↦ rw e (_, refl, refl)
    | inl e ↦ elim (Option-cases (open_trade_of b w.store)) [
      | inl e' ↦ rw (e, e') (_, refl, refl)
      | inr (t, e') ↦ rw (e, e', h) (_, refl, refl)
    ]
  ]
