-- ===== src/Broker/Entry.antt =====
-- What opening a position keeps (app/execution/broker.py: enter).
use binance_bot.Base.{refl, not, ◌&&◌, List}
use binance_bot.Base.Float.{Float}
use binance_bot.Config.{Mode, mode_eq}
use binance_bot.Models.{StrategySignal, RiskDecision}
use binance_bot.Storage.Rows.{Store}
use binance_bot.Storage.Rules.{Atoms}
use binance_bot.Storage.Keeps.{open_trade-Keeps}
use binance_bot.Exchange.Answers.{Bot}
use binance_bot.Act.{Event}
use binance_bot.Act.Steady.{
  Steady, Steady-bind, Steady-pure, Steady-reads, Steady-observes, Steady-need, Steady-fail_if,
  Steady-if, Steady-ask, Steady-db,
}
use binance_bot.Broker.{Submitted}
use binance_bot.Broker.Paper.{normalized_price, normalized_quantity, risk_prices_from_fill}
use binance_bot.Broker.Enter.{
  open_paper, enter_paper, entry_liquidity, protect_entry, open_executed, buy, enter_exchange,
  enter_sized, enter_checked, enter,
}
use binance_bot.Broker.Recorded.{
  Advances, Ordering, advance-after, advance-then, advance-stay, advance-if, advance-checked,
  submit_market_order-Advances,
}
use binance_bot.Protection.Listing.{Listing, place_exchange_protection-Steady}

module _ {F D : Type 0} ⦃fl : Float F⦄ ⦃dl : Float D⦄ (b : Bot F D) {I : Store F → Type 0}
    {Q : List (Event F) → Type 0} (a : Atoms I) (l : Listing I Q) where
  pub normalized_price-Steady : (price : F) → Steady I Q (normalized_price b price)
  unfolding normalized_price
  normalized_price-Steady price = Steady-ask l.still _ _ refl

  pub normalized_quantity-Steady : (qty price : F) → Steady I Q (normalized_quantity b qty price)
  unfolding normalized_quantity
  normalized_quantity-Steady qty price = Steady-ask l.still _ _ refl

  pub risk_prices_from_fill-Steady : (price : F) → Steady I Q (risk_prices_from_fill b price)
  unfolding risk_prices_from_fill
  risk_prices_from_fill-Steady price = search (Steady-bind, normalized_price-Steady, Steady-pure)

  open_paper-Steady :
      (signal : StrategySignal F) (price qty : F) (prices : F × F) (quote base : D)
      → Steady I Q (open_paper b signal price qty prices quote base)
  unfolding open_paper
  open_paper-Steady signal price qty prices quote base =
      search (Steady-bind, Steady-observes, Steady-db, open_trade-Keeps a, Steady-pure)

  enter_paper-Steady :
      (signal : StrategySignal F) (qty price : F) → Steady I Q (enter_paper b signal qty price)
  unfolding enter_paper
  enter_paper-Steady signal qty price =
      search
        (
          Steady-bind, risk_prices_from_fill-Steady, Steady-reads, Steady-if, open_paper-Steady,
          Steady-pure,
        )
        depth 12

  entry_liquidity-Steady : (qty price : F) → Steady I Q (entry_liquidity b qty price)
  unfolding entry_liquidity
  entry_liquidity-Steady qty price =
      search (Steady-bind, Steady-ask l.still, Steady-observes, Steady-if, Steady-pure) depth 12

  protect_entry-Steady : Steady I Q (protect_entry b)
  unfolding protect_entry
  protect_entry-Steady =
      search
        (
          Steady-bind,
          Steady-reads,
          Steady-need,
          Steady-if,
          Steady-pure,
          place_exchange_protection-Steady b a l,
        )
        depth 12

  open_executed-Steady :
      (signal : StrategySignal F) (price : F) (s : Submitted F)
      → Steady I Q (open_executed b signal price s)
  unfolding open_executed
  open_executed-Steady signal price s =
      search
        (
          Steady-bind,
          normalized_quantity-Steady,
          Steady-fail_if,
          risk_prices_from_fill-Steady,
          Steady-observes,
          Steady-db,
          open_trade-Keeps a,
          protect_entry-Steady,
          Steady-pure,
        )
        depth 16

module _ {F D : Type 0} ⦃fl : Float F⦄ ⦃dl : Float D⦄ (b : Bot F D) {I : Store F → Type 0}
    {Q Q' : List (Event F) → Type 0} (a : Atoms I) (l : Ordering b I Q Q') where
  buy-Advances :
      (signal : StrategySignal F) (qty price : F) → Advances I Q Q' (buy b signal qty price)
  unfolding buy
  buy-Advances signal qty price =
      advance-then _ _ (submit_market_order-Advances b a l "BUY" qty)
        λ s. Steady-if _ _ _ (Steady-pure _) (open_executed-Steady b a l.then_on signal price s)

  enter_exchange-Advances :
      (signal : StrategySignal F) (qty price : F)
      → Advances I Q Q' (enter_exchange b signal qty price)
  unfolding enter_exchange
  enter_exchange-Advances signal qty price =
      advance-if (mode_eq b.settings.mode Mode.live && not b.settings.allow_live_trading) _ _
        (advance-stay _ (Steady-pure _) l.later)
        (advance-after _ _ (entry_liquidity-Steady b a l.first qty price) l.later λ r.
          advance-checked r _ _ (λ e. advance-stay _ (Steady-pure _) l.later)
            λ x. buy-Advances signal qty price)

  enter_sized-Advances :
      (signal : StrategySignal F) (quantity price : F)
      → Advances I Q Q' (enter_sized b signal quantity price)
  unfolding enter_sized
  enter_sized-Advances signal quantity price = search (
    advance-after,
    normalized_quantity-Steady b a l.first,
    l.later,
    advance-if,
    advance-stay,
    Steady-pure,
    enter_paper-Steady b a l.first,
    enter_exchange-Advances,
  )

  enter_checked-Advances :
      (signal : StrategySignal F) (quantity price : F)
      → Advances I Q Q' (enter_checked b signal quantity price)
  unfolding enter_checked
  enter_checked-Advances signal quantity price =
      search
        (
          advance-after, Steady-reads, l.later, advance-if, advance-stay, Steady-pure,
          enter_sized-Advances,
        )
        depth 12

  pub enter-Advances :
      (signal : StrategySignal F) (risk : RiskDecision F) (price : F)
      → Advances I Q Q' (enter b signal risk price)
  unfolding enter
  enter-Advances signal risk price =
      search (l.later, advance-if, advance-stay, Steady-pure, enter_checked-Advances)
