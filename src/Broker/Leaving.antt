-- ===== src/Broker/Leaving.antt =====
-- What closing a position keeps (app/execution/broker.py: maybe_exit).
use binance_bot.Base.{str_eq, String, not, ◌&&◌, Option, none, some, List}
use binance_bot.Base.Float.{Float}
use binance_bot.Config.{is_exchange}
use binance_bot.Models.{StrategySignal}
use binance_bot.Storage.Rows.{Store, Trade}
use binance_bot.Storage.Rules.{Atoms}
use binance_bot.Storage.Keeps.{close_trade-Keeps, raise_position_stop-Keeps}
use binance_bot.Exchange.{is_positive}
use binance_bot.Exchange.Answers.{Bot}
use binance_bot.Act.{Event}
use binance_bot.Act.Steady.{
  Steady, Steady-bind, Steady-pure, Steady-reads, Steady-observes, Steady-recall, Steady-remember,
  Steady-if, Steady-ask, Steady-db,
}
use binance_bot.Broker.{Submitted}
use binance_bot.Broker.Exit.{
  exit_reason, retain, raise_stop, trail, rearm_position, exit_position, exit_reconciled, exit_open,
  maybe_exit,
}
use binance_bot.Broker.Exit.Sale.{
  position_is_listed, check_inventory, position_inventory_issue, sell_paper, close_executed,
  sell_quantity, sell_available, sell_unprotected, sell_verified, sell_exchange, sell,
}
use binance_bot.Broker.Entry.{normalized_price-Steady, normalized_quantity-Steady}
use binance_bot.Broker.Recorded.{
  Advances, Ordering, advance-after, advance-then, advance-stay, advance-if, advance-option,
  submit_market_order-Advances,
}
use binance_bot.Protection.Fill.{ProtectiveFill}
use binance_bot.Protection.Placement.{opt_is_terminal}
use binance_bot.Protection.Quiet.{protective_fill-Steady, cancel_exchange_protection-Steady}
use binance_bot.Protection.Listing.{
  Listing, rearm_terminal_protection-Steady, place_exchange_protection-Steady,
}

module _ {F D : Type 0} ⦃fl : Float F⦄ ⦃dl : Float D⦄ (b : Bot F D) {I : Store F → Type 0}
    {Q : List (Event F) → Type 0} (a : Atoms I) (l : Listing I Q) where
  check_inventory-Steady : (trade : Trade F) (now : F) → Steady I Q (check_inventory b trade now)
  unfolding check_inventory
  check_inventory-Steady trade now =
      search (Steady-bind, Steady-ask l.still, Steady-remember, Steady-pure)

  position_inventory_issue-Steady :
      (trade : Trade F) → Steady I Q (position_inventory_issue b trade)
  unfolding position_inventory_issue
  position_inventory_issue-Steady trade =
      search
        (
          Steady-if, Steady-pure, Steady-bind, Steady-observes, Steady-recall,
          check_inventory-Steady,
        )
        depth 12

  sell_paper-Steady :
      (price : F) (reason : String) (trade : Trade F) → Steady I Q (sell_paper b price reason trade)
  unfolding sell_paper
  sell_paper-Steady price reason trade =
      search
        (Steady-bind, Steady-reads, Steady-observes, Steady-db, close_trade-Keeps a, Steady-pure)
        depth 12

  close_executed-Steady :
      (trade : Trade F) (price : F) (reason : String) (s : Submitted F)
      → Steady I Q (close_executed b trade price reason s)
  unfolding close_executed
  close_executed-Steady trade price reason s =
      search (Steady-bind, Steady-observes, Steady-db, close_trade-Keeps a, Steady-pure)

  retain-Steady : (trade : Trade F) → Steady I Q (retain b trade)
  unfolding retain
  retain-Steady trade =
      search (Steady-if, Steady-bind, place_exchange_protection-Steady b a l, Steady-pure)

  raise_stop-Steady : (trade : Trade F) (high stop : F) → Steady I Q (raise_stop b trade high stop)
  unfolding raise_stop
  raise_stop-Steady trade high stop =
      search
        (
          Steady-bind,
          normalized_price-Steady b a l,
          Steady-db,
          raise_position_stop-Keeps a,
          Steady-if,
          Steady-pure,
          retain-Steady,
        )
        depth 12

  trail-Steady : (trade : Trade F) (price : F) → Steady I Q (trail b trade price)
  unfolding trail
  trail-Steady trade price = search (Steady-if, raise_stop-Steady, retain-Steady)

  rearm_position-Steady : (trade : Trade F) → Steady I Q (rearm_position b trade)
  unfolding rearm_position
  rearm_position-Steady trade =
      search (Steady-bind, rearm_terminal_protection-Steady b a l, Steady-reads, Steady-pure)

module _ {F D : Type 0} ⦃fl : Float F⦄ ⦃dl : Float D⦄ (b : Bot F D) {I : Store F → Type 0}
    {Q Q' : List (Event F) → Type 0} (a : Atoms I) (l : Ordering b I Q Q') where
  sell_quantity-Advances :
      (trade : Trade F) (price : F) (reason : String) (qty : F)
      → Advances I Q Q' (sell_quantity b trade price reason qty)
  unfolding sell_quantity
  sell_quantity-Advances trade price reason qty =
      advance-then _ _ (submit_market_order-Advances b a l "SELL" qty) λ s.
        Steady-if _ _ _ (Steady-pure _) (close_executed-Steady b a l.then_on trade price reason s)

  sell_available-Advances :
      (price : F) (reason : String) (trade : Trade F)
      → Advances I Q Q' (sell_available b price reason trade)
  unfolding sell_available
  sell_available-Advances price reason trade =
      search
        (
          advance-after,
          Steady-ask l.first.still,
          l.later,
          normalized_quantity-Steady b a l.first,
          advance-if,
          advance-stay,
          Steady-pure,
          sell_quantity-Advances,
        )
        depth 12

  sell_unprotected-Advances :
      (price : F) (reason : String) (f : Option (ProtectiveFill F))
      → Advances I Q Q' (sell_unprotected b price reason f)
  unfolding sell_unprotected
  sell_unprotected-Advances price reason (some f) = advance-stay _ (Steady-pure _) l.later
  sell_unprotected-Advances price reason none = advance-after _ _ (Steady-reads _) l.later λ found.
      advance-option found _ _ (advance-stay _ (Steady-pure _) l.later)
        (sell_available-Advances price reason)

  sell_verified-Advances :
      (price : F) (reason : String) (trade : Trade F) (i : Option String)
      → Advances I Q Q' (sell_verified b price reason trade i)
  unfolding sell_verified
  sell_verified-Advances price reason trade (some i) = advance-stay _ (Steady-pure _) l.later
  sell_verified-Advances price reason trade none =
      advance-after _ _ (cancel_exchange_protection-Steady b a l.first.still trade) l.later
        (sell_unprotected-Advances price reason)

  sell-Advances :
      (price : F) (reason : String) (trade : Trade F) → Advances I Q Q' (sell b price reason trade)
  unfolding sell sell_exchange
  sell-Advances price reason trade =
      search
        (
          advance-if,
          advance-stay,
          l.later,
          sell_paper-Steady b a l.first,
          Steady-pure,
          advance-after,
          position_inventory_issue-Steady b a l.first,
          sell_verified-Advances,
        )
        depth 12

  exit_position-Advances :
      (signal : StrategySignal F) (price : F) (trade : Trade F)
      → Advances I Q Q' (exit_position b signal price trade)
  unfolding exit_position
  exit_position-Advances signal price trade =
      advance-option (exit_reason trade signal price) _ _
        (advance-if
          (is_exchange b.settings.mode
            && (position_is_listed trade && opt_is_terminal trade.protection_status))
          _ _ (advance-stay _ (rearm_position-Steady b a l.first trade) l.later)
          (advance-stay _ (trail-Steady b a l.first trade price) l.later))
        λ reason.
          advance-if (str_eq reason "") _ _
            (advance-stay _ (retain-Steady b a l.first trade) l.later)
            (sell-Advances price reason trade)

  exit_reconciled-Advances :
      (signal : StrategySignal F) (price : F) (f : Option (ProtectiveFill F))
      → Advances I Q Q' (exit_reconciled b signal price f)
  unfolding exit_reconciled
  exit_reconciled-Advances signal price (some f) = advance-stay _ (Steady-pure _) l.later
  exit_reconciled-Advances signal price none = advance-after _ _ (Steady-reads _) l.later λ found.
      advance-option found _ _ (advance-stay _ (Steady-pure _) l.later)
        (exit_position-Advances signal price)

  exit_open-Advances :
      (signal : StrategySignal F) (price : F) (trade : Trade F)
      → Advances I Q Q' (exit_open b signal price trade)
  unfolding exit_open
  exit_open-Advances signal price trade = search (
    advance-if,
    advance-after,
    protective_fill-Steady b a l.first.still,
    l.later,
    exit_reconciled-Advances,
    exit_position-Advances,
  )

  pub maybe_exit-Advances :
      (signal : StrategySignal F) (price : F) → Advances I Q Q' (maybe_exit b signal price)
  unfolding maybe_exit
  maybe_exit-Advances signal price =
      advance-if (not (is_positive price)) _ _ (advance-stay _ (Steady-pure _) l.later) (
        advance-after _ _ (Steady-reads _) l.later λ found.
          advance-after _ _ (Steady-reads _) l.later λ unresolved.
            advance-option found _ _ (advance-stay _ (Steady-pure _) l.later) λ trade.
              advance-if unresolved _ _ (advance-stay _ (Steady-pure _) l.later)
                (exit_open-Advances signal price trade))
