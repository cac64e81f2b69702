-- ===== src/Protection/Startup.antt =====
-- What verifying protection at startup keeps (app/execution/protection.py:
-- reconcile_open_position_protection).
use binance_bot.Base.{Option, List}
use binance_bot.Base.Float.{Float}
use binance_bot.Config.{is_exchange}
use binance_bot.Storage.Rows.{Store, Trade}
use binance_bot.Storage.Rules.{Atoms}
use binance_bot.Exchange.Answers.{Bot}
use binance_bot.Act.{Event}
use binance_bot.Act.Steady.{
  Steady, Steady-bind, Steady-pure, Steady-fail, Steady-reads, Steady-fail_if, Steady-if,
  Steady-option,
}
use binance_bot.Protection.Fill.{ProtectiveFill, truthy}
use binance_bot.Protection.Placement.{Placement}
use binance_bot.Protection.Cancel.{
  confirm_rearmed, startup_rearm, startup_listed, startup_reconcile, startup_install, startup_trade,
  reconcile_open_position_protection,
}
use binance_bot.Protection.Quiet.{protective_fill-Steady}
use binance_bot.Protection.Listing.{
  Listing, rearm_terminal_protection-Steady, place_exchange_protection-Steady,
}

module _ {F D : Type 0} ⦃fl : Float F⦄ ⦃dl : Float D⦄ (b : Bot F D) {I : Store F → Type 0}
    {Q : List (Event F) → Type 0} (a : Atoms I) (l : Listing I Q) where
  confirm_rearmed-Steady : (p : Placement F) → Steady I Q (confirm_rearmed b p)
  unfolding confirm_rearmed
  confirm_rearmed-Steady p = search (Steady-bind, Steady-fail_if, Steady-pure)

  startup_rearm-Steady :
      (t : Trade F) (f : Option (ProtectiveFill F)) → Steady I Q (startup_rearm b t f)
  unfolding startup_rearm
  startup_rearm-Steady t f = search (
    Steady-bind,
    rearm_terminal_protection-Steady b a l,
    Steady-reads,
    Steady-if,
    confirm_rearmed-Steady,
    Steady-pure,
  )

  startup_listed-Steady :
      (t : Trade F) (f : Option (ProtectiveFill F)) → Steady I Q (startup_listed b t f)
  unfolding startup_listed
  startup_listed-Steady t f = search (Steady-if, startup_rearm-Steady, Steady-pure, Steady-fail)

  startup_reconcile-Steady : (t : Trade F) → Steady I Q (startup_reconcile b t)
  unfolding startup_reconcile
  startup_reconcile-Steady t = Steady-bind _ _ (protective_fill-Steady b a l.still t) λ f.
      Steady-bind _ _ (Steady-reads _)
        λ found. Steady-option found _ _ (Steady-pure _) λ u. startup_listed-Steady u f

  startup_install-Steady : (t : Trade F) → Steady I Q (startup_install b t)
  unfolding startup_install
  startup_install-Steady t =
      search (Steady-bind, place_exchange_protection-Steady b a l, Steady-fail_if, Steady-pure)

  startup_trade-Steady : (t : Trade F) → Steady I Q (startup_trade b t)
  unfolding startup_trade
  startup_trade-Steady t =
      Steady-option (truthy t.protective_list_client_order_id) _ _ (startup_install-Steady t)
        λ c. startup_reconcile-Steady t

  pub reconcile_open_position_protection-Steady : Steady I Q (reconcile_open_position_protection b)
  unfolding reconcile_open_position_protection
  reconcile_open_position_protection-Steady = Steady-bind _ _ (Steady-reads _) λ found.
      Steady-option found _ _ (Steady-pure _)
        λ t. Steady-if (is_exchange b.settings.mode) _ _ (startup_trade-Steady t) (Steady-pure _)
