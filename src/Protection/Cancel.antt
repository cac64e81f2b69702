-- ===== src/Protection/Cancel.antt =====
-- Cancelling protection before a software exit, and verifying it at startup
-- (app/execution/protection.py: _cancel_exchange_protection and reconcile_open_position_protection).
use binance_bot.Base.{String, ◌<>◌, not, Option, none, some, str_eq, if◌then◌else◌}
use binance_bot.Base.Float.{Float}
use binance_bot.Config.{is_exchange}
use binance_bot.Storage.Rows.{Trade, ProtectionStatus}
use binance_bot.Storage.Trades.{clear_trade_protection}
use binance_bot.Exchange.Answers.{Bot}
use binance_bot.Act.{
  Act, cancel_list, Failure, pure, fail, rethrow, reads, ask, db, need, fail_if, catch, ◌>>=◌, ◌>>◌,
}
use binance_bot.Protection.Fill.{ProtectiveFill, truthy, is_present, protective_fill}
use binance_bot.Protection.Placement.{
  Placement, opt_is_executing, opt_is_terminal, opt_status_text, open_trade_of,
  rearm_terminal_protection, place_exchange_protection,
}

-- what startup finds or does
pub data Startup (F : Type 0) : Type 0 where
  no_open_position : Startup F
  fill_reconciled : Option (ProtectiveFill F) → Startup F
  still_protected : Trade F → Startup F
  reprotected installed : Placement F → Startup F

abbrev pub or_fill :
    {F : Type 0} → Option (ProtectiveFill F) → Option (ProtectiveFill F) → Option (ProtectiveFill F)
or_fill none p = p
or_fill (some f) p = some f

module _ {F D : Type 0} ⦃fl : Float F⦄ ⦃dl : Float D⦄ (b : Bot F D) where
  open b use {settings, exchange}

  -- the request, and what it raised
  unfoldable pub try_cancel : String → Act F (Option Failure)
  try_cancel list_id =
      catch
        (do
          ask (cancel_list settings.symbol list_id) (λ c. exchange.cancel c settings.symbol list_id)
          pure none)
        λ e. pure (some e)

  unfoldable pub clear_for_exit : Trade F → Act F (Option (ProtectiveFill F))
  clear_for_exit trade = do
    db (clear_trade_protection trade.id (some ProtectionStatus.canceled_for_exit))
    pure none

  -- no fill was found after a cancellation that raised `e`
  unfoldable pub after_failed_cancel : Trade F → Failure → Act F (Option (ProtectiveFill F))
  after_failed_cancel trade e = do
    current ← reads (open_trade_of b)
    t ← need current "No open trade"
    if opt_is_terminal t.protection_status then clear_for_exit trade else rethrow e

  unfoldable pub after_cancel : Trade F → Option Failure → Act F (Option (ProtectiveFill F))
  after_cancel trade none = clear_for_exit trade
  after_cancel trade (some e) = after_failed_cancel trade e

  unfoldable pub cancel_identity : Trade F → String → Act F (Option (ProtectiveFill F))
  cancel_identity trade list_id = do
    refused ← try_cancel list_id
    fill ← protective_fill b trade
    elim fill [ some f ↦ pure (some f) | none ↦ after_cancel trade refused ]

  -- `_cancel_exchange_protection`
  unfoldable pub cancel_exchange_protection : Trade F → Act F (Option (ProtectiveFill F))
  cancel_exchange_protection trade = elim (truthy trade.protective_list_client_order_id) [
    | none ↦ pure none
    | some list_id ↦ if is_exchange settings.mode then cancel_identity trade list_id else pure none
  ]

  unfoldable pub confirm_rearmed : Placement F → Act F (Startup F)
  confirm_rearmed placed = do
    fail_if (not placed.protected)
        "Terminal OCO was reconciled but replacement protection is not active"
    pure (reprotected placed)

  -- a list that is terminal at startup
  unfoldable pub startup_rearm : Trade F → Option (ProtectiveFill F) → Act F (Startup F)
  startup_rearm t fill = do
    placed ← rearm_terminal_protection b t fill
    still ← reads (open_trade_of b)
    if is_present still
        then confirm_rearmed placed
        else pure (fill_reconciled (or_fill fill placed.reconciled_fill))

  -- the position has a list, which was reconciled
  unfoldable pub startup_listed : Trade F → Option (ProtectiveFill F) → Act F (Startup F)
  startup_listed t fill =
      if opt_is_executing t.protection_status
      then pure (elim fill [ none ↦ still_protected t | some f ↦ fill_reconciled (some f) ])
      else if opt_is_terminal t.protection_status
      then startup_rearm t fill
      else fail (
          "Open position protection could not be verified safely at startup: "
          <> opt_status_text t.protection_status)

  unfoldable pub startup_reconcile : Trade F → Act F (Startup F)
  startup_reconcile trade = do
    fill ← protective_fill b trade
    refreshed ← reads (open_trade_of b)
    elim refreshed [ none ↦ pure (fill_reconciled fill) | some t ↦ startup_listed t fill ]

  unfoldable pub startup_install : Trade F → Act F (Startup F)
  startup_install trade = do
    placed ← place_exchange_protection b trade
    fail_if (not (str_eq placed.status "EXECUTING"))
        "Open position did not receive active exchange protection at startup"
    pure (installed placed)

  unfoldable pub startup_trade : Trade F → Act F (Startup F)
  startup_trade trade = elim (truthy trade.protective_list_client_order_id) [
    | some list_id ↦ startup_reconcile trade
    | none ↦ startup_install trade
  ]

  -- `reconcile_open_position_protection`
  unfoldable pub reconcile_open_position_protection : Act F (Startup F)
  reconcile_open_position_protection = do
    found ← reads (open_trade_of b)
    elim found [
      | none ↦ pure no_open_position
      | some trade ↦
          if is_exchange settings.mode then startup_trade trade else pure no_open_position
    ]
