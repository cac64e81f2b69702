-- ===== src/Protection/Placement.antt =====
-- Placing and replacing a protective order list (app/execution/protection.py:
-- _place_exchange_protection, _rearm_terminal_protection and reconcile_open_position_protection).
-- The two first call each other, with `_terminal_retries` 0 at first and 1 from then on; a list that
-- is terminal at 1 raises. So the second placement below cannot reach a third.
use binance_bot.Base.{
  ℕ, String, ◌<>◌, Bool, true, false, not, ◌&&◌, Option, none, some, if◌then◌else◌,
}
use binance_bot.Base.Float.{Float}
use binance_bot.Config.{is_exchange}
use binance_bot.Storage.Rows.{Store, Trade, ProtectionStatus}
use binance_bot.Storage.Trades.{set_trade_protection, clear_trade_protection, get_open_trade}
use binance_bot.Exchange.{OcoOrder, Checked, passed, raised, place_protective_oco}
use binance_bot.Exchange.Answers.{Response, OrderList, Calls, Bot}
use binance_bot.Act.{
  Act, send_oco, ask_order_list, pure, fail, reads, observes, ask, db, fail_if, catch, ◌>>=◌, ◌>>◌,
}
use binance_bot.Protection.{validate_oco_response}
use binance_bot.Protection.Fill.{
  ProtectiveFill, is_executing, is_terminal_list, truthy, lift, mark_fail, is_present,
  protective_fill,
}

-- the dict that a placement returns
pub record Placement (F : Type 0) : Type 0 where
  pub protected : Bool
  pub status : String
  pub list_client_order_id : Option String
  pub order_list_id : Option String
  pub reconciled_fill : Option (ProtectiveFill F)

-- the ids of a new list and of its two legs
pub record ProtectionIds : Type 0 where
  pub list_id : String
  pub take_id : String
  pub stop_id : String

abbrev pub status_text : ProtectionStatus → String
status_text ProtectionStatus.submitting = "PROTECTION_SUBMITTING"
status_text ProtectionStatus.unknown = "PROTECTION_UNKNOWN"
status_text ProtectionStatus.executing = "EXECUTING"
status_text ProtectionStatus.all_done = "ALL_DONE"
status_text ProtectionStatus.reject = "REJECT"
status_text ProtectionStatus.expired = "EXPIRED"
status_text ProtectionStatus.list_reconciled = "TERMINAL_LIST_RECONCILED"
status_text ProtectionStatus.canceled_for_exit = "CANCELED_FOR_SOFTWARE_EXIT"

abbrev pub opt_is_executing : Option ProtectionStatus → Bool
opt_is_executing none = false
opt_is_executing (some s) = is_executing s

abbrev pub opt_status_text : Option ProtectionStatus → String
opt_status_text none = "UNKNOWN"
opt_status_text (some s) = status_text s

abbrev pub opt_is_terminal : Option ProtectionStatus → Bool
opt_is_terminal none = false
opt_is_terminal (some s) = is_terminal_list s

module _ {F : Type 0} where
  abbrev pub unprotected : String → Option (ProtectiveFill F) → Placement F
  unprotected status fill = record {
    protected = false;
    status = status;
    list_client_order_id = none;
    order_list_id = none;
    reconciled_fill = fill;
  }

  abbrev pub listed_placement :
      Bool → String → String → Option String → Option (ProtectiveFill F) → Placement F
  listed_placement active status list_id order_list_id fill = record {
    protected = active;
    status = status;
    list_client_order_id = some list_id;
    order_list_id = order_list_id;
    reconciled_fill = fill;
  }

  -- {**replacement, "reconciled_fill": fill}, if there is one
  abbrev pub with_fill : Option (ProtectiveFill F) → Placement F → Placement F
  with_fill none p = p
  with_fill (some f) p = record p { reconciled_fill = some f }

  -- the identity is there already
  unfoldable pub existing_placement : Trade F → String → Placement F
  existing_placement trade list_id =
      listed_placement
        (opt_is_executing trade.protection_status
          && is_present (truthy trade.protective_order_list_id))
        (opt_status_text trade.protection_status) list_id trade.protective_order_list_id none

-- what follows a list that is terminal while the position is still open
abbrev pub Continuation : Type 0 → Type 0
Continuation F = String → Option String → Trade F → Option (ProtectiveFill F) → Act F (Placement F)

module _ {F D : Type 0} ⦃fl : Float F⦄ ⦃dl : Float D⦄ (b : Bot F D) where
  open b use {settings, exchange, py}

  abbrev pub open_trade_of : Store F → Option (Trade F)
  open_trade_of = get_open_trade settings.symbol settings.mode

  unfoldable pub new_protection_ids : Calls F → ProtectionIds
  new_protection_ids calls =
      let token = exchange.token calls in
      record {
        list_id = "agt-prot-" <> token;
        take_id = "agt-tp-" <> token;
        stop_id = "agt-sl-" <> token;
      }

  -- `place_protective_oco`: its guards, then the request
  unfoldable pub request_oco : Checked (OcoOrder F) → Act F (Response OrderList)
  request_oco (raised e) = fail e
  request_oco (passed o) = ask (send_oco o) (λ c. exchange.post_oco c o)

  unfoldable pub send_list : Trade F → ProtectionIds → Act F (Response OrderList)
  send_list trade ids = request_oco (
      place_protective_oco settings settings.symbol trade.quantity trade.take_profit_price
        trade.stop_price ids.list_id ids.take_id ids.stop_id)

  -- the answer, or what the exchange knows of the list
  unfoldable pub submit_list : Trade F → ProtectionIds → Act F (Response OrderList)
  submit_list trade ids = catch (send_list trade ids) λ e.
      catch (ask (ask_order_list ids.list_id) (λ c. exchange.order_list c ids.list_id)) λ e'.
        mark_fail b trade.id none ids.list_id
          "Protective OCO outcome is uncertain; position requires reconciliation."

  -- a list that was accepted and is terminal already
  unfoldable pub settle_terminal :
      Continuation F → Trade F → String → Option String → ProtectionStatus → Act F (Placement F)
  settle_terminal after trade list_id order_list_id status = do
    persisted ← reads open_trade_of
    fill ←
        catch (elim persisted [ none ↦ pure none | some t ↦ protective_fill b t ])
          λ e.
            mark_fail b trade.id order_list_id list_id
              "Terminal protective OCO could not be reconciled; the list will not be resubmitted"
    refreshed ← reads open_trade_of
    elim refreshed [
      | none ↦ pure (listed_placement false (status_text status) list_id order_list_id fill)
      | some t ↦ after list_id order_list_id t fill
    ]

  -- an accepted list
  unfoldable pub settle_list :
      Continuation F → Trade F → ProtectionIds → ℕ × ProtectionStatus → Act F (Placement F)
  settle_list after trade ids (id, status) = do
    let order_list_id = some (py.show id)
    db (set_trade_protection trade.id order_list_id (some ids.list_id) status)
    if is_executing status
        then pure (listed_placement true (status_text status) ids.list_id order_list_id none)
        else settle_terminal after trade ids.list_id order_list_id status

  -- a position without a list: the identity is written before the request
  unfoldable pub place_new : Continuation F → Trade F → Act F (Placement F)
  place_new after trade = do
    ids ← observes new_protection_ids
    db (set_trade_protection trade.id none (some ids.list_id) ProtectionStatus.submitting)
    response ← submit_list trade ids
    accepted ←
        catch
          (lift (
            validate_oco_response py.upper py.strip settings.symbol response ids.list_id ids.take_id
              ids.stop_id))
          λ e. mark_fail b trade.id none ids.list_id "Protective OCO response could not be verified"
    settle_list after trade ids accepted

  unfoldable pub place_with : Continuation F → Trade F → Act F (Placement F)
  place_with after trade =
      if not (is_exchange settings.mode)
      then pure (unprotected "NOT_APPLICABLE" none)
      else elim (truthy trade.protective_list_client_order_id) [
        | some list_id ↦ pure (existing_placement trade list_id)
        | none ↦ place_new after trade
      ]

  -- `_terminal_retries >= 1`
  unfoldable pub give_up : Continuation F
  give_up list_id order_list_id t fill =
      mark_fail b t.id order_list_id list_id
        "A replacement protective OCO also became terminal; position requires manual reconciliation"

  -- `_place_exchange_protection(trade, _terminal_retries=1)`
  unfoldable pub replace_protection : Trade F → Act F (Placement F)
  replace_protection = place_with give_up

  -- the identity was cleared; the position is still open
  unfoldable pub rearm_open : Trade F → Option (ProtectiveFill F) → Act F (Placement F)
  rearm_open t fill = do
    placed ← replace_protection t
    still ← reads open_trade_of
    fail_if (is_present still && not placed.protected)
        "Terminal protective list was reconciled but the remaining position did not receive active exchange protection"
    pure (with_fill fill placed)

  -- `_rearm_terminal_protection`
  unfoldable pub rearm_terminal_protection :
      Trade F → Option (ProtectiveFill F) → Act F (Placement F)
  rearm_terminal_protection trade fill = do
    fail_if (not (opt_is_terminal trade.protection_status))
        "Cannot replace non-terminal protective list"
    db (clear_trade_protection trade.id (some ProtectionStatus.list_reconciled))
    refreshed ← reads open_trade_of
    elim refreshed [ none ↦ pure (unprotected "POSITION_CLOSED" fill) | some t ↦ rearm_open t fill ]

  -- `_place_exchange_protection(trade)`
  unfoldable pub place_exchange_protection : Trade F → Act F (Placement F)
  place_exchange_protection =
      place_with λ list_id order_list_id t fill. rearm_terminal_protection t fill
