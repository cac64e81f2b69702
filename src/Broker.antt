-- ===== src/Broker.antt =====
-- Sending a market order (app/execution/broker.py: _submit_market_order, over market_order and
-- get_order of app/exchange/binance.py).
pub mod Submit
pub mod Paper
pub mod Enter
pub mod Exit
pub mod Recovery
pub mod Recorded
pub mod Entry
pub mod Leaving
pub mod Recovering
pub mod Complete
pub mod Preparing
pub mod Promise
pub mod Blocked
pub mod Cash
pub mod Balances
use binance_bot.Base.{
  ℕ, String, ◌<>◌, Bool, true, false, not, ◌&&◌, ◌||◌, Option, none, some, List, [], ◌∷◌, str_eq,
  str_mem, if◌then◌else◌,
}
use binance_bot.Base.Float.{Float, ◌⊕◌, ◌⊗◌, ◌<?◌, ◌≤?◌, is_finite, lit, nought}
use binance_bot.Config.{Mode, Settings, mode_eq}
use binance_bot.Storage.Orders.{OrderUpdate, record_order_intent, update_order_record}
use binance_bot.Exchange.{is_positive}
use binance_bot.Exchange.Answers.{
  Response, not_object, object, Fill, Order, Calls, Exchange, Py, Bot, has_text, or_default,
  or_nought, is_close, fill_total, executed_or_zero, weighted_fill_price,
}
use binance_bot.Act.{
  Act, Call, send_order, ask_order, ask_market, Failure, pure, fail, observes, ask, db, need,
  fail_if, catch, ◌>>=◌, ◌>>◌,
}

-- ("BUY", "SELL")
abbrev pub sides : List String
sides = "BUY" ∷ "SELL" ∷ []

-- {"FILLED", "CANCELED", "EXPIRED", "EXPIRED_IN_MATCH"}
abbrev pub terminal_statuses : List String
terminal_statuses = "FILLED" ∷ "CANCELED" ∷ "EXPIRED" ∷ "EXPIRED_IN_MATCH" ∷ []

abbrev pub to_object : {A : Type 0} → Response A → Option A
to_object not_object = none
to_object (object a) = some a

-- the order, its client id, and the fee in quote currency
pub record Submitted (F : Type 0) : Type 0 where
  pub order : Order F
  pub client_order_id : String
  pub fee_quote : F

module _ {F : Type 0} where
  -- `executed_quantity`: none where `Decimal` raises
  abbrev pub executed_number : F → Option (Option F) → Option F
  executed_number zero none = some zero
  executed_number zero (some q) = q

  unfoldable pub unknown_update : F → OrderUpdate F
  unknown_update zero = record {
    binance_order_id = none;
    executed_quantity = zero;
    average_fill_price = none;
    status = "UNKNOWN";
    commission_quote = zero;
    commission_details = "[]";
  }

module _ {F : Type 0} ⦃fl : Float F⦄ where
  -- the amounts of `commission_details`; the valuation entry is left out
  unfoldable pub commission_entries : List (Fill F) → List (String × F)
  commission_entries [] = []
  commission_entries (f ∷ fs) =
      let rest = commission_entries fs in
      let amount = or_nought f.commission in
      if nought <? amount then (or_default f.commission_asset "", amount) ∷ rest else rest

  -- "commission" in fill and "commissionAsset" in fill, for every fill
  abbrev pub all_charged : List (Fill F) → Bool
  all_charged [] = true
  all_charged (f ∷ fs) =
      let rest = all_charged fs in
      elim f.commission [
        | none ↦ false
        | some _ ↦ elim f.commission_asset [ none ↦ false | some _ ↦ rest ]
      ]

  abbrev pub is_nonempty : List (Fill F) → Bool
  is_nonempty [] = false
  is_nonempty (f ∷ fs) = true

  unfoldable pub has_complete_fills : List (Fill F) → F → Bool
  has_complete_fills fs executed =
      is_nonempty fs
      && (all_charged fs && is_close (lit 1 1000000000) nought (fill_total nought fs) executed)

module _ {F D : Type 0} ⦃fl : Float F⦄ ⦃dl : Float D⦄ (b : Bot F D) where
  open b use {settings, exchange, cv, py}

  unfoldable pub new_client_order_id : String → Calls F → String
  new_client_order_id side calls = "agt-" <> (py.lower side <> ("-" <> exchange.token calls))

  -- the guards of `BinanceClient.market_order`, then the request
  unfoldable pub market_order : String → F → String → Act F (Response (Order F))
  market_order side qty client = do
    fail_if
        (mode_eq settings.mode Mode.paper
          || (mode_eq settings.mode Mode.live && not settings.allow_live_trading))
        "Exchange orders are disabled for this configuration"
    fail_if (not (str_mem side sides)) "Order symbol or side does not match configuration"
    fail_if (not (is_positive qty)) "Order quantity must be positive and finite"
    tradable ← ask ask_market (λ k. exchange.is_tradable k settings.symbol)
    fail_if (not tradable) "Symbol is not available for Spot market orders"
    ask (send_order settings.symbol side qty client)
        (λ k. exchange.post_order k settings.symbol side qty client)

  unfoldable pub get_order : String → Act F (Response (Order F))
  get_order client =
      ask (ask_order settings.symbol client) (λ k. exchange.order k settings.symbol client)

  unfoldable pub mark_unknown : String → Act F (Unit {0})
  mark_unknown client = do
    now ← observes exchange.now
    db (update_order_record client (unknown_update nought) now)

  -- both the order and the query failed
  unfoldable pub block_resubmission : String → Failure → Act F (Response (Order F))
  block_resubmission client e = do
    mark_unknown client
    fail
        "Order outcome is uncertain. Automatic re-submission was blocked; manual/restart reconciliation is required."

  -- the order, or what the exchange knows of its id
  unfoldable pub place_order : String → F → String → Act F (Response (Order F))
  place_order side qty client =
      catch (market_order side qty client) λ e. catch (get_order client) (block_resubmission client)

  unfoldable pub order_mismatch : Order F → String → String → Bool
  order_mismatch o side client =
      not (has_text o.symbol settings.symbol)
      || (not (has_text o.side side) || not (has_text o.client_order_id client))

  unfoldable pub bad_execution : F → F → Bool
  bad_execution executed qty =
      not (is_finite executed)
      || (executed <? nought || qty ⊗ (lit 1 1 ⊕ lit 1 10000000000) <? executed)

  -- the fill price of an executed quantity
  unfoldable pub fill_price_of : Order F → F → Option F
  fill_price_of o executed =
      if nought <? executed then some (weighted_fill_price cv o nought) else none

  abbrev pub bad_price : Option F → Bool
  bad_price none = true
  bad_price (some p) = not (is_finite p) || p ≤? nought

  unfoldable pub needs_recovery : Order F → F → Option F → Bool
  needs_recovery o executed fill =
      nought <? executed
      && (not (str_mem (or_default o.status "") terminal_statuses)
          || (not (has_complete_fills o.fills executed) || bad_price fill))

  unfoldable pub order_update : Order F → F → Option F → F → OrderUpdate F
  order_update o executed fill fee = record {
    binance_order_id = o.order_id;
    executed_quantity = executed;
    average_fill_price = fill;
    status = or_default o.status "UNKNOWN";
    commission_quote = fee;
    commission_details = py.dumps (commission_entries o.fills);
  }

  -- the checks of the order, and its record
  unfoldable pub accept_order : String → F → String → Order F → Act F (Submitted F)
  accept_order side qty client o = do
    fail_if (order_mismatch o side client) "Order response identity mismatch; recovery is required"
    executed ← need (executed_number nought o.executed_qty) "Invalid executed quantity"
    fail_if (bad_execution executed qty) "Invalid executed quantity; recovery is required"
    fee ← ask ask_market (λ k. exchange.fee_quote k o (or_nought (fill_price_of o executed)))
    now ← observes exchange.now
    db (update_order_record client (order_update o executed (fill_price_of o executed) fee) now)
    fail_if (needs_recovery o executed (fill_price_of o executed))
        "Fill details incomplete or order still active; recovery is required before further orders"
    pure (record { order = o; client_order_id = client; fee_quote = fee })

  -- after the intent is recorded
  unfoldable pub submit_recorded : String → F → String → Act F (Submitted F)
  submit_recorded side qty client = do
    response ← place_order side qty client
    o ← need (to_object response) "Order response is no object"
    accept_order side qty client o

  -- `_submit_market_order`
  unfoldable pub submit_market_order : String → F → Act F (Submitted F)
  submit_market_order side qty = do
    client ← observes (new_client_order_id side)
    now ← observes exchange.now
    db (record_order_intent settings.mode settings.symbol client side qty now)
    submit_recorded side qty client
