-- ===== src/Protection/Inspect.antt =====
-- Verifying an order list without changing anything (app/execution/protection.py:
-- inspect_exchange_protection).
use binance_bot.Base.{
  ℕ, String, Bool, true, false, not, ◌&&◌, ◌||◌, Option, none, some, List, [], ◌∷◌, str_eq,
  if◌then◌else◌,
}
use binance_bot.Base.Float.{Float, ◌<?◌, ◌≤?◌, is_finite, nought}
use binance_bot.Storage.Rows.{Trade, ProtectionStatus}
use binance_bot.Exchange.Answers.{Child, Bot, or_default}
use binance_bot.Act.{Act, ask_order, ask_order_list, pure, ask, need, fail_if, ◌>>=◌, ◌>>◌}
use binance_bot.Protection.{validate_order_list, validate_child_order, status_of}
use binance_bot.Protection.Fill.{
  ChildState, all_in, active_statuses, final_child_statuses, is_executing, truthy, lift, symbol_of,
}
use binance_bot.Protection.Placement.{status_text}

-- the dict that is returned
pub record Inspection (F : Type 0) : Type 0 where
  pub verified : Bool
  pub protected : Bool
  pub status : String
  pub order_list_id : Option ℕ
  pub list_client_order_id : Option String
  pub children : List (ChildState F)

module _ {F : Type 0} ⦃fl : Float F⦄ where
  -- a leg that waits and has executed nothing
  abbrev pub is_untouched : ChildState F → Bool
  is_untouched k = str_eq k.status "NEW" && (k.executed ≤? nought && nought ≤? k.executed)

  abbrev pub all_untouched : List (ChildState F) → Bool
  all_untouched [] = true
  all_untouched (k ∷ ks) = is_untouched k && all_untouched ks

  unfoldable pub consistent : ProtectionStatus → List (ChildState F) → Bool
  consistent status ks =
      if is_executing status then all_in active_statuses ks else all_in final_child_statuses ks

  unfoldable pub inspection : String → ℕ → ProtectionStatus → List (ChildState F) → Inspection F
  unfolding consistent
  inspection list_id id status ks = record {
    verified = consistent status ks;
    protected = is_executing status && (consistent status ks && all_untouched ks);
    status = status_text status;
    order_list_id = some id;
    list_client_order_id = some list_id;
    children = ks;
  }

  abbrev pub missing_id : Inspection F
  missing_id = record {
    verified = false;
    protected = false;
    status = "MISSING_ID";
    order_list_id = none;
    list_client_order_id = none;
    children = [];
  }

module _ {F D : Type 0} ⦃fl : Float F⦄ ⦃dl : Float D⦄ (b : Bot F D) where
  open b use {settings, exchange, py}

  unfoldable pub inspect_child : String → Child → Act F (ChildState F)
  inspect_child symbol k = do
    let client = or_default k.client_order_id ""
    response ← ask (ask_order symbol client) (λ c. exchange.order c symbol client)
    o ← lift (validate_child_order py symbol k response)
    given ← need o.executed_qty "Protective child-order execution quantity is missing"
    q ← need given "Protective child-order execution quantity is invalid"
    fail_if (not (is_finite q) || q <? nought)
        "Protective child-order execution quantity is invalid"
    pure (record { order = o; executed = q; status = status_of py o })

  unfoldable pub inspect_children : String → List Child → Act F (List (ChildState F))
  inspect_children symbol [] = pure []
  inspect_children symbol (k ∷ ks) = do
    s ← inspect_child symbol k
    ss ← inspect_children symbol ks
    pure (s ∷ ss)

  unfoldable pub inspect_list : Trade F → String → Act F (Inspection F)
  inspect_list trade list_id = do
    response ← ask (ask_order_list list_id) (λ c. exchange.order_list c list_id)
    (id, status, children) ←
        lift (
          validate_order_list py (symbol_of b trade) list_id trade.protective_order_list_id
            response)
    states ← inspect_children (symbol_of b trade) children
    pure (inspection list_id id status states)

  -- `inspect_exchange_protection`
  unfoldable pub inspect_exchange_protection : Trade F → Act F (Inspection F)
  inspect_exchange_protection trade = elim (truthy trade.protective_list_client_order_id) [
    | none ↦ pure missing_id
    | some list_id ↦ inspect_list trade list_id
  ]
