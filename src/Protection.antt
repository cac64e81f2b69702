-- ===== src/Protection.antt =====
-- The checks of what the exchange says of a protective order list (app/execution/protection.py:
-- the three validators). The texts of the exceptions are shortened.
pub mod Identity
pub mod Passed
pub mod Fill
pub mod Placement
pub mod Cancel
pub mod Quiet
pub mod Listing
pub mod Startup
pub mod Shown
pub mod Tries
pub mod Children
pub mod Inspect
pub mod Inspected
use binance_bot.Base.{
  ℕ, String, ◌<>◌, Bool, true, false, not, ◌&&◌, ◌||◌, Option, none, some, List, [], ◌∷◌, ◌==◌,
  str_eq, str_mem, any, if◌then◌else◌,
}
use binance_bot.Config.{Settings}
use binance_bot.Storage.Rows.{Trade, ProtectionStatus}
use binance_bot.Exchange.{Checked, passed, raised}
use binance_bot.Exchange.Answers.{
  Response, not_object, object, RawId, boolean, unreadable, negative, whole, Order, Child,
  OrderList, Py, has_text, or_default,
}

-- the first text that is not empty: `a or b or ""`
abbrev pub first_text : Option String → Option String → String
first_text a b = or_default a (or_default b "")

-- {"EXECUTING", "ALL_DONE", "REJECT", "EXPIRED"}
unfoldable pub list_status : String → Option ProtectionStatus
list_status s =
    if str_eq s "EXECUTING"
    then some ProtectionStatus.executing
    else if str_eq s "ALL_DONE"
    then some ProtectionStatus.all_done
    else if str_eq s "REJECT"
    then some ProtectionStatus.reject
    else if str_eq s "EXPIRED"
    then some ProtectionStatus.expired
    else none

-- `int(raw)`, where it is positive
unfoldable pub positive_id : RawId → Option ℕ
positive_id boolean = none
positive_id unreadable = none
positive_id negative = none
positive_id (whole n) = if n == 0 then none else some n

abbrev pub nat_mem : ℕ → List ℕ → Bool
nat_mem n ns = any (λ m. m == n) ns

-- what the children of a list are checked against
pub record Expected : Type 0 where
  pub symbol : String
  pub is_client : String → Bool
  pub kind_of : String → Option String

-- the client ids and order ids of the children
pub record Seen : Type 0 where
  pub clients : List String
  pub ids : List ℕ

-- `expected and given and given.upper() != expected`
abbrev pub kind_conflicts : (String → String) → Option String → String → Bool
kind_conflicts upper none kind = false
kind_conflicts upper (some e) kind = not (str_eq kind "") && not (str_eq (upper kind) e)

abbrev pub subset : List String → List String → Bool
subset xs ys = not (any (λ x. not (str_mem x ys)) xs)

-- the child order statuses
abbrev pub child_statuses : List String
child_statuses =
    "NEW" ∷ "PENDING_NEW" ∷ "PARTIALLY_FILLED" ∷ "FILLED" ∷ "PENDING_CANCEL" ∷ "CANCELED"
    ∷ "REJECTED" ∷ "EXPIRED" ∷ "EXPIRED_IN_MATCH" ∷ []

abbrev pub child_kinds : List String
child_kinds =
    "LIMIT_MAKER" ∷ "STOP_LOSS" ∷ "STOP_LOSS_LIMIT" ∷ "TAKE_PROFIT" ∷ "TAKE_PROFIT_LIMIT" ∷ []

abbrev pub and_then : {A B : Type 0} → Checked A → (A → Checked B) → Checked B
and_then (passed a) f = f a
and_then (raised e) f = raised e

abbrev pub require : {A : Type 0} → Option A → String → Checked A
require none e = raised e
require (some a) e = passed a

module _ (upper strip : String → String) where
  -- one turn of the loop over the children
  unfoldable pub check_child : Expected → Seen → Child → Checked Seen
  check_child x seen k =
      let client = or_default k.client_order_id "" in
      if not (has_text k.symbol x.symbol)
      then raised "Protective child order symbol mismatch"
      else if not (x.is_client client) || str_mem client seen.clients
      then raised "Protective child order client ids do not match"
      else elim (positive_id k.order_id) [
        | none ↦ raised "Protective child order id is invalid"
        | some id ↦
            if nat_mem id seen.ids
            then raised "Protective child order ids are duplicated"
            else if kind_conflicts upper (some "SELL") (or_default k.side "")
            then raised "Protective child order is not a SELL"
            else if kind_conflicts upper (x.kind_of client) (first_text k.kind k.orig_kind)
            then raised "Protective child order type does not match its leg"
            else passed (record { clients = client ∷ seen.clients; ids = id ∷ seen.ids })
      ]

  unfoldable pub check_children : Expected → Seen → List (Response Child) → Checked Seen
  check_children x seen [] = passed seen
  check_children x seen (not_object ∷ ks) = raised "Protective child order is missing"
  check_children x seen (object k ∷ ks) =
      and_then (check_child x seen k) λ seen'. check_children x seen' ks

  -- exactly two children
  unfoldable pub two_children : Option (List (Response Child)) → Checked (List (Response Child))
  two_children (some (a ∷ b ∷ [])) = passed (a ∷ b ∷ [])
  two_children _ = raised "Protective order list does not contain exactly two child orders"

  abbrev pub no_children : Seen
  no_children = record { clients = []; ids = [] }

  -- the part that both validators of lists share: id, status, and the children's ids
  unfoldable pub check_list :
      String → String → Expected → OrderList → Checked (ℕ × ProtectionStatus × Seen)
  check_list symbol list_id x r =
      if not (has_text r.symbol symbol)
      then raised "Protective order-list symbol mismatch"
      else if not (has_text r.list_client_order_id list_id)
      then raised "Protective order-list client id mismatch"
      else and_then (require (positive_id r.order_list_id) "Protective order-list id is invalid")
          λ id.
            and_then
              (require (list_status (upper (strip (or_default r.list_order_status ""))))
                "Protective order-list status is not verifiable")
              λ status.
                and_then (two_children r.orders)
                  λ ks. and_then (check_children x no_children ks) λ seen. passed (id, status, seen)

  abbrev pub oco_expected : String → String → String → Expected
  oco_expected symbol take_id stop_id = record {
    symbol = symbol;
    is_client = λ client. str_mem client (take_id ∷ stop_id ∷ []);
    kind_of = λ client. some (if str_eq client stop_id then "STOP_LOSS" else "LIMIT_MAKER");
  }

  -- `_validate_protective_oco_response`
  unfoldable pub validate_oco_response :
      String → Response OrderList → String → String → String → Checked (ℕ × ProtectionStatus)
  validate_oco_response symbol not_object list_id take_id stop_id =
      raised "Protective OCO response is not an object"
  validate_oco_response symbol (object r) list_id take_id stop_id =
      and_then (check_list symbol list_id (oco_expected symbol take_id stop_id) r)
        λ (id, status, seen).
          if subset (take_id ∷ stop_id ∷ []) seen.clients
          then passed (id, status)
          else raised "Protective OCO response is missing a take-profit or stop leg"

module _ {F D : Type 0} (py : Py F D) where
  open py use {upper, strip, show, starts_with, drop}

  -- the token of an id of ours: what follows the prefix, if anything does
  unfoldable pub token_after : String → String → Option String
  token_after prefix id =
      if starts_with id prefix && not (str_eq (drop prefix id) "")
      then some (drop prefix id)
      else none

  abbrev pub leg_ids : String → List String
  leg_ids token = ("agt-tp-" <> token) ∷ ("agt-sl-" <> token) ∷ []

  abbrev pub list_expected : String → Option String → Expected
  list_expected symbol none = record {
    symbol = symbol;
    is_client = λ client. not (str_eq client "");
    kind_of = λ client. none;
  }
  list_expected symbol (some token) = record {
    symbol = symbol;
    is_client = λ client. not (str_eq client "");
    kind_of = λ client.
        if str_eq client ("agt-sl-" <> token)
        then some "STOP_LOSS"
        else if str_eq client ("agt-tp-" <> token)
        then some "LIMIT_MAKER"
        else none;
  }

  -- `expected_ids is not None and seen_client_ids != expected_ids`
  abbrev pub legs_missing : Option String → List String → Bool
  legs_missing none clients = false
  legs_missing (some token) clients =
      not (subset (leg_ids token) clients && subset clients (leg_ids token))

  abbrev pub objects : List (Response Child) → List Child
  objects [] = []
  objects (not_object ∷ ks) = objects ks
  objects (object k ∷ ks) = k ∷ objects ks

  abbrev pub children_of : OrderList → List Child
  children_of r = elim r.orders [ none ↦ [] | some ks ↦ objects ks ]

  abbrev pub stored_conflicts : Option String → ℕ → Bool
  stored_conflicts none id = false
  stored_conflicts (some stored) id = not (str_eq stored (show id))

  -- `_validate_protective_order_list`; the symbol and the list's client id are the trade's
  unfoldable pub validate_order_list :
      String
      → String
      → Option String
      → Response OrderList
      → Checked (ℕ × ProtectionStatus × List Child)
  validate_order_list symbol list_id stored not_object =
      raised "Protective order-list query is not an object"
  validate_order_list symbol list_id stored (object r) =
      let token = token_after "agt-prot-" list_id in
      and_then (check_list upper strip symbol list_id (list_expected symbol token) r)
        λ (id, status, seen).
          if stored_conflicts stored id
          then raised "Protective order-list id does not match persisted identity"
          else if legs_missing token seen.clients
          then raised "Protective order list is missing an expected child leg"
          else passed (id, status, children_of r)

  -- the type that a child id of ours stands for
  unfoldable pub expected_kind : String → Option String
  expected_kind client = elim (token_after "agt-tp-" client) [
    | some t ↦ some "LIMIT_MAKER"
    | none ↦
        if starts_with client "agt-tp-"
        then none
        else elim (token_after "agt-sl-" client) [ some t ↦ some "STOP_LOSS" | none ↦ none ]
  ]

  abbrev pub kind_unverified : Option String → String → Bool
  kind_unverified none kind = not (str_mem kind child_kinds)
  kind_unverified (some e) kind = not (str_eq kind e)

  abbrev pub status_of : Order F → String
  status_of o = upper (strip (or_default o.status ""))

  -- `_validate_protective_child_order`
  unfoldable pub validate_child_order : String → Child → Response (Order F) → Checked (Order F)
  validate_child_order symbol k not_object = raised "Protective child-order query is not an object"
  validate_child_order symbol k (object o) =
      let client = or_default k.client_order_id "" in
      if not (has_text o.symbol symbol)
      then raised "Protective child-order symbol mismatch"
      else if not (str_eq (or_default o.client_order_id "") client)
      then raised "Protective child-order client id mismatch"
      else if not (str_eq (elim o.order_id [ none ↦ "None" | some id ↦ id ]) k.order_id_text)
      then raised "Protective child-order id mismatch"
      else if not (str_eq (upper (or_default o.side "")) "SELL")
      then raised "Protective child order is not a SELL"
      else if not (str_mem (status_of o) child_statuses)
      then raised "Protective child-order status is not verifiable"
      else if kind_unverified (expected_kind client) (upper (first_text o.kind o.orig_kind))
      then raised "Protective child-order type does not match its leg"
      else passed o
