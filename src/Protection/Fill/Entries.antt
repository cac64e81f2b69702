-- ===== src/Protection/Fill/Entries.antt =====
-- The values that reconciling an order list works on, and the account's fills
-- (app/execution/protection.py: _protective_fill).
use binance_bot.Base.{
  String, Bool, true, false, not, ◌&&◌, ◌||◌, Option, none, some, List, [], ◌∷◌, str_eq, str_mem,
  any, if◌then◌else◌,
}
use binance_bot.Base.Float.{Float, ◌⊕◌, ◌⊗◌, ◌<?◌, ◌≤?◌, is_finite, lit, nought}
use binance_bot.Storage.Rows.{ProtectionStatus}
use binance_bot.Storage.Execution.{Outcome as Execution}
use binance_bot.Exchange.{Checked, passed, raised, is_positive}
use binance_bot.Exchange.Answers.{
  Response, not_object, object, Order, Fill, AccountFill, or_default, is_close, fill_total,
}
use binance_bot.Act.{Act, pure, fail}
use binance_bot.Protection.{and_then}

-- what `_protective_fill` returns for an execution
pub record ProtectiveFill (F : Type 0) : Type 0 where
  pub closed : Option (Execution F)
  pub fill_price : F
  pub exit_fee_quote : F
  pub reason : String
  pub partial_pending : Bool
  pub is_applied : Bool

-- a child order with its executed quantity and its status
pub record ChildState (F : Type 0) : Type 0 where
  pub order : Order F
  pub executed : F
  pub status : String

-- an execution that was looked up and handed to the tables
pub record Reconciled (F : Type 0) : Type 0 where
  pub fill_price : F
  pub fee : F
  pub reason : String
  pub outcome : Option (Execution F)

abbrev pub active_statuses : List String
active_statuses = "NEW" ∷ "PARTIALLY_FILLED" ∷ []

abbrev pub final_child_statuses : List String
final_child_statuses = "FILLED" ∷ "CANCELED" ∷ "REJECTED" ∷ "EXPIRED" ∷ "EXPIRED_IN_MATCH" ∷ []

abbrev pub is_executing : ProtectionStatus → Bool
is_executing ProtectionStatus.executing = true
is_executing _ = false

-- {"ALL_DONE", "REJECT", "EXPIRED"}
abbrev pub is_terminal_list : ProtectionStatus → Bool
is_terminal_list ProtectionStatus.all_done = true
is_terminal_list ProtectionStatus.reject = true
is_terminal_list ProtectionStatus.expired = true
is_terminal_list _ = false

-- a text that is not empty
abbrev pub truthy : Option String → Option String
truthy none = none
truthy (some t) = if str_eq t "" then none else some t

abbrev pub is_present : {A : Type 0} → Option A → Bool
is_present none = false
is_present (some a) = true

-- the value of a check, or its exception
unfoldable pub lift : {F A : Type 0} → Checked A → Act F A
lift (passed a) = pure a
lift (raised e) = fail e

module _ {F : Type 0} where
  abbrev pub all_in : List String → List (ChildState F) → Bool
  all_in statuses ks = not (any (λ k. not (str_mem k.status statuses)) ks)

module _ {F : Type 0} ⦃fl : Float F⦄ where
  -- the tests on a child's quantity
  unfoldable pub bad_quantity : F → String → Bool
  bad_quantity q status =
      not (is_finite q)
      || (q <? nought
          || ((str_eq status "FILLED" && q ≤? nought)
              || ((str_eq status "PARTIALLY_FILLED" && q ≤? nought)
                  || (str_eq status "NEW" && nought <? q))))

  abbrev pub bad_baseline : F → Bool
  bad_baseline x = not (is_finite x) || x <? nought

  unfoldable pub read_fill : String → F → F → F → Option String → Checked (Fill F)
  read_fill symbol price qty commission asset =
      if not (is_positive price)
        || (not (is_positive qty) || (not (is_finite commission) || commission <? nought))
      then raised "Protective account fill contains invalid values"
      else passed (record {
        price = price;
        qty = qty;
        commission = some commission;
        commission_asset = some (or_default asset "");
      })

  -- one entry of the account's fills, of the order `id`
  unfoldable pub account_fill : String → String → AccountFill F → Checked (Option (Fill F))
  unfolding read_fill
  account_fill symbol id a =
      if not (str_eq a.order_id id)
      then passed none
      else if not (str_eq (or_default a.symbol symbol) symbol)
      then raised "Protective account fill symbol mismatch"
      else elim a.price [
        | none ↦ raised "Protective account fill contains invalid numbers"
        | some price ↦ elim a.qty [
          | none ↦ raised "Protective account fill contains invalid numbers"
          | some qty ↦ elim a.commission [
            | none ↦ raised "Protective account fill contains invalid numbers"
            | some commission ↦
                and_then (read_fill symbol price qty commission a.commission_asset)
                  λ f. passed (some f)
          ]
        ]
      ]

  abbrev pub cons_some : Option (Fill F) → List (Fill F) → List (Fill F)
  cons_some none fs = fs
  cons_some (some f) fs = f ∷ fs

  unfoldable pub account_fills :
      String → String → List (Response (AccountFill F)) → Checked (List (Fill F))
  unfolding account_fill
  account_fills symbol id [] = passed []
  account_fills symbol id (not_object ∷ rest) = raised "Binance trade-fill entry is not an object"
  account_fills symbol id (object a ∷ rest) =
      and_then (account_fill symbol id a)
        λ f. and_then (account_fills symbol id rest) λ fs. passed (cons_some f fs)

  abbrev pub quote_total : F → List (Fill F) → F
  quote_total acc [] = acc
  quote_total acc (f ∷ fs) = quote_total (acc ⊕ f.price ⊗ f.qty) fs

  -- the fills do not add up to the executed quantity
  unfoldable pub incomplete : List (Fill F) → F → Bool
  incomplete [] executed = true
  incomplete (f ∷ fs) executed =
      let total = fill_total nought (f ∷ fs) in
      not (is_finite total)
      || not (is_close (lit 1 1000000000) (lit 1 1000000000000) total executed)
