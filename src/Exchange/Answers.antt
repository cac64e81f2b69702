-- ===== src/Exchange/Answers.antt =====
-- What the execution layer asks of the exchange, and the answers (app/exchange/binance.py). A JSON
-- answer is read as a record whose fields may be missing; where the code tests that it is an object,
-- it may be another value.
use binance_bot.Base.{
  ℕ, String, Bool, false, ◌&&◌, Option, none, some, List, [], ◌∷◌, str_eq, if◌then◌else◌,
}
use binance_bot.Base.Float.{Float, ◌⊕◌, ◌⊖◌, ◌⊗◌, ◌⊘◌, ◌<?◌, ◌≤?◌, nought, fmax, fabs}
use binance_bot.Config.{Settings}
use binance_bot.Risk.{Conversion}
use binance_bot.Exchange.{OcoOrder, Book}
use binance_bot.Act.{Event, Reply}

pub data Response (A : Type 0) : Type 0 where
  not_object : Response A
  object : A → Response A

-- an id before `int`: a boolean, a value that `int` refuses, or a whole number
pub data RawId : Type 0 where
  boolean unreadable negative : RawId
  whole : ℕ → RawId

-- an entry of `fills`; a missing commission is `none`
pub record Fill (F : Type 0) : Type 0 where
  pub price : F
  pub qty : F
  pub commission : Option F
  pub commission_asset : Option String

-- an order as the exchange reports it; `executed_qty` is `some none` when it is no number
pub record Order (F : Type 0) : Type 0 where
  pub symbol : Option String
  pub side : Option String
  pub client_order_id : Option String
  pub order_id : Option String
  pub status : Option String
  pub kind : Option String
  pub orig_kind : Option String
  pub price : F
  pub executed_qty : Option (Option F)
  pub cummulative_quote_qty : F
  pub fills : List (Fill F)

-- a child in an order list; `order_id_text` is `str(child["orderId"])`
pub record Child : Type 0 where
  pub symbol : Option String
  pub client_order_id : Option String
  pub order_id : RawId
  pub order_id_text : String
  pub side : Option String
  pub kind : Option String
  pub orig_kind : Option String

pub record OrderList : Type 0 where
  pub symbol : Option String
  pub list_client_order_id : Option String
  pub order_list_id : RawId
  pub list_order_status : Option String
  -- `none` when `orders` is not a list
  pub orders : Option (List (Response Child))

-- an entry of the account's fills; a missing number is 0, one that cannot be read is `none`
pub record AccountFill (F : Type 0) : Type 0 where
  pub order_id : String
  pub symbol : Option String
  pub price : Option F
  pub qty : Option F
  pub commission : Option F
  pub commission_asset : Option String

pub record Balance (F : Type 0) : Type 0 where
  pub asset : String
  pub free : F
  pub locked : F

abbrev pub Calls : Type 0 → Type 0
Calls F = List (Event F)

-- The exchange, the clocks and the fresh ids, as functions of the requests so far. Rounding to the
-- symbol's steps and the valuation of commissions, which ask for filters and prices, are answers too.
pub record Exchange (F D : Type 0) : Type 0 where
  pub post_order : Calls F → String → String → F → String → Reply (Response (Order F))
  pub is_tradable : Calls F → String → Reply Bool
  pub order : Calls F → String → String → Reply (Response (Order F))
  pub post_oco : Calls F → OcoOrder F → Reply (Response OrderList)
  pub order_list : Calls F → String → Reply (Response OrderList)
  pub cancel : Calls F → String → String → Reply (Unit {0})
  pub fills : Calls F → String → String → Reply (Option (List (Response (AccountFill F))))
  pub balances : Calls F → Reply (List (Balance F))
  pub book : Calls F → String → Reply (Option (Book D))
  pub normalize_quantity : Calls F → String → F → F → Reply F
  pub normalize_price : Calls F → String → F → Reply F
  pub fee_quote : Calls F → Order F → F → Reply F
  pub now : Calls F → ℕ
  pub monotonic : Calls F → F
  pub token : Calls F → String

-- Python's methods of texts, decimal digits, `json.dumps`, and the decimal texts of the state
pub record Py (F D : Type 0) : Type 0 where
  pub lower : String → String
  pub upper : String → String
  pub strip : String → String
  pub show : ℕ → String
  pub dumps : List (String × F) → String
  pub loads : String → String
  pub show_float : F → String
  pub show_decimal : D → String
  pub read_decimal : String → D
  pub starts_with : String → String → Bool
  -- the text after a prefix, and `part in text`
  pub drop : String → String → String
  pub contains : String → String → Bool

-- `self` of the broker: settings, exchange, and the language's library
pub record Bot (F D : Type 0) : Type 0 where
  pub settings : Settings F
  pub exchange : Exchange F D
  pub cv : Conversion F D
  pub py : Py F D

abbrev pub has_text : Option String → String → Bool
has_text none t = false
has_text (some s) t = str_eq s t

-- `value or d` on a text
abbrev pub or_default : Option String → String → String
or_default none d = d
or_default (some v) d = if str_eq v "" then d else v

module _ {F : Type 0} ⦃fl : Float F⦄ where
  abbrev pub or_nought : Option F → F
  or_nought none = nought
  or_nought (some x) = x

  -- `math.isclose`
  unfoldable pub is_close : F → F → F → F → Bool
  is_close rel tol a b = fabs (a ⊖ b) ≤? fmax (rel ⊗ fmax (fabs a) (fabs b)) tol

  abbrev pub fill_total : F → List (Fill F) → F
  fill_total acc [] = acc
  fill_total acc (f ∷ fs) = fill_total (acc ⊕ f.qty) fs

module _ {F D : Type 0} ⦃fl : Float F⦄ ⦃dl : Float D⦄ (cv : Conversion F D) where
  open cv use {dec, flo}

  -- the sums of `qty` and of `price * qty`
  abbrev pub decimal_qty : D → List (Fill F) → D
  decimal_qty acc [] = acc
  decimal_qty acc (f ∷ fs) = decimal_qty (acc ⊕ dec f.qty) fs

  abbrev pub decimal_value : D → List (Fill F) → D
  decimal_value acc [] = acc
  decimal_value acc (f ∷ fs) = decimal_value (acc ⊕ dec f.price ⊗ dec f.qty) fs

  -- `executed_quantity` where the number is readable
  abbrev pub executed_or_zero : Order F → F
  executed_or_zero o = elim o.executed_qty [
    | none ↦ nought
    | some q ↦ elim q [ none ↦ nought | some x ↦ flo (dec x) ]
  ]

  unfoldable pub weighted_fill_price : Order F → F → F
  weighted_fill_price o fallback =
      let qty = decimal_qty nought o.fills in
      let executed = dec (executed_or_zero o) in
      let quote = dec o.cummulative_quote_qty in
      if nought <? qty
      then flo (decimal_value nought o.fills ⊘ qty)
      else if nought <? executed && nought <? quote
      then flo (quote ⊘ executed)
      else fallback

  -- the commission in the base asset
  abbrev pub base_total : String → D → List (Fill F) → D
  base_total asset acc [] = acc
  base_total asset acc (f ∷ fs) =
      let rest = base_total asset (acc ⊕ dec (or_nought f.commission)) fs in
      let skipped = base_total asset acc fs in
      if str_eq (or_default f.commission_asset "") asset then rest else skipped

  unfoldable pub base_commission : Order F → String → F
  base_commission o asset = flo (base_total asset nought o.fills)
