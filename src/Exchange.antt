-- ===== src/Exchange.antt =====
-- The checks before an order (app/exchange/binance.py, class BinanceClient: check_entry_liquidity
-- and place_protective_oco). The exchange's answers are arguments; prices and quantities of the
-- book are `Decimal`s, the type D.
pub mod Answers
pub mod Guards
use binance_bot.Base.{
  String, Bool, true, false, not, ◌&&◌, ◌||◌, Option, none, some, List, [], ◌∷◌, ◌++◌, any, str_eq,
  if◌then◌else◌,
}
use binance_bot.Base.Float.{
  Float, ◌⊕◌, ◌⊖◌, ◌⊗◌, ◌⊘◌, ◌<?◌, ◌≤?◌, is_finite, lit, nought, fmin, fabs,
}
use binance_bot.Config.{Mode, Settings, mode_eq, is_exchange}
use binance_bot.Risk.{Conversion}

-- an answer, or the exception that is raised
pub data Checked (A : Type 0) : Type 0 where
  passed : A → Checked A
  raised : String → Checked A

-- a price level: price and quantity
abbrev pub Level : Type 0 → Type 0
Level D = D × D

pub record Book (D : Type 0) : Type 0 where
  pub bids : List (Level D)
  pub asks : List (Level D)

pub record Liquidity (F : Type 0) : Type 0 where
  pub spread_bps : F
  pub estimated_fill_price : F
  pub estimated_slippage_bps : F

-- the body of the POST to /api/v3/orderList/oco, with numbers in place of their texts
pub record OcoOrder (F : Type 0) : Type 0 where
  pub symbol : String
  pub side : String
  pub quantity : F
  pub list_client_order_id : String
  pub above_type : String
  pub above_client_order_id : String
  pub above_price : F
  pub below_type : String
  pub below_client_order_id : String
  pub below_stop_price : F

module _ {F : Type 0} ⦃fl : Float F⦄ where
  -- `math.isfinite(x) and x > 0`
  abbrev pub is_positive : F → Bool
  is_positive x = is_finite x && nought <? x

  unfoldable pub place_protective_oco :
      Settings F → String → F → F → F → String → String → String → Checked (OcoOrder F)
  place_protective_oco c symbol quantity take_profit stop list_id take_id stop_id =
      if not (is_exchange c.mode)
      then raised "Exchange-resident protection requires Binance testnet or live mode"
      else if mode_eq c.mode Mode.live && not c.allow_live_trading
      then raised "Live exchange protection is disabled by configuration"
      else if not (str_eq symbol c.symbol)
      then raised "Protective order symbol does not match configuration"
      else if not (is_positive quantity && (is_positive take_profit && is_positive stop))
      then raised "Protective order values must be positive and finite"
      else if take_profit ≤? stop
      then raised "Protective stop must be below take-profit price"
      else passed (record {
        symbol = symbol;
        side = "SELL";
        quantity = quantity;
        list_client_order_id = list_id;
        above_type = "LIMIT_MAKER";
        above_client_order_id = take_id;
        above_price = take_profit;
        below_type = "STOP_LOSS";
        below_client_order_id = stop_id;
        below_stop_price = stop;
      })

module _ {D : Type 0} ⦃dl : Float D⦄ where
  unfoldable pub bad_level : Level D → Bool
  bad_level (p, q) = not (is_finite p) || (p ≤? nought || (not (is_finite q) || q ≤? nought))

  -- some level is followed by one that is out of order
  unfoldable pub out_of_order : (D → D → Bool) → List (Level D) → Bool
  out_of_order before [] = false
  out_of_order before (x ∷ []) = false
  out_of_order before (x ∷ y ∷ rest) =
      let later = out_of_order before (y ∷ rest) in before y.0 x.0 || later

  abbrev pub is_zero : D → Bool
  is_zero r = r ≤? nought && nought ≤? r

  -- (remaining, cost) after the walk through the asks
  unfoldable pub walk : List (Level D) → D → D → D × D
  walk [] remaining cost = (remaining, cost)
  walk ((price, available) ∷ asks) remaining cost =
      let used = fmin remaining available in
      let rest = walk asks (remaining ⊖ used) (cost ⊕ used ⊗ price) in
      if is_zero (remaining ⊖ used) then (remaining ⊖ used, cost ⊕ used ⊗ price) else rest

module _ {F D : Type 0} ⦃fl : Float F⦄ ⦃dl : Float D⦄ (cv : Conversion F D) (c : Settings F) where
  open cv use {dec, flo, fixed3}

  -- the walk and the price test
  unfoldable pub fill_estimate : List (Level D) → F → F → F → Checked (Liquidity F)
  unfolding walk
  fill_estimate asks quantity reference spread =
      let (remaining, cost) = walk asks (dec quantity) nought in
      if nought <? remaining
      then raised "Insufficient visible order-book depth for entry size"
      else (let estimate = flo (cost ⊘ dec quantity) in
          let slippage = (estimate ⊘ reference ⊖ lit 1 1) ⊗ lit 10000 1 in
          if c.max_entry_slippage_bps <? fabs slippage
          then raised "Entry price moved; resize using fresh prices"
          else passed (record {
            spread_bps = spread;
            estimated_fill_price = estimate;
            estimated_slippage_bps = slippage;
          }))

  -- a book of two sides
  unfoldable pub check_book : List (Level D) → List (Level D) → F → F → Checked (Liquidity F)
  unfolding bad_level out_of_order fill_estimate
  check_book [] asks quantity reference = raised "Invalid or empty order book"
  check_book (b ∷ bids) [] quantity reference = raised "Invalid or empty order book"
  check_book (b ∷ bids) (a ∷ asks) quantity reference =
      if any bad_level (b ∷ bids) || any bad_level (a ∷ asks)
      then raised "Invalid or empty order book"
      else if out_of_order (λ y x. y <? x) (a ∷ asks)
      then raised "Unsorted order book"
      else if out_of_order (λ y x. x <? y) (b ∷ bids)
      then raised "Unsorted order book"
      else if a.0 ≤? b.0
      then raised "Crossed order book"
      else (let spread = flo ((a.0 ⊖ b.0) ⊘ ((a.0 ⊕ b.0) ⊘ lit 2 1) ⊗ lit 10000 1) in
          if c.max_entry_spread_bps <? spread
          then raised "Entry spread exceeds configured limit"
          else fill_estimate (a ∷ asks) quantity reference spread)

  -- `started` and `answered` are the clock around the request; no book: its parsing raised
  unfoldable pub check_entry_liquidity : F → F → F → F → Option (Book D) → Checked (Liquidity F)
  unfolding check_book
  check_entry_liquidity quantity reference started answered book =
      if not (is_positive quantity && is_positive reference)
      then raised "Invalid entry size or reference price"
      else if c.market_data_stale_seconds <? answered ⊖ started
      then raised "Order book request was too slow; resize using fresh prices"
      else elim book [
        | none ↦ raised "Invalid order book"
        | some k ↦ check_book k.bids k.asks quantity reference
      ]
