-- ===== src/Exchange/Guards.antt =====
-- What a protective order and an entry that pass the checks satisfy (app/exchange/binance.py).
use binance_bot.Base.{
  String, ◌≡◌, refl, true, false, not, ◌&&◌, Option, none, some, List, [], ◌∷◌, arith, any, str_eq,
}
use binance_bot.Base.Float.{Float, ◌⊕◌, ◌⊖◌, ◌⊘◌, ◌⊗◌, ◌<?◌, ◌≤?◌, lit, nought, fabs}
use binance_bot.Config.{Mode, Settings, mode_eq, is_exchange}
use binance_bot.Risk.{Conversion}
use binance_bot.Exchange.{
  passed, Level, Book, Liquidity, OcoOrder, is_positive, place_protective_oco, bad_level,
  out_of_order, walk, fill_estimate, check_book, check_entry_liquidity,
}

module _ {F : Type 0} ⦃fl : Float F⦄ where
  -- A protective order list is only sent to an exchange, in live mode only when live trading is
  -- allowed, for the configured symbol, as a sale of the given quantity, with quantity, target and stop
  -- finite and positive and the stop not at or above the target; the list has the given list id, the
  -- leg above is a LIMIT_MAKER at the target with the id for taking profit, and the leg below a
  -- STOP_LOSS at the stop with the id for the stop.
  pub place_protective_oco-passed :
      (c : Settings F) (symbol : String) (quantity take_profit stop : F)
      (list_id take_id stop_id : String) (o : OcoOrder F)
      → place_protective_oco c symbol quantity take_profit stop list_id take_id stop_id ≡ passed o
      → (is_exchange c.mode ≡ true)
        × ((mode_eq c.mode Mode.live && not c.allow_live_trading) ≡ false)
        × (str_eq symbol c.symbol ≡ true)
        × (is_positive quantity ≡ true)
        × (is_positive take_profit ≡ true)
        × (is_positive stop ≡ true)
        × ((take_profit ≤? stop) ≡ false)
        × (o ≡ record {
          symbol = symbol;
          side = "SELL";
          quantity = quantity;
          list_client_order_id = list_id;
          above_type = "LIMIT_MAKER";
          above_client_order_id = take_id;
          above_price = take_profit;
          below_type = "STOP_LOSS";
          below_client_order_id = stop_id;
          below_stop_price = stop;
        })
  unfolding place_protective_oco
  place_protective_oco-passed c symbol quantity take_profit stop list_id take_id stop_id o h =
      ground arith

module _ {F D : Type 0} ⦃fl : Float F⦄ ⦃dl : Float D⦄ (cv : Conversion F D) (c : Settings F) where
  open cv use {dec}

  -- The result is the book's: its spread in basis points is that of the best prices around their
  -- middle, its price is the cost of the quantity in the asks for one unit, its slippage in basis points
  -- is that price against the reference, and both are within the limits.
  pub record IsWithinLimits (bids asks : List (Level D)) (quantity reference : F) (l : Liquidity F)
      : Type 0 where
    pub best_bid : Level D
    pub best_ask : Level D
    pub other_bids : List (Level D)
    pub other_asks : List (Level D)
    pub two_sides : (bids ≡ best_bid ∷ other_bids) × (asks ≡ best_ask ∷ other_asks)
    pub valid : (any bad_level bids ≡ false) × (any bad_level asks ≡ false)
    pub sorted :
        (out_of_order (λ y x. x <? y) bids ≡ false) × (out_of_order (λ y x. y <? x) asks ≡ false)
    pub uncrossed : (best_ask.0 ≤? best_bid.0) ≡ false
    pub deep : (nought <? (walk asks (dec quantity) nought).0) ≡ false
    pub spread :
        l.spread_bps
        ≡ cv.flo ((best_ask.0 ⊖ best_bid.0) ⊘ ((best_ask.0 ⊕ best_bid.0) ⊘ lit 2 1) ⊗ lit 10000 1)
    pub price : l.estimated_fill_price ≡ cv.flo ((walk asks (dec quantity) nought).1 ⊘ dec quantity)
    pub slippage :
        l.estimated_slippage_bps ≡ (l.estimated_fill_price ⊘ reference ⊖ lit 1 1) ⊗ lit 10000 1
    pub spread_limit : (c.max_entry_spread_bps <? l.spread_bps) ≡ false
    pub slippage_limit : (c.max_entry_slippage_bps <? fabs l.estimated_slippage_bps) ≡ false

  -- what the walk through the asks gives
  abbrev Fills : List (Level D) → F → F → F → Liquidity F → Type 0
  Fills asks quantity reference spread l =
      (l.spread_bps ≡ spread)
      × (l.estimated_fill_price ≡ cv.flo ((walk asks (dec quantity) nought).1 ⊘ dec quantity))
      × (l.estimated_slippage_bps ≡ (l.estimated_fill_price ⊘ reference ⊖ lit 1 1) ⊗ lit 10000 1)
      × ((c.max_entry_slippage_bps <? fabs l.estimated_slippage_bps) ≡ false)
      × ((nought <? (walk asks (dec quantity) nought).0) ≡ false)

  fill_estimate-passed :
      (asks : List (Level D)) (quantity reference spread : F) (l : Liquidity F)
      → fill_estimate cv c asks quantity reference spread ≡ passed l
      → Fills asks quantity reference spread l
  unfolding fill_estimate
  fill_estimate-passed asks quantity reference spread l h = ground arith

  check_book-passed :
      (bids asks : List (Level D)) (quantity reference : F) (l : Liquidity F)
      → check_book cv c bids asks quantity reference ≡ passed l
      → IsWithinLimits bids asks quantity reference l
  unfolding check_book
  check_book-passed [] asks quantity reference l h = absurd (ground arith)
  check_book-passed (b ∷ bids) [] quantity reference l h = absurd (ground arith)
  check_book-passed (b ∷ bids) (a ∷ asks) quantity reference l h =
      let spread = cv.flo ((a.0 ⊖ b.0) ⊘ ((a.0 ⊕ b.0) ⊘ lit 2 1) ⊗ lit 10000 1) in
      let (shown, price, slippage, limit, deep) =
        fill_estimate-passed (a ∷ asks) quantity reference spread l (ground arith) in
      record {
        best_bid = b;
        best_ask = a;
        other_bids = bids;
        other_asks = asks;
        two_sides = (refl, refl);
        valid = (ground arith, ground arith);
        sorted = (ground arith, ground arith);
        uncrossed = ground arith;
        deep = deep;
        spread = shown;
        price = price;
        slippage = slippage;
        spread_limit = ground arith;
        slippage_limit = limit;
      }

  -- An entry that passes the liquidity check has a positive size and reference price and an order book
  -- in time, of two sides whose levels are finite, positive, sorted and not crossed, with enough visible
  -- asks; the reported spread, price and slippage are the ones of the book, the first and the last in
  -- basis points, and spread and slippage do not exceed the configured limits.
  pub check_entry_liquidity-passed :
      (quantity reference started answered : F) (book : Option (Book D)) (l : Liquidity F)
      → check_entry_liquidity cv c quantity reference started answered book ≡ passed l
      → (k : Book D) × (book ≡ some k)
        × (is_positive quantity ≡ true)
        × (is_positive reference ≡ true)
        × ((c.market_data_stale_seconds <? answered ⊖ started) ≡ false)
        × IsWithinLimits k.bids k.asks quantity reference l
  unfolding check_entry_liquidity
  check_entry_liquidity-passed quantity reference started answered none l h = absurd (ground arith)
  check_entry_liquidity-passed quantity reference started answered (some k) l h =
      let step : check_book cv c k.bids k.asks quantity reference ≡ passed l = ground arith in
      (
        k,
        refl,
        ground arith,
        ground arith,
        ground arith,
        check_book-passed k.bids k.asks quantity reference l step,
      )
