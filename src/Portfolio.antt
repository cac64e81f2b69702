-- ===== src/Portfolio.antt =====
-- The shared limits on entries (app/agents/multi_orchestrator.py, class PortfolioCoordinator). The
-- valuation that `snapshot` gives and a bot's market snapshot are arguments.
pub mod Admission
use binance_bot.Base.{
  ℕ, ◌+◌, ◌/◌, String, ◌<>◌, Bool, true, false, not, ◌&&◌, ◌||◌, Option, none, some, List, [], ◌∷◌,
  ◌==◌, ltb, leb, str_mem, if◌then◌else◌, length, take, select, any,
}
use binance_bot.Base.Float.{
  Float, ◌⊕◌, ◌⊖◌, ◌⊗◌, ◌⊘◌, ◌<?◌, ◌≤?◌, negate, is_finite, lit, nought, fabs,
}
use binance_bot.Config.{Mode, Settings, mode_eq}
use binance_bot.Storage.Rows.{Store, Trade, is_open}
use binance_bot.Storage.Trades.{count_open_trades}
use binance_bot.Storage.Orders.{has_unresolved_order}
use binance_bot.Act.{Outcome, done, failed}
use binance_bot.Market.{MarketSnapshot, closed_ms, elapsed_seconds, within, stale_limit_ms}

-- the entries of `snapshot()` that `execute_entry` reads
pub record Valuation (F : Type 0) : Type 0 where
  pub equity : Option F
  pub error : Option String
  pub available_quote : F
  pub exposure : F

-- the arguments of `execute_entry`, without `submit`
pub record EntryRequest (F : Type 0) : Type 0 where
  pub symbol : String
  pub notional : Option F
  pub expected_price : Option F

-- the texts of an integer and of `math.ceil` in messages
pub record Texts (F : Type 0) : Type 0 where
  pub show : ℕ → String
  pub show_ceil : F → String

module _ {F : Type 0} where
  -- ORDER BY closed_at DESC, id DESC, into rows that are so ordered already
  unfoldable pub insert_close : Trade F → List (Trade F) → List (Trade F)
  insert_close t [] = t ∷ []
  insert_close t (u ∷ us) =
      let rest = insert_close t us in
      if ltb (closed_ms t) (closed_ms u) then u ∷ rest else t ∷ u ∷ us

  unfoldable pub sort_closes : List (Trade F) → List (Trade F)
  unfolding insert_close
  sort_closes [] = []
  sort_closes (t ∷ ts) = insert_close t (sort_closes ts)

  abbrev pub closed_in : Mode → List String → Trade F → Bool
  closed_in m symbols t = not (is_open t.status) && (mode_eq t.mode m && str_mem t.symbol symbols)

  unfoldable pub recent_portfolio_closes : Mode → List String → ℕ → Store F → List (Trade F)
  unfolding sort_closes
  recent_portfolio_closes m symbols limit st =
      take limit (sort_closes (select (closed_in m symbols) st.trades))

abbrev pub day_of : ℕ → ℕ
day_of ms = ms / 86400000

abbrev pub or_else : Option String → Option String → Option String
or_else none b = b
or_else (some a) b = some a

abbrev pub or_text : Option String → String → String
or_text none d = d
or_text (some e) d = e

module _ {F : Type 0} ⦃fl : Float F⦄ where
  abbrev pub pnl_of : Trade F → F
  pnl_of t = elim t.pnl [ none ↦ nought | some p ↦ p ]

  abbrev pub sum_pnl : F → List (Trade F) → F
  sum_pnl acc [] = acc
  sum_pnl acc (t ∷ ts) = sum_pnl (acc ⊕ pnl_of t) ts

  -- `realized_pnl_today_portfolio`
  unfoldable pub realized_pnl_today : Mode → List String → ℕ → Store F → F
  realized_pnl_today m symbols now st =
      sum_pnl nought
        (select (λ t. closed_in m symbols t && day_of (closed_ms t) == day_of now) st.trades)

module _ {F : Type 0} ⦃fl : Float F⦄ (txt : Texts F) (c : Settings F) (symbols : List String) where
  open txt use {show, show_ceil}

  abbrev pub pause_left : ℕ → Trade F → F
  pause_left now t = c.loss_streak_pause_seconds ⊖ elapsed_seconds now (closed_ms t)

  -- a full window of recent closes
  unfoldable pub streak_reason : ℕ → List (Trade F) → Option String
  streak_reason now [] = none
  streak_reason now (t ∷ ts) =
      if ltb (length (t ∷ ts)) c.max_consecutive_losses || any (λ u. nought ≤? pnl_of u) (t ∷ ts)
      then none
      else if nought <? pause_left now t
      then some (
          "Loss-streak pause: "
          <> (show (length (t ∷ ts))
              <> (" consecutive losses; retry in " <> (show_ceil (pause_left now t) <> "s"))))
      else none

  unfoldable pub loss_pause_reason : ℕ → Store F → Option String
  unfolding streak_reason recent_portfolio_closes
  loss_pause_reason now st =
      if c.loss_streak_pause_seconds ≤? nought && nought ≤? c.loss_streak_pause_seconds
      then none
      else streak_reason now (recent_portfolio_closes c.mode symbols c.max_consecutive_losses st)

  unfoldable pub entry_capacity_reason : Store F → Option String
  entry_capacity_reason st =
      let open_positions = count_open_trades c.mode symbols st in
      if leb c.max_concurrent_positions open_positions
      then some (
          "Portfolio position limit reached ("
          <> (show open_positions <> ("/" <> (show c.max_concurrent_positions <> ")"))))
      else none

  -- the first symbol with an unresolved order
  unfoldable pub unresolved_reason : List String → Store F → Option String
  unresolved_reason [] st = none
  unresolved_reason (s ∷ ss) st =
      let rest = unresolved_reason ss st in
      if has_unresolved_order c.mode s st
      then some ("Unresolved order on " <> (s <> "; portfolio entries blocked"))
      else rest

  -- the price test, if a price is expected
  unfoldable pub price_reason : MarketSnapshot F → Option F → Option String
  price_reason m none = none
  price_reason m (some expected) = elim m.price [
    | none ↦ some "Entry price became stale while waiting for portfolio approval"
    | some current ↦
        if not (is_finite current)
          || (current ≤? nought
              || (not (is_finite expected)
                  || (expected ≤? nought || not (within m.price_age_ms (stale_limit_ms c)))))
        then some "Entry price became stale while waiting for portfolio approval"
        else if lit 1 1000 <? fabs (current ⊘ expected ⊖ lit 1 1)
        then some "Entry price changed; resize on the next cycle"
        else none
  ]

  -- `costs`
  unfoldable pub cost_factor : F
  cost_factor =
      (lit 1 1 ⊕ c.trading_fee_bps ⊘ lit 10000 1)
      ⊗ (lit 1 1
          ⊕ (if mode_eq c.mode Mode.paper then c.paper_slippage_bps else c.max_entry_slippage_bps)
            ⊘ lit 10000 1)

  -- the tests on the valuation; the figures of the exposure message are left out
  unfoldable pub budget_reason : ℕ → Store F → Valuation F → F → Option String
  unfolding cost_factor realized_pnl_today
  budget_reason now st v notional = elim v.equity [
    | none ↦ some (or_text v.error "Portfolio valuation unavailable")
    | some equity ↦
        if not (is_finite notional) || notional ≤? nought
        then some "Invalid entry notional"
        else if v.available_quote <? notional ⊗ cost_factor
        then some "Insufficient shared quote balance including costs"
        else if equity ⊗ c.max_portfolio_exposure_fraction <? v.exposure ⊕ notional ⊗ cost_factor
        then some "Portfolio exposure limit reached"
        else if realized_pnl_today c.mode symbols now st
            ≤? negate equity ⊗ c.max_daily_loss_fraction
        then some "Portfolio daily loss limit reached"
        else none
  ]

  unfoldable pub notional_reason :
      ℕ → Store F → Valuation F → MarketSnapshot F → EntryRequest F → Option String
  unfolding unresolved_reason price_reason budget_reason
  notional_reason now st v m r = elim r.notional [
    | none ↦ none
    | some notional ↦
        or_else (unresolved_reason symbols st)
          (or_else (price_reason m r.expected_price) (budget_reason now st v notional))
  ]

  -- why `execute_entry` refuses, in the order of its tests
  unfoldable pub entry_refusal :
      ℕ → Store F → Valuation F → MarketSnapshot F → EntryRequest F → Option String
  unfolding loss_pause_reason entry_capacity_reason notional_reason
  entry_refusal now st v m r =
      if not (str_mem r.symbol symbols)
      then some "Symbol is outside the configured trading list"
      else or_else (loss_pause_reason now st)
          (or_else (entry_capacity_reason st) (notional_reason now st v m r))

  -- the `finally` after `submit()`: the cached account is invalidated, whether it returned or raised
  unfoldable pub invalidate_after : {R : Type 0} → Outcome R × Store F → Outcome R × Store F × Bool
  invalidate_after (done r, st) = (done r, st, not (mode_eq c.mode Mode.paper))
  invalidate_after (failed e, st) = (failed e, st, not (mode_eq c.mode Mode.paper))

  -- a refusal, or the submission and what follows it
  abbrev pub conclude :
      {R : Type 0}
      → (String → R)
      → (Store F → Outcome R × Store F)
      → Store F
      → Option String
      → Outcome R × Store F × Bool
  conclude refused submit st (some reason) = (done (refused reason), st, false)
  conclude refused submit st none = invalidate_after (submit st)

  -- the result or the exception, the tables, and whether the cached account was invalidated
  unfoldable pub execute_entry :
      {R : Type 0}
      → (String → R)
      → (Store F → Outcome R × Store F)
      → ℕ
      → Valuation F
      → MarketSnapshot F
      → EntryRequest F
      → Store F
      → Outcome R × Store F × Bool
  execute_entry refused submit now v m r st =
      conclude refused submit st (entry_refusal now st v m r)
