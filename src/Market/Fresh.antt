-- ===== src/Market/Fresh.antt =====
-- What the price fields hold, and what an entry that passes the quality check has
-- (app/agents/orchestrator.py).
use binance_bot.Base.{
  ℕ, ◌+◌, ◌≤◌, ◌≡◌, Bool, true, false, Option, none, some, List, [], ◌∷◌, arith, leb, ◌-◌, ◌↔◌, ◌⊎◌,
  inl, inr, refl,
}
use binance_bot.Base.Float.{
  Float, ◌⊗◌, ◌⊖◌, ◌⊘◌, ◌<?◌, ◌≤?◌, is_finite, lit, nought, fmax, fabs, IsOrdered, le-fmax_left,
  le-fmax_right,
}
use binance_bot.Config.{Settings}
use binance_bot.Storage.Rows.{Trade, Store, opt_str_eq}
use binance_bot.Storage.Trades.{closed_trades}
use binance_bot.Market.{
  elapsed_seconds, closed_ms, unpriced, PriceState, Tick, Candidate, on_price_tick, receive_age,
  exchange_age, oldest, stale_limit_ms, market_snapshot, candidate_expired, cooldown_reason,
  entry_quality_reason,
}

-- an event time that is known and not before `e`
abbrev pub reached : ℕ → Option ℕ → Bool
reached e none = false
reached e (some e') = leb e e'

module _ {F : Type 0} ⦃fl : Float F⦄ where
  unfoldable pub receive_all : List (Tick F) → PriceState F → PriceState F
  receive_all [] s = s
  receive_all (t ∷ ts) s = receive_all ts (on_price_tick t s)

  -- a price that was stored is a positive number, and has an event time
  pub IsPriced : PriceState F → Type 0
  IsPriced s = (p : F) → s.latest_price ≡ some p → (is_finite p ≡ true) × ((p ≤? nought) ≡ false)

  on_price_tick-IsPriced :
      (t : Tick F) (s : PriceState F) → IsPriced s → IsPriced (on_price_tick t s)
  unfolding on_price_tick IsPriced
  on_price_tick-IsPriced t s h p e = ground (arith, h p)

  on_price_tick-reached :
      (e : ℕ) (t : Tick F) (s : PriceState F)
      → reached e s.latest_price_event_ms ≡ true
      → reached e (on_price_tick t s).latest_price_event_ms ≡ true
  unfolding on_price_tick
  on_price_tick-reached e t s h = ground arith

  receive_all-reached :
      (e : ℕ) (ts : List (Tick F)) (s : PriceState F)
      → reached e s.latest_price_event_ms ≡ true
      → reached e (receive_all ts s).latest_price_event_ms ≡ true
  unfolding receive_all
  receive_all-reached e [] s h = h
  receive_all-reached e (t ∷ ts) s h =
      receive_all-reached e ts (on_price_tick t s) (on_price_tick-reached e t s h)

  receive_all-IsPriced :
      (ts : List (Tick F)) (s : PriceState F) → IsPriced s → IsPriced (receive_all ts s)
  unfolding receive_all
  receive_all-IsPriced [] s h = h
  receive_all-IsPriced (t ∷ ts) s h =
      receive_all-IsPriced ts (on_price_tick t s) (on_price_tick-IsPriced t s h)

  -- Whatever ticks arrive, late and invalid ones included, the stored price is finite and positive,
  -- and its event time never goes back.
  pub receive_all-newest :
      (ts us : List (Tick F)) (e : ℕ)
      → (receive_all ts unpriced).latest_price_event_ms ≡ some e
      → IsPriced (receive_all us (receive_all ts unpriced))
        × (reached e (receive_all us (receive_all ts unpriced)).latest_price_event_ms ≡ true)
  unfolding IsPriced
  receive_all-newest ts us e h = (
    receive_all-IsPriced us (receive_all ts unpriced)
        (receive_all-IsPriced ts unpriced (λ p k. absurd (ground arith))),
    receive_all-reached e us (receive_all ts unpriced) (ground arith),
  )

  -- A stream counts as connected only while it is switched on, the last price came from it, and both
  -- the time since its arrival and the age of its event are within the limit.
  pub market_snapshot-connected :
      (ord : IsOrdered F) (c : Settings F) (now : ℕ) (mono received : F) (event : ℕ)
      (s : PriceState F)
      → s.latest_price_received_monotonic ≡ some received
      → s.latest_price_event_ms ≡ some event
      → fmax nought ((mono ⊖ received) ⊗ lit 1000 1) ≤? fmax nought ((mono ⊖ received) ⊗ lit 1000 1)
        ≡ true
      → lit (now - event) 1 ≤? lit {F = F} (now - event) 1 ≡ true
      → (market_snapshot c now mono s).websocket_connected ≡ true
      → (c.use_websocket_market_data ≡ true)
        × (opt_str_eq s.latest_price_source (some "websocket") ≡ true)
        × (fmax nought ((mono ⊖ received) ⊗ lit 1000 1) ≤? stale_limit_ms c ≡ true)
        × (lit (now - event) 1 ≤? stale_limit_ms c ≡ true)
  unfolding market_snapshot receive_age exchange_age oldest
  market_snapshot-connected ord c now mono received event s hr he nr ne h =
      let a = fmax nought ((mono ⊖ received) ⊗ lit 1000 1) in
      let b = lit {F = F} (now - event) 1 in
      let top : fmax a b ≤? stale_limit_ms c ≡ true = ground arith in
      (
        ground arith,
        ground arith,
        ord.le_trans a (fmax a b) (stale_limit_ms c) (le-fmax_left ord a b nr) top,
        ord.le_trans b (fmax a b) (stale_limit_ms c) (le-fmax_right ord a b nr ne) top,
      )

  -- The market has no closed position, or the first of them, so the one of the highest id, was closed
  -- long enough ago.
  abbrev pub IsCooledDown : Settings F → ℕ → List (Trade F) → Type 0
  IsCooledDown c now closed =
      (closed ≡ [])
      ⊎ ((t : Trade F) × (older : List (Trade F)) × (closed ≡ t ∷ older)
          × ((elapsed_seconds now (closed_ms t) <? c.entry_cooldown_seconds) ≡ false))

  cooldown_reason-none :
      (c : Settings F) (now : ℕ) (closed : List (Trade F))
      → (cooldown_reason c now closed ≡ none) ↔ IsCooledDown c now closed
  unfolding cooldown_reason
  cooldown_reason-none c now [] = (λ h. inl refl, λ h. refl)
  cooldown_reason-none c now (u ∷ us) = (λ h. inr (u, us, refl, ground arith), λ h. ground arith)

  -- An entry passes the quality check exactly when its candle has not expired, both prices are finite
  -- and positive, the price is within the allowed deviation from the candle's, and the market has no
  -- closed position or the first one that the query gives, which is ordered by falling ids, was closed
  -- at least the cooldown ago.
  pub entry_quality_reason-none :
      (c : Settings F) (interval_ms grace_ms now : ℕ) (st : Store F) (k : Candidate F) (price : F)
      → (entry_quality_reason c interval_ms grace_ms now st k price ≡ none) ↔ (
          (now ≤ k.candle_close_time + interval_ms + grace_ms)
          × (is_finite k.signal_price ≡ true)
          × ((k.signal_price ≤? nought) ≡ false)
          × (is_finite price ≡ true)
          × ((price ≤? nought) ≡ false)
          × ((c.max_entry_deviation_pct <? fabs (price ⊘ k.signal_price ⊖ lit 1 1)) ≡ false)
          × IsCooledDown c now (closed_trades c.mode c.symbol st))
  unfolding entry_quality_reason candidate_expired
  entry_quality_reason-none c interval_ms grace_ms now st k price =
      let cooldown = cooldown_reason-none c now (closed_trades c.mode c.symbol st) in
      (
        λ h. (
          ground arith,
          ground arith,
          ground arith,
          ground arith,
          ground arith,
          ground arith,
          cooldown.0 (ground arith),
        ),
        λ (a, b, d, e, f, g, cool). let quiet = cooldown.1 cool in ground arith,
      )
