-- ===== src/Market.antt =====
-- Prices and the freshness of an entry (app/agents/orchestrator.py, class TradingOrchestrator).
-- The two clocks are arguments: `now` in milliseconds since the epoch, `mono` in monotonic seconds.
pub mod Fresh
use binance_bot.Base.{
  ℕ, ◌+◌, ◌-◌, ◌*◌, String, Bool, true, false, not, ◌&&◌, ◌||◌, Option, none, some, List, [], ◌∷◌,
  ltb, leb, str_eq, if◌then◌else◌,
}
use binance_bot.Base.Float.{
  Float, ◌⊕◌, ◌⊖◌, ◌⊗◌, ◌⊘◌, ◌<?◌, ◌≤?◌, negate, is_finite, lit, nought, fmax, fabs,
}
use binance_bot.Config.{Settings}
use binance_bot.Models.{StrategySignal}
use binance_bot.Storage.Rows.{Store, Trade, opt_str_eq}
use binance_bot.Storage.Trades.{closed_trades}

-- the price fields of the orchestrator
pub record PriceState (F : Type 0) : Type 0 where
  pub latest_price : Option F
  pub latest_price_event_ms : Option ℕ
  pub latest_price_received_monotonic : Option F
  pub latest_price_source : Option String

-- a trade event of the stream, with the clocks at its arrival
pub record Tick (F : Type 0) : Type 0 where
  pub price : F
  pub event_time_ms : ℕ
  pub now : ℕ
  pub mono : F

-- the parts of `market_snapshot` that code reads
pub record MarketSnapshot (F : Type 0) : Type 0 where
  pub price : Option F
  pub source : Option String
  pub price_age_ms : Option F
  pub receive_age_ms : Option F
  pub exchange_age_ms : Option F
  pub websocket_connected : Bool

pub record Candidate (F : Type 0) : Type 0 where
  pub signal : StrategySignal F
  pub candle_close_time : ℕ
  pub signal_price : F

-- `latest_price_event_ms is not None and event_time_ms < latest_price_event_ms`
abbrev pub is_older : ℕ → Option ℕ → Bool
is_older e none = false
is_older e (some l) = ltb e l

-- `interval_to_ms` on the supported intervals, which are the only ones that settings accept
unfoldable pub interval_to_ms : String → Option ℕ
interval_to_ms i =
    if str_eq i "1m"
    then some 60000
    else if str_eq i "3m"
    then some (3 * 60000)
    else if str_eq i "5m"
    then some (5 * 60000)
    else if str_eq i "15m"
    then some (15 * 60000)
    else if str_eq i "30m"
    then some (30 * 60000)
    else if str_eq i "1h"
    then some 3600000
    else if str_eq i "2h"
    then some (2 * 3600000)
    else if str_eq i "4h"
    then some (4 * 3600000)
    else if str_eq i "6h"
    then some (6 * 3600000)
    else if str_eq i "8h"
    then some (8 * 3600000)
    else if str_eq i "12h"
    then some (12 * 3600000)
    else if str_eq i "1d"
    then some 86400000
    else if str_eq i "3d"
    then some (3 * 86400000)
    else if str_eq i "1w"
    then some 604800000
    else none

abbrev pub closed_ms : {F : Type 0} → Trade F → ℕ
closed_ms t = elim t.closed_at [ none ↦ 0 | some at ↦ at ]

-- before the first price
abbrev pub unpriced : {F : Type 0} → PriceState F
unpriced = record {
  latest_price = none;
  latest_price_event_ms = none;
  latest_price_received_monotonic = none;
  latest_price_source = none;
}

module _ {F : Type 0} ⦃fl : Float F⦄ where
  -- `_on_price_tick`
  unfoldable pub on_price_tick : Tick F → PriceState F → PriceState F
  on_price_tick t s =
      if not (is_finite t.price) || t.price ≤? nought
      then s
      else if ltb (t.now + 1000) t.event_time_ms
      then s
      else if is_older t.event_time_ms s.latest_price_event_ms
      then s
      else record {
        latest_price = some t.price;
        latest_price_event_ms = some t.event_time_ms;
        latest_price_received_monotonic = some t.mono;
        latest_price_source = some "websocket";
      }

  unfoldable pub receive_age : F → Option F → Option F
  receive_age mono none = none
  receive_age mono (some received) = some (fmax nought ((mono ⊖ received) ⊗ lit 1000 1))

  unfoldable pub exchange_age : ℕ → Option ℕ → Option F
  exchange_age now none = none
  exchange_age now (some event) = some (lit (now - event) 1)

  -- `max(ages) if ages else None`
  unfoldable pub oldest : Option F → Option F → Option F
  oldest none b = b
  oldest (some a) none = some a
  oldest (some a) (some b) = some (fmax a b)

  abbrev pub within : Option F → F → Bool
  within none limit = false
  within (some a) limit = a ≤? limit

  abbrev pub stale_limit_ms : Settings F → F
  stale_limit_ms c = c.market_data_stale_seconds ⊗ lit 1000 1

  unfoldable pub market_snapshot : Settings F → ℕ → F → PriceState F → MarketSnapshot F
  unfolding receive_age exchange_age oldest
  market_snapshot c now mono s =
      let receive = receive_age mono s.latest_price_received_monotonic in
      let exchange = exchange_age now s.latest_price_event_ms in
      let age = oldest receive exchange in
      record {
        price = s.latest_price;
        source = s.latest_price_source;
        price_age_ms = age;
        receive_age_ms = receive;
        exchange_age_ms = exchange;
        websocket_connected =
            c.use_websocket_market_data
            && (within age (stale_limit_ms c)
                && opt_str_eq s.latest_price_source (some "websocket"));
      }

  -- seconds from an instant to another, with its sign
  abbrev pub elapsed_seconds : ℕ → ℕ → F
  elapsed_seconds now since =
      if ltb now since then negate (lit (since - now) 1000) else lit (now - since) 1000

  -- `_candidate_expired`; `grace_ms` is `int(strategy_refresh_grace_seconds * 1000)`
  unfoldable pub candidate_expired : ℕ → ℕ → ℕ → Candidate F → Bool
  candidate_expired interval_ms grace_ms now k =
      ltb (k.candle_close_time + interval_ms + grace_ms) now

  -- the cooldown after the market's last closed position
  unfoldable pub cooldown_reason : Settings F → ℕ → List (Trade F) → Option String
  cooldown_reason c now [] = none
  cooldown_reason c now (t ∷ ts) =
      if elapsed_seconds now (closed_ms t) <? c.entry_cooldown_seconds
      then some "Post-exit cooldown is active"
      else none

  -- `_entry_quality_reason`
  unfoldable pub entry_quality_reason :
      Settings F → ℕ → ℕ → ℕ → Store F → Candidate F → F → Option String
  unfolding candidate_expired cooldown_reason
  entry_quality_reason c interval_ms grace_ms now st k price =
      if candidate_expired interval_ms grace_ms now k
      then some "Strategy candle expired; waiting for fresh analysis"
      else if not (is_finite k.signal_price)
          || (k.signal_price ≤? nought || (not (is_finite price) || price ≤? nought))
      then some "Invalid entry price"
      else if c.max_entry_deviation_pct <? fabs (price ⊘ k.signal_price ⊖ lit 1 1)
      then some "Price moved too far from the strategy candle"
      else cooldown_reason c now (closed_trades c.mode c.symbol st)
