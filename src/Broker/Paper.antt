-- ===== src/Broker/Paper.antt =====
-- Paper balances and the broker's prices (app/execution/broker.py: _init_paper_balances, equity,
-- _paper_execution_price, _risk_prices_from_fill).
use binance_bot.Base.{String, ◌<>◌, not, Option, none, some, List, [], ◌∷◌, str_eq, if◌then◌else◌}
use binance_bot.Base.Float.{Float, ◌⊕◌, ◌⊖◌, ◌⊗◌, ◌⊘◌, lit, nought}
use binance_bot.Config.{Mode, mode_eq}
use binance_bot.Storage.Rows.{Store}
use binance_bot.Storage.Tx.{Tx, modify, get_state}
use binance_bot.Storage.Trades.{write_states}
use binance_bot.Exchange.Answers.{Bot, Balance, or_default}
use binance_bot.Act.{Act, ask_account, ask_market, pure, reads, ask, db, ◌>>=◌, ◌>>◌}
use binance_bot.Protection.Fill.{is_present}

abbrev pub mode_text : Mode → String
mode_text Mode.paper = "paper"
mode_text Mode.testnet = "testnet"
mode_text Mode.live = "live"

abbrev pub migration_key : String
migration_key = "paper_balance:namespaced_migration_owner"

-- the value of a key, or the default's text
abbrev pub or_text : Option String → String → String
or_text none d = d
or_text (some v) d = v

module _ {F : Type 0} where
  -- `set_states`, one transaction
  unfoldable pub set_states : List (String × String) → Tx F (Unit {0})
  set_states us = modify (write_states us)

  abbrev pub state_of : String → Store F → Option String
  state_of k st = get_state k st.states

module _ {F D : Type 0} ⦃fl : Float F⦄ ⦃dl : Float D⦄ (b : Bot F D) where
  open b use {settings, exchange, cv, py}

  unfoldable pub quote_key : String
  quote_key = "paper_balance:" <> (mode_text settings.mode <> (":quote:" <> settings.quote_asset))

  unfoldable pub base_key : String
  base_key = "paper_balance:" <> (mode_text settings.mode <> (":base:" <> settings.symbol))

  -- the keys have not been namespaced yet
  unfoldable pub migrate : Option String → Option String → Act F (Unit {0})
  unfolding quote_key base_key
  migrate legacy_quote legacy_base = db (
      set_states (
        (migration_key, settings.symbol)
        ∷ (quote_key, or_text legacy_quote (py.show_float settings.paper_starting_balance))
        ∷ (base_key, or_text legacy_base (py.show_float nought))
        ∷ []))

  -- `if get_state(key) is None: set_state(key, value)`
  unfoldable pub set_missing : String → F → Act F (Unit {0})
  set_missing k v = do
    found ← reads (state_of k)
    if is_present found then pure tt else db (set_states ((k, py.show_float v) ∷ []))

  unfoldable pub init_paper_balances : Act F (Unit {0})
  init_paper_balances = if not (mode_eq settings.mode Mode.paper) then pure tt else (do
    owner ← reads (state_of migration_key)
    legacy_quote ← reads (state_of "paper_quote_balance")
    legacy_base ← reads (state_of "paper_base_balance")
    elim owner [
      | none ↦ migrate legacy_quote legacy_base
      | some o ↦
          set_missing (quote_key) settings.paper_starting_balance >> set_missing (base_key) nought
    ])

  -- `Decimal(str(get_state(key, "0") or "0"))`
  unfoldable pub balance : String → Store F → D
  balance k st = py.read_decimal (or_default (state_of k st) "0")

  unfoldable pub paper_quote : Store F → D
  paper_quote = balance quote_key

  unfoldable pub paper_base : Store F → D
  paper_base = balance base_key

  -- total (free + locked) of an asset: the last entry counts
  abbrev pub asset_total : String → F → List (Balance F) → F
  asset_total asset acc [] = acc
  asset_total asset acc (x ∷ xs) =
      let found = asset_total asset (cv.flo (cv.dec x.free ⊕ cv.dec x.locked)) xs in
      let skipped = asset_total asset acc xs in if str_eq x.asset asset then found else skipped

  unfoldable pub equity : F → Act F F
  equity price =
      if mode_eq settings.mode Mode.paper
      then reads (λ st. cv.flo (paper_quote st ⊕ paper_base st ⊗ cv.dec price))
      else (do
        balances ← ask ask_account exchange.balances
        let quote = cv.dec (asset_total settings.quote_asset nought balances)
        let base = cv.dec (asset_total settings.base_asset nought balances)
        pure (cv.flo (quote ⊕ base ⊗ cv.dec price)))

  unfoldable pub paper_slip : D
  paper_slip = cv.dec settings.paper_slippage_bps ⊘ lit 10000 1

  -- `_paper_execution_price(price, "BUY")` and `(price, "SELL")`
  unfoldable pub paper_buy_price : F → F
  unfolding paper_slip
  paper_buy_price price = cv.flo (cv.dec price ⊗ (lit 1 1 ⊕ paper_slip))

  unfoldable pub paper_sell_price : F → F
  unfolding paper_slip
  paper_sell_price price = cv.flo (cv.dec price ⊗ (lit 1 1 ⊖ paper_slip))

  -- price * quantity * fee rate
  unfoldable pub paper_fee : D → D → D
  paper_fee price qty = price ⊗ qty ⊗ (cv.dec settings.trading_fee_bps ⊘ lit 10000 1)

  unfoldable pub normalized_price : F → Act F F
  normalized_price price = ask ask_market (λ c. exchange.normalize_price c settings.symbol price)

  unfoldable pub normalized_quantity : F → F → Act F F
  normalized_quantity qty price =
      ask ask_market (λ c. exchange.normalize_quantity c settings.symbol qty price)

  -- (stop, take profit)
  unfoldable pub risk_prices_from_fill : F → Act F (F × F)
  risk_prices_from_fill fill_price = do
    stop ← normalized_price (fill_price ⊗ (lit 1 1 ⊖ settings.stop_loss_pct))
    take ← normalized_price (fill_price ⊗ (lit 1 1 ⊕ settings.take_profit_pct))
    pure (stop, take)
