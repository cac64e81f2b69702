-- ===== src/Tests/Paper.antt =====
-- A paper purchase. The decimals that are read back are truth values here: an amount is something or
-- nothing.
use binance_bot.Base.{
  ◌≡◌, refl, String, Bool, true, false, not, ◌&&◌, ◌||◌, [], ◌∷◌, ltb, str_eq, if◌then◌else◌,
}
use binance_bot.Base.Float.{Float, ◌<?◌, ◌⊕◌, ◌⊖◌}
use binance_bot.Base.Fixed.{ℤ, fixed_float}
use binance_bot.Config.{Mode}
use binance_bot.Storage.Rows.{Store}
use binance_bot.Storage.History.{empty}
use binance_bot.Exchange.{is_positive}
use binance_bot.Exchange.Answers.{Bot}
use binance_bot.Act.{World, ◌>>=◌, observes, db, ask, pure, reads}
use binance_bot.Act.Rules.{Post}
use binance_bot.Broker.Paper.{
  quote_key, base_key, paper_quote, paper_base, paper_buy_price, balance, paper_fee, paper_slip,
  normalized_quantity, normalized_price, risk_prices_from_fill,
}
use binance_bot.Broker.Enter.{
  ExecutionResult, Details, paper_cost, enter, enter_checked, enter_sized, enter_paper, open_paper,
  bad_entry, paper_trade,
}
use binance_bot.Broker.Cash.{Paid, enter-paper_cash}
use binance_bot.Broker.Balances.{ReadsBack, enter-paper_balances}
use binance_bot.Storage.Tx.{connection, get_state}
use binance_bot.Storage.Orders.{has_unresolved_order, unresolved_orders}
use binance_bot.Storage.Trades.{
  get_open_trade, open_trade, insert_trade, opened_row, apply_optional,
}
use binance_bot.Tests.Data.{num, settings}
use binance_bot.Tests.Venue.{venue, py, bot, world, buy_signal, approval}

-- something plus or times something is something; nothing is taken away
instance abbrev truth_float : Float Bool
truth_float = record {
  add = λ a b. a || b;
  sub = λ a b. a;
  mul = λ a b. a && b;
  div = λ a b. a && b;
  neg = λ a. a;
  lt = λ a b. not a && b;
  le = λ a b. not a || b;
  is_finite = λ a. true;
  lit = λ n d. ltb 0 n;
}

abbrev show : Bool → String
show true = "1"
show false = "0"

abbrev read : String → Bool
read s = str_eq s "1"

abbrev paper_bot : Bot ℤ Bool
paper_bot = record {
  settings = record settings { mode = Mode.paper };
  exchange = venue;
  cv = record {
    dec = λ x. num 0 1 <? x;
    flo = λ x. if x then num 1 1 else num 0 1;
    fixed3 = λ x. "";
  };
  py = py show read;
}

-- a paper account with cash
abbrev funded : Store ℤ
funded = record empty { states = ("paper_balance:paper:quote:USDT", "1") ∷ [] }

abbrev fixed_paper_bot : Bot ℤ ℤ
fixed_paper_bot = record bot { settings = record settings { mode = Mode.paper } }

enter-paper_cash_example :
    Post
      (Paid fixed_paper_bot funded (num 2 1) (num 100 1))
      (λ w. w.store ≡ funded)
      (enter fixed_paper_bot buy_signal approval (num 100 1) (world funded))
enter-paper_cash_example =
    enter-paper_cash fixed_paper_bot buy_signal approval (num 100 1) (world funded) refl

abbrev opened : World ℤ
opened = (enter paper_bot buy_signal approval (num 100 1) (world funded)).1

abbrev bought : ExecutionResult ℤ
bought = record {
  action = "BUY";
  executed = true;
  message = "Paper position opened";
  details = Details.position_opened 1 (num 1 1) (num 1 1);
}

reads_back : ReadsBack paper_bot
reads_back true = refl
reads_back false = refl

enter-paper_balances_example :
    (qty : ℤ) × (is_positive qty ≡ true)
    × (paper_quote paper_bot funded
          <? paper_cost paper_bot (paper_buy_price paper_bot (num 100 1)) qty
        ≡ false)
    × (paper_quote paper_bot opened.store
        ≡ paper_quote paper_bot funded
          ⊖ paper_cost paper_bot (paper_buy_price paper_bot (num 100 1)) qty)
    × (paper_base paper_bot opened.store ≡ paper_base paper_bot funded ⊕ paper_bot.cv.dec qty)
unfolding ◌>>=◌ observes db ask pure reads connection enter enter_checked enter_sized enter_paper
    open_paper bad_entry paper_trade quote_key base_key balance paper_quote paper_base paper_fee
    paper_slip paper_buy_price normalized_quantity normalized_price risk_prices_from_fill
    has_unresolved_order unresolved_orders get_open_trade open_trade insert_trade opened_row
    apply_optional get_state
enter-paper_balances_example =
    enter-paper_balances paper_bot buy_signal approval (num 100 1) (world funded) opened bought refl
      reads_back refl refl refl
