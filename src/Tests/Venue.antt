-- ===== src/Tests/Venue.antt =====
-- A concrete exchange for the tests, and the worlds that they start from.
use binance_bot.Base.{ℕ, String, true, false, none, some, [], ◌∷◌}
use binance_bot.Base.Fixed.{ℤ, fixed_float}
use binance_bot.Models.{SignalSide, StrategySignal, RiskDecision}
use binance_bot.Risk.{Conversion}
use binance_bot.Storage.Rows.{Store}
use binance_bot.Exchange.Answers.{
  Response, object, whole, Fill, Order, Child, OrderList, Exchange, Py, Bot,
}
use binance_bot.Act.{answer, failure, World}
use binance_bot.Tests.Data.{btc, num, settings}

abbrev pub fixed_conversion : Conversion ℤ ℤ
fixed_conversion = record { dec = λ x. x; flo = λ x. x; fixed3 = λ x. "0.700" }

-- texts of the tests are in their normal form already
abbrev pub py : {D : Type 0} → (D → String) → (String → D) → Py ℤ D
py show read = record {
  lower = λ s. s;
  upper = λ s. s;
  strip = λ s. s;
  show = λ n. "501";
  dumps = λ xs. "[]";
  loads = λ s. s;
  show_float = λ x. "1";
  show_decimal = show;
  read_decimal = read;
  starts_with = λ s t. false;
  drop = λ s t. t;
  contains = λ s t. false;
}

abbrev pub leg : String → ℕ → String → Response Child
leg client id kind = object (record {
  symbol = some btc;
  client_order_id = some client;
  order_id = whole id;
  order_id_text = "601";
  side = some "SELL";
  kind = some kind;
  orig_kind = none;
})

-- the list that was asked for, executing
abbrev pub listed : String → String → String → Response OrderList
listed list_id take_id stop_id = object (record {
  symbol = some btc;
  list_client_order_id = some list_id;
  order_list_id = whole 501;
  list_order_status = some "EXECUTING";
  orders = some (leg take_id 601 "LIMIT_MAKER" ∷ leg stop_id 602 "STOP_LOSS" ∷ []);
})

abbrev pub one_fill : ℤ → Fill ℤ
one_fill qty = record {
  price = num 100 1;
  qty = qty;
  commission = some (num 0 1);
  commission_asset = some "USDT";
}

-- an order that was filled at 100
abbrev pub filled_order : String → String → ℤ → Response (Order ℤ)
filled_order side client qty = object (record {
  symbol = some btc;
  side = some side;
  client_order_id = some client;
  order_id = some "77";
  status = some "FILLED";
  kind = some "MARKET";
  orig_kind = none;
  price = num 0 1;
  executed_qty = some (some qty);
  cummulative_quote_qty = num 200 1;
  fills = one_fill qty ∷ [];
})

-- what is asked is granted
abbrev pub venue : {D : Type 0} → Exchange ℤ D
venue = record {
  post_order = λ c symbol side qty client. answer (filled_order side client qty);
  is_tradable = λ c symbol. answer true;
  order = λ c symbol client. failure "timeout";
  post_oco =
      λ c o. answer (listed o.list_client_order_id o.above_client_order_id o.below_client_order_id);
  order_list = λ c list_id. failure "timeout";
  cancel = λ c symbol list_id. answer tt;
  fills = λ c symbol id. answer (some []);
  balances = λ c. answer [];
  book = λ c symbol. answer (some (record { bids = []; asks = [] }));
  normalize_quantity = λ c symbol qty price. answer qty;
  normalize_price = λ c symbol price. answer price;
  fee_quote = λ c o price. answer (num 2 10);
  now = λ c. 1000;
  monotonic = λ c. num 1 1;
  token = λ c. "token";
}

abbrev pub bot : Bot ℤ ℤ
bot = record {
  settings = settings;
  exchange = venue;
  cv = fixed_conversion;
  py = py (λ d. "1") (λ s. num 1000 1);
}

-- orders are not answered
abbrev pub silent_bot : Bot ℤ ℤ
silent_bot = record bot {
  exchange = record venue { post_order = λ c symbol side qty client. failure "timeout" };
}

abbrev pub world : Store ℤ → World ℤ
world st = record {
  store = st;
  calls = [];
  inventory = record { checked_at = num 0 1; issue = none };
}

abbrev pub buy_signal : StrategySignal ℤ
buy_signal = record {
  side = SignalSide.buy;
  confidence = num 9 10;
  reason = "signal";
  atr_pct = none;
}

abbrev pub sell_signal : StrategySignal ℤ
sell_signal = record {
  side = SignalSide.sell;
  confidence = num 9 10;
  reason = "signal";
  atr_pct = none;
}

abbrev pub approval : RiskDecision ℤ
approval = record {
  allowed = true;
  reason = "Approved";
  quantity = num 2 1;
  stop_price = none;
  take_profit_price = none;
}
