-- ===== src/Tests/Requests.antt =====
-- The broker and the protection manager on a concrete exchange.
use binance_bot.Base.{
  String, ◌+◌, ◌≤◌, ◌≡◌, ◌⊎◌, refl, true, false, none, some, List, [], ◌∷◌, any, count_where,
}
use binance_bot.Base.Fixed.{ℤ, fixed_float}
use binance_bot.Config.{Mode}
use binance_bot.Storage.Rows.{Store, ProtectionStatus, open_for, Trade}
use binance_bot.Storage.Orders.{
  has_unresolved_order, record_order_intent, update_order_record, insert_order, is_final,
  is_unresolved, new_order, side_conflicts, unresolved_orders,
}
use binance_bot.Storage.History.{empty}
use binance_bot.Exchange.Answers.{Response, Order, OrderList, object, Bot}
use binance_bot.Act.{
  World, message, done, ◌>>=◌, observes, db, catch, fail_if, ask, fail, need, pure, reads, answer,
}
use binance_bot.Broker.{
  submit_market_order, submit_recorded, place_order, market_order, get_order, block_resubmission,
  mark_unknown, new_client_order_id, unknown_update,
}
use binance_bot.Broker.Submit.{submit_market_order-raises}
use binance_bot.Broker.Enter.{ExecutionResult, enter}
use binance_bot.Broker.Exit.{maybe_exit}
use binance_bot.Broker.Blocked.{enter-blocked, maybe_exit-blocked}
use binance_bot.Broker.Promise.{
  Operation, perform, perform_all, AllRecorded, orders_sent, order_budget, perform_all-recorded,
  perform-one_order,
}
use binance_bot.Protection.{
  validate_oco_response, check_list, check_children, check_child, two_children, list_status,
  positive_id,
}
use binance_bot.Protection.Identity.{IsAccepted, validate_oco_response-passed}
use binance_bot.Protection.Placement.{
  Placement, place_exchange_protection, place_with, place_new, new_protection_ids, submit_list,
  send_list, request_oco, settle_list,
}
use binance_bot.Protection.Shown.{backs, place_exchange_protection-protected}
use binance_bot.Protection.Tries.{lists_sent, place_exchange_protection-two_lists}
use binance_bot.Protection.Fill.{lift}
use binance_bot.Storage.Tx.{connection}
use binance_bot.Storage.Trades.{get_open_trade, opened_row, set_trade_protection, find_open}
use binance_bot.Exchange.{place_protective_oco}
use binance_bot.Protection.Inspect.{inspect_exchange_protection}
use binance_bot.Protection.Inspected.{Reports, inspect_exchange_protection-Reports}
use binance_bot.Act.Rules.{Post}
use binance_bot.Broker.Recovery.{
  Recovery, append, reconcile_unresolved_orders, recover_rows, recover_row, look_up,
}
use binance_bot.Broker.Complete.{
  all_settled, ids_of_rows, ids_of_results, reconcile_unresolved_orders_complete,
}
use binance_bot.Tests.Data.{btc, num, position, held, pending}
use binance_bot.Tests.Venue.{
  listed, bot, silent_bot, world, buy_signal, sell_signal, approval, venue,
}

-- buy, look after the position, sell
abbrev journey : List (Operation ℤ)
journey =
    Operation.entering buy_signal approval (num 100 1)
    ∷ Operation.verifying_protection
    ∷ Operation.leaving sell_signal (num 101 1)
    ∷ Operation.recovering
    ∷ []

perform_all-recorded_example :
    AllRecorded bot (perform_all bot journey (world empty)).calls
    × (count_where (open_for Mode.testnet btc) (perform_all bot journey (world empty)).store.trades
        ≤ 1)
perform_all-recorded_example =
    perform_all-recorded bot journey (record { checked_at = num 0 1; issue = none }) Mode.testnet
      btc

perform-one_order_example :
    orders_sent
      (perform bot (Operation.entering buy_signal approval (num 100 1)) (world empty)).calls
    ≤ orders_sent (world empty).calls
      + order_budget bot (Operation.entering buy_signal approval (num 100 1))
perform-one_order_example =
    perform-one_order bot (Operation.entering buy_signal approval (num 100 1)) (world empty)

-- neither the order nor the question about it is answered
abbrev lost : World ℤ
lost = (submit_market_order silent_bot "BUY" (num 2 1) (world empty)).1

submit_market_order-raises_example :
    ((lost.store ≡ empty) × (lost.calls ≡ []))
    ⊎ (has_unresolved_order Mode.testnet btc lost.store ≡ true)
unfolding ◌>>=◌ observes db catch fail_if ask fail need pure reads connection submit_market_order
    record_order_intent submit_recorded place_order market_order get_order block_resubmission
    mark_unknown update_order_record new_client_order_id unknown_update insert_order is_final
    is_unresolved new_order side_conflicts
submit_market_order-raises_example =
    submit_market_order-raises silent_bot "BUY" (num 2 1) (world empty) lost
      (message
        "Order outcome is uncertain. Automatic re-submission was blocked; manual/restart reconciliation is required.")
      refl

enter-blocked_example :
    (r : ExecutionResult ℤ) × (enter bot buy_signal approval (num 100 1) (world pending)
      ≡ (done r, world pending))
    × (r.executed ≡ false)
unfolding has_unresolved_order unresolved_orders is_unresolved new_order is_final
enter-blocked_example = enter-blocked bot buy_signal approval (num 100 1) (world pending) refl

abbrev held_pending : Store ℤ
held_pending = record held { orders = pending.orders }

maybe_exit-blocked_example :
    (r : ExecutionResult ℤ) × (maybe_exit bot sell_signal (num 100 1) (world held_pending)
      ≡ (done r, world held_pending))
    × (r.executed ≡ false)
unfolding has_unresolved_order unresolved_orders is_unresolved new_order is_final get_open_trade
    opened_row
maybe_exit-blocked_example =
    maybe_exit-blocked bot sell_signal (num 100 1) (world held_pending) refl

validate_oco_response-passed_example :
    (r : OrderList) × (listed "list" "take" "stop" ≡ object r)
    × IsAccepted (λ s. s) (λ s. s) btc "list" "take" "stop" r 501 ProtectionStatus.executing
unfolding validate_oco_response check_list check_children check_child two_children list_status
    positive_id
validate_oco_response-passed_example =
    validate_oco_response-passed (λ s. s) (λ s. s) btc "list" "take" "stop"
      (listed "list" "take" "stop") 501 ProtectionStatus.executing refl

abbrev placed : Placement ℤ
placed = record {
  protected = true;
  status = "EXECUTING";
  list_client_order_id = some "agt-prot-token";
  order_list_id = some "501";
  reconciled_fill = none;
}

abbrev protected_world : World ℤ
protected_world = (place_exchange_protection bot position (world held)).1

place_exchange_protection-protected_example :
    any (backs (some "agt-prot-token")) protected_world.store.trades ≡ true
unfolding ◌>>=◌ observes db catch fail_if ask fail need pure reads connection
    place_exchange_protection place_with place_new new_protection_ids submit_list send_list
    request_oco place_protective_oco settle_list set_trade_protection find_open lift
    validate_oco_response check_list check_children check_child two_children list_status positive_id
    get_open_trade opened_row
place_exchange_protection-protected_example =
    place_exchange_protection-protected bot position (world held) protected_world placed refl refl
      refl

place_exchange_protection-two_lists_example :
    lists_sent (place_exchange_protection bot position (world held)).1.calls
    ≤ lists_sent (world held).calls + 2
place_exchange_protection-two_lists_example =
    place_exchange_protection-two_lists bot position (world held)

-- a leg that waits
abbrev waiting_order : String → Response (Order ℤ)
waiting_order client = object (record {
  symbol = some btc;
  side = some "SELL";
  client_order_id = some client;
  order_id = some "601";
  status = some "NEW";
  kind = some "LIMIT_MAKER";
  orig_kind = none;
  price = num 104 1;
  executed_qty = some (some (num 0 1));
  cummulative_quote_qty = num 0 1;
  fills = [];
})

-- the exchange knows the position's list, whose legs wait
abbrev watching_bot : Bot ℤ ℤ
watching_bot = record bot {
  exchange = record venue {
    order_list = λ c list_id. answer (listed list_id "agt-tp-token" "agt-sl-token");
    order = λ c symbol client. answer (waiting_order client);
  };
}

abbrev listed_position : Trade ℤ
listed_position = record position { protective_list_client_order_id = some "agt-prot-token" }

inspect_exchange_protection-Reports_example :
    Post
      (Reports watching_bot held listed_position)
      (λ w. w.store ≡ held)
      (inspect_exchange_protection watching_bot listed_position (world held))
inspect_exchange_protection-Reports_example =
    inspect_exchange_protection-Reports watching_bot listed_position (world held)

-- the exchange does not answer about the order
abbrev unrecovered : List Recovery
unrecovered =
    record { client_order_id = "buy-1"; resolved = false; status = some "PENDING_SUBMIT" } ∷ []

abbrev unanswered : World ℤ
unanswered = (reconcile_unresolved_orders bot (world pending)).1

reconcile_unresolved_orders_complete_example :
    (ids_of_results bot unrecovered ≡ ids_of_rows bot (unresolved_orders Mode.testnet btc pending))
    × (all_settled unrecovered ≡ true)
unfolding reconcile_unresolved_orders ◌>>=◌ reads catch ask pure get_order recover_rows recover_row
    append look_up unresolved_orders is_unresolved is_final new_order
reconcile_unresolved_orders_complete_example =
    reconcile_unresolved_orders_complete bot (world pending) unanswered unrecovered refl refl
