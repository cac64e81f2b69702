-- ===== src/Broker/Promise.antt =====
-- What the execution layer promises of its requests, over any sequence of its operations
-- (app/execution/broker.py and app/execution/protection.py).
use binance_bot.Base.{
  ℕ, suc, ◌+◌, ◌≤◌, ◌≡◌, refl, String, Bool, true, false, not, ◌&&◌, List, [], ◌∷◌, arith, any, All,
  count_where, str_eq, eq_refl, if◌then◌else◌,
}
use binance_bot.Base.Float.{Float}
use binance_bot.Config.{Mode}
use binance_bot.Models.{StrategySignal, RiskDecision}
use binance_bot.Storage.Rows.{Store, open_for}
use binance_bot.Storage.Rules.{Atoms}
use binance_bot.Storage.History.{empty, IsSound-atoms, empty-IsSound, open_count_le_one}
use binance_bot.Storage.Pending.{is_waiting}
use binance_bot.Storage.Listed.{awaits_list}
use binance_bot.Exchange.Answers.{Bot}
use binance_bot.Act.{
  Outcome, done, failed, Call, send_order, send_oco, ask_order, ask_order_list, cancel_list,
  ask_fills, ask_account, ask_market, Event, World, Inventory, Act,
}
use binance_bot.Act.Anything.{Anything, Anything-atoms}
use binance_bot.Act.Rules.{Post}
use binance_bot.Act.Steady.{Steady, Both, is_quiet}
use binance_bot.Broker.Paper.{init_paper_balances}
use binance_bot.Broker.Enter.{enter}
use binance_bot.Broker.Exit.{maybe_exit}
use binance_bot.Broker.Recovery.{reconcile_unresolved_orders}
use binance_bot.Broker.Recorded.{Advances, Ordering}
use binance_bot.Broker.Entry.{enter-Advances}
use binance_bot.Broker.Leaving.{maybe_exit-Advances}
use binance_bot.Broker.Preparing.{init_paper_balances-Steady}
use binance_bot.Broker.Recovering.{reconcile_unresolved_orders-Steady}
use binance_bot.Protection.Cancel.{reconcile_open_position_protection}
use binance_bot.Protection.Listing.{Listing}
use binance_bot.Protection.Startup.{reconcile_open_position_protection-Steady}

-- the operations of the broker, as the rest of the program calls them
pub data Operation (F : Type 0) : Type 0 where
  entering : StrategySignal F → RiskDecision F → F → Operation F
  leaving : StrategySignal F → F → Operation F
  recovering verifying_protection preparing_balances : Operation F

abbrev pub sends_order : {F : Type 0} → Call F → Bool
sends_order (send_order _ _ _ _) = true
sends_order _ = false

-- the number of market orders that were requested
abbrev pub orders_sent : {F : Type 0} → List (Event F) → ℕ
orders_sent cs = count_where (λ e. sends_order e.call) cs

module _ {F D : Type 0} ⦃fl : Float F⦄ ⦃dl : Float D⦄ (b : Bot F D) where
  -- the world after an operation, whether it returned or raised
  abbrev pub perform : Operation F → World F → World F
  perform (Operation.entering signal risk price) w = (enter b signal risk price w).1
  perform (Operation.leaving signal price) w = (maybe_exit b signal price w).1
  perform Operation.recovering w = (reconcile_unresolved_orders b w).1
  perform Operation.verifying_protection w = (reconcile_open_position_protection b w).1
  perform Operation.preparing_balances w = (init_paper_balances b w).1

  abbrev pub perform_all : List (Operation F) → World F → World F
  perform_all [] w = w
  perform_all (o ∷ os) w = perform_all os (perform o w)

  abbrev pub call_is_recorded : Call F → Store F → Bool
  call_is_recorded (send_order symbol side qty c) s =
      str_eq symbol b.settings.symbol
      && (any (is_waiting b.settings.mode b.settings.symbol c) s.orders
          && (if any (open_for b.settings.mode b.settings.symbol) s.trades
              then str_eq side "SELL"
              else not (str_eq side "SELL")))
  call_is_recorded (send_oco o) s = any (awaits_list o.list_client_order_id) s.trades
  call_is_recorded _ s = true

  -- a market order has its intent in the tables, and is a sale exactly when there is a position; an
  -- order list has its id with the open position
  abbrev pub is_recorded : Event F → Bool
  is_recorded e = call_is_recorded e.call e.before

  abbrev pub AllRecorded : List (Event F) → Type 0
  AllRecorded cs = All (λ e. is_recorded e ≡ true) cs

  quiet-recorded : (k : Call F) (s : Store F) → is_quiet k ≡ true → call_is_recorded k s ≡ true
  quiet-recorded (send_order _ _ _ _) s h = absurd (ground arith)
  quiet-recorded (send_oco _) s h = absurd (ground arith)
  quiet-recorded (ask_order _ _) s h = refl
  quiet-recorded (ask_order_list _) s h = refl
  quiet-recorded (cancel_list _ _) s h = refl
  quiet-recorded (ask_fills _ _) s h = refl
  quiet-recorded ask_account s h = refl
  quiet-recorded ask_market s h = refl

  quiet-no_order : (k : Call F) → is_quiet k ≡ true → sends_order k ≡ false
  quiet-no_order (send_order _ _ _ _) h = absurd (ground arith)
  quiet-no_order (send_oco _) h = refl
  quiet-no_order (ask_order _ _) h = refl
  quiet-no_order (ask_order_list _) h = refl
  quiet-no_order (cancel_list _ _) h = refl
  quiet-no_order (ask_fills _ _) h = refl
  quiet-no_order ask_account h = refl
  quiet-no_order ask_market h = refl

  -- requests of each kind keep the two invariants
  recorded_listing : (I : Store F → Type 0) → Listing I AllRecorded
  recorded_listing I = record {
    still = record { quiet = λ k s cs e h. (quiet-recorded k s e, h) };
    listed = λ o s cs e i h. (e, h);
  }

  recorded_ordering : (I : Store F → Type 0) → Ordering b I AllRecorded AllRecorded
  recorded_ordering I = record {
    first = recorded_listing I;
    then_on = recorded_listing I;
    later = λ cs h. h;
    ordered = λ side qty c s cs e e' i h. (ground (arith, eq_refl b.settings.symbol), h);
  }

  abbrev AtMost : ℕ → List (Event F) → Type 0
  AtMost n cs = orders_sent cs ≤ n

  counted_listing : (I : Store F → Type 0) (n : ℕ) → Listing I (AtMost n)
  counted_listing I n = record {
    still = record { quiet = λ k s cs e h. rw (quiet-no_order k e) h };
    listed = λ o s cs e i h. h;
  }

  counted_ordering : (I : Store F → Type 0) (n : ℕ) → Ordering b I (AtMost n) (AtMost (suc n))
  counted_ordering I n = record {
    first = counted_listing I n;
    then_on = counted_listing I (suc n);
    later = λ cs h. omega arith;
    ordered = λ side qty c s cs e e' i h. omega arith;
  }

  module _ {A : Type 0} (I : Store F → Type 0) (Q : List (Event F) → Type 0) where
    -- what holds of the world whether the action returned or raised
    final : (r : Outcome A × World F) → Post (λ _. Both I Q) (Both I Q) r → Both I Q r.1
    final (done a, w) h = h
    final (failed e, w) h = h

    advanced :
        {Q₀ : List (Event F) → Type 0} {m : Act F A}
        → Advances I Q₀ Q m
        → (w : World F) → Both I Q₀ w
        → Both I Q (m w).1
    advanced {m = m} h w p = final (m w) (h.moves.at w p)

    stayed : {m : Act F A} → Steady I Q m → (w : World F) → Both I Q w → Both I Q (m w).1
    stayed {m = m} h w p = final (m w) (h.kept.at w p)

  perform-keeps :
      {I : Store F → Type 0} (a : Atoms I) (o : Operation F) (w : World F)
      → Both I AllRecorded w
      → Both I AllRecorded (perform o w)
  perform-keeps {I = I} a (Operation.entering signal risk price) w h =
      advanced I AllRecorded (enter-Advances b a (recorded_ordering I) signal risk price) w h
  perform-keeps {I = I} a (Operation.leaving signal price) w h =
      advanced I AllRecorded (maybe_exit-Advances b a (recorded_ordering I) signal price) w h
  perform-keeps {I = I} a Operation.recovering w h =
      stayed I AllRecorded (reconcile_unresolved_orders-Steady b a (recorded_listing I)) w h
  perform-keeps {I = I} a Operation.verifying_protection w h =
      stayed I AllRecorded (reconcile_open_position_protection-Steady b a (recorded_listing I)) w h
  perform-keeps {I = I} a Operation.preparing_balances w h =
      stayed I AllRecorded (init_paper_balances-Steady b a) w h

  perform_all-keeps :
      {I : Store F → Type 0} (a : Atoms I) (os : List (Operation F)) (w : World F)
      → Both I AllRecorded w
      → Both I AllRecorded (perform_all os w)
  perform_all-keeps a [] w h = h
  perform_all-keeps a (o ∷ os) w h = perform_all-keeps a os (perform o w) (perform-keeps a o w h)

  -- Whatever sequence of its operations the broker performs on empty tables, and whatever the
  -- exchange answers, each market order was requested with its intent stored and not resolved, to
  -- sell if there was an open position and otherwise not, each order list was requested with its id
  -- stored with an open position, and there is at most one open position of a mode and symbol.
  pub perform_all-recorded :
      (os : List (Operation F)) (i : Inventory F) (m : Mode) (s : String)
      → let w = perform_all os (record { store = empty; calls = []; inventory = i }) in
        AllRecorded w.calls × (count_where (open_for m s) w.store.trades ≤ 1)
  perform_all-recorded os i m s =
      let h =
        perform_all-keeps IsSound-atoms os (record { store = empty; calls = []; inventory = i })
          (empty-IsSound, tt) in
      (h.1, open_count_le_one m s _ h.0.one_open)

  -- the market orders that an operation may request
  abbrev pub order_budget : Operation F → ℕ
  order_budget (Operation.entering signal risk price) = 1
  order_budget (Operation.leaving signal price) = 1
  order_budget Operation.recovering = 0
  order_budget Operation.verifying_protection = 0
  order_budget Operation.preparing_balances = 0

  counted : (w : World F) → Both Anything (AtMost (orders_sent w.calls)) w
  counted w = (tt, omega arith)

  -- From any tables and after any requests, opening or closing a position requests at most one
  -- market order, whether it returns or raises, and the other operations request none.
  pub perform-one_order :
      (o : Operation F) (w : World F)
      → orders_sent (perform o w).calls ≤ orders_sent w.calls + order_budget o
  perform-one_order (Operation.entering signal risk price) w =
      let h =
        advanced Anything (AtMost _)
          (enter-Advances b Anything-atoms (counted_ordering Anything (orders_sent w.calls)) signal
            risk price)
          w (counted w) in
      omega arith
  perform-one_order (Operation.leaving signal price) w =
      let h =
        advanced Anything (AtMost _)
          (maybe_exit-Advances b Anything-atoms (counted_ordering Anything (orders_sent w.calls))
            signal price)
          w (counted w) in
      omega arith
  perform-one_order Operation.recovering w =
      let h =
        stayed Anything (AtMost _)
          (reconcile_unresolved_orders-Steady b Anything-atoms
            (counted_listing Anything (orders_sent w.calls)))
          w (counted w) in
      omega arith
  perform-one_order Operation.verifying_protection w =
      let h =
        stayed Anything (AtMost _)
          (reconcile_open_position_protection-Steady b Anything-atoms
            (counted_listing Anything (orders_sent w.calls)))
          w (counted w) in
      omega arith
  perform-one_order Operation.preparing_balances w =
      let h =
        stayed Anything (AtMost (orders_sent w.calls)) (init_paper_balances-Steady b Anything-atoms)
          w (counted w) in
      omega arith
