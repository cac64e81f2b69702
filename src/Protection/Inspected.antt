-- ===== src/Protection/Inspected.antt =====
-- What a report of inspect_exchange_protection tells (app/execution/protection.py).
use binance_bot.Base.{ℕ, ◌≡◌, refl, String, true, Option, none, some, List, [], ◌∷◌, arith, length}
use binance_bot.Base.Float.{Float}
use binance_bot.Storage.Rows.{Store, Trade, ProtectionStatus}
use binance_bot.Exchange.{Checked, passed, raised}
use mathlib.Core.Path.{ap, ◌∙◌}
use binance_bot.Exchange.Answers.{Response, Order, OrderList, Child, Bot, or_default}
use binance_bot.Act.{Outcome, done, failed, Event, answer, World, pure, ◌>>=◌}
use binance_bot.Act.Rules.{Post, Ensures, bind, returns, raises, answers, needs, guards}
use binance_bot.Protection.{validate_order_list, validate_child_order, status_of}
use binance_bot.Protection.Fill.{ChildState, is_executing, truthy, lift, symbol_of}
use binance_bot.Protection.Children.{validate_order_list-two}
use binance_bot.Protection.Placement.{status_text}
use binance_bot.Protection.Inspect.{
  Inspection, all_untouched, inspection, missing_id, inspect_child, inspect_children, inspect_list,
  inspect_exchange_protection,
}

module _ {F D : Type 0} ⦃fl : Float F⦄ ⦃dl : Float D⦄ (b : Bot F D) where
  open b use {exchange, py}

  module _ (st : Store F) where
    abbrev Same : World F → Type 0
    Same w = w.store ≡ st

    lift-Same :
        {A : Type 0} (r : Checked A) (P : World F → Type 0)
        → ((w : World F) → P w → Same w)
        → Ensures P (λ x w. P w × (r ≡ passed x)) Same (lift r)
    unfolding lift
    lift-Same (passed x) P h = returns x λ w p. (p, refl)
    lift-Same (raised e) P h = raises e h

    -- The exchange's answer about the child passed the checks, and the state is read from it.
    abbrev pub IsInspected : String → Child → ChildState F → Type 0
    IsInspected symbol k s =
        (cs : List (Event F)) × (response : Response (Order F)) × (exchange.order cs symbol
            (or_default k.client_order_id "")
          ≡ answer response)
        × (validate_child_order py symbol k response ≡ passed s.order)
        × (s.order.executed_qty ≡ some (some s.executed))
        × (s.status ≡ status_of py s.order)

    inspect_child-IsInspected :
        (symbol : String) (k : Child)
        → Ensures Same (λ s w. Same w × IsInspected symbol k s) Same (inspect_child b symbol k)
    unfolding inspect_child
    inspect_child-IsInspected symbol k =
        bind
          {Q = λ response w.
            Same w
            × ((cs : List (Event F)) × (exchange.order cs symbol (or_default k.client_order_id "")
                  ≡ answer response))}
          (answers _ _ (λ w h a cs e. (h, (cs, e))) (λ w h. h))
          λ response. bind (lift-Same _ _ λ w h. h.0) λ o. bind (needs _ _ λ w h. h.0.0) λ given.
            bind (needs _ _ λ w h. h.0.0.0) λ q. bind (guards _ _ λ w h. h.0.0.0.0) λ u.
              returns _
                λ w (((((h, (cs, e)), v), g), n), f). (h, (cs, response, e, v, g ∙ ap some n, refl))

    -- every child of the list, in order, and nothing else
    pub data AllInspected (symbol : String) : List Child → List (ChildState F) → Type 0 where
      all_seen : AllInspected symbol [] []
      seen :
          {k : Child} {s : ChildState F} {ks : List Child} {ss : List (ChildState F)}
          → IsInspected symbol k s
          → AllInspected symbol ks ss
          → AllInspected symbol (k ∷ ks) (s ∷ ss)

    inspect_children-AllInspected :
        (symbol : String) (ks : List Child)
        → Ensures Same
            (λ ss w. Same w × AllInspected symbol ks ss)
            Same
            (inspect_children b symbol ks)
    unfolding inspect_children
    inspect_children-AllInspected symbol [] = returns [] λ w h. (h, all_seen)
    inspect_children-AllInspected symbol (k ∷ ks) = bind (inspect_child-IsInspected symbol k) λ s.
        bind {Q = λ ss w. Same w × IsInspected symbol k s × AllInspected symbol ks ss}
          (record {
            at = λ w (h, i).
                joined i (inspect_children b symbol ks w)
                  ((inspect_children-AllInspected symbol ks).at w h);
          })
          λ ss. returns _ λ w (h, i, a). (h, seen i a)
      where
        joined :
            {P : Type 0} (p : P) (r : Outcome (List (ChildState F)) × World F)
            → Post (λ ss w. Same w × AllInspected symbol ks ss) Same r
            → Post (λ ss w. Same w × P × AllInspected symbol ks ss) Same r
        joined p (done ss, w) (h, a) = (h, p, a)
        joined p (failed e, w) h = h

    -- The result tells of the list that the exchange showed, which passed the checks, and of both its
    -- children.
    abbrev pub IsOfList : Trade F → String → Inspection F → Type 0
    IsOfList trade list_id r =
        (cs : List (Event F)) × (response : Response OrderList) × (id : ℕ)
        × (status : ProtectionStatus) × (children : List Child) × (exchange.order_list cs list_id
            ≡ answer response)
        × (validate_order_list py (symbol_of b trade) list_id trade.protective_order_list_id
              response
            ≡ passed (id, status, children))
        × (r.order_list_id ≡ some id)
        × (r.list_client_order_id ≡ some list_id)
        × (length children ≡ 2)
        × AllInspected (symbol_of b trade) children r.children

    -- nothing is written, and protection is only reported of a list that stands untouched
    abbrev pub Reports : Trade F → Inspection F → World F → Type 0
    Reports trade r w =
        (w.store ≡ st)
        × (r.protected ≡ true
            → (list_id : String) × (truthy trade.protective_list_client_order_id ≡ some list_id)
              × IsOfList trade list_id r
              × (r.verified ≡ true)
              × (r.status ≡ "EXECUTING")
              × (all_untouched r.children ≡ true))

    inspection-Reports :
        (trade : Trade F) (c : String) (id : ℕ) (p : ProtectionStatus) (ks : List (ChildState F))
        (w : World F)
        → Same w
        → truthy trade.protective_list_client_order_id ≡ some c
        → IsOfList trade c (inspection c id p ks)
        → Reports trade (inspection c id p ks) w
    unfolding inspection
    inspection-Reports trade c id p ks w h t l =
        (h, λ e. (c, t, l, ground arith, executing p (ground arith), ground arith))
      where
        executing : (p : ProtectionStatus) → is_executing p ≡ true → status_text p ≡ "EXECUTING"
        executing ProtectionStatus.executing e = refl
        executing ProtectionStatus.submitting e = absurd cc
        executing ProtectionStatus.unknown e = absurd cc
        executing ProtectionStatus.all_done e = absurd cc
        executing ProtectionStatus.reject e = absurd cc
        executing ProtectionStatus.expired e = absurd cc
        executing ProtectionStatus.list_reconciled e = absurd cc
        executing ProtectionStatus.canceled_for_exit e = absurd cc

    inspect_list-Reports :
        (trade : Trade F) (c : String)
        → truthy trade.protective_list_client_order_id ≡ some c
        → Ensures Same (Reports trade) Same (inspect_list b trade c)
    unfolding inspect_list
    inspect_list-Reports trade c t =
        bind
          {Q = λ response w.
            Same w × ((cs : List (Event F)) × (exchange.order_list cs c ≡ answer response))}
          (answers _ _ (λ w h a cs e. (h, (cs, e))) (λ w h. h))
          λ response. bind (lift-Same _ _ λ w h. h.0) λ r. with_list response r
      where
        with_list :
            (response : Response OrderList) (r : ℕ × ProtectionStatus × List Child)
            → Ensures
                (λ w.
                  (Same w × ((cs : List (Event F)) × (exchange.order_list cs c ≡ answer response)))
                  × (validate_order_list py
                        (symbol_of b trade)
                        c
                        trade.protective_order_list_id
                        response
                      ≡ passed r))
                (Reports trade)
                Same
                (inspect_children b (symbol_of b trade) r.2 >>= λ states.
                  pure (inspection c r.0 r.1 states))
        with_list response r = record {
          at = λ w ((h, (cs, e)), v).
              (bind (inspect_children-AllInspected (symbol_of b trade) r.2) λ ks.
                  returns (inspection c r.0 r.1 ks) λ w' (h', a).
                    inspection-Reports trade c r.0 r.1 ks w' h' t (
                      cs,
                      response,
                      r.0,
                      r.1,
                      r.2,
                      e,
                      v,
                      unfold inspection in refl,
                      unfold inspection in refl,
                      validate_order_list-two py _ _ _ response r.0 r.1 r.2 v,
                      unfold inspection in a,
                    )).at
                w h;
        }

  -- Inspecting protection leaves the tables as they are, whether it returns or raises. When it reports
  -- protection, the position has a list id, the exchange's answer about that list passed the checks,
  -- that list has two children and the result exactly one state for each, in order, read from an answer
  -- about that child which passed its checks, the list is executing, and both are NEW and have executed
  -- nothing.
  pub inspect_exchange_protection-Reports :
      (trade : Trade F) (w : World F)
      → Post
          (Reports w.store trade)
          (λ w'. w'.store ≡ w.store)
          (inspect_exchange_protection b trade w)
  unfolding inspect_exchange_protection
  inspect_exchange_protection-Reports trade w =
      (inspected (truthy trade.protective_list_client_order_id) refl).at w refl
    where
      inspected :
          (o : Option String)
          → truthy trade.protective_list_client_order_id ≡ o
          → Ensures
              (λ w'. w'.store ≡ w.store)
              (Reports w.store trade)
              (λ w'. w'.store ≡ w.store)
              (elim o [ none ↦ pure missing_id | some c ↦ inspect_list b trade c ])
      inspected none t = returns _ λ w h. (h, λ e. absurd (ground arith))
      inspected (some c) t = inspect_list-Reports w.store trade c t
