-- ===== src/Protection/Children.antt =====
-- A stored order list that passes its check has two legs
-- (app/execution/protection.py: _validate_protective_order_list).
use binance_bot.Base.{ℕ, ◌≡◌, refl, String, Option, none, some, List, [], ◌∷◌, arith, length}
use mathlib.Core.Path.{ap, sym, ◌∙◌}
use binance_bot.Storage.Rows.{ProtectionStatus}
use binance_bot.Exchange.{passed}
use binance_bot.Exchange.Answers.{Response, not_object, object, Child, OrderList, Py}
use binance_bot.Protection.{
  Expected, Seen, check_child, check_children, no_children, check_list, list_expected, token_after,
  children_of, objects, stored_conflicts, legs_missing, validate_order_list,
}
use binance_bot.Protection.Passed.{guard-passed, passed-inj, and_then-passed}
use binance_bot.Protection.Identity.{check_list-passed, two_children-passed}

module _ {F D : Type 0} (py : Py F D) where
  open py use {upper, strip}

  check_children-objects :
      (x : Expected) (seen seen' : Seen) (ks : List (Response Child))
      → check_children upper strip x seen ks ≡ passed seen'
      → length (objects py ks) ≡ length ks
  unfolding check_children
  check_children-objects x seen seen' [] h = refl
  check_children-objects x seen seen' (not_object ∷ ks) h = absurd (ground arith)
  check_children-objects x seen seen' (object k ∷ ks) h =
      let (s, e, h1) = and_then-passed (check_child upper strip x seen k) _ _ h in
      let rest = check_children-objects x s seen' ks h1 in omega arith

  check_list-two :
      (symbol list_id : String) (x : Expected) (r : OrderList) (y : ℕ × ProtectionStatus × Seen)
      → check_list upper strip symbol list_id x r ≡ passed y
      → length (children_of py r) ≡ 2
  check_list-two symbol list_id x r y h =
      let f = check_list-passed upper strip symbol list_id x r y h in
      let (a, c, o, k) = two_children-passed upper strip r.orders f.children f.two in
      let n = check_children-objects x (no_children upper strip) y.2 f.children f.checked in
      ap
        (λ (z : Option (List (Response Child))).
          length (elim z [ none ↦ [] | some ks ↦ objects py ks ]))
        o
      ∙ ap (λ z. length (objects py z)) (sym k)
      ∙ n
      ∙ ap length k

  -- The children that the check hands on are two.
  pub validate_order_list-two :
      (symbol list_id : String) (stored : Option String) (response : Response OrderList) (id : ℕ)
      (status : ProtectionStatus) (children : List Child)
      → validate_order_list py symbol list_id stored response ≡ passed (id, status, children)
      → length children ≡ 2
  unfolding validate_order_list
  validate_order_list-two symbol list_id stored not_object id status children h =
      absurd (ground arith)
  validate_order_list-two symbol list_id stored (object r) id status children h =
      let token = token_after py "agt-prot-" list_id in
      let (y, e, h1) =
        and_then-passed (check_list upper strip symbol list_id (list_expected py symbol token) r) _
          _ h in
      let (c, h2) = guard-passed (stored_conflicts py stored y.0) _ _ _ h1 in
      let (l, h3) = guard-passed (legs_missing py token y.2.clients) _ _ _ h2 in
      ap (λ (z : ℕ × ProtectionStatus × List Child). length z.2) (passed-inj h3)
      ∙ check_list-two symbol list_id (list_expected py symbol token) r y e
