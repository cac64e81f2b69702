-- ===== src/Protection/Identity.antt =====
-- What it means that the exchange's answer about a new order list was accepted
-- (app/execution/protection.py: _validate_protective_oco_response).
use binance_bot.Base.{
  ℕ, ◌≡◌, refl, String, true, false, not, ◌||◌, ◌==◌, Option, none, some, List, [], ◌∷◌, arith,
  str_eq, str_mem, if◌then◌else◌,
}
use mathlib.Core.Path.{subst, ap, sym, ◌∙◌}
use binance_bot.Storage.Rows.{ProtectionStatus}
use binance_bot.Exchange.{passed}
use binance_bot.Exchange.Answers.{
  Response, not_object, object, Child, OrderList, has_text, or_default,
}
use binance_bot.Protection.{
  list_status, positive_id, nat_mem, Expected, Seen, check_child, check_children, two_children,
  no_children, check_list, oco_expected, subset, require, kind_conflicts, first_text,
  validate_oco_response,
}
use binance_bot.Protection.Passed.{
  guard-passed, passed-inj, require-passed, held-passed, option-passed, and_then-passed,
}

abbrev pub client_of : Child → String
client_of k = or_default k.client_order_id ""

ids-differ : (i j : ℕ) (ids : List ℕ) → ids ≡ i ∷ [] → nat_mem j ids ≡ false → (i == j) ≡ false
ids-differ i j ids q u = let v = subst (λ z. nat_mem j z ≡ false) q u in ground arith

module _ (upper strip : String → String) where
  -- what is known of an accepted child
  pub record IsLeg (symbol take_id stop_id : String) (k : Child) (id : ℕ) : Type 0 where
    pub symbol_matches : has_text k.symbol symbol ≡ true
    pub id_matches : positive_id k.order_id ≡ some id
    pub client_matches : str_mem (or_default k.client_order_id "") (take_id ∷ stop_id ∷ []) ≡ true
    pub sells : kind_conflicts upper (some "SELL") (or_default k.side "") ≡ false

  child-passed :
      (symbol take_id stop_id : String) (seen seen' : Seen) (k : Child)
      → check_child upper strip (oco_expected upper strip symbol take_id stop_id) seen k
        ≡ passed seen'
      → (id : ℕ) × IsLeg symbol take_id stop_id k id
        × (seen' ≡ record {
          clients = or_default k.client_order_id "" ∷ seen.clients;
          ids = id ∷ seen.ids;
        })
        × (str_mem (or_default k.client_order_id "") seen.clients ≡ false)
        × (nat_mem id seen.ids ≡ false)
  unfolding check_child
  child-passed symbol take_id stop_id seen seen' k h =
      let client = or_default k.client_order_id "" in
      let (s, h1) = guard-passed (not (has_text k.symbol symbol)) _ _ _ h in
      let (c, h2) =
        guard-passed (not (str_mem client (take_id ∷ stop_id ∷ [])) || str_mem client seen.clients)
          _ _ _ h1 in
      let (id, i, h3) = option-passed (positive_id k.order_id) _ _ _ h2 in
      let (u, h4) = guard-passed (nat_mem id seen.ids) _ _ _ h3 in
      let (l, h5) =
        guard-passed (kind_conflicts upper (some "SELL") (or_default k.side "")) _ _ _ h4 in
      let (t, h6) =
        guard-passed
          (kind_conflicts upper
            (some (if str_eq client stop_id then "STOP_LOSS" else "LIMIT_MAKER"))
            (first_text k.kind k.orig_kind))
          _ _ _ h5 in
      (
        id,
        record {
          symbol_matches = ground arith;
          id_matches = i;
          client_matches = ground arith;
          sells = l;
        },
        passed-inj h6,
        ground arith,
        u,
      )

  -- two legs: one for profit and one for the stop
  pub record AreLegs (symbol take_id stop_id : String) (ks : Option (List (Response Child)))
      : Type 0 where
    pub first : Child
    pub second : Child
    pub first_id : ℕ
    pub second_id : ℕ
    pub both : ks ≡ some (object first ∷ object second ∷ [])
    pub first_leg : IsLeg symbol take_id stop_id first first_id
    pub second_leg : IsLeg symbol take_id stop_id second second_id
    pub ids_differ : (first_id == second_id) ≡ false
    pub all_legs : subset (take_id ∷ stop_id ∷ []) (client_of second ∷ client_of first ∷ []) ≡ true

  pub two_children-passed :
      (o : Option (List (Response Child))) (ks : List (Response Child))
      → two_children upper strip o ≡ passed ks
      → (x y : Response Child) × (o ≡ some (x ∷ y ∷ [])) × (ks ≡ x ∷ y ∷ [])
  unfolding two_children
  two_children-passed none ks h = absurd (ground arith)
  two_children-passed (some []) ks h = absurd (ground arith)
  two_children-passed (some (x ∷ [])) ks h = absurd (ground arith)
  two_children-passed (some (x ∷ y ∷ [])) ks h = (x, y, refl, passed-inj h)
  two_children-passed (some (x ∷ y ∷ z ∷ zs)) ks h = absurd (ground arith)

  legs_of_children :
      (symbol take_id stop_id : String) (x y : Response Child) (seen : Seen)
      → check_children upper strip
          (oco_expected upper strip symbol take_id stop_id)
          (no_children upper strip)
          (x ∷ y ∷ [])
        ≡ passed seen
      → subset (take_id ∷ stop_id ∷ []) seen.clients ≡ true
      → AreLegs symbol take_id stop_id (some (x ∷ y ∷ []))
  unfolding check_children
  legs_of_children symbol take_id stop_id not_object y seen h all = absurd (ground arith)
  legs_of_children symbol take_id stop_id (object k) not_object seen h all =
      let (s, e, h1) =
        and_then-passed
          (check_child upper strip (oco_expected upper strip symbol take_id stop_id)
            (no_children upper strip) k)
          _ _ h in
      absurd (ground arith)
  legs_of_children symbol take_id stop_id (object k) (object k') seen h all =
      let (s, e, h1) =
        and_then-passed
          (check_child upper strip (oco_expected upper strip symbol take_id stop_id)
            (no_children upper strip) k)
          _ _ h in
      let (s', e', h2) =
        and_then-passed
          (check_child upper strip (oco_expected upper strip symbol take_id stop_id) s k') _ _ h1 in
      let (i, leg, q, c, u) = child-passed symbol take_id stop_id (no_children upper strip) s k e in
      let (i', leg', q', c', u') = child-passed symbol take_id stop_id s s' k' e' in
      record {
        first = k;
        second = k';
        first_id = i;
        second_id = i';
        both = refl;
        first_leg = leg;
        second_leg = leg';
        ids_differ = ids-differ i i' s.ids (ap (λ z. z.ids) q) u';
        all_legs =
            subst (λ z. subset (take_id ∷ stop_id ∷ []) z ≡ true)
              (ap (λ z. z.clients) (passed-inj h2 ∙ q') ∙ ap (λ z. client_of k' ∷ z.clients) q) all;
      }

  -- what the shared part of the checks says of a list
  pub record ListFacts (symbol list_id : String) (x : Expected) (r : OrderList)
      (y : ℕ × ProtectionStatus × Seen) : Type 0 where
    pub symbol_matches : has_text r.symbol symbol ≡ true
    pub list_matches : has_text r.list_client_order_id list_id ≡ true
    pub id_matches : positive_id r.order_list_id ≡ some y.0
    pub status_matches : list_status (upper (strip (or_default r.list_order_status ""))) ≡ some y.1
    pub children : List (Response Child)
    pub two : two_children upper strip r.orders ≡ passed children
    pub checked : check_children upper strip x (no_children upper strip) children ≡ passed y.2

  pub check_list-passed :
      (symbol list_id : String) (x : Expected) (r : OrderList) (y : ℕ × ProtectionStatus × Seen)
      → check_list upper strip symbol list_id x r ≡ passed y
      → ListFacts symbol list_id x r y
  unfolding check_list
  check_list-passed symbol list_id x r y h =
      let (s, h1) = guard-passed (not (has_text r.symbol symbol)) _ _ _ h in
      let (l, h2) = guard-passed (not (has_text r.list_client_order_id list_id)) _ _ _ h1 in
      let (i, a, h3) = and_then-passed (require (positive_id r.order_list_id) _) _ _ h2 in
      let (p, c, h4) =
        and_then-passed
          (require (list_status (upper (strip (or_default r.list_order_status "")))) _) _ _ h3 in
      let (ks, t, h5) = and_then-passed (two_children upper strip r.orders) _ _ h4 in
      let (seen, k, h6) =
        and_then-passed (check_children upper strip x (no_children upper strip) ks) _ _ h5 in
      subst (ListFacts symbol list_id x r) (passed-inj (sym h6)) (record {
        symbol_matches = ground arith;
        list_matches = ground arith;
        id_matches = require-passed _ _ _ a;
        status_matches = require-passed _ _ _ c;
        children = ks;
        two = t;
        checked = k;
      })

  -- what an accepted answer says of the list
  pub record IsAccepted (symbol list_id take_id stop_id : String) (r : OrderList) (id : ℕ)
      (status : ProtectionStatus) : Type 0 where
    pub symbol_matches : has_text r.symbol symbol ≡ true
    pub list_matches : has_text r.list_client_order_id list_id ≡ true
    pub id_matches : positive_id r.order_list_id ≡ some id
    pub status_matches :
        list_status (upper (strip (or_default r.list_order_status ""))) ≡ some status
    pub legs : AreLegs symbol take_id stop_id r.orders

  accepted :
      (symbol list_id take_id stop_id : String) (r : OrderList) (x : ℕ × ProtectionStatus × Seen)
      (id : ℕ) (status : ProtectionStatus)
      → ListFacts symbol list_id (oco_expected upper strip symbol take_id stop_id) r x
      → subset (take_id ∷ stop_id ∷ []) x.2.clients ≡ true
      → ◌≡◌ {A = ℕ × ProtectionStatus} (x.0, x.1) (id, status)
      → IsAccepted symbol list_id take_id stop_id r id status
  accepted symbol list_id take_id stop_id r x id status f all q =
      let (a, c, o, k) = two_children-passed r.orders f.children f.two in
      record {
        symbol_matches = f.symbol_matches;
        list_matches = f.list_matches;
        id_matches = f.id_matches ∙ ap (λ z. some z.0) q;
        status_matches = f.status_matches ∙ ap (λ z. some z.1) q;
        legs = subst (AreLegs symbol take_id stop_id) (sym o) (
            legs_of_children symbol take_id stop_id a c x.2
              (subst
                (λ z.
                  check_children upper strip (oco_expected upper strip symbol take_id stop_id)
                    (no_children upper strip) z
                  ≡ passed x.2)
                k f.checked)
              all);
      }

  -- An answer that is accepted as a new order list is an object of our symbol and list id, with a
  -- positive id, a known status, and exactly two children of our symbol with distinct positive ids,
  -- which are not purchases and whose client ids are the two that were asked for.
  pub validate_oco_response-passed :
      (symbol list_id take_id stop_id : String) (response : Response OrderList) (id : ℕ)
      (status : ProtectionStatus)
      → validate_oco_response upper strip symbol response list_id take_id stop_id
        ≡ passed (id, status)
      → (r : OrderList) × (response ≡ object r)
        × IsAccepted symbol list_id take_id stop_id r id status
  unfolding validate_oco_response
  validate_oco_response-passed symbol list_id take_id stop_id not_object id status h =
      absurd (ground arith)
  validate_oco_response-passed symbol list_id take_id stop_id (object r) id status h =
      let (x, e, h1) =
        and_then-passed
          (check_list upper strip symbol list_id (oco_expected upper strip symbol take_id stop_id)
            r)
          _ _ h in
      let (all, q) = held-passed (subset (take_id ∷ stop_id ∷ []) x.2.clients) _ _ _ h1 in
      (
        r,
        refl,
        accepted symbol list_id take_id stop_id r x id status
            (check_list-passed symbol list_id _ r x e) all q,
      )
