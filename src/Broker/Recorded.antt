-- ===== src/Broker/Recorded.antt =====
-- A market order is requested only after its intent is stored, and once
-- (app/execution/broker.py: _submit_market_order).
use binance_bot.Base.{
  ℕ, ◌≡◌, refl, String, Bool, true, false, Option, none, some, List, ◌∷◌, any, str_eq,
  if◌then◌else◌,
}
use binance_bot.Base.Float.{Float}
use binance_bot.Storage.Rows.{Store, open_for}
use binance_bot.Storage.Rules.{Atoms}
use binance_bot.Storage.Keeps.{record_order_intent-Keeps}
use binance_bot.Storage.Orders.{OrderUpdate, record_order_intent, update_order_record}
use binance_bot.Storage.Pending.{is_waiting, record_order_intent-waiting, record_order_intent-side}
use binance_bot.Exchange.{Checked, passed, raised}
use binance_bot.Exchange.Answers.{Order, Bot}
use binance_bot.Act.{Event, Act, World, send_order, db, ◌>>=◌}
use binance_bot.Act.Rules.{Ensures, bind, try, guards, asks, weaken}
use binance_bot.Act.Steady.{
  Steady, Both, Steady-bind, Steady-pure, Steady-fail, Steady-observes, Steady-need, Steady-fail_if,
  Steady-ask, Steady-db, db-leaves,
}
use binance_bot.Broker.{
  market_order, get_order, mark_unknown, block_resubmission, place_order, accept_order,
  submit_recorded, submit_market_order,
}
use binance_bot.Protection.Listing.{Listing}

-- at most one step from `Q` to `Q'`
pub record Advances {F A : Type 0} (I : Store F → Type 0) (Q Q' : List (Event F) → Type 0)
    (m : Act F A) : Type 0 where
  pub moves : Ensures (Both I Q) (λ _. Both I Q') (Both I Q') m

-- the invariant of the requests before an order, and the one after it
pub record Ordering {F D : Type 0} (b : Bot F D) (I : Store F → Type 0)
    (Q Q' : List (Event F) → Type 0) : Type 0 where
  pub first : Listing I Q
  pub then_on : Listing I Q'
  pub later : (cs : List (Event F)) → Q cs → Q' cs
  pub ordered :
      (side : String) (qty : F) (c : String) (s : Store F) (cs : List (Event F))
      → any (is_waiting b.settings.mode b.settings.symbol c) s.orders ≡ true
      → any (open_for b.settings.mode b.settings.symbol) s.trades ≡ str_eq side "SELL"
      → I s
      → Q cs
      → Q' (record { call = send_order b.settings.symbol side qty c; before = s } ∷ cs)

module _ {F : Type 0} {I : Store F → Type 0} {Q Q' : List (Event F) → Type 0} where
  pub advance-after :
      {A B : Type 0} (m : Act F A) (f : A → Act F B)
      → Steady I Q m
      → ((cs : List (Event F)) → Q cs → Q' cs)
      → ((a : A) → Advances I Q Q' (f a))
      → Advances I Q Q' (m >>= f)
  advance-after m f h up k = record {
    moves =
        bind (weaken (λ w p. p) (λ a w p. p) (λ w p. (p.0, up w.calls p.1)) h.kept)
          λ a. (k a).moves;
  }

  pub advance-then :
      {A B : Type 0} (m : Act F A) (f : A → Act F B)
      → Advances I Q Q' m
      → ((a : A) → Steady I Q' (f a))
      → Advances I Q Q' (m >>= f)
  advance-then m f h k = record { moves = bind h.moves λ a. (k a).kept }

  pub advance-stay :
      {A : Type 0} (m : Act F A)
      → Steady I Q m
      → ((cs : List (Event F)) → Q cs → Q' cs)
      → Advances I Q Q' m
  advance-stay m h up = record {
    moves =
        weaken (λ w p. p) (λ a w p. (p.0, up w.calls p.1)) (λ w p. (p.0, up w.calls p.1)) h.kept;
  }

  pub advance-if :
      {A : Type 0} (b : Bool) (m n : Act F A)
      → Advances I Q Q' m
      → Advances I Q Q' n
      → Advances I Q Q' (if b then m else n)
  advance-if true m n h k = h
  advance-if false m n h k = k

  pub advance-option :
      {A B : Type 0} (o : Option A) (m : Act F B) (n : A → Act F B)
      → Advances I Q Q' m
      → ((a : A) → Advances I Q Q' (n a))
      → Advances I Q Q' (elim o [ none ↦ m | some a ↦ n a ])
  advance-option none m n h k = h
  advance-option (some a) m n h k = k a

  pub advance-checked :
      {A B : Type 0} (r : Checked A) (n : String → Act F B) (m : A → Act F B)
      → ((e : String) → Advances I Q Q' (n e))
      → ((x : A) → Advances I Q Q' (m x))
      → Advances I Q Q' (elim r [ raised e ↦ n e | passed x ↦ m x ])
  advance-checked (passed x) n m h k = k x
  advance-checked (raised e) n m h k = h e

module _ {F D : Type 0} ⦃fl : Float F⦄ ⦃dl : Float D⦄ (b : Bot F D) {I : Store F → Type 0}
    {Q Q' : List (Event F) → Type 0} (a : Atoms I) (l : Ordering b I Q Q') where
  -- the intent is stored
  abbrev Stored : String → String → World F → Type 0
  Stored side c w =
      (any (is_waiting b.settings.mode b.settings.symbol c) w.store.orders ≡ true)
      × (any (open_for b.settings.mode b.settings.symbol) w.store.trades ≡ str_eq side "SELL")

  abbrev Intended : String → String → World F → Type 0
  Intended side c w = Both I Q w × Stored side c w

  up : (w : World F) → Both I Q w → Both I Q' w
  up w p = (p.0, l.later w.calls p.1)

  market_order-Recorded :
      (side c : String) (qty : F)
      → Ensures (Intended side c) (λ _. Both I Q') (Both I Q') (market_order b side qty c)
  unfolding market_order
  market_order-Recorded side c qty = bind (guards _ _ λ w p. up w p.0) λ _.
      bind (guards _ _ λ w p. up w p.0.0) λ _. bind (guards _ _ λ w p. up w p.0.0.0) λ _.
        bind {Q = λ t. Intended side c}
          (asks _ _
            (λ w p t.
              ((p.0.0.0.0.0, l.first.still.quiet _ w.store w.calls refl p.0.0.0.0.1), p.0.0.0.1))
            (λ w p. (
              p.0.0.0.0.0,
              l.then_on.still.quiet _ w.store w.calls refl (l.later w.calls p.0.0.0.0.1),
            )))
          λ t.
            bind (guards _ _ λ w p. up w p.0)
              λ _. asks _ _ (λ w p r. sent w p.0) (λ w p. sent w p.0)
    where
      sent :
          (w : World F)
          → Intended side c w
          → Both I Q' (record w {
            calls =
                record { call = send_order b.settings.symbol side qty c; before = w.store }
                ∷ w.calls;
          })
      sent w p = (p.0.0, l.ordered side qty c w.store w.calls p.1.0 p.1.1 p.0.0 p.0.1)

  update-Steady :
      (c : String) (u : OrderUpdate F) (now : ℕ) → Steady I Q' (db (update_order_record c u now))
  update-Steady c u now = Steady-db _ (a.updated c u now)

  block_resubmission-Steady : (c : String) (e : _) → Steady I Q' (block_resubmission b c e)
  unfolding block_resubmission mark_unknown
  block_resubmission-Steady c e = search (Steady-bind, Steady-observes, update-Steady, Steady-fail)

  place_order-Recorded :
      (side c : String) (qty : F)
      → Ensures (Intended side c) (λ _. Both I Q') (Both I Q') (place_order b side qty c)
  unfolding place_order get_order
  place_order-Recorded side c qty = try (market_order-Recorded side c qty) λ e.
      try (Steady-ask l.then_on.still _ _ refl).kept λ e'. (block_resubmission-Steady c e').kept

  accept_order-Steady :
      (side c : String) (qty : F) (o : Order F) → Steady I Q' (accept_order b side qty c o)
  unfolding accept_order
  accept_order-Steady side c qty o =
      search
        (
          Steady-bind,
          Steady-fail_if,
          Steady-need,
          Steady-ask l.then_on.still,
          Steady-observes,
          update-Steady,
          Steady-pure,
        )
        depth 16

  submit_recorded-Recorded :
      (side c : String) (qty : F)
      → Ensures (Intended side c) (λ _. Both I Q') (Both I Q') (submit_recorded b side qty c)
  unfolding submit_recorded
  submit_recorded-Recorded side c qty =
      bind (place_order-Recorded side c qty)
        λ r. (Steady-bind _ _ (Steady-need _ _) λ o. accept_order-Steady side c qty o).kept

  intent-Intended :
      (side c : String) (qty : F) (now : ℕ)
      → Ensures
          (Both I Q)
          (λ _. Intended side c)
          (Both I Q)
          (db (record_order_intent b.settings.mode b.settings.symbol c side qty now))
  intent-Intended side c qty now =
      db-leaves I Q (λ _. Stored side c) _ (record_order_intent-Keeps a _ _ _ _ _ _)
        λ w u e. (
          record_order_intent-waiting b.settings.mode b.settings.symbol c side qty now w.store u e,
          record_order_intent-side b.settings.mode b.settings.symbol c side qty now w.store u e,
        )

  pub submit_market_order-Advances :
      (side : String) (qty : F) → Advances I Q Q' (submit_market_order b side qty)
  unfolding submit_market_order
  submit_market_order-Advances side qty = advance-after _ _ (Steady-observes _) l.later λ c.
      advance-after _ _ (Steady-observes _) l.later λ now. record {
        moves =
            bind (weaken (λ w p. p) (λ r w p. p) up (intent-Intended side c qty now))
              λ r. submit_recorded-Recorded side c qty;
      }
