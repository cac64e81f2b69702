-- ===== src/Protection/Listing.antt =====
-- An order list is requested only after its id is stored with the open position
-- (app/execution/protection.py: _place_exchange_protection and _rearm_terminal_protection).
use binance_bot.Base.{ℕ, ◌≡◌, refl, String, true, not, Option, none, some, List, ◌∷◌, arith, any}
use binance_bot.Base.Float.{Float}
use binance_bot.Config.{Settings, is_exchange}
use binance_bot.Storage.Rows.{Store, Trade, ProtectionStatus}
use binance_bot.Storage.Rules.{Atoms}
use binance_bot.Storage.Keeps.{set_trade_protection-Keeps, clear_trade_protection-Keeps}
use binance_bot.Storage.Listed.{awaits_list, set_trade_protection-awaits_list}
use binance_bot.Storage.Trades.{set_trade_protection}
use binance_bot.Exchange.{OcoOrder, Checked, passed, raised, place_protective_oco}
use binance_bot.Exchange.Answers.{Bot}
use binance_bot.Act.{Event, World, send_oco, db}
use binance_bot.Act.Rules.{Ensures, bind, try, raises, asks}
use binance_bot.Act.Steady.{
  Quiet, Steady, Both, Steady-bind, Steady-catch, Steady-pure, Steady-reads, Steady-observes,
  Steady-fail_if, Steady-if, Steady-option, Steady-ask, Steady-db, db-leaves,
}
use binance_bot.Protection.Fill.{ProtectiveFill, truthy, is_executing}
use binance_bot.Protection.Placement.{
  ProtectionIds, Continuation, request_oco, send_list, submit_list, settle_terminal, settle_list,
  place_new, place_with, give_up, replace_protection, rearm_open, rearm_terminal_protection,
  place_exchange_protection,
}
use binance_bot.Protection.Quiet.{lift-Steady, mark_fail-Steady, protective_fill-Steady}

-- requests for lists whose id the tables hold keep the invariant of the requests, too
pub record Listing {F : Type 0} (I : Store F → Type 0) (Q : List (Event F) → Type 0) : Type 0 where
  pub still : Quiet I Q
  pub listed :
      (o : OcoOrder F) (s : Store F) (cs : List (Event F))
      → any (awaits_list o.list_client_order_id) s.trades ≡ true
      → I s
      → Q cs
      → Q (record { call = send_oco o; before = s } ∷ cs)

place_protective_oco-list_id :
    {F : Type 0} ⦃fl : Float F⦄ (c : Settings F) (symbol : String) (q t s : F)
    (list take stop : String) (o : OcoOrder F)
    → place_protective_oco c symbol q t s list take stop ≡ passed o
    → o.list_client_order_id ≡ list
unfolding place_protective_oco
place_protective_oco-list_id c symbol q t s list take stop o h = ground arith

module _ {F D : Type 0} ⦃fl : Float F⦄ ⦃dl : Float D⦄ (b : Bot F D) {I : Store F → Type 0}
    {Q : List (Event F) → Type 0} (a : Atoms I) (l : Listing I Q) where
  -- the invariants, and the list's id in the tables
  abbrev Awaits : String → World F → Type 0
  Awaits c w = Both I Q w × (any (awaits_list c) w.store.trades ≡ true)

  request_oco-Listed :
      (c : String) (r : Checked (OcoOrder F))
      → ((o : OcoOrder F) → r ≡ passed o → o.list_client_order_id ≡ c)
      → Ensures (Awaits c) (λ _. Both I Q) (Both I Q) (request_oco b r)
  unfolding request_oco
  request_oco-Listed c (raised e) h = raises e λ w p. p.0
  request_oco-Listed c (passed o) h =
      asks _ _ (λ w p a. (p.0.0, l.listed o w.store w.calls (rw (h o refl) p.1) p.0.0 p.0.1))
        (λ w p. (p.0.0, l.listed o w.store w.calls (rw (h o refl) p.1) p.0.0 p.0.1))

  send_list-Listed :
      (trade : Trade F) (ids : ProtectionIds)
      → Ensures (Awaits ids.list_id) (λ _. Both I Q) (Both I Q) (send_list b trade ids)
  unfolding send_list
  send_list-Listed trade ids = request_oco-Listed ids.list_id _ (
      place_protective_oco-list_id b.settings b.settings.symbol trade.quantity
        trade.take_profit_price trade.stop_price ids.list_id ids.take_id ids.stop_id)

  submit_list-Listed :
      (trade : Trade F) (ids : ProtectionIds)
      → Ensures (Awaits ids.list_id) (λ _. Both I Q) (Both I Q) (submit_list b trade ids)
  unfolding submit_list
  submit_list-Listed trade ids = try {S = Both I Q} (send_list-Listed trade ids) λ e.
      try {S = Both I Q} (Steady-ask l.still _ _ refl).kept
        λ e'. (mark_fail-Steady b a l.still _ _ _ _).kept

  -- what follows a terminal list
  abbrev Follows : Continuation F → Type 0
  Follows after =
      (c : String) (o : Option String) (t : Trade F) (f : Option (ProtectiveFill F))
      → Steady I Q (after c o t f)

  settle_terminal-Steady :
      (after : Continuation F) (k : Follows after) (trade : Trade F) (c : String)
      (o : Option String) (p : ProtectionStatus)
      → Steady I Q (settle_terminal b after trade c o p)
  unfolding settle_terminal
  settle_terminal-Steady after k trade c o p = Steady-bind _ _ (Steady-reads _) λ persisted.
      Steady-bind _ _
        (Steady-catch _ _
          (Steady-option persisted _ _ (Steady-pure none) (protective_fill-Steady b a l.still))
          λ e. mark_fail-Steady b a l.still _ _ _ _)
        λ fill.
          Steady-bind _ _ (Steady-reads _)
            λ refreshed. Steady-option refreshed _ _ (Steady-pure _) λ t. k c o t fill

  settle_list-Steady :
      (after : Continuation F) (k : Follows after) (trade : Trade F) (ids : ProtectionIds)
      (r : ℕ × ProtectionStatus)
      → Steady I Q (settle_list b after trade ids r)
  unfolding settle_list
  settle_list-Steady after k trade ids (id, status) =
      Steady-bind _ _ (Steady-db _ (set_trade_protection-Keeps a _ _ _ _)) λ r.
        Steady-if (is_executing status) _ _ (Steady-pure _)
          (settle_terminal-Steady after k trade _ _ _)

  store_identity-Awaits :
      (i : ℕ) (c : String)
      → Ensures
          (Both I Q)
          (λ r. Awaits c)
          (Both I Q)
          (db (set_trade_protection i none (some c) ProtectionStatus.submitting))
  store_identity-Awaits i c =
      db-leaves I Q (λ r w. any (awaits_list c) w.store.trades ≡ true) _
        (set_trade_protection-Keeps a _ _ _ _)
        λ w r e. set_trade_protection-awaits_list i c w.store r e

  place_new-Steady :
      (after : Continuation F)
      → Follows after
      → (trade : Trade F) → Steady I Q (place_new b after trade)
  unfolding place_new
  place_new-Steady after k trade = record {
    kept = bind {Q = λ ids. Both I Q} (Steady-observes _).kept λ ids.
        bind {Q = λ r. Awaits ids.list_id} (store_identity-Awaits trade.id ids.list_id) λ r.
          bind {Q = λ r. Both I Q} (submit_list-Listed trade ids) λ response.
            bind {Q = λ r. Both I Q}
              (Steady-catch _ _ (lift-Steady b a l.still _)
                λ e. mark_fail-Steady b a l.still _ _ _ _).kept
              λ r. (settle_list-Steady after k trade ids r).kept;
  }

  place_with-Steady :
      (after : Continuation F)
      → Follows after
      → (trade : Trade F) → Steady I Q (place_with b after trade)
  unfolding place_with
  place_with-Steady after k trade =
      Steady-if (not (is_exchange b.settings.mode)) _ _ (Steady-pure _) (
        Steady-option (truthy trade.protective_list_client_order_id) _ _
          (place_new-Steady after k trade) λ c. Steady-pure _)

  give_up-Steady : Follows (give_up b)
  unfolding give_up
  give_up-Steady c o t f = mark_fail-Steady b a l.still _ _ _ _

  replace_protection-Steady : (trade : Trade F) → Steady I Q (replace_protection b trade)
  unfolding replace_protection
  replace_protection-Steady trade = place_with-Steady (give_up b) give_up-Steady trade

  rearm_open-Steady : (t : Trade F) (f : Option (ProtectiveFill F)) → Steady I Q (rearm_open b t f)
  unfolding rearm_open
  rearm_open-Steady t f =
      search (Steady-bind, replace_protection-Steady, Steady-reads, Steady-fail_if, Steady-pure)

  pub rearm_terminal_protection-Steady :
      (trade : Trade F) (f : Option (ProtectiveFill F))
      → Steady I Q (rearm_terminal_protection b trade f)
  unfolding rearm_terminal_protection
  rearm_terminal_protection-Steady trade f = Steady-bind _ _ (Steady-fail_if _ _) λ u.
      Steady-bind _ _ (Steady-db _ (clear_trade_protection-Keeps a _ _)) λ u'.
        Steady-bind _ _ (Steady-reads _)
          λ refreshed. Steady-option refreshed _ _ (Steady-pure _) λ t. rearm_open-Steady t f

  pub place_exchange_protection-Steady :
      (trade : Trade F) → Steady I Q (place_exchange_protection b trade)
  unfolding place_exchange_protection
  place_exchange_protection-Steady trade =
      place_with-Steady _ (λ c o t f. rearm_terminal_protection-Steady t f) trade
