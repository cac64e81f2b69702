-- ===== src/Protection/Shown.antt =====
-- A placement that reports protection is backed by the tables (app/execution/protection.py:
-- _place_exchange_protection and _rearm_terminal_protection).
use mathlib.Core.Path.{subst, sym}
use binance_bot.Base.{
  ℕ, ◌≡◌, refl, String, Bool, true, false, not, ◌&&◌, Option, none, some, arith, any, find_sound,
  eq_refl,
}
use binance_bot.Base.Float.{Float}
use binance_bot.Config.{Mode, is_exchange}
use binance_bot.Storage.Rows.{Trade, ProtectionStatus, is_open, open_with_id, open_for, opt_str_eq}
use binance_bot.Storage.Trades.{get_open_trade, write_identity}
use binance_bot.Storage.Listed.{set_trade_protection-any, any-of_find-where}
use binance_bot.Exchange.Answers.{Bot}
use binance_bot.Act.{World, done, pure}
use binance_bot.Act.Rules.{
  Any, anyhow, Post, Ensures, bind, returns, raises, either, looks, calls_db, guards, weaken,
}
use binance_bot.Protection.Fill.{ProtectiveFill, truthy, is_executing, mark_fail}
use binance_bot.Protection.Placement.{
  Placement, ProtectionIds, Continuation, opt_is_executing, open_trade_of, with_fill,
  settle_terminal, settle_list, place_new, place_with, give_up, replace_protection, rearm_open,
  rearm_terminal_protection, place_exchange_protection, existing_placement, listed_placement,
  unprotected, status_text,
}

truthy-some : (o : Option String) (c : String) → truthy o ≡ some c → o ≡ some c
truthy-some none c h = absurd (ground arith)
truthy-some (some t) c h = ground arith

module _ {F : Type 0} where
  -- an open position with this active list
  abbrev pub backs : Option String → Trade F → Bool
  backs c t =
      is_open t.status
      && (opt_is_executing t.protection_status && opt_str_eq t.protective_list_client_order_id c)

  -- what a placement claims of the tables
  abbrev pub Backed : Placement F → World F → Type 0
  Backed p w = p.protected ≡ true → any (backs p.list_client_order_id) w.store.trades ≡ true

  write_identity-backs :
      (i : ℕ) (fresh : Bool) (l : Option String) (c : String) (p : ProtectionStatus) (t : Trade F)
      → is_executing p ≡ true
      → open_with_id i t ≡ true
      → backs (some c) (write_identity fresh l (some c) p t) ≡ true
  write_identity-backs i true l c p t e h = rw (eq_refl c) ground arith
  write_identity-backs i false l c p t e h = rw (eq_refl c) ground arith

  Backed-with_fill :
      (f : Option (ProtectiveFill F)) (p : Placement F) (w : World F)
      → Backed p w
      → Backed (with_fill f p) w
  Backed-with_fill none p w h = h
  Backed-with_fill (some f) p w h = h

  row-backs :
      (t : Trade F) (c : String)
      → t.protective_list_client_order_id ≡ some c
      → is_open t.status ≡ true
      → opt_is_executing t.protection_status ≡ true
      → backs (some c) t ≡ true
  row-backs t c e o x = rw (e, o, x) (eq_refl c)

  -- the position's own row backs what was read of it
  existing_placement-Backed :
      (m : Mode) (s c : String) (trade : Trade F) (w : World F)
      → get_open_trade s m w.store ≡ some trade
      → truthy trade.protective_list_client_order_id ≡ some c
      → Backed (existing_placement trade c) w
  unfolding existing_placement get_open_trade
  existing_placement-Backed m s c trade w h k p =
      any-of_find-where (open_for m s) (backs (some c)) w.store.trades trade h (
        row-backs trade c (truthy-some trade.protective_list_client_order_id c k)
          (ground (arith, find_sound (open_for m s) w.store.trades trade h)) (ground arith))

module _ {F D : Type 0} ⦃fl : Float F⦄ ⦃dl : Float D⦄ (b : Bot F D) where
  -- the position as the tables have it
  abbrev Current : Trade F → World F → Type 0
  Current t w = open_trade_of b w.store ≡ some t

  -- what follows a terminal list
  abbrev Follows : Continuation F → Type 0
  Follows after =
      (c : String) (o : Option String) (t : Trade F) (f : Option (ProtectiveFill F))
      → Ensures (Current t) Backed Any (after c o t f)

  mark_fail-Backed :
      (i : ℕ) (l : Option String) (c e : String) {P : World F → Type 0}
      → Ensures P Backed Any (mark_fail b i l c e)
  unfolding mark_fail
  mark_fail-Backed i l c e = bind (anyhow _) λ r. raises _ λ w p. tt

  settle_terminal-Backed :
      (after : Continuation F)
      → Follows after
      → (trade : Trade F) (c : String) (o : Option String) (p : ProtectionStatus)
      → Ensures Any Backed Any (settle_terminal b after trade c o p)
  unfolding settle_terminal
  settle_terminal-Backed after k trade c o p =
      bind (anyhow _)
        λ persisted. bind (anyhow _) λ fill. bind (looks _) λ refreshed. settled refreshed fill
    where
      settled :
          (r : Option (Trade F)) (fill : Option (ProtectiveFill F))
          → Ensures
              (λ w. Any w × (r ≡ open_trade_of b w.store))
              Backed
              Any
              (elim r [
                | none ↦ pure (listed_placement false (status_text p) c o fill)
                | some t ↦ after c o t fill
              ])
      settled none fill = returns _ λ w h e. absurd (ground arith)
      settled (some t) fill = weaken (λ w h. sym h.1) (λ r w h. h) (λ w h. h) (k c o t fill)

  settle_list-Backed :
      (after : Continuation F)
      → Follows after
      → (trade : Trade F) (ids : ProtectionIds) (r : ℕ × ProtectionStatus)
      → Ensures Any Backed Any (settle_list b after trade ids r)
  unfolding settle_list
  settle_list-Backed after k trade ids (id, status) =
      bind
        {Q = λ u w.
          is_executing status ≡ true → any (backs (some ids.list_id)) w.store.trades ≡ true}
        (calls_db _
          (λ w h u e x.
            set_trade_protection-any (backs (some ids.list_id)) trade.id _ (some ids.list_id) status
              (λ fresh t q. write_identity-backs trade.id fresh _ ids.list_id status t x q) w.store
              u e)
          (λ w h e x. tt))
        λ u. either (is_executing status) (returns _ λ w h e. h.0 h.1) (
          weaken (λ w h. tt) (λ r w h. h) (λ w h. h)
            (settle_terminal-Backed after k trade ids.list_id _ status))

  place_new-Backed :
      (after : Continuation F)
      → Follows after
      → (trade : Trade F) → Ensures (Current trade) Backed Any (place_new b after trade)
  unfolding place_new
  place_new-Backed after k trade = bind (anyhow _) λ ids. bind (anyhow _) λ u.
      bind (anyhow _)
        λ response. bind (anyhow _) λ accepted. settle_list-Backed after k trade ids accepted

  place_with-Backed :
      (after : Continuation F)
      → Follows after
      → (trade : Trade F) → Ensures (Current trade) Backed Any (place_with b after trade)
  unfolding place_with
  place_with-Backed after k trade =
      either (not (is_exchange b.settings.mode))
        (returns (unprotected "NOT_APPLICABLE" none) λ w h e. absurd (ground arith))
        (weaken (λ w h. h.0) (λ r w h. h) (λ w h. h)
          (listed (truthy trade.protective_list_client_order_id) refl))
    where
      listed :
          (o : Option String)
          → truthy trade.protective_list_client_order_id ≡ o
          → Ensures (Current trade) Backed Any (elim o [
            | some c ↦ pure (existing_placement trade c)
            | none ↦ place_new b after trade
          ])
      listed none e = place_new-Backed after k trade
      listed (some c) e =
          returns _ λ w h. existing_placement-Backed b.settings.mode b.settings.symbol c trade w h e

  give_up-Backed : Follows (give_up b)
  unfolding give_up
  give_up-Backed c o t f = mark_fail-Backed _ _ _ _

  rearm_open-Backed :
      (t : Trade F) (f : Option (ProtectiveFill F))
      → Ensures (Current t) Backed Any (rearm_open b t f)
  unfolding rearm_open replace_protection
  rearm_open-Backed t f = bind (place_with-Backed (give_up b) give_up-Backed t) λ placed.
      bind (looks _)
        λ still. bind (guards _ _ λ w h. tt) λ u. returns _ λ w h. Backed-with_fill f placed w h.0.0

  rearm_terminal_protection-Backed :
      (trade : Trade F) (f : Option (ProtectiveFill F)) {P : World F → Type 0}
      → Ensures P Backed Any (rearm_terminal_protection b trade f)
  unfolding rearm_terminal_protection
  rearm_terminal_protection-Backed trade f =
      bind (anyhow _) λ u. bind (anyhow _) λ u'. bind (looks _) λ refreshed. rearmed refreshed
    where
      rearmed :
          (r : Option (Trade F))
          → Ensures
              (λ w. Any w × (r ≡ open_trade_of b w.store))
              Backed
              Any
              (elim r [ none ↦ pure (unprotected "POSITION_CLOSED" f) | some t ↦ rearm_open b t f ])
      rearmed none = returns _ λ w h e. absurd (ground arith)
      rearmed (some t) = weaken (λ w h. sym h.1) (λ r w h. h) (λ w h. h) (rearm_open-Backed t f)

  -- When placing protection for the open position returns that it is protected, the tables have an
  -- open position with that list, and the list is executing.
  pub place_exchange_protection-protected :
      (trade : Trade F) (w w' : World F) (p : Placement F)
      → open_trade_of b w.store ≡ some trade
      → place_exchange_protection b trade w ≡ (done p, w')
      → p.protected ≡ true
      → any (backs p.list_client_order_id) w'.store.trades ≡ true
  unfolding place_exchange_protection
  place_exchange_protection-protected trade w w' p h e =
      subst (Post Backed Any) e
        ((place_with-Backed _ (λ c o t f. rearm_terminal_protection-Backed t f) trade).at w h)
