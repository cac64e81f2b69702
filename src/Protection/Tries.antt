-- ===== src/Protection/Tries.antt =====
-- Placing protection requests at most two order lists, whatever the exchange answers
-- (app/execution/protection.py: _place_exchange_protection and _rearm_terminal_protection, which call
-- each other).
use binance_bot.Base.{
  ℕ, suc, ◌+◌, ◌≤◌, ◌≡◌, refl, String, Bool, true, false, not, Option, none, some, List, arith,
  count_where,
}
use binance_bot.Base.Float.{Float}
use binance_bot.Config.{is_exchange}
use binance_bot.Storage.Rows.{Trade, ProtectionStatus}
use binance_bot.Storage.Keeps.{set_trade_protection-Keeps, clear_trade_protection-Keeps}
use binance_bot.Exchange.{OcoOrder, Checked, passed, raised}
use binance_bot.Exchange.Answers.{Bot}
use binance_bot.Act.{
  Event, Act, World, Outcome, done, failed, Call, send_order, send_oco, ask_order, ask_order_list,
  cancel_list, ask_fills, ask_account, ask_market, ◌>>=◌,
}
use binance_bot.Act.Rules.{Post, Ensures, bind, try, raises, asks, either, weaken}
use binance_bot.Act.Steady.{
  Quiet, Steady, Both, is_quiet, Steady-bind, Steady-catch, Steady-pure, Steady-reads,
  Steady-observes, Steady-fail_if, Steady-option, Steady-ask, Steady-db,
}
use binance_bot.Act.Anything.{Anything, Anything-atoms}
use binance_bot.Protection.Fill.{ProtectiveFill, truthy, is_executing}
use binance_bot.Protection.Placement.{
  ProtectionIds, Continuation, request_oco, send_list, submit_list, settle_terminal, settle_list,
  place_new, place_with, give_up, replace_protection, rearm_open, rearm_terminal_protection,
  place_exchange_protection,
}
use binance_bot.Protection.Quiet.{lift-Steady, mark_fail-Steady, protective_fill-Steady}

abbrev pub sends_list : {F : Type 0} → Call F → Bool
sends_list (send_oco _) = true
sends_list _ = false

-- the number of order lists that were requested
abbrev pub lists_sent : {F : Type 0} → List (Event F) → ℕ
lists_sent cs = count_where (λ e. sends_list e.call) cs

module _ {F : Type 0} where
  quiet-no_list : (k : Call F) → is_quiet k ≡ true → sends_list k ≡ false
  quiet-no_list (send_order _ _ _ _) h = absurd (ground arith)
  quiet-no_list (send_oco _) h = absurd (ground arith)
  quiet-no_list (ask_order _ _) h = refl
  quiet-no_list (ask_order_list _) h = refl
  quiet-no_list (cancel_list _ _) h = refl
  quiet-no_list (ask_fills _ _) h = refl
  quiet-no_list ask_account h = refl
  quiet-no_list ask_market h = refl

  abbrev AtMost : ℕ → List (Event F) → Type 0
  AtMost n cs = lists_sent cs ≤ n

  abbrev Lists : ℕ → World F → Type 0
  Lists n = Both Anything (AtMost n)

  counted : (n : ℕ) → Quiet Anything (AtMost n)
  counted n = record { quiet = λ k s cs e h. rw (quiet-no_list k e) h }

  more : (n m : ℕ) → n ≤ m → (w : World F) → Lists n w → Lists m w
  more n m h w p = (tt, omega arith)

  -- from `n` lists to at most `m`, whether it returns or raises
  abbrev Within : {A : Type 0} → ℕ → ℕ → Act F A → Type 0
  Within n m a = Ensures (Lists n) (λ _. Lists m) (Lists m) a

  within :
      {A : Type 0} (n m : ℕ) (a : Act F A) → n ≤ m → Steady Anything (AtMost n) a → Within n m a
  within n m a h s = weaken (λ w p. p) (λ x. more n m h) (more n m h) s.kept

  -- a steady part, then the rest
  after_steady :
      {A B : Type 0} (n m : ℕ) (a : Act F A) (f : A → Act F B)
      → n ≤ m
      → Steady Anything (AtMost n) a
      → ((x : A) → Within n m (f x))
      → Within n m (a >>= f)
  after_steady n m a f h s k = bind (weaken (λ w p. p) (λ x w p. p) (more n m h) s.kept) k

  option-within :
      {A B : Type 0} (n m : ℕ) (o : Option A) (a : Act F B) (f : A → Act F B)
      → Within n m a
      → ((x : A) → Within n m (f x))
      → Within n m (elim o [ none ↦ a | some x ↦ f x ])
  option-within n m none a f h k = h
  option-within n m (some x) a f h k = k x

module _ {F D : Type 0} ⦃fl : Float F⦄ ⦃dl : Float D⦄ (b : Bot F D) (n : ℕ) where
  submit_list-Within :
      (trade : Trade F) (ids : ProtectionIds) → Within n (suc n) (submit_list b trade ids)
  unfolding submit_list send_list request_oco
  submit_list-Within trade ids = try {S = Lists (suc n)} (requested _) λ e.
      try {S = Lists (suc n)} (Steady-ask (counted (suc n)) _ _ refl).kept
        λ e'. (mark_fail-Steady b Anything-atoms (counted (suc n)) _ _ _ _).kept
    where
      requested : (r : Checked (OcoOrder F)) → Within n (suc n) (request_oco b r)
      requested (raised e) = raises e λ w p. (tt, omega arith)
      requested (passed o) = asks _ _ (λ w p a. (tt, omega arith)) (λ w p. (tt, omega arith))

  -- what follows a terminal list, by the lists that it may still request
  abbrev Follows : ℕ → Continuation F → Type 0
  Follows m after =
      (c : String) (o : Option String) (t : Trade F) (f : Option (ProtectiveFill F))
      → Within (suc n) m (after c o t f)

  settle_terminal-Within :
      (m : ℕ) (h : suc n ≤ m) (after : Continuation F)
      → Follows m after
      → (trade : Trade F) (c : String) (o : Option String) (p : ProtectionStatus)
      → Within (suc n) m (settle_terminal b after trade c o p)
  unfolding settle_terminal
  settle_terminal-Within m h after k trade c o p =
      after_steady _ _ _ _ h (Steady-reads _) λ persisted.
        after_steady _ _ _ _ h
          (Steady-catch _ _
            (Steady-option persisted _ _ (Steady-pure none)
              (protective_fill-Steady b Anything-atoms (counted (suc n))))
            λ e. mark_fail-Steady b Anything-atoms (counted (suc n)) _ _ _ _)
          λ fill. after_steady _ _ _ _ h (Steady-reads _) λ refreshed.
            option-within _ _ refreshed _ _ (within _ _ _ h (Steady-pure _)) λ t. k c o t fill

  settle_list-Within :
      (m : ℕ) (h : suc n ≤ m) (after : Continuation F)
      → Follows m after
      → (trade : Trade F) (ids : ProtectionIds) (r : ℕ × ProtectionStatus)
      → Within (suc n) m (settle_list b after trade ids r)
  unfolding settle_list
  settle_list-Within m h after k trade ids (id, status) =
      after_steady _ _ _ _ h (Steady-db _ (set_trade_protection-Keeps Anything-atoms _ _ _ _)) λ u.
        either (is_executing status)
          (weaken (λ w p. p.0) (λ r w p. p) (λ w p. p) (within _ _ _ h (Steady-pure _)))
          (weaken (λ w p. p.0) (λ r w p. p) (λ w p. p)
            (settle_terminal-Within m h after k trade ids.list_id _ status))

  place_new-Within :
      (m : ℕ) (h : suc n ≤ m) (after : Continuation F)
      → Follows m after
      → (trade : Trade F) → Within n m (place_new b after trade)
  unfolding place_new settle_list
  place_new-Within m h after k trade = after_steady _ _ _ _ (omega arith) (Steady-observes _) λ ids.
      after_steady _ _ _ _ (omega arith)
        (Steady-db _ (set_trade_protection-Keeps Anything-atoms _ _ _ _))
        λ u.
          bind (weaken (λ w p. p) (λ x w p. p) (more (suc n) m h) (submit_list-Within trade ids))
            λ response.
              after_steady _ _ _ _ h
                (Steady-catch _ _ (lift-Steady b Anything-atoms (counted (suc n)) _)
                  λ e. mark_fail-Steady b Anything-atoms (counted (suc n)) _ _ _ _)
                λ r. settle_list-Within m h after k trade ids r

  place_with-Within :
      (m : ℕ) (h : suc n ≤ m) (after : Continuation F)
      → Follows m after
      → (trade : Trade F) → Within n m (place_with b after trade)
  unfolding place_with
  place_with-Within m h after k trade =
      either (not (is_exchange b.settings.mode))
        (weaken (λ w p. p.0) (λ r w p. p) (λ w p. p) (within _ _ _ (omega arith) (Steady-pure _)))
        (weaken (λ w p. p.0) (λ r w p. p) (λ w p. p)
          (option-within n m (truthy trade.protective_list_client_order_id) _ _
            (place_new-Within m h after k trade) λ c. within _ _ _ (omega arith) (Steady-pure _)))

  give_up-Within : Follows (suc n) (give_up b)
  unfolding give_up
  give_up-Within c o t f = (mark_fail-Steady b Anything-atoms (counted (suc n)) _ _ _ _).kept

  replace_protection-Within : (trade : Trade F) → Within n (suc n) (replace_protection b trade)
  unfolding replace_protection
  replace_protection-Within trade =
      place_with-Within (suc n) (omega arith) (give_up b) give_up-Within trade

  rearm_open-Within :
      (t : Trade F) (f : Option (ProtectiveFill F)) → Within n (suc n) (rearm_open b t f)
  unfolding rearm_open
  rearm_open-Within t f = bind (replace_protection-Within t) λ placed.
      (Steady-bind _ _ (Steady-reads _)
        λ still. Steady-bind _ _ (Steady-fail_if _ _) λ u. Steady-pure _).kept

  rearm_terminal_protection-Within :
      (trade : Trade F) (f : Option (ProtectiveFill F))
      → Within n (suc n) (rearm_terminal_protection b trade f)
  unfolding rearm_terminal_protection
  rearm_terminal_protection-Within trade f =
      after_steady _ _ _ _ (omega arith) (Steady-fail_if _ _) λ u.
        after_steady _ _ _ _ (omega arith)
          (Steady-db _ (clear_trade_protection-Keeps Anything-atoms _ _))
          λ u'. after_steady _ _ _ _ (omega arith) (Steady-reads _) λ refreshed.
            option-within _ _ refreshed _ _ (within _ _ _ (omega arith) (Steady-pure _))
              λ t. rearm_open-Within t f

module _ {F D : Type 0} ⦃fl : Float F⦄ ⦃dl : Float D⦄ (b : Bot F D) where
  place-Within :
      (n : ℕ) (trade : Trade F) → Within n (suc (suc n)) (place_exchange_protection b trade)
  unfolding place_exchange_protection
  place-Within n trade =
      place_with-Within b n (suc (suc n)) (omega arith) _
        (λ c o t f. rearm_terminal_protection-Within b (suc n) t f) trade

  final_count :
      (n : ℕ) {A : Type 0} (r : Outcome A × World F)
      → Post (λ _. Lists n) (Lists n) r
      → lists_sent r.1.calls ≤ n
  final_count n (done a, w) h = h.1
  final_count n (failed e, w) h = h.1

  -- Placing protection requests at most two order lists, whether it returns or raises.
  pub place_exchange_protection-two_lists :
      (trade : Trade F) (w : World F)
      → lists_sent (place_exchange_protection b trade w).1.calls ≤ lists_sent w.calls + 2
  place_exchange_protection-two_lists trade w =
      let h =
        final_count (suc (suc (lists_sent w.calls))) (place_exchange_protection b trade w)
          ((place-Within (lists_sent w.calls) trade).at w (tt, omega arith)) in
      omega arith
