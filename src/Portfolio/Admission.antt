-- ===== src/Portfolio/Admission.antt =====
-- When an entry is submitted (app/agents/multi_orchestrator.py: execute_entry).
use binance_bot.Base.{
  ℕ, ◌<◌, ◌≡◌, ap, ◌⊎◌, refl, String, true, false, not, none, some, List, [], ◌∷◌, arith, str_mem,
  any, inl, inr, Option-cases,
}
use mathlib.Core.Path.{◌∙◌}
use binance_bot.Act.{Outcome, done, failed}
use binance_bot.Base.Float.{Float, ◌⊕◌, ◌⊗◌, ◌<?◌, ◌≤?◌, negate, nought}
use binance_bot.Config.{Mode, Settings, mode_eq}
use binance_bot.Storage.Rows.{Store}
use binance_bot.Storage.Trades.{count_open_trades}
use binance_bot.Storage.Orders.{has_unresolved_order}
use binance_bot.Market.{MarketSnapshot}
use binance_bot.Portfolio.{
  Valuation, EntryRequest, Texts, conclude, loss_pause_reason, entry_capacity_reason,
  invalidate_after, unresolved_reason, budget_reason, cost_factor, realized_pnl_today,
  notional_reason, entry_refusal, execute_entry,
}

module _ {F : Type 0} ⦃fl : Float F⦄ (txt : Texts F) (c : Settings F) (symbols : List String) where
  -- The budget holds for a notional: both balances and the daily loss.
  pub record WithinBudget (now : ℕ) (st : Store F) (v : Valuation F) (notional equity : F)
      : Type 0 where
    pub equity_known : v.equity ≡ some equity
    pub positive : (notional ≤? nought) ≡ false
    pub affordable : (v.available_quote <? notional ⊗ cost_factor txt c symbols) ≡ false
    pub exposed :
        (equity ⊗ c.max_portfolio_exposure_fraction
          <? v.exposure ⊕ notional ⊗ cost_factor txt c symbols)
        ≡ false
    pub daily :
        (realized_pnl_today c.mode symbols now st ≤? negate equity ⊗ c.max_daily_loss_fraction)
        ≡ false

  -- What an entry must have: a configured market, no loss pause, a free place, no unresolved order.
  pub record IsAdmitted (now : ℕ) (st : Store F) (symbol : String) : Type 0 where
    pub configured : str_mem symbol symbols ≡ true
    pub unpaused : loss_pause_reason txt c symbols now st ≡ none
    pub capacity : count_open_trades c.mode symbols st < c.max_concurrent_positions
    pub resolved : any (λ s. has_unresolved_order c.mode s st) symbols ≡ false

  unresolved_reason-none :
      (ss : List String) (st : Store F)
      → unresolved_reason txt c symbols ss st ≡ none
      → any (λ s. has_unresolved_order c.mode s st) ss ≡ false
  unfolding unresolved_reason
  unresolved_reason-none [] st h = refl
  unresolved_reason-none (s ∷ ss) st h = ground (arith, unresolved_reason-none ss st)

  budget_reason-none :
      (now : ℕ) (st : Store F) (v : Valuation F) (notional : F)
      → budget_reason txt c symbols now st v notional ≡ none
      → (equity : F) × WithinBudget now st v notional equity
  unfolding budget_reason
  budget_reason-none now st v notional h = elim (Option-cases v.equity) [
    | inl e ↦ absurd (ground arith)
    | inr (equity, e) ↦ (
      equity,
      record {
        equity_known = e;
        positive = ground arith;
        affordable = ground arith;
        exposed = ground arith;
        daily = ground arith;
      },
    )
  ]

  entry_refusal-none :
      (now : ℕ) (st : Store F) (v : Valuation F) (m : MarketSnapshot F) (r : EntryRequest F)
      (notional : F)
      → r.notional ≡ some notional
      → entry_refusal txt c symbols now st v m r ≡ none
      → (equity : F) × IsAdmitted now st r.symbol × WithinBudget now st v notional equity
  unfolding entry_refusal entry_capacity_reason notional_reason
  entry_refusal-none now st v m r notional e h =
      let clear : unresolved_reason txt c symbols symbols st ≡ none = ground arith in
      let funded : budget_reason txt c symbols now st v notional ≡ none = ground arith in
      let (equity, budget) = budget_reason-none now st v notional funded in
      (
        equity,
        record {
          configured = ground arith;
          unpaused = ground arith;
          capacity = ground arith;
          resolved = unresolved_reason-none symbols st clear;
        },
        budget,
      )

  -- A submission keeps its outcome and its tables.
  invalidate_after-always :
      {R : Type 0} (x : Outcome R × Store F)
      → invalidate_after txt c symbols x ≡ (x.0, x.1, not (mode_eq c.mode Mode.paper))
  unfolding invalidate_after
  invalidate_after-always (done r, st) = refl
  invalidate_after-always (failed e, st) = refl

  -- An entry of a known size is either refused, which submits nothing and leaves the tables as they
  -- are, or submitted: then its market is a configured one, no loss pause is active, fewer than the
  -- allowed positions are open, no configured market has an unresolved order, and the notional with
  -- its costs is within the quote balance, the exposure limit and the daily loss limit. A submission's
  -- result or exception is handed on with the tables it left, and outside paper trading the cached
  -- account is invalidated after it, whether it returned or raised.
  pub execute_entry-guarded :
      {R : Type 0} (refused : String → R) (submit : Store F → Outcome R × Store F) (now : ℕ)
      (v : Valuation F) (m : MarketSnapshot F) (r : EntryRequest F) (notional : F) (st : Store F)
      → r.notional ≡ some notional
      → ((reason : String) × (execute_entry txt c symbols refused submit now v m r st
            ≡ (done (refused reason), st, false)))
        ⊎ ((equity : F) × (execute_entry txt c symbols refused submit now v m r st
              ≡ ((submit st).0, (submit st).1, not (mode_eq c.mode Mode.paper)))
            × IsAdmitted now st r.symbol
            × WithinBudget now st v notional equity)
  unfolding execute_entry
  execute_entry-guarded refused submit now v m r notional st e =
      elim (Option-cases (entry_refusal txt c symbols now st v m r)) [
        | inl k ↦
            (let (equity, admitted, budget) = entry_refusal-none now st v m r notional e k in
              inr (
                equity,
                ap (conclude txt c symbols refused submit st) k
                    ∙ invalidate_after-always (submit st),
                admitted,
                budget,
              ))
        | inr (reason, k) ↦ inl (reason, ap (conclude txt c symbols refused submit st) k)
      ]
