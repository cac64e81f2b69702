-- ===== src/Broker/Balances.antt =====
-- The paper balances read back after a purchase (app/execution/broker.py: enter).
use binance_bot.Base.{◌≡◌, String, true, false, inl, inr, some, List, [], ◌∷◌, str_eq}
use binance_bot.Base.Float.{Float, ◌⊕◌, ◌⊖◌, ◌<?◌}
use binance_bot.Config.{Mode, mode_eq}
use binance_bot.Models.{StrategySignal, RiskDecision}
use binance_bot.Storage.Tx.{get_state, put_states}
use binance_bot.Storage.States.{get_state-put_same, get_state-put_other}
use binance_bot.Storage.Rows.{Store}
use mathlib.Core.Path.{subst, ap, ◌∙◌}
use binance_bot.Exchange.{is_positive}
use binance_bot.Exchange.Answers.{Bot, or_default}
use binance_bot.Act.{World, done}
use binance_bot.Act.Rules.{Post}
use binance_bot.Broker.Paper.{
  quote_key, base_key, balance, paper_quote, paper_base, paper_buy_price,
}
use binance_bot.Broker.Enter.{ExecutionResult, paper_cost, enter}
use binance_bot.Broker.Cash.{Paid, enter-paper_cash}

module _ {F D : Type 0} ⦃fl : Float F⦄ ⦃dl : Float D⦄ (b : Bot F D) where
  open b use {settings, cv, py}

  -- `Decimal(str(d))` is `d`
  abbrev pub ReadsBack : Type 0
  ReadsBack = (d : D) → py.read_decimal (or_default (some (py.show_decimal d)) "0") ≡ d

  two_states :
      (x y : D) (m : List (String × String))
      → str_eq (base_key b) (quote_key b) ≡ false
      → let m' =
          put_states ((quote_key b, py.show_decimal x) ∷ (base_key b, py.show_decimal y) ∷ []) m in
        (get_state (quote_key b) m' ≡ some (py.show_decimal x))
        × (get_state (base_key b) m' ≡ some (py.show_decimal y))
  unfolding put_states
  two_states x y m apart = (
    get_state-put_other (quote_key b) (base_key b) (py.show_decimal y) _ apart
        ∙ get_state-put_same (quote_key b) (py.show_decimal x) m,
    get_state-put_same (base_key b) (py.show_decimal y) _,
  )

  balance_of :
      (reads : ReadsBack) (k : String) (d : D) (st : Store F)
      → get_state k st.states ≡ some (py.show_decimal d)
      → balance b k st ≡ d
  unfolding balance
  balance_of reads k d st h = ap (λ o. py.read_decimal (or_default o "0")) h ∙ reads d

  -- A paper entry that succeeds reads back as it was written: the next reading of the cash is the old
  -- one less the cost of a positive quantity, which it covered, and the next reading of the inventory
  -- is larger by that quantity. Decimals are read back from their texts, and the keys differ.
  pub enter-paper_balances :
      (signal : StrategySignal F) (risk : RiskDecision F) (price : F) (w w' : World F)
      (r : ExecutionResult F)
      → mode_eq settings.mode Mode.paper ≡ true
      → ReadsBack
      → str_eq (base_key b) (quote_key b) ≡ false
      → enter b signal risk price w ≡ (done r, w')
      → r.executed ≡ true
      → (qty : F) × (is_positive qty ≡ true)
        × (paper_quote b w.store <? paper_cost b (paper_buy_price b price) qty ≡ false)
        × (paper_quote b w'.store
            ≡ paper_quote b w.store ⊖ paper_cost b (paper_buy_price b price) qty)
        × (paper_base b w'.store ≡ paper_base b w.store ⊕ cv.dec qty)
  unfolding paper_quote paper_base
  enter-paper_balances signal risk price w w' r m reads apart e x =
      elim (subst (Post (Paid b w.store risk.quantity price) (λ w'. w'.store ≡ w.store)) e
        (enter-paper_cash b signal risk price w m)) [
          | inl (n, s) ↦ absurd cc
          | inr (y, (qty, pos, le, enough, s)) ↦
              let st =
                two_states (paper_quote b w.store ⊖ paper_cost b (paper_buy_price b price) qty)
                  (paper_base b w.store ⊕ cv.dec qty) w.store.states apart in
              (
                qty,
                pos,
                enough,
                balance_of reads (quote_key b) _ w'.store (ap (get_state (quote_key b)) s ∙ st.0),
                balance_of reads (base_key b) _ w'.store (ap (get_state (base_key b)) s ∙ st.1),
              )
        ]
