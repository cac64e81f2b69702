-- ===== src/Broker/Preparing.antt =====
-- What preparing the paper balances keeps (app/execution/broker.py: _init_paper_balances).
use binance_bot.Base.{String, not, Option, List}
use binance_bot.Base.Float.{Float}
use binance_bot.Config.{Mode, mode_eq}
use binance_bot.Storage.Rows.{Store}
use binance_bot.Storage.Rules.{Atoms, Keeps as TxKeeps, Keeps-states}
use binance_bot.Exchange.Answers.{Bot}
use binance_bot.Act.{Event}
use binance_bot.Act.Steady.{
  Steady, Steady-bind, Steady-pure, Steady-reads, Steady-if, Steady-option, Steady-db,
}
use binance_bot.Broker.Paper.{set_missing, migrate, set_states, init_paper_balances}

set_states-Keeps :
    {F : Type 0} ⦃fl : Float F⦄ {I : Store F → Type 0} (a : Atoms I) (us : List (String × String))
    → TxKeeps I (set_states us)
unfolding set_states
set_states-Keeps a us = Keeps-states a us

module _ {F D : Type 0} ⦃fl : Float F⦄ ⦃dl : Float D⦄ (b : Bot F D) {I : Store F → Type 0}
    {Q : List (Event F) → Type 0} (a : Atoms I) where
  migrate-Steady : (o o' : Option String) → Steady I Q (migrate b o o')
  unfolding migrate
  migrate-Steady o o' = Steady-db _ (set_states-Keeps a _)

  set_missing-Steady : (k : String) (v : F) → Steady I Q (set_missing b k v)
  unfolding set_missing
  set_missing-Steady k v =
      search (Steady-bind, Steady-reads, Steady-if, Steady-pure, Steady-db, set_states-Keeps a)

  pub init_paper_balances-Steady : Steady I Q (init_paper_balances b)
  unfolding init_paper_balances
  init_paper_balances-Steady =
      Steady-if (not (mode_eq b.settings.mode Mode.paper)) _ _ (Steady-pure _) (
        Steady-bind _ _ (Steady-reads _) λ owner. Steady-bind _ _ (Steady-reads _) λ q.
          Steady-bind _ _ (Steady-reads _) λ p.
            Steady-option owner _ _ (migrate-Steady q p)
              λ o. Steady-bind _ _ (set_missing-Steady _ _) λ u. set_missing-Steady _ _)
