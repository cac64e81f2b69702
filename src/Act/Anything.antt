-- ===== src/Act/Anything.antt =====
-- The invariant of the tables that holds of any tables: for what is said of the requests alone.
use binance_bot.Base.Float.{Float}
use binance_bot.Storage.Rows.{Store}
use binance_bot.Storage.Tx.{Result, ok, err}
use binance_bot.Storage.Rules.{Atoms, Keeps as TxKeeps, After}

module _ {F : Type 0} where
  abbrev pub Anything : Store F → Type 0
  Anything s = Unit

  settle_any : {A : Type 0} (r : Result (A × Store F)) → After Anything r
  settle_any (ok x) = tt
  settle_any (err e) = tt

  anything : {A : Type 0} (m : Store F → Result (A × Store F)) → TxKeeps Anything m
  anything m = record { at = λ s h. settle_any (m s) }

  pub Anything-atoms : ⦃fl : Float F⦄ → Atoms Anything
  Anything-atoms = record {
    trades = λ q f k s h. tt;
    inserted = λ row k. anything _;
    states = λ us s h. tt;
    applied = λ c side m sy. anything _;
    updated = λ c u now. anything _;
    intended = λ m sy c side q now. anything _;
  }
