-- ===== src/Performance.antt =====
-- The statistics of closed trades (app/storage/db.py: _performance_from_trades). `round n x` is
-- `round(x, n)`, a parameter.
pub mod Counts
use binance_bot.Base.{
  ℕ, String, Bool, true, false, Option, none, some, List, [], ◌∷◌, reverse, length, take, map,
  select, if◌then◌else◌,
}
use binance_bot.Base.Float.{Float, ◌⊕◌, ◌⊖◌, ◌⊘◌, ◌<?◌, lit, nought, fmax, fmin, fabs}
use binance_bot.Storage.Rows.{Trade}

-- a point of the equity curve
pub record CurvePoint (F : Type 0) : Type 0 where
  pub id : ℕ
  pub symbol : String
  pub closed_at : Option ℕ
  pub cumulative_pnl : F

pub record Performance (F : Type 0) : Type 0 where
  pub closed_trades : ℕ
  pub wins : ℕ
  pub losses : ℕ
  pub win_rate : Option F
  pub total_pnl : F
  pub avg_pnl : Option F
  pub avg_pnl_pct : Option F
  pub best_trade : Option F
  pub worst_trade : Option F
  pub profit_factor : Option F
  pub max_drawdown : F
  pub equity_curve : List (CurvePoint F)

-- the variables of the loop
pub record Running (F : Type 0) : Type 0 where
  pub cumulative : F
  pub peak : F
  pub max_drawdown : F

module _ {F : Type 0} ⦃fl : Float F⦄ where
  -- `float(x or 0.0)`
  abbrev pub value_of : Option F → F
  value_of none = nought
  value_of (some x) = x

  abbrev pub pnls : List (Trade F) → List F
  pnls [] = []
  pnls (t ∷ ts) = value_of t.pnl ∷ pnls ts

  abbrev pub pnl_pcts : List (Trade F) → List F
  pnl_pcts [] = []
  pnl_pcts (t ∷ ts) = value_of t.pnl_pct ∷ pnl_pcts ts

  abbrev pub sum_from : F → List F → F
  sum_from acc [] = acc
  sum_from acc (x ∷ xs) = sum_from (acc ⊕ x) xs

  abbrev pub max_from : F → List F → F
  max_from acc [] = acc
  max_from acc (x ∷ xs) = max_from (fmax acc x) xs

  abbrev pub min_from : F → List F → F
  min_from acc [] = acc
  min_from acc (x ∷ xs) = min_from (fmin acc x) xs

  abbrev pub winning : List F → List F
  winning xs = select (λ p. nought <? p) xs

  abbrev pub losing : List F → List F
  losing xs = select (λ p. p <? nought) xs

  -- one turn of the loop
  unfoldable pub advance : F → Running F → Running F
  advance pnl r =
      let cumulative = r.cumulative ⊕ pnl in
      let peak = fmax r.peak cumulative in
      record {
        cumulative = cumulative;
        peak = peak;
        max_drawdown = fmax r.max_drawdown (peak ⊖ cumulative);
      }

  unfoldable pub run_pnls : List F → Running F → Running F
  run_pnls [] r = r
  run_pnls (p ∷ ps) r = run_pnls ps (advance p r)

  unfoldable pub curve : (ℕ → F → F) → F → List (Trade F) → List (CurvePoint F)
  curve round acc [] = []
  curve round acc (t ∷ ts) =
      let total = acc ⊕ value_of t.pnl in
      record {
        id = t.id;
        symbol = t.symbol;
        closed_at = t.closed_at;
        cumulative_pnl = round 8 total;
      }
      ∷ curve round total ts

  -- no trades
  unfoldable pub no_performance : Performance F
  no_performance = record {
    closed_trades = 0;
    wins = 0;
    losses = 0;
    win_rate = none;
    total_pnl = nought;
    avg_pnl = none;
    avg_pnl_pct = none;
    best_trade = none;
    worst_trade = none;
    profit_factor = none;
    max_drawdown = nought;
    equity_curve = [];
  }

  unfoldable pub performance_from_trades : (ℕ → F → F) → List (Trade F) → Performance F
  unfolding no_performance
  performance_from_trades round [] = no_performance
  performance_from_trades round (t ∷ ts) =
      let all = t ∷ ts in
      let ps = pnls all in
      let n = lit {F = F} (length all) 1 in
      let gross_loss = fabs (sum_from nought (losing ps)) in
      record {
        closed_trades = length all;
        wins = length (winning ps);
        losses = length (losing ps);
        win_rate = some (lit (length (winning ps)) 1 ⊘ n);
        total_pnl = sum_from nought ps;
        avg_pnl = some (sum_from nought ps ⊘ n);
        avg_pnl_pct = some (sum_from nought (pnl_pcts all) ⊘ n);
        best_trade = some (max_from (value_of t.pnl) (pnls ts));
        worst_trade = some (min_from (value_of t.pnl) (pnls ts));
        profit_factor =
            if nought <? gross_loss then some (sum_from nought (winning ps) ⊘ gross_loss) else none;
        max_drawdown =
            (run_pnls ps
              (record { cumulative = nought; peak = nought; max_drawdown = nought })).max_drawdown;
        equity_curve = reverse (take 100 (reverse (curve round nought all)));
      }
