-- ===== src/Performance/Counts.antt =====
-- The counts and the drawdown of the statistics (app/storage/db.py: _performance_from_trades).
use binance_bot.Base.{
  ℕ, suc, ◌≡◌, ◌⊎◌, inl, inr, refl, Bool, true, false, List, [], ◌∷◌, ◌++◌, arith, length,
  if◌then◌else◌,
}
use mathlib.Core.List.{append_assoc, append-nil}
use mathlib.Core.Path.{ap, sym, subst, ◌∙◌}
use binance_bot.Base.Float.{
  Float, ◌⊕◌, ◌⊖◌, ◌<?◌, ◌≤?◌, nought, fmax, IsOrdered, le-fmax_left, le-fmax_right,
}
use binance_bot.Storage.Rows.{Trade}
use binance_bot.Performance.{
  Running, value_of, pnls, sum_from, max_from, winning, losing, advance, run_pnls,
  performance_from_trades,
}

module _ {F : Type 0} ⦃fl : Float F⦄ where
  -- the profit after each trade
  abbrev pub equities : F → List F → List F
  equities acc [] = []
  equities acc (p ∷ ps) = (acc ⊕ p) ∷ equities (acc ⊕ p) ps

  -- how far the profit after these trades is below its highest value so far, the start included
  abbrev pub drop_after : List F → F
  drop_after ps = max_from nought (equities nought ps) ⊖ sum_from nought ps

  -- the trades with such a profit
  abbrev pub count_if : (F → Bool) → List (Trade F) → ℕ
  count_if test [] = 0
  count_if test (t ∷ ts) =
      let rest = count_if test ts in if test (value_of t.pnl) then suc rest else rest

  abbrev start : Running F
  start = record { cumulative = nought; peak = nought; max_drawdown = nought }

  -- the loop's variables after some trades
  record Ran (done : List F) (r : Running F) : Type 0 where
    cumulative : r.cumulative ≡ sum_from nought done
    peak : r.peak ≡ max_from nought (equities nought done)

  sum_from-append : (acc p : F) (ps : List F) → sum_from acc (ps ++ p ∷ []) ≡ sum_from acc ps ⊕ p
  sum_from-append acc p [] = refl
  sum_from-append acc p (q ∷ ps) = sum_from-append (acc ⊕ q) p ps

  max_from-equities :
      (m acc p : F) (ps : List F)
      → max_from m (equities acc (ps ++ p ∷ []))
        ≡ fmax (max_from m (equities acc ps)) (sum_from acc ps ⊕ p)
  max_from-equities m acc p [] = refl
  max_from-equities m acc p (q ∷ ps) = max_from-equities (fmax m (acc ⊕ q)) (acc ⊕ q) p ps

  advance-Ran :
      (done : List F) (p : F) (r : Running F) → Ran done r → Ran (done ++ p ∷ []) (advance p r)
  unfolding advance
  advance-Ran done p r h = record {
    cumulative = ap (λ x. x ⊕ p) h.cumulative ∙ sym (sum_from-append nought p done);
    peak =
        ap (λ x. fmax r.peak (x ⊕ p)) h.cumulative
        ∙ ap (λ x. fmax x (sum_from nought done ⊕ p)) h.peak
        ∙ sym (max_from-equities nought nought p done);
  }

  advance-max_drawdown :
      (done : List F) (p : F) (r : Running F)
      → Ran done r
      → (advance p r).max_drawdown ≡ fmax r.max_drawdown (drop_after (done ++ p ∷ []))
  unfolding advance
  advance-max_drawdown done p r h =
      let next = advance-Ran done p r h in
      ap (λ x. fmax r.max_drawdown (x ⊖ (r.cumulative ⊕ p))) (unfold advance in next.peak)
      ∙ ap (λ x. fmax r.max_drawdown (max_from nought (equities nought (done ++ p ∷ [])) ⊖ x))
          (unfold advance in next.cumulative)

  run_pnls-Ran : (done ps : List F) (r : Running F) → Ran done r → Ran (done ++ ps) (run_pnls ps r)
  unfolding run_pnls
  run_pnls-Ran done [] r h = subst (λ d. Ran d r) (sym (append-nil done)) h
  run_pnls-Ran done (p ∷ ps) r h =
      subst (λ d. Ran d (run_pnls ps (advance p r))) (append_assoc done (p ∷ []) ps)
        (run_pnls-Ran (done ++ p ∷ []) ps (advance p r) (advance-Ran done p r h))

  run_pnls-append :
      (xs ys : List F) (p : F) (r : Running F)
      → run_pnls (xs ++ p ∷ ys) r ≡ run_pnls ys (advance p (run_pnls xs r))
  unfolding run_pnls
  run_pnls-append [] ys p r = refl
  run_pnls-append (x ∷ xs) ys p r = run_pnls-append xs ys p (advance x r)

  -- the value is nought or the drop after some trade of the list
  abbrev pub IsDrop : List F → F → Type 0
  IsDrop ps m =
      (m ≡ nought)
      ⊎ ((before : List F) × (p : F) × (after : List F) × (ps ≡ before ++ p ∷ after)
          × (m ≡ drop_after (before ++ p ∷ [])))

  IsDrop-append : (ps : List F) (q m : F) → IsDrop ps m → IsDrop (ps ++ q ∷ []) m
  IsDrop-append ps q m (inl e) = inl e
  IsDrop-append ps q m (inr (before, p, after, e, k)) = inr (
    before,
    p,
    after ++ q ∷ [],
    ap (λ l. l ++ q ∷ []) e ∙ append_assoc before (p ∷ after) (q ∷ []),
    k,
  )

  IsDrop-fmax :
      (done : List F) (p m : F)
      → IsDrop done m
      → IsDrop (done ++ p ∷ []) (fmax m (drop_after (done ++ p ∷ [])))
  IsDrop-fmax done p m h = chosen (m <? drop_after (done ++ p ∷ []))
    where
      chosen : (b : Bool) → IsDrop (done ++ p ∷ []) (if b then drop_after (done ++ p ∷ []) else m)
      chosen true = inr (done, p, [], refl, refl)
      chosen false = IsDrop-append done p m h

  run_pnls-IsDrop :
      (done ps : List F) (r : Running F)
      → Ran done r
      → IsDrop done r.max_drawdown
      → IsDrop (done ++ ps) (run_pnls ps r).max_drawdown
  unfolding run_pnls
  run_pnls-IsDrop done [] r h k = subst (λ d. IsDrop d r.max_drawdown) (sym (append-nil done)) k
  run_pnls-IsDrop done (p ∷ ps) r h k =
      subst (λ d. IsDrop d (run_pnls ps (advance p r)).max_drawdown) (append_assoc done (p ∷ []) ps)
        (run_pnls-IsDrop (done ++ p ∷ []) ps (advance p r) (advance-Ran done p r h) (
          subst (IsDrop (done ++ p ∷ [])) (sym (advance-max_drawdown done p r h))
            (IsDrop-fmax done p r.max_drawdown k)))

  length-winning :
      (ts : List (Trade F)) → length (winning (pnls ts)) ≡ count_if (λ p. nought <? p) ts
  length-winning [] = refl
  length-winning (t ∷ ts) = ground (arith, length-winning ts)

  length-losing : (ts : List (Trade F)) → length (losing (pnls ts)) ≡ count_if (λ p. p <? nought) ts
  length-losing [] = refl
  length-losing (t ∷ ts) = ground (arith, length-losing ts)

module _ {F : Type 0} ⦃fl : Float F⦄ (ord : IsOrdered F) where
  run_pnls-grows :
      (x : F) (ps : List F) (r : Running F)
      → x ≤? r.max_drawdown ≡ true
      → x ≤? (run_pnls ps r).max_drawdown ≡ true
  unfolding run_pnls
  run_pnls-grows x [] r h = h
  run_pnls-grows x (p ∷ ps) r h =
      let next = advance p r in
      run_pnls-grows x ps next (
        unfold advance in
        ord.le_trans x r.max_drawdown _ h
          (le-fmax_left ord r.max_drawdown _ (ord.le-ends x r.max_drawdown h).1))

  drop_after-le :
      (before after : List F) (p : F)
      → drop_after (before ++ p ∷ []) ≤? drop_after (before ++ p ∷ []) ≡ true
      → drop_after (before ++ p ∷ []) ≤? (run_pnls (before ++ p ∷ after) start).max_drawdown ≡ true
  drop_after-le before after p n =
      let r = run_pnls before start in
      let zero = ord.finite-le nought ord.nought_finite in
      let number =
        (ord.le-ends nought r.max_drawdown (run_pnls-grows nought before start zero)).1 in
      let h = run_pnls-Ran [] before start (record { cumulative = refl; peak = refl }) in
      subst (λ (s : Running F). drop_after (before ++ p ∷ []) ≤? s.max_drawdown ≡ true)
        (sym (run_pnls-append before after p start))
        (run_pnls-grows (drop_after (before ++ p ∷ [])) after (advance p r) (
          subst (λ m. drop_after (before ++ p ∷ []) ≤? m ≡ true)
            (sym (advance-max_drawdown before p r h))
            (le-fmax_right ord r.max_drawdown _ number n)))

  -- A trade is counted as a win when its profit is positive and as a loss when it is negative. The
  -- maximal drawdown is the largest drop: after no trade is the profit further below its highest value
  -- so far, where that distance is a number, and the maximal drawdown is such a distance or nought.
  pub performance_from_trades-max_drawdown :
      (round : ℕ → F → F) (ts : List (Trade F)) (before after : List F) (p : F)
      → pnls ts ≡ before ++ p ∷ after
      → drop_after (before ++ p ∷ []) ≤? drop_after (before ++ p ∷ []) ≡ true
      → ((performance_from_trades round ts).wins ≡ count_if (λ x. nought <? x) ts)
        × ((performance_from_trades round ts).losses ≡ count_if (λ x. x <? nought) ts)
        × (drop_after (before ++ p ∷ []) ≤? (performance_from_trades round ts).max_drawdown ≡ true)
        × IsDrop (pnls ts) (performance_from_trades round ts).max_drawdown
  unfolding performance_from_trades
  performance_from_trades-max_drawdown round [] [] after p e n = absurd (ground arith)
  performance_from_trades-max_drawdown round [] (b ∷ before) after p e n = absurd (ground arith)
  performance_from_trades-max_drawdown round (t ∷ ts) before after p e n = (
    length-winning (t ∷ ts),
    length-losing (t ∷ ts),
    subst (λ ps. drop_after (before ++ p ∷ []) ≤? (run_pnls ps start).max_drawdown ≡ true) (sym e)
        (drop_after-le before after p n),
    run_pnls-IsDrop [] (pnls (t ∷ ts)) start (record { cumulative = refl; peak = refl }) (inl refl),
  )
