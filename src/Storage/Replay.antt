-- ===== src/Storage/Replay.antt =====
-- A protective execution that was applied is not applied again (app/storage/db.py:
-- apply_protective_execution).
use binance_bot.Base.{
  ℕ, ◌≡◌, refl, true, String, none, some, arith, Bool-cases, Option-cases, inl, inr, ◌⊎◌, sym,
}
use mathlib.Core.Path.{subst}
use binance_bot.Base.Float.{Float, ◌<?◌, ◌⊖◌, nought, lit, fmax, is_finite, IsRounded, le-fmax_left}
use binance_bot.Storage.Rows.{Store, Trade, open_with_id}
use binance_bot.Storage.Tx.{Result-cases, ok}
use binance_bot.Storage.Trades.{find_open, has_id}
use binance_bot.Storage.Execution.{
  Closed, Sale, Outcome, unchanged, applied, Cumulative, cut_off, tolerance, finish_partial,
  finish_whole, finish_protective, protective_sale, apply_delta, apply_to_row,
  apply_protective_execution, write_remaining, write_closed, write_cumulative,
}
use binance_bot.Storage.Position.{find-update, find-update_none, find_open-id, open-has_id}

module _ {F : Type 0} ⦃fl : Float F⦄ where
  -- The row's accounting is at these totals.
  pub record IsAt (total : Cumulative F) (row : Trade F) : Type 0 where
    pub qty : row.protective_applied_qty ≡ total.qty
    pub quote_amount : row.protective_applied_quote ≡ total.quote_amount
    pub fee_quote : row.protective_applied_fee_quote ≡ total.fee_quote

  pub record AllFinite (c : Cumulative F) : Type 0 where
    pub qty : is_finite c.qty ≡ true
    pub quote_amount : is_finite c.quote_amount ≡ true
    pub fee_quote : is_finite c.fee_quote ≡ true

  finish_partial-find :
      (row : Trade F) (x : Sale F) (total : Cumulative F) (now : ℕ) (st st' : Store F)
      (r : Closed F)
      → find_open row.id st ≡ some row
      → finish_partial row x (write_cumulative total) now st ≡ ok (r, st')
      → find_open row.id st' ≡ some (write_cumulative total (write_remaining row x row))
  unfolding finish_partial find_open
  finish_partial-find row x total now st st' r found h =
      let moved =
        find-update (open_with_id row.id) (has_id row.id)
          (λ t. write_cumulative total (write_remaining row x t)) (open-has_id row.id) (λ t. refl)
          st.trades row found in
      ground arith

  finish_whole-find :
      (row : Trade F) (x : Sale F) (total : Cumulative F) (now : ℕ) (st st' : Store F)
      (r : Closed F)
      → finish_whole row x (write_cumulative total) now st ≡ ok (r, st')
      → find_open row.id st' ≡ none
  unfolding finish_whole find_open
  finish_whole-find row x total now st st' r h =
      let gone =
        find-update_none (open_with_id row.id) (has_id row.id)
          (λ t. write_cumulative total (write_closed x now t)) (open-has_id row.id)
          (λ t k. ground arith) st.trades in
      ground arith

  -- what the row is after an applied execution
  Advanced : ℕ → Cumulative F → Store F → Type 0
  Advanced i total st =
      (find_open i st ≡ none) ⊎ ((row : Trade F) × (find_open i st ≡ some row) × IsAt total row)

  finish_protective-Advanced :
      (row : Trade F) (x : Sale F) (total : Cumulative F) (now : ℕ) (st st' : Store F)
      (r : Closed F)
      → find_open row.id st ≡ some row
      → finish_protective row x total now st ≡ ok (r, st')
      → Advanced row.id total st'
  unfolding finish_protective Advanced
  finish_protective-Advanced row x total now st st' r found h =
      elim (Bool-cases (tolerance row <? x.remaining)) [
        | inl more ↦ inr (
          write_cumulative total (write_remaining row x row),
          finish_partial-find row x total now st st' r found (rw more at h),
          record { qty = refl; quote_amount = refl; fee_quote = refl },
        )
        | inr done ↦ inl (finish_whole-find row x total now st st' r (rw done at h))
      ]

  apply_delta-sells :
      (row : Trade F) (total : Cumulative F) (d : F) (reason : String) (now : ℕ) (st st' : Store F)
      (o : Outcome F)
      → apply_delta row total d reason now st ≡ ok (o, st')
      → (r : Closed F) × (finish_protective row (protective_sale row total d reason) total now st
          ≡ ok (r, st'))
  unfolding apply_delta
  apply_delta-sells row total d reason now st st' o h =
      let x = protective_sale row total d reason in
      elim (Result-cases (finish_protective row x total now st)) [
        | inl ((r, mid), e) ↦ (r, ground arith)
        | inr (bad, e) ↦ absurd (ground arith)
      ]

  settled_row :
      (row : Trade F) (total : Cumulative F) (reason : String) (now : ℕ) (st : Store F)
      → IsRounded F
      → AllFinite total
      → IsAt total row
      → apply_to_row row total reason now st ≡ ok (unchanged row.quantity, st)
  unfolding apply_to_row
  settled_row row total reason now st fp fin here =
      let ord = fp.ordered in
      let small = ord.lit-le 0 1 1 1000000000000 (omega arith) (omega arith) (omega arith) in
      let tiny = ord.lit-le 0 1 1 1000000000 (omega arith) (omega arith) (omega arith) in
      let tol =
        ord.le_trans nought (lit 1 1000000000000) (tolerance row) small (
          unfold tolerance in le-fmax_left ord (lit 1 1000000000000) _ (ord.le-ends _ _ small).1) in
      ground (
        arith,
        fp.add_grows total.qty (tolerance row),
        fp.add_grows total.quote_amount (lit 1 1000000000),
        fp.add_grows total.fee_quote (lit 1 1000000000),
        fp.sub_self total.qty,
      )

  apply_to_row-Advanced :
      (row : Trade F) (total : Cumulative F) (reason : String) (now : ℕ) (st st' : Store F)
      (r : Closed F)
      → find_open row.id st ≡ some row
      → apply_to_row row total reason now st ≡ ok (applied r, st')
      → Advanced row.id total st'
  unfolding apply_to_row
  apply_to_row-Advanced row total reason now st st' r found h =
      let d = fmax nought (total.qty ⊖ row.protective_applied_qty) in
      let step : apply_delta row total d reason now st ≡ ok (applied r, st') = ground arith in
      let sale = apply_delta-sells row total d reason now st st' (applied r) step in
      finish_protective-Advanced row (protective_sale row total d reason) total now st st' sale.0
        found sale.1

  replay_of_Advanced :
      IsRounded F
      → (i : ℕ) (c : Cumulative F) (reason : String) (now : ℕ) (st : Store F)
      → AllFinite (cut_off c)
      → Advanced i (cut_off c) st
      → (apply_protective_execution i c reason now st ≡ ok (none, st))
        ⊎ ((q : F) × (apply_protective_execution i c reason now st ≡ ok (some (unchanged q), st)))
  unfolding apply_protective_execution Advanced
  replay_of_Advanced fp i c reason now st fin (inl e) = inl (ground arith)
  replay_of_Advanced fp i c reason now st fin (inr (row, e, here)) =
      inr (row.quantity, ground (arith, settled_row row (cut_off c) reason now st fp fin here))

  -- After an execution was applied, the same cumulative numbers reported again change nothing: the
  -- position is closed, or the call finds no new quantity. The numbers are finite.
  pub apply_protective_execution-replay :
      IsRounded F
      → (i : ℕ) (c : Cumulative F) (reason reason' : String) (now now' : ℕ) (st st' : Store F)
        (r : Closed F)
      → AllFinite (cut_off c)
      → apply_protective_execution i c reason now st ≡ ok (some (applied r), st')
      → (apply_protective_execution i c reason' now' st' ≡ ok (none, st'))
        ⊎ ((q : F) × (apply_protective_execution i c reason' now' st'
              ≡ ok (some (unchanged q), st')))
  unfolding apply_protective_execution
  apply_protective_execution-replay fp i c reason reason' now now' st st' r fin h =
      elim (Option-cases (find_open i st)) [
        | inl e ↦ absurd (ground arith)
        | inr (row, e) ↦
            (let same = find_open-id i st row e in
              let step : apply_to_row row (cut_off c) reason now st ≡ ok (applied r, st') =
                ground arith in
              replay_of_Advanced fp i c reason' now' st' fin (
                subst (λ k. Advanced k (cut_off c) st') same
                  (apply_to_row-Advanced row (cut_off c) reason now st st' r
                    (subst (λ k. find_open k st ≡ some row) (sym same) e) step)))
      ]
