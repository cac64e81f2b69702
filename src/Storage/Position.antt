-- ===== src/Storage/Position.antt =====
-- The open position's row: the stop only rises, a new protection identity fixes the accounting base,
-- and a protective execution that was applied is not applied again (app/storage/db.py:
-- raise_position_stop, set_trade_protection, apply_protective_execution).
use binance_bot.Base.{
  ℕ, ◌≡◌, refl, Bool, true, false, none, some, List, [], ◌∷◌, arith, find, find_sound, update_where,
}
use binance_bot.Base.Float.{Float, ◌≤?◌, fmax, IsOrdered, le-fmax_left, le-fmax_right}
use binance_bot.Storage.Rows.{Store, Trade, open_with_id}
use binance_bot.Storage.Tx.{ok}
use binance_bot.Storage.Trades.{find_open, raise_position_stop, has_id, high_water, write_stop}

module _ {F : Type 0} where
  -- an update of every row that the search could find changes what it finds
  pub find-update :
      (p q : Trade F → Bool) (f : Trade F → Trade F)
      → ((t : Trade F) → p t ≡ true → q t ≡ true)
      → ((t : Trade F) → p (f t) ≡ p t)
      → (ts : List (Trade F)) (t : Trade F) → find p ts ≡ some t
      → find p (update_where q f ts) ≡ some (f t)
  find-update p q f k l [] u h = cc
  find-update p q f k l (t ∷ ts) u h = ground (arith, k t, l t, find-update p q f k l ts u)

  -- an update that no found row survives
  pub find-update_none :
      (p q : Trade F → Bool) (f : Trade F → Trade F)
      → ((t : Trade F) → p t ≡ true → q t ≡ true)
      → ((t : Trade F) → q t ≡ true → p (f t) ≡ false)
      → (ts : List (Trade F)) → find p (update_where q f ts) ≡ none
  find-update_none p q f k l [] = refl
  find-update_none p q f k l (t ∷ ts) = ground (arith, k t, l t, find-update_none p q f k l ts)

  pub find_open-id : (i : ℕ) (st : Store F) (row : Trade F) → find_open i st ≡ some row → row.id ≡ i
  unfolding find_open
  find_open-id i st row h = ground (arith, find_sound (open_with_id i) st.trades row h)

  pub open-has_id : (i : ℕ) (t : Trade F) → open_with_id i t ≡ true → has_id i t ≡ true
  open-has_id i t h = ground arith

module _ {F : Type 0} ⦃fl : Float F⦄ where
  -- The stop of an open position can always be raised: the row then has the returned high-water mark
  -- and stop, which are at least the old ones and the ones asked for. Old and new values are numbers.
  pub raise_position_stop-ratchet :
      IsOrdered F
      → (i : ℕ) (observed stop : F) (st : Store F) (row : Trade F) → find_open i st ≡ some row
      → row.stop_price ≤? row.stop_price ≡ true
      → high_water row ≤? high_water row ≡ true
      → observed ≤? observed ≡ true
      → stop ≤? stop ≡ true
      → (h s : F) × (st' : Store F) × (raise_position_stop i observed stop st ≡ ok ((h, s), st'))
        × (find_open i st' ≡ some (write_stop h s row))
        × (row.stop_price ≤? s ≡ true)
        × (stop ≤? s ≡ true)
        × (high_water row ≤? h ≡ true)
        × (observed ≤? h ≡ true)
  unfolding raise_position_stop
  raise_position_stop-ratchet ord i observed stop st row found ns nh nobs np =
      let h = fmax (high_water row) observed in
      let s = fmax row.stop_price stop in
      (
        h,
        s,
        record st { trades = update_where (has_id i) (write_stop h s) st.trades },
        rw found refl,
        unfold find_open in
            find-update (open_with_id i) (has_id i) (write_stop h s) (open-has_id i) (λ t. refl)
              st.trades row found,
        le-fmax_left ord row.stop_price stop ns,
        le-fmax_right ord row.stop_price stop ns np,
        le-fmax_left ord (high_water row) observed nh,
        le-fmax_right ord (high_water row) observed nh nobs,
      )
