-- ===== src/Storage/Listed.antt =====
-- A new protection identity, as it stands in the tables (app/storage/db.py: set_trade_protection).
use binance_bot.Base.{
  ℕ, ◌≡◌, Bool, true, false, ◌&&◌, String, Option, none, some, List, [], ◌∷◌, arith, any, find,
  eq_refl, Option-cases, inl, inr,
}
use binance_bot.Storage.Rows.{Store, Trade, ProtectionStatus, is_open, open_with_id, opt_str_eq}
use binance_bot.Storage.Tx.{ok, connection}
use binance_bot.Storage.Trades.{find_open, write_identity, set_trade_protection}
use binance_bot.Storage.Pending.{any-update}

abbrev pub is_submitting : Option ProtectionStatus → Bool
is_submitting (some ProtectionStatus.submitting) = true
is_submitting _ = false

module _ {F : Type 0} where
  -- an open position that is about to be protected by this list
  abbrev pub awaits_list : String → Trade F → Bool
  awaits_list c t =
      is_open t.status
      && (opt_str_eq t.protective_list_client_order_id (some c)
          && is_submitting t.protection_status)

  any-of_find :
      (p : Trade F → Bool) (ts : List (Trade F)) (t : Trade F)
      → find p ts ≡ some t
      → any p ts ≡ true
  any-of_find p [] t h = absurd cc
  any-of_find p (x ∷ ts) t h = ground (arith, any-of_find p ts t)

  pub any-of_find-where :
      (p q : Trade F → Bool) (ts : List (Trade F)) (t : Trade F)
      → find p ts ≡ some t
      → q t ≡ true
      → any q ts ≡ true
  any-of_find-where p q [] t h k = absurd cc
  any-of_find-where p q (x ∷ ts) t h k = ground (arith, any-of_find-where p q ts t)

  write_identity-awaits_list :
      (i : ℕ) (fresh : Bool) (c : String) (t : Trade F)
      → open_with_id i t ≡ true
      → awaits_list c (write_identity fresh none (some c) ProtectionStatus.submitting t) ≡ true
  write_identity-awaits_list i true c t h = rw (eq_refl c) ground arith
  write_identity-awaits_list i false c t h = rw (eq_refl c) ground arith

  -- what each row gets by the write, some row has after it
  pub set_trade_protection-any :
      (p : Trade F → Bool) (i : ℕ) (l c : Option String) (status : ProtectionStatus)
      → ((fresh : Bool) (t : Trade F)
          → open_with_id i t ≡ true
          → p (write_identity fresh l c status t) ≡ true)
      → (st : Store F) (r : Unit {0}) → (connection (set_trade_protection i l c status) st).0 ≡ ok r
      → any p (connection (set_trade_protection i l c status) st).1.trades ≡ true
  unfolding connection set_trade_protection find_open
  set_trade_protection-any p i l c status k st r h =
      elim (Option-cases (find (open_with_id i) st.trades)) [
        | inl e ↦ absurd (ground arith)
        | inr (row, e) ↦ rw e (
            any-update (open_with_id i) p (open_with_id i) _ (λ t k. k) (k _) st.trades
              (any-of_find (open_with_id i) st.trades row e))
      ]

  pub set_trade_protection-awaits_list :
      (i : ℕ) (c : String) (st : Store F) (r : Unit {0})
      → (connection (set_trade_protection i none (some c) ProtectionStatus.submitting) st).0 ≡ ok r
      → any
          (awaits_list c)
          (connection
            (set_trade_protection i none (some c) ProtectionStatus.submitting)
            st).1.trades
        ≡ true
  set_trade_protection-awaits_list i c st r h =
      set_trade_protection-any (awaits_list c) i none (some c) ProtectionStatus.submitting
        (λ fresh t k. write_identity-awaits_list i fresh c t k) st r h
