-- ===== src/Storage/States.antt =====
-- Reading back the key-value state (app/storage/db.py: get_state and _set_state_conn).
use binance_bot.Base.{
  ◌≡◌, refl, String, false, some, List, [], ◌∷◌, str_eq, eq_iff, eq_refl, Bool-cases, inl, inr,
}
use binance_bot.Storage.Tx.{put_state, get_state}

pub get_state-put_same :
    (k v : String) (m : List (String × String)) → get_state k (put_state k v m) ≡ some v
unfolding get_state put_state
get_state-put_same k v [] = rw (eq_refl k) refl
get_state-put_same k v ((j, w) ∷ m) = elim (Bool-cases (str_eq j k)) [
  | inl e ↦ rw (e, e) refl
  | inr e ↦ rw (e, e) (get_state-put_same k v m)
]

pub get_state-put_other :
    (k j v : String) (m : List (String × String))
    → str_eq j k ≡ false
    → get_state k (put_state j v m) ≡ get_state k m
unfolding get_state put_state
get_state-put_other k j v [] h = rw h refl
get_state-put_other k j v ((i, w) ∷ m) h = elim (Bool-cases (str_eq i j)) [
  | inl e ↦ let apart : str_eq i k ≡ false = rw ((eq_iff i j).0 e) h in rw (e, apart) refl
  | inr e ↦ elim (Bool-cases (str_eq i k)) [
    | inl x ↦ rw (e, x) refl
    | inr x ↦ rw (e, x) (get_state-put_other k j v m h)
  ]
]
