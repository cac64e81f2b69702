-- ===== src/Storage/Tx.antt =====
-- A transaction of app/storage/db.py: the statements of one `with self.connection()` block.
use binance_bot.Base.{
  ◌≡◌, refl, ◌⊎◌, inl, inr, String, List, [], ◌∷◌, Option, none, some, str_eq, if◌then◌else◌, Bool,
}
use binance_bot.Storage.Rows.{Store, DbError}

pub data Result (A : Type 0) : Type 0 where
  ok : A → Result A
  err : DbError → Result A

pub Result-cases :
    {A : Type 0} (r : Result A) → ((a : A) × (r ≡ ok a)) ⊎ ((e : DbError) × (r ≡ err e))
Result-cases (ok a) = inl (a, refl)
Result-cases (err e) = inr (e, refl)

-- The body of a block: its value and the tables after it, or what it raises.
abbrev pub Tx : Type 0 → Type 0 → Type 0
Tx F A = Store F → Result (A × Store F)

module _ {F A : Type 0} where
  abbrev pub pure : A → Tx F A
  pure a s = ok (a, s)

  abbrev pub raise : DbError → Tx F A
  raise e s = err e

  abbrev pub gets : (Store F → A) → Tx F A
  gets f s = ok (f s, s)

  -- a row that must be there
  abbrev pub require : Option A → DbError → Tx F A
  require none e s = err e
  require (some a) e s = ok (a, s)

abbrev pub modify : {F : Type 0} → (Store F → Store F) → Tx F (Unit {0})
modify f s = ok (tt, f s)

abbrev pub raise_if : {F : Type 0} → Bool → DbError → Tx F (Unit {0})
raise_if c e s = if c then err e else ok (tt, s)

abbrev pub continue : {F A B : Type 0} → Result (A × Store F) → (A → Tx F B) → Result (B × Store F)
continue (ok (a, s)) f = f a s
continue (err e) f = err e

infixl 5 ◌>>=◌ ◌>>◌
abbrev pub ◌>>=◌ : {F A B : Type 0} → Tx F A → (A → Tx F B) → Tx F B
◌>>=◌ m f s = continue (m s) f

abbrev pub ◌>>◌ : {F B : Type 0} → Tx F (Unit {0}) → Tx F B → Tx F B
m >> k = m >>= λ _. k

-- `connection()`: commit on success, roll back on an exception.
abbrev pub settle_tx : {F A : Type 0} → Result (A × Store F) → Store F → Result A × Store F
settle_tx (ok (a, s')) s = (ok a, s')
settle_tx (err e) s = (err e, s)

unfoldable pub connection : {F A : Type 0} → Tx F A → Store F → Result A × Store F
connection m s = settle_tx (m s) s

-- `_set_state_conn`: INSERT … ON CONFLICT DO UPDATE
unfoldable pub put_state : String → String → List (String × String) → List (String × String)
put_state k v [] = (k, v) ∷ []
put_state k v ((j, w) ∷ m) = if str_eq j k then (j, v) ∷ m else (j, w) ∷ put_state k v m

unfoldable pub get_state : String → List (String × String) → Option String
get_state k [] = none
get_state k ((j, w) ∷ m) = if str_eq j k then some w else get_state k m

unfoldable pub put_states : List (String × String) → List (String × String) → List (String × String)
unfolding put_state
put_states [] m = m
put_states ((k, v) ∷ us) m = put_states us (put_state k v m)
