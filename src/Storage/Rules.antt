-- ===== src/Storage/Rules.antt =====
-- What it is for a transaction to keep a property of the tables, with a rule for each way to build
-- one, and the steps from which every operation of the store is built.
use binance_bot.Base.{
  ℕ, ◌≡◌, refl, Bool, true, false, String, Option, none, some, List, update_where, if◌then◌else◌,
}
use binance_bot.Base.Float.{Float}
use binance_bot.Config.{Mode}
use binance_bot.Storage.Rows.{Store, Trade, ProtectionStatus, DbError}
use binance_bot.Storage.Tx.{
  Tx, Result, ok, err, ◌>>=◌, pure, gets, modify, raise_if, require, continue,
}
use binance_bot.Storage.Orders.{OrderUpdate, insert_order, apply_order, update_order_record}
use binance_bot.Storage.Trades.{
  insert_trade, write_identity, erase_identity, write_stop, write_states, with_trades,
}
use binance_bot.Storage.Sound.{KeepsRow}

module _ {F : Type 0} (P : Store F → Type 0) where
  abbrev pub After : {A : Type 0} → Result (A × Store F) → Type 0
  After (ok (a, s)) = P s
  After (err e) = Unit

  pub record Keeps {A : Type 0} (m : Tx F A) : Type 0 where
    pub at : (s : Store F) → P s → After (m s)

module _ {F : Type 0} {P : Store F → Type 0} where
  pub Keeps-pure : {A : Type 0} (a : A) → Keeps P (pure a)
  Keeps-pure a = record { at = λ s h. h }

  pub Keeps-gets : {A : Type 0} (f : Store F → A) → Keeps P (gets f)
  Keeps-gets f = record { at = λ s h. h }

  pub Keeps-require : {A : Type 0} (o : Option A) (e : DbError) → Keeps P (require o e)
  Keeps-require none e = record { at = λ s h. tt }
  Keeps-require (some a) e = record { at = λ s h. h }

  pub Keeps-if :
      {A : Type 0} (b : Bool) (m n : Tx F A) → Keeps P m → Keeps P n → Keeps P (if b then m else n)
  Keeps-if true m n km kn = km
  Keeps-if false m n km kn = kn

  pub Keeps-raise_if : (c : Bool) (e : DbError) → Keeps P (raise_if c e)
  Keeps-raise_if true e = record { at = λ s h. tt }
  Keeps-raise_if false e = record { at = λ s h. h }

  After-continue :
      {A B : Type 0} (r : Result (A × Store F)) (f : A → Tx F B)
      → After P r
      → ((a : A) → Keeps P (f a))
      → After P (continue r f)
  After-continue (ok (a, s)) f h k = (k a).at s h
  After-continue (err e) f h k = tt

  pub Keeps-bind :
      {A B : Type 0} (m : Tx F A) (f : A → Tx F B)
      → Keeps P m
      → ((a : A) → Keeps P (f a))
      → Keeps P (m >>= f)
  Keeps-bind m f km kf = record { at = λ s h. After-continue (m s) f (km.at s h) kf }

-- The writes of the store, each of which has to keep the property.
pub record Atoms {F : Type 0} ⦃fl : Float F⦄ (P : Store F → Type 0) : Type 0 where
  pub trades :
      (q : Trade F → Bool) (f : Trade F → Trade F)
      → KeepsRow f
      → (s : Store F) → P s
      → P (record s { trades = update_where q f s.trades })
  pub inserted : (row : ℕ → Trade F) → ((i : ℕ) → (row i).id ≡ i) → Keeps P (insert_trade row)
  pub states : (us : List (String × String)) (s : Store F) → P s → P (write_states us s)
  pub applied : (c side : String) (m : Mode) (sy : String) → Keeps P (apply_order c side m sy)
  pub updated : (c : String) (u : OrderUpdate F) (now : ℕ) → Keeps P (update_order_record c u now)
  pub intended :
      (m : Mode) (sy c side : String) (q : F) (now : ℕ) → Keeps P (insert_order m sy c side q now)

module _ {F : Type 0} ⦃fl : Float F⦄ {P : Store F → Type 0} (a : Atoms P) where
  pub Keeps-states : (us : List (String × String)) → Keeps P (modify (write_states us))
  Keeps-states us = record { at = λ s h. a.states us s h }

  pub Keeps-update :
      (q : Trade F → Bool) (f : Trade F → Trade F)
      → KeepsRow f
      → Keeps P (modify (with_trades (update_where q f)))
  Keeps-update q f k = record { at = λ s h. a.trades q f k s h }

module _ {F : Type 0} where
  pub write_identity-KeepsRow :
      (b : Bool) (i c : Option String) (p : ProtectionStatus)
      → KeepsRow {F = F} (write_identity b i c p)
  write_identity-KeepsRow true i c p = record {
    id = λ t. refl;
    mode = λ t. refl;
    symbol = λ t. refl;
    shut = λ t h. h;
  }
  write_identity-KeepsRow false i c p = record {
    id = λ t. refl;
    mode = λ t. refl;
    symbol = λ t. refl;
    shut = λ t h. h;
  }

  pub erase_identity-KeepsRow : (p : Option ProtectionStatus) → KeepsRow {F = F} (erase_identity p)
  erase_identity-KeepsRow p = record {
    id = λ t. refl;
    mode = λ t. refl;
    symbol = λ t. refl;
    shut = λ t h. h;
  }

  pub write_stop-KeepsRow : (h s : F) → KeepsRow (write_stop h s)
  write_stop-KeepsRow h s = record {
    id = λ t. refl;
    mode = λ t. refl;
    symbol = λ t. refl;
    shut = λ t h. h;
  }
