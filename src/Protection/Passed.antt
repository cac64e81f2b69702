-- ===== src/Protection/Passed.antt =====
-- What is known of checks that passed: each test before the result did (app/execution/protection.py).
use binance_bot.Base.{
  ◌≡◌, refl, String, Bool, true, false, Option, none, some, arith, if◌then◌else◌,
}
use mathlib.Core.Path.{sym}
use binance_bot.Exchange.{Checked, passed, raised}
use binance_bot.Protection.{and_then, require}

module _ {A : Type 0} where
  pub guard-passed :
      (b : Bool) (e : String) (m : Checked A) (x : A)
      → (if b then raised e else m) ≡ passed x
      → (b ≡ false) × (m ≡ passed x)
  guard-passed true e m x h = absurd (ground arith)
  guard-passed false e m x h = (refl, h)

  pub passed-inj : {x y : A} → passed x ≡ passed y → y ≡ x
  passed-inj h = ground arith

  pub require-passed : (o : Option A) (e : String) (x : A) → require o e ≡ passed x → o ≡ some x
  require-passed none e x h = absurd (ground arith)
  require-passed (some a) e x h = ground arith

  pub held-passed :
      (b : Bool) (e : String) (a x : A)
      → (if b then passed a else raised e) ≡ passed x
      → (b ≡ true) × (a ≡ x)
  held-passed true e a x h = (refl, passed-inj (sym h))
  held-passed false e a x h = absurd (ground arith)

module _ {A B : Type 0} where
  pub option-passed :
      (o : Option A) (e : String) (f : A → Checked B) (y : B)
      → elim o [ none ↦ raised e | some x ↦ f x ] ≡ passed y
      → (x : A) × (o ≡ some x) × (f x ≡ passed y)
  option-passed none e f y h = absurd (ground arith)
  option-passed (some x) e f y h = (x, refl, h)

  pub and_then-passed :
      (r : Checked A) (f : A → Checked B) (y : B)
      → and_then r f ≡ passed y
      → (x : A) × (r ≡ passed x) × (f x ≡ passed y)
  and_then-passed (passed x) f y h = (x, refl, h)
  and_then-passed (raised e) f y h = absurd (ground arith)
