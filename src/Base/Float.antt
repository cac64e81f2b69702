-- ===== src/Base/Float.antt =====
-- Python's `float` (an IEEE double) and `Decimal`: a type with the operations and tests that the
-- program uses. The code's results are computed with these, in the code's order of operations.
use Prim.Native.Nat.{ℕ, ◌*◌, ◌≤◌, ◌<◌}
use mathlib.Core.Path.{◌≡◌}
use mathlib.Core.Logic.{◌⊎◌}
use mathlib.Core.Bool.{Bool, true, false, not}
use native.Mathlib.Omega.{arith}
use binance_bot.Base.Tests.{if◌then◌else◌}

pub record Float (F : Type 0) : Type 0 where
  pub add : F → F → F
  pub sub : F → F → F
  pub mul : F → F → F
  pub div : F → F → F
  pub neg : F → F
  pub lt : F → F → Bool
  pub le : F → F → Bool
  pub is_finite : F → Bool
  -- the value nearest to the literal `n / d`
  pub lit : ℕ → ℕ → F

module _ {F : Type 0} ⦃fl : Float F⦄ where
  infixl 65 ◌⊕◌ ◌⊖◌
  infixl 70 ◌⊗◌ ◌⊘◌
  infix 50 ◌<?◌ ◌≤?◌
  abbrev pub ◌⊕◌ : F → F → F
  ◌⊕◌ = fl.add

  abbrev pub ◌⊖◌ : F → F → F
  ◌⊖◌ = fl.sub

  abbrev pub ◌⊗◌ : F → F → F
  ◌⊗◌ = fl.mul

  abbrev pub ◌⊘◌ : F → F → F
  ◌⊘◌ = fl.div

  abbrev pub negate : F → F
  negate = fl.neg

  -- `a < b`, and `b > a`
  abbrev pub ◌<?◌ : F → F → Bool
  ◌<?◌ = fl.lt

  -- `a <= b`, and `b >= a`
  abbrev pub ◌≤?◌ : F → F → Bool
  ◌≤?◌ = fl.le

  -- `math.isfinite`
  abbrev pub is_finite : F → Bool
  is_finite = fl.is_finite

  abbrev pub lit : ℕ → ℕ → F
  lit = fl.lit

  abbrev pub nought : F
  nought = fl.lit 0 1

  -- Python's `max(a, b)` and `min(a, b)` keep `a` unless `b` is strictly beyond it.
  abbrev pub fmax : F → F → F
  fmax a b = if a <? b then b else a

  abbrev pub fmin : F → F → F
  fmin a b = if b <? a then b else a

  abbrev pub fabs : F → F
  fabs a = if a <? nought then negate a else a

-- What IEEE comparison gives. A NaN is the value that is not `<=` itself.
pub record IsOrdered (F : Type 0) ⦃fl : Float F⦄ : Type 0 where
  pub finite-le : (x : F) → is_finite x ≡ true → x ≤? x ≡ true
  pub le-ends : (x y : F) → x ≤? y ≡ true → (x ≤? x ≡ true) × (y ≤? y ≡ true)
  pub lt-ends : (x y : F) → x <? y ≡ true → (x ≤? x ≡ true) × (y ≤? y ≡ true)
  pub le_trans : (x y z : F) → x ≤? y ≡ true → y ≤? z ≡ true → x ≤? z ≡ true
  pub lt-eq-not-le : (x y : F) → x ≤? x ≡ true → y ≤? y ≡ true → (x <? y) ≡ not (y ≤? x)
  pub le_total : (x y : F) → x ≤? x ≡ true → y ≤? y ≡ true → (x ≤? y ≡ true) ⊎ (y ≤? x ≡ true)
  pub nought_finite : is_finite (nought {F = F}) ≡ true
  -- literals are rounded monotonically
  pub lit-le : (m d n e : ℕ) → 0 < d → 0 < e → m * e ≤ n * d → lit {F = F} m d ≤? lit n e ≡ true

-- What IEEE rounding gives besides, for finite numbers.
pub record IsRounded (F : Type 0) ⦃fl : Float F⦄ : Type 0 where
  pub ordered : IsOrdered F
  pub sub_self : (x : F) → is_finite x ≡ true → x ⊖ x ≡ nought
  -- adding what is not negative does not go down
  pub add_grows : (x y : F) → is_finite x ≡ true → nought ≤? y ≡ true → (x ⊕ y <? x) ≡ false

module _ {F : Type 0} ⦃fl : Float F⦄ (ord : IsOrdered F) where
  -- `max` of two numbers is at least each of them.
  pub le-fmax_left : (a b : F) → a ≤? a ≡ true → a ≤? fmax a b ≡ true
  le-fmax_left a b h = ground (arith, ord.lt-ends a b, ord.lt-eq-not-le a b, ord.le_total a b)

  pub le-fmax_right : (a b : F) → a ≤? a ≡ true → b ≤? b ≡ true → b ≤? fmax a b ≡ true
  le-fmax_right a b h k = ground (arith, ord.lt-eq-not-le a b)

  -- `min` of two numbers is at most each of them.
  pub fmin-le_left : (a b : F) → a ≤? a ≡ true → fmin a b ≤? a ≡ true
  fmin-le_left a b h = ground (arith, ord.lt-ends b a, ord.lt-eq-not-le b a, ord.le_total b a)

  pub fmin-le_right : (a b : F) → a ≤? a ≡ true → b ≤? b ≡ true → fmin a b ≤? b ≡ true
  fmin-le_right a b h k = ground (arith, ord.lt-eq-not-le b a)
