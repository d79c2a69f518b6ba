-- ===== src/Prelude/Float.antt =====
-- What the program does with a `float`. No float type is defined here: the type and its operations
-- are a parameter, and a theorem that needs laws of them names `IsFloat`.
use Prim.Native.Nat.{ℕ, ◌/◌}
use mathlib.Core.Path.{◌≡◌}
use mathlib.Core.Bool.{Bool, true, not}
use native.Mathlib.Omega.{arith}
use go_forth.Prelude.Tests.{if◌then◌else◌}
use go_forth.Prelude.Order.{IsKey}
use go_forth.Prelude.Int.{ℤ, pos, pos_part, ◌+ℤ◌, ◌-ℤ◌, ◌*ℤ◌, leb_ℤ, ltb_ℤ, eq_ℤ}

pub record Float (F : Type 0) : Type 0 where
  pub of_nat : ℕ → F
  pub add : F → F → F
  pub sub : F → F → F
  pub mul : F → F → F
  pub div : F → F → F
  pub sqrt : F → F
  pub le : F → F → Bool
  pub lt : F → F → Bool
  pub eq : F → F → Bool

module _ {F : Type 0} ⦃f : Float F⦄ where
  infixl 65 ◌⊕◌ ◌⊖◌
  infixl 70 ◌⊗◌ ◌⊘◌
  infix 50 ◌≤?◌ ◌<?◌ ◌≟◌
  infix 4 ◌≼◌
  abbrev pub ◌⊕◌ : F → F → F
  ◌⊕◌ = f.add

  abbrev pub ◌⊖◌ : F → F → F
  ◌⊖◌ = f.sub

  abbrev pub ◌⊗◌ : F → F → F
  ◌⊗◌ = f.mul

  abbrev pub ◌⊘◌ : F → F → F
  ◌⊘◌ = f.div

  abbrev pub ◌≤?◌ : F → F → Bool
  ◌≤?◌ = f.le

  abbrev pub ◌<?◌ : F → F → Bool
  ◌<?◌ = f.lt

  abbrev pub ◌≟◌ : F → F → Bool
  ◌≟◌ = f.eq

  abbrev pub nought : F
  nought = f.of_nat 0

  -- Python's `min(a, b)` and `max(a, b)` keep the first of two that compare equal.
  abbrev pub fmin : F → F → F
  fmin a b = if f.lt b a then b else a

  abbrev pub fmax : F → F → F
  fmax a b = if f.lt a b then b else a

  abbrev pub ◌≼◌ : F → F → Type 0
  a ≼ b = f.le a b ≡ true

-- The laws of IEEE-754 arithmetic that the theorems use. They hold of correctly rounded operations
-- away from NaN, with 0.0 and -0.0 taken as one value: the program's numbers are finite, and its
-- own checks keep NaN out.
pub record IsFloat (F : Type 0) ⦃f : Float F⦄ : Type 0 where
  pub key : IsKey f.eq f.lt
  pub eq_of_same : (a b : F) → f.eq a b ≡ true → a ≡ b
  pub le-not-lt : (a b : F) → f.le a b ≡ not (f.lt b a)
  pub add_nought : (a : F) → f.add a (f.of_nat 0) ≡ a
  pub sub_nonneg : (a b : F) → f.le b a ≡ true → f.le (f.of_nat 0) (f.sub a b) ≡ true
  pub le-add : (a b : F) → f.le (f.of_nat 0) b ≡ true → f.le a (f.add a b) ≡ true
  pub sub-le : (a b : F) → f.le (f.of_nat 0) b ≡ true → f.le (f.sub a b) a ≡ true
  pub mul_nonneg :
      (a b : F)
      → f.le (f.of_nat 0) a ≡ true
      → f.le (f.of_nat 0) b ≡ true
      → f.le (f.of_nat 0) (f.mul a b) ≡ true

-- Whole numbers satisfy the laws: the concrete numbers of the witnesses. Their division drops
-- the fraction and their root is the number itself: no law speaks of either.
instance abbrev pub int_float : Float ℤ
int_float = record {
  of_nat = pos;
  add = ◌+ℤ◌;
  sub = ◌-ℤ◌;
  mul = ◌*ℤ◌;
  div = λ a b. pos (pos_part a / pos_part b);
  sqrt = λ a. a;
  le = leb_ℤ;
  lt = ltb_ℤ;
  eq = eq_ℤ;
}

int-IsKey : IsKey eq_ℤ ltb_ℤ
int-IsKey = record {
  same_refl = λ a. ground arith;
  same_sym = λ a b h. ground arith;
  less_of_same = λ a b h. ground arith;
  less_asym = λ a b h. ground arith;
  same_of_neither = λ a b h k. ground arith;
  less_trans = λ a b c h k. ground arith;
}

mul_ℤ_nonneg :
    (a b : ℤ) → leb_ℤ (pos 0) a ≡ true → leb_ℤ (pos 0) b ≡ true → leb_ℤ (pos 0) (a *ℤ b) ≡ true
mul_ℤ_nonneg a b h k = ground arith

pub int-IsFloat : IsFloat ℤ
int-IsFloat = record {
  key = int-IsKey;
  eq_of_same = λ a b h. ground arith;
  le-not-lt = λ a b. ground arith;
  add_nought = λ a. ground arith;
  sub_nonneg = λ a b h. ground arith;
  le-add = λ a b h. ground arith;
  sub-le = λ a b h. ground arith;
  mul_nonneg = mul_ℤ_nonneg;
}
