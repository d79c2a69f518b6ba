-- ===== src/Prelude/Double.antt =====
-- Python's `float` as a value can arrive from outside: the finite numbers, NaN and the two infinities.
-- Elsewhere floats are finite, the type `F`.
use go_forth.Prelude.Float.{Float, ◌≟◌}
use mathlib.Core.Bool.{Bool, true, false}

pub data Double (F : Type 0) : Type 0 where
  finite : F → Double F
  nan infinity minus_infinity : Double F

-- `==`, to which NaN is not even itself.
unfoldable pub double_eq : {F : Type 0} ⦃f : Float F⦄ → Double F → Double F → Bool
double_eq (finite a) (finite b) = a ≟ b
double_eq infinity infinity = true
double_eq minus_infinity minus_infinity = true
double_eq _ _ = false
