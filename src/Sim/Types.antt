-- ===== src/Sim/Types.antt =====
-- The shared vocabulary of the simulator: api/app/sim/types.py.
use go_forth.Prelude.{◌≡◌, refl, Bool, true, false, String, List, [], ◌∷◌}

pub data Side : Type 0 where
  north south : Side

-- SIDES, in the order in which the program walks the sides.
abbrev pub sides : List Side
sides = north ∷ south ∷ []

abbrev pub opposing : Side → Side
opposing south = north
opposing north = south

abbrev pub side_eq : Side → Side → Bool
side_eq north north = true
side_eq south south = true
side_eq _ _ = false

-- A dict that has a value for each side.
pub record BySide {ℓ} (A : Type ℓ) : Type ℓ where
  pub at_north : A
  pub at_south : A

module _ {ℓ} {A : Type ℓ} where
  abbrev pub at : Side → BySide A → A
  at north d = d.at_north
  at south d = d.at_south

  abbrev pub put : Side → A → BySide A → BySide A
  put north a d = record d { at_north = a }
  put south a d = record d { at_south = a }

  abbrev pub both : (Side → A) → BySide A
  both f = record { at_north = f north; at_south = f south }

  pub at-put :
      (s t : Side) (a : A) (d : BySide A)
      → at t (put s a d) ≡ elim (side_eq s t) [ true ↦ a | false ↦ at t d ]
  at-put north north a d = refl
  at-put north south a d = refl
  at-put south north a d = refl
  at-put south south a d = refl

pub record Vec2 (F : Type 0) : Type 0 where
  pub x : F
  pub y : F

-- How a unit appears in the event stream.
pub record UnitRef : Type 0 where
  pub unit_id : String
  pub troop_id : String
  pub side : Side
  pub type_id : String
