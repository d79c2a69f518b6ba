-- ===== src/Sim/Geometry.antt =====
-- Plane geometry, api/app/sim/geometry.py, on the float operations that IEEE-754 fixes.
use go_forth.Prelude.{if◌then◌else◌, ◌||◌}
use go_forth.Prelude.Float.{Float, ◌⊕◌, ◌⊖◌, ◌⊗◌, ◌⊘◌, ◌≤?◌, ◌≟◌, nought}
use go_forth.Sim.Types.{Vec2}

module _ {F : Type 0} ⦃f : Float F⦄ where
  unfoldable pub distance : Vec2 F → Vec2 F → F
  distance a b = let dx = b.x ⊖ a.x in let dy = b.y ⊖ a.y in f.sqrt (dx ⊗ dx ⊕ dy ⊗ dy)

  -- `origin + (target - origin) * scale`, on both axes.
  abbrev along : Vec2 F → Vec2 F → F → Vec2 F
  along origin target scale = record {
    x = origin.x ⊕ (target.x ⊖ origin.x) ⊗ scale;
    y = origin.y ⊕ (target.y ⊖ origin.y) ⊗ scale;
  }

  unfoldable pub move_toward : Vec2 F → Vec2 F → F → Vec2 F
  move_toward origin target step =
      let gap = distance origin target in
      if gap ≟ nought || gap ≤? step then target else along origin target (step ⊘ gap)

  unfoldable pub point_along : Vec2 F → Vec2 F → F → Vec2 F
  point_along origin bearing reach =
      let gap = distance origin bearing in
      if gap ≟ nought then origin else along origin bearing (reach ⊘ gap)
