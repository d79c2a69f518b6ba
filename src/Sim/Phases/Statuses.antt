-- ===== src/Sim/Phases/Statuses.antt =====
-- Ticking down burns and burning ground, api/app/sim/phases/statuses.py.
pub mod Embers
use go_forth.Prelude.{
  ℕ, ◌-◌, Bool, true, false, Option, none, some, List, [], ◌∷◌, String, map, select, ltb, leb, not,
  ◌||◌, if◌then◌else◌,
}
use go_forth.Prelude.Float.{Float, ◌⊗◌, ◌≤?◌}
use go_forth.Sim.Effects.{mage_factor}
use go_forth.Sim.Field.{Field, TickContext, find_unit, update_unit, for_each}
use go_forth.Sim.Geometry.{distance}
use go_forth.Sim.Resolution.{Casting, no_outcome, damage_unit}
use go_forth.Sim.Types.{Side, side_eq, Vec2, UnitRef}
use go_forth.Sim.World.{World, BattleUnit, GroundHazard, is_alive}

module _ {F : Type 0} ⦃f : Float F⦄ where
  -- `damage_unit` under a cast without a caster, whose outcome nobody reads.
  abbrev pub suffer : Side → Vec2 F → String → F → Option UnitRef → Field F → Field F
  suffer side origin id amount source s =
      let cast : Casting F = record {
        field = s;
        cast = record {
          side = side;
          origin = origin;
          caster = none;
          target = none;
          follows_caster = false;
          outcome = no_outcome;
        };
      } in
      (damage_unit id amount source cast).field

  -- One unit's turn in one hazard.
  unfoldable pub scorch : GroundHazard F → String → Field F → Field F
  scorch h id s = elim (find_unit s.world id) [
    | none ↦ s
    | some victim ↦
        if side_eq victim.side h.side || not (is_alive victim)
        then s
        else if not (distance h.center victim.position ≤? h.radius)
        then s
        else suffer h.side h.center id (h.damage_per_tick ⊗ mage_factor h.bonus_vs_mage victim.kind)
            h.source s
  ]

  unfoldable pub scorch_all : List (GroundHazard F) → Field F → Field F
  scorch_all [] s = s
  scorch_all (h ∷ hs) s = scorch_all hs (for_each (scorch h) s.world.units s)

  abbrev pub aged : GroundHazard F → GroundHazard F
  aged h = record h { ticks_remaining = h.ticks_remaining - 1 }

  -- _burn_the_ground
  unfoldable pub burn_the_ground : Field F → Field F
  burn_the_ground s =
      let hazards = s.world.hazards in
      let after = scorch_all hazards s in
      record after {
        world = record after.world {
          hazards = select (λ h. ltb 0 h.ticks_remaining) (map aged hazards);
        };
      }

  abbrev burn_out : BattleUnit F → BattleUnit F
  burn_out u = record u { burn = none }

  -- A burn's clock after its damage, and the end of it.
  abbrev count_burn : BattleUnit F → BattleUnit F
  count_burn u = elim u.burn [
    | none ↦ u
    | some b ↦
        let left = b.ticks_remaining - 1 in
        if leb left 0 || not (is_alive u)
        then record u { burn = none }
        else record u { burn = some (record b { ticks_remaining = left }) }
  ]

  -- One burning unit's turn.
  unfoldable pub smoulder : String → Field F → Field F
  smoulder id s = elim (find_unit s.world id) [
    | none ↦ s
    | some u ↦ elim u.burn [
      | none ↦ s
      | some b ↦
          if not (is_alive u)
          then update_unit id burn_out s
          else update_unit id count_burn (
              suffer u.side u.position id (b.damage_per_tick ⊗ mage_factor b.bonus_vs_mage u.kind)
                b.source s)
    ]
  ]

  -- _burn_the_burning
  unfoldable pub burn_the_burning : Field F → Field F
  burn_the_burning s = for_each smoulder s.world.units s

  -- StatusesPhase.run
  unfoldable pub statuses : TickContext F → Field F → Option (Field F)
  statuses ctx s = some (burn_the_burning (burn_the_ground s))
