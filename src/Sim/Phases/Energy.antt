-- ===== src/Sim/Phases/Energy.antt =====
-- Charging the energy gauges, api/app/sim/phases/energy.py.
pub mod Capped
use go_forth.Prelude.{Bool, Option, none, some, List, [], ◌∷◌, String, map, not, if◌then◌else◌}
use go_forth.Prelude.Dict.{lookup}
use go_forth.Prelude.Float.{Float, ◌⊕◌, nought, fmin}
use go_forth.Sim.Effects.{Ability}
use go_forth.Sim.Energy.{energy_gain, energy_multiplier_for, energy_rule_for}
use go_forth.Sim.Field.{Field, TickContext}
use go_forth.Sim.Types.{at}
use go_forth.Sim.World.{World, BattleUnit, EnergyMeters, is_alive}

module _ {F : Type 0} ⦃f : Float F⦄ where
  -- new_energy_meters, and every meter after the gauge has been paid.
  abbrev pub no_energy : EnergyMeters F
  no_energy = record {
    damage_dealt = nought;
    damage_taken = nought;
    elapsed_seconds = nought;
    ally_defeated = nought;
  }

  -- `min(energy, ability.energy_cost)`, if the catalog has the ability.
  abbrev pub capped : Option (Ability F) → F → F
  capped none energy = energy
  capped (some ability) energy = fmin energy ability.energy_cost

  -- `unit.energy + energy_gain(...)`, once the elapsed time is on its meter.
  abbrev pub topped_up : TickContext F → BattleUnit F → F
  topped_up ctx u =
      let meters = record u.energy_meters {
        elapsed_seconds = u.energy_meters.elapsed_seconds ⊕ ctx.seconds_per_tick;
      } in
      let rule = energy_rule_for u.schools ctx.energy_rules in
      let multiplier = energy_multiplier_for u.schools (at u.side ctx.multipliers) in
      u.energy ⊕ energy_gain meters rule multiplier

  unfoldable pub charge : TickContext F → BattleUnit F → BattleUnit F
  charge ctx u = elim u.ability_id [
    | none ↦ u
    | some ability_id ↦ if not (is_alive u) then u else record u {
      energy = capped (lookup ability_id ctx.abilities) (topped_up ctx u);
      energy_meters = no_energy;
    }
  ]

  -- EnergyPhase.run
  unfoldable pub energy : TickContext F → Field F → Option (Field F)
  energy ctx s =
      some (record s { world = record s.world { units = map (charge ctx) s.world.units } })
