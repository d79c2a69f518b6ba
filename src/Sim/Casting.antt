-- ===== src/Sim/Casting.antt =====
-- When a unit with a full gauge spends it, api/app/sim/casting.py: the default policy.
use go_forth.Prelude.{Bool, true, false, Option, none, some, any, if◌then◌else◌}
use go_forth.Prelude.Float.{Float, ◌≤?◌}
use go_forth.Sim.Effects.{
  Ability, origin_self, origin_target, Effect, dash_to_target, area_damage, burn, burning_ground,
  knockback, energy_refill,
}
use go_forth.Sim.Field.{AimedCast}
use go_forth.Sim.Geometry.{distance}
use go_forth.Sim.World.{World, BattleUnit}

abbrev is_dash : {F : Type 0} → Effect F → Bool
is_dash (dash_to_target _) = true
is_dash (area_damage _) = false
is_dash (burn _) = false
is_dash (burning_ground _) = false
is_dash (knockback _) = false
is_dash (energy_refill _) = false

module _ {F : Type 0} ⦃f : Float F⦄ where
  abbrev pub ability_ready : BattleUnit F → Ability F → Bool
  ability_ready u ability = ability.energy_cost ≤? u.energy

  -- FirstUsefulMoment._would_waste_a_dash
  abbrev pub would_waste_a_dash : BattleUnit F → Ability F → BattleUnit F → Bool
  would_waste_a_dash u ability target =
      if any is_dash ability.effects then distance u.position target.position ≤? u.range else false

  -- FirstUsefulMoment.aim
  unfoldable pub first_useful_moment :
      World F → BattleUnit F → Ability F → Option (BattleUnit F) → Option (AimedCast F)
  first_useful_moment w u ability target = elim ability.origin [
    | origin_self ↦ some (record { origin = u.position; target = none; follows_caster = true })
    | origin_target ↦ elim target [
      | none ↦ none
      | some t ↦
          if would_waste_a_dash u ability t
          then none
          else some (record { origin = t.position; target = some t.id; follows_caster = false })
    ]
  ]
