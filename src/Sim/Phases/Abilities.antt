-- ===== src/Sim/Phases/Abilities.antt =====
-- Spending the abilities whose gauges are full, api/app/sim/phases/abilities.py.
use go_forth.Prelude.{Option, none, some, List, [], ◌∷◌, String, not, if◌then◌else◌, ◌||◌}
use go_forth.Prelude.Dict.{lookup}
use go_forth.Prelude.Float.{Float, nought}
use go_forth.Sim.Casting.{ability_ready}
use go_forth.Sim.Effects.{Ability}
use go_forth.Sim.Events.{ability_cast}
use go_forth.Sim.Field.{AimedCast, Field, TickContext, find_unit, update_unit, emit, for_each}
use go_forth.Sim.Resolution.{Casting, no_outcome, swing_of, unit_of}
use go_forth.Sim.Resolution.Resolvers.{apply_effects}
use go_forth.Sim.Targeting.{acquire_target}
use go_forth.Sim.Types.{UnitRef}
use go_forth.Sim.World.{BattleUnit, is_alive, unit_ref}

module _ {F : Type 0} ⦃f : Float F⦄ where
  abbrev refs_of : Option (BattleUnit F) → List UnitRef
  refs_of none = []
  refs_of (some u) = unit_ref u ∷ []

  -- The cast itself: the gauge is emptied, the effects applied, the cast told.
  unfoldable pub cast_ability :
      TickContext F → BattleUnit F → Ability F → AimedCast F → Field F → Field F
  cast_ability ctx u ability aimed s =
      let start : Casting F = record {
        field = update_unit u.id (λ v. record v { energy = nought }) s;
        cast = record {
          side = u.side;
          origin = aimed.origin;
          caster = some u.id;
          target = aimed.target;
          follows_caster = aimed.follows_caster;
          outcome = no_outcome;
        };
      } in
      let done = apply_effects ctx ability.effects start in
      emit
        (ability_cast done.field.world.tick done.cast.origin ability.id (unit_ref u)
          (refs_of (unit_of done.field done.cast.target)) (swing_of done.cast.outcome))
        done.field

  -- One unit's turn.
  unfoldable pub use_ability : TickContext F → String → Field F → Field F
  use_ability ctx id s = elim (find_unit s.world id) [
    | none ↦ s
    | some u ↦ elim u.ability_id [
      | none ↦ s
      | some ability_id ↦ elim (lookup ability_id ctx.abilities) [
        | none ↦ s
        | some ability ↦
            if not (is_alive u) || not (ability_ready u ability)
            then s
            else elim (ctx.cast_policy s.world u ability (acquire_target s.world u ability.range)) [
              | none ↦ s
              | some aimed ↦ cast_ability ctx u ability aimed s
            ]
      ]
    ]
  ]

  -- AbilitiesPhase.run
  unfoldable pub abilities : TickContext F → Field F → Option (Field F)
  abilities ctx s = some (for_each (use_ability ctx) s.world.units s)
