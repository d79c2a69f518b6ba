-- ===== src/Sim/Field.antt =====
-- What a phase is handed, the `TickContext` of api/app/sim/context.py, and what it works on: the
-- world, the events emitted so far and the generator of the context. A unit is the object of its id: a phase that changes a unit
-- changes the unit of that id in the world. `round` is Python's, of a float.
use go_forth.Prelude.{
  ℕ, Bool, Option, List, [], ◌∷◌, ◌++◌, String, first, str_eq, leb, if◌then◌else◌,
}
use go_forth.Prelude.Dict.{Dict}
use go_forth.Prelude.Float.{Float, ◌⊕◌, ◌⊗◌}
use go_forth.Sim.BattleMap.{MapConfig}
use go_forth.Sim.Effects.{Ability, Effect, UnitType}
use go_forth.Sim.Energy.{EnergySource, SchoolMultipliers}
use go_forth.Sim.Events.{BattleEvent}
use go_forth.Sim.Rng.{Rng}
use go_forth.Sim.Spells.{Spell}
use go_forth.Sim.Types.{BySide, Vec2}
use go_forth.Sim.World.{World, BattleUnit, School}

-- casting.AimedCast, its target by id.
pub record AimedCast (F : Type 0) : Type 0 where
  pub origin : Vec2 F
  pub target : Option String
  pub follows_caster : Bool

pub record TickContext (F : Type 0) : Type 0 where
  pub tick_rate : ℕ
  pub seconds_per_tick : F
  pub round : F → ℕ
  pub map_config : MapConfig F
  pub multipliers : BySide (School → SchoolMultipliers F)
  pub energy_rules : School → List (EnergySource F)
  pub abilities : Dict (Ability F)
  pub spells : Dict (Spell (Effect F))
  pub cast_policy :
      World F → BattleUnit F → Ability F → Option (BattleUnit F) → Option (AimedCast F)
  pub unit_types : Dict (UnitType F)

pub record Field (F : Type 0) : Type 0 where
  pub world : World F
  pub events : List (BattleEvent F)
  pub rng : Rng

module _ {F : Type 0} where
  -- config.to_ticks
  unfoldable pub to_ticks : ⦃f : Float F⦄ → F → TickContext F → ℕ
  to_ticks ⦃f⦄ seconds ctx =
      let rounded = ctx.round (seconds ⊗ f.of_nat ctx.tick_rate) in
      if leb 1 rounded then rounded else 1

  abbrev pub find_unit : World F → String → Option (BattleUnit F)
  find_unit w id = first (λ u. str_eq u.id id) w.units

  abbrev pub units_updated :
      String → (BattleUnit F → BattleUnit F) → List (BattleUnit F) → List (BattleUnit F)
  units_updated id change [] = []
  units_updated id change (u ∷ us) =
      (if str_eq u.id id then change u else u) ∷ units_updated id change us

  abbrev pub update_unit : String → (BattleUnit F → BattleUnit F) → Field F → Field F
  update_unit id change s = record s {
    world = record s.world { units = units_updated id change s.world.units };
  }

  abbrev pub emit : BattleEvent F → Field F → Field F
  emit event s = record s { events = s.events ++ event ∷ [] }

  -- A loop over the units that the world holds as it starts, by their ids.
  unfoldable pub for_each : {S : Type 0} → (String → S → S) → List (BattleUnit F) → S → S
  for_each body [] s = s
  for_each body (u ∷ us) s = for_each body us (body u.id s)

  module _ ⦃f : Float F⦄ where
    -- `unit.energy_meters[DAMAGE_DEALT] += amount`, and DAMAGE_TAKEN.
    abbrev pub add_dealt : F → BattleUnit F → BattleUnit F
    add_dealt amount u =
        let meters = u.energy_meters in
        record u { energy_meters = record meters { damage_dealt = meters.damage_dealt ⊕ amount } }

    abbrev pub add_taken : F → BattleUnit F → BattleUnit F
    add_taken amount u =
        let meters = u.energy_meters in
        record u { energy_meters = record meters { damage_taken = meters.damage_taken ⊕ amount } }
