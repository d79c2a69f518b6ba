-- ===== src/Sim/Resolution/Resolvers.antt =====
-- The resolver of each effect and `apply_effects`, api/app/sim/resolution.py.
use go_forth.Prelude.{
  ◌+◌, Bool, true, false, Option, none, some, List, [], ◌∷◌, ◌++◌, String, map, str_eq, not, ◌&&◌,
  ◌||◌, if◌then◌else◌,
}
use go_forth.Prelude.Decimal.{decimal}
use Prim.Native.String
use go_forth.Prelude.Float.{Float, ◌⊕◌, ◌⊖◌, ◌⊗◌, ◌≤?◌, nought, fmin}
use go_forth.Sim.Effects.{
  against_unit, DashToTarget, AreaDamage, Burn, BurningGround, Knockback, EnergyRefill, Effect,
  dash_to_target, area_damage, burn, burning_ground, knockback, energy_refill,
}
use go_forth.Sim.Field.{TickContext, to_ticks, update_unit}
use go_forth.Sim.Geometry.{distance, move_toward}
use go_forth.Sim.Resolution.{
  Casting, unit_of, source_ref, enemies_within, allies_within, on_field, damage_unit, damage_base,
  push_away, lit,
}
use go_forth.Sim.Types.{UnitRef}
use go_forth.Sim.World.{BattleUnit, contains_id}

module _ {F : Type 0} ⦃f : Float F⦄ where
  -- _resolve_dash
  unfoldable pub resolve_dash : DashToTarget F → Casting F → Casting F
  resolve_dash effect c = elim (unit_of c.field c.cast.caster) [
    | none ↦ c
    | some caster ↦ elim (unit_of c.field c.cast.target) [
      | none ↦ c
      | some target ↦
          let gap = distance caster.position target.position in
          let step = fmin effect.max_distance (gap ⊖ effect.stop_short) in
          let place = move_toward caster.position target.position step in
          let moved = on_field (update_unit caster.id λ u. record u { position = place }) c in
          if caster.emplacement || step ≤? nought
          then c
          else if c.cast.follows_caster
          then record moved { cast = record c.cast { origin = place } }
          else moved
    ]
  ]

  unfoldable pub blast : AreaDamage F → List (BattleUnit F) → Option UnitRef → Casting F → Casting F
  blast effect [] source c = c
  blast effect (victim ∷ rest) source c =
      blast effect rest source
        (damage_unit victim.id (against_unit effect.damage victim.kind) source c)

  -- _resolve_area_damage
  unfoldable pub resolve_area_damage : AreaDamage F → Casting F → Casting F
  resolve_area_damage effect c =
      let hit = blast effect (enemies_within c c.cast.origin effect.radius) (source_ref c) c in
      if effect.hits_base then damage_base effect.radius effect.damage hit else hit

  unfoldable pub change_each :
      (BattleUnit F → BattleUnit F) → List (BattleUnit F) → Casting F → Casting F
  change_each change [] c = c
  change_each change (victim ∷ rest) c =
      change_each change rest (on_field (update_unit victim.id change) c)

  -- The hop: each unit that caught the burn passes it to its neighbours that did not.
  unfoldable pub spread :
      (BattleUnit F → BattleUnit F) → F → List String → List (BattleUnit F) → Casting F → Casting F
  spread light radius already [] c = c
  spread light radius already (victim ∷ rest) c = spread light radius already rest (
      change_each (λ u. if contains_id already u.id then u else light u)
        (enemies_within c victim.position radius) c)

  -- _resolve_burn
  unfoldable pub resolve_burn : TickContext F → Burn F → Casting F → Casting F
  resolve_burn ctx effect c =
      let ticks = to_ticks effect.duration_seconds ctx in
      let damage_per_tick = effect.damage_per_second ⊗ ctx.seconds_per_tick in
      let light = lit damage_per_tick ticks effect.bonus_vs_mage (source_ref c) in
      let caught = enemies_within c c.cast.origin effect.radius in
      let burning = change_each light caught c in
      if effect.spread_radius ≤? nought
      then burning
      else spread light effect.spread_radius (map (λ u. u.id) caught) caught burning

  -- _resolve_burning_ground
  unfoldable pub resolve_burning_ground : TickContext F → BurningGround F → Casting F → Casting F
  resolve_burning_ground ctx effect c =
      let world = c.field.world in
      record c {
        field = record c.field {
          world = record world {
            hazards =
                world.hazards
                ++ record {
                  id = String.◌++◌ "hz" (decimal world.next_hazard_id);
                  kind = "burningGround";
                  side = c.cast.side;
                  center = c.cast.origin;
                  radius = effect.radius;
                  damage_per_tick = effect.damage_per_second ⊗ ctx.seconds_per_tick;
                  ticks_remaining = to_ticks effect.duration_seconds ctx;
                  bonus_vs_mage = effect.bonus_vs_mage;
                  source = source_ref c;
                }
                  ∷ [];
            next_hazard_id = world.next_hazard_id + 1;
          };
        };
      }

  -- _resolve_knockback
  unfoldable pub resolve_knockback : TickContext F → Knockback F → Casting F → Casting F
  resolve_knockback ctx effect c =
      change_each
        (λ u. if u.emplacement then u else record u {
          position =
              push_away c.cast.origin u.position effect.distance ctx.map_config.size_width
                ctx.map_config.size_height;
        })
        (enemies_within c c.cast.origin effect.radius) c

  abbrev is_caster : Option String → BattleUnit F → Bool
  is_caster none u = false
  is_caster (some id) u = str_eq u.id id

  abbrev has_ability : BattleUnit F → Bool
  has_ability u = elim u.ability_id [ none ↦ false | some _ ↦ true ]

  -- _resolve_energy_refill
  unfoldable pub resolve_energy_refill : EnergyRefill F → Casting F → Casting F
  resolve_energy_refill effect c =
      change_each
        (λ u.
          if not (has_ability u) || not effect.include_self && is_caster c.cast.caster u
          then u
          else record u { energy = u.energy ⊕ effect.amount })
        (allies_within c c.cast.origin effect.radius) c

  -- The table _RESOLVERS.
  unfoldable pub resolve : TickContext F → Effect F → Casting F → Casting F
  resolve ctx (dash_to_target e) c = resolve_dash e c
  resolve ctx (area_damage e) c = resolve_area_damage e c
  resolve ctx (burn e) c = resolve_burn ctx e c
  resolve ctx (burning_ground e) c = resolve_burning_ground ctx e c
  resolve ctx (knockback e) c = resolve_knockback ctx e c
  resolve ctx (energy_refill e) c = resolve_energy_refill e c

  unfoldable pub apply_effects : TickContext F → List (Effect F) → Casting F → Casting F
  apply_effects ctx [] c = c
  apply_effects ctx (effect ∷ rest) c = apply_effects ctx rest (resolve ctx effect c)
