-- ===== src/Sim/Tick/Effects.antt =====
-- That the effects of a cast keep everybody at or above 0 (api/app/sim/resolution.py).
use go_forth.Prelude.{ℕ, Option, List, [], ◌∷◌, String}
use go_forth.Prelude.Keeps.{if-keeps, Option-keeps}
use go_forth.Prelude.Float.{Float, IsFloat, ◌⊖◌}
use go_forth.Sim.Effects.{
  DamageProfile, AreaDamage, DashToTarget, Effect, dash_to_target, area_damage, burn,
  burning_ground, knockback, energy_refill, against_base,
}
use go_forth.Sim.Field.{TickContext, update_unit, find_unit, add_dealt}
use go_forth.Sim.Resolution.{
  Casting, unit_of, enemies_within, on_field, wounded, pay_caster, count_damage, damage_unit,
  damage_base, lit,
}
use go_forth.Sim.Resolution.Resolvers.{
  resolve_dash, blast, resolve_area_damage, change_each, spread, resolve_burn,
  resolve_burning_ground, resolve_knockback, resolve_energy_refill, resolve, apply_effects,
}
use go_forth.Sim.Tick.Vitals.{
  IsFit, IsVital, update_unit-IsVital, emit-IsVital, floor_nonneg, spared_nonneg, put-IsVital,
}
use go_forth.Sim.Types.{opposing, at, UnitRef}
use go_forth.Sim.World.{BattleUnit, is_alive, contains_id}

module _ {F : Type 0} ⦃f : Float F⦄ (law : IsFloat F) (t : ℕ) where
  abbrev pub IsVitalCast : Casting F → Type 0
  IsVitalCast c = IsVital t c.field

  wounded-IsFit : (amount : F) (u : BattleUnit F) → IsFit u → IsFit (wounded amount u)
  wounded-IsFit amount u h = floor_nonneg law (u.hp ⊖ amount)

  pay_caster-keeps :
      (amount : F) (c : Casting F) → IsVitalCast c → IsVitalCast (pay_caster amount c)
  pay_caster-keeps amount c h = Option-keeps IsVitalCast c.cast.caster c _ h (λ id.
      update_unit-IsVital t id _ c.field
        (λ u k. if-keeps IsFit (is_alive u) (add_dealt amount u) u k k) h)

  pub damage_unit-keeps :
      (id : String) (amount : F) (source : Option UnitRef) (c : Casting F)
      → IsVitalCast c
      → IsVitalCast (damage_unit id amount source c)
  unfolding damage_unit
  damage_unit-keeps id amount source c h =
      Option-keeps IsVitalCast (find_unit c.field.world id) c _ h (λ victim.
        let hurt =
          pay_caster-keeps amount
            (count_damage amount (on_field (update_unit id (wounded amount)) c))
            (update_unit-IsVital t id (wounded amount) c.field (wounded-IsFit amount) h) in
        if-keeps IsVitalCast _ _ _ h (if-keeps IsVitalCast _ _ _ (emit-IsVital t _ _ hurt) hurt))

  damage_base-keeps :
      (radius : F) (profile : DamageProfile F) (c : Casting F)
      → IsVitalCast c
      → IsVitalCast (damage_base radius profile c)
  unfolding damage_base
  damage_base-keeps radius profile c h =
      let enemy = opposing c.cast.side in
      let base = at enemy c.field.world.bases in
      if-keeps IsVitalCast _ _ _ h
        (put-IsVital law t enemy _ c.field (spared_nonneg law base.hp (against_base profile)).0 h)

  change_each-keeps :
      (change : BattleUnit F → BattleUnit F) (us : List (BattleUnit F)) (c : Casting F)
      → ((u : BattleUnit F) → IsFit u → IsFit (change u))
      → IsVitalCast c
      → IsVitalCast (change_each change us c)
  unfolding change_each
  change_each-keeps change [] c k h = h
  change_each-keeps change (u ∷ us) c k h =
      change_each-keeps change us _ k (update_unit-IsVital t u.id change c.field k h)

  lit-IsFit :
      (damage : F) (ticks : ℕ) (bonus : F) (source : Option UnitRef) (u : BattleUnit F)
      → IsFit u
      → IsFit (lit damage ticks bonus source u)
  unfolding lit
  lit-IsFit damage ticks bonus source u h = Option-keeps (IsFit {F = F}) u.burn _ _ h (λ b. h)

  blast-keeps :
      (effect : AreaDamage F) (us : List (BattleUnit F)) (source : Option UnitRef) (c : Casting F)
      → IsVitalCast c
      → IsVitalCast (blast effect us source c)
  unfolding blast
  blast-keeps effect [] source c h = h
  blast-keeps effect (u ∷ us) source c h =
      blast-keeps effect us source _ (damage_unit-keeps u.id _ source c h)

  spread-keeps :
      (light : BattleUnit F → BattleUnit F) (radius : F) (already : List String)
      (us : List (BattleUnit F)) (c : Casting F)
      → ((u : BattleUnit F) → IsFit u → IsFit (light u))
      → IsVitalCast c
      → IsVitalCast (spread light radius already us c)
  unfolding spread
  spread-keeps light radius already [] c k h = h
  spread-keeps light radius already (u ∷ us) c k h = spread-keeps light radius already us _ k (
      change_each-keeps _ (enemies_within c u.position radius) c
        (λ v fit. if-keeps IsFit (contains_id already v.id) v (light v) fit (k v fit)) h)

  resolve_dash-keeps :
      (effect : DashToTarget F) (c : Casting F)
      → IsVitalCast c
      → IsVitalCast (resolve_dash effect c)
  unfolding resolve_dash
  resolve_dash-keeps effect c h =
      Option-keeps IsVitalCast (unit_of c.field c.cast.caster) c _ h (λ caster.
        Option-keeps IsVitalCast (unit_of c.field c.cast.target) c _ h (λ target.
          let moved = update_unit-IsVital t caster.id _ c.field (λ u k. k) h in
          if-keeps IsVitalCast _ _ _ h (if-keeps IsVitalCast _ _ _ moved moved)))

  resolve-keeps :
      (ctx : TickContext F) (effect : Effect F) (c : Casting F)
      → IsVitalCast c
      → IsVitalCast (resolve ctx effect c)
  unfolding resolve resolve_area_damage resolve_burn resolve_burning_ground resolve_knockback
      resolve_energy_refill
  resolve-keeps ctx (dash_to_target e) c h = resolve_dash-keeps e c h
  resolve-keeps ctx (area_damage e) c h =
      let hit = blast-keeps e (enemies_within c c.cast.origin e.radius) _ c h in
      if-keeps IsVitalCast _ _ _ (damage_base-keeps e.radius e.damage _ hit) hit
  resolve-keeps ctx (burn e) c h =
      let burning =
        change_each-keeps _ (enemies_within c c.cast.origin e.radius) c (lit-IsFit _ _ _ _) h in
      if-keeps IsVitalCast _ _ _ burning (spread-keeps _ _ _ _ _ (lit-IsFit _ _ _ _) burning)
  resolve-keeps ctx (burning_ground e) c h = record {
    units = h.units;
    north_base = h.north_base;
    south_base = h.south_base;
    clock = h.clock;
  }
  resolve-keeps ctx (knockback e) c h =
      change_each-keeps _ _ c (λ u k. if-keeps (IsFit {F = F}) u.emplacement _ _ k k) h
  resolve-keeps ctx (energy_refill e) c h =
      change_each-keeps _ _ c (λ u k. if-keeps (IsFit {F = F}) _ _ _ k k) h

  pub apply_effects-keeps :
      (ctx : TickContext F) (effects : List (Effect F)) (c : Casting F)
      → IsVitalCast c
      → IsVitalCast (apply_effects ctx effects c)
  unfolding apply_effects
  apply_effects-keeps ctx [] c h = h
  apply_effects-keeps ctx (e ∷ es) c h = apply_effects-keeps ctx es _ (resolve-keeps ctx e c h)
