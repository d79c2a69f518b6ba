-- ===== src/Sim/Tick/Phases.antt =====
-- That each phase keeps everybody at or above 0 and the clock where it stands (api/app/sim/phases).
use go_forth.Prelude.{
  ℕ, ◌-◌, refl, Bool, true, false, not, ltb, Option, none, some, List, [], ◌∷◌, String, All,
  All-map,
}
use go_forth.Prelude.Dict.{lookup}
use go_forth.Prelude.Keeps.{if-keeps, Option-keeps, Holds, none-Holds, some-Holds, bind-Holds}
use go_forth.Prelude.Float.{Float, IsFloat, ◌⊖◌, fmin}
use go_forth.Sim.Field.{Field, TickContext, emit, find_unit, add_taken, add_dealt}
use go_forth.Sim.Events.{BattleEvent}
use go_forth.Sim.Phases.{◌>>=◌}
use go_forth.Sim.Phases.Abilities.{cast_ability, use_ability, abilities}
use go_forth.Sim.Phases.Combat.{
  set_cooldown, order_of, swing_at_the_base, struck, swing_at, act, fight, combat,
}
use go_forth.Sim.Phases.Energy.{charge, energy}
use go_forth.Sim.Phases.Movement.{walk, movement, pace_of}
use go_forth.Sim.Phases.Orders.{posted, posted_all, orders}
use go_forth.Sim.Phases.Spells.{land, land_all, spells}
use go_forth.Sim.Phases.Statuses.{
  suffer, scorch, scorch_all, burn_the_ground, smoulder, burn_the_burning, statuses,
}
use go_forth.Sim.Spells.{SpellInjection}
use go_forth.Sim.Targeting.{acquire_target}
use go_forth.Sim.Tick.Effects.{damage_unit-keeps, apply_effects-keeps}
use go_forth.Sim.Tick.Vitals.{
  IsFit, IsVital, update_unit-IsVital, emit-IsVital, floor_nonneg, spared_nonneg, put-IsVital,
  for_each-keeps,
}
use go_forth.Sim.Types.{Side, opposing, at, Vec2, UnitRef}
use go_forth.Sim.World.{World, BattleUnit, GroundHazard, is_alive}

pub chain-Holds :
    {A B : Type 0} (P : A → Type 0) (Q : B → Type 0) (o : Option A) (g : A → Option B)
    → Holds P o
    → ((a : A) → P a → Holds Q (g a))
    → Holds Q (o >>= g)
chain-Holds P Q none g h k = none-Holds Q
chain-Holds P Q (some a) g h k = k a (h.holds a refl)

module _ {F : Type 0} ⦃f : Float F⦄ (law : IsFloat F) (t : ℕ) (ctx : TickContext F) where
  posted-IsFit :
      (w : World F) (u : BattleUnit F) → IsFit u → Holds IsFit (posted w ctx.map_config u)
  unfolding posted
  posted-IsFit w u h =
      Option-keeps (Holds (IsFit {F = F})) (order_of w u.troop_id) none _ (none-Holds _) (λ order.
        Option-keeps (Holds (IsFit {F = F})) _ none _ (none-Holds _) (λ p. some-Holds IsFit h))

  posted_all-IsFit :
      (w : World F) (us : List (BattleUnit F))
      → All IsFit us
      → Holds (All IsFit) (posted_all w ctx.map_config us)
  unfolding posted_all
  posted_all-IsFit w [] h = some-Holds (All IsFit) tt
  posted_all-IsFit w (u ∷ us) h =
      bind-Holds IsFit (All IsFit) (posted w ctx.map_config u) _ (posted-IsFit w u h.0) (λ v fit.
        bind-Holds (All IsFit) (All IsFit) (posted_all w ctx.map_config us) _
          (posted_all-IsFit w us h.1) (λ vs fits. some-Holds (All IsFit) (fit, fits)))

  pub orders-keeps : (s : Field F) → IsVital t s → Holds (IsVital t) (orders ctx s)
  unfolding orders
  orders-keeps s h =
      bind-Holds (All IsFit) (IsVital t) (posted_all s.world ctx.map_config s.world.units) _
        (posted_all-IsFit s.world s.world.units h.units)
        (λ us fits. some-Holds (IsVital t) (record {
          units = fits;
          north_base = h.north_base;
          south_base = h.south_base;
          clock = h.clock;
        }))

  walk-keeps : (id : String) (s : Field F) → IsVital t s → IsVital t (walk ctx id s)
  unfolding walk
  walk-keeps id s h = Option-keeps (IsVital t) (find_unit s.world id) s _ h (λ u.
      Option-keeps (IsVital t) (pace_of s.world u) s _ h
        (λ scale. if-keeps (IsVital t) _ _ _ h (update_unit-IsVital t id _ s (λ v k. k) h)))

  pub movement-keeps : (s : Field F) → IsVital t s → Holds (IsVital t) (movement ctx s)
  unfolding movement
  movement-keeps s h =
      some-Holds (IsVital t) (for_each-keeps (IsVital t) (walk ctx) s.world.units s walk-keeps h)

  charge-IsFit : (u : BattleUnit F) → IsFit u → IsFit (charge ctx u)
  unfolding charge
  charge-IsFit u h =
      Option-keeps (IsFit {F = F}) u.ability_id u _ h (λ id. if-keeps (IsFit {F = F}) _ _ _ h h)

  pub energy-keeps : (s : Field F) → IsVital t s → Holds (IsVital t) (energy ctx s)
  unfolding energy
  energy-keeps s h = some-Holds (IsVital t) (record {
    units = All-map IsFit (charge ctx) IsFit s.world.units charge-IsFit h.units;
    north_base = h.north_base;
    south_base = h.south_base;
    clock = h.clock;
  })

  land-keeps : (i : SpellInjection F) (s : Field F) → IsVital t s → Holds (IsVital t) (land ctx i s)
  unfolding land
  land-keeps i s h =
      Option-keeps (Holds (IsVital t)) (lookup i.spell_id ctx.spells) none _ (none-Holds _)
        (λ spell.
          some-Holds (IsVital t)
            (emit-IsVital t _ _ (apply_effects-keeps law t ctx spell.effects _ h)))

  land_all-keeps :
      (is : List (SpellInjection F)) (s : Field F)
      → IsVital t s
      → Holds (IsVital t) (land_all ctx is s)
  unfolding land_all
  land_all-keeps [] s h = some-Holds (IsVital t) h
  land_all-keeps (i ∷ is) s h =
      bind-Holds (IsVital t) (IsVital t) (land ctx i s) _ (land-keeps i s h) (land_all-keeps is)

  pub spells-keeps : (s : Field F) → IsVital t s → Holds (IsVital t) (spells ctx s)
  unfolding spells
  spells-keeps s h = land_all-keeps _ _ (record {
    units = h.units;
    north_base = h.north_base;
    south_base = h.south_base;
    clock = h.clock;
  })

  use_ability-keeps : (id : String) (s : Field F) → IsVital t s → IsVital t (use_ability ctx id s)
  unfolding use_ability cast_ability
  use_ability-keeps id s h = Option-keeps (IsVital t) (find_unit s.world id) s _ h (λ u.
      Option-keeps (IsVital t) u.ability_id s _ h (λ ability_id.
        Option-keeps (IsVital t) (lookup ability_id ctx.abilities) s _ h (λ ability.
          if-keeps (IsVital t) _ _ _ h (
            Option-keeps (IsVital t)
              (ctx.cast_policy s.world u ability (acquire_target s.world u ability.range)) s _ h
              (λ aimed. emit-IsVital t _ _ (
                apply_effects-keeps law t ctx ability.effects _
                  (update_unit-IsVital t u.id _ s (λ v k. k) h)))))))

  pub abilities-keeps : (s : Field F) → IsVital t s → Holds (IsVital t) (abilities ctx s)
  unfolding abilities
  abilities-keeps s h =
      some-Holds (IsVital t)
        (for_each-keeps (IsVital t) (use_ability ctx) s.world.units s use_ability-keeps h)

  -- The field that a swing at the base leaves.
  IsVitalSwing : Bool × Field F → Type 0
  IsVitalSwing r = IsVital t r.1

  still-keeps : (s : Field F) → IsVital t s → IsVitalSwing (false, s)
  unfolding IsVitalSwing
  still-keeps s h = h

  told-keeps : (e : BattleEvent F) (s : Field F) → IsVital t s → IsVitalSwing (true, emit e s)
  unfolding IsVitalSwing
  told-keeps e s h = emit-IsVital t e s h

  swing_at_the_base-keeps :
      (u : BattleUnit F) (s : Field F) → IsVital t s → IsVitalSwing (swing_at_the_base ctx u s)
  unfolding swing_at_the_base
  swing_at_the_base-keeps u s h =
      let side = opposing u.side in
      let base = at side s.world.bases in
      let hurt =
        put-IsVital law t side (record base { hp = base.hp ⊖ fmin u.damage base.hp }) s
          (spared_nonneg law base.hp u.damage).1 h in
      if-keeps IsVitalSwing _ _ _ (still-keeps s h) (
        if-keeps IsVitalSwing _ _ _ (still-keeps s h) (
          told-keeps _ _
            (update_unit-IsVital t u.id (add_dealt (fmin u.damage base.hp)) _ (λ v k. k) hurt)))

  swing_at-keeps :
      (u target : BattleUnit F) (s : Field F) → IsVital t s → IsVital t (swing_at ctx u target s)
  unfolding swing_at
  swing_at-keeps u target s h =
      let dealt = update_unit-IsVital t u.id _ s (λ v k. k) h in
      let hurt =
        update_unit-IsVital t target.id (λ v. add_taken u.damage (struck u.damage v)) _
          (λ v k. floor_nonneg law (v.hp ⊖ u.damage)) dealt in
      let after = update_unit-IsVital t u.id _ _ (λ v k. k) hurt in
      if-keeps (IsVital t) _ _ _ (emit-IsVital t _ _ after) after

  act-keeps : (u : BattleUnit F) (s : Field F) → IsVital t s → Holds (IsVital t) (act ctx u s)
  unfolding act IsVitalSwing
  act-keeps u s h =
      let quiet = some-Holds (IsVital t) h in
      let swung = swing_at_the_base-keeps u s h in
      Option-keeps (Holds (IsVital t)) (acquire_target s.world u none) _ _
        (if-keeps (Holds (IsVital t)) _ _ _ quiet (
          Option-keeps (Holds (IsVital t)) (order_of s.world u.troop_id) none _ (none-Holds _)
            (λ order.
              if-keeps (Holds (IsVital t)) _ _ _
                (some-Holds (IsVital t) (
                  if-keeps (IsVital t) _ _ _ (update_unit-IsVital t u.id _ _ (λ v k. k) swung)
                    swung))
                quiet)))
        (λ target. some-Holds (IsVital t) (swing_at-keeps u target s h))

  fight-keeps : (id : String) (s : Field F) → IsVital t s → Holds (IsVital t) (fight ctx id s)
  unfolding fight
  fight-keeps id s h =
      let quiet = some-Holds (IsVital t) h in
      Option-keeps (Holds (IsVital t)) (find_unit s.world id) _ _ quiet (λ u.
        let cooled : BattleUnit F → BattleUnit F = set_cooldown (u.cooldown_remaining - 1) in
        let counted = update_unit-IsVital t id cooled s (λ v k. k) h in
        if-keeps (Holds (IsVital t)) (not (is_alive u)) _ _ quiet (
          if-keeps (Holds (IsVital t)) (ltb 0 u.cooldown_remaining) _ _
            (if-keeps (Holds (IsVital t)) (ltb 0 (cooled u).cooldown_remaining) _ _
              (some-Holds (IsVital t) counted) (act-keeps (cooled u) _ counted))
            (act-keeps u s h)))

  pub combat-keeps : (s : Field F) → IsVital t s → Holds (IsVital t) (combat ctx s)
  unfolding combat
  combat-keeps s h =
      for_each-keeps (Holds (IsVital t)) (λ id acc. acc >>= fight ctx id) s.world.units (some s)
        (λ id o k. chain-Holds (IsVital t) (IsVital t) o (fight ctx id) k (fight-keeps id))
        (some-Holds (IsVital t) h)

  suffer-keeps :
      (side : Side) (origin : Vec2 F) (id : String) (amount : F) (source : Option UnitRef)
      (s : Field F)
      → IsVital t s
      → IsVital t (suffer side origin id amount source s)
  suffer-keeps side origin id amount source s h = damage_unit-keeps law t id amount source _ h

  scorch-keeps :
      (hz : GroundHazard F) (id : String) (s : Field F) → IsVital t s → IsVital t (scorch hz id s)
  unfolding scorch
  scorch-keeps hz id s h = Option-keeps (IsVital t) (find_unit s.world id) s _ h (λ victim.
      if-keeps (IsVital t) _ _ _ h
        (if-keeps (IsVital t) _ _ _ h (suffer-keeps hz.side hz.center id _ hz.source s h)))

  scorch_all-keeps :
      (hs : List (GroundHazard F)) (s : Field F) → IsVital t s → IsVital t (scorch_all hs s)
  unfolding scorch_all
  scorch_all-keeps [] s h = h
  scorch_all-keeps (hz ∷ hs) s h =
      scorch_all-keeps hs _
        (for_each-keeps (IsVital t) (scorch hz) s.world.units s (scorch-keeps hz) h)

  smoulder-keeps : (id : String) (s : Field F) → IsVital t s → IsVital t (smoulder id s)
  unfolding smoulder
  smoulder-keeps id s h = Option-keeps (IsVital t) (find_unit s.world id) s _ h (λ u.
      Option-keeps (IsVital t) u.burn s _ h (λ b.
        if-keeps (IsVital t) _ _ _ (update_unit-IsVital t id _ s (λ v k. k) h) (
          update_unit-IsVital t id _ _
            (λ v k.
              Option-keeps (IsFit {F = F}) v.burn v _ k (λ b. if-keeps (IsFit {F = F}) _ _ _ k k))
            (suffer-keeps u.side u.position id _ b.source s h))))

  pub statuses-keeps : (s : Field F) → IsVital t s → Holds (IsVital t) (statuses ctx s)
  unfolding statuses burn_the_ground burn_the_burning
  statuses-keeps s h =
      let burnt = scorch_all-keeps s.world.hazards s h in
      some-Holds (IsVital t) (
        for_each-keeps (IsVital t) smoulder _ _ smoulder-keeps (record {
          units = burnt.units;
          north_base = burnt.north_base;
          south_base = burnt.south_base;
          clock = burnt.clock;
        }))
