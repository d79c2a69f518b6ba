-- ===== src/Sim/Resolution.antt =====
-- Applying effects to the world, api/app/sim/resolution.py: the one place an effect becomes damage.
-- A cast's caster and target are ids; what a cast moved is its outcome.
pub mod Resolvers
use go_forth.Prelude.{
  ℕ, ◌+◌, Bool, true, false, Option, none, some, List, [], ◌∷◌, ◌++◌, String, any, select, str_eq,
  not, ltb, ◌&&◌, ◌||◌, if◌then◌else◌,
}
use go_forth.Prelude.Decimal.{decimal}
use Prim.Native.String
use go_forth.Prelude.Float.{Float, ◌⊕◌, ◌⊖◌, ◌⊗◌, ◌⊘◌, ◌≤?◌, ◌<?◌, ◌≟◌, nought, fmin, fmax}
use go_forth.Sim.Effects.{
  DamageProfile, mage_factor, against_unit, against_base, DashToTarget, AreaDamage, Burn,
  BurningGround, Knockback, EnergyRefill, Effect, dash_to_target, area_damage, burn, burning_ground,
  knockback, energy_refill,
}
use go_forth.Sim.Events.{EventSwing, unit_defeated}
use go_forth.Sim.Field.{
  Field, TickContext, to_ticks, find_unit, update_unit, emit, for_each, add_dealt, add_taken,
}
use go_forth.Sim.Geometry.{distance, move_toward}
use go_forth.Sim.Types.{Side, side_eq, opposing, BySide, at, put, both, Vec2, UnitRef}
use go_forth.Sim.World.{World, BattleUnit, BaseState, BurnStatus, GroundHazard, is_alive, unit_ref}

pub record EffectOutcome (F : Type 0) : Type 0 where
  pub damage_dealt : F
  pub units_removed : List UnitRef
  pub base_hp : BySide F

pub record Cast (F : Type 0) : Type 0 where
  pub side : Side
  pub origin : Vec2 F
  pub caster : Option String
  pub target : Option String
  pub follows_caster : Bool
  pub outcome : EffectOutcome F

-- The field and the cast that is being resolved on it.
pub record Casting (F : Type 0) : Type 0 where
  pub field : Field F
  pub cast : Cast F

module _ {F : Type 0} ⦃f : Float F⦄ where
  -- EffectOutcome()
  abbrev pub no_outcome : EffectOutcome F
  no_outcome = record { damage_dealt = nought; units_removed = []; base_hp = both λ _. nought }

  -- swing_of
  abbrev pub swing_of : EffectOutcome F → EventSwing F
  swing_of o = record {
    zone_score = both λ _. nought;
    base_hp = o.base_hp;
    units_removed = o.units_removed;
  }

  abbrev pub unit_of : Field F → Option String → Option (BattleUnit F)
  unit_of s id = elim id [ none ↦ none | some i ↦ find_unit s.world i ]

  -- _source_ref
  abbrev pub source_ref : Casting F → Option UnitRef
  source_ref c = elim (unit_of c.field c.cast.caster) [ none ↦ none | some u ↦ some (unit_ref u) ]

  -- _enemies_within, _allies_within
  abbrev pub enemies_within : Casting F → Vec2 F → F → List (BattleUnit F)
  enemies_within c center radius =
      select
        (λ u.
          not (side_eq u.side c.cast.side) && is_alive u && distance center u.position ≤? radius)
        c.field.world.units

  abbrev pub allies_within : Casting F → Vec2 F → F → List (BattleUnit F)
  allies_within c center radius =
      select (λ u. side_eq u.side c.cast.side && is_alive u && distance center u.position ≤? radius)
        c.field.world.units

  abbrev pub on_field : (Field F → Field F) → Casting F → Casting F
  on_field change c = record c { field = change c.field }

  -- Damage taken: the hp, which stops at 0, and the meter.
  abbrev pub wounded : F → BattleUnit F → BattleUnit F
  wounded amount u =
      let hp = u.hp ⊖ amount in
      record (add_taken amount u) { hp = if hp ≤? nought then nought else hp }

  -- The caster's gauge is fed if it still lives.
  abbrev pub pay_caster : F → Casting F → Casting F
  pay_caster amount c = elim c.cast.caster [
    | none ↦ c
    | some id ↦ on_field (update_unit id (λ u. if is_alive u then add_dealt amount u else u)) c
  ]

  abbrev pub count_damage : F → Casting F → Casting F
  count_damage amount c =
      let outcome = c.cast.outcome in
      record c {
        cast = record c.cast {
          outcome = record outcome { damage_dealt = outcome.damage_dealt ⊕ amount };
        };
      }

  abbrev pub count_removed : UnitRef → Casting F → Casting F
  count_removed ref c =
      let outcome = c.cast.outcome in
      record c {
        cast = record c.cast {
          outcome = record outcome { units_removed = outcome.units_removed ++ ref ∷ [] };
        };
      }

  unfoldable pub damage_unit : String → F → Option UnitRef → Casting F → Casting F
  damage_unit victim_id amount source c = elim (find_unit c.field.world victim_id) [
    | none ↦ c
    | some victim ↦
        let hurt =
          pay_caster amount
            (count_damage amount (on_field (update_unit victim_id (wounded amount)) c)) in
        if amount ≤? nought || not (is_alive victim)
        then c
        else if (victim.hp ⊖ amount) ≤? nought
        then on_field
            (emit (unit_defeated c.field.world.tick victim.position (unit_ref victim) source))
            (count_removed (unit_ref victim) hurt)
        else hurt
  ]

  -- _damage_base
  unfoldable pub damage_base : F → DamageProfile F → Casting F → Casting F
  damage_base radius profile c =
      let enemy = opposing c.cast.side in
      let world = c.field.world in
      let base = at enemy world.bases in
      let dealt = fmin base.hp (against_base profile) in
      let outcome = c.cast.outcome in
      if not (distance c.cast.origin base.position ≤? radius) || dealt ≤? nought
      then c
      else record {
        field = record c.field {
          world = record world {
            bases = put enemy (record base { hp = base.hp ⊖ dealt }) world.bases;
          };
        };
        cast = record c.cast {
          outcome = record outcome {
            base_hp = put enemy (at enemy outcome.base_hp ⊖ dealt) outcome.base_hp;
          };
        };
      }

  -- _push_away
  unfoldable pub push_away : Vec2 F → Vec2 F → F → F → F → Vec2 F
  push_away origin position step width height =
      let gap = distance origin position in
      let scale = step ⊘ gap in
      if gap ≟ nought then position else record {
        x = fmin width (fmax nought (position.x ⊕ (position.x ⊖ origin.x) ⊗ scale));
        y = fmin height (fmax nought (position.y ⊕ (position.y ⊖ origin.y) ⊗ scale));
      }

  -- _apply_burn, on the unit that catches it.
  unfoldable pub lit : F → ℕ → F → Option UnitRef → BattleUnit F → BattleUnit F
  lit damage_per_tick ticks bonus_vs_mage source u = elim u.burn [
    | none ↦ record u {
      burn = some (record {
        damage_per_tick = damage_per_tick;
        ticks_remaining = ticks;
        bonus_vs_mage = bonus_vs_mage;
        source = source;
      });
    }
    | some existing ↦
        let stronger = existing.damage_per_tick <? damage_per_tick in
        record u {
          burn = some (record {
            damage_per_tick = if stronger then damage_per_tick else existing.damage_per_tick;
            ticks_remaining =
                if ltb existing.ticks_remaining ticks then ticks else existing.ticks_remaining;
            bonus_vs_mage = fmax existing.bonus_vs_mage bonus_vs_mage;
            source = if stronger then source else existing.source;
          });
        }
  ]
