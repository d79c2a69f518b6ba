-- ===== src/Sim/Phases/Resummon.antt =====
-- Resummoning, api/app/sim/phases/resummon.py: each living mage refills a dispelled slot of its
-- troop at its own pace, up to the troop's support capacity.
pub mod Capacity
use go_forth.Prelude.{
  ℕ, ◌+◌, ◌-◌, Bool, true, false, Option, none, some, List, [], ◌∷◌, ◌++◌, String, length, leb, ltb,
  ◌==◌, ◌||◌, if◌then◌else◌,
}
use go_forth.Prelude.Decimal.{decimal}
use Prim.Native.String
use go_forth.Prelude.Dict.{lookup}
use go_forth.Prelude.Float.{Float, ◌⊗◌, nought, fmin}
use go_forth.Sim.Effects.{UnitType}
use go_forth.Sim.Energy.{SchoolMultipliers}
use go_forth.Sim.Events.{resummoned}
use go_forth.Sim.Field.{Field, TickContext, to_ticks, find_unit, update_unit, emit}
use go_forth.Sim.Phases.Energy.{no_energy}
use go_forth.Sim.Phases.Removal.{troops_updated, is_none}
use go_forth.Sim.Types.{Side, at}
use go_forth.Sim.World.{
  World, BattleUnit, School, Troop, DispelledSlot, is_alive, find_troop, unit_ref,
  support_capacity_of,
}

module _ {F : Type 0} ⦃f : Float F⦄ where
  abbrev least_pace : (School → SchoolMultipliers F) → List School → F → F
  least_pace table [] best = best
  least_pace table (school ∷ rest) best =
      least_pace table rest (fmin best (table school).resummon_pace_multiplier)

  -- resummon_pace_ticks: `some none` for a mage that never rebuilds, and `none` where `min` of no
  -- schools raises.
  unfoldable pub resummon_pace_ticks : BattleUnit F → TickContext F → Option (Option ℕ)
  resummon_pace_ticks mage ctx = elim mage.resummon_pace_seconds [
    | none ↦ some none
    | some seconds ↦ elim mage.schools [
      | [] ↦ none
      | school ∷ rest ↦
          let table = at mage.side ctx.multipliers in
          some (
            some (
              to_ticks (seconds ⊗ least_pace table rest (table school).resummon_pace_multiplier)
                ctx))
    ]
  ]

  -- _living
  unfoldable pub living : World F → List String → List (BattleUnit F)
  living w [] = []
  living w (uid ∷ ids) =
      let rest = living w ids in
      elim (find_unit w uid) [ none ↦ rest | some u ↦ if is_alive u then u ∷ rest else rest ]

  -- The unit that `_refill` builds; what the call leaves out has its default.
  abbrev pub rebuilt : Troop F → UnitType F → DispelledSlot F → BattleUnit F → BattleUnit F
  rebuilt troop unit_type slot mage = record {
    id = String.◌++◌ troop.id (String.◌++◌ "-u" (decimal troop.next_unit_ordinal));
    type_id = unit_type.id;
    kind = unit_type.kind;
    schools = unit_type.schools;
    side = troop.side;
    troop_id = troop.id;
    max_hp = unit_type.max_hp;
    damage = unit_type.damage;
    range = unit_type.range;
    speed = unit_type.speed;
    attack_cooldown_seconds = unit_type.attack_cooldown_seconds;
    hp = unit_type.max_hp;
    position = mage.position;
    formation_offset = slot.formation_offset;
    destination = mage.position;
    cooldown_remaining = 0;
    intent = none;
    support_capacity = unit_type.support_capacity;
    resummon_pace_seconds = unit_type.resummon_pace_seconds;
    resummon_remaining = 0;
    ability_id = none;
    energy = nought;
    energy_meters = no_energy;
    burn = none;
    emplacement = false;
    blocks_movement = false;
    block_radius = nought;
  }

  -- _refill: the slot is the troop's first, and `left` are the others.
  unfoldable pub refill :
      TickContext F
      → Troop F
      → DispelledSlot F
      → List (DispelledSlot F)
      → BattleUnit F
      → Field F
      → Option (Field F)
  refill ctx troop slot left mage s = elim (lookup slot.type_id ctx.unit_types) [
    | none ↦ none
    | some unit_type ↦
        let summon = rebuilt troop unit_type slot mage in
        some (
          emit (resummoned s.world.tick (unit_ref summon) (unit_ref mage) mage.position) (record s {
            world = record s.world {
              units = s.world.units ++ summon ∷ [];
              troops =
                  troops_updated troop.id
                    (λ t. record t {
                      dispelled_slots = left;
                      next_unit_ordinal = t.next_unit_ordinal + 1;
                      summon_ids = t.summon_ids ++ summon.id ∷ [];
                    })
                    s.world.troops;
            };
          }))
  ]

  abbrev pub set_clock : ℕ → BattleUnit F → BattleUnit F
  set_clock n u = record u { resummon_remaining = n }

  -- A mage's turn in the loop of `_rebuild`, at a known pace: the field, and how many are held.
  unfoldable pub mage_turn :
      TickContext F → String → ℕ → ℕ → BattleUnit F → Field F × ℕ → Option (Field F × ℕ)
  mage_turn ctx troop_id capacity pace mage (s, held) = elim (find_troop s.world troop_id) [
    | none ↦ some (s, held)
    | some troop ↦ elim troop.dispelled_slots [
      | [] ↦ some (update_unit mage.id (set_clock pace) s, held)
      | slot ∷ left ↦
          let clock = if mage.resummon_remaining == 0 then pace else mage.resummon_remaining in
          let waiting = some (update_unit mage.id (set_clock (clock - 1)) s, held) in
          let done : Option (Field F × ℕ) = elim (refill ctx troop slot left mage s) [
            | none ↦ none
            | some t ↦ some (update_unit mage.id (set_clock pace) t, held + 1)
          ] in
          if leb capacity held
          then some (update_unit mage.id (set_clock pace) s, held)
          else if ltb 0 (clock - 1)
          then waiting
          else done
    ]
  ]

  unfoldable pub mage_turns :
      TickContext F → String → ℕ → List (BattleUnit F) → Field F × ℕ → Option (Field F × ℕ)
  mage_turns ctx troop_id capacity [] s = some s
  mage_turns ctx troop_id capacity (mage ∷ mages) s = elim (resummon_pace_ticks mage ctx) [
    | none ↦ none
    | some none ↦ mage_turns ctx troop_id capacity mages s
    | some (some pace) ↦ elim (mage_turn ctx troop_id capacity pace mage s) [
      | none ↦ none
      | some t ↦ mage_turns ctx troop_id capacity mages t
    ]
  ]

  -- _rebuild
  unfoldable pub rebuild : TickContext F → Troop F → Field F → Option (Field F)
  rebuild ctx troop s =
      let mages = living s.world troop.mage_ids in
      let held = length (living s.world troop.summon_ids) in
      let turned : Option (Field F) =
        elim (mage_turns ctx troop.id (support_capacity_of mages) mages (s, held)) [
          | none ↦ none
          | some (t, _) ↦ some t
        ] in
      if is_none mages then some s else turned

  unfoldable pub rebuild_all : TickContext F → List (Troop F) → Field F → Option (Field F)
  rebuild_all ctx [] s = some s
  rebuild_all ctx (troop ∷ rest) s = elim (rebuild ctx troop s) [
    | none ↦ none
    | some t ↦ rebuild_all ctx rest t
  ]

  -- ResummonPhase.run
  unfoldable pub resummon : TickContext F → Field F → Option (Field F)
  resummon ctx s = rebuild_all ctx s.world.troops s
