-- ===== src/Sim/World.antt =====
-- The battle's state, api/app/sim/world.py, with the statuses and orders that stand in it
-- (api/app/sim/statuses.py, orders.py) and the questions that the other modules ask of it.
-- Of a unit's AI only the committed intent is here: the sim's phases read nothing else of it.
-- Ids are texts. Positions and amounts are floats, `F`; counts and ticks are numbers.
use go_forth.Prelude.{
  ℕ, ◌+◌, Bool, true, false, Option, none, some, List, [], ◌∷◌, String, any, first, str_eq, not,
  ◌&&◌, if◌then◌else◌,
}
use go_forth.Prelude.Float.{Float, ◌<?◌, nought}
use go_forth.Sim.Types.{Side, BySide, Vec2, UnitRef}
use go_forth.Sim.Spells.{SpellInjection}

pub data UnitKind : Type 0 where
  mage summon : UnitKind

abbrev pub is_mage : UnitKind → Bool
is_mage mage = true
is_mage summon = false

-- schools.School
pub data School : Type 0 where
  fire stone artifice time necromancy neutral : School

pub data OrderKind : Type 0 where
  hold_zone defend_base push_enemy_base : OrderKind

-- orders.Order: one verb, and the zone that it names if it is `hold_zone`.
pub record Order : Type 0 where
  pub kind : OrderKind
  pub zone_id : Option String

-- ai/vocabulary.ActionKind
pub data ActionKind : Type 0 where
  attack cast advance hold withdraw retreat : ActionKind

pub record Intent (F : Type 0) : Type 0 where
  pub kind : ActionKind
  pub target_id : Option String
  pub destination : Option (Vec2 F)
  pub ability_id : Option String

pub record BurnStatus (F : Type 0) : Type 0 where
  pub damage_per_tick : F
  pub ticks_remaining : ℕ
  pub bonus_vs_mage : F
  pub source : Option UnitRef

pub record GroundHazard (F : Type 0) : Type 0 where
  pub id : String
  pub kind : String
  pub side : Side
  pub center : Vec2 F
  pub radius : F
  pub damage_per_tick : F
  pub ticks_remaining : ℕ
  pub bonus_vs_mage : F
  pub source : Option UnitRef

-- energy.new_energy_meters: a meter for each name in ENERGY_METERS.
pub record EnergyMeters (F : Type 0) : Type 0 where
  pub damage_dealt : F
  pub damage_taken : F
  pub elapsed_seconds : F
  pub ally_defeated : F

pub record BattleUnit (F : Type 0) : Type 0 where
  pub id : String
  pub type_id : String
  pub kind : UnitKind
  pub schools : List School
  pub side : Side
  pub troop_id : String
  pub max_hp : F
  pub damage : F
  pub range : F
  pub speed : F
  pub attack_cooldown_seconds : F
  pub hp : F
  pub position : Vec2 F
  pub formation_offset : Vec2 F
  pub destination : Vec2 F
  pub cooldown_remaining : ℕ
  pub intent : Option (Intent F)
  pub support_capacity : Option ℕ
  pub resummon_pace_seconds : Option F
  pub resummon_remaining : ℕ
  pub ability_id : Option String
  pub energy : F
  pub energy_meters : EnergyMeters F
  pub burn : Option (BurnStatus F)
  pub emplacement : Bool
  pub blocks_movement : Bool
  pub block_radius : F

pub record DispelledSlot (F : Type 0) : Type 0 where
  pub type_id : String
  pub formation_offset : Vec2 F

pub record Troop (F : Type 0) : Type 0 where
  pub id : String
  pub side : Side
  pub order : Order
  pub mage_ids : List String
  pub summon_ids : List String
  pub dispelled_slots : List (DispelledSlot F)
  pub next_unit_ordinal : ℕ

pub record BaseState (F : Type 0) : Type 0 where
  pub max_hp : F
  pub position : Vec2 F
  pub hp : F

pub record World (F : Type 0) : Type 0 where
  pub tick : ℕ
  pub rng_state : ℕ
  pub units : List (BattleUnit F)
  pub troops : List (Troop F)
  pub bases : BySide (BaseState F)
  pub zone_score : BySide F
  pub zone_holders : List (String × Option Side)
  pub hazards : List (GroundHazard F)
  pub pending_spells : List (SpellInjection F)
  pub next_hazard_id : ℕ

-- `uid in ids`
abbrev pub contains_id : List String → String → Bool
contains_id ids uid = any (λ i. str_eq i uid) ids

abbrev or_zero : Option ℕ → ℕ
or_zero none = 0
or_zero (some n) = n

module _ {F : Type 0} where
  abbrev pub unit_ref : BattleUnit F → UnitRef
  unit_ref u = record { unit_id = u.id; troop_id = u.troop_id; side = u.side; type_id = u.type_id }

  unfoldable pub support_capacity_of : List (BattleUnit F) → ℕ
  support_capacity_of [] = 0
  support_capacity_of (m ∷ ms) = or_zero m.support_capacity + support_capacity_of ms

  -- is_resummonable
  abbrev pub is_resummonable : BattleUnit F → Bool
  is_resummonable u = not u.emplacement

  -- The first troop of that id, as `next(...)` and `troop_of` find it.
  abbrev pub find_troop : World F → String → Option (Troop F)
  find_troop w troop_id = first (λ t. str_eq t.id troop_id) w.troops

  module _ ⦃f : Float F⦄ where
    unfoldable pub is_alive : BattleUnit F → Bool
    is_alive u = nought <? u.hp

    abbrev living_id : World F → String → Bool
    living_id w uid = any (λ u. str_eq u.id uid && is_alive u) w.units

    -- survives_round_end
    unfoldable pub survives_round_end : BattleUnit F → World F → Bool
    survives_round_end u w = if not u.emplacement then false else elim (find_troop w u.troop_id) [
      | none ↦ false
      | some troop ↦ any (living_id w) troop.mage_ids
    ]
