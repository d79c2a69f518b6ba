-- ===== src/Match/Plan.antt =====
-- The validation of a plan: `validate_plan` of api/app/match/plan.py over the roster of
-- api/app/match/fixtures.py. The roster and the zones of the map are arguments; a refusal keeps its
-- kind and leaves out the text of its message.
pub mod Summons
pub mod Legal
pub mod Validation
pub mod Parse
use go_forth.Prelude.{
  ℕ, ◌+◌, Bool, true, false, Option, none, some, List, [], ◌∷◌, String, ltb, length, any, first,
  not, if◌then◌else◌, str_eq,
}
use go_forth.Prelude.Dict.{Dict, lookup, insert}
use go_forth.Sim.World.{Order, OrderKind, hold_zone, defend_base, push_enemy_base, contains_id}

pub record PlannedTroop : Type 0 where
  pub mage_id : String
  pub summon_ids : List String
  pub order : Order

pub record SubmittedPlan : Type 0 where
  pub troops : List PlannedTroop
  pub spell_slots : List (Option String)

-- What validation reads of a fixture's options.
pub record MageOption : Type 0 where
  pub id : String
  pub schools : List String
  pub tags : List String
  pub support_capacity : ℕ

pub record SummonOption : Type 0 where
  pub id : String
  pub schools : List String
  pub capacity_cost : ℕ

-- `requires`: a dict with its kind, and what that kind names.
pub data Requires : Type 0 where
  always unreadable : Requires
  signature : String → Requires
  tag : String → Requires

pub record SpellOption (F : Type 0) : Type 0 where
  pub id : String
  pub name : String
  pub cost : F
  pub requires : Requires

pub record Roster (F : Type 0) : Type 0 where
  pub mage_cap : ℕ
  pub mages : List MageOption
  pub summons : List SummonOption
  pub summon_counts : Dict ℕ
  pub spells : List (SpellOption F)

pub data PlanFault : Type 0 where
  no_troops too_many_mages bad_order : PlanFault
  unknown_mage unknown_summon unsupported over_capacity not_available : String → PlanFault
  unknown_spell ineligible : String → PlanFault

pub data Check (A : Type 0) : Type 0 where
  passed : A → Check A
  refused : PlanFault → Check A

-- `used.get(summon_id, 0)`
abbrev pub count_in : String → Dict ℕ → ℕ
count_in id used = elim (lookup id used) [ none ↦ 0 | some n ↦ n ]

-- orders.validate_order
unfoldable pub order_ok : List String → Order → Bool
order_ok zones o = elim o.kind [
  | hold_zone ↦ elim o.zone_id [ none ↦ false | some zone ↦ contains_id zones zone ]
  | defend_base ↦ elim o.zone_id [ none ↦ true | some _ ↦ false ]
  | push_enemy_base ↦ elim o.zone_id [ none ↦ true | some _ ↦ false ]
]

abbrev pub shares_school : MageOption → SummonOption → Bool
shares_school mage summon = any (λ school. contains_id mage.schools school) summon.schools

-- _spell_is_eligible
unfoldable pub spell_is_eligible : List MageOption → Requires → Bool
spell_is_eligible mages always = true
spell_is_eligible mages (signature mage_id) = any (λ m. str_eq m.id mage_id) mages
spell_is_eligible mages (tag t) = any (λ m. contains_id m.tags t) mages
spell_is_eligible mages unreadable = false

module _ {F : Type 0} where
  abbrev pub mage_by_id : Roster F → String → Option MageOption
  mage_by_id r id = first (λ m. str_eq m.id id) r.mages

  abbrev pub summon_by_id : Roster F → String → Option SummonOption
  summon_by_id r id = first (λ s. str_eq s.id id) r.summons

  abbrev pub spell_by_id : Roster F → String → Option (SpellOption F)
  spell_by_id r id = first (λ s. str_eq s.id id) r.spells

  -- fielded_mages
  unfoldable pub fielded_mages : Roster F → List PlannedTroop → List MageOption
  fielded_mages r [] = []
  fielded_mages r (t ∷ troops) =
      let rest = fielded_mages r troops in
      elim (mage_by_id r t.mage_id) [ none ↦ rest | some mage ↦ mage ∷ rest ]

  -- The loop over a troop's summons: what the plan has used so far, and the troop's capacity.
  unfoldable pub check_summons :
      Roster F → MageOption → List String → Dict ℕ → ℕ → Check (Dict ℕ × ℕ)
  check_summons r mage [] used capacity = passed (used, capacity)
  check_summons r mage (id ∷ ids) used capacity = elim (summon_by_id r id) [
    | none ↦ refused (unknown_summon id)
    | some summon ↦
        let count = count_in id used + 1 in
        let rest =
          check_summons r mage ids (insert id count used) (capacity + summon.capacity_cost) in
        if ltb (count_in id r.summon_counts) count
        then refused (not_available id)
        else if not (shares_school mage summon)
        then refused (unsupported id)
        else rest
  ]

  -- One troop: its mage, its order, its summons, its mage's capacity.
  unfoldable pub check_troop : Roster F → List String → PlannedTroop → Dict ℕ → Check (Dict ℕ)
  check_troop r zones t used = elim (mage_by_id r t.mage_id) [
    | none ↦ refused (unknown_mage t.mage_id)
    | some mage ↦
        if not (order_ok zones t.order)
        then refused bad_order
        else elim (check_summons r mage t.summon_ids used 0) [
          | refused fault ↦ refused fault
          | passed (after, capacity) ↦
              if ltb mage.support_capacity capacity
              then refused (over_capacity t.mage_id)
              else passed after
        ]
  ]

  unfoldable pub check_troops : Roster F → List String → List PlannedTroop → Dict ℕ → Check (Dict ℕ)
  check_troops r zones [] used = passed used
  check_troops r zones (t ∷ troops) used = elim (check_troop r zones t used) [
    | refused fault ↦ refused fault
    | passed after ↦ check_troops r zones troops after
  ]

  unfoldable pub check_slots : Roster F → List MageOption → List (Option String) → Check (Unit {0})
  check_slots r mages [] = passed tt
  check_slots r mages (none ∷ slots) = check_slots r mages slots
  check_slots r mages (some id ∷ slots) = elim (spell_by_id r id) [
    | none ↦ refused (unknown_spell id)
    | some spell ↦
        let rest = check_slots r mages slots in
        if spell_is_eligible mages spell.requires then rest else refused (ineligible id)
  ]

  -- validate_plan
  unfoldable pub validate_plan : Roster F → List String → SubmittedPlan → Check (Unit {0})
  validate_plan r zones plan = elim plan.troops [
    | [] ↦ refused no_troops
    | _ ∷ _ ↦
        if ltb r.mage_cap (length plan.troops)
        then refused too_many_mages
        else elim (check_troops r zones plan.troops []) [
          | refused fault ↦ refused fault
          | passed _ ↦ check_slots r (fielded_mages r plan.troops) plan.spell_slots
        ]
  ]
