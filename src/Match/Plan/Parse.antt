-- ===== src/Match/Plan/Parse.antt =====
-- Reading a plan off the wire, and writing it into a run record: `parse_plan` and `plan_to_json` of
-- api/app/match/plan.py. A fault keeps its kind and leaves out the text of its message.
pub mod Readable
pub mod Trip
use go_forth.Prelude.{
  ℕ, Option, none, some, List, [], ◌∷◌, String, ltb, length, str_eq, suc, if◌then◌else◌,
}
use go_forth.Match.Json.{
  Json, null, text, array, object, Jsons, end, item, Fields, no_fields, field, Read, got, fault,
  ◌>>=◌, get, text_of, stripped, list_of, array_of,
}
use go_forth.Match.Plan.{PlannedTroop, SubmittedPlan}
use go_forth.Prelude.Strip.{strip, is_empty}
use go_forth.Sim.World.{Order, OrderKind, hold_zone, defend_base, push_enemy_base}

pub data ParseFault : Type 0 where
  no_plan troops_not_array troop_not_object no_mage_id summons_not_array bad_summon : ParseFault
  no_order no_zone not_an_order slots_not_array too_many_slots bad_slot : ParseFault

-- fixtures.SPELL_SLOTS
abbrev pub spell_slots_max : ℕ
spell_slots_max = 2

abbrev order_kind_name : OrderKind → String
order_kind_name hold_zone = "holdZone"
order_kind_name defend_base = "defendBase"
order_kind_name push_enemy_base = "pushEnemyBase"

module _ {F : Type 0} where
  unfoldable pub order_of_kind : String → Fields F → Read ParseFault Order
  order_of_kind kind raw =
      if str_eq kind "holdZone"
      then elim (stripped (get "zoneId" null raw)) [
        | none ↦ fault no_zone
        | some zone ↦ got (record { kind = hold_zone; zone_id = some zone })
      ]
      else if str_eq kind "defendBase"
      then got (record { kind = defend_base; zone_id = none })
      else if str_eq kind "pushEnemyBase"
      then got (record { kind = push_enemy_base; zone_id = none })
      else fault not_an_order

  -- _parse_order
  unfoldable pub parse_order : Json F → Read ParseFault Order
  parse_order (object raw) = elim (text_of (get "kind" null raw)) [
    | none ↦ fault not_an_order
    | some kind ↦ order_of_kind kind raw
  ]
  parse_order _ = fault no_order

  unfoldable pub parse_summons : Jsons F → Read ParseFault (List String)
  parse_summons end = got []
  parse_summons (item raw rest) = elim (stripped raw) [
    | none ↦ fault bad_summon
    | some id ↦ parse_summons rest >>= λ ids. got (id ∷ ids)
  ]

  unfoldable pub parse_troop : Json F → Read ParseFault PlannedTroop
  parse_troop (object raw) = elim (stripped (get "mageId" null raw)) [
    | none ↦ fault no_mage_id
    | some mage ↦ list_of summons_not_array (get "summonIds" (array end) raw) >>= λ listed.
        parse_summons listed >>= λ summons. parse_order (get "order" null raw) >>= λ order.
        got (record { mage_id = mage; summon_ids = summons; order = order })
  ]
  parse_troop _ = fault troop_not_object

  unfoldable pub parse_troops : Jsons F → Read ParseFault (List PlannedTroop)
  parse_troops end = got []
  parse_troops (item raw rest) =
      parse_troop raw >>= λ troop. parse_troops rest >>= λ troops. got (troop ∷ troops)

  unfoldable pub parse_slot : Json F → Read ParseFault (Option String)
  parse_slot null = got none
  parse_slot (text s) = if is_empty (strip s) then fault bad_slot else got (some (strip s))
  parse_slot _ = fault bad_slot

  unfoldable pub parse_slots : Jsons F → Read ParseFault (List (Option String))
  parse_slots end = got []
  parse_slots (item raw rest) =
      parse_slot raw >>= λ slot. parse_slots rest >>= λ slots. got (slot ∷ slots)

  unfoldable pub items : Jsons F → ℕ
  items end = 0
  items (item raw rest) = suc (items rest)

  unfoldable pub parse_few_slots : Jsons F → Read ParseFault (List (Option String))
  parse_few_slots raw =
      if ltb spell_slots_max (items raw) then fault too_many_slots else parse_slots raw

  -- parse_plan
  unfoldable pub parse_plan : Json F → Read ParseFault SubmittedPlan
  parse_plan (object raw) = list_of troops_not_array (get "troops" null raw) >>= λ listed.
      parse_troops listed >>= λ troops.
      list_of slots_not_array (get "spellSlots" (array end) raw) >>= λ raw_slots.
      parse_few_slots raw_slots >>= λ slots. got (record { troops = troops; spell_slots = slots })
  parse_plan _ = fault no_plan

  unfoldable pub order_to_json : Order → Json F
  order_to_json o = elim o.zone_id [
    | none ↦ object (field "kind" (text (order_kind_name o.kind)) no_fields)
    | some zone ↦
        object (field "kind" (text (order_kind_name o.kind)) (field "zoneId" (text zone) no_fields))
  ]

  unfoldable pub troop_to_json : PlannedTroop → Json F
  troop_to_json t = object (
      field "mageId" (text t.mage_id) (
        field "summonIds" (array (array_of text t.summon_ids))
          (field "order" (order_to_json t.order) no_fields)))

  unfoldable pub slot_to_json : Option String → Json F
  slot_to_json none = null
  slot_to_json (some id) = text id

  -- plan_to_json
  unfoldable pub plan_to_json : SubmittedPlan → Json F
  plan_to_json p = object (
      field "troops" (array (array_of troop_to_json p.troops))
        (field "spellSlots" (array (array_of slot_to_json p.spell_slots)) no_fields))
