-- ===== src/Match/Plan/Parse/Trip.antt =====
-- The round trip of a plan through JSON: that `plan_to_json` writes a plan so that `parse_plan` reads
-- it back (api/app/match/plan.py, whose docstring asks for the trip).
use go_forth.Prelude.{
  ◌≡◌, refl, ◌↔◌, Option, none, some, List, [], ◌∷◌, String, length, All, arith, ap, suc,
}
use go_forth.Match.Json.{Json, text, got, IsName, IsName-stripped, get, text_of, list_of, array_of}
use go_forth.Match.Plan.{PlannedTroop, SubmittedPlan}
use go_forth.Match.Plan.Parse.{
  parse_few_slots, order_of_kind, parse_order, parse_summons, parse_troop, parse_troops, parse_slot,
  parse_slots, items, parse_plan, order_to_json, troop_to_json, slot_to_json, plan_to_json,
}
use go_forth.Sim.World.{OrderKind, hold_zone, defend_base, push_enemy_base}
use go_forth.Match.Plan.Parse.Readable.{
  IsReadable, IsReadableZone, IsReadableTroop, IsReadableSlot, parse_plan-IsReadable,
}

module _ (F : Type 0) where
  parse_summons-array_of :
      (ids : List String) → All IsName ids → parse_summons {F = F} (array_of text ids) ≡ got ids
  unfolding parse_summons
  parse_summons-array_of [] h = refl
  parse_summons-array_of (id ∷ ids) h =
      ground (arith, IsName-stripped F id h.0, parse_summons-array_of ids h.1)

  parse_order_of-order_to_json :
      (kind : OrderKind) (zone : Option String)
      → IsReadableZone kind zone
      → parse_order {F = F} (order_to_json (record { kind = kind; zone_id = zone }))
        ≡ got (record { kind = kind; zone_id = zone })
  unfolding parse_order order_of_kind order_to_json get text_of
  parse_order_of-order_to_json hold_zone none h = ground arith
  parse_order_of-order_to_json hold_zone (some z) h = ground (arith, IsName-stripped F z h)
  parse_order_of-order_to_json defend_base none h = refl
  parse_order_of-order_to_json defend_base (some z) h = cc
  parse_order_of-order_to_json push_enemy_base none h = refl
  parse_order_of-order_to_json push_enemy_base (some z) h = cc

  parse_troop-troop_to_json :
      (t : PlannedTroop) → IsReadableTroop t → parse_troop {F = F} (troop_to_json t) ≡ got t
  unfolding parse_troop troop_to_json get list_of
  parse_troop-troop_to_json t h = ground (
    arith,
    IsName-stripped F t.mage_id h.0,
    parse_summons-array_of t.summon_ids h.1,
    parse_order_of-order_to_json t.order.kind t.order.zone_id h.2,
  )

  parse_troops-array_of :
      (ts : List PlannedTroop)
      → All IsReadableTroop ts
      → parse_troops {F = F} (array_of troop_to_json ts) ≡ got ts
  unfolding parse_troops
  parse_troops-array_of [] h = refl
  parse_troops-array_of (t ∷ ts) h =
      ground (arith, parse_troop-troop_to_json t h.0, parse_troops-array_of ts h.1)

  parse_slot-slot_to_json :
      (slot : Option String)
      → IsReadableSlot slot
      → parse_slot {F = F} (slot_to_json slot) ≡ got slot
  unfolding parse_slot slot_to_json
  parse_slot-slot_to_json none h = refl
  parse_slot-slot_to_json (some id) h = ground arith

  parse_slots-array_of :
      (l : List (Option String))
      → All IsReadableSlot l
      → parse_slots {F = F} (array_of slot_to_json l) ≡ got l
  unfolding parse_slots
  parse_slots-array_of [] h = refl
  parse_slots-array_of (slot ∷ l) h =
      ground (arith, parse_slot-slot_to_json slot h.0, parse_slots-array_of l h.1)

  items-array_of : {A : Type 0} (f : A → Json F) (l : List A) → items (array_of f l) ≡ length l
  unfolding items
  items-array_of f [] = refl
  items-array_of f (x ∷ l) = ap suc (items-array_of f l)

  pub IsReadable-plan_to_json :
      (p : SubmittedPlan) → IsReadable p → parse_plan {F = F} (plan_to_json p) ≡ got p
  unfolding parse_plan plan_to_json get list_of parse_few_slots
  IsReadable-plan_to_json p h = ground (
    arith,
    parse_troops-array_of p.troops h.troops,
    parse_slots-array_of p.spell_slots h.slots,
    items-array_of slot_to_json p.spell_slots,
    h.few,
  )

  -- A plan that has been read off the wire, written to JSON and read again is the same plan.
  pub parse_plan-plan_to_json :
      (raw : Json F) (p : SubmittedPlan)
      → parse_plan raw ≡ got p
      → parse_plan {F = F} (plan_to_json p) ≡ got p
  parse_plan-plan_to_json raw p h = IsReadable-plan_to_json p (parse_plan-IsReadable raw p h)

  -- A plan survives being written to JSON and read back exactly when it is readable: every mage,
  -- summon and spell that it names has a non-empty name without space around it, an order names
  -- such a zone if it holds one and no zone otherwise, and there are at most two spell slots.
  pub trip_iff_IsReadable :
      (p : SubmittedPlan) → (parse_plan {F = F} (plan_to_json p) ≡ got p) ↔ IsReadable p
  trip_iff_IsReadable p = (parse_plan-IsReadable (plan_to_json p) p, IsReadable-plan_to_json p)
