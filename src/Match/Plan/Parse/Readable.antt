-- ===== src/Match/Plan/Parse/Readable.antt =====
-- What a plan that `parse_plan` reads is like (api/app/match/plan.py): names without space around
-- them, zones where an order holds one, and few spell slots.
use go_forth.Prelude.{
  ◌≡◌, refl, ◌≤◌, Option, none, some, List, [], ◌∷◌, String, length, All, arith, Option-cases,
  Bool-cases, inl, inr, ap, suc, sym, str_eq,
}
use mathlib.Core.Path.{subst}
use go_forth.Prelude.Strip.{strip_idem}
use go_forth.Match.Json.{
  Json, null, text, array, object, Jsons, end, item, Fields, got, IsName, stripped-IsName, get,
  text_of, list_of, stripped, Read-cases, bind-got, got-inj, ◌>>=◌,
}
use go_forth.Match.Plan.{PlannedTroop, SubmittedPlan}
use go_forth.Match.Plan.Parse.{
  summons_not_array, troops_not_array, slots_not_array, parse_few_slots, order_of_kind,
  spell_slots_max, parse_order, parse_summons, parse_troop, parse_troops, parse_slot, parse_slots,
  items, parse_plan,
}
use go_forth.Sim.World.{Order, OrderKind, hold_zone, defend_base, push_enemy_base}

abbrev pub IsReadableZone : OrderKind → Option String → Type 0
IsReadableZone hold_zone none = ⊥
IsReadableZone hold_zone (some zone) = IsName zone
IsReadableZone defend_base zone = zone ≡ none
IsReadableZone push_enemy_base zone = zone ≡ none

abbrev pub IsReadableTroop : PlannedTroop → Type 0
IsReadableTroop t =
    IsName t.mage_id × All IsName t.summon_ids × IsReadableZone t.order.kind t.order.zone_id

abbrev pub IsReadableSlot : Option String → Type 0
IsReadableSlot none = Unit
IsReadableSlot (some id) = IsName id

-- What a plan must be to survive the trip.
pub record IsReadable (p : SubmittedPlan) : Type 0 where
  pub troops : All IsReadableTroop p.troops
  pub slots : All IsReadableSlot p.spell_slots
  pub few : length p.spell_slots ≤ spell_slots_max

module _ {F : Type 0} where
  parse_summons-names :
      (js : Jsons F) (ids : List String) → parse_summons js ≡ got ids → All IsName ids
  unfolding parse_summons
  parse_summons-names end [] h = tt
  parse_summons-names end (id ∷ ids) h = cc
  parse_summons-names (item j js) [] h = elim (Option-cases (stripped j)) [
    | inl e ↦ ground arith
    | inr (name, e) ↦ tt
  ]
  parse_summons-names (item j js) (id ∷ ids) h = elim (Option-cases (stripped j)) [
    | inl e ↦ ground arith
    | inr (name, e) ↦ elim (Read-cases (parse_summons js)) [
      | inl (rest, g) ↦ ground (arith, stripped-IsName j name e, parse_summons-names js rest g)
      | inr (x, g) ↦ ground arith
    ]
  ]

  order_of_kind-zone :
      (kind : String) (raw : Fields F) (o : Order)
      → order_of_kind kind raw ≡ got o
      → IsReadableZone o.kind o.zone_id
  unfolding order_of_kind
  order_of_kind-zone kind raw o h = elim (Bool-cases (str_eq kind "holdZone")) [
    | inl k ↦ elim (Option-cases (stripped (get "zoneId" null raw))) [
      | inl e ↦ ground arith
      | inr (zone, e) ↦
          let it : o ≡ (record { kind = hold_zone; zone_id = some zone }) = ground arith in
          subst (λ o. IsReadableZone o.kind o.zone_id) (sym it) (stripped-IsName _ zone e)
    ]
    | inr k ↦ elim (Bool-cases (str_eq kind "defendBase")) [
      | inl d ↦
          let it : o ≡ (record { kind = defend_base; zone_id = none }) = ground arith in
          subst (λ o. IsReadableZone o.kind o.zone_id) (sym it) refl
      | inr d ↦ elim (Bool-cases (str_eq kind "pushEnemyBase")) [
        | inl q ↦
            let it : o ≡ (record { kind = push_enemy_base; zone_id = none }) = ground arith in
            subst (λ o. IsReadableZone o.kind o.zone_id) (sym it) refl
        | inr q ↦ ground arith
      ]
    ]
  ]

  parse_order-zone :
      (j : Json F) (o : Order) → parse_order j ≡ got o → IsReadableZone o.kind o.zone_id
  unfolding parse_order
  parse_order-zone (object raw) o h = elim (Option-cases (text_of (get "kind" null raw))) [
    | inl e ↦ ground arith
    | inr (kind, e) ↦ order_of_kind-zone kind raw o (ground arith)
  ]
  parse_order-zone null s h = cc
  parse_order-zone (text b) s h = cc
  parse_order-zone (Json.boolean b) s h = cc
  parse_order-zone (Json.integer n) s h = cc
  parse_order-zone (Json.number x) s h = cc
  parse_order-zone (array x) s h = cc

  parse_troop-readable : (j : Json F) (t : PlannedTroop) → parse_troop j ≡ got t → IsReadableTroop t
  unfolding parse_troop
  parse_troop-readable (object raw) t h = elim (Option-cases (stripped (get "mageId" null raw))) [
    | inl e ↦ ground arith
    | inr (mage, e) ↦
        let (listed, l, h1) =
          bind-got (list_of summons_not_array (get "summonIds" (array end) raw))
            (λ listed. parse_summons listed >>= λ summons.
              parse_order (get "order" null raw) >>= λ order.
              got (record { mage_id = mage; summon_ids = summons; order = order }))
            t (ground arith) in
        let (summons, k, h2) = bind-got (parse_summons listed) _ t h1 in
        let (order, o, h3) = bind-got (parse_order (get "order" null raw)) _ t h2 in
        subst IsReadableTroop (got-inj h3) (
          stripped-IsName _ mage e,
          parse_summons-names listed summons k,
          parse_order-zone _ order o,
        )
  ]
  parse_troop-readable null s h = cc
  parse_troop-readable (text b) s h = cc
  parse_troop-readable (Json.boolean b) s h = cc
  parse_troop-readable (Json.integer n) s h = cc
  parse_troop-readable (Json.number x) s h = cc
  parse_troop-readable (array x) s h = cc

  parse_troops-readable :
      (js : Jsons F) (ts : List PlannedTroop) → parse_troops js ≡ got ts → All IsReadableTroop ts
  unfolding parse_troops
  parse_troops-readable end ts h = subst (All IsReadableTroop) (got-inj h) tt
  parse_troops-readable (item j js) ts h =
      let (t, k, h1) = bind-got (parse_troop j) _ ts h in
      let (rest, l, h2) = bind-got (parse_troops js) _ ts h1 in
      subst (All IsReadableTroop) (got-inj h2)
        (parse_troop-readable j t k, parse_troops-readable js rest l)

  parse_slot-readable :
      (j : Json F) (slot : Option String) → parse_slot j ≡ got slot → IsReadableSlot slot
  unfolding parse_slot
  parse_slot-readable null slot h = subst IsReadableSlot (got-inj h) tt
  parse_slot-readable (text s) none h = tt
  parse_slot-readable (text s) (some id) h = ground (arith, strip_idem s)
  parse_slot-readable (object x) s h = cc
  parse_slot-readable (Json.boolean b) s h = cc
  parse_slot-readable (Json.integer n) s h = cc
  parse_slot-readable (Json.number x) s h = cc
  parse_slot-readable (array x) s h = cc

  parse_slots-readable :
      (js : Jsons F) (slots : List (Option String))
      → parse_slots js ≡ got slots
      → All IsReadableSlot slots × (length slots ≡ items js)
  unfolding parse_slots items
  parse_slots-readable end slots h =
      subst (λ l. All IsReadableSlot l × (length l ≡ 0)) (got-inj h) (tt, refl)
  parse_slots-readable (item j js) slots h =
      let (t, k, h1) = bind-got (parse_slot j) _ slots h in
      let (rest, l, h2) = bind-got (parse_slots js) _ slots h1 in
      let (all, n) = parse_slots-readable js rest l in
      subst (λ l. All IsReadableSlot l × (length l ≡ suc (items js))) (got-inj h2)
        ((parse_slot-readable j t k, all), ap suc n)

  pub parse_plan-IsReadable :
      (raw : Json F) (p : SubmittedPlan) → parse_plan raw ≡ got p → IsReadable p
  unfolding parse_plan parse_few_slots
  parse_plan-IsReadable (object raw) p h =
      let (listed, l, h1) = bind-got (list_of troops_not_array (get "troops" null raw)) _ p h in
      let (troops, t, h2) = bind-got (parse_troops listed) _ p h1 in
      let (raw_slots, r, h3) =
        bind-got (list_of slots_not_array (get "spellSlots" (array end) raw)) _ p h2 in
      let (slots, s, h4) = bind-got (parse_few_slots raw_slots) _ p h3 in
      let few : items raw_slots ≤ spell_slots_max = ground arith in
      let it : parse_slots raw_slots ≡ got slots = ground arith in
      let (all, n) = parse_slots-readable raw_slots slots it in
      subst IsReadable (got-inj h4) (record {
        troops = parse_troops-readable listed troops t;
        slots = all;
        few = omega (arith, few, n);
      })
  parse_plan-IsReadable null p h = cc
  parse_plan-IsReadable (text x) s h = cc
  parse_plan-IsReadable (Json.boolean b) s h = cc
  parse_plan-IsReadable (Json.integer n) s h = cc
  parse_plan-IsReadable (Json.number x) s h = cc
  parse_plan-IsReadable (array x) s h = cc
