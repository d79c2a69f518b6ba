-- ===== src/Match/Plan/Validation.antt =====
-- The validation of a plan against the description of the legal plans (api/app/match/plan.py,
-- `validate_plan`).
use go_forth.Prelude.{
  ℕ, ◌+◌, ◌≤◌, ◌<◌, ◌≡◌, ◌≢◌, refl, Option, none, some, List, [], ◌∷◌, String, arith, length, All,
  inl, inr,
}
use go_forth.Prelude.Dict.{Dict, lookup}
use go_forth.Match.Plan.{
  PlannedTroop, SubmittedPlan, MageOption, Roster, passed, refused, PlanFault, count_in,
  fielded_mages, check_summons, check_troop, check_troops, check_slots, validate_plan,
}
use go_forth.Match.Plan.Legal.{
  all_summons, occurrences-append, Check-cases, IsLegalTroop, IsLegalSlot, IsLegal,
  check_troops-IsTroopsPass, check_slots-legal,
}
use go_forth.Match.Plan.Summons.{
  occurrences, total_cost, owned, check_summons-IsPass, check_summons-total,
}

module _ {F : Type 0} (r : Roster F) where
  count-nothing : (id : String) → count_in id [] ≡ 0
  unfolding lookup
  count-nothing id = refl

  plan-guards :
      (zones : List String) (plan : SubmittedPlan) (after : Dict ℕ)
      → check_troops r zones plan.troops [] ≡ passed after
      → validate_plan r zones plan ≡ passed tt
      → (0 < length plan.troops)
        × (length plan.troops ≤ r.mage_cap)
        × (check_slots r (fielded_mages r plan.troops) plan.spell_slots ≡ passed tt)
  unfolding validate_plan
  plan-guards zones plan after troops h = ground arith

  plan-stopped :
      (zones : List String) (plan : SubmittedPlan) (fault : PlanFault)
      → check_troops r zones plan.troops [] ≡ refused fault
      → validate_plan r zones plan ≢ passed tt
  unfolding validate_plan
  plan-stopped zones plan fault stopped h = ground arith

  -- A plan that the validation passes is legal: it has a troop and no more than the cap, each troop
  -- has a mage of the roster, an order of the map and summons that the mage can support within its
  -- capacity, over the whole plan no summon is fielded more often than the side owns it, and each
  -- spell is on the roster and allowed by the fielded mages.
  pub validate_plan-IsLegal :
      (zones : List String) (plan : SubmittedPlan)
      → validate_plan r zones plan ≡ passed tt
      → IsLegal r zones plan
  validate_plan-IsLegal zones plan h = elim (Check-cases (check_troops r zones plan.troops [])) [
    | inr (fault, stopped) ↦ absurd (plan-stopped zones plan fault stopped h)
    | inl (after, troops) ↦
        let (some_, few, slots) = plan-guards zones plan after troops h in
        let pass = check_troops-IsTroopsPass r zones plan.troops [] after troops in
        record {
          some_troop = some_;
          few_troops = few;
          troops_legal = pass.legal;
          available = λ id. omega (
            arith,
            pass.counts id,
            pass.fits id (omega (arith, count-nothing id)),
            count-nothing id,
          );
          slots_legal = check_slots-legal r (fielded_mages r plan.troops) plan.spell_slots slots;
        }
  ]

  troop-passes :
      (zones : List String) (t : PlannedTroop) (used middle : Dict ℕ) (total : ℕ)
      (l : IsLegalTroop r zones t)
      → check_summons r l.mage t.summon_ids used 0 ≡ passed (middle, total)
      → total ≡ total_cost r t.summon_ids
      → check_troop r zones t used ≡ passed middle
  unfolding check_troop
  troop-passes zones t used middle total l e cost =
      rw (l.on_roster, check_troop)
        (rw l.has_order (rw (e, check_troop) (ground (arith, l.within))))

  check_troops-total :
      (zones : List String) (ts : List PlannedTroop) (used : Dict ℕ)
      → All (IsLegalTroop r zones) ts
      → ((j : String) → count_in j used + occurrences j (all_summons ts) ≤ owned r j)
      → (after : Dict ℕ) × (check_troops r zones ts used ≡ passed after)
  unfolding check_troops
  check_troops-total zones [] used legal available = (used, refl)
  check_troops-total zones (t ∷ ts) used (l, legal) available =
      let (middle, e) =
        check_summons-total r l.mage t.summon_ids used 0 l.supported
          (λ j. omega (arith, available j, occurrences-append j t.summon_ids (all_summons ts))) in
      let pass =
        check_summons-IsPass r l.mage t.summon_ids used middle 0 (0 + total_cost r t.summon_ids)
          e in
      let (after, rest) = check_troops-total zones ts middle legal (λ j.
        omega (
          arith,
          available j,
          pass.counts j,
          occurrences-append j t.summon_ids (all_summons ts),
        )) in
      (
        after,
        ground (
          arith,
          troop-passes zones t used middle (0 + total_cost r t.summon_ids) l e (omega arith),
          rest,
        ),
      )

  check_slots-total :
      (mages : List MageOption) (slots : List (Option String))
      → All (IsLegalSlot r mages) slots
      → check_slots r mages slots ≡ passed tt
  unfolding check_slots
  check_slots-total mages [] legal = refl
  check_slots-total mages (none ∷ slots) (_, legal) = check_slots-total mages slots legal
  check_slots-total mages (some id ∷ slots) ((spell, known, eligible), legal) =
      ground (arith, check_slots-total mages slots legal)

  plan-passes :
      (zones : List String) (plan : SubmittedPlan) (after : Dict ℕ)
      → 0 < length plan.troops
      → length plan.troops ≤ r.mage_cap
      → check_troops r zones plan.troops [] ≡ passed after
      → check_slots r (fielded_mages r plan.troops) plan.spell_slots ≡ passed tt
      → validate_plan r zones plan ≡ passed tt
  unfolding validate_plan
  plan-passes zones plan after some_ few troops slots = ground arith

  -- Every legal plan passes the validation: nothing else is asked of a plan than its cap, its
  -- mages, its orders, the support and capacity of its summons, the counts that the side owns, and
  -- its spells.
  pub IsLegal-validate_plan :
      (zones : List String) (plan : SubmittedPlan)
      → IsLegal r zones plan
      → validate_plan r zones plan ≡ passed tt
  IsLegal-validate_plan zones plan l =
      let (after, troops) =
        check_troops-total zones plan.troops [] l.troops_legal
          (λ j. omega (arith, l.available j, count-nothing j)) in
      plan-passes zones plan after l.some_troop l.few_troops troops
        (check_slots-total (fielded_mages r plan.troops) plan.spell_slots l.slots_legal)
