-- ===== src/Match/Plan/Legal.antt =====
-- Which plans are legal, with the summons counted over the whole plan, and that the loops of
-- `validate_plan` decide just that (api/app/match/plan.py).
use go_forth.Prelude.{
  ℕ, ◌+◌, ◌≤◌, ◌<◌, ◌≡◌, ◌≢◌, refl, true, Option, none, some, List, [], ◌∷◌, ◌++◌, String, arith,
  sym, length, All, Option-cases, inl, inr, ◌⊎◌,
}
use go_forth.Prelude.Dict.{Dict}
use go_forth.Match.Plan.{
  PlannedTroop, SubmittedPlan, MageOption, SpellOption, Roster, Check, passed, refused, PlanFault,
  count_in, order_ok, mage_by_id, spell_by_id, fielded_mages, spell_is_eligible, check_summons,
  check_troop, check_troops, check_slots,
}
use go_forth.Match.Plan.Summons.{occurrences, IsSupported, total_cost, owned, check_summons-IsPass}

-- All the summons of a plan.
abbrev pub all_summons : List PlannedTroop → List String
all_summons [] = []
all_summons (t ∷ troops) = t.summon_ids ++ all_summons troops

pub occurrences-append :
    (id : String) (ids more : List String)
    → occurrences id (ids ++ more) ≡ occurrences id ids + occurrences id more
occurrences-append id [] more = omega arith
occurrences-append id (j ∷ ids) more = omega (arith, occurrences-append id ids more)

pub Check-cases :
    {A : Type 0} (c : Check A) → ((a : A) × (c ≡ passed a)) ⊎ ((e : PlanFault) × (c ≡ refused e))
Check-cases (passed a) = inl (a, refl)
Check-cases (refused e) = inr (e, refl)

module _ {F : Type 0} (r : Roster F) where
  -- A troop of one mage on the roster, under an order of the map, with summons that the mage can
  -- support, and no more of them than the mage has capacity for.
  pub record IsLegalTroop (zones : List String) (t : PlannedTroop) : Type 0 where
    pub mage : MageOption
    pub on_roster : mage_by_id r t.mage_id ≡ some mage
    pub has_order : order_ok zones t.order ≡ true
    pub supported : All (IsSupported r mage) t.summon_ids
    pub within : total_cost r t.summon_ids ≤ mage.support_capacity

  -- A slot that is empty, or holds a spell of the roster that the fielded mages allow.
  abbrev pub IsLegalSlot : List MageOption → Option String → Type 0
  IsLegalSlot mages none = Unit
  IsLegalSlot mages (some id) =
      (spell : SpellOption F) × (spell_by_id r id ≡ some spell)
      × (spell_is_eligible mages spell.requires ≡ true)

  pub record IsLegal (zones : List String) (plan : SubmittedPlan) : Type 0 where
    pub some_troop : 0 < length plan.troops
    pub few_troops : length plan.troops ≤ r.mage_cap
    pub troops_legal : All (IsLegalTroop zones) plan.troops
    pub available : (id : String) → occurrences id (all_summons plan.troops) ≤ owned r id
    pub slots_legal : All (IsLegalSlot (fielded_mages r plan.troops)) plan.spell_slots

  troop-guards :
      (zones : List String) (t : PlannedTroop) (used after : Dict ℕ) (mage : MageOption)
      (middle : Dict ℕ) (total : ℕ)
      → mage_by_id r t.mage_id ≡ some mage
      → check_summons r mage t.summon_ids used 0 ≡ passed (middle, total)
      → check_troop r zones t used ≡ passed after
      → (order_ok zones t.order ≡ true) × (total ≤ mage.support_capacity) × (middle ≡ after)
  unfolding check_troop
  troop-guards zones t used after mage middle total known summons h =
      (ground arith, ground arith, ground arith)

  troop-unknown :
      (zones : List String) (t : PlannedTroop) (used after : Dict ℕ)
      → mage_by_id r t.mage_id ≡ none
      → check_troop r zones t used ≢ passed after
  unfolding check_troop
  troop-unknown zones t used after unknown h = ground arith

  troop-refused :
      (zones : List String) (t : PlannedTroop) (used after : Dict ℕ) (mage : MageOption)
      (fault : PlanFault)
      → mage_by_id r t.mage_id ≡ some mage
      → check_summons r mage t.summon_ids used 0 ≡ refused fault
      → check_troop r zones t used ≢ passed after
  unfolding check_troop
  troop-refused zones t used after mage fault known stopped h = ground arith

  pub record IsTroopPass (zones : List String) (t : PlannedTroop) (used after : Dict ℕ)
      : Type 0 where
    pub legal : IsLegalTroop zones t
    pub counts : (j : String) → count_in j after ≡ count_in j used + occurrences j t.summon_ids
    pub fits : (j : String) → count_in j used ≤ owned r j → count_in j after ≤ owned r j

  check_troop-IsTroopPass :
      (zones : List String) (t : PlannedTroop) (used after : Dict ℕ)
      → check_troop r zones t used ≡ passed after
      → IsTroopPass zones t used after
  check_troop-IsTroopPass zones t used after h = elim (Option-cases (mage_by_id r t.mage_id)) [
    | inl unknown ↦ absurd (troop-unknown zones t used after unknown h)
    | inr (mage, known) ↦ elim (Check-cases (check_summons r mage t.summon_ids used 0)) [
      | inr (fault, stopped) ↦ absurd (troop-refused zones t used after mage fault known stopped h)
      | inl ((middle, total), summons) ↦
          let (ordered, within, same) =
            troop-guards zones t used after mage middle total known summons h in
          let pass = check_summons-IsPass r mage t.summon_ids used middle 0 total summons in
          record {
            legal = record {
              mage = mage;
              on_roster = known;
              has_order = ordered;
              supported = pass.supported;
              within = omega (arith, pass.costs);
            };
            counts = λ j. rw (sym same) (pass.counts j);
            fits = λ j le. rw (sym same) (pass.fits j le);
          }
    ]
  ]

  pub record IsTroopsPass (zones : List String) (ts : List PlannedTroop) (used after : Dict ℕ)
      : Type 0 where
    pub legal : All (IsLegalTroop zones) ts
    pub counts : (j : String) → count_in j after ≡ count_in j used + occurrences j (all_summons ts)
    pub fits : (j : String) → count_in j used ≤ owned r j → count_in j after ≤ owned r j

  pub check_troops-IsTroopsPass :
      (zones : List String) (ts : List PlannedTroop) (used after : Dict ℕ)
      → check_troops r zones ts used ≡ passed after
      → IsTroopsPass zones ts used after
  unfolding check_troops
  check_troops-IsTroopsPass zones [] used after h = record {
    legal = tt;
    counts = λ j. ground arith;
    fits = λ j le. ground arith;
  }
  check_troops-IsTroopsPass zones (t ∷ ts) used after h =
      elim (Check-cases (check_troop r zones t used)) [
        | inr (fault, stopped) ↦ absurd (ground arith)
        | inl (middle, first_) ↦
            let a = check_troop-IsTroopPass zones t used middle first_ in
            let b = check_troops-IsTroopsPass zones ts middle after (ground arith) in
            record {
              legal = (a.legal, b.legal);
              counts = λ j. omega (
                arith,
                a.counts j,
                b.counts j,
                occurrences-append j t.summon_ids (all_summons ts),
              );
              fits = λ j le. b.fits j (a.fits j le);
            }
      ]

  pub check_slots-legal :
      (mages : List MageOption) (slots : List (Option String))
      → check_slots r mages slots ≡ passed tt
      → All (IsLegalSlot mages) slots
  unfolding check_slots
  check_slots-legal mages [] h = tt
  check_slots-legal mages (none ∷ slots) h = (tt, check_slots-legal mages slots h)
  check_slots-legal mages (some id ∷ slots) h = elim (Option-cases (spell_by_id r id)) [
    | inl unknown ↦ absurd (ground arith)
    | inr (spell, known) ↦
        ((spell, known, ground arith), check_slots-legal mages slots (ground arith))
  ]
