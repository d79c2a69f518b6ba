-- ===== src/Match/Plan/Summons.antt =====
-- The loop over the summons of one troop, with what it counts over the whole plan
-- (api/app/match/plan.py, `validate_plan`).
use go_forth.Prelude.{
  ℕ, ◌+◌, ◌≤◌, ◌≡◌, ◌≢◌, refl, true, none, some, List, [], ◌∷◌, String, arith, ap, ◌∙◌, All,
  if◌then◌else◌, str_eq, eq_iff, eq_refl, Option-cases, inl, inr,
}
use go_forth.Prelude.Dict.{Dict, insert, lookup-insert}
use go_forth.Match.Plan.{
  MageOption, SummonOption, Roster, passed, count_in, shares_school, summon_by_id, check_summons,
}

-- How often an id stands in a list.
abbrev pub occurrences : String → List String → ℕ
occurrences id [] = 0
occurrences id (j ∷ ids) = (if str_eq j id then 1 else 0) + occurrences id ids

add_zero : (n : ℕ) → n + 0 ≡ n
add_zero n = omega arith

module _ {F : Type 0} (r : Roster F) where
  -- A summon that is on the roster and that the mage can support.
  pub record IsSupported (mage : MageOption) (id : String) : Type 0 where
    pub summon : SummonOption
    pub on_roster : summon_by_id r id ≡ some summon
    pub in_school : shares_school mage summon ≡ true

  abbrev pub cost_of : String → ℕ
  cost_of id = elim (summon_by_id r id) [ none ↦ 0 | some summon ↦ summon.capacity_cost ]

  abbrev pub total_cost : List String → ℕ
  total_cost [] = 0
  total_cost (id ∷ ids) = cost_of id + total_cost ids

  abbrev pub owned : String → ℕ
  owned id = count_in id r.summon_counts

  count-insert :
      (id j : String) (n : ℕ) (used : Dict ℕ)
      → count_in j (insert id n used) ≡ (if str_eq id j then n else count_in j used)
  count-insert id j n used = ground (arith, lookup-insert id j n used)

  -- What a pass of the loop over a troop's summons says.
  pub record IsPass (mage : MageOption) (ids : List String) (used after : Dict ℕ)
      (capacity total : ℕ) : Type 0 where
    pub supported : All (IsSupported mage) ids
    pub costs : total ≡ capacity + total_cost ids
    pub counts : (j : String) → count_in j after ≡ count_in j used + occurrences j ids
    pub fits : (j : String) → count_in j used ≤ owned j → count_in j after ≤ owned j

  summon-guards :
      (mage : MageOption) (id : String) (ids : List String) (used after : Dict ℕ)
      (capacity total : ℕ) (summon : SummonOption)
      → summon_by_id r id ≡ some summon
      → check_summons r mage (id ∷ ids) used capacity ≡ passed (after, total)
      → (shares_school mage summon ≡ true)
        × (count_in id used + 1 ≤ owned id)
        × (check_summons r mage ids
              (insert id (count_in id used + 1) used)
              (capacity + summon.capacity_cost)
            ≡ passed (after, total))
  unfolding check_summons
  summon-guards mage id ids used after capacity total summon known h =
      (ground arith, ground arith, ground arith)

  unknown-refused :
      (mage : MageOption) (id : String) (ids : List String) (used after : Dict ℕ)
      (capacity total : ℕ)
      → summon_by_id r id ≡ none
      → check_summons r mage (id ∷ ids) used capacity ≢ passed (after, total)
  unfolding check_summons
  unknown-refused mage id ids used after capacity total unknown h = ground arith

  pub check_summons-IsPass :
      (mage : MageOption) (ids : List String) (used after : Dict ℕ) (capacity total : ℕ)
      → check_summons r mage ids used capacity ≡ passed (after, total)
      → IsPass mage ids used after capacity total
  unfolding check_summons
  check_summons-IsPass mage [] used after capacity total h = record {
    supported = tt;
    costs = ground arith;
    counts = λ j. ground arith;
    fits = λ j le. ground arith;
  }
  check_summons-IsPass mage (id ∷ ids) used after capacity total h =
      elim (Option-cases (summon_by_id r id)) [
        | inl unknown ↦ absurd (unknown-refused mage id ids used after capacity total unknown h)
        | inr (summon, known) ↦
            let (school, available, rest) =
              summon-guards mage id ids used after capacity total summon known h in
            let next = insert id (count_in id used + 1) used in
            let ih =
              check_summons-IsPass mage ids next after (capacity + summon.capacity_cost) total
                rest in
            record {
              supported =
                  (record { summon = summon; on_roster = known; in_school = school }, ih.supported);
              costs = rw (known, cost_of) (omega (arith, ih.costs));
              counts = λ j.
                  ground (
                    arith,
                    ih.counts j,
                    count-insert id j (count_in id used + 1) used,
                    eq_iff id j,
                  );
              fits = λ j le.
                  ground
                    (arith, ih.fits j, count-insert id j (count_in id used + 1) used, eq_iff id j);
            }
      ]

  summon-passes :
      (mage : MageOption) (id : String) (ids : List String) (used : Dict ℕ) (capacity : ℕ)
      (summon : SummonOption)
      → summon_by_id r id ≡ some summon
      → shares_school mage summon ≡ true
      → count_in id used + 1 ≤ owned id
      → check_summons r mage (id ∷ ids) used capacity
        ≡ check_summons r mage ids
            (insert id (count_in id used + 1) used)
            (capacity + summon.capacity_cost)
  unfolding check_summons
  summon-passes mage id ids used capacity summon known school available = ground arith

  -- A troop whose summons are supported and available passes.
  pub check_summons-total :
      (mage : MageOption) (ids : List String) (used : Dict ℕ) (capacity : ℕ)
      → All (IsSupported mage) ids
      → ((j : String) → count_in j used + occurrences j ids ≤ owned j)
      → (after : Dict ℕ) × (check_summons r mage ids used capacity
          ≡ passed (after, capacity + total_cost ids))
  unfolding check_summons
  check_summons-total mage [] used capacity supported available =
      (used, rw (add_zero capacity) refl)
  check_summons-total mage (id ∷ ids) used capacity (s, supported) available =
      let here = available id in
      let next = insert id (count_in id used + 1) used in
      let (after, e) =
        check_summons-total mage ids next (capacity + s.summon.capacity_cost) supported (λ j.
          ground
            (arith, available j, count-insert id j (count_in id used + 1) used, eq_iff id j)) in
      (
        after,
        summon-passes mage id ids used capacity s.summon s.on_roster s.in_school
              (ground (arith, eq_refl id))
            ∙ (e ∙ ap (λ t. passed (after, t)) (rw (s.on_roster, cost_of) (omega arith))),
      )
