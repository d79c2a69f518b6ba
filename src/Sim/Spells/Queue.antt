-- ===== src/Sim/Spells/Queue.antt =====
-- The queue of injected spells: its order, and that a cast taken live lands where the opening
-- schedule would have put it (api/app/sim/spells.py, run_battle.py, phases/spells.py).
use go_forth.Prelude.{
  ℕ, ◌≤◌, ◌<◌, ◌≡◌, refl, false, List, [], ◌∷◌, ◌++◌, arith, Bool-cases, inl, inr, All, leb,
}
use mathlib.Core.Path.{subst, ap}
use mathlib.Core.List.{Perm}
use go_forth.Prelude.Dict.{Dict}
use go_forth.Prelude.Float.{Float, IsFloat}
use go_forth.Prelude.Order.{IsKey, nat-IsKey, lex-IsKey, on-IsKey}
use go_forth.Prelude.Sorting.{
  IsSorted, sorted, sorted-IsSorted, sorted-snoc, insert_right-perm, insert_right-IsSorted,
  list_insert-bisect_right, insert_right,
}
use go_forth.Prelude.Text.{str-IsKey}
use go_forth.Sim.Types.{side_eq}
use go_forth.Sim.Spells.{
  SpellInjection, ok, err, ◌>>=◌, side_lt, injection_order, key_same, before, check_injection,
  check_injections, schedule_injections, inject, take_due,
}

side-IsKey : IsKey side_eq side_lt
side-IsKey = record {
  same_refl = λ a. ground arith;
  same_sym = λ a b h. ground arith;
  less_of_same = λ a b h. ground arith;
  less_asym = λ a b h. ground arith;
  same_of_neither = λ a b h k. ground arith;
  less_trans = λ a b c h k. ground arith;
}

module _ {F : Type 0} ⦃f : Float F⦄ (laws : IsFloat F) where
  pub before-IsKey :
      IsKey (λ i j. key_same (injection_order i) (injection_order j)) (before {F = F})
  unfolding before
  before-IsKey = on-IsKey injection_order (
      lex-IsKey nat-IsKey
        (lex-IsKey str-IsKey (lex-IsKey side-IsKey (lex-IsKey laws.key laws.key))))

  module _ {S : Type 0} (catalog : Dict S) where
    schedule-sorted :
        (is q : List (SpellInjection F))
        → schedule_injections is catalog ≡ ok q
        → (check_injections catalog is ≡ ok tt) × (sorted before is ≡ q)
    unfolding schedule_injections
    schedule-sorted is q h =
        elim (check_injections catalog is)
            as (λ c.
              (c >>= λ _. ok (sorted before is)) ≡ ok q → (c ≡ ok tt) × (sorted before is ≡ q)) [
                | ok t ↦ λ e. (ground arith, ground arith)
                | err x ↦ λ e. cc
              ]
          h

    check-snoc :
        (is : List (SpellInjection F)) (i : SpellInjection F)
        → check_injections catalog is ≡ ok tt
        → check_injections catalog (is ++ i ∷ []) ≡ check_injection catalog i
    unfolding check_injections
    check-snoc [] i h = ground arith
    check-snoc (j ∷ is) i h = ground (arith, check-snoc is i)

    inject-sorted :
        (now : ℕ) (q : List (SpellInjection F)) (i : SpellInjection F)
        → IsSorted before q
        → now < i.tick
        → inject catalog now q i ≡ (check_injection catalog i >>= λ _. ok (insert_right before i q))
    unfolding inject check_injection
    inject-sorted now q i s later = ground (arith, list_insert-bisect_right before-IsKey i q s)

    -- For floats that keep the laws, injecting a spell ahead of the clock into the queue that a
    -- list of injections was scheduled as gives exactly what scheduling the list with that spell at
    -- its end gives, the refusals included.
    pub inject-eq-schedule :
        (now : ℕ) (is q : List (SpellInjection F)) (i : SpellInjection F)
        → schedule_injections is catalog ≡ ok q
        → now < i.tick
        → inject catalog now q i ≡ schedule_injections (is ++ i ∷ []) catalog
    unfolding schedule_injections
    inject-eq-schedule now is q i h later =
        let (passed, is_q) = schedule-sorted is q h in
        rw (
          inject-sorted now q i (subst (IsSorted before) is_q (sorted-IsSorted before-IsKey is))
              later,
          check-snoc is i passed,
          sorted-snoc before i is,
          is_q,
        )

  inject-ok :
      {S : Type 0} (catalog : Dict S) (now : ℕ) (q r : List (SpellInjection F))
      (i : SpellInjection F)
      → IsSorted before q
      → inject catalog now q i ≡ ok r
      → (now < i.tick) × (insert_right before i q ≡ r)
  unfolding inject
  inject-ok catalog now q r i s h = ground (arith, list_insert-bisect_right before-IsKey i q s)

  -- For floats that keep the laws, if an injection into an ordered queue is accepted, it is ahead
  -- of the clock and the new queue is ordered and a permutation of the old one with the injection
  -- added.
  pub inject-IsSorted :
      {S : Type 0} (catalog : Dict S) (now : ℕ) (q r : List (SpellInjection F))
      (i : SpellInjection F)
      → IsSorted before q
      → inject catalog now q i ≡ ok r
      → (IsSorted before r) × (now < i.tick) × Perm r (i ∷ q)
  inject-IsSorted catalog now q r i s h =
      let (later, e) = inject-ok catalog now q r i s h in
      (
        subst (IsSorted before) e (insert_right-IsSorted before-IsKey i q s),
        later,
        subst (λ l. Perm l (i ∷ q)) e (insert_right-perm before i q),
      )

  before-tick : (i j : SpellInjection F) → before j i ≡ false → i.tick ≤ j.tick
  unfolding before
  before-tick i j h = ground arith

  later-All :
      (now : ℕ) (i : SpellInjection F) (q : List (SpellInjection F))
      → now < i.tick
      → All (λ j. before j i ≡ false) q
      → All (λ (j : SpellInjection F). now < j.tick) q
  later-All now i [] h a = tt
  later-All now i (j ∷ q) h a = (omega (arith, before-tick i j a.0), later-All now i q h a.1)

  -- For floats that keep the laws, what a tick takes from an ordered queue and what it leaves are
  -- together the queue, all that it takes is due by that tick, and all that it leaves is still
  -- ahead.
  pub take_due-split :
      (now : ℕ) (q : List (SpellInjection F))
      → IsSorted before q
      → ((take_due now q).0 ++ (take_due now q).1 ≡ q)
        × All (λ (i : SpellInjection F). i.tick ≤ now) (take_due now q).0
        × All (λ (i : SpellInjection F). now < i.tick) (take_due now q).1
  unfolding take_due
  take_due-split now [] s = (refl, tt, tt)
  take_due-split now (i ∷ q) s = elim (Bool-cases (leb i.tick now)) [
    | inl due ↦
        let (parts, taken, left) = take_due-split now q s.1 in
        rw due (ap (λ l. i ∷ l) parts, (ground arith, taken), left)
    | inr ahead ↦ rw ahead (refl, tt, (ground arith, later-All now i q (ground arith) s.0))
  ]
