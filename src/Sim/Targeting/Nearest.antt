-- ===== src/Sim/Targeting/Nearest.antt =====
-- What `acquire_target` finds (api/app/sim/phases/targeting.py): among the enemies in reach, the first
-- by gap and then by id.
use go_forth.Prelude.{
  ◌≡◌, sym, ◌∙◌, Bool, true, false, ◌&&◌, Option, none, some, List, [], ◌∷◌, All, arith, Bool-cases,
  inl, inr, if◌then◌else◌,
}
use mathlib.Core.Path.{subst}
use go_forth.Prelude.Keeps.{if-cases}
use go_forth.Prelude.Float.{Float, IsFloat, ◌≤?◌}
use go_forth.Prelude.Order.{lex_less, lex-IsKey}
use go_forth.Prelude.Text.{str_lt, str-IsKey}
use go_forth.Sim.Targeting.{
  is_foe, gap_to, displaces, nearest, intended_target, declines_target, acquire_target,
}
use go_forth.Sim.World.{World, BattleUnit}

-- The elements of the first list, last first, before those of the second.
onto : {A : Type 0} → List A → List A → List A
onto [] ys = ys
onto (x ∷ xs) ys = onto xs (x ∷ ys)

All-onto_tail : {A : Type 0} (P : A → Type 0) (xs ys : List A) → All P (onto xs ys) → All P ys
unfolding onto
All-onto_tail P [] ys h = h
All-onto_tail P (x ∷ xs) ys h = (All-onto_tail P xs (x ∷ ys) h).1

All-onto : {A : Type 0} (P : A → Type 0) (xs ys : List A) → All P (onto xs ys) → All P xs
unfolding onto
All-onto P [] ys h = tt
All-onto P (x ∷ xs) ys h = ((All-onto_tail P xs (x ∷ ys) h).0, All-onto P xs (x ∷ ys) h)

module _ {F : Type 0} ⦃f : Float F⦄ where
  abbrev pub in_reach : BattleUnit F → F → BattleUnit F → Bool
  in_reach u limit c = is_foe u c && gap_to u c ≤? limit

  -- A best of those units: in reach, and displaced by none of them that is.
  abbrev pub IsNearest : BattleUnit F → F → List (BattleUnit F) → Option (BattleUnit F) → Type 0
  IsNearest u limit us none = All (λ c. in_reach u limit c ≡ false) us
  IsNearest u limit us (some b) =
      (in_reach u limit b ≡ true) × All (λ c. (in_reach u limit c && displaces u b c) ≡ false) us

  module _ (law : IsFloat F) where
    displaces-lex_less :
        (u b c : BattleUnit F)
        → displaces u b c ≡ lex_less f.eq f.lt str_lt (gap_to u c, c.id) (gap_to u b, b.id)
    displaces-lex_less u b c = ground (arith, law.key.less_of_same (gap_to u c) (gap_to u b))

    -- Who does not displace the best does not displace one that does.
    displaces_trans :
        (u b c x : BattleUnit F)
        → displaces u b c ≡ true
        → displaces u b x ≡ false
        → displaces u c x ≡ false
    displaces_trans u b c x h k =
        let key = lex-IsKey law.key str-IsKey in
        let less : lex_less f.eq f.lt str_lt (gap_to u c, c.id) (gap_to u x, x.id) ≡ true =
          key.less_trans (gap_to u c, c.id) (gap_to u b, b.id) (gap_to u x, x.id)
            (sym (displaces-lex_less u b c) ∙ h) (sym (displaces-lex_less u b x) ∙ k) in
        displaces-lex_less u c x ∙ key.less_asym (gap_to u c, c.id) (gap_to u x, x.id) less

    displaces_irrefl : (u b : BattleUnit F) → displaces u b b ≡ false
    displaces_irrefl u b =
        displaces-lex_less u b b
        ∙ (lex-IsKey law.key str-IsKey).less_of_same (gap_to u b, b.id) (gap_to u b, b.id)
            ((lex-IsKey law.key str-IsKey).same_refl (gap_to u b, b.id))

    none-over :
        (u : BattleUnit F) (limit : F) (b : BattleUnit F) (done : List (BattleUnit F))
        → All (λ c. in_reach u limit c ≡ false) done
        → All (λ c. (in_reach u limit c && displaces u b c) ≡ false) done
    none-over u limit b [] h = tt
    none-over u limit b (x ∷ done) h = (ground (arith, h.0), none-over u limit b done h.1)

    displaced-over :
        (u : BattleUnit F) (limit : F) (b c : BattleUnit F) (done : List (BattleUnit F))
        → displaces u b c ≡ true
        → All (λ x. (in_reach u limit x && displaces u b x) ≡ false) done
        → All (λ x. (in_reach u limit x && displaces u c x) ≡ false) done
    displaced-over u limit b c [] e h = tt
    displaced-over u limit b c (x ∷ done) e h = elim (Bool-cases (displaces u b x)) [
      | inl d ↦ (ground (arith, h.0), displaced-over u limit b c done e h.1)
      | inr d ↦ (ground (arith, displaces_trans u b c x e d), displaced-over u limit b c done e h.1)
    ]

    -- The best of the units seen, and the next one.
    next_best :
        (u : BattleUnit F) (limit : F) (c : BattleUnit F) (done : List (BattleUnit F))
        (best : Option (BattleUnit F))
        → IsNearest u limit done best
        → IsNearest u limit (c ∷ done) (
            if in_reach u limit c
            then elim best [ none ↦ some c | some b ↦ if displaces u b c then some c else some b ]
            else best)
    next_best u limit c done none h =
        if-cases (IsNearest u limit (c ∷ done)) (in_reach u limit c) (some c) none
          (λ e. (e, (ground (arith, displaces_irrefl u c), none-over u limit c done h)))
          (λ e. (e, h))
    next_best u limit c done (some b) h =
        if-cases (IsNearest u limit (c ∷ done)) (in_reach u limit c)
          (if displaces u b c then some c else some b) (some b)
          (λ e.
            if-cases (IsNearest u limit (c ∷ done)) (displaces u b c) (some c) (some b)
              (λ d.
                (e, (ground (arith, displaces_irrefl u c), displaced-over u limit b c done d h.1)))
              (λ d. (h.0, (ground (arith, d), h.1))))
          (λ e. (h.0, (ground (arith, e), h.1)))

    nearest_over :
        (u : BattleUnit F) (limit : F) (cs done : List (BattleUnit F))
        (best : Option (BattleUnit F))
        → IsNearest u limit done best
        → IsNearest u limit (onto cs done) (nearest u limit cs best)
    unfolding nearest onto
    nearest_over u limit [] done best h = h
    nearest_over u limit (c ∷ cs) done best h =
        nearest_over u limit cs (c ∷ done) _ (next_best u limit c done best h)

    IsNearest-onto :
        (u : BattleUnit F) (limit : F) (us : List (BattleUnit F)) (b : Option (BattleUnit F))
        → IsNearest u limit (onto us []) b
        → IsNearest u limit us b
    IsNearest-onto u limit us none h = All-onto _ us [] h
    IsNearest-onto u limit us (some b) h = (h.0, All-onto _ us [] h.1)

    -- For floats that keep the laws, a unit that does not decline targets and has no intended one
    -- acquires, within a reach, an enemy in that reach that no other enemy in reach displaces by a
    -- smaller gap or, at the same gap, an earlier id; and none only if no enemy is in reach.
    pub acquire_target-IsNearest :
        (w : World F) (u : BattleUnit F) (limit : F)
        → declines_target u ≡ false
        → intended_target w u limit ≡ none
        → IsNearest u limit w.units (acquire_target w u (some limit))
    unfolding acquire_target
    acquire_target-IsNearest w u limit h k =
        let it : nearest u limit w.units none ≡ acquire_target w u (some limit) = ground arith in
        subst (IsNearest u limit w.units) it
          (IsNearest-onto u limit w.units _ (nearest_over u limit w.units [] none tt))
