-- ===== src/Sim/Phases/Removal/Orphans.antt =====
-- The troop bond (api/app/sim/phases/removal.py): a troop that has just lost its last mage keeps no
-- summon on the field.
use go_forth.Prelude.{
  ◌≡◌, refl, Bool, true, false, not, any, ◌&&◌, some, List, [], ◌∷◌, String, All, map, select,
  arith, eq_refl, Bool-cases, inl, inr, if◌then◌else◌,
}
use mathlib.Core.Path.{subst}
use go_forth.Prelude.Float.{Float}
use go_forth.Prelude.Keeps.{if-keeps, if-cases}
use go_forth.Sim.Field.{Field, TickContext}
use go_forth.Sim.Phases.Removal.{
  is_none, bound_to, dissolve, dissolve_orphans, had_mages, sweep, removal, fallen_ids,
}
use go_forth.Sim.World.{BattleUnit, Troop, contains_id}

module _ {F : Type 0} where
  abbrev ids_where : (BattleUnit F → Bool) → List (BattleUnit F) → List String
  ids_where p us = map (λ u. u.id) (select p us)

  -- A unit that passes a test but is not among those ids.
  abbrev left_out : (BattleUnit F → Bool) → List String → BattleUnit F → Bool
  left_out p ids u = p u && not (contains_id ids u.id)

  left_out-cons :
      (p : BattleUnit F → Bool) (id : String) (ids : List String) (us : List (BattleUnit F))
      → any (left_out p ids) us ≡ false
      → any (left_out p (id ∷ ids)) us ≡ false
  left_out-cons p id ids [] h = refl
  left_out-cons p id ids (u ∷ us) h = ground (arith, left_out-cons p id ids us)

  none_left_out :
      (p : BattleUnit F → Bool) (us : List (BattleUnit F))
      → any (left_out p (ids_where p us)) us ≡ false
  none_left_out p [] = refl
  none_left_out p (u ∷ us) = elim (Bool-cases (p u)) [
    | inl e ↦
        let same : (u.id ∷ ids_where p us) ≡ ids_where p (u ∷ us) = ground arith in
        subst (λ ids. any (left_out p ids) (u ∷ us) ≡ false) same
          (ground
            (arith, eq_refl u.id, left_out-cons p u.id (ids_where p us) us (none_left_out p us)))
    | inr e ↦
        let same : ids_where p us ≡ ids_where p (u ∷ us) = ground arith in
        subst (λ ids. any (left_out p ids) (u ∷ us) ≡ false) same
          (ground (arith, none_left_out p us))
  ]

  any-select :
      (p q : BattleUnit F → Bool) (us : List (BattleUnit F))
      → any p us ≡ false
      → any p (select q us) ≡ false
  any-select p q [] h = refl
  any-select p q (u ∷ us) h = ground (arith, any-select p q us)

  any-taken :
      (p : BattleUnit F → Bool) (ids : List String) (us : List (BattleUnit F))
      → any (left_out p ids) us ≡ false
      → any p (select (λ u. not (contains_id ids u.id)) us) ≡ false
  any-taken p ids [] h = refl
  any-taken p ids (u ∷ us) h = ground (arith, any-taken p ids us)

  none_selected :
      (p : BattleUnit F → Bool) (us : List (BattleUnit F))
      → is_none (select p us) ≡ true
      → any p us ≡ false
  none_selected p [] h = refl
  none_selected p (u ∷ us) h = ground (arith, none_selected p us)

  module _ ⦃f : Float F⦄ where
    -- No summon of the troop is on the field.
    IsGone : Troop F → Field F → Type 0
    IsGone t s = any (bound_to t) s.world.units ≡ false

    dissolve-IsGone : (t : Troop F) (s : Field F) → IsGone t (dissolve t s)
    unfolding dissolve IsGone
    dissolve-IsGone t s =
        if-cases (IsGone t) (is_none (select (bound_to t) s.world.units)) s _
          (none_selected (bound_to t) s.world.units)
          (λ e.
            any-taken (bound_to t) (ids_where (bound_to t) s.world.units) s.world.units
              (none_left_out (bound_to t) s.world.units))

    IsGone-dissolve : (t v : Troop F) (s : Field F) → IsGone t s → IsGone t (dissolve v s)
    unfolding dissolve IsGone
    IsGone-dissolve t v s h =
        if-keeps (IsGone t) (is_none (select (bound_to v) s.world.units)) s _ h (
          any-select (bound_to t)
            (λ u. not (contains_id (ids_where (bound_to v) s.world.units) u.id)) s.world.units h)

    IsGone-dissolve_orphans :
        (t : Troop F) (had : List String) (ts : List (Troop F)) (s : Field F)
        → IsGone t s
        → IsGone t (dissolve_orphans had ts s)
    unfolding dissolve_orphans
    IsGone-dissolve_orphans t had [] s h = h
    IsGone-dissolve_orphans t had (v ∷ ts) s h =
        IsGone-dissolve_orphans t had ts _ (if-keeps (IsGone t) _ _ _ (IsGone-dissolve t v s h) h)

    -- A troop that had mages, has none, and still has a summon on the field.
    abbrev pub is_orphaned : List String → Field F → Troop F → Bool
    is_orphaned had s t =
        contains_id had t.id && is_none t.mage_ids && any (bound_to t) s.world.units

    dissolve_orphans-none :
        (had : List String) (ts : List (Troop F)) (s : Field F)
        → All (λ t. is_orphaned had (dissolve_orphans had ts s) t ≡ false) ts
    unfolding dissolve_orphans IsGone
    dissolve_orphans-none had [] s = tt
    dissolve_orphans-none had (t ∷ ts) s =
        elim (Bool-cases (contains_id had t.id && is_none t.mage_ids)) [
          | inl e ↦
              let gone =
                IsGone-dissolve_orphans t had ts
                  (if contains_id had t.id && is_none t.mage_ids then dissolve t s else s)
                  (if-cases (IsGone t) (contains_id had t.id && is_none t.mage_ids) (dissolve t s) s
                    (λ k. dissolve-IsGone t s) (λ k. cc)) in
              (ground (arith, gone), dissolve_orphans-none had ts _)
          | inr e ↦ (ground arith, dissolve_orphans-none had ts _)
        ]

    -- If somebody has fallen, the removal phase returns, and no troop that had a mage before the
    -- sweep and has none after it has a summon on the field any more.
    pub removal-orphans :
        (ctx : TickContext F) (s : Field F)
        → is_none (fallen_ids s.world.units) ≡ false
        → (t : Field F) × (removal ctx s ≡ some t)
          × All (λ v. is_orphaned (had_mages s.world.troops) t v ≡ false) (sweep s.world).troops
    unfolding removal
    removal-orphans ctx s h = (
      dissolve_orphans (had_mages s.world.troops) (sweep s.world).troops
          (record s { world = sweep s.world }),
      ground arith,
      dissolve_orphans-none (had_mages s.world.troops) (sweep s.world).troops
          (record s { world = sweep s.world }),
    )
