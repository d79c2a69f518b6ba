-- ===== src/Sim/Phases/Removal/Swept.antt =====
-- What the removal phase leaves (api/app/sim/phases/removal.py): only the living, no id of the fallen
-- in a troop, and nothing of a troop that lost its last mage.
use go_forth.Prelude.{
  ◌≡◌, refl, Bool, true, false, not, ◌&&◌, some, List, [], ◌∷◌, String, All, All-map, All-select,
  map, select, arith, str_eq, eq_refl, Bool-cases, inl, inr,
}
use mathlib.Core.Path.{subst}
use go_forth.Prelude.Float.{Float}
use go_forth.Prelude.Keeps.{if-keeps, if-cases}
use go_forth.Sim.Events.{BattleEvent}
use go_forth.Sim.Field.{Field, TickContext, emit}
use go_forth.Sim.Phases.Removal.{
  is_none, kept, troops_updated, open_slots, swept_troop, fallen_ids, mourn, bound_to, taken_off,
  dissolve, dissolve_orphans, had_mages, sweep, removal,
}
use go_forth.Sim.World.{BattleUnit, Troop, is_alive, contains_id}

kept-clear :
    (fallen ids : List String) → All (λ id. contains_id fallen id ≡ false) (kept fallen ids)
kept-clear fallen [] = tt
kept-clear fallen (id ∷ ids) = elim (Bool-cases (contains_id fallen id)) [
  | inl e ↦ ground (arith, kept-clear fallen ids)
  | inr e ↦ ground (arith, e, kept-clear fallen ids)
]

module _ {F : Type 0} where
  -- No id of those is in the troop.
  abbrev pub IsCleared : List String → Troop F → Type 0
  IsCleared fallen t =
      All (λ id. contains_id fallen id ≡ false) t.mage_ids
      × All (λ id. contains_id fallen id ≡ false) t.summon_ids

  swept_troops-IsCleared :
      (fallen : List String) (ts : List (Troop F))
      → All (IsCleared fallen) (map (swept_troop fallen) ts)
  swept_troops-IsCleared fallen [] = tt
  swept_troops-IsCleared fallen (t ∷ ts) = (
    (kept-clear fallen t.mage_ids, kept-clear fallen t.summon_ids),
    swept_troops-IsCleared fallen ts,
  )

  troops_updated-keeps :
      (P : Troop F → Type 0) (id : String) (change : Troop F → Troop F) (ts : List (Troop F))
      → ((t : Troop F) → P t → P (change t))
      → All P ts
      → All P (troops_updated id change ts)
  troops_updated-keeps P id change ts k h =
      All-map P _ P ts (λ t p. if-keeps P (str_eq t.id id) (change t) t (k t p) p) h

  module _ ⦃f : Float F⦄ where
    abbrev pub Lives : BattleUnit F → Type 0
    Lives u = is_alive u ≡ true

    -- Whether a unit is dead and not among those ids.
    abbrev missed : List String → BattleUnit F → Bool
    missed ids u = not (is_alive u) && not (contains_id ids u.id)

    missed-cons :
        (id : String) (ids : List String) (us : List (BattleUnit F))
        → All (λ u. missed ids u ≡ false) us
        → All (λ u. missed (id ∷ ids) u ≡ false) us
    missed-cons id ids [] h = tt
    missed-cons id ids (u ∷ us) h = (ground (arith, h.0), missed-cons id ids us h.1)

    none_missed : (us : List (BattleUnit F)) → All (λ u. missed (fallen_ids us) u ≡ false) us
    none_missed [] = tt
    none_missed (u ∷ us) = elim (Bool-cases (is_alive u)) [
      | inl e ↦
          let same : fallen_ids us ≡ fallen_ids (u ∷ us) = ground arith in
          subst (λ ids. All (λ v. missed ids v ≡ false) (u ∷ us)) same
            (ground arith, none_missed us)
      | inr e ↦
          let same : (u.id ∷ fallen_ids us) ≡ fallen_ids (u ∷ us) = ground arith in
          subst (λ ids. All (λ v. missed ids v ≡ false) (u ∷ us)) same
            (ground (arith, eq_refl u.id), missed-cons u.id (fallen_ids us) us (none_missed us))
    ]

    mourn-hp :
        (all : List (BattleUnit F)) (u : BattleUnit F)
        → ((mourn all u).hp ≡ u.hp) × ((mourn all u).id ≡ u.id)
    mourn-hp all u = (ground arith, ground arith)

    select-Lives :
        (fallen : List String) (all us : List (BattleUnit F))
        → All (λ u. missed fallen u ≡ false) us
        → All Lives (select (λ u. not (contains_id fallen u.id)) (map (mourn all) us))
    unfolding is_alive
    select-Lives fallen all [] h = tt
    select-Lives fallen all (u ∷ us) h =
        let (hp, id) = mourn-hp all u in
        if-cases (All Lives) (not (contains_id fallen (mourn all u).id)) _ _
          (λ e. (ground (arith, h.0, hp, id), select-Lives fallen all us h.1))
          (λ e. select-Lives fallen all us h.1)

    -- What a swept field is: only the living, and none of those ids in a troop.
    pub record IsSwept (fallen : List String) (s : Field F) : Type 0 where
      pub living : All Lives s.world.units
      pub cleared : All (IsCleared fallen) s.world.troops

    emit-IsSwept :
        (fallen : List String) (e : BattleEvent F) (s : Field F)
        → IsSwept fallen s
        → IsSwept fallen (emit e s)
    emit-IsSwept fallen e s h = record { living = h.living; cleared = h.cleared }

    taken_off-IsSwept :
        (fallen : List String) (t : Troop F) (ids : List String) (s : Field F)
        → IsSwept fallen s
        → IsSwept fallen (taken_off t ids s)
    taken_off-IsSwept fallen t ids s h = record {
      living = All-select Lives (λ u. not (contains_id ids u.id)) s.world.units h.living;
      cleared =
          troops_updated-keeps (IsCleared fallen) t.id
            (λ v. record v { summon_ids = kept ids v.summon_ids }) s.world.troops
            (λ v k. (
              k.0,
              All-select (λ id. contains_id fallen id ≡ false) (λ uid. not (contains_id ids uid))
                  v.summon_ids k.1,
            ))
            h.cleared;
    }

    dissolve-IsSwept :
        (fallen : List String) (t : Troop F) (s : Field F)
        → IsSwept fallen s
        → IsSwept fallen (dissolve t s)
    unfolding dissolve
    dissolve-IsSwept fallen t s h =
        let ids = map (λ (u : BattleUnit F). u.id) (select (bound_to t) s.world.units) in
        if-keeps (IsSwept fallen) (is_none (select (bound_to t) s.world.units)) s _ h
          (emit-IsSwept fallen _ (taken_off t ids s) (taken_off-IsSwept fallen t ids s h))

    dissolve_orphans-IsSwept :
        (fallen had : List String) (ts : List (Troop F)) (s : Field F)
        → IsSwept fallen s
        → IsSwept fallen (dissolve_orphans had ts s)
    unfolding dissolve_orphans
    dissolve_orphans-IsSwept fallen had [] s h = h
    dissolve_orphans-IsSwept fallen had (t ∷ ts) s h =
        dissolve_orphans-IsSwept fallen had ts _
          (if-keeps (IsSwept fallen) _ _ _ (dissolve-IsSwept fallen t s h) h)

    -- Nobody has fallen, so nobody is dead.
    no_fallen-IsSwept : (us : List (BattleUnit F)) → is_none (fallen_ids us) ≡ true → All Lives us
    no_fallen-IsSwept [] h = tt
    no_fallen-IsSwept (u ∷ us) h = elim (Bool-cases (is_alive u)) [
      | inl e ↦ (e, no_fallen-IsSwept us (ground arith))
      | inr e ↦ ground arith
    ]

    no_ids-IsCleared :
        (ids : List String) → is_none ids ≡ true → (ts : List (Troop F)) → All (IsCleared ids) ts
    no_ids-IsCleared [] h [] = tt
    no_ids-IsCleared [] h (t ∷ ts) =
        ((nothing t.mage_ids, nothing t.summon_ids), no_ids-IsCleared [] h ts)
      where
        nothing : (ids : List String) → All (λ id. contains_id [] id ≡ false) ids
        nothing [] = tt
        nothing (i ∷ is) = (refl, nothing is)
    no_ids-IsCleared (i ∷ is) h ts = cc

    sweep-IsSwept :
        (s : Field F) → IsSwept (fallen_ids s.world.units) (record s { world = sweep s.world })
    unfolding sweep
    sweep-IsSwept s =
        let fallen = fallen_ids s.world.units in
        record {
          living = select-Lives fallen s.world.units s.world.units (none_missed s.world.units);
          cleared = swept_troops-IsCleared fallen (open_slots fallen s.world.units s.world.troops);
        }

    -- The removal phase returns, and after it every unit on the field is alive and no troop lists
    -- the id of a unit that had fallen.
    pub removal-IsSwept :
        (ctx : TickContext F) (s : Field F)
        → (t : Field F) × (removal ctx s ≡ some t) × IsSwept (fallen_ids s.world.units) t
    unfolding removal
    removal-IsSwept ctx s = elim (Bool-cases (is_none (fallen_ids s.world.units))) [
      | inl e ↦ (
        s,
        ground arith,
        record {
          living = no_fallen-IsSwept s.world.units e;
          cleared = no_ids-IsCleared _ e s.world.troops;
        },
      )
      | inr e ↦ (
        dissolve_orphans (had_mages s.world.troops) (sweep s.world).troops
            (record s { world = sweep s.world }),
        ground arith,
        dissolve_orphans-IsSwept _ _ (sweep s.world).troops _ (sweep-IsSwept s),
      )
    ]
