-- ===== src/Sim/Opening/Members.antt =====
-- That the loops of `create_world` (api/app/sim/world.py) give different ids to the units and full hp
-- to each, from cards that the catalog has let through.
use go_forth.Prelude.{
  ℕ, suc, ◌≡◌, refl, sym, ◌∙◌, ap, true, false, Option, none, some, List, [], ◌∷◌, ◌++◌, String,
  map, str_eq, All, All-append, arith,
}
use mathlib.Core.Path.{subst}
use go_forth.Prelude.Dict.{Dict, lookup, insert}
use go_forth.Prelude.Entries.{lookup-All, insert-All}
use go_forth.Prelude.Float.{Float, ◌<?◌, nought}
use go_forth.Prelude.Keeps.{
  if-keeps, if-cases, Option-keeps, Option-keeps_eq, Holds, none-Holds, some-Holds, bind-Holds,
}
use go_forth.Sim.BattleMap.{MapConfig}
use go_forth.Sim.Deployment.{deployment_spot, deployment_band}
use go_forth.Sim.Formation.{station, objective_position}
use go_forth.Sim.Effects.{UnitType}
use go_forth.Sim.Opening.{
  RosterEntry, TroopSetup, ArmySetup, ◌>>=◌, member_id, copies, expand, member,
}
use go_forth.Sim.Opening.Build.{Draft, place_members, place_troop, place_troops, place_armies}
use go_forth.Sim.Types.{Side, Vec2}
use go_forth.Sim.UnitTypes.{is_coherent, add_unit_types}
use go_forth.Sim.World.{BattleUnit, Troop, Order, UnitKind, is_alive, contains_id}

pub chain-Holds :
    {A B : Type 0} (P : A → Type 0) (Q : B → Type 0) (o : Option A) (g : A → Option B)
    → Holds P o
    → ((a : A) → P a → Holds Q (g a))
    → Holds Q (o >>= g)
chain-Holds P Q none g h k = none-Holds Q
chain-Holds P Q (some a) g h k = k a (h.holds a refl)

-- Nothing is asked of the answer.
pub any-Holds : {A : Type 0} (o : Option A) → Holds (λ (_ : A). Unit {0}) o
any-Holds o = record { holds = λ a e. tt }

module _ {F : Type 0} ⦃f : Float F⦄ where
  abbrev pub IsCoherent : UnitType F → Type 0
  IsCoherent t = is_coherent t ≡ true

  pub add_unit_types-IsCoherent :
      (catalog : Dict (UnitType F)) (ts : List (UnitType F))
      → All (λ e. IsCoherent e.1) catalog
      → Holds (λ (d : Dict (UnitType F)). All (λ e. IsCoherent e.1) d) (add_unit_types catalog ts)
  unfolding add_unit_types
  add_unit_types-IsCoherent catalog [] h = some-Holds _ h
  add_unit_types-IsCoherent catalog (t ∷ ts) h =
      Option-keeps (Holds _) (lookup t.id catalog) _ _
        (if-cases (Holds _) (is_coherent t) _ _
          (λ e.
            add_unit_types-IsCoherent (insert t.id t catalog) ts
              (insert-All IsCoherent t.id t catalog h e))
          (λ e. none-Holds _))
        (λ _. none-Holds _)

  copies-All : (P : UnitType F → Type 0) (n : ℕ) (t : UnitType F) → P t → All P (copies n t)
  unfolding copies
  copies-All P ℕ.zero t h = tt
  copies-All P (suc n) t h = (h, copies-All P n t h)

  expand-IsCoherent :
      (entries : List RosterEntry) (catalog : Dict (UnitType F)) (kind : UnitKind)
      → All (λ e. IsCoherent e.1) catalog
      → Holds (All IsCoherent) (expand entries catalog kind)
  unfolding expand
  expand-IsCoherent [] catalog kind h = some-Holds (All IsCoherent) tt
  expand-IsCoherent (entry ∷ entries) catalog kind h =
      Option-keeps_eq (Holds (All IsCoherent)) (lookup entry.type_id catalog) none _
        (λ e. none-Holds _)
        (λ t e. if-keeps (Holds (All IsCoherent)) _ _ _ (none-Holds _) (
          bind-Holds (All IsCoherent) (All IsCoherent) (expand entries catalog kind) _
            (expand-IsCoherent entries catalog kind h)
            (λ more k. some-Holds (All IsCoherent) (
              All-append IsCoherent _ more
                (copies-All IsCoherent entry.count t
                  (lookup-All IsCoherent entry.type_id t catalog h e))
                k))))

  -- No two of the units have one id.
  abbrev pub IsDistinct : List (BattleUnit F) → Type 0
  IsDistinct [] = Unit
  IsDistinct (u ∷ us) = All (λ (v : BattleUnit F). str_eq u.id v.id ≡ false) us × IsDistinct us

  abbrev ids : List (BattleUnit F) → List String
  ids us = map (λ u. u.id) us

  IsDistinct-append :
      (us : List (BattleUnit F)) (v : BattleUnit F)
      → IsDistinct us
      → contains_id (ids us) v.id ≡ false
      → IsDistinct (us ++ v ∷ [])
  IsDistinct-append [] v d h = (tt, tt)
  IsDistinct-append (u ∷ us) v d h =
      let fresh : contains_id (ids us) v.id ≡ false = ground arith in
      let apart : str_eq u.id v.id ≡ false = ground arith in
      (All-append _ us (v ∷ []) d.0 (apart, tt), IsDistinct-append us v d.1 fresh)

  ids-append :
      (us : List (BattleUnit F)) (v : BattleUnit F) → ids (us ++ v ∷ []) ≡ ids us ++ v.id ∷ []
  ids-append [] v = refl
  ids-append (u ∷ us) v = ap (λ l. u.id ∷ l) (ids-append us v)

  -- What the loops keep of what they have built.
  pub record IsSound (d : Draft F) : Type 0 where
    pub seen : d.seen_ids ≡ ids d.units
    pub distinct : IsDistinct d.units
    pub alive : All (λ u. is_alive u ≡ true) d.units

  coherent_alive : (t : UnitType F) → IsCoherent t → (nought <? t.max_hp) ≡ true
  unfolding is_coherent
  coherent_alive t h = ground arith

  member-alive :
      (id troop_id : String) (side : Side) (t : UnitType F) (spot offset post : Vec2 F)
      → IsCoherent t
      → is_alive (member id troop_id side t spot offset post) ≡ true
  unfolding is_alive
  member-alive id troop_id side t spot offset post h = coherent_alive t h

  module _ (config : MapConfig F) where
    -- The field of what `place_members` answers.
    IsSoundTroop : Troop F × Draft F → Type 0
    IsSoundTroop p = IsSound p.1

    place_members-IsSound :
        (side : Side) (order : Order) (anchor : Vec2 F) (index : ℕ) (ts : List (UnitType F))
        (offsets : List (Vec2 F)) (troop : Troop F) (d : Draft F)
        → All IsCoherent ts
        → IsSound d
        → Holds IsSoundTroop (place_members config side order anchor index ts offsets troop d)
    unfolding place_members IsSoundTroop
    place_members-IsSound side order anchor index [] offsets troop d k h = some-Holds IsSoundTroop h
    place_members-IsSound side order anchor index (t ∷ ts) [] troop d k h = none-Holds IsSoundTroop
    place_members-IsSound side order anchor index (t ∷ ts) (offset ∷ offsets) troop d k h =
        let id = member_id troop.id index in
        let spot = (deployment_spot config side anchor offset d.rng).0 in
        if-cases (Holds IsSoundTroop) (contains_id d.seen_ids id) _ _ (λ e. none-Holds IsSoundTroop)
          (λ e.
            chain-Holds (λ _. Unit {0}) IsSoundTroop (station order side offset config) _
              (any-Holds (station order side offset config))
              (λ post _.
                let u = member id troop.id side t spot offset post in
                place_members-IsSound side order anchor (suc index) ts offsets _ _ k.1 (record {
                  seen = ap (λ l. l ++ id ∷ []) h.seen ∙ sym (ids-append d.units u);
                  distinct =
                      IsDistinct-append d.units u h.distinct
                        (subst (λ l. contains_id l id ≡ false) h.seen e);
                  alive =
                      All-append _ d.units (u ∷ []) h.alive
                        (member-alive id troop.id side t spot offset post k.0, tt);
                })))

    module _ (fits : F → F → ℕ) (catalog : Dict (UnitType F)) where
      place_troop-IsSound :
          (side : Side) (id : String) (order : Order) (share : ℕ × ℕ)
          (mages summons : List (UnitType F)) (d : Draft F)
          → All IsCoherent mages
          → All IsCoherent summons
          → IsSound d
          → Holds IsSound (place_troop config fits catalog side id order share mages summons d)
      unfolding place_troop IsSoundTroop
      place_troop-IsSound side id order (index, count) mages summons d m s h =
          chain-Holds (λ _. Unit {0}) IsSound (deployment_band config side order index count) _
            (any-Holds (deployment_band config side order index count))
            (λ band _.
              chain-Holds IsSoundTroop IsSound _ _
                (place_members-IsSound side order _ 0 (mages ++ summons) _ _ d
                  (All-append IsCoherent mages summons m s) h)
                (λ placed p.
                  some-Holds IsSound
                    (record { seen = p.seen; distinct = p.distinct; alive = p.alive })))

      place_troops-IsSound :
          (side : Side) (index : ℕ) (setups : List TroopSetup) (shares : List (ℕ × ℕ)) (d : Draft F)
          → All (λ e. IsCoherent e.1) catalog
          → IsSound d
          → Holds IsSound (place_troops config fits catalog side index setups shares d)
      unfolding place_troops
      place_troops-IsSound side index [] shares d c h = some-Holds IsSound h
      place_troops-IsSound side index (setup ∷ setups) [] d c h = none-Holds IsSound
      place_troops-IsSound side index (setup ∷ setups) (share ∷ shares) d c h =
          chain-Holds (λ _. Unit {0}) IsSound (objective_position setup.order side config) _
            (any-Holds (objective_position setup.order side config))
            (λ _ _.
              chain-Holds (All IsCoherent) IsSound (expand setup.mages catalog UnitKind.mage) _
                (expand-IsCoherent setup.mages catalog UnitKind.mage c)
                (λ mages m.
                  chain-Holds (All IsCoherent) IsSound
                    (expand setup.summons catalog UnitKind.summon) _
                    (expand-IsCoherent setup.summons catalog UnitKind.summon c)
                    (λ summons s. if-keeps (Holds IsSound) _ _ _ (none-Holds IsSound) (
                      chain-Holds IsSound IsSound
                        (place_troop config fits catalog side _ setup.order share mages summons d) _
                        (place_troop-IsSound side _ setup.order share mages summons d m s h)
                        (λ next k. place_troops-IsSound side (suc index) setups shares next c k)))))

      pub place_armies-IsSound :
          (armies : List ArmySetup) (d : Draft F)
          → All (λ e. IsCoherent e.1) catalog
          → IsSound d
          → Holds IsSound (place_armies config fits catalog armies d)
      unfolding place_armies
      place_armies-IsSound [] d c h = some-Holds IsSound h
      place_armies-IsSound (army ∷ armies) d c h =
          chain-Holds IsSound IsSound _ (place_armies config fits catalog armies)
            (place_troops-IsSound army.side 0 army.troops _ d c h)
            (λ next k. place_armies-IsSound armies next c k)
