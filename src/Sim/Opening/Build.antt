-- ===== src/Sim/Opening/Build.antt =====
-- The loops of `create_world` (api/app/sim/world.py): the members of a troop, the troops of an army,
-- the armies, and the world that they are in.
use go_forth.Prelude.{
  ℕ, suc, ◌+◌, Option, none, some, List, [], ◌∷◌, ◌++◌, String, map, length, not, if◌then◌else◌,
}
use go_forth.Prelude.Dict.{Dict}
use go_forth.Prelude.Float.{Float, ◌⊖◌, nought}
use go_forth.Sim.BattleMap.{MapConfig}
use go_forth.Sim.BattleMap.Checked.{sound, unsound, validate_map_config}
use go_forth.Sim.Deployment.{derive_formation, deployment_band, deployment_anchor, deployment_spot}
use go_forth.Sim.Effects.{UnitType}
use go_forth.Sim.Formation.{objective_position, station}
use go_forth.Sim.Opening.{
  TroopSetup, ArmySetup, BattleSetup, ◌>>=◌, band_shares, one_army_per_side, troop_id_of, member_id,
  expand, supported, abilities_known, carried_base_hp, member,
}
use go_forth.Sim.Rng.{Rng}
use go_forth.Sim.Spells.{Result, ok, err, SpellInjection, build_spell_catalog, schedule_injections}
use go_forth.Sim.Types.{Side, north, south, BySide, at, Vec2}
use go_forth.Sim.UnitTypes.{build_unit_type_catalog}
use go_forth.Sim.World.{World, BattleUnit, Troop, BaseState, Order, mage, summon, contains_id}

abbrev pub answer : {A : Type 0} → Result A → Option A
answer (ok a) = some a
answer (err e) = none

-- What the loops have built so far: `units`, `troops`, `seen_ids` and the generator.
pub record Draft (F : Type 0) : Type 0 where
  pub units : List (BattleUnit F)
  pub troops : List (Troop F)
  pub seen_ids : List String
  pub rng : Rng

module _ {F : Type 0} ⦃f : Float F⦄ (config : MapConfig F) where
  -- The loop over a troop's members, from the one of that index, into the troop.
  unfoldable pub place_members :
      Side
      → Order
      → Vec2 F
      → ℕ
      → List (UnitType F)
      → List (Vec2 F)
      → Troop F
      → Draft F
      → Option (Troop F × Draft F)
  place_members side order anchor index [] offsets troop d = some (troop, d)
  place_members side order anchor index (t ∷ ts) [] troop d = none
  place_members side order anchor index (t ∷ ts) (offset ∷ offsets) troop d =
      let id = member_id troop.id index in
      let (spot, after) = deployment_spot config side anchor offset d.rng in
      let listed : Troop F = elim t.kind [
        | mage ↦ record troop { mage_ids = troop.mage_ids ++ id ∷ [] }
        | summon ↦ record troop { summon_ids = troop.summon_ids ++ id ∷ [] }
      ] in
      if contains_id d.seen_ids id
      then none
      else station order side offset config >>= λ post.
          place_members side order anchor (suc index) ts offsets listed (record d {
            units = d.units ++ member id troop.id side t spot offset post ∷ [];
            seen_ids = d.seen_ids ++ id ∷ [];
            rng = after;
          })

  module _ (fits : F → F → ℕ) (catalog : Dict (UnitType F)) where
    -- A troop whose roster is expanded: `validate_order` refuses what `objective_position` does.
    unfoldable pub place_troop :
        Side
        → String
        → Order
        → ℕ × ℕ
        → List (UnitType F)
        → List (UnitType F)
        → Draft F
        → Option (Draft F)
    place_troop side id order (share_index, share_count) mages summons d =
        deployment_band config side order share_index share_count >>= λ band.
        let formation =
          derive_formation fits order side (length mages) (length summons)
            (band.stop ⊖ band.start) in
        let fresh : Troop F = record {
          id = id;
          side = side;
          order = order;
          mage_ids = [];
          summon_ids = [];
          dispelled_slots = [];
          next_unit_ordinal = 0;
        } in
        place_members side order (deployment_anchor config side order band formation) 0
          (mages ++ summons) formation.offsets fresh d
        >>= λ placed. some (record placed.1 {
          troops =
              placed.1.troops
              ++ (record placed.0 { next_unit_ordinal = length mages + length summons }) ∷ [];
        })

    unfoldable pub place_troops :
        Side → ℕ → List TroopSetup → List (ℕ × ℕ) → Draft F → Option (Draft F)
    place_troops side index [] shares d = some d
    place_troops side index (setup ∷ setups) [] d = none
    place_troops side index (setup ∷ setups) (share ∷ shares) d =
        objective_position setup.order side config >>= λ _.
        expand setup.mages catalog mage >>= λ mages.
        expand setup.summons catalog summon >>= λ summons.
        if not (supported mages summons)
        then none
        else place_troop side (troop_id_of side index setup.id) setup.order share mages summons d
          >>= λ next. place_troops side (suc index) setups shares next

    unfoldable pub place_armies : List ArmySetup → Draft F → Option (Draft F)
    place_armies [] d = some d
    place_armies (army ∷ armies) d =
        let orders = map (λ (t : TroopSetup). t.order) army.troops in
        place_troops army.side 0 army.troops (band_shares orders [] orders) d
        >>= place_armies armies

  unfoldable pub opening_base : Side → BySide (Option F) → Option (BaseState F)
  opening_base side carried = carried_base_hp config side carried >>= λ hp. some (record {
    max_hp = (at side config.bases).max_hp;
    position = (at side config.bases).position;
    hp = hp;
  })

  unfoldable pub opened : Draft F → BySide (Option F) → List (SpellInjection F) → Option (World F)
  opened d carried pending = opening_base north carried >>= λ north_base.
      opening_base south carried >>= λ south_base. some (record {
        tick = 0;
        rng_state = d.rng.state;
        units = d.units;
        troops = d.troops;
        bases = record { at_north = north_base; at_south = south_base };
        zone_score = record { at_north = nought; at_south = nought };
        zone_holders = map (λ zone. (zone.id, none)) config.zones;
        hazards = [];
        pending_spells = pending;
        next_hazard_id = 0;
      })

  -- create_world
  unfoldable pub create_world : (F → F → ℕ) → BattleSetup F → Rng → Option (World F)
  create_world fits b rng = elim (validate_map_config config) [
    | unsound _ ↦ none
    | sound ↦
        if not (one_army_per_side b.armies)
        then none
        else build_unit_type_catalog b.unit_types >>= λ catalog.
            if not (abilities_known b.abilities b.unit_types)
            then none
            else place_armies fits catalog b.armies
                (record { units = []; troops = []; seen_ids = []; rng = rng })
              >>= λ d. answer (build_spell_catalog b.spells) >>= λ spells.
                  answer (schedule_injections b.spell_injections spells) >>= λ pending.
                  opened d b.base_hp pending
  ]
