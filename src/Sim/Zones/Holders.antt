-- ===== src/Sim/Zones/Holders.antt =====
-- What the counts of `zone_occupancy` come to (api/app/sim/zones.py): for each zone, the units that
-- stand in it, and a holder where one side alone has a living mage on the hotspot.
use go_forth.Prelude.{
  ℕ, ◌+◌, ◌≡◌, refl, Bool, true, false, Option, none, some, List, [], ◌∷◌, ◌∙◌, All, String, any,
  not, map, str_eq, eq_iff, eq_refl, ◌&&◌, if◌then◌else◌, arith, ltb, Option-cases, inl, inr,
}
use go_forth.Prelude.Dict.{lookup}
use go_forth.Prelude.Float.{Float}
use go_forth.Sim.BattleMap.{MapConfig, ZoneConfig, zone_containing, hotspot_contains}
use go_forth.Sim.Types.{Side, north, south, side_eq, BySide, at, put, both, at-put}
use go_forth.Sim.World.{World, BattleUnit, is_alive, is_mage}
use go_forth.Sim.Zones.{
  ZoneOccupancy, Counts, nobody, bump, counts_of, holder_of, empty_counts, count_unit, count_units,
  occupancy_of, zone_occupancy,
}

abbrev bumped : String → Side → String → BySide ℕ → BySide ℕ
bumped id side j c = if str_eq id j then put side (at side c + 1) c else c

abbrev known : String → Counts → Bool
known j d = elim (lookup j d) [ none ↦ false | some _ ↦ true ]

known-bump : (id j : String) (side : Side) (d : Counts) → known j (bump id side d) ≡ known j d
unfolding bump lookup
known-bump id j side [] = refl
known-bump id j side ((i, c) ∷ d) = ground (arith, known-bump id j side d)

counts_of-bump :
    (id j : String) (side : Side) (d : Counts)
    → known j d ≡ true
    → counts_of j (bump id side d) ≡ bumped id side j (counts_of j d)
unfolding bump lookup
counts_of-bump id j side [] h = cc
counts_of-bump id j side ((i, c) ∷ d) h =
    ground (arith, eq_iff i id, eq_iff i j, eq_iff id j, counts_of-bump id j side d)

module _ {F : Type 0} ⦃f : Float F⦄ where
  -- A living unit of that side in the zone of that id, in the lane or, as a mage, on its hotspot.
  unfoldable pub in_lane_of : MapConfig F → String → Side → BattleUnit F → Bool
  in_lane_of config id side u =
      is_alive u
      && side_eq u.side side
      && elim (zone_containing config u.position) [ none ↦ false | some zone ↦ str_eq zone.id id ]

  unfoldable pub holds_ground : MapConfig F → String → Side → BattleUnit F → Bool
  holds_ground config id side u =
      is_alive u
      && side_eq u.side side
      && is_mage u.kind
      && elim (zone_containing config u.position) [
        | none ↦ false
        | some zone ↦ str_eq zone.id id && hotspot_contains config zone u.position
      ]

  unfoldable pub tally : (BattleUnit F → Bool) → List (BattleUnit F) → ℕ
  tally p [] = 0
  tally p (u ∷ us) = let rest = tally p us in if p u then rest + 1 else rest

  abbrev pub expected_counts : (Side → BattleUnit F → Bool) → List (BattleUnit F) → BySide ℕ
  expected_counts p us = both λ side. tally (p side) us

  -- The one side of which some unit passes the test, and none of the other's does.
  unfoldable pub sole : (Side → BattleUnit F → Bool) → List (BattleUnit F) → Option Side
  sole p us =
      if any (p north) us && not (any (p south) us)
      then some north
      else if any (p south) us && not (any (p north) us)
      then some south
      else none

  tally-any : (p : BattleUnit F → Bool) (us : List (BattleUnit F)) → ltb 0 (tally p us) ≡ any p us
  unfolding tally
  tally-any p [] = refl
  tally-any p (u ∷ us) = ground (arith, tally-any p us)

  holder_of-expected :
      (p : Side → BattleUnit F → Bool) (us : List (BattleUnit F))
      → holder_of (expected_counts p us) ≡ sole p us
  unfolding holder_of sole
  holder_of-expected p us = ground (arith, tally-any (p north) us, tally-any (p south) us)

  count_unit-hotspot :
      (config : MapConfig F) (u : BattleUnit F) (c : Counts × Counts) (id : String) (side : Side)
      → known id c.0 ≡ true
      → at side (counts_of id (count_unit config u c).0)
        ≡ at side (counts_of id c.0) + (if holds_ground config id side u then 1 else 0)
  unfolding count_unit holds_ground
  count_unit-hotspot config u (hot, lane) id side h =
      elim (Option-cases (zone_containing config u.position)) [
        | inl e ↦ ground arith
        | inr (zone, e) ↦ ground (
          arith,
          counts_of-bump zone.id id u.side hot h,
          at-put u.side side (at u.side (counts_of id hot) + 1) (counts_of id hot),
        )
      ]

  count_unit-lane :
      (config : MapConfig F) (u : BattleUnit F) (c : Counts × Counts) (id : String) (side : Side)
      → known id c.1 ≡ true
      → at side (counts_of id (count_unit config u c).1)
        ≡ at side (counts_of id c.1) + (if in_lane_of config id side u then 1 else 0)
  unfolding count_unit in_lane_of
  count_unit-lane config u (hot, lane) id side h =
      elim (Option-cases (zone_containing config u.position)) [
        | inl e ↦ ground arith
        | inr (zone, e) ↦ ground (
          arith,
          counts_of-bump zone.id id u.side lane h,
          at-put u.side side (at u.side (counts_of id lane) + 1) (counts_of id lane),
        )
      ]

  count_unit-known :
      (config : MapConfig F) (u : BattleUnit F) (c : Counts × Counts) (id : String)
      → (known id (count_unit config u c).0 ≡ known id c.0)
        × (known id (count_unit config u c).1 ≡ known id c.1)
  unfolding count_unit
  count_unit-known config u (hot, lane) id =
      elim (Option-cases (zone_containing config u.position)) [
        | inl e ↦ ground arith
        | inr (zone, e) ↦
            ground (arith, known-bump zone.id id u.side hot, known-bump zone.id id u.side lane)
      ]

  count_units-tally :
      (config : MapConfig F) (us : List (BattleUnit F)) (c : Counts × Counts) (id : String)
      (side : Side)
      → known id c.0 ≡ true
      → known id c.1 ≡ true
      → (at side (counts_of id (count_units config us c).0)
          ≡ at side (counts_of id c.0) + tally (holds_ground config id side) us)
        × (at side (counts_of id (count_units config us c).1)
            ≡ at side (counts_of id c.1) + tally (in_lane_of config id side) us)
  unfolding count_units tally
  count_units-tally config [] c id side h k = (omega arith, omega arith)
  count_units-tally config (u ∷ us) c id side h k =
      let (kh, kl) = count_unit-known config u c id in
      let (a, b) = count_units-tally config us (count_unit config u c) id side (kh ∙ h) (kl ∙ k) in
      let hot = count_unit-hotspot config u c id side h in
      let lane = count_unit-lane config u c id side k in
      (ground (arith, a, hot), ground (arith, b, lane))

  known-cons :
      (x : ZoneConfig F) (rest zones : List (ZoneConfig F))
      → All (λ z. known z.id (empty_counts rest) ≡ true) zones
      → All (λ z. known z.id (empty_counts (x ∷ rest)) ≡ true) zones
  unfolding lookup
  known-cons x rest [] h = tt
  known-cons x rest (z ∷ zones) h = (ground (arith, h.0), known-cons x rest zones h.1)

  known-empty :
      (zones : List (ZoneConfig F)) → All (λ z. known z.id (empty_counts zones) ≡ true) zones
  unfolding lookup
  known-empty [] = tt
  known-empty (x ∷ zones) =
      (ground (arith, eq_refl x.id), known-cons x zones zones (known-empty zones))

  empty-nobody :
      (zones : List (ZoneConfig F)) (id : String) → counts_of id (empty_counts zones) ≡ nobody
  unfolding lookup
  empty-nobody [] id = refl
  empty-nobody (z ∷ zones) id = ground (arith, empty-nobody zones id)

  -- What a zone's entry says of the units, without counting by dicts.
  abbrev pub observed : World F → MapConfig F → ZoneConfig F → ZoneOccupancy F
  observed w config zone = record {
    zone = zone;
    counts = expected_counts (holds_ground config zone.id) w.units;
    lane_counts = expected_counts (in_lane_of config zone.id) w.units;
    holder = sole (holds_ground config zone.id) w.units;
  }

  occupancy_of-observed :
      (w : World F) (config : MapConfig F) (zones : List (ZoneConfig F)) (z : ZoneConfig F)
      → known z.id (empty_counts zones) ≡ true
      → occupancy_of (count_units config w.units (empty_counts zones, empty_counts zones)) z
        ≡ observed w config z
  occupancy_of-observed w config zones z h =
      let none_yet = empty-nobody zones z.id in
      let (hn, ln) =
        count_units-tally config w.units (empty_counts zones, empty_counts zones) z.id north h h in
      let (hs, ls) =
        count_units-tally config w.units (empty_counts zones, empty_counts zones) z.id south h h in
      ground
        (arith, none_yet, hn, ln, hs, ls, holder_of-expected (holds_ground config z.id) w.units)

  map-observed :
      (w : World F) (config : MapConfig F) (all zones : List (ZoneConfig F))
      → All (λ z. known z.id (empty_counts all) ≡ true) zones
      → map (occupancy_of (count_units config w.units (empty_counts all, empty_counts all))) zones
        ≡ map (observed w config) zones
  map-observed w config all [] h = refl
  map-observed w config all (z ∷ zones) h =
      cc (occupancy_of-observed w config all z h.0, map-observed w config all zones h.1)

  -- The occupancy that is counted unit by unit into dicts is, zone by zone, the declarative one:
  -- the counts are of the living units of each side that the look-up places in a zone of that id,
  -- on its hotspot only the mages that stand there, and the holder is the one side with a mage on
  -- the hotspot, if the other has none there.
  pub zone_occupancy-observed :
      (w : World F) (config : MapConfig F)
      → zone_occupancy w config ≡ map (observed w config) config.zones
  unfolding zone_occupancy
  zone_occupancy-observed w config =
      map-observed w config config.zones config.zones (known-empty config.zones)
