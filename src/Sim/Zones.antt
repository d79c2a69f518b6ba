-- ===== src/Sim/Zones.antt =====
-- Who is holding which lane, api/app/sim/zones.py: exactly one side with a living mage on the
-- hotspot. The counts are dicts on the zones' ids; a `+=` on a key that a dict lacks changes
-- nothing here, and no zone of the map lacks one.
pub mod Holders
use go_forth.Prelude.{
  ℕ, ◌+◌, Bool, true, false, Option, none, some, List, [], ◌∷◌, String, ltb, map, str_eq, ◌&&◌,
  if◌then◌else◌,
}
use go_forth.Prelude.Dict.{Dict, lookup}
use go_forth.Prelude.Float.{Float}
use go_forth.Sim.BattleMap.{MapConfig, ZoneConfig, zone_containing, hotspot_contains}
use go_forth.Sim.Types.{Side, north, south, BySide, at, put, both, sides}
use go_forth.Sim.World.{World, BattleUnit, is_alive, is_mage}

pub record ZoneOccupancy (F : Type 0) : Type 0 where
  pub zone : ZoneConfig F
  pub counts : BySide ℕ
  pub lane_counts : BySide ℕ
  pub holder : Option Side

abbrev pub Counts : Type 0
Counts = Dict (BySide ℕ)

abbrev pub nobody : BySide ℕ
nobody = record { at_north = 0; at_south = 0 }

-- `counts[zone_id][side] += 1`
unfoldable pub bump : String → Side → Counts → Counts
bump id side [] = []
bump id side ((j, c) ∷ d) =
    let rest = bump id side d in
    if str_eq j id then (j, put side (at side c + 1) c) ∷ d else (j, c) ∷ rest

abbrev pub counts_of : String → Counts → BySide ℕ
counts_of id d = elim (lookup id d) [ none ↦ nobody | some c ↦ c ]

sides_inside : BySide ℕ → List Side → List Side
sides_inside counts [] = []
sides_inside counts (side ∷ rest) =
    let others = sides_inside counts rest in
    if ltb 0 (at side counts) then side ∷ others else others

only_one : List Side → Option Side
only_one [] = none
only_one (side ∷ []) = some side
only_one (side ∷ _ ∷ _) = none

-- _holder
unfoldable pub holder_of : BySide ℕ → Option Side
unfolding sides_inside only_one
holder_of counts = only_one (sides_inside counts sides)

module _ {F : Type 0} ⦃f : Float F⦄ where
  abbrev pub empty_counts : List (ZoneConfig F) → Counts
  empty_counts zones = map (λ zone. (zone.id, nobody)) zones

  -- One unit's turn in the loop: the hotspot counts and the lane counts.
  unfoldable pub count_unit : MapConfig F → BattleUnit F → Counts × Counts → Counts × Counts
  count_unit config u (on_hotspot, in_lane) =
      if is_alive u
      then elim (zone_containing config u.position) [
        | none ↦ (on_hotspot, in_lane)
        | some zone ↦ (
          if is_mage u.kind && hotspot_contains config zone u.position
              then bump zone.id u.side on_hotspot
              else on_hotspot,
          bump zone.id u.side in_lane,
        )
      ]
      else (on_hotspot, in_lane)

  unfoldable pub count_units : MapConfig F → List (BattleUnit F) → Counts × Counts → Counts × Counts
  count_units config [] c = c
  count_units config (u ∷ us) c = count_units config us (count_unit config u c)

  abbrev pub occupancy_of : Counts × Counts → ZoneConfig F → ZoneOccupancy F
  occupancy_of (on_hotspot, in_lane) zone = record {
    zone = zone;
    counts = counts_of zone.id on_hotspot;
    lane_counts = counts_of zone.id in_lane;
    holder = holder_of (counts_of zone.id on_hotspot);
  }

  unfoldable pub zone_occupancy : World F → MapConfig F → List (ZoneOccupancy F)
  zone_occupancy w config =
      let opening = empty_counts config.zones in
      map (occupancy_of (count_units config w.units (opening, opening))) config.zones
