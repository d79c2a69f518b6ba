-- ===== src/Sim/Phases/Scoring.antt =====
-- Zone control, api/app/sim/phases/scoring.py: the holder is paid, and a change of holder is told.
pub mod Turn
pub mod Paid
use go_forth.Prelude.{Bool, true, false, Option, none, some, List, [], ◌∷◌, String, if◌then◌else◌}
use go_forth.Prelude.Dict.{lookup, insert}
use go_forth.Prelude.Float.{Float, ◌⊕◌}
use go_forth.Sim.BattleMap.{zone_centre}
use go_forth.Sim.Events.{zone_flip, is_holder}
use go_forth.Sim.Field.{Field, TickContext, emit}
use go_forth.Sim.Types.{Side, at, put}
use go_forth.Sim.World.{World}
use go_forth.Sim.Zones.{ZoneOccupancy, zone_occupancy}

abbrev pub same_holder : Option Side → Option Side → Bool
same_holder none none = true
same_holder none (some _) = false
same_holder (some s) o = is_holder o s

module _ {F : Type 0} ⦃f : Float F⦄ where
  abbrev pub pay : Option Side → F → World F → World F
  pay none points w = w
  pay (some side) points w = record w {
    zone_score = put side (at side w.zone_score ⊕ points) w.zone_score;
  }

  -- One zone's turn. A zone without an entry in `zone_holders` is a KeyError.
  unfoldable pub score_zone : ZoneOccupancy F → Field F → Option (Field F)
  score_zone o s = elim (lookup o.zone.id s.world.zone_holders) [
    | none ↦ none
    | some previous ↦
        let paid = pay o.holder o.zone.points_per_tick s.world in
        some (
          if same_holder o.holder previous
          then record s { world = paid }
          else emit
              (zone_flip paid.tick (zone_centre o.zone) o.zone.id o.holder previous
                o.zone.points_per_tick)
              (record s {
                world = record paid { zone_holders = insert o.zone.id o.holder paid.zone_holders };
              }))
  ]

  unfoldable pub score_zones : List (ZoneOccupancy F) → Field F → Option (Field F)
  score_zones [] s = some s
  score_zones (o ∷ os) s = elim (score_zone o s) [ none ↦ none | some t ↦ score_zones os t ]

  -- ScoringPhase.run
  unfoldable pub scoring : TickContext F → Field F → Option (Field F)
  scoring ctx s = score_zones (zone_occupancy s.world ctx.map_config) s
