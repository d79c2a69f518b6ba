-- ===== src/Sim/BattleMap.antt =====
-- The map as data, api/app/sim/map.py: zones are lanes, and scoring sits on the hotspot in the
-- middle of each. A refused map keeps the kind of its fault and leaves out the text of its message.
pub mod Checked
pub mod Coherent
use go_forth.Prelude.{
  ℕ, Bool, true, false, Option, none, some, List, [], ◌∷◌, String, first, any, str_eq, not, ◌&&◌,
  ◌||◌, if◌then◌else◌,
}
use go_forth.Prelude.Float.{Float, ◌⊕◌, ◌⊖◌, ◌⊘◌, ◌≤?◌, ◌<?◌, nought, fmin}
use go_forth.Sim.Types.{Side, BySide, at, Vec2}

pub record Span (F : Type 0) : Type 0 where
  pub start : F
  pub stop : F

pub record ZoneConfig (F : Type 0) : Type 0 where
  pub id : String
  pub lane : Span F
  pub extent : Span F
  pub points_per_tick : F

pub record BaseConfig (F : Type 0) : Type 0 where
  pub position : Vec2 F
  pub max_hp : F
  pub footprint_radius : F

pub record DeploymentStrip (F : Type 0) : Type 0 where
  pub lane : Span F
  pub extent : Span F

pub record ChipReserve (F : Type 0) : Type 0 where
  pub width : F
  pub height : F

pub record MapConfig (F : Type 0) : Type 0 where
  pub id : String
  pub size_width : F
  pub size_height : F
  pub zones : List (ZoneConfig F)
  pub bases : BySide (BaseConfig F)
  pub deployment : BySide (DeploymentStrip F)
  pub chip_reserve : ChipReserve F
  pub hotspot_size : F

module _ {F : Type 0} ⦃f : Float F⦄ where
  -- _overlaps
  abbrev pub overlaps : Span F → Span F → Bool
  overlaps a b = a.start <? b.stop && b.start <? a.stop

  -- _rectangles_overlap
  abbrev pub rectangles_overlap : Span F → Span F → Span F → Span F → Bool
  rectangles_overlap lane_a extent_a lane_b extent_b =
      overlaps lane_a lane_b && overlaps extent_a extent_b

  -- _span_contains
  abbrev pub span_contains : Span F → F → Bool
  span_contains span value = span.start ≤? value && value <? span.stop

  abbrev pub zone_contains : ZoneConfig F → Vec2 F → Bool
  zone_contains zone p = span_contains zone.lane p.y && span_contains zone.extent p.x

  unfoldable pub zone_containing : MapConfig F → Vec2 F → Option (ZoneConfig F)
  zone_containing config p = first (λ zone. zone_contains zone p) config.zones

  -- `none` where the program raises.
  abbrev pub zone_by_id : MapConfig F → String → Option (ZoneConfig F)
  zone_by_id config zone_id = first (λ zone. str_eq zone.id zone_id) config.zones

  -- _span_centre
  abbrev span_centre : Span F → F
  span_centre span = (span.start ⊕ span.stop) ⊘ f.of_nat 2

  abbrev pub zone_centre : ZoneConfig F → Vec2 F
  zone_centre zone = record { x = span_centre zone.extent; y = span_centre zone.lane }

  abbrev around : F → F → Span F
  around centre reach = record { start = centre ⊖ reach; stop = centre ⊕ reach }

  -- hotspot_box: the square as (across, lane).
  abbrev pub hotspot_box : MapConfig F → ZoneConfig F → Span F × Span F
  hotspot_box config zone =
      let centre = zone_centre zone in
      let reach = config.hotspot_size ⊘ f.of_nat 2 in (around centre.x reach, around centre.y reach)

  unfoldable pub hotspot_contains : MapConfig F → ZoneConfig F → Vec2 F → Bool
  hotspot_contains config zone p =
      let (across, down) = hotspot_box config zone in
      span_contains across p.x && span_contains down p.y

  abbrev pub strip_centre : MapConfig F → Side → Vec2 F
  strip_centre config side =
      let strip = at side config.deployment in
      record { x = span_centre strip.extent; y = span_centre strip.lane }

  -- chip_box: the reserved corner of a zone, as (horizontal, lane) spans.
  abbrev pub chip_box : MapConfig F → ZoneConfig F → Span F × Span F
  chip_box config zone = (
    record { start = zone.extent.start; stop = zone.extent.start ⊕ config.chip_reserve.width },
    record { start = zone.lane.start; stop = zone.lane.start ⊕ config.chip_reserve.height },
  )

  unfoldable pub clear_of_chip : MapConfig F → ZoneConfig F → Vec2 F → Vec2 F
  clear_of_chip config zone p =
      let (across, down) = chip_box config zone in
      if not (span_contains across p.x && span_contains down p.y)
      then p
      else if (across.stop ⊖ p.x) ≤? (down.stop ⊖ p.y) && across.stop <? zone.extent.stop
      then record { x = across.stop; y = p.y }
      else if down.stop <? zone.lane.stop
      then record { x = p.x; y = down.stop }
      else record { x = fmin across.stop zone.extent.stop; y = p.y }

  abbrev from_to : ℕ → ℕ → Span F
  from_to a b = record { start = f.of_nat a; stop = f.of_nat b }

  abbrev base_at : ℕ → BaseConfig F
  base_at y = record {
    position = record { x = f.of_nat 375 ⊘ f.of_nat 2; y = f.of_nat y };
    max_hp = f.of_nat 1000;
    footprint_radius = f.of_nat 24;
  }

  -- TWO_LANE_MAP, with the defaults of ChipReserve and of the hotspot.
  abbrev pub two_lane_map : MapConfig F
  two_lane_map = record {
    id = "two-lane";
    size_width = f.of_nat 375;
    size_height = f.of_nat 569;
    zones =
        record {
          id = "W";
          lane = from_to 100 469;
          extent = from_to 0 160;
          points_per_tick = f.of_nat 1;
        }
        ∷ record {
          id = "E";
          lane = from_to 100 469;
          extent = from_to 215 375;
          points_per_tick = f.of_nat 1;
        }
        ∷ [];
    bases = record { at_north = base_at 20; at_south = base_at 549 };
    deployment = record {
      at_north = record { lane = from_to 40 100; extent = from_to 0 375 };
      at_south = record { lane = from_to 469 529; extent = from_to 0 375 };
    };
    chip_reserve = record { width = f.of_nat 115; height = f.of_nat 25 };
    hotspot_size = f.of_nat 60;
  }
