-- ===== src/Sim/BattleMap/Checked.antt =====
-- `validate_map_config` of api/app/sim/map.py, called once at battle start.
use go_forth.Prelude.{Bool, true, false, List, [], ◌∷◌, ◌++◌, any, str_eq, ◌||◌, if◌then◌else◌}
use go_forth.Prelude.Float.{Float, ◌⊖◌, ◌≤?◌, ◌<?◌, nought}
use go_forth.Sim.BattleMap.{Span, ZoneConfig, MapConfig, rectangles_overlap}
use go_forth.Sim.Types.{Side, sides, at}

pub data MapFault : Type 0 where
  bad_size no_zones bad_chip bad_hotspot same_zone_id bad_span outside : MapFault
  worthless_zone narrow_zone shallow_zone zones_overlap strip_overlaps_zone : MapFault
  base_without_hp bad_footprint base_outside : MapFault

-- What a validator returns: nothing, or the fault that it raises.
pub data Verdict : Type 0 where
  sound : Verdict
  unsound : MapFault → Verdict

infixr 3 ◌then◌
abbrev pub ◌then◌ : Verdict → Verdict → Verdict
sound then v = v
unsound e then v = unsound e

-- `if fault: raise`
abbrev pub refuse_if : Bool → MapFault → Verdict
refuse_if true e = unsound e
refuse_if false e = sound

module _ {F : Type 0} ⦃f : Float F⦄ where
  -- _assert_span_within
  abbrev pub span_within : Span F → F → Verdict
  span_within span limit =
      refuse_if (span.stop ≤? span.start) bad_span
      then refuse_if (span.start <? nought || limit <? span.stop) outside

  abbrev pub zones_meet : ZoneConfig F → ZoneConfig F → Bool
  zones_meet a b = rectangles_overlap a.lane a.extent b.lane b.extent

  abbrev pub same_id : ZoneConfig F → ZoneConfig F → Bool
  same_id a b = str_eq a.id b.id

  -- One zone, against the zones before it.
  unfoldable pub check_zone : MapConfig F → List (ZoneConfig F) → ZoneConfig F → Verdict
  check_zone config seen zone =
      refuse_if (any (λ other. same_id other zone) seen) same_zone_id
      then span_within zone.lane config.size_height
      then span_within zone.extent config.size_width
      then refuse_if (zone.points_per_tick ≤? nought) worthless_zone
      then refuse_if ((zone.extent.stop ⊖ zone.extent.start) <? config.hotspot_size) narrow_zone
      then refuse_if ((zone.lane.stop ⊖ zone.lane.start) <? config.hotspot_size) shallow_zone
      then refuse_if (any (λ other. zones_meet zone other) seen) zones_overlap

  unfoldable pub check_zones : MapConfig F → List (ZoneConfig F) → List (ZoneConfig F) → Verdict
  check_zones config seen [] = sound
  check_zones config seen (zone ∷ rest) =
      check_zone config seen zone then check_zones config (seen ++ zone ∷ []) rest

  unfoldable pub check_side : MapConfig F → Side → Verdict
  check_side config side =
      let strip = at side config.deployment in
      let base = at side config.bases in
      span_within strip.lane config.size_height
      then span_within strip.extent config.size_width
      then refuse_if
          (any (λ zone. rectangles_overlap strip.lane strip.extent zone.lane zone.extent)
            config.zones)
          strip_overlaps_zone
      then refuse_if (base.max_hp ≤? nought) base_without_hp
      then refuse_if (base.footprint_radius <? nought) bad_footprint
      then refuse_if (base.position.y <? nought || config.size_height <? base.position.y)
          base_outside

  unfoldable pub check_sides : MapConfig F → List Side → Verdict
  check_sides config [] = sound
  check_sides config (side ∷ rest) = check_side config side then check_sides config rest

  abbrev pub has_no_zones : List (ZoneConfig F) → Bool
  has_no_zones [] = true
  has_no_zones (_ ∷ _) = false

  unfoldable pub validate_map_config : MapConfig F → Verdict
  validate_map_config config =
      refuse_if (config.size_width ≤? nought || config.size_height ≤? nought) bad_size
      then refuse_if (has_no_zones config.zones) no_zones
      then refuse_if (config.chip_reserve.width <? nought || config.chip_reserve.height <? nought)
          bad_chip
      then refuse_if (config.hotspot_size ≤? nought) bad_hotspot
      then check_zones config [] config.zones
      then check_sides config sides
