-- ===== src/Sim/Formation.antt =====
-- Where a unit is trying to stand: `station` of api/app/sim/formation.py and `objective_position` of
-- orders.py. They answer `none` where the program raises.
use go_forth.Prelude.{Option, none, some, if◌then◌else◌}
use go_forth.Prelude.Float.{Float, ◌⊕◌, ◌⊖◌, ◌⊘◌, ◌<?◌, nought, fmin, fmax}
use go_forth.Sim.BattleMap.{Span, MapConfig, zone_by_id, zone_centre, strip_centre, clear_of_chip}
use go_forth.Sim.Types.{Side, opposing, at, Vec2}
use go_forth.Sim.World.{Order, hold_zone, defend_base, push_enemy_base}

module _ {F : Type 0} ⦃f : Float F⦄ where
  -- FORMATION_SPACING
  abbrev pub formation_spacing : F
  formation_spacing = f.of_nat 24

  -- objective_position, with what `validate_order` refuses.
  unfoldable pub objective_position : Order → Side → MapConfig F → Option (Vec2 F)
  objective_position o side config = elim o.kind [
    | hold_zone ↦ elim o.zone_id [
      | none ↦ none
      | some zone_id ↦ elim (zone_by_id config zone_id) [
        | none ↦ none
        | some zone ↦ some (zone_centre zone)
      ]
    ]
    | defend_base ↦ elim o.zone_id [ none ↦ some (strip_centre config side) | some _ ↦ none ]
    | push_enemy_base ↦ elim o.zone_id [
      | none ↦ some (at (opposing side) config.bases).position
      | some _ ↦ none
    ]
  ]

  -- _clamp_into
  unfoldable pub clamp_into : F → Span F → F → F
  clamp_into value span inset =
      let low = span.start ⊕ inset in
      let high = span.stop ⊖ inset in
      if high <? low then (span.start ⊕ span.stop) ⊘ f.of_nat 2 else fmin high (fmax low value)

  abbrev into : Span F → Span F → F → Vec2 F → Vec2 F
  into across down inset p = record {
    x = clamp_into p.x across inset;
    y = clamp_into p.y down inset;
  }

  abbrev from_nought : F → Span F
  from_nought stop = record { start = nought; stop = stop }

  -- The region of the order that a station is clamped into.
  unfoldable pub clamped : Order → Side → MapConfig F → Vec2 F → Option (Vec2 F)
  clamped o side config spot =
      let inset = formation_spacing ⊘ f.of_nat 2 in
      let strip = at side config.deployment in
      elim o.kind [
        | hold_zone ↦ elim o.zone_id [
          | none ↦ none
          | some zone_id ↦ elim (zone_by_id config zone_id) [
            | none ↦ none
            | some zone ↦ some (clear_of_chip config zone (into zone.extent zone.lane inset spot))
          ]
        ]
        | defend_base ↦ some (into strip.extent strip.lane nought spot)
        | push_enemy_base ↦
            some (into (from_nought config.size_width) (from_nought config.size_height) inset spot)
      ]

  unfoldable pub station : Order → Side → Vec2 F → MapConfig F → Option (Vec2 F)
  station o side offset config = elim (objective_position o side config) [
    | none ↦ none
    | some p ↦ clamped o side config (record { x = p.x ⊕ offset.x; y = p.y ⊕ offset.y })
  ]
