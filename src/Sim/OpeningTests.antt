-- ===== src/Sim/OpeningTests.antt =====
-- The opening state of a battle and the random draws, at concrete data.
use go_forth.Prelude.{◌≡◌, refl, some}
use go_forth.Prelude.Float.{int_float}
use go_forth.Prelude.Int.{pos}
use go_forth.Sim.BattleMap.{two_lane_map}
use go_forth.Sim.BattleMap.Checked.{
  validate_map_config, check_zones, check_zone, check_sides, check_side,
}
use go_forth.Sim.Deployment.{
  columns_for, derive_formation, block, band_span, deployment_band, deployment_anchor,
  deployment_spot,
}
use go_forth.Sim.FieldSamples.{battle, whole_fits, opening, opening_world}
use go_forth.Sim.Formation.{station, objective_position, clamp_into, clamped}
use go_forth.Sim.Opening.{
  band_shares, one_army_per_side, copies, expand, supported, abilities_known, carried_base_hp,
}
use go_forth.Sim.Opening.Build.{
  place_members, place_troop, place_troops, place_armies, opening_base, opened, create_world,
}
use go_forth.Sim.Opening.Sound.{IsOpening, create_world-IsOpening}
use go_forth.Sim.Rng.{next_uint32, next_float, create_rng, scrambled}
use go_forth.Sim.Spells.{build_spell_catalog, schedule_injections}
use go_forth.Sim.UnitTypes.{is_coherent, add_unit_types}
use go_forth.Prelude.Dict.{lookup, insert}
use go_forth.Prelude.Decimal.{decimal}

-- The first draw of the golden vectors of seed 1.
draws1 : next_uint32 (create_rng (pos 1)) ≡ (2693262067, record { state = 1831565814 })
unfolding next_uint32 create_rng scrambled
draws1 = refl

created : opening ≡ some opening_world
unfolding validate_map_config check_zones check_zone check_sides check_side columns_for
    derive_formation block band_span deployment_band deployment_anchor deployment_spot station
    objective_position clamp_into clamped band_shares one_army_per_side copies expand supported
    abilities_known carried_base_hp place_members place_troop place_troops place_armies opening_base
    opened create_world next_uint32 next_float scrambled build_spell_catalog schedule_injections
    is_coherent add_unit_types lookup insert decimal
created = refl

create_world-IsOpening_example : IsOpening opening_world
create_world-IsOpening_example =
    create_world-IsOpening two_lane_map whole_fits battle (record { state = 7 }) opening_world
      created
