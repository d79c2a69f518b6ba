-- ===== src/Sim/FieldTests.antt =====
-- The phases of a tick on the small battle of the samples (api/app/sim/phases).
use go_forth.Prelude.{
  arith, ◌≡◌, refl, ◌+◌, ◌-◌, ◌≤◌, false, any, ◌&&◌, none, some, [], ◌∷◌, map, All, length,
}
use go_forth.Prelude.Float.{int_float, int-IsFloat}
use go_forth.Prelude.Int.{ℤ, pos}
use go_forth.Prelude.Dict.{lookup}
use go_forth.Sim.BattleMap.{two_lane_map, zone_containing, ZoneConfig}
use go_forth.Sim.BattleMap.Checked.{
  validate_map_config, sound, check_zones, check_zone, check_sides, check_side,
}
use go_forth.Sim.BattleMap.Coherent.{zone_containing_unique}
use go_forth.Sim.Field.{Field}
use go_forth.Sim.FieldSamples.{spot, soldier, squad, context, skirmish, on_ground}
use go_forth.Sim.Types.{north, south}
use go_forth.Sim.Field.{TickContext, for_each}
use go_forth.Sim.Formation.{station, objective_position, clamped, clamp_into}
use go_forth.Sim.Phases.Abilities.{abilities, use_ability}
use go_forth.Sim.Phases.Combat.{combat, fight, act, swing_at_the_base}
use go_forth.Sim.Phases.Energy.{charge}
use go_forth.Sim.Phases.Movement.{movement, walk, pace_of}
use go_forth.Sim.Phases.Orders.{orders, posted_all, posted}
use go_forth.Sim.Phases.Resummon.{resummon, rebuild_all}
use go_forth.Sim.Phases.Scoring.{score_zones}
use go_forth.Sim.Phases.Spells.{spells, land_all}
use go_forth.Sim.Phases.Statuses.{statuses, burn_the_ground, scorch_all, burn_the_burning, smoulder}
use go_forth.Sim.Spells.{take_due}
use go_forth.Sim.Targeting.{nearest}
use go_forth.Sim.World.{defend_base}
use go_forth.Sim.Zones.{count_units, count_unit}
use go_forth.Prelude.Keeps.{some-Holds}
use go_forth.Sim.Field.{to_ticks}
use go_forth.Sim.Phases.Energy.{energy}
use go_forth.Sim.Phases.Energy.Capped.{is_over, energy-capped}
use go_forth.Sim.Phases.Removal.{removal, sweep}
use go_forth.Sim.Phases.Removal.Orphans.{is_orphaned, removal-orphans}
use go_forth.Sim.Phases.Removal.Swept.{IsSwept, removal-IsSwept}
use go_forth.Sim.Phases.Resummon.{
  rebuild, living, mage_turns, mage_turn, resummon_pace_ticks, refill,
}
use go_forth.Sim.Phases.Resummon.Capacity.{rebuild-capacity}
use go_forth.Sim.Phases.Scoring.{scoring}
use go_forth.Sim.Phases.Scoring.Paid.{scoring-IsScored}
use go_forth.Sim.Phases.Scoring.Turn.{IsScored}
use go_forth.Sim.Phases.Statuses.Embers.{passes, passes-burn_out}
use go_forth.Sim.Targeting.{acquire_target, declines_target, intended_target}
use go_forth.Sim.Targeting.Nearest.{IsNearest, acquire_target-IsNearest}
use go_forth.Sim.Tick.{Phase, run_tick, run_phases}
use go_forth.Sim.Tick.Safe.{IsKeeping, run_tick-IsVital}
use go_forth.Sim.Tick.Vitals.{IsVital}
use go_forth.Sim.World.{
  World, BattleUnit, mage, summon, is_alive, Troop, hold_zone, support_capacity_of,
}
use go_forth.Sim.Zones.{zone_occupancy}
use go_forth.Sim.Zones.Holders.{observed, zone_occupancy-observed}

two_lane-sound : validate_map_config (two_lane_map {F = ℤ}) ≡ sound
unfolding validate_map_config check_zones check_zone check_sides check_side
two_lane-sound = refl

abbrev west : ZoneConfig ℤ
west = record {
  id = "W";
  lane = record { start = pos 100; stop = pos 469 };
  extent = record { start = pos 0; stop = pos 160 };
  points_per_tick = pos 1;
}

abbrev east : ZoneConfig ℤ
east = record west { id = "E"; extent = record { start = pos 215; stop = pos 375 } }

zone_containing_unique_example : zone_containing (two_lane_map {F = ℤ}) (spot 300 200) ≡ some east
zone_containing_unique_example =
    zone_containing_unique int-IsFloat two_lane_map (west ∷ []) east [] (spot 300 200)
      two_lane-sound refl refl

zone_occupancy-observed_example :
    zone_occupancy (skirmish 30 30) two_lane_map
    ≡ map (observed (skirmish 30 30) two_lane_map) (west ∷ east ∷ [])
zone_occupancy-observed_example = zone_occupancy-observed (skirmish 30 30) two_lane_map

-- The mage of the north has just fallen: its troop dissolves.
abbrev bereft : Field ℤ
bereft = on_ground (skirmish 0 30)

removal-IsSwept_example :
    (t : Field ℤ) × (removal context bereft ≡ some t) × IsSwept ("n-u0" ∷ []) t
unfolding is_alive
removal-IsSwept_example = removal-IsSwept context bereft

removal-orphans_example :
    (t : Field ℤ) × (removal context bereft ≡ some t)
    × All (λ v. is_orphaned ("n" ∷ []) t v ≡ false) (sweep (skirmish 0 30)).troops
unfolding is_alive
removal-orphans_example = removal-orphans context bereft refl

energy-capped_example :
    (t : Field ℤ) × (energy context (on_ground (skirmish 30 30)) ≡ some t)
    × (any (λ u. is_alive u && is_over context u) t.world.units ≡ false)
energy-capped_example = energy-capped int-IsFloat context (on_ground (skirmish 30 30))

abbrev foe : BattleUnit ℤ
foe = soldier "s-u0" "s" summon south 30 (spot 80 286)

acquire_target-IsNearest_example :
    IsNearest foe
      (pos 500)
      (skirmish 30 30).units
      (acquire_target (skirmish 30 30) foe (some (pos 500)))
unfolding declines_target intended_target
acquire_target-IsNearest_example =
    acquire_target-IsNearest int-IsFloat (skirmish 30 30) foe (pos 500) refl refl

-- A troop of one living mage, no summon and a slot to refill.
abbrev short_handed : Troop ℤ
short_handed =
    record (squad "n" north (record { kind = hold_zone; zone_id = some "W" }) ("n-u0" ∷ []) []) {
      dispelled_slots = record { type_id = "cinder-hound"; formation_offset = spot 0 0 } ∷ [];
    }

abbrev understrength : Field ℤ
understrength = on_ground (record (skirmish 30 30) { troops = short_handed ∷ [] })

abbrev reinforced : Field ℤ
reinforced = elim (rebuild context short_handed understrength) [ none ↦ understrength | some t ↦ t ]

rebuild-capacity_example : length reinforced.world.units ≤ 3 + (3 - 0)
unfolding rebuild living support_capacity_of mage_turns mage_turn resummon_pace_ticks to_ticks
    refill is_alive
rebuild-capacity_example = rebuild-capacity context short_handed understrength reinforced refl

scoring-IsScored_example :
    (t : Field ℤ) × (scoring context (on_ground (skirmish 30 30)) ≡ some t)
    × IsScored (zone_occupancy (skirmish 30 30) two_lane_map) (on_ground (skirmish 30 30)) t
unfolding zone_occupancy lookup
scoring-IsScored_example =
    scoring-IsScored context (on_ground (skirmish 30 30)) ((refl, tt), (tt, tt)) (refl, (refl, tt))

-- Burning ground with two ticks left under everybody.
abbrev ablaze : Field ℤ
ablaze = on_ground (record (skirmish 30 30) {
  hazards =
      record {
        id = "hz0";
        kind = "burningGround";
        side = south;
        center = spot 80 284;
        radius = pos 40;
        damage_per_tick = pos 4;
        ticks_remaining = 2;
        bonus_vs_mage = pos 2;
        source = none;
      }
      ∷ [];
})

passes-burn_out_example :
    (t : Field ℤ) × (passes context 2 ablaze ≡ some t) × (t.world.hazards ≡ [])
passes-burn_out_example = passes-burn_out context 1 ablaze (omega arith, tt)

abbrev nobody_decides : Phase ℤ
nobody_decides ctx s = some s

-- One mage of the north, alone before its base.
abbrev lonely : World ℤ
lonely = record (skirmish 30 30) {
  units = record (soldier "n-u0" "n" mage north 30 (spot 80 50)) { ability_id = none } ∷ [];
  troops = squad "n" north (record { kind = defend_base; zone_id = none }) ("n-u0" ∷ []) [] ∷ [];
  zone_holders = [];
}

abbrev open_field : TickContext ℤ
open_field = record context { map_config = record two_lane_map { zones = [] } }

nobody_decides-IsKeeping : IsKeeping 8 open_field nobody_decides
unfolding IsKeeping
nobody_decides-IsKeeping s h = some-Holds (IsVital 8) h

abbrev after_a_tick : Field ℤ
after_a_tick = elim (run_tick nobody_decides open_field (record { state = 5 }) lonely) [
  | none ↦ on_ground lonely
  | some t ↦ t
]

run_tick-IsVital_example : IsVital 8 after_a_tick
unfolding run_tick run_phases orders posted_all posted station objective_position clamped clamp_into
    movement walk pace_of acquire_target declines_target intended_target nearest energy charge
    spells land_all take_due abilities use_ability combat fight act swing_at_the_base statuses
    burn_the_ground scorch_all burn_the_burning smoulder scoring score_zones zone_occupancy
    count_units count_unit resummon rebuild_all rebuild living mage_turns mage_turn
    resummon_pace_ticks to_ticks support_capacity_of removal is_alive for_each
run_tick-IsVital_example =
    run_tick-IsVital int-IsFloat nobody_decides open_field (record { state = 5 }) lonely
      after_a_tick nobody_decides-IsKeeping (refl, tt)
      (record { units = (refl, tt); north_base = refl; south_base = refl; clock = refl }) refl
