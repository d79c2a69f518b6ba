-- ===== src/Sim/Phases/Movement.antt =====
-- Movement, api/app/sim/phases/movement.py, with the barricades of blocking.py and the speeds of an
-- intent (ai/intent.py). `none` is the infinite slack of a unit that nothing holds back.
use go_forth.Prelude.{
  Option, none, some, List, [], ◌∷◌, String, not, str_eq, ◌&&◌, ◌||◌, select, if◌then◌else◌,
}
use go_forth.Prelude.Float.{Float, ◌⊖◌, ◌⊗◌, ◌⊘◌, ◌≤?◌, ◌<?◌, ◌≟◌, nought, fmin, fmax}
use go_forth.Sim.Field.{Field, TickContext, find_unit, update_unit, for_each}
use go_forth.Sim.Geometry.{distance, move_toward}
use go_forth.Sim.Targeting.{acquire_target}
use go_forth.Sim.Types.{side_eq, opposing, at, Vec2}
use go_forth.Sim.World.{
  World, BattleUnit, ActionKind, attack, cast, advance, hold, withdraw, retreat, is_alive,
}

module _ {F : Type 0} ⦃f : Float F⦄ where
  -- blockers_against
  abbrev pub blockers_against : World F → BattleUnit F → List (BattleUnit F)
  blockers_against w u =
      select
        (λ o.
          o.blocks_movement && not (side_eq o.side u.side) && is_alive o && not (str_eq o.id u.id))
        w.units

  -- The loop of clamp_to_blockers: how far the step may go.
  unfoldable pub allowed_by : BattleUnit F → Vec2 F → List (BattleUnit F) → F → F
  allowed_by u destination [] allowed = allowed
  allowed_by u destination (b ∷ bs) allowed =
      let start_gap = distance u.position b.position in
      allowed_by u destination bs (
        if b.block_radius ≤? distance destination b.position || start_gap <? b.block_radius
        then allowed
        else fmin allowed (start_gap ⊖ b.block_radius))

  unfoldable pub clamp_to_blockers : World F → BattleUnit F → Vec2 F → Vec2 F
  clamp_to_blockers w u destination =
      let step = distance u.position destination in
      let allowed = allowed_by u destination (blockers_against w u) step in
      if step ≟ nought || step ≤? allowed
      then destination
      else move_toward u.position destination allowed

  -- ENGAGEMENT_STANDOFF, 0.9
  abbrev pub engagement_standoff : BattleUnit F → F
  engagement_standoff u = u.range ⊗ (f.of_nat 9 ⊘ f.of_nat 10)

  abbrev pub least : Option F → F → Option F
  least none x = some x
  least (some s) x = some (fmin s x)

  unfoldable pub slack_of : BattleUnit F → List (BattleUnit F) → Option F → Option F
  slack_of u [] slack = slack
  slack_of u (o ∷ os) slack =
      let gap = distance u.position o.position in
      slack_of u os (
        if side_eq o.side u.side || not (is_alive o) || gap ≤? engagement_standoff u
        then slack
        else least slack (gap ⊖ engagement_standoff u))

  unfoldable pub standoff_slack : World F → BattleUnit F → TickContext F → Option F
  standoff_slack w u ctx =
      let enemy_base = at (opposing u.side) ctx.map_config.bases in
      let base_gap = distance u.position enemy_base.position in
      let slack = slack_of u w.units none in
      elim (if enemy_base.footprint_radius <? base_gap
        then least slack (base_gap ⊖ enemy_base.footprint_radius)
        else slack) [ none ↦ none | some x ↦ some (fmax nought x) ]

  -- `kind in MOVING_ACTIONS`, and movement_scale of those that move.
  abbrev pub movement_scale : ActionKind → Option F
  movement_scale advance = some (f.of_nat 1)
  movement_scale withdraw = some (f.of_nat 1 ⊘ f.of_nat 2)
  movement_scale retreat = some (f.of_nat 1)
  movement_scale attack = none
  movement_scale cast = none
  movement_scale hold = none

  -- The scale of the step, or none for a unit that stands.
  unfoldable pub pace_of : World F → BattleUnit F → Option F
  pace_of w u = elim u.intent [
    | some intent ↦ movement_scale intent.kind
    | none ↦ elim (acquire_target w u none) [ some _ ↦ none | none ↦ some (f.of_nat 1) ]
  ]

  abbrev pub step_length : F → Option F → F
  step_length reach none = reach
  step_length reach (some slack) = fmin reach slack

  -- One unit's turn.
  unfoldable pub walk : TickContext F → String → Field F → Field F
  walk ctx id s = elim (find_unit s.world id) [
    | none ↦ s
    | some u ↦ elim (pace_of s.world u) [
      | none ↦ s
      | some scale ↦
          let step =
            step_length (u.speed ⊗ ctx.seconds_per_tick ⊗ scale) (standoff_slack s.world u ctx) in
          let place = clamp_to_blockers s.world u (move_toward u.position u.destination step) in
          if not (is_alive u) || u.speed ≟ nought || step ≤? nought
          then s
          else update_unit id (λ v. record v { position = place }) s
    ]
  ]

  -- MovementPhase.run
  unfoldable pub movement : TickContext F → Field F → Option (Field F)
  movement ctx s = some (for_each (walk ctx) s.world.units s)
