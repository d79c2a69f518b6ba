-- ===== src/Sim/Targeting.antt =====
-- Target acquisition, api/app/sim/phases/targeting.py: the target a unit committed to if it still
-- holds, else the nearest enemy within reach, a tie going to the smaller id.
pub mod Nearest
use go_forth.Prelude.{
  Bool, true, false, Option, none, some, List, [], ◌∷◌, String, str_eq, not, ◌&&◌, ◌||◌,
  if◌then◌else◌,
}
use go_forth.Prelude.Float.{Float, ◌≤?◌, ◌<?◌, ◌≟◌}
use go_forth.Prelude.Text.{str_lt}
use go_forth.Sim.Field.{find_unit}
use go_forth.Sim.Geometry.{distance}
use go_forth.Sim.Types.{side_eq}
use go_forth.Sim.World.{
  World, BattleUnit, Intent, ActionKind, attack, cast, advance, hold, withdraw, retreat, is_alive,
}

-- `kind in ATTACK_SUPPRESSING_ACTIONS`
abbrev pub suppresses_attack : ActionKind → Bool
suppresses_attack retreat = true
suppresses_attack _ = false

abbrev is_attack : ActionKind → Bool
is_attack attack = true
is_attack _ = false

module _ {F : Type 0} where
  unfoldable pub declines_target : BattleUnit F → Bool
  declines_target u = elim u.intent [ none ↦ false | some intent ↦ suppresses_attack intent.kind ]

  module _ ⦃f : Float F⦄ where
    -- A living enemy of the unit.
    abbrev pub is_foe : BattleUnit F → BattleUnit F → Bool
    is_foe u c = not (side_eq c.side u.side) && is_alive c

    abbrev pub gap_to : BattleUnit F → BattleUnit F → F
    gap_to u c = distance u.position c.position

    -- _intended_target
    unfoldable pub intended_target : World F → BattleUnit F → F → Option (BattleUnit F)
    intended_target w u limit = elim u.intent [
      | none ↦ none
      | some intent ↦ if not (is_attack intent.kind) then none else elim intent.target_id [
        | none ↦ none
        | some id ↦ elim (find_unit w id) [
          | none ↦ none
          | some c ↦ if is_foe u c && gap_to u c ≤? limit then some c else none
        ]
      ]
    ]

    -- Whether a candidate displaces the best so far.
    abbrev pub displaces : BattleUnit F → BattleUnit F → BattleUnit F → Bool
    displaces u best c =
        gap_to u c <? gap_to u best || gap_to u c ≟ gap_to u best && str_lt c.id best.id

    -- The loop over the candidates; the gap of no best is infinite.
    unfoldable pub nearest :
        BattleUnit F → F → List (BattleUnit F) → Option (BattleUnit F) → Option (BattleUnit F)
    nearest u limit [] best = best
    nearest u limit (c ∷ cs) best = nearest u limit cs (
        if is_foe u c && gap_to u c ≤? limit
        then elim best [ none ↦ some c | some b ↦ if displaces u b c then some c else some b ]
        else best)

    unfoldable pub acquire_target : World F → BattleUnit F → Option F → Option (BattleUnit F)
    acquire_target w u reach =
        let limit : F = elim reach [ none ↦ u.range | some r ↦ r ] in
        if declines_target u then none else elim (intended_target w u limit) [
          | some c ↦ some c
          | none ↦ nearest u limit w.units none
        ]
