-- ===== src/Match/PlanTests.antt =====
-- The validation of plans at the demo's roster (api/app/match/plan.py, fixtures.py).
use go_forth.Prelude.{◌≡◌, refl, List, [], ◌∷◌, String, none}
use go_forth.Prelude.Dict.{lookup, insert}
use go_forth.Prelude.Float.{int_float}
use go_forth.Prelude.Int.{ℤ}
use go_forth.Match.Fixtures.{roster, suggested_plan}
use go_forth.Match.Plan.{
  SubmittedPlan, Roster, passed, refused, not_available, validate_plan, check_troops, check_troop,
  check_summons, check_slots, order_ok, fielded_mages, spell_is_eligible,
}
use go_forth.Match.Plan.Legal.{IsLegal}
use go_forth.Match.Plan.Validation.{validate_plan-IsLegal, IsLegal-validate_plan}
use go_forth.Sim.World.{push_enemy_base, defend_base}

abbrev demo : Roster ℤ
demo = roster

abbrev zones : List String
zones = "left-lane" ∷ "right-lane" ∷ []

abbrev plan : SubmittedPlan
plan = suggested_plan "left-lane" "right-lane"

-- Two troops draw on one pool: the second wall is one too many.
abbrev greedy : SubmittedPlan
greedy = record {
  troops =
      record {
        mage_id = "ember-adept";
        summon_ids = "slag-wall" ∷ [];
        order = record { kind = push_enemy_base; zone_id = none };
      }
      ∷ record {
        mage_id = "ember-adept";
        summon_ids = "slag-wall" ∷ [];
        order = record { kind = defend_base; zone_id = none };
      }
      ∷ [];
  spell_slots = [];
}

validate-plan : validate_plan demo zones plan ≡ passed tt
unfolding validate_plan check_troops check_troop check_summons check_slots order_ok fielded_mages
    spell_is_eligible lookup insert
validate-plan = refl

validate-greedy : validate_plan demo zones greedy ≡ refused (not_available "slag-wall")
unfolding validate_plan check_troops check_troop check_summons check_slots order_ok fielded_mages
    spell_is_eligible lookup insert
validate-greedy = refl

validate_plan-IsLegal_example : IsLegal demo zones plan
validate_plan-IsLegal_example = validate_plan-IsLegal demo zones plan validate-plan

IsLegal-validate_plan_example : validate_plan demo zones plan ≡ passed tt
IsLegal-validate_plan_example = IsLegal-validate_plan demo zones plan validate_plan-IsLegal_example
