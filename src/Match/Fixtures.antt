-- ===== src/Match/Fixtures.antt =====
-- The roster of the opening demo: MAGE_CAP, MAGES, SUMMONS, SUMMON_COUNTS and SPELLS of
-- api/app/match/fixtures.py, and the troops of its suggested plan.
use go_forth.Prelude.{none, some, [], ◌∷◌, String}
use go_forth.Prelude.Float.{Float}
use go_forth.Match.Plan.{PlannedTroop, SubmittedPlan, signature, Roster}
use go_forth.Sim.World.{Order, hold_zone, push_enemy_base}

abbrev pub roster : {F : Type 0} ⦃f : Float F⦄ → Roster F
roster {F} ⦃f⦄ = record {
  mage_cap = 3;
  mages =
      record {
        id = "ember-adept";
        schools = "fire" ∷ [];
        tags = "pyromancer" ∷ "aggressive" ∷ [];
        support_capacity = 3;
      }
      ∷ [];
  summons =
      record { id = "cinder-hound"; schools = "fire" ∷ []; capacity_cost = 1 }
      ∷ record { id = "ember-sprite"; schools = "fire" ∷ []; capacity_cost = 1 }
      ∷ record { id = "ash-ram"; schools = "fire" ∷ []; capacity_cost = 2 }
      ∷ record { id = "slag-wall"; schools = "fire" ∷ "artifice" ∷ []; capacity_cost = 2 }
      ∷ [];
  summon_counts =
      ("cinder-hound", 4) ∷ ("ember-sprite", 3) ∷ ("ash-ram", 2) ∷ ("slag-wall", 1) ∷ [];
  spells =
      record {
        id = "meteor";
        name = "Meteor";
        cost = f.of_nat 35;
        requires = signature "ember-adept";
      }
      ∷ [];
}

-- A troop of the suggested plan: the one mage with its default entourage.
abbrev pub suggested_troop : Order → PlannedTroop
suggested_troop order = record {
  mage_id = "ember-adept";
  summon_ids = "cinder-hound" ∷ "ember-sprite" ∷ [];
  order = order;
}

-- The plan of opening_plan_json on a map of two zones: hold each, push with the third troop.
abbrev pub suggested_plan : String → String → SubmittedPlan
suggested_plan left right = record {
  troops =
      suggested_troop (record { kind = hold_zone; zone_id = some left })
      ∷ suggested_troop (record { kind = hold_zone; zone_id = some right })
      ∷ suggested_troop (record { kind = push_enemy_base; zone_id = none })
      ∷ [];
  spell_slots = some "meteor" ∷ none ∷ [];
}
