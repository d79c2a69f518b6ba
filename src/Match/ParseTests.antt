-- ===== src/Match/ParseTests.antt =====
-- Reading plans and commands off the wire (api/app/match/plan.py, wire.py).
use go_forth.Prelude.{◌≡◌, refl, ◌↔◌, Option, none, some, [], ◌∷◌, if◌then◌else◌}
use go_forth.Prelude.Double.{finite, nan, infinity, minus_infinity, double_eq}
use go_forth.Prelude.Float.{int_float, int-IsFloat}
use go_forth.Prelude.Int.{ℤ, pos, leb_ℤ}
use go_forth.Prelude.Strip.{strip, is_space}
use go_forth.Match.Fixtures.{suggested_plan}
use go_forth.Match.Json.{
  Json, number, integer, fault, text, array, object, item, end, field, no_fields, got, get,
  stripped, text_of, list_of,
}
use go_forth.Match.Plan.{SubmittedPlan}
use go_forth.Match.Plan.Parse.{
  parse_plan, plan_to_json, parse_troops, parse_troop, parse_summons, parse_order, order_of_kind,
  parse_few_slots, parse_slots, items,
}
use go_forth.Match.Plan.Parse.Readable.{IsReadable}
use go_forth.Match.Plan.Parse.Trip.{parse_plan-plan_to_json, trip_iff_IsReadable}
use go_forth.Match.Wire.{CastCommand}
use go_forth.Match.Wire.Reading.{
  not_finite, too_large, parse_cast_command, require_object, require_text, require_short,
  require_number, float_of, is_unusable, int_of,
}
use go_forth.Match.Wire.Reading.Exact.{parse_cast_command-IsSent}
use go_forth.Match.Wire.Reading.Safe.{on_wire, IsSafe, IsSent}
use go_forth.Sim.World.{hold_zone}

-- A plan with blanks around its names, and without its spell slots.
abbrev padded : Json ℤ
padded = object (
    field "troops"
      (array (
        item
          (object (
            field "mageId" (text " ember-adept ") (
              field "summonIds" (array (item (text "ash-ram ") end)) (
                field "order"
                  (object (field "kind" (text "holdZone") (field "zoneId" (text " W") no_fields)))
                  no_fields))))
          end))
      no_fields)

abbrev tidy : SubmittedPlan
tidy = record {
  troops =
      record {
        mage_id = "ember-adept";
        summon_ids = "ash-ram" ∷ [];
        order = record { kind = hold_zone; zone_id = some "W" };
      }
      ∷ [];
  spell_slots = [];
}

parse_plan-plan_to_json_example : parse_plan (plan_to_json {F = ℤ} tidy) ≡ got tidy
unfolding parse_plan parse_troops parse_troop parse_summons parse_order order_of_kind
    parse_few_slots parse_slots items get stripped text_of list_of strip is_space
parse_plan-plan_to_json_example = parse_plan-plan_to_json ℤ padded tidy refl

trip_iff_IsReadable_example :
    (parse_plan (plan_to_json {F = ℤ} (suggested_plan "W" "E")) ≡ got (suggested_plan "W" "E"))
    ↔ IsReadable (suggested_plan "W" "E")
trip_iff_IsReadable_example = trip_iff_IsReadable ℤ (suggested_plan "W" "E")

-- A command at a whole number and a fraction's float, without a tick, whose default is 0.
abbrev tapped : Json ℤ
tapped = object (
    field "commandId" (text "c1 ") (
      field "spellId" (text "meteor") (
        field "at"
          (object (field "x" (integer (pos 80)) (field "y" (number (finite (pos 284))) no_fields)))
          no_fields)))

abbrev command : CastCommand ℤ
command = record {
  command_id = "c1";
  spell_id = "meteor";
  location = record { x = pos 80; y = pos 284 };
  tick = pos 0;
}

-- `float(n)` where every number above 1000 is too large.
abbrev small_float : ℤ → Option ℤ
small_float n = if leb_ℤ n (pos 1000) then some n else none

abbrev whole : ℤ → ℤ
whole x = x

parse_cast_command-IsSent_example :
    IsSafe small_float whole tapped (parse_cast_command small_float whole tapped)
    × ((parse_cast_command small_float whole tapped ≡ got (on_wire command))
        ↔ IsSent small_float whole tapped command)
parse_cast_command-IsSent_example =
    parse_cast_command-IsSent int-IsFloat small_float whole tapped command

tapped-read : parse_cast_command small_float whole tapped ≡ got (on_wire command)
unfolding parse_cast_command require_object require_text require_short require_number float_of
    is_unusable double_eq int_of get stripped strip is_space
tapped-read = refl

-- NaN, the infinities and a number that is too large are refused.
not_numbers :
    (require_number small_float (number nan) "x" ≡ fault (not_finite "x"))
    × (require_number small_float (number infinity) "x" ≡ fault (not_finite "x"))
    × (require_number small_float (number minus_infinity) "x" ≡ fault (not_finite "x"))
    × (require_number small_float (integer (pos 1001)) "x" ≡ fault (too_large "x"))
unfolding require_number float_of is_unusable double_eq
not_numbers = (refl, refl, refl, refl)
