-- ===== src/Match/Wire/Reading.antt =====
-- Reading a cast command off the wire: `parse_cast_command` of api/app/match/wire.py. Two conversions
-- of Python are parameters: `float(n)` of an `int`, which raises on one that is too large, and
-- `int(x)` of a finite float. The floats that arrive may be NaN or infinite, those that `int` is
-- given too.
pub mod Safe
pub mod Exact
use go_forth.Prelude.{
  ℕ, Bool, true, false, not, ◌||◌, Option, none, some, String, suc, ltb, if◌then◌else◌,
}
use go_forth.Prelude.Double.{Double, finite, nan, infinity, minus_infinity, double_eq}
use go_forth.Prelude.Float.{Float}
use go_forth.Prelude.Int.{ℤ, pos}
use go_forth.Match.Json.{
  Json, null, integer, number, text, array, object, Fields, Read, got, fault, ◌>>=◌, get, stripped,
}
use go_forth.Match.Wire.{CastCommand}

-- What is raised: a CommandError but for the last two, the OverflowError of `float(n)` and what
-- `int` raises of NaN and the infinities.
pub data CommandFault : Type 0 where
  not_object no_at id_too_long : CommandFault
  required not_number not_finite : String → CommandFault
  too_large : String → CommandFault
  no_whole_part : CommandFault

-- MAX_COMMAND_ID_LENGTH
abbrev pub max_command_id_length : ℕ
max_command_id_length = 64

-- Python's `len` of a text: its code points.
abbrev pub len : String → ℕ
len String.[] = 0
len (String.◌∷◌ c s) = suc (len s)

unfoldable pub require_short : String → Read CommandFault String
require_short id = if ltb max_command_id_length (len id) then fault id_too_long else got id

module _ {F : Type 0} where
  -- _require_text
  unfoldable pub require_text : Json F → String → Read CommandFault String
  require_text raw name = elim (stripped raw) [ none ↦ fault (required name) | some s ↦ got s ]

  unfoldable pub require_object : Json F → CommandFault → Read CommandFault (Fields F)
  require_object (object fields) e = got fields
  require_object _ e = fault e

  -- `int(x)`
  unfoldable pub int_of : (F → ℤ) → Double F → Read CommandFault ℤ
  int_of whole (finite x) = got (whole x)
  int_of whole _ = fault no_whole_part

  -- `value != value or value in (float("inf"), float("-inf"))`
  unfoldable pub is_unusable : ⦃f : Float F⦄ → Double F → Bool
  is_unusable value =
      not (double_eq value value) || double_eq value infinity || double_eq value minus_infinity

  module _ (float_of_int : ℤ → Option F) where
    -- `float(raw)`, of what is a number.
    unfoldable pub float_of : Json F → String → Read CommandFault (Double F)
    float_of (integer n) name = elim (float_of_int n) [
      | none ↦ fault (too_large name)
      | some x ↦ got (finite x)
    ]
    float_of (number x) name = got x
    float_of _ name = fault (not_number name)

    module _ ⦃f : Float F⦄ where
      -- _require_number
      unfoldable pub require_number : Json F → String → Read CommandFault (Double F)
      require_number raw name = float_of raw name >>= λ value.
          if is_unusable value then fault (not_finite name) else got value

      -- parse_cast_command
      unfoldable pub parse_cast_command :
          (F → ℤ) → Json F → Read CommandFault (CastCommand (Double F))
      parse_cast_command whole raw = require_object raw not_object >>= λ fields.
          require_object (get "at" null fields) no_at >>= λ at.
          require_text (get "commandId" null fields) "cast.commandId" >>= λ id.
          require_short id >>= λ command_id.
          require_text (get "spellId" null fields) "cast.spellId" >>= λ spell_id.
          require_number (get "x" null at) "cast.at.x" >>= λ x.
          require_number (get "y" null at) "cast.at.y" >>= λ y.
          require_number (get "tick" (integer (pos 0)) fields) "cast.tick" >>= λ value.
          int_of whole value >>= λ tick. got (record {
            command_id = command_id;
            spell_id = spell_id;
            location = record { x = x; y = y };
            tick = tick;
          })
