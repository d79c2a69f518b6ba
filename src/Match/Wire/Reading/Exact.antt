-- ===== src/Match/Wire/Reading/Exact.antt =====
-- That a cast command is read exactly when it was sent (api/app/match/wire.py): the parser refuses
-- nothing else.
use go_forth.Prelude.{◌≡◌, sym, ap, ◌↔◌, false, Option, String, arith}
use mathlib.Core.Path.{subst}
use go_forth.Prelude.Double.{finite, nan, infinity, minus_infinity, double_eq}
use go_forth.Prelude.Float.{Float, IsFloat}
use go_forth.Prelude.Int.{ℤ, pos}
use go_forth.Match.Json.{Json, null, integer, number, text, array, object, got, get}
use go_forth.Match.Wire.{CastCommand}
use go_forth.Match.Wire.Reading.{
  require_short, require_text, require_object, int_of, float_of, is_unusable, require_number,
  parse_cast_command,
}
use go_forth.Match.Wire.Reading.Safe.{
  on_wire, Denotes, IsSent, IsSafe, parse_cast_command-IsSafe, finite-inj,
}

module _ {F : Type 0} ⦃f : Float F⦄ (law : IsFloat F) (float_of_int : ℤ → Option F) where
  finite_usable : (x : F) → is_unusable (finite x) ≡ false
  unfolding is_unusable double_eq
  finite_usable x = ground (arith, law.key.same_refl x)

  require_number-Denotes :
      (j : Json F) (x : F) (name : String)
      → Denotes float_of_int j x
      → require_number float_of_int j name ≡ got (finite x)
  unfolding require_number float_of
  require_number-Denotes (integer n) x name h = ground (arith, finite_usable x)
  require_number-Denotes (number (finite y)) x name h = ground (arith, finite_usable x)
  require_number-Denotes (number nan) x name h = absurd h
  require_number-Denotes (number infinity) x name h = absurd h
  require_number-Denotes (number minus_infinity) x name h = absurd h
  require_number-Denotes null x name h = absurd h
  require_number-Denotes (text y) x name h = absurd h
  require_number-Denotes (Json.boolean b) x name h = absurd h
  require_number-Denotes (array y) x name h = absurd h
  require_number-Denotes (object y) x name h = absurd h

  IsSent-parse_cast_command :
      (whole : F → ℤ) (raw : Json F) (d : CastCommand F)
      → IsSent float_of_int whole raw d
      → parse_cast_command float_of_int whole raw ≡ got (on_wire d)
  unfolding parse_cast_command require_object require_text require_short int_of
  IsSent-parse_cast_command whole raw d h =
      let (t, sent, counted) = h.tick_sent in
      ground (
        arith,
        h.raw_fields,
        h.at_fields,
        h.command,
        h.short,
        h.spell,
        require_number-Denotes (get "x" null h.at) d.location.x "cast.at.x" h.x_sent,
        require_number-Denotes (get "y" null h.at) d.location.y "cast.at.y" h.y_sent,
        require_number-Denotes (get "tick" (integer (pos 0)) h.fields) t "cast.tick" sent,
        counted,
      )

  on_wire-inj : {c d : CastCommand F} → on_wire c ≡ on_wire d → c ≡ d
  on_wire-inj h = ground (
    arith,
    ap (λ e. e.command_id) h,
    ap (λ e. e.spell_id) h,
    finite-inj (ap (λ e. e.location.x) h),
    finite-inj (ap (λ e. e.location.y) h),
    ap (λ e. e.tick) h,
  )

  -- For floats that keep the laws, reading a cast command gives a command over the finite numbers
  -- exactly when that command was sent: the value is an object with an object of coordinates, the
  -- command id, of at most the longest length, and the spell id are the texts sent, stripped and
  -- not empty, each coordinate is the finite number sent, and the tick the whole part of the one
  -- sent, 0 if none was; and whatever is sent, all that is read is such a command, never NaN or an
  -- infinity, and no fault comes of the conversion to a whole tick.
  pub parse_cast_command-IsSent :
      (whole : F → ℤ) (raw : Json F) (d : CastCommand F)
      → IsSafe float_of_int whole raw (parse_cast_command float_of_int whole raw)
        × ((parse_cast_command float_of_int whole raw ≡ got (on_wire d))
            ↔ IsSent float_of_int whole raw d)
  parse_cast_command-IsSent whole raw d =
      let safe = parse_cast_command-IsSafe float_of_int whole raw in
      (
        safe,
        (
          λ e.
              let (c, same, sent) = subst (IsSafe float_of_int whole raw) e safe in
              subst (IsSent float_of_int whole raw) (on_wire-inj (sym same)) sent,
          IsSent-parse_cast_command whole raw d,
        ),
      )
