-- ===== src/Match/Wire/Reading/Safe.antt =====
-- What the match may rely on in a cast command that is read off the wire (api/app/match/wire.py): it
-- says what was sent, in finite numbers.
use go_forth.Prelude.{
  ◌≤◌, ◌≡◌, refl, sym, ap, ◌∙◌, Bool, true, false, Option, some, String, arith, ltb, if◌then◌else◌,
}
use mathlib.Core.Path.{subst}
use go_forth.Prelude.Double.{Double, finite, nan, infinity, minus_infinity, double_eq}
use go_forth.Prelude.Float.{Float}
use go_forth.Prelude.Int.{ℤ, pos}
use go_forth.Prelude.Keeps.{if-cases, Option-keeps_eq}
use go_forth.Match.Json.{
  Json, null, integer, number, text, array, object, Fields, Read, got, fault, ◌>>=◌, get, stripped,
  Answers, bind-Answers, IsName, stripped-IsName,
}
use go_forth.Match.Wire.{CastCommand}
use go_forth.Match.Wire.Reading.{
  CommandFault, not_object, no_at, no_whole_part, max_command_id_length, len, require_short,
  require_text, require_object, int_of, float_of, is_unusable, require_number, parse_cast_command,
}

-- The faults that the caller hears of are all but this one.
abbrev pub is_int_fault : CommandFault → Bool
is_int_fault no_whole_part = true
is_int_fault _ = false

pub finite-inj : {F : Type 0} {a b : F} → finite a ≡ finite b → a ≡ b
finite-inj h = cc

IsExpected : CommandFault → Type 0
IsExpected e = is_int_fault e ≡ false

IsShort : String → String → Type 0
IsShort s t = (s ≡ t) × (len t ≤ max_command_id_length)

require_short-IsShort : (s : String) → Answers IsExpected (IsShort s) (require_short s)
unfolding require_short IsExpected IsShort
require_short-IsShort s =
    if-cases (Answers IsExpected (IsShort s)) (ltb max_command_id_length (len s)) _ _ (λ e. refl)
      (λ e. (refl, ground arith))

module _ {F : Type 0} where
  -- A command over the finite numbers, as the parser hands it on.
  abbrev pub on_wire : CastCommand F → CastCommand (Double F)
  on_wire d = record {
    command_id = d.command_id;
    spell_id = d.spell_id;
    location = record { x = finite d.location.x; y = finite d.location.y };
    tick = d.tick;
  }

  -- What a required text is.
  IsText : Json F → String → Type 0
  IsText j s = (stripped j ≡ some s) × IsName s

  require_text-IsText :
      (j : Json F) (name : String) → Answers IsExpected (IsText j) (require_text j name)
  unfolding require_text IsExpected IsText
  require_text-IsText j name =
      Option-keeps_eq (Answers IsExpected (IsText j)) (stripped j) _ _ (λ e. refl)
        (λ s e. (e, stripped-IsName j s e))

  require_object-fields :
      (j : Json F) (e : CommandFault)
      → IsExpected e
      → Answers IsExpected (λ (o : Fields F). j ≡ object o) (require_object j e)
  unfolding require_object
  require_object-fields (object o) e h = refl
  require_object-fields null e h = h
  require_object-fields (integer n) e h = h
  require_object-fields (number v) e h = h
  require_object-fields (text y) e h = h
  require_object-fields (Json.boolean b) e h = h
  require_object-fields (array y) e h = h

  module _ (float_of_int : ℤ → Option F) where
    -- The finite number that a JSON value is.
    abbrev pub Denotes : Json F → F → Type 0
    Denotes (integer n) x = float_of_int n ≡ some x
    Denotes (number (finite y)) x = y ≡ x
    Denotes _ x = ⊥

    -- The command that was sent, in its fields.
    pub record IsSent (whole : F → ℤ) (raw : Json F) (d : CastCommand F) : Type 0 where
      pub fields : Fields F
      pub at : Fields F
      pub raw_fields : raw ≡ object fields
      pub at_fields : get "at" null fields ≡ object at
      pub command : stripped (get "commandId" null fields) ≡ some d.command_id
      pub short : len d.command_id ≤ max_command_id_length
      pub spell : stripped (get "spellId" null fields) ≡ some d.spell_id
      pub names : IsName d.command_id × IsName d.spell_id
      pub x_sent : Denotes (get "x" null at) d.location.x
      pub y_sent : Denotes (get "y" null at) d.location.y
      pub tick_sent : (t : F) × Denotes (get "tick" (integer (pos 0)) fields) t × (whole t ≡ d.tick)

    -- A command is the one that was sent, in finite numbers; a fault is not one of `int`.
    abbrev pub IsSafe : (F → ℤ) → Json F → Read CommandFault (CastCommand (Double F)) → Type 0
    IsSafe whole raw (got c) = (d : CastCommand F) × (c ≡ on_wire d) × IsSent whole raw d
    IsSafe whole raw (fault e) = is_int_fault e ≡ false

    -- A number that is handed on is finite, and the one that was sent.
    IsNumber : Json F → Double F → Type 0
    IsNumber j v = (x : F) × (v ≡ finite x) × Denotes j x

    -- What `float` gives, if it is finite.
    IsOf : Json F → Double F → Type 0
    IsOf j v = (x : F) → v ≡ finite x → Denotes j x

    float_of-IsOf :
        (j : Json F) (name : String) → Answers IsExpected (IsOf j) (float_of float_of_int j name)
    unfolding float_of IsExpected IsOf
    float_of-IsOf (integer n) name =
        Option-keeps_eq (Answers IsExpected (IsOf (integer n))) (float_of_int n) _ _ (λ e. refl)
          (λ x e y h. e ∙ ap some (finite-inj h))
    float_of-IsOf (number v) name = λ x h. subst (λ w. Denotes (number w) x) (sym h) refl
    float_of-IsOf null name = refl
    float_of-IsOf (text y) name = refl
    float_of-IsOf (Json.boolean b) name = refl
    float_of-IsOf (array y) name = refl
    float_of-IsOf (object y) name = refl

    -- A command that is safe.
    IsGood : (F → ℤ) → Json F → CastCommand (Double F) → Type 0
    IsGood whole raw c = (d : CastCommand F) × (c ≡ on_wire d) × IsSent whole raw d

    Answers-IsSafe :
        (whole : F → ℤ) (raw : Json F) (r : Read CommandFault (CastCommand (Double F)))
        → Answers IsExpected (IsGood whole raw) r
        → IsSafe whole raw r
    unfolding IsExpected IsGood
    Answers-IsSafe whole raw (got c) h = h
    Answers-IsSafe whole raw (fault e) h = h

    module _ ⦃f : Float F⦄ where
      nan_unusable : is_unusable {F = F} nan ≡ true
      unfolding is_unusable double_eq
      nan_unusable = refl

      infinity_unusable : is_unusable {F = F} infinity ≡ true
      unfolding is_unusable double_eq
      infinity_unusable = refl

      minus_infinity_unusable : is_unusable {F = F} minus_infinity ≡ true
      unfolding is_unusable double_eq
      minus_infinity_unusable = refl

      checked-IsNumber :
          (j : Json F) (v : Double F) (name : String)
          → IsOf j v
          → Answers IsExpected
              (IsNumber j)
              (if is_unusable v then fault (CommandFault.not_finite name) else got v)
      unfolding IsExpected IsNumber IsOf
      checked-IsNumber j (finite x) name k =
          if-cases (Answers IsExpected (IsNumber j)) (is_unusable (finite x)) _ _ (λ e. refl)
            (λ e. (x, refl, k x refl))
      checked-IsNumber j nan name k = ground (arith, nan_unusable)
      checked-IsNumber j infinity name k = ground (arith, infinity_unusable)
      checked-IsNumber j minus_infinity name k = ground (arith, minus_infinity_unusable)

      require_number-IsNumber :
          (j : Json F) (name : String)
          → Answers IsExpected (IsNumber j) (require_number float_of_int j name)
      unfolding require_number
      require_number-IsNumber j name =
          bind-Answers IsExpected (IsOf j) (IsNumber j) (float_of float_of_int j name) _
            (float_of-IsOf j name) (λ v k. checked-IsNumber j v name k)

      int_of-whole :
          (whole : F → ℤ) (j : Json F) (v : Double F)
          → IsNumber j v
          → Answers IsExpected (λ (n : ℤ). (t : F) × Denotes j t × (whole t ≡ n)) (int_of whole v)
      unfolding int_of IsNumber
      int_of-whole whole j (finite x) (t, e, d) = (t, d, ap whole (sym (finite-inj e)))
      int_of-whole whole j nan (t, e, d) = cc
      int_of-whole whole j infinity (t, e, d) = cc
      int_of-whole whole j minus_infinity (t, e, d) = cc

      -- The numbers of a command, once its texts are read.
      numbers-IsGood :
          (whole : F → ℤ) (raw : Json F) (fields at : Fields F) (command_id spell_id : String)
          → raw ≡ object fields
          → get "at" null fields ≡ object at
          → IsText (get "commandId" null fields) command_id
          → len command_id ≤ max_command_id_length
          → IsText (get "spellId" null fields) spell_id
          → Answers IsExpected (IsGood whole raw) (
              require_number float_of_int (get "x" null at) "cast.at.x" >>= λ x.
              require_number float_of_int (get "y" null at) "cast.at.y" >>= λ y.
              require_number float_of_int (get "tick" (integer (pos 0)) fields) "cast.tick"
              >>= λ value. int_of whole value >>= λ tick. got (record {
                command_id = command_id;
                spell_id = spell_id;
                location = record { x = x; y = y };
                tick = tick;
              }))
      unfolding IsText IsNumber IsGood
      numbers-IsGood whole raw fields at command_id spell_id at_raw at_at named short spell =
          let x_json = get "x" null at in
          let y_json = get "y" null at in
          let tick_json = get "tick" (integer (pos 0)) fields in
          bind-Answers IsExpected (IsNumber x_json) (IsGood whole raw)
            (require_number float_of_int x_json "cast.at.x") _
            (require_number-IsNumber x_json "cast.at.x")
            (λ vx (x, ex, dx).
              bind-Answers IsExpected (IsNumber y_json) (IsGood whole raw)
                (require_number float_of_int y_json "cast.at.y") _
                (require_number-IsNumber y_json "cast.at.y")
                (λ vy (y, ey, dy).
                  bind-Answers IsExpected (IsNumber tick_json) (IsGood whole raw)
                    (require_number float_of_int tick_json "cast.tick") _
                    (require_number-IsNumber tick_json "cast.tick")
                    (λ vt k.
                      bind-Answers IsExpected _ (IsGood whole raw) (int_of whole vt) _
                        (int_of-whole whole tick_json vt k)
                        (λ tick ticked. (
                          record {
                            command_id = command_id;
                            spell_id = spell_id;
                            location = record { x = x; y = y };
                            tick = tick;
                          },
                          ground (arith, ex, ey),
                          record {
                            fields = fields;
                            at = at;
                            raw_fields = at_raw;
                            at_fields = at_at;
                            command = named.0;
                            short = short;
                            spell = spell.0;
                            names = (named.1, spell.1);
                            x_sent = dx;
                            y_sent = dy;
                            tick_sent = ticked;
                          },
                        )))))

      -- A command that is read is the one that was sent, in finite numbers, and no fault is one of
      -- `int`.
      pub parse_cast_command-IsSafe :
          (whole : F → ℤ) (raw : Json F)
          → IsSafe whole raw (parse_cast_command float_of_int whole raw)
      unfolding parse_cast_command IsExpected IsText IsShort IsNumber
      parse_cast_command-IsSafe whole raw = Answers-IsSafe whole raw _ (
          bind-Answers IsExpected _ (IsGood whole raw) (require_object raw not_object) _
            (require_object-fields raw not_object refl)
            (λ fields at_raw.
              bind-Answers IsExpected _ (IsGood whole raw)
                (require_object (get "at" null fields) no_at) _
                (require_object-fields (get "at" null fields) no_at refl)
                (λ at at_at.
                  bind-Answers IsExpected _ (IsGood whole raw)
                    (require_text (get "commandId" null fields) "cast.commandId") _
                    (require_text-IsText (get "commandId" null fields) "cast.commandId")
                    (λ id named.
                      bind-Answers IsExpected _ (IsGood whole raw) (require_short id) _
                        (require_short-IsShort id)
                        (λ command_id short.
                          bind-Answers IsExpected _ (IsGood whole raw)
                            (require_text (get "spellId" null fields) "cast.spellId") _
                            (require_text-IsText (get "spellId" null fields) "cast.spellId")
                            (λ spell_id spell.
                              numbers-IsGood whole raw fields at command_id spell_id at_raw at_at
                                (subst (IsText (get "commandId" null fields)) short.0 named) short.1
                                spell))))))
