-- ===== src/Sim/Spells.antt =====
-- Player spells that are scheduled into a battle, api/app/sim/spells.py. The payload of a spell is
-- a list of effects of any type: nothing here looks into it.
pub mod Queue
use go_forth.Prelude.{
  ℕ, ◌≡◌, refl, ◌⊎◌, inl, inr, Bool, true, false, Option, none, some, List, [], ◌∷◌, String, suc,
  ltb, leb, take, drop, ◌==◌, if◌then◌else◌, str_eq, ◌&&◌,
}
use go_forth.Prelude.Dict.{Dict, lookup, insert}
use go_forth.Prelude.Float.{Float, ◌<?◌, ◌≟◌}
use go_forth.Prelude.Order.{both_same, lex_less}
use go_forth.Prelude.Sorting.{sorted, list_insert, bisect_right}
use go_forth.Prelude.Text.{str_lt}
use go_forth.Sim.Types.{Side, north, south, side_eq, Vec2}

pub record Spell (E : Type 0) : Type 0 where
  pub id : String
  pub effects : List E

pub record SpellInjection (F : Type 0) : Type 0 where
  pub tick : ℕ
  pub spell_id : String
  pub location : Vec2 F
  pub side : Side

pub data SpellError : Type 0 where
  defined_twice : String → SpellError
  no_effects : String → SpellError
  unknown_spell : String → SpellError
  opening_tick : String → SpellError
  past_tick : String → SpellError

pub data Result (A : Type 0) : Type 0 where
  ok : A → Result A
  err : SpellError → Result A

infixl 5 ◌>>=◌
abbrev pub ◌>>=◌ : {A B : Type 0} → Result A → (A → Result B) → Result B
ok a >>= f = f a
err e >>= f = err e

pub Result-cases :
    {A : Type 0} (r : Result A) → ((a : A) × (r ≡ ok a)) ⊎ ((e : SpellError) × (r ≡ err e))
Result-cases (ok a) = inl (a, refl)
Result-cases (err e) = inr (e, refl)

module _ {E : Type 0} where
  add_spell : Dict (Spell E) → Spell E → Result (Dict (Spell E))
  add_spell catalog spell = elim (lookup spell.id catalog) [
    | some _ ↦ err (defined_twice spell.id)
    | none ↦ elim spell.effects [
      | [] ↦ err (no_effects spell.id)
      | _ ∷ _ ↦ ok (insert spell.id spell catalog)
    ]
  ]

  add_spells : Dict (Spell E) → List (Spell E) → Result (Dict (Spell E))
  add_spells catalog [] = ok catalog
  add_spells catalog (spell ∷ rest) =
      add_spell catalog spell >>= λ extended. add_spells extended rest

  unfoldable pub build_spell_catalog : List (Spell E) → Result (Dict (Spell E))
  unfolding add_spell add_spells
  build_spell_catalog spells = add_spells [] spells

abbrev pub side_lt : Side → Side → Bool
side_lt north south = true
side_lt _ _ = false

-- What two injections are compared on.
abbrev pub Key : Type 0 → Type 0
Key F = ℕ × (String × (Side × (F × F)))

module _ {F : Type 0} ⦃f : Float F⦄ where
  -- injection_order
  abbrev pub injection_order : SpellInjection F → Key F
  injection_order i = (i.tick, (i.spell_id, (i.side, (i.location.x, i.location.y))))

  -- `==` and `<` of two such tuples.
  abbrev pub key_same : Key F → Key F → Bool
  key_same = both_same ◌==◌ (both_same str_eq (both_same side_eq (both_same f.eq f.eq)))

  abbrev pub key_less : Key F → Key F → Bool
  key_less =
      lex_less ◌==◌ ltb
        (lex_less str_eq str_lt (lex_less side_eq side_lt (lex_less f.eq f.lt f.lt)))

  unfoldable pub before : SpellInjection F → SpellInjection F → Bool
  before i j = key_less (injection_order i) (injection_order j)

  -- The two refusals of schedule_injections.
  unfoldable pub check_injection : {S : Type 0} → Dict S → SpellInjection F → Result (Unit {0})
  check_injection catalog i = elim (lookup i.spell_id catalog) [
    | none ↦ err (unknown_spell i.spell_id)
    | some _ ↦ if ltb i.tick 1 then err (opening_tick i.spell_id) else ok tt
  ]

  check_injections : {S : Type 0} → Dict S → List (SpellInjection F) → Result (Unit {0})
  check_injections catalog [] = ok tt
  check_injections catalog (i ∷ rest) =
      check_injection catalog i >>= λ _. check_injections catalog rest

  unfoldable pub schedule_injections :
      {S : Type 0} → List (SpellInjection F) → Dict S → Result (List (SpellInjection F))
  unfolding check_injections
  schedule_injections injections catalog =
      check_injections catalog injections >>= λ _. ok (sorted before injections)

  -- BattleRunner.inject (api/app/sim/run_battle.py), on the tick of the world and its queue.
  unfoldable pub inject :
      {S : Type 0}
      → Dict S
      → ℕ
      → List (SpellInjection F)
      → SpellInjection F
      → Result (List (SpellInjection F))
  inject catalog now pending i = elim (lookup i.spell_id catalog) [
    | none ↦ err (unknown_spell i.spell_id)
    | some _ ↦
        if leb i.tick now
        then err (past_tick i.spell_id)
        else ok (list_insert pending (bisect_right before pending i) i)
  ]

  -- SpellsPhase.run (api/app/sim/phases/spells.py): what is due is taken off the front.
  unfoldable pub due_count : ℕ → List (SpellInjection F) → ℕ
  due_count now [] = 0
  due_count now (i ∷ pending) = if leb i.tick now then suc (due_count now pending) else 0

  unfoldable pub take_due :
      ℕ → List (SpellInjection F) → List (SpellInjection F) × List (SpellInjection F)
  unfolding due_count
  take_due now pending = let due = due_count now pending in (take due pending, drop due pending)
