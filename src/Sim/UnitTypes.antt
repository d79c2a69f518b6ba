-- ===== src/Sim/UnitTypes.antt =====
-- The battle's cards by id, api/app/sim/units.py, with `none` where a card is refused.
use go_forth.Prelude.{
  ℕ, Bool, true, false, Option, none, some, List, [], ◌∷◌, not, ltb, ◌&&◌, if◌then◌else◌,
}
use go_forth.Prelude.Dict.{Dict, lookup, insert}
use go_forth.Prelude.Float.{Float, ◌<?◌, ◌≟◌, nought}
use go_forth.Sim.Effects.{UnitType}
use go_forth.Sim.World.{is_mage}

abbrev or_none : Option ℕ → ℕ
or_none none = 0
or_none (some n) = n

abbrev is_no_list : {A : Type 0} → List A → Bool
is_no_list [] = true
is_no_list (_ ∷ _) = false

module _ {F : Type 0} ⦃f : Float F⦄ where
  -- _validate: whether it returns. A school that is not one has no value here.
  unfoldable pub is_coherent : UnitType F → Bool
  is_coherent t =
      not (is_no_list t.schools)
      && (nought <? t.max_hp)
      && not (t.damage <? nought)
      && not (t.range <? nought)
      && not (t.speed <? nought)
      && (nought <? t.attack_cooldown_seconds)
      && not (is_mage t.kind && not (ltb 0 (or_none t.support_capacity)))
      && not (t.emplacement && is_mage t.kind)
      && not (t.emplacement && not (t.speed ≟ nought))
      && not (t.blocks_movement && not (nought <? t.block_radius))

  -- The loop of build_unit_type_catalog, over the catalog so far.
  unfoldable pub add_unit_types : Dict (UnitType F) → List (UnitType F) → Option (Dict (UnitType F))
  add_unit_types catalog [] = some catalog
  add_unit_types catalog (t ∷ rest) =
      let more = add_unit_types (insert t.id t catalog) rest in
      elim (lookup t.id catalog) [ some _ ↦ none | none ↦ if is_coherent t then more else none ]

  abbrev pub build_unit_type_catalog : List (UnitType F) → Option (Dict (UnitType F))
  build_unit_type_catalog = add_unit_types []
