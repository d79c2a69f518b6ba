-- ===== src/Sim/Phases/Energy/Capped.antt =====
-- What the energy phase leaves (api/app/sim/phases/energy.py): no gauge above its ability's cost.
use go_forth.Prelude.{
  ◌≡◌, refl, Bool, false, any, ◌&&◌, none, some, List, [], ◌∷◌, map, arith, not, Option-cases, inl,
  inr,
}
use go_forth.Prelude.Dict.{lookup}
use go_forth.Prelude.Keeps.{if-cases, Option-keeps_eq}
use go_forth.Prelude.Float.{Float, IsFloat, ◌<?◌, fmin}
use go_forth.Sim.Field.{Field, TickContext}
use go_forth.Sim.Phases.Energy.{topped_up, charge, energy}
use go_forth.Sim.World.{BattleUnit, is_alive}

module _ {F : Type 0} ⦃f : Float F⦄ where
  -- Whether a gauge stands above the cost of an ability that the catalog has.
  abbrev pub is_over : TickContext F → BattleUnit F → Bool
  is_over ctx u = elim u.ability_id [
    | none ↦ false
    | some id ↦ elim (lookup id ctx.abilities) [
      | none ↦ false
      | some ability ↦ ability.energy_cost <? u.energy
    ]
  ]

  module _ (law : IsFloat F) where
    fmin_le : (a b : F) → (b <? fmin a b) ≡ false
    fmin_le a b =
        ground (arith, law.key.less_asym b a, law.key.less_of_same b b, law.key.same_refl b)

    IsUnder : TickContext F → BattleUnit F → Type 0
    IsUnder ctx u = (is_alive u && is_over ctx u) ≡ false

    charge-IsUnder : (ctx : TickContext F) (u : BattleUnit F) → IsUnder ctx (charge ctx u)
    unfolding charge IsUnder
    charge-IsUnder ctx u =
        Option-keeps_eq (IsUnder ctx) u.ability_id u _ (λ e. ground arith)
          (λ id e.
            if-cases (IsUnder ctx) (not (is_alive u)) u _ (λ dead. ground arith)
              (λ lives. elim (Option-cases (lookup id ctx.abilities)) [
                | inl k ↦ ground arith
                | inr (ability, k) ↦ ground (arith, fmin_le (topped_up ctx u) ability.energy_cost)
              ]))

    all_capped :
        (ctx : TickContext F) (us : List (BattleUnit F))
        → any (λ u. is_alive u && is_over ctx u) (map (charge ctx) us) ≡ false
    unfolding IsUnder
    all_capped ctx [] = refl
    all_capped ctx (u ∷ us) = ground (arith, charge-IsUnder ctx u, all_capped ctx us)

    -- For floats that keep the laws, the energy phase returns, and after it no living unit with an
    -- ability of the catalog has more energy than the ability costs.
    pub energy-capped :
        (ctx : TickContext F) (s : Field F)
        → (t : Field F) × (energy ctx s ≡ some t)
          × (any (λ u. is_alive u && is_over ctx u) t.world.units ≡ false)
    unfolding energy
    energy-capped ctx s = (_, refl, all_capped ctx s.world.units)
