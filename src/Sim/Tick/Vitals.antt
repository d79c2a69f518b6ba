-- ===== src/Sim/Tick/Vitals.antt =====
-- What every phase of a tick keeps (api/app/sim/phases): no unit's hp and no base's falls below 0,
-- and the clock stands still. The tick of step_battle then keeps it too.
use go_forth.Prelude.{
  ℕ, ◌≡◌, List, [], ◌∷◌, String, str_eq, All, arith, Bool-cases, inl, inr, if◌then◌else◌,
}
use go_forth.Prelude.Float.{Float, IsFloat, ◌⊖◌, ◌≤?◌, nought, fmin, ◌≼◌}
use go_forth.Sim.Events.{BattleEvent}
use go_forth.Sim.Field.{Field, units_updated, update_unit, emit, for_each}
use go_forth.Sim.Types.{Side, north, south, put}
use go_forth.Sim.World.{BattleUnit, BaseState}

pub for_each-keeps :
    {F S : Type 0} (P : S → Type 0) (body : String → S → S) (us : List (BattleUnit F)) (s : S)
    → ((id : String) (s : S) → P s → P (body id s))
    → P s
    → P (for_each body us s)
unfolding for_each
for_each-keeps P body [] s k h = h
for_each-keeps P body (u ∷ us) s k h = for_each-keeps P body us (body u.id s) k (k u.id s h)

module _ {F : Type 0} ⦃f : Float F⦄ where
  abbrev pub IsFit : BattleUnit F → Type 0
  IsFit u = nought ≼ u.hp

  -- Nobody is below 0, at that tick.
  pub record IsVital (t : ℕ) (s : Field F) : Type 0 where
    pub units : All IsFit s.world.units
    pub north_base : nought ≼ s.world.bases.at_north.hp
    pub south_base : nought ≼ s.world.bases.at_south.hp
    pub clock : s.world.tick ≡ t

  pub units_updated-IsFit :
      (id : String) (change : BattleUnit F → BattleUnit F) (us : List (BattleUnit F))
      → ((u : BattleUnit F) → IsFit u → IsFit (change u))
      → All IsFit us
      → All IsFit (units_updated id change us)
  units_updated-IsFit id change [] k h = tt
  units_updated-IsFit id change (u ∷ us) k h = elim (Bool-cases (str_eq u.id id)) [
    | inl e ↦ ground (arith, k u h.0, units_updated-IsFit id change us k h.1)
    | inr e ↦ ground (arith, h.0, units_updated-IsFit id change us k h.1)
  ]

  pub update_unit-IsVital :
      (t : ℕ) (id : String) (change : BattleUnit F → BattleUnit F) (s : Field F)
      → ((u : BattleUnit F) → IsFit u → IsFit (change u))
      → IsVital t s
      → IsVital t (update_unit id change s)
  update_unit-IsVital t id change s k h = record {
    units = units_updated-IsFit id change s.world.units k h.units;
    north_base = h.north_base;
    south_base = h.south_base;
    clock = h.clock;
  }

  pub emit-IsVital :
      (t : ℕ) (event : BattleEvent F) (s : Field F) → IsVital t s → IsVital t (emit event s)
  emit-IsVital t event s h = record {
    units = h.units;
    north_base = h.north_base;
    south_base = h.south_base;
    clock = h.clock;
  }

  module _ (law : IsFloat F) where
    -- A loss stops at 0.
    pub floor_nonneg : (hp : F) → nought ≼ (if hp ≤? nought then nought else hp)
    floor_nonneg hp = ground (
      arith,
      law.le-not-lt nought nought,
      law.le-not-lt hp nought,
      law.le-not-lt nought hp,
      law.key.less_asym nought hp,
      law.key.less_of_same nought nought,
      law.key.same_refl nought,
    )

    -- What is taken off a base is at most what it has.
    pub spared_nonneg :
        (hp damage : F) → (nought ≼ (hp ⊖ fmin hp damage)) × (nought ≼ (hp ⊖ fmin damage hp))
    spared_nonneg hp damage = (
      law.sub_nonneg hp (fmin hp damage) (
          ground (
            arith,
            law.le-not-lt hp hp,
            law.le-not-lt damage hp,
            law.key.less_asym damage hp,
            law.key.less_of_same hp hp,
            law.key.same_refl hp,
          )),
      law.sub_nonneg hp (fmin damage hp) (
          ground (
            arith,
            law.le-not-lt hp hp,
            law.le-not-lt damage hp,
            law.key.less_asym damage hp,
            law.key.less_of_same hp hp,
            law.key.same_refl hp,
          )),
    )

    pub put-IsVital :
        (t : ℕ) (side : Side) (base : BaseState F) (s : Field F)
        → nought ≼ base.hp
        → IsVital t s
        → IsVital t (record s { world = record s.world { bases = put side base s.world.bases } })
    put-IsVital t north base s h k = record {
      units = k.units;
      north_base = h;
      south_base = k.south_base;
      clock = k.clock;
    }
    put-IsVital t south base s h k = record {
      units = k.units;
      north_base = k.north_base;
      south_base = h;
      clock = k.clock;
    }
