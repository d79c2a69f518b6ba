-- ===== src/Sim/Phases/Statuses/Embers.antt =====
-- That burning ground goes out (api/app/sim/phases/statuses.py): the hazards of a field are gone after
-- as many statuses phases as the longest of them has ticks left.
use go_forth.Prelude.{
  ℕ, zero, suc, ◌≤◌, ◌≡◌, refl, sym, ◌∙◌, Option, none, some, List, [], ◌∷◌, String, All, All-map,
  All-select, map, select, ltb, arith,
}
use mathlib.Core.Path.{subst}
use go_forth.Prelude.Float.{Float}
use go_forth.Prelude.Keeps.{if-keeps, Option-keeps}
use go_forth.Sim.Events.{BattleEvent}
use go_forth.Sim.Field.{Field, TickContext, find_unit, update_unit, emit}
use go_forth.Sim.Phases.Statuses.{aged, smoulder, burn_the_ground, burn_the_burning, statuses}
use go_forth.Sim.Resolution.{Casting, damage_unit, wounded, pay_caster, count_damage, on_field}
use go_forth.Sim.Tick.Vitals.{for_each-keeps}
use go_forth.Sim.Types.{UnitRef}
use go_forth.Sim.World.{BattleUnit, GroundHazard}

module _ {F : Type 0} ⦃f : Float F⦄ where
  -- The statuses phase, so many times over; what other phases add in between is left out.
  unfoldable pub passes : TickContext F → ℕ → Field F → Option (Field F)
  passes ctx zero s = some s
  passes ctx (suc n) s = elim (statuses ctx s) [ none ↦ none | some t ↦ passes ctx n t ]

  -- The field has those hazards.
  HasHazards : List (GroundHazard F) → Field F → Type 0
  HasHazards hs s = s.world.hazards ≡ hs

  update_unit-HasHazards :
      (hs : List (GroundHazard F)) (id : String) (change : BattleUnit F → BattleUnit F)
      (s : Field F)
      → HasHazards hs s
      → HasHazards hs (update_unit id change s)
  unfolding HasHazards
  update_unit-HasHazards hs id change s h = h

  emit-HasHazards :
      (hs : List (GroundHazard F)) (e : BattleEvent F) (s : Field F)
      → HasHazards hs s
      → HasHazards hs (emit e s)
  unfolding HasHazards
  emit-HasHazards hs e s h = h

  damage_unit-HasHazards :
      (hs : List (GroundHazard F)) (id : String) (amount : F) (source : Option UnitRef)
      (c : Casting F)
      → HasHazards hs c.field
      → HasHazards hs (damage_unit id amount source c).field
  unfolding damage_unit
  damage_unit-HasHazards hs id amount source c h =
      Option-keeps InCast (find_unit c.field.world id) c _ h (λ victim.
        let hurt = update_unit-HasHazards hs id (wounded amount) c.field h in
        let paid : InCast (
            pay_caster amount
              (count_damage amount (on_field (update_unit id (wounded amount)) c))) =
          Option-keeps InCast c.cast.caster _ _ hurt (λ i. update_unit-HasHazards hs i _ _ hurt) in
        if-keeps InCast _ _ _ h (if-keeps InCast _ _ _ (emit-HasHazards hs _ _ paid) paid))
    where
      InCast : Casting F → Type 0
      InCast c = HasHazards hs c.field

  smoulder-HasHazards :
      (hs : List (GroundHazard F)) (id : String) (s : Field F)
      → HasHazards hs s
      → HasHazards hs (smoulder id s)
  unfolding smoulder
  smoulder-HasHazards hs id s h = Option-keeps (HasHazards hs) (find_unit s.world id) s _ h (λ u.
      Option-keeps (HasHazards hs) u.burn s _ h (λ b.
        if-keeps (HasHazards hs) _ _ _ (update_unit-HasHazards hs id _ s h)
          (update_unit-HasHazards hs id _ _ (damage_unit-HasHazards hs id _ b.source _ h))))

  -- What one phase leaves of the hazards.
  abbrev left_of : List (GroundHazard F) → List (GroundHazard F)
  left_of hs = select (λ h. ltb 0 h.ticks_remaining) (map aged hs)

  statuses-hazards :
      (ctx : TickContext F) (s : Field F)
      → (t : Field F) × (statuses ctx s ≡ some t) × (t.world.hazards ≡ left_of s.world.hazards)
  unfolding statuses burn_the_burning burn_the_ground HasHazards
  statuses-hazards ctx s = (
    burn_the_burning (burn_the_ground s),
    refl,
    for_each-keeps (HasHazards (left_of s.world.hazards)) smoulder (burn_the_ground s).world.units
        (burn_the_ground s) (smoulder-HasHazards (left_of s.world.hazards)) refl,
  )

  none_left : (hs : List (GroundHazard F)) → All (λ h. h.ticks_remaining ≤ 1) hs → left_of hs ≡ []
  none_left [] h = refl
  none_left (x ∷ hs) h = ground (arith, h.0, none_left hs h.1)

  fewer_left :
      (n : ℕ) (hs : List (GroundHazard F))
      → All (λ h. h.ticks_remaining ≤ suc (suc n)) hs
      → All (λ h. h.ticks_remaining ≤ suc n) (left_of hs)
  fewer_left n hs h =
      All-select (λ h. h.ticks_remaining ≤ suc n) _ (map aged hs)
        (All-map (λ h. h.ticks_remaining ≤ suc n) aged (λ h. h.ticks_remaining ≤ suc (suc n)) hs
          (λ x k. omega (arith, k)) h)

  -- If every patch of burning ground has at most so many ticks left, at least one, then that many
  -- statuses phases in a row return and leave no burning ground.
  pub passes-burn_out :
      (ctx : TickContext F) (n : ℕ) (s : Field F)
      → All (λ h. h.ticks_remaining ≤ suc n) s.world.hazards
      → (t : Field F) × (passes ctx (suc n) s ≡ some t) × (t.world.hazards ≡ [])
  unfolding passes
  passes-burn_out ctx zero s h =
      let (t, r, e) = statuses-hazards ctx s in
      (t, ground (arith, r), e ∙ none_left s.world.hazards h)
  passes-burn_out ctx (suc n) s h =
      let (t, r, e) = statuses-hazards ctx s in
      let fewer : All (λ h. h.ticks_remaining ≤ suc n) t.world.hazards =
        subst (All (λ h. h.ticks_remaining ≤ suc n)) (sym e) (fewer_left n s.world.hazards h) in
      let (v, q, gone) = passes-burn_out ctx n t fewer in (v, ground (arith, r, q), gone)
