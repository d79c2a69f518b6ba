-- ===== src/Sim/Phases/Resummon/Capacity.antt =====
-- The bound on what a troop rebuilds (api/app/sim/phases/resummon.py): no more than its living mages'
-- support capacity leaves free.
use go_forth.Prelude.{
  ℕ, suc, ◌+◌, ◌-◌, ◌≤◌, ◌≡◌, refl, false, none, some, List, [], ◌∷◌, String, length, length-append,
  leb, ◌==◌, arith, ap, if◌then◌else◌,
}
use go_forth.Prelude.Dict.{lookup}
use go_forth.Prelude.Float.{Float}
use go_forth.Prelude.Keeps.{
  if-keeps, if-cases, Option-keeps, List-keeps, Holds, none-Holds, some-Holds, bind-Holds,
}
use go_forth.Sim.Field.{Field, TickContext, units_updated, update_unit}
use go_forth.Sim.Phases.Removal.{is_none}
use go_forth.Sim.Phases.Resummon.{
  resummon_pace_ticks, living, refill, set_clock, mage_turn, mage_turns, rebuild,
}
use go_forth.Sim.World.{BattleUnit, Troop, DispelledSlot, find_troop, support_capacity_of}

length-units_updated :
    {F : Type 0} (id : String) (change : BattleUnit F → BattleUnit F) (us : List (BattleUnit F))
    → length (units_updated id change us) ≡ length us
length-units_updated id change [] = refl
length-units_updated id change (u ∷ us) = ap suc (length-units_updated id change us)

module _ {F : Type 0} ⦃f : Float F⦄ where
  HasUnits : ℕ → Field F → Type 0
  HasUnits n s = length s.world.units ≡ n

  refill-adds :
      (ctx : TickContext F) (troop : Troop F) (slot : DispelledSlot F)
      (left : List (DispelledSlot F)) (mage : BattleUnit F) (s : Field F)
      → Holds (HasUnits (length s.world.units + 1)) (refill ctx troop slot left mage s)
  unfolding refill HasUnits
  refill-adds ctx troop slot left mage s =
      Option-keeps (Holds (HasUnits (length s.world.units + 1)))
        (lookup slot.type_id ctx.unit_types) none _ (none-Holds _)
        (λ unit_type. some-Holds _ (length-append s.world.units _))

  -- So many units more than at first, as the count says, which stays in its bound.
  module _ (capacity held0 units0 : ℕ) where
    pub IsBounded : Field F × ℕ → Type 0
    IsBounded r =
        (length r.0.world.units + held0 ≡ units0 + r.1) × (r.1 ≤ capacity + (held0 - capacity))

    wound_up :
        (id : String) (n m : ℕ) (s : Field F)
        → IsBounded (s, m)
        → Holds IsBounded (some (update_unit id (set_clock n) s, m))
    unfolding IsBounded
    wound_up id n m s h =
        some-Holds IsBounded
          (omega (arith, length-units_updated id (set_clock n) s.world.units, h.0), h.1)

    one_more :
        (s r : Field F) (held : ℕ)
        → IsBounded (s, held)
        → HasUnits (length s.world.units + 1) r
        → leb capacity held ≡ false
        → IsBounded (r, held + 1)
    unfolding IsBounded HasUnits
    one_more s r held h k free = (omega (arith, h.0, k), ground (arith, free))

    mage_turn-IsBounded :
        (ctx : TickContext F) (troop_id : String) (pace : ℕ) (mage : BattleUnit F) (s : Field F)
        (held : ℕ)
        → IsBounded (s, held)
        → Holds IsBounded (mage_turn ctx troop_id capacity pace mage (s, held))
    unfolding mage_turn
    mage_turn-IsBounded ctx troop_id pace mage s held h =
        Option-keeps (Holds IsBounded) (find_troop s.world troop_id) _ _ (some-Holds IsBounded h)
          (λ troop.
            List-keeps (Holds IsBounded) troop.dispelled_slots _ _ (wound_up mage.id pace held s h)
              (λ slot left.
                if-cases (Holds IsBounded) (leb capacity held) _ _
                  (λ full. wound_up mage.id pace held s h)
                  (λ free.
                    if-keeps (Holds IsBounded) _ _ _
                      (wound_up mage.id
                        ((if mage.resummon_remaining == 0 then pace else mage.resummon_remaining)
                          - 1)
                        held s h)
                      (bind-Holds (HasUnits (length s.world.units + 1)) IsBounded
                        (refill ctx troop slot left mage s)
                        (λ r. some (update_unit mage.id (set_clock pace) r, held + 1))
                        (refill-adds ctx troop slot left mage s)
                        (λ r k. wound_up mage.id pace (held + 1) r (one_more s r held h k free))))))

    mage_turns-IsBounded :
        (ctx : TickContext F) (troop_id : String) (mages : List (BattleUnit F)) (r : Field F × ℕ)
        → IsBounded r
        → Holds IsBounded (mage_turns ctx troop_id capacity mages r)
    unfolding mage_turns
    mage_turns-IsBounded ctx troop_id [] r h = some-Holds IsBounded h
    mage_turns-IsBounded ctx troop_id (mage ∷ mages) r h =
        Option-keeps (Holds IsBounded) (resummon_pace_ticks mage ctx) none _ (none-Holds _) (λ pace.
          Option-keeps (Holds IsBounded) pace _ _ (mage_turns-IsBounded ctx troop_id mages r h)
            (λ n.
              bind-Holds IsBounded IsBounded (mage_turn ctx troop_id capacity n mage r) _
                (mage_turn-IsBounded ctx troop_id n mage r.0 r.1 h)
                (λ q k. mage_turns-IsBounded ctx troop_id mages q k)))

  -- At most so many units.
  AtMost : ℕ → Field F → Type 0
  AtMost n s = length s.world.units ≤ n

  -- A rebuild of a troop that returns puts no more units on the field than the support capacity of
  -- the living mages of the troop exceeds its living summons by.
  pub rebuild-capacity :
      (ctx : TickContext F) (troop : Troop F) (s t : Field F)
      → rebuild ctx troop s ≡ some t
      → length t.world.units
        ≤ length s.world.units
          + (support_capacity_of (living s.world troop.mage_ids)
              - length (living s.world troop.summon_ids))
  unfolding rebuild IsBounded AtMost
  rebuild-capacity ctx troop s t h =
      let mages = living s.world troop.mage_ids in
      let held = length (living s.world troop.summon_ids) in
      let capacity = support_capacity_of mages in
      let n = length s.world.units in
      let most = n + (capacity - held) in
      let bounded =
        mage_turns-IsBounded capacity held n ctx troop.id mages (s, held) (refl, omega arith) in
      let all : Holds (AtMost most) (rebuild ctx troop s) =
        if-keeps (Holds (AtMost most)) (is_none mages) _ _ (some-Holds (AtMost most) (omega arith))
          (bind-Holds (IsBounded capacity held n) (AtMost most)
            (mage_turns ctx troop.id capacity mages (s, held)) _ bounded
            (λ r k. some-Holds (AtMost most) (omega (arith, k.0, k.1)))) in
      all.holds t h
