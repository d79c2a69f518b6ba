-- ===== src/Sim/Phases/Removal.antt =====
-- Sweeping the dead off the field, api/app/sim/phases/removal.py: the slots they leave, the charge
-- of their troop-mates, and the troops that dissolve with their last mage.
pub mod Swept
pub mod Orphans
use go_forth.Prelude.{
  ℕ, ◌+◌, Bool, true, false, Option, none, some, List, [], ◌∷◌, ◌++◌, String, map, select, length,
  not, str_eq, ◌&&◌, if◌then◌else◌,
}
use go_forth.Prelude.Float.{Float, ◌⊕◌, ◌⊘◌, nought}
use go_forth.Sim.Events.{troop_dissolved}
use go_forth.Sim.Field.{Field, TickContext, emit}
use go_forth.Sim.Types.{Vec2}
use go_forth.Sim.World.{
  World, BattleUnit, UnitKind, mage, summon, is_mage, Troop, DispelledSlot, EnergyMeters, is_alive,
  unit_ref, contains_id,
}

abbrev pub is_summon : UnitKind → Bool
is_summon k = not (is_mage k)

abbrev pub is_none : {A : Type 0} → List A → Bool
is_none [] = true
is_none (_ ∷ _) = false

abbrev pub kept : List String → List String → List String
kept fallen ids = select (λ uid. not (contains_id fallen uid)) ids

module _ {F : Type 0} where
  abbrev pub troops_updated : String → (Troop F → Troop F) → List (Troop F) → List (Troop F)
  troops_updated id change ts = map (λ t. if str_eq t.id id then change t else t) ts

  abbrev pub slot_of : BattleUnit F → DispelledSlot F
  slot_of u = record { type_id = u.type_id; formation_offset = u.formation_offset }

  -- The slots that the fallen summons leave, in world order.
  unfoldable pub open_slots : List String → List (BattleUnit F) → List (Troop F) → List (Troop F)
  open_slots fallen [] ts = ts
  open_slots fallen (u ∷ us) ts = open_slots fallen us (
      if contains_id fallen u.id && is_summon u.kind
      then troops_updated u.troop_id
          (λ t. record t { dispelled_slots = t.dispelled_slots ++ slot_of u ∷ [] }) ts
      else ts)

  abbrev pub swept_troop : List String → Troop F → Troop F
  swept_troop fallen t = record t {
    mage_ids = kept fallen t.mage_ids;
    summon_ids = kept fallen t.summon_ids;
  }

  module _ ⦃f : Float F⦄ where
    abbrev pub fallen_ids : List (BattleUnit F) → List String
    fallen_ids us = map (λ u. u.id) (select (λ u. not (is_alive u)) us)

    -- `losses.get(troop_id, 0)`
    abbrev pub losses_of : List (BattleUnit F) → String → ℕ
    losses_of us troop_id = length (select (λ u. not (is_alive u) && str_eq u.troop_id troop_id) us)

    -- A living unit's charge for the losses of its troop.
    abbrev pub mourn : List (BattleUnit F) → BattleUnit F → BattleUnit F
    mourn all u = elim (losses_of all u.troop_id) [
      | ℕ.zero ↦ u
      | ℕ.suc n ↦
          let meters = u.energy_meters in
          if is_alive u
          then record u {
            energy_meters = record meters {
              ally_defeated = meters.ally_defeated ⊕ f.of_nat (n + 1);
            };
          }
          else u
    ]

    total : (BattleUnit F → F) → List (BattleUnit F) → F → F
    total g [] sum = sum
    total g (u ∷ us) sum = total g us (sum ⊕ g u)

    -- _centre
    unfoldable pub centre : List (BattleUnit F) → Vec2 F
    unfolding total
    centre us = record {
      x = total (λ u. u.position.x) us nought ⊘ f.of_nat (length us);
      y = total (λ u. u.position.y) us nought ⊘ f.of_nat (length us);
    }

    abbrev pub bound_to : Troop F → BattleUnit F → Bool
    bound_to t u = str_eq u.troop_id t.id && is_summon u.kind

    -- The field without the units of those ids, and without them in the troop.
    abbrev pub taken_off : Troop F → List String → Field F → Field F
    taken_off t ids s = record s {
      world = record s.world {
        units = select (λ u. not (contains_id ids u.id)) s.world.units;
        troops =
            troops_updated t.id (λ v. record v { summon_ids = kept ids v.summon_ids })
              s.world.troops;
      };
    }

    -- _dissolve
    unfoldable pub dissolve : Troop F → Field F → Field F
    dissolve t s =
        let dissolving = select (bound_to t) s.world.units in
        if is_none dissolving
        then s
        else emit (troop_dissolved s.world.tick (centre dissolving) (map unit_ref dissolving))
            (taken_off t (map (λ u. u.id) dissolving) s)

    -- The last loop, over the troops as they stand after the sweep.
    unfoldable pub dissolve_orphans : List String → List (Troop F) → Field F → Field F
    dissolve_orphans had [] s = s
    dissolve_orphans had (t ∷ ts) s =
        dissolve_orphans had ts
          (if contains_id had t.id && is_none t.mage_ids then dissolve t s else s)

    abbrev pub had_mages : List (Troop F) → List String
    had_mages ts = map (λ t. t.id) (select (λ t. not (is_none t.mage_ids)) ts)

    -- The world once the dead are off it, before any troop dissolves.
    unfoldable pub sweep : World F → World F
    sweep w =
        let fallen = fallen_ids w.units in
        record w {
          units = select (λ u. not (contains_id fallen u.id)) (map (mourn w.units) w.units);
          troops = map (swept_troop fallen) (open_slots fallen w.units w.troops);
        }

    -- RemovalPhase.run
    unfoldable pub removal : TickContext F → Field F → Option (Field F)
    removal ctx s =
        let swept = sweep s.world in
        if is_none (fallen_ids s.world.units)
        then some s
        else some
            (dissolve_orphans (had_mages s.world.troops) swept.troops (record s { world = swept }))
