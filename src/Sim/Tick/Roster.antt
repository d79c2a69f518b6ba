-- ===== src/Sim/Tick/Roster.antt =====
-- That the phases which change who is on the field keep everybody at or above 0
-- (api/app/sim/phases): scoring, removal and resummon.
use go_forth.Prelude.{
  ℕ, ◌+◌, Option, none, some, List, [], ◌∷◌, ◌-◌, ◌==◌, if◌then◌else◌, String, All, All-map,
  All-select, All-append, arith,
}
use go_forth.Prelude.Dict.{lookup}
use go_forth.Prelude.Keeps.{
  if-keeps, Option-keeps, Option-keeps_eq, List-keeps, Holds, none-Holds, some-Holds, bind-Holds,
}
use go_forth.Prelude.Entries.{lookup-All}
use go_forth.Prelude.Float.{Float, nought, ◌≼◌}
use go_forth.Sim.Effects.{UnitType}
use go_forth.Sim.Field.{Field, TickContext, update_unit}
use go_forth.Sim.Phases.Removal.{
  fallen_ids, mourn, sweep, dissolve, dissolve_orphans, removal, is_none,
}
use go_forth.Sim.Phases.Resummon.{
  resummon_pace_ticks, refill, set_clock, mage_turn, mage_turns, rebuild, rebuild_all, resummon,
}
use go_forth.Sim.Phases.Scoring.{pay, score_zone, score_zones, scoring}
use go_forth.Sim.Tick.Vitals.{IsFit, IsVital, update_unit-IsVital, emit-IsVital}
use go_forth.Sim.Types.{Side}
use go_forth.Sim.World.{BattleUnit, Troop, DispelledSlot, find_troop}
use go_forth.Sim.Zones.{ZoneOccupancy}

module _ {F : Type 0} ⦃f : Float F⦄ (t : ℕ) where
  -- Only the units and the events of a field changed.
  with_units :
      (s : Field F) (us : List (BattleUnit F)) (ts : List (Troop F))
      → All IsFit us
      → IsVital t s
      → IsVital t (record s { world = record s.world { units = us; troops = ts } })
  with_units s us ts h k = record {
    units = h;
    north_base = k.north_base;
    south_base = k.south_base;
    clock = k.clock;
  }

  pay-keeps :
      (holder : Option Side) (points : F) (s : Field F)
      → IsVital t s
      → IsVital t (record s { world = pay holder points s.world })
  pay-keeps none points s h = h
  pay-keeps (some side) points s h = record {
    units = h.units;
    north_base = h.north_base;
    south_base = h.south_base;
    clock = h.clock;
  }

  score_zone-keeps :
      (o : ZoneOccupancy F) (s : Field F) → IsVital t s → Holds (IsVital t) (score_zone o s)
  unfolding score_zone
  score_zone-keeps o s h =
      let paid = pay-keeps o.holder o.zone.points_per_tick s h in
      Option-keeps (Holds (IsVital t)) (lookup o.zone.id s.world.zone_holders) none _ (none-Holds _)
        (λ previous. some-Holds (IsVital t) (
          if-keeps (IsVital t) _ _ _ paid (
            emit-IsVital t _ _ (record {
              units = paid.units;
              north_base = paid.north_base;
              south_base = paid.south_base;
              clock = paid.clock;
            }))))

  score_zones-keeps :
      (os : List (ZoneOccupancy F)) (s : Field F)
      → IsVital t s
      → Holds (IsVital t) (score_zones os s)
  unfolding score_zones
  score_zones-keeps [] s h = some-Holds (IsVital t) h
  score_zones-keeps (o ∷ os) s h =
      bind-Holds (IsVital t) (IsVital t) (score_zone o s) _ (score_zone-keeps o s h)
        (score_zones-keeps os)

  pub scoring-keeps :
      (ctx : TickContext F) (s : Field F) → IsVital t s → Holds (IsVital t) (scoring ctx s)
  unfolding scoring
  scoring-keeps ctx s h = score_zones-keeps _ s h

  dissolve-keeps : (troop : Troop F) (s : Field F) → IsVital t s → IsVital t (dissolve troop s)
  unfolding dissolve
  dissolve-keeps troop s h =
      if-keeps (IsVital t) _ _ _ h
        (emit-IsVital t _ _ (with_units s _ _ (All-select IsFit _ s.world.units h.units) h))

  dissolve_orphans-keeps :
      (had : List String) (ts : List (Troop F)) (s : Field F)
      → IsVital t s
      → IsVital t (dissolve_orphans had ts s)
  unfolding dissolve_orphans
  dissolve_orphans-keeps had [] s h = h
  dissolve_orphans-keeps had (x ∷ ts) s h =
      dissolve_orphans-keeps had ts _ (if-keeps (IsVital t) _ _ _ (dissolve-keeps x s h) h)

  mourn-IsFit : (all : List (BattleUnit F)) (u : BattleUnit F) → IsFit u → IsFit (mourn all u)
  mourn-IsFit all u h = ground arith

  pub removal-keeps :
      (ctx : TickContext F) (s : Field F) → IsVital t s → Holds (IsVital t) (removal ctx s)
  unfolding removal sweep
  removal-keeps ctx s h =
      if-keeps (Holds (IsVital {F = F} t)) (is_none (fallen_ids s.world.units)) _ _ (some-Holds _ h)
        (some-Holds (IsVital t) (
          dissolve_orphans-keeps _ _ _ (
            with_units s _ _
              (All-select IsFit _ _ (
                All-map IsFit (mourn s.world.units) IsFit s.world.units (mourn-IsFit s.world.units)
                  h.units))
              h)))

  refill-keeps :
      (ctx : TickContext F) (troop : Troop F) (slot : DispelledSlot F)
      (left : List (DispelledSlot F)) (mage : BattleUnit F) (s : Field F)
      → All (λ (e : String × UnitType F). nought ≼ e.1.max_hp) ctx.unit_types
      → IsVital t s
      → Holds (IsVital t) (refill ctx troop slot left mage s)
  unfolding refill
  refill-keeps ctx troop slot left mage s types h =
      Option-keeps_eq (Holds (IsVital t)) (lookup slot.type_id ctx.unit_types) none _
        (λ e. none-Holds _)
        (λ unit_type e. some-Holds (IsVital t) (
          emit-IsVital t _ _ (
            with_units s _ _
              (All-append IsFit s.world.units _ h.units
                (lookup-All _ slot.type_id unit_type ctx.unit_types types e, tt))
              h)))

  -- The field of a turn of `_rebuild`.
  IsVitalTurn : Field F × ℕ → Type 0
  IsVitalTurn r = IsVital t r.0

  turn-keeps : (s : Field F) (held : ℕ) → IsVital t s → IsVitalTurn (s, held)
  unfolding IsVitalTurn
  turn-keeps s held h = h

  mage_turn-keeps :
      (ctx : TickContext F) (troop_id : String) (capacity pace : ℕ) (mage : BattleUnit F)
      (s : Field F × ℕ)
      → All (λ (e : String × UnitType F). nought ≼ e.1.max_hp) ctx.unit_types
      → IsVitalTurn s
      → Holds IsVitalTurn (mage_turn ctx troop_id capacity pace mage s)
  unfolding mage_turn IsVitalTurn
  mage_turn-keeps ctx troop_id capacity pace mage (s, held) types h =
      Option-keeps (Holds IsVitalTurn) (find_troop s.world troop_id) _ _
        (some-Holds IsVitalTurn (turn-keeps s held h))
        (λ troop.
          List-keeps (Holds IsVitalTurn) troop.dispelled_slots _ _ (wound_up pace held)
            (λ slot left. if-keeps (Holds IsVitalTurn) _ _ _ (wound_up pace held) (
              if-keeps (Holds IsVitalTurn) _ _ _
                (wound_up
                  ((if mage.resummon_remaining == 0 then pace else mage.resummon_remaining) - 1)
                  held)
                (bind-Holds (IsVital t) IsVitalTurn (refill ctx troop slot left mage s)
                  (λ r. some (update_unit mage.id (set_clock pace) r, held + 1))
                  (refill-keeps ctx troop slot left mage s types h)
                  (λ r k. some-Holds IsVitalTurn (
                    turn-keeps _ (held + 1)
                      (update_unit-IsVital t mage.id (set_clock pace) r (λ v q. q) k)))))))
    where
      wound_up : (n m : ℕ) → Holds IsVitalTurn (some (update_unit mage.id (set_clock n) s, m))
      wound_up n m =
          some-Holds IsVitalTurn
            (turn-keeps _ m (update_unit-IsVital t mage.id (set_clock n) s (λ v k. k) h))

  mage_turns-keeps :
      (ctx : TickContext F) (troop_id : String) (capacity : ℕ) (mages : List (BattleUnit F))
      (s : Field F × ℕ)
      → All (λ (e : String × UnitType F). nought ≼ e.1.max_hp) ctx.unit_types
      → IsVitalTurn s
      → Holds IsVitalTurn (mage_turns ctx troop_id capacity mages s)
  unfolding mage_turns
  mage_turns-keeps ctx troop_id capacity [] s types h = some-Holds IsVitalTurn h
  mage_turns-keeps ctx troop_id capacity (mage ∷ mages) s types h =
      Option-keeps (Holds IsVitalTurn) (resummon_pace_ticks mage ctx) none _ (none-Holds _) (λ pace.
        Option-keeps (Holds IsVitalTurn) pace _ _
          (mage_turns-keeps ctx troop_id capacity mages s types h)
          (λ n.
            bind-Holds IsVitalTurn IsVitalTurn (mage_turn ctx troop_id capacity n mage s) _
              (mage_turn-keeps ctx troop_id capacity n mage s types h)
              (λ r k. mage_turns-keeps ctx troop_id capacity mages r types k)))

  rebuild_all-keeps :
      (ctx : TickContext F) (ts : List (Troop F)) (s : Field F)
      → All (λ (e : String × UnitType F). nought ≼ e.1.max_hp) ctx.unit_types
      → IsVital t s
      → Holds (IsVital t) (rebuild_all ctx ts s)
  unfolding rebuild_all rebuild IsVitalTurn
  rebuild_all-keeps ctx [] s types h = some-Holds (IsVital t) h
  rebuild_all-keeps ctx (troop ∷ ts) s types h =
      bind-Holds (IsVital t) (IsVital t) (rebuild ctx troop s) _
        (if-keeps (Holds (IsVital t)) _ _ _ (some-Holds (IsVital t) h) (
          bind-Holds IsVitalTurn (IsVital t) (mage_turns ctx troop.id _ _ (s, _)) _
            (mage_turns-keeps ctx troop.id _ _ (s, _) types h) (λ r k. some-Holds (IsVital t) k)))
        (λ r k. rebuild_all-keeps ctx ts r types k)

  pub resummon-keeps :
      (ctx : TickContext F) (s : Field F)
      → All (λ (e : String × UnitType F). nought ≼ e.1.max_hp) ctx.unit_types
      → IsVital t s
      → Holds (IsVital t) (resummon ctx s)
  unfolding resummon
  resummon-keeps ctx s types h = rebuild_all-keeps ctx s.world.troops s types h
