-- ===== src/Sim/Tick/Safe.antt =====
-- That a whole tick keeps everybody at or above 0 (api/app/sim/phases, run_battle.py).
use go_forth.Prelude.{ℕ, ◌+◌, ◌≡◌, refl, some, List, [], ◌∷◌, String, All}
use go_forth.Prelude.Keeps.{Holds, some-Holds}
use go_forth.Prelude.Float.{Float, IsFloat, nought, ◌≼◌}
use go_forth.Sim.Effects.{UnitType}
use go_forth.Sim.Field.{Field, TickContext}
use go_forth.Sim.Tick.{Phase, tick_phases, run_phases, rng_saved, run_tick}
use go_forth.Sim.Tick.Phases.{
  chain-Holds, orders-keeps, movement-keeps, energy-keeps, spells-keeps, abilities-keeps,
  combat-keeps, statuses-keeps,
}
use go_forth.Sim.Tick.Vitals.{IsVital}
use go_forth.Sim.Rng.{Rng}
use go_forth.Sim.World.{World}
use go_forth.Sim.Tick.Roster.{scoring-keeps, removal-keeps, resummon-keeps}

-- A phase that keeps `IsVital`.
unfoldable pub IsKeeping : {F : Type 0} ⦃f : Float F⦄ → ℕ → TickContext F → Phase F → Type 0
IsKeeping t ctx phase = (s : Field _) → IsVital t s → Holds (IsVital t) (phase ctx s)

module _ {F : Type 0} ⦃f : Float F⦄ (law : IsFloat F) (t : ℕ) (ctx : TickContext F) where
  run_phases-keeps :
      (phases : List (Phase F)) (s : Field F)
      → All (IsKeeping t ctx) phases
      → IsVital t s
      → Holds (IsVital t) (run_phases phases ctx s)
  unfolding run_phases IsKeeping
  run_phases-keeps [] s k h = some-Holds (IsVital t) h
  run_phases-keeps (phase ∷ rest) s k h =
      chain-Holds (IsVital t) (IsVital t) (phase ctx s) (run_phases rest ctx) (k.0 s h)
        (λ r q. run_phases-keeps rest r k.1 q)

  tick_phases-keep :
      (decision : Phase F)
      → IsKeeping t ctx decision
      → All (λ (e : String × UnitType F). nought ≼ e.1.max_hp) ctx.unit_types
      → All (IsKeeping t ctx) (tick_phases decision)
  unfolding IsKeeping
  tick_phases-keep decision k types = (
    orders-keeps law t ctx,
    (
      k,
      (
        movement-keeps law t ctx,
        (
          energy-keeps law t ctx,
          (
            spells-keeps law t ctx,
            (
              abilities-keeps law t ctx,
              (
                combat-keeps law t ctx,
                (
                  statuses-keeps law t ctx,
                  (
                    scoring-keeps t ctx,
                    ((λ s h. resummon-keeps t ctx s types h), (removal-keeps t ctx, tt)),
                  ),
                ),
              ),
            ),
          ),
        ),
      ),
    ),
  )

-- For floats that keep the laws and unit types whose full hp is not below 0, if the decision phase
-- leaves no hp below 0 and does not move the clock, then a tick that returns, from a world where no
-- unit and no base is below 0, leaves no unit and no base below 0 and the clock one further on.
pub run_tick-IsVital :
    {F : Type 0} ⦃f : Float F⦄ (law : IsFloat F) (decision : Phase F) (ctx : TickContext F)
    (rng : Rng) (w : World F) (s : Field F)
    → IsKeeping (w.tick + 1) ctx decision
    → All (λ (e : String × UnitType F). nought ≼ e.1.max_hp) ctx.unit_types
    → IsVital (w.tick) (record { world = w; events = []; rng = rng })
    → run_tick decision ctx rng w ≡ some s
    → IsVital (w.tick + 1) s
unfolding run_tick
run_tick-IsVital law decision ctx rng w s keeping types h e =
    (chain-Holds (IsVital (w.tick + 1)) (IsVital (w.tick + 1))
        (run_phases (tick_phases decision) ctx _) (λ r. some (rng_saved r))
        (run_phases-keeps law (w.tick + 1) ctx (tick_phases decision) _
          (tick_phases-keep law (w.tick + 1) ctx decision keeping types)
          (record {
            units = h.units;
            north_base = h.north_base;
            south_base = h.south_base;
            clock = refl;
          }))
        (λ r k. some-Holds (IsVital (w.tick + 1)) (record {
          units = k.units;
          north_base = k.north_base;
          south_base = k.south_base;
          clock = k.clock;
        }))).holds
      s e
