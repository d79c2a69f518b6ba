-- ===== src/Sim/Tick.antt =====
-- One tick of a battle: TICK_PHASES of api/app/sim/phases/__init__.py, in their order. The decision
-- phase belongs to the AI and is a parameter.
pub mod Vitals
pub mod Effects
pub mod Phases
pub mod Roster
pub mod Safe
use go_forth.Prelude.{◌+◌, Option, none, some, List, [], ◌∷◌}
use go_forth.Prelude.Float.{Float}
use go_forth.Sim.Events.{BattleEvent}
use go_forth.Sim.Field.{Field, TickContext}
use go_forth.Sim.Phases.{◌>>=◌}
use go_forth.Sim.Phases.Abilities.{abilities}
use go_forth.Sim.Phases.Combat.{combat}
use go_forth.Sim.Phases.Energy.{energy}
use go_forth.Sim.Phases.Movement.{movement}
use go_forth.Sim.Phases.Orders.{orders}
use go_forth.Sim.Phases.Removal.{removal}
use go_forth.Sim.Phases.Resummon.{resummon}
use go_forth.Sim.Phases.Scoring.{scoring}
use go_forth.Sim.Phases.Spells.{spells}
use go_forth.Sim.Phases.Statuses.{statuses}
use go_forth.Sim.Rng.{Rng}
use go_forth.Sim.World.{World}

abbrev pub Phase : Type 0 → Type 0
Phase F = TickContext F → Field F → Option (Field F)

module _ {F : Type 0} ⦃f : Float F⦄ where
  -- TICK_PHASES
  abbrev pub tick_phases : Phase F → List (Phase F)
  tick_phases decision =
      orders ∷ decision ∷ movement ∷ energy ∷ spells ∷ abilities ∷ combat ∷ statuses ∷ scoring
      ∷ resummon ∷ removal ∷ []

  unfoldable pub run_phases : List (Phase F) → TickContext F → Field F → Option (Field F)
  run_phases [] ctx s = some s
  run_phases (phase ∷ rest) ctx s = phase ctx s >>= run_phases rest ctx

  -- `world.rng_state = ctx.rng.state`
  abbrev pub rng_saved : Field F → Field F
  rng_saved s = record s { world = record s.world { rng_state = s.rng.state } }

  -- step_battle, from the world whose tick is counted up, with nothing in the emitter's buffer.
  unfoldable pub run_tick : Phase F → TickContext F → Rng → World F → Option (Field F)
  run_tick decision ctx rng w =
      run_phases (tick_phases decision) ctx
        (record { world = record w { tick = w.tick + 1 }; events = []; rng = rng })
      >>= λ s. some (rng_saved s)
