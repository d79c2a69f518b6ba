-- ===== src/Sim/Runner.antt =====
-- One battle, advanced a tick at a time: `BattleRunner` of api/app/sim/run_battle.py.
-- What the phases of one tick do to the world is the parameter `phases`: it takes the world whose
-- tick has been counted up and returns the world after the last phase, the state of the generator
-- saved in it, with the events that were emitted.
-- A copy of an immutable world is the world, so `copy.deepcopy` is not seen.
pub mod Ending
use go_forth.Prelude.{
  ℕ, zero, suc, ◌+◌, ◌≤◌, ◌<◌, ◌≡◌, Bool, true, false, Option, none, some, List, [], ◌∷◌, ◌++◌,
  String, leb, any, not, ◌||◌, if◌then◌else◌,
}
use go_forth.Prelude.Dict.{Dict}
use go_forth.Prelude.Float.{Float, ◌≤?◌, nought}
use go_forth.Sim.Events.{BattleEvent}
use go_forth.Sim.Spells.{SpellInjection, Result, ok, err, ◌>>=◌}
use go_forth.Sim.Spells
use go_forth.Sim.Types.{Side, north, south, sides, side_eq, at}
use go_forth.Sim.World.{World, BattleUnit}

pub data BattleOutcome : Type 0 where
  annihilation time_up base_destroyed : BattleOutcome

pub record BattleTick (F : Type 0) : Type 0 where
  pub tick : ℕ
  pub state : World F
  pub events : List (BattleEvent F)

-- `S` is a spell of the sim's catalog. `limit` is `max_ticks(config)`.
pub record BattleRunner (F S : Type 0) : Type 0 where
  pub world : World F
  pub spells : Dict S
  pub limit : ℕ
  pub ticks : List (BattleTick F)
  pub events : List (BattleEvent F)
  pub outcome : BattleOutcome
  pub destroyed_base : Option Side
  pub stopped : Bool

-- _side_is_wiped_out
unfoldable pub side_is_wiped_out : {F : Type 0} → World F → Bool
side_is_wiped_out w = any (λ side. not (any (λ u. side_eq u.side side) w.units)) sides

module _ {F : Type 0} ⦃f : Float F⦄ where
  first_fallen : World F → List Side → Option Side
  first_fallen w [] = none
  first_fallen w (side ∷ rest) =
      if (at side w.bases).hp ≤? nought then some side else first_fallen w rest

  -- _base_destroyed
  unfoldable pub fallen_base : World F → Option Side
  unfolding first_fallen
  fallen_base w = first_fallen w sides

  -- step_battle
  unfoldable pub step_battle :
      (World F → World F × List (BattleEvent F)) → World F → World F × List (BattleEvent F)
  step_battle phases w = phases (record w { tick = w.tick + 1 })

module _ {F S : Type 0} where
  unfoldable pub finished : BattleRunner F S → Bool
  finished r = r.stopped || leb r.limit r.world.tick

  module _ ⦃f : Float F⦄ where
    -- How a tick is settled: a fallen base first, then a side that is wiped out.
    settle : BattleRunner F S → BattleRunner F S
    settle r = elim (fallen_base r.world) [
      | some side ↦ record r {
        destroyed_base = some side;
        outcome = base_destroyed;
        stopped = true;
      }
      | none ↦
          if side_is_wiped_out r.world
          then record r { destroyed_base = none; outcome = annihilation; stopped = true }
          else record r { destroyed_base = none }
    ]

    -- BattleRunner.step
    unfoldable pub step :
        (World F → World F × List (BattleEvent F))
        → BattleRunner F S
        → BattleRunner F S × List (BattleEvent F)
    unfolding step_battle settle
    step phases r =
        if finished r
        then (r, [])
        else let (w, tick_events) = step_battle phases r.world in
          (
            settle (record r {
              world = w;
              events = r.events ++ tick_events;
              ticks = r.ticks ++ record { tick = w.tick; state = w; events = tick_events } ∷ [];
            }),
            tick_events,
          )

    -- BattleRunner.run_to_end, with the rounds that it may take.
    unfoldable pub run_to_end :
        (World F → World F × List (BattleEvent F)) → ℕ → BattleRunner F S → BattleRunner F S
    run_to_end phases zero r = r
    run_to_end phases (suc fuel) r =
        let rest = run_to_end phases fuel (step phases r).0 in if finished r then r else rest

    -- BattleRunner.inject
    unfoldable pub inject : BattleRunner F S → SpellInjection F → Result (BattleRunner F S)
    inject r i = Spells.inject r.spells r.world.tick r.world.pending_spells i >>= λ pending.
        ok (record r { world = record r.world { pending_spells = pending } })
