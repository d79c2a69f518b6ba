-- ===== src/Lib.antt =====
-- Go Forth!: a verification library of the match server and of the battle simulator under it.
--
-- The server plays a match between two seats. A session (api/app/match/session.py) walks the
-- phases of a match: both seats plan, a battle is fought, the round's result is shown, and the
-- next round or the end of the match follows. The battle of a round is an authoritative round
-- (api/app/match/round.py): it steps the simulator a tick at a time, lets each seat's energy
-- grow, takes or refuses the spells that the seats cast, and decides when and why the round ends.
-- Each command of a seat is answered once, from a ledger (api/app/match/commands.py), and each
-- run is recorded (api/app/match/run_record.py). Below, the simulator (api/app/sim) keeps a
-- world, a queue of injected spells (spells.py) and a runner (run_battle.py) that applies the
-- phases of a tick: the units take their stations, decide, walk, charge, and fight, fires burn,
-- the zones score, troops rebuild and the dead are swept. What the seats send arrives as JSON
-- (plan.py, wire.py), and the repository (api/app/repository.py) stores the matches, their seats
-- and the players.
--
-- Which file models what:
--   Prelude: lists, dicts in insertion order, whole numbers, sorting and bisection as Python's
--     `sorted` and `bisect` do them, the order of texts, and `Float`.
--   Sim.Types, Sim.World, Sim.Events: the state of a battle (api/app/sim/types.py, world.py,
--     statuses.py, orders.py) and its events (events.py).
--   Sim.Spells: `build_spell_catalog`, `injection_order`, `schedule_injections`, the queue of
--     `BattleRunner.inject` and what `SpellsPhase.run` takes from it. Sim.Spells.Queue proves.
--   Sim.Geometry, Sim.BattleMap, Sim.Zones: geometry.py, map.py (its validation in
--     Sim.BattleMap.Checked) and zones.py. Sim.BattleMap.Coherent and Sim.Zones.Holders prove.
--   Sim.Effects, Sim.Energy, Sim.Field: the vocabulary of effects.py, abilities.py, units.py and
--     energy.py, and the context and the state that the phases of a tick share (context.py).
--   Sim.Targeting, Sim.Casting, Sim.Formation, Sim.Resolution with Sim.Resolution.Resolvers:
--     phases/targeting.py, casting.py, formation.py (`station`) and resolution.py.
--     Sim.Targeting.Nearest proves.
--   Sim.Rng, Sim.UnitTypes, Sim.Deployment, Sim.Opening with Sim.Opening.Build: rng.py, the
--     catalog of units.py, the shape and the start of a troop (formation.py), and `create_world`
--     of world.py. Sim.Rng.Jump, Sim.Opening.Members and Sound prove.
--   Sim.Resonance: `count_resonance` of resonance.py and the multipliers of schools.py.
--   Sim.Phases: one module for each phase of api/app/sim/phases but the decision, named as its
--     file; the children Turn, Paid, Capped, Swept, Orphans, Capacity and Embers prove.
--   Sim.Tick: `TICK_PHASES` and `step_battle`; Vitals, Effects, Phases, Roster and Safe prove.
--   Sim.Runner: `BattleRunner` and its `step`, `run_to_end`, `inject`. Sim.Runner.Ending proves.
--   Match.Wire: the values of api/app/match/wire.py that round and session exchange.
--   Match.Json: JSON values as `json.loads` gives them, and the tests that the readers make of
--     them.
--   Match.Wire.Reading: `parse_cast_command`, which Safe and Exact prove of; Match.Plan.Parse:
--     `parse_plan` and `plan_to_json`. Match.Plan.Parse.Readable and Trip prove.
--   Match.Commands: `CommandLedger.find`, `record` (here `record_entry`) and `count_for`.
--     Match.Commands.Answers proves.
--   Match.Round: `SeatEnergy`, `AuthoritativeRound.step`, `cast` and `_decide_ending`. Its
--     children Settled, Mirror, Cast, Books and Ends prove.
--   Match.Plan: `validate_plan` of api/app/match/plan.py over a roster; Match.Fixtures: the
--     demo's roster. Match.Plan.Summons, Legal and Validation prove.
--   Match.Recorder: `RunRecorder`.
--   Match.Session: the state of `MatchSession`; Match.Session.Play: `lock_in`, `cast`, `tick`,
--     `_start_battle`, `_finish_round`, `abandon`; Match.Session.Report: `result_report`.
--     Consistent, Clock, Once, Moves, Series, Recorded, Runs, Vetted and Fought prove; a `Move`
--     is one operation that returns, `Reach` a sequence of them, and `Series` an abstract series
--     with the steps that an operation may take.
--   Server.Repository: `MemoryRepository`, its matches, seats and players. Claims proves.
--   Sim.FieldSamples, Sim.FieldTests, Sim.OpeningTests, Match.ParseTests, Server.Tests,
--     Sim.Tests, Match.Samples, Match.Tests, Match.SessionTests, Match.PlanTests: the theorems at
--     concrete data.
--
-- How the state is read: an object that the code mutates is a record that is passed on; a dict
-- over the two sides is a `BySide`, with options where a side may be missing; an exception is an
-- error value, without the text of its message, and in the phases of a tick `none`. A unit that
-- Python mutates through a reference is found and changed by its id, which a battle gives to one
-- unit only. Where Python's `_current` of the recorder is an alias of the last recorded round, a
-- flag says whether there is one.
--
-- Floats: no float type is defined. The type `F` and its operations are a parameter, and a
-- theorem that needs laws names `IsFloat`, which holds of finite IEEE-754 numbers. A float that a
-- client sends may be NaN or an infinity: Prelude.Double adds the three to `F`, with what `==`
-- says of them. The whole numbers instantiate it in the tests.
--
-- Fuel: the loop of `run_to_end` and the play of a round recur on a number of rounds, for which
-- the distance to the tick limit is enough, since each step counts the tick up. `limit` is
-- `max_ticks(config)`.
--
-- Parameters: the policy that aims a cast is a field of the context, with the rounding of
-- Python's `round`; the columns of a formation take `int(a // b)` on floats as an argument; the
-- instants and the ids of the repository are arguments, and so are `float` of an `int`, which may
-- raise, and `int` of a finite float, where a command is read. In a tick the decision phase is an
-- argument, as it belongs to the units' AI. In the runner, which any simulator under a round may
-- fill, the phases of a tick are an argument of the step; what is assumed of them, where it is,
-- is that they leave the tick's count alone, which no phase writes. What a session asks of plans,
-- of the set-up of a battle and of the zones is the interface `SessionRules`.
--
-- Not modelled: the units' AI (a parameter), the energy rules of a configuration, replay,
-- diagnostics and logging (nothing reads them), snapshots for a seat, stored results, HTTP,
-- websockets, the database, the Lobby's tokens and the client.
pub mod Prelude
pub mod Sim
pub mod Match
pub mod Server
