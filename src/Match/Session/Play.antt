-- ===== src/Match/Session/Play.antt =====
-- What changes a session: lock_in, cast, tick, abandon and their parts (api/app/match/session.py).
use go_forth.Prelude.{
  ℕ, ◌+◌, Bool, true, false, Option, none, some, List, [], String, leb, not, ◌&&◌, if◌then◌else◌,
}
use go_forth.Prelude.Float.{Float, nought}
use go_forth.Match.Commands.{LedgerEntry, to_message, find, record_entry}
use go_forth.Match.Recorder
use go_forth.Match.Recorder.{was_abandoned}
use go_forth.Match.Round
use go_forth.Match.Round.{AuthoritativeRound, CastOutcome, RoundEnding, base_hp, over}
use go_forth.Match.Session.{
  Phase, planning, battle, round_over, match_over, RoundState, planning_over, already_locked,
  illegal_plan, plan_error, sim_error, assertion_failed, Attempt, done, raised, SessionRules,
  MatchSession, or_else, fully_seated, bases_of, bases_json, next_round, match_ending, wire_ending,
  winner_of, count_win, terminal_reason, round_over_ticks, planning_backstop_ticks,
}
use go_forth.Match.Wire.{
  CastRejection, wrong_phase, Message, CastCommand, time_up, WireRoundEnding, match_abandoned,
  ZoneState, RoundResult,
}
use go_forth.Sim.Spells.{ok, err}
use go_forth.Sim.Types.{Side, north, south, at, put, both}
use go_forth.Sim.World.{World}

-- What `cast` answers outside of a battle.
abbrev pub phase_rejection : Phase → CastRejection
phase_rejection planning = wrong_phase
phase_rejection _ = CastRejection.round_over

abbrev pub is_battle : Phase → Bool
is_battle battle = true
is_battle _ = false

abbrev pub is_planning : Phase → Bool
is_planning planning = true
is_planning _ = false

abbrev pub is_match_over : Phase → Bool
is_match_over match_over = true
is_match_over _ = false

-- The ledger entry of a command that is refused.
abbrev pub refusal : String → Option CastRejection → Option ℕ → LedgerEntry
refusal id why number = record {
  command_id = id;
  accepted = false;
  reason = why;
  round_number = number;
  tick = none;
  order = none;
}

module _ {F S P : Type 0} where
  -- _answer
  unfoldable pub answer : MatchSession F S P → Side → LedgerEntry → MatchSession F S P × Message
  answer s side entry =
      let (ledger, stored) = record_entry s.ledger side entry in
      (record s { ledger = ledger }, to_message stored)

  module _ ⦃f : Float F⦄ where
    -- The end of cast, on the outcome of a round that has answered.
    unfoldable pub take_outcome :
        MatchSession F S P
        → Side
        → CastCommand F
        → CastOutcome
        → Attempt (MatchSession F S P × Message)
    unfolding answer
    take_outcome s side command o =
        if not o.accepted
        then done (answer s side (refusal command.command_id o.rejection (some s.round_number)))
        else elim o.tick [
          | none ↦ raised assertion_failed
          | some tick ↦ elim o.order [
            | none ↦ raised assertion_failed
            | some order ↦ done (
                answer
                  (record s {
                    recorder = Recorder.cast_accepted s.recorder (record {
                      order = order;
                      tick = tick;
                      side = side;
                      command_id = command.command_id;
                      spell_id = command.spell_id;
                      at_x = command.location.x;
                      at_y = command.location.y;
                    });
                  })
                  side
                  (record {
                    command_id = command.command_id;
                    accepted = true;
                    reason = none;
                    round_number = some s.round_number;
                    tick = some tick;
                    order = some order;
                  }))
          ]
        ]

    -- cast, of a command that the ledger does not know.
    unfoldable pub cast_new :
        MatchSession F S P → Side → CastCommand F → Attempt (MatchSession F S P × Message)
    unfolding take_outcome answer
    cast_new s side command =
        let turned_away =
          done (answer s side (refusal command.command_id (some (phase_rejection s.phase)) none)) in
        elim s.round [
          | none ↦ turned_away
          | some r ↦
              if not (is_battle s.phase) then turned_away else elim (Round.cast r side command) [
                | err e ↦ raised (sim_error e)
                | ok (r', o) ↦ take_outcome (record s { round = some r' }) side command o
              ]
        ]

    -- cast
    unfoldable pub cast :
        MatchSession F S P → Side → CastCommand F → Attempt (MatchSession F S P × Message)
    unfolding cast_new
    cast s side command = elim (find s.ledger side command.command_id) [
      | some seen ↦ done (s, to_message seen)
      | none ↦ cast_new s side command
    ]

    -- _finish_round, of a round with its ending.
    unfoldable pub finish :
        (World F → List ZoneState)
        → MatchSession F S P
        → AuthoritativeRound F S
        → RoundEnding
        → MatchSession F S P
    unfolding match_ending
    finish zone_states s r ending =
        let hp = base_hp r in
        let bases = bases_of s r.runner.world in
        let won = count_win (winner_of ending) s.rounds_won in
        let result : RoundResult F = record {
          round_number = s.round_number;
          ending = wire_ending ending;
          bases = bases;
          zones = zone_states r.runner.world;
          zone_score = r.runner.world.zone_score;
        } in
        let s1 = record s {
          base_hp = hp;
          rounds_won = won;
          last_round_result = some result;
          recorder = Recorder.round_finished s.recorder (wire_ending ending) hp;
          phase_ticks = 0;
        } in
        elim (match_ending s1 ending) [
          | none ↦ record s1 { phase = round_over }
          | some terminal ↦ record s1 {
            match_result = some (record {
              ending = terminal;
              rounds_won = won;
              bases = bases;
              last_round = result;
            });
            recorder =
                Recorder.match_finished s1.recorder terminal (terminal_reason terminal ending) won
                  hp;
            phase = match_over;
          }
        ]

    -- abandon
    unfoldable pub abandon : MatchSession F S P → Option Side → MatchSession F S P
    abandon s winner =
        if is_match_over s.phase
        then s
        else let bases = bases_json s in
          let last : RoundResult F =
            or_else
              (record {
                round_number = s.round_number;
                ending = WireRoundEnding.round_complete none time_up;
                bases = bases;
                zones = [];
                zone_score = both λ _. nought;
              })
              s.last_round_result in
          record s {
            match_result = some (record {
              ending = match_abandoned winner;
              rounds_won = s.rounds_won;
              bases = bases;
              last_round = last;
            });
            recorder =
                Recorder.match_finished s.recorder (match_abandoned winner) was_abandoned
                  s.rounds_won (both λ side. (at side bases).hp);
            phase = match_over;
            phase_ticks = 0;
          }

module _ {F S P R : Type 0} ⦃f : Float F⦄ (rules : SessionRules F S P R) where
  -- `if side not in plans: ...` of _start_battle
  abbrev pub fill_plan : Side → RoundState F P → RoundState F P
  fill_plan side t = elim (at side t.plans) [
    | some _ ↦ t
    | none ↦ record t {
      plans = put side (some rules.default_plan) t.plans;
      loadouts = put side (some (rules.resolve_loadout rules.default_plan)) t.loadouts;
    }
  ]

  -- _start_battle
  unfoldable pub start_battle : MatchSession F S P → MatchSession F S P
  start_battle s =
      let t = fill_plan south (fill_plan north s.round_state) in
      let plans = both λ side. or_else rules.default_plan (at side t.plans) in
      let loadouts = both λ side. or_else [] (at side t.loadouts) in
      let seed = s.seed + s.round_number in
      record s {
        round_state = t;
        round = some (
            Round.new_round s.round_number s.round_rules loadouts s.starting_energy
              (rules.create_runner plans s.base_hp seed));
        recorder = Recorder.round_started s.recorder (record {
          number = s.round_number;
          seed = seed;
          starting_energy = s.starting_energy;
          base_hp_at_start = s.base_hp;
          plans = plans;
          loadouts = loadouts;
          casts = [];
          ending = none;
          base_hp_at_end = none;
        });
        phase = battle;
        phase_ticks = 0;
      }

  -- lock_in
  unfoldable pub lock_in : MatchSession F S P → Side → R → Attempt (MatchSession F S P)
  unfolding start_battle
  lock_in s side raw =
      if not (is_planning s.phase)
      then raised (plan_error planning_over)
      else if at side s.round_state.locked
      then raised (plan_error already_locked)
      else elim (rules.parse_plan raw) [
        | none ↦ raised (plan_error illegal_plan)
        | some plan ↦
            if not (rules.validate_plan plan)
            then raised (plan_error illegal_plan)
            else let s1 = record s {
              round_state = record {
                plans = put side (some plan) s.round_state.plans;
                loadouts = put side (some (rules.resolve_loadout plan)) s.round_state.loadouts;
                locked = put side true s.round_state.locked;
              };
            } in
              if s1.round_state.locked.at_north && s1.round_state.locked.at_south
              then done (start_battle s1)
              else done s1
      ]

  -- tick, of a session in the battle phase.
  unfoldable pub tick_battle : MatchSession F S P → Attempt (MatchSession F S P × Bool)
  unfolding finish
  tick_battle s = elim s.round [
    | none ↦ raised assertion_failed
    | some r ↦
        let r' = (Round.step rules.phases r).0 in
        elim r'.ending [
          | none ↦ done (record s { round = some r' }, true)
          | some ending ↦
              done (finish rules.zone_states (record s { round = some r' }) r' ending, true)
        ]
  ]

  -- tick: the session afterwards, and whether something changed.
  unfoldable pub tick : MatchSession F S P → Attempt (MatchSession F S P × Bool)
  unfolding tick_battle start_battle next_round
  tick s =
      let s1 = record s { phase_ticks = s.phase_ticks + 1 } in
      elim s.phase [
        | planning ↦
            if fully_seated s && leb planning_backstop_ticks s1.phase_ticks
            then done (start_battle s1, true)
            else done (s1, false)
        | battle ↦ tick_battle s1
        | round_over ↦
            if leb round_over_ticks s1.phase_ticks
            then done (next_round s1, true)
            else done (s1, false)
        | match_over ↦ done (s1, false)
      ]
