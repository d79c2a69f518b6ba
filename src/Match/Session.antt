-- ===== src/Match/Session.antt =====
-- The match session: api/app/match/session.py. It owns the phase of the match, the round in
-- progress, the ledger and the recorder.
-- What it calls outside this module is the interface `SessionRules`. Diagnostics and log lines,
-- which nothing in the session reads, are left out.
pub mod Play
pub mod Consistent
pub mod Clock
pub mod Once
pub mod Moves
pub mod Series
pub mod Report
pub mod Recorded
pub mod Runs
pub mod Vetted
pub mod Fought
use go_forth.Prelude.{
  ℕ, ◌+◌, Bool, true, false, Option, none, some, List, [], ◌∷◌, ◌++◌, String, leb, not, all, first,
  str_eq, ◌&&◌, ◌||◌, if◌then◌else◌,
}
use go_forth.Prelude.Dict.{Dict, lookup}
use go_forth.Prelude.Float.{Float, nought}
use go_forth.Match.Commands.{
  CommandLedger, LedgerEntry, to_message, find, record_entry, new_ledger, max_entries_per_seat,
}
use go_forth.Match.Recorder
use go_forth.Match.Recorder.{
  RunRecorder, TerminalReason, fell_base, was_abandoned, won_rounds, played_test, round_reason,
}
use go_forth.Match.Round
use go_forth.Match.Round.{AuthoritativeRound, CastOutcome, RoundEnding, RoundRules, base_hp, over}
use go_forth.Match.Wire.{
  CastRejection, wrong_phase, Message, LoadoutSpell, CastCommand, RoundReason, WireRoundEnding,
  MatchEnding, match_base_destroyed, match_rounds_won, match_test_complete, match_abandoned, BaseHp,
  ZoneState, RoundResult, MatchResult,
}
use go_forth.Sim.Events.{BattleEvent}
use go_forth.Sim.Runner.{BattleRunner}
use go_forth.Sim.Spells.{SpellError, Result, ok, err}
use go_forth.Sim.Types.{Side, north, south, sides, BySide, at, put, both}
use go_forth.Sim.World.{World}

-- ROUND_OVER_TICKS, PLANNING_BACKSTOP_TICKS
abbrev pub round_over_ticks : ℕ
round_over_ticks = 60

abbrev pub planning_backstop_ticks : ℕ
planning_backstop_ticks = 1200

pub data Phase : Type 0 where
  planning battle round_over match_over : Phase

pub record Seat : Type 0 where
  pub seat_key : String
  pub side : Side
  pub lobby_user_id : Option String
  pub player_id : Option String
  pub display_name : Option String
  pub connected : Bool
  pub departed : Bool
  pub sockets_seen : ℕ

-- _RoundState. A dict over the sides that may lack a side holds an option for each.
pub record RoundState (F P : Type 0) : Type 0 where
  pub plans : BySide (Option P)
  pub locked : BySide Bool
  pub loadouts : BySide (Option (List (LoadoutSpell F)))

abbrev pub fresh_round : {F P : Type 0} → RoundState F P
fresh_round = record { plans = both λ _. none; locked = both λ _. false; loadouts = both λ _. none }

-- RoundPolicy of api/app/lobby/manifest.py
pub record RoundPolicy : Type 0 where
  pub rounds_to_win : ℕ
  pub test_profile : Bool

pub data PlanError : Type 0 where
  planning_over already_locked illegal_plan : PlanError

-- What can be raised out of an operation.
pub data SessionError : Type 0 where
  plan_error : PlanError → SessionError
  sim_error : SpellError → SessionError
  assertion_failed no_seat : SessionError

pub data Attempt (A : Type 0) : Type 0 where
  done : A → Attempt A
  raised : SessionError → Attempt A

-- What a session calls: the plan rules of match/plan.py on raw plans `R`, the set-up of a battle
-- from two plans, base health and a seed, a tick's phases, and the reading of the zones.
pub record SessionRules (F S P R : Type 0) : Type 0 where
  pub parse_plan : R → Option P
  pub validate_plan : P → Bool
  pub resolve_loadout : P → List (LoadoutSpell F)
  pub default_plan : P
  pub create_runner : BySide P → BySide F → ℕ → BattleRunner F S
  pub phases : World F → World F × List (BattleEvent F)
  pub zone_states : World F → List ZoneState

-- The ids of the run, the Lobby's client and whether it has been told are left out: no operation
-- here reads them.
pub record MatchSession (F S P : Type 0) : Type 0 where
  pub policy : RoundPolicy
  pub round_rules : RoundRules F
  pub max_hp : BySide F
  pub seed : ℕ
  pub starting_energy : F
  pub seats : Dict Seat
  pub side_to_seat : BySide String
  pub phase : Phase
  pub round_number : ℕ
  pub rounds_won : BySide ℕ
  pub base_hp : BySide F
  pub round_state : RoundState F P
  pub round : Option (AuthoritativeRound F S)
  pub last_round_result : Option (RoundResult F)
  pub match_result : Option (MatchResult F)
  pub phase_ticks : ℕ
  pub ledger : CommandLedger
  pub recorder : RunRecorder F P

abbrev pub has : {A : Type 0} → Option A → Bool
has none = false
has (some _) = true

abbrev pub or_else : {A : Type 0} → A → Option A → A
or_else a none = a
or_else a (some b) = b

-- `for side in SIDES: if self.rounds_won[side] >= rounds_to_win`
abbrev pub series_winner : ℕ → BySide ℕ → Option Side
series_winner needed won =
    if leb needed won.at_north
    then some north
    else if leb needed won.at_south
    then some south
    else none

module _ {F S P : Type 0} where
  -- MatchSession.__init__ of a match with these seats; the run's recorder is new as well.
  abbrev pub new_session :
      RoundPolicy → RoundRules F → BySide F → ℕ → F → Dict Seat → BySide String → MatchSession F S P
  new_session policy round_rules max_hp seed starting_energy seats side_to_seat = record {
    policy = policy;
    round_rules = round_rules;
    max_hp = max_hp;
    seed = seed;
    starting_energy = starting_energy;
    seats = seats;
    side_to_seat = side_to_seat;
    phase = planning;
    round_number = 1;
    rounds_won = both λ _. 0;
    base_hp = max_hp;
    round_state = fresh_round;
    round = none;
    last_round_result = none;
    match_result = none;
    phase_ticks = 0;
    ledger = new_ledger max_entries_per_seat;
    recorder = Recorder.new_recorder;
  }

  -- fully_seated
  abbrev pub fully_seated : MatchSession F S P → Bool
  fully_seated s = all (λ entry. has entry.1.player_id) s.seats

  -- seat_for_side, side_for_seat, seat_for_player
  abbrev pub side_for_seat : MatchSession F S P → String → Option Side
  side_for_seat s seat_key = elim (lookup seat_key s.seats) [
    | none ↦ none
    | some seat ↦ some seat.side
  ]

  -- wire.base_hp of a world
  abbrev pub bases_of : MatchSession F S P → World F → BySide (BaseHp F)
  bases_of s w = both λ side. record { hp = (at side w.bases).hp; max_hp = at side s.max_hp }

  -- _bases_json
  abbrev pub bases_json : MatchSession F S P → BySide (BaseHp F)
  bases_json s = elim s.round [
    | some r ↦ bases_of s r.runner.world
    | none ↦ both λ side. record { hp = at side s.base_hp; max_hp = at side s.max_hp }
  ]

  -- _next_round
  unfoldable pub next_round : MatchSession F S P → MatchSession F S P
  next_round s = record s {
    round_number = s.round_number + 1;
    round_state = fresh_round;
    round = none;
    phase = planning;
    phase_ticks = 0;
  }

  -- _match_ending
  unfoldable pub match_ending : MatchSession F S P → RoundEnding → Option MatchEnding
  match_ending s (RoundEnding.base_destroyed winner) = some (match_base_destroyed winner)
  match_ending s (RoundEnding.round_complete winner reason) =
      if s.policy.test_profile
      then (if leb s.policy.rounds_to_win s.round_number
          then some (match_test_complete winner)
          else none)
      else elim (series_winner s.policy.rounds_to_win s.rounds_won) [
        | none ↦ none
        | some side ↦ some (match_rounds_won side)
      ]

-- The ending on the wire, and the winner that it names.
abbrev pub wire_ending : RoundEnding → WireRoundEnding
wire_ending (RoundEnding.base_destroyed winner) = WireRoundEnding.base_destroyed winner
wire_ending (RoundEnding.round_complete winner reason) =
    WireRoundEnding.round_complete winner reason

abbrev pub winner_of : RoundEnding → Option Side
winner_of (RoundEnding.base_destroyed winner) = winner
winner_of (RoundEnding.round_complete winner reason) = winner

-- `if ending.winner is not None: self.rounds_won[ending.winner] += 1`
abbrev pub count_win : Option Side → BySide ℕ → BySide ℕ
count_win none won = won
count_win (some side) won = put side (at side won + 1) won

-- _terminal_reason. The word of the match's ending where it is one of these two
-- kinds, else the reason of its last round, and the match's kind for a round without a reason.
abbrev pub terminal_reason : MatchEnding → RoundEnding → TerminalReason
terminal_reason (match_abandoned _) _ = was_abandoned
terminal_reason (match_base_destroyed _) _ = fell_base
terminal_reason (match_rounds_won _) (RoundEnding.round_complete _ reason) = round_reason reason
terminal_reason (match_rounds_won _) (RoundEnding.base_destroyed _) = won_rounds
terminal_reason (match_test_complete _) (RoundEnding.round_complete _ reason) = round_reason reason
terminal_reason (match_test_complete _) (RoundEnding.base_destroyed _) = played_test
