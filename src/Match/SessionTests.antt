-- ===== src/Match/SessionTests.antt =====
-- The session's and the ledger's theorems at concrete data: the demo, one round of a test profile,
-- from two plans to its report (api/app/match/session.py, commands.py).
use go_forth.Prelude.{ℕ, ◌≡◌, refl, true, false, none, some, [], ◌∷◌, String, arith, ltb}
use go_forth.Prelude.Dict.{lookup}
use go_forth.Prelude.Float.{int_float}
use go_forth.Prelude.Int.{ℤ, pos}
use go_forth.Match.Commands.{
  LedgerEntry, CommandLedger, new_ledger, find, record_entry, count_for, to_message,
}
use go_forth.Match.Commands.Answers.{
  IsBounded, record_all, record_entry-IsBounded, first_answer_stands,
}
use go_forth.Match.Recorder.{round_reason, match_finished}
use go_forth.Match.Round.{cast, step, is_stale, decide_ending}
use go_forth.Match.Session.{
  MatchSession, SessionRules, Seat, Attempt, done, raised, new_session, match_over,
}
use go_forth.Match.Session.Consistent.{IsConsistent}
use go_forth.Match.Session.Moves.{
  Reach, IsKept, locks, casts, ticks, abandons, stay, move, Reach-IsConsistent, Reach-IsKept,
}
use go_forth.Match.Session.Once.{cast_again}
use go_forth.Match.Session.Play
use go_forth.Match.Session.Recorded.{IsRecorded}
use go_forth.Match.Session.Runs.{Reach-IsRecorded}
use go_forth.Match.Session.Vetted.{IsVetted}
use go_forth.Match.Session.Fought.{Reach-IsVetted}
use go_forth.Match.Session.Report.{
  Report, cancelled, IsFairReport, result_report, winner_ids, report_of, result_report-IsFairReport,
}
use go_forth.Match.Session.Series.{series_of, IsOpen, Reach-IsOpen}
use go_forth.Match.Wire.{Message, match_test_complete, time_up}
use go_forth.Sim.Runner
use go_forth.Sim.Runner.{BattleRunner, finished, fallen_base, side_is_wiped_out}
use go_forth.Sim.Spells
use go_forth.Sim.Spells.{ok, err}
use go_forth.Sim.Types.{Side, north, south, both}
use go_forth.Sim.World.{is_alive}
use go_forth.Match.Samples.{runner, numbers, meteor, bases, idle, command, late}

abbrev seat : String → Side → String → Seat
seat seat_key side user = record {
  seat_key = seat_key;
  side = side;
  lobby_user_id = some user;
  player_id = some user;
  display_name = none;
  connected = true;
  departed = false;
  sockets_seen = 1;
}

-- A plan is a number below ten.
abbrev rules : SessionRules ℤ String ℕ ℕ
rules = record {
  parse_plan = λ n. some n;
  validate_plan = λ n. ltb n 10;
  resolve_loadout = λ n. meteor ∷ [];
  default_plan = 0;
  create_runner = λ plans hp seed. runner hp;
  phases = idle;
  zone_states = λ w. [];
}

-- The demo: a test profile of one round.
abbrev session0 : MatchSession ℤ String ℕ
session0 =
    new_session (record { rounds_to_win = 1; test_profile = true }) numbers bases 7 (pos 40)
      (("seat-1", seat "seat-1" north "ann") ∷ ("seat-2", seat "seat-2" south "bob") ∷ [])
      (record { at_north = "seat-1"; at_south = "seat-2" })

abbrev got : {A : Type 0} → A → Attempt A → A
got a (done b) = b
got a (raised e) = a

abbrev session1 : MatchSession ℤ String ℕ
session1 = got session0 (Play.lock_in rules session0 north 3)

abbrev session2 : MatchSession ℤ String ℕ
session2 = got session0 (Play.lock_in rules session1 south 4)

abbrev accepted : Message
accepted = record { accepted = true; command_id = "c1"; reason = none }

abbrev session3 : MatchSession ℤ String ℕ
session3 = (got (session0, accepted) (Play.cast session2 north command)).0

abbrev session4 : MatchSession ℤ String ℕ
session4 = (got (session0, false) (Play.tick rules session3)).0

abbrev session5 : MatchSession ℤ String ℕ
session5 = (got (session0, false) (Play.tick rules session4)).0

lock_in-session0 : Play.lock_in rules session0 north 3 ≡ done session1
unfolding Play.lock_in
lock_in-session0 = refl

lock_in-session1 : Play.lock_in rules session1 south 4 ≡ done session2
unfolding Play.lock_in Play.start_battle
lock_in-session1 = refl

cast-session2 : Play.cast session2 north command ≡ done (session3, accepted)
unfolding Play.lock_in Play.start_battle Play.cast find lookup cast is_stale Runner.inject
    Spells.inject to_message record_entry
cast-session2 = refl

tick-session3 : Play.tick rules session3 ≡ done (session4, true)
unfolding Play.lock_in Play.start_battle Play.cast Play.tick find lookup cast is_stale Runner.inject
    Spells.inject step decide_ending Runner.step finished fallen_base side_is_wiped_out is_alive
tick-session3 = refl

tick-session4 : Play.tick rules session4 ≡ done (session5, true)
unfolding Play.lock_in Play.start_battle Play.cast Play.tick find lookup cast is_stale Runner.inject
    Spells.inject step decide_ending Runner.step finished fallen_base side_is_wiped_out is_alive
tick-session4 = refl

session5-over : session5.phase ≡ match_over
unfolding Play.lock_in Play.start_battle Play.cast Play.tick find lookup cast is_stale Runner.inject
    Spells.inject step decide_ending Runner.step finished fallen_base side_is_wiped_out is_alive
session5-over = refl

session0-IsConsistent : IsConsistent session0
session0-IsConsistent = record {
  in_planning = λ p. (refl, refl);
  in_battle = λ p. cc;
  in_round_over = λ p. cc;
  in_match_over = λ p. cc;
  won = omega arith;
}

session0-IsOpen : IsOpen (series_of session0)
session0-IsOpen = record { series_open = λ t o. cc; test_open = λ t o. omega arith }

played : Reach rules session0 session5
played = move (locks north 3 lock_in-session0) (
    move (locks south 4 lock_in-session1) (
      move (casts north command accepted cast-session2)
        (move (ticks true tick-session3) (move (ticks true tick-session4) stay))))

Reach-IsConsistent_example : IsConsistent session5
Reach-IsConsistent_example = Reach-IsConsistent rules session0 session5 played session0-IsConsistent

Reach-IsOpen_example : IsOpen (series_of session5)
Reach-IsOpen_example = Reach-IsOpen rules session0 session5 played session0-IsOpen

cast_again_example : Play.cast session3 north late ≡ done (session3, accepted)
unfolding Play.lock_in
cast_again_example =
    cast_again session2 session3 north command late accepted (omega arith) cast-session2 refl

asked_again : Reach rules session5 (Play.abandon session5 none)
asked_again = move (abandons none refl) stay

Reach-IsKept_example : IsKept session5 (Play.abandon session5 none)
Reach-IsKept_example =
    Reach-IsKept rules session5 (Play.abandon session5 none) asked_again session5-over

fighting : Reach rules session0 session4
fighting = move (locks north 3 lock_in-session0) (
    move (locks south 4 lock_in-session1)
      (move (casts north command accepted cast-session2) (move (ticks true tick-session3) stay)))

session0-IsRecorded : IsRecorded session0
session0-IsRecorded = record { is_open = λ p. cc; same_casts = λ r p here. cc }

Reach-IsRecorded_example : IsRecorded session4
Reach-IsRecorded_example = Reach-IsRecorded rules session0 session4 fighting session0-IsRecorded

session0-IsVetted : IsVetted rules session0
session0-IsVetted = record { north_vetted = λ p e. cc; south_vetted = λ p e. cc; all_vetted = tt }

Reach-IsVetted_example : IsVetted rules session5
Reach-IsVetted_example = Reach-IsVetted rules session0 session5 refl played session0-IsVetted

abbrev report : Report ℤ
report = record {
  status = cancelled;
  winners = [];
  test_profile = true;
  rounds = 1;
  ending = match_test_complete (some north);
  terminal_reason = some (round_reason time_up);
  rounds_won = record { at_north = 1; at_south = 0 };
  base_hp = both λ _. record { hp = pos 10; max_hp = pos 10 };
  round_winner = some north;
}

result_report-session5 : result_report session5 ≡ done (some report)
unfolding Play.lock_in Play.start_battle Play.cast Play.tick find lookup cast is_stale Runner.inject
    Spells.inject step decide_ending Runner.step finished fallen_base side_is_wiped_out is_alive
    result_report winner_ids report_of Play.finish match_finished
result_report-session5 = refl

result_report-IsFairReport_example : IsFairReport session5 report
result_report-IsFairReport_example =
    result_report-IsFairReport session5 report result_report-session5

abbrev entry : LedgerEntry
entry = record {
  command_id = "c1";
  accepted = true;
  reason = none;
  round_number = some 1;
  tick = some 1;
  order = some 1;
}

abbrev fresh : CommandLedger
fresh = new_ledger 2

fresh-empty : find fresh north "c1" ≡ none
unfolding find lookup
fresh-empty = refl

first_answer_stands_example :
    find
      (record_all
        (record_entry fresh north entry).0
        ((north, record entry { command_id = "c2" }) ∷ []))
      north
      "c1"
    ≡ some entry
first_answer_stands_example =
    first_answer_stands fresh north entry ((north, record entry { command_id = "c2" }) ∷ [])
      fresh-empty (omega arith)

fresh-IsBounded : IsBounded fresh
unfolding count_for
fresh-IsBounded = record { north_fits = omega arith; south_fits = omega arith }

record_entry-IsBounded_example : IsBounded (record_entry fresh north entry).0
record_entry-IsBounded_example = record_entry-IsBounded fresh north entry fresh-IsBounded
