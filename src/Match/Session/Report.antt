-- ===== src/Match/Session/Report.antt =====
-- What the Lobby is told of a finished match: result_report of api/app/match/session.py.
use go_forth.Prelude.{
  ℕ, ◌≡◌, ◌≢◌, ◌⊎◌, ◌∙◌, ap, refl, Bool, true, false, Option, none, some, List, [], ◌∷◌, String,
  arith, not, str_eq, if◌then◌else◌, Option-cases, inl, inr,
}
use mathlib.Core.Path.{subst}
use go_forth.Prelude.Dict.{lookup}
use go_forth.Match.Recorder.{TerminalReason}
use go_forth.Match.Session.{
  match_over, MatchSession, Attempt, done, raised, no_seat, SessionError, Seat,
}
use go_forth.Match.Session.Play.{is_match_over}
use go_forth.Match.Wire.{
  MatchEnding, match_base_destroyed, match_rounds_won, match_test_complete, match_abandoned, BaseHp,
  MatchResult,
}
use go_forth.Sim.Types.{Side, BySide, at}

-- lobby/client.MatchResultStatus
pub data MatchResultStatus : Type 0 where
  abandoned cancelled completed : MatchResultStatus

-- The status, the winners' Lobby ids, and the metadata that the session's own state decides.
pub record Report (F : Type 0) : Type 0 where
  pub status : MatchResultStatus
  pub winners : List String
  pub test_profile : Bool
  pub rounds : ℕ
  pub ending : MatchEnding
  pub terminal_reason : Option TerminalReason
  pub rounds_won : BySide ℕ
  pub base_hp : BySide (BaseHp F)
  pub round_winner : Option Side

-- `ending.get("winner") or ending.get("roundWinner")`
abbrev pub ending_winner : MatchEnding → Option Side
ending_winner (match_base_destroyed winner) = winner
ending_winner (match_rounds_won winner) = some winner
ending_winner (match_test_complete winner) = winner
ending_winner (match_abandoned winner) = winner

abbrev pub is_abandoned : MatchEnding → Bool
is_abandoned (match_abandoned _) = true
is_abandoned _ = false

Attempt-cases :
    {A : Type 0} (t : Attempt A) → ((a : A) × (t ≡ done a)) ⊎ ((e : SessionError) × (t ≡ raised e))
Attempt-cases (done a) = inl (a, refl)
Attempt-cases (raised e) = inr (e, refl)

module _ {F S P : Type 0} where
  -- The winning seat's Lobby id, if there is a winner and its seat has one.
  unfoldable pub winner_ids : MatchSession F S P → Option Side → Attempt (List String)
  winner_ids s none = done []
  winner_ids s (some side) = elim (lookup (at side s.side_to_seat) s.seats) [
    | none ↦ raised no_seat
    | some seat ↦ elim seat.lobby_user_id [
      | none ↦ done []
      | some id ↦ done (if str_eq id "" then [] else id ∷ [])
    ]
  ]

  abbrev report_with :
      MatchSession F S P → MatchResult F → MatchResultStatus → List String → Option Side → Report F
  report_with s result status winners round_winner = record {
    status = status;
    winners = winners;
    test_profile = s.policy.test_profile;
    rounds = s.round_number;
    ending = result.ending;
    terminal_reason = s.recorder.run.terminal_reason;
    rounds_won = s.rounds_won;
    base_hp = result.bases;
    round_winner = round_winner;
  }

  -- How a finished match is reported, once its winners' ids are known.
  unfoldable pub report_of : MatchSession F S P → MatchResult F → List String → Report F
  report_of s result winners =
      if is_abandoned result.ending
      then report_with s result abandoned winners none
      else if s.policy.test_profile
      then report_with s result cancelled [] (ending_winner result.ending)
      else report_with s result completed winners none

  -- result_report
  unfoldable pub result_report : MatchSession F S P → Attempt (Option (Report F))
  unfolding report_of
  result_report s = if not (is_match_over s.phase) then done none else elim s.match_result [
    | none ↦ done none
    | some result ↦ elim (winner_ids s (ending_winner result.ending)) [
      | raised e ↦ raised e
      | done ids ↦ done (some (report_of s result ids))
    ]
  ]

  -- What a report may claim of a session.
  pub record IsFairReport (s : MatchSession F S P) (r : Report F) : Type 0 where
    pub only_at_end : s.phase ≡ match_over
    pub no_series_by_a_test : s.policy.test_profile ≡ true → r.status ≢ completed
    pub no_winner_of_a_test : r.status ≡ cancelled → r.winners ≡ []
    pub abandoned_only : r.status ≡ abandoned → is_abandoned r.ending ≡ true
    pub abandoned_always : is_abandoned r.ending ≡ true → r.status ≡ abandoned
    pub winner_won :
        (id : String)
        → r.winners ≡ id ∷ []
        → (side : Side) × (seat : Seat) × (ending_winner r.ending ≡ some side)
          × (lookup (at side s.side_to_seat) s.seats ≡ some seat)
          × (seat.lobby_user_id ≡ some id)

  winner_ids-found :
      (s : MatchSession F S P) (winner : Option Side) (id : String)
      → winner_ids s winner ≡ done (id ∷ [])
      → (side : Side) × (seat : Seat) × (winner ≡ some side)
        × (lookup (at side s.side_to_seat) s.seats ≡ some seat)
        × (seat.lobby_user_id ≡ some id)
  unfolding winner_ids
  winner_ids-found s none id h = absurd (ground arith)
  winner_ids-found s (some side) id h =
      elim (Option-cases (lookup (at side s.side_to_seat) s.seats)) [
        | inl missing ↦ absurd (ground arith)
        | inr (seat, found) ↦ elim (Option-cases seat.lobby_user_id) [
          | inl nameless ↦ absurd (ground arith)
          | inr (user, named) ↦ (side, seat, refl, found, ground arith)
        ]
      ]

  report_of-IsFairReport :
      (s : MatchSession F S P) (result : MatchResult F) (ids : List String)
      → s.phase ≡ match_over
      → winner_ids s (ending_winner result.ending) ≡ done ids
      → IsFairReport s (report_of s result ids)
  unfolding report_of
  report_of-IsFairReport s result ids p e = record {
    only_at_end = p;
    no_series_by_a_test = λ t. ground arith;
    no_winner_of_a_test = λ t. ground arith;
    abandoned_only = λ t. ground arith;
    abandoned_always = λ t. ground arith;
    winner_won = λ id k.
        let its : ending_winner (report_of s result ids).ending ≡ ending_winner result.ending =
          ground arith in
        let known : ids ≡ id ∷ [] = ground arith in
        rw its (winner_ids-found s (ending_winner result.ending) id (e ∙ ap done known));
  }

  -- A report to the Lobby is made of a finished match only; a test profile is never reported as
  -- completed, a cancelled match names no winner, the status is abandoned exactly when the ending
  -- is, and a single winner that is named is the Lobby user of the seat of the side that the ending
  -- names.
  pub result_report-IsFairReport :
      (s : MatchSession F S P) (r : Report F) → result_report s ≡ done (some r) → IsFairReport s r
  unfolding result_report
  result_report-IsFairReport s r e = elim (Option-cases s.match_result) [
    | inl missing ↦ absurd (ground arith)
    | inr (result, there) ↦ elim (Attempt-cases (winner_ids s (ending_winner result.ending))) [
      | inr (x, failed) ↦ absurd (ground arith)
      | inl (ids, known) ↦
          let it : report_of s result ids ≡ r = ground arith in
          subst (IsFairReport s) it (report_of-IsFairReport s result ids (ground arith) known)
    ]
  ]
