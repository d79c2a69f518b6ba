-- ===== src/Match/Session/Once.antt =====
-- The answers to a command that is sent again (api/app/match/session.py, commands.py).
use go_forth.Prelude.{
  ◌<◌, ◌≡◌, refl, true, none, some, [], arith, Option-cases, Bool-cases, inl, inr,
}
use go_forth.Prelude.Float.{Float}
use go_forth.Match.Commands.{CommandLedger, LedgerEntry, to_message, find, record_entry}
use go_forth.Match.Commands.Answers.{first_answer_stands, record_all}
use go_forth.Match.Round
use go_forth.Match.Round.{CastOutcome}
use go_forth.Match.Session.{MatchSession, done}
use go_forth.Match.Session.Play.{
  is_battle, answer, take_outcome, cast_new, cast, refusal, phase_rejection,
}
use go_forth.Match.Wire.{Message, CastCommand}
use go_forth.Sim.Spells.{Result-cases}
use go_forth.Sim.Types.{Side}

find-record_entry :
    (l : CommandLedger) (side : Side) (entry : LedgerEntry)
    → find l side entry.command_id ≡ none
    → 0 < l.max_entries
    → find (record_entry l side entry).0 side entry.command_id ≡ some entry
find-record_entry l side entry new fits =
    unfold record_all in first_answer_stands l side entry [] new fits

record_entry_new :
    (l : CommandLedger) (side : Side) (entry : LedgerEntry)
    → find l side entry.command_id ≡ none
    → (record_entry l side entry).1 ≡ entry
unfolding record_entry
record_entry_new l side entry new = ground arith

module _ {F S P : Type 0} ⦃f : Float F⦄ where
  take_outcome-answers :
      (s s' : MatchSession F S P) (side : Side) (c : CastCommand F) (o : CastOutcome) (m : Message)
      → take_outcome s side c o ≡ done (s', m)
      → (entry : LedgerEntry) × (entry.command_id ≡ c.command_id)
        × (s'.ledger ≡ (record_entry s.ledger side entry).0)
        × (m ≡ to_message (record_entry s.ledger side entry).1)
  unfolding take_outcome answer
  take_outcome-answers s s' side c o m e = elim (Bool-cases o.accepted) [
    | inr no_ ↦
        (refusal c.command_id o.rejection (some s.round_number), refl, ground arith, ground arith)
    | inl yes_ ↦ (
      record {
        command_id = c.command_id;
        accepted = true;
        reason = none;
        round_number = some s.round_number;
        tick = o.tick;
        order = o.order;
      },
      refl,
      ground arith,
      ground arith,
    )
  ]

  -- A new command is answered by one entry of the ledger, under its own id.
  cast_new-answers :
      (s s' : MatchSession F S P) (side : Side) (c : CastCommand F) (m : Message)
      → cast_new s side c ≡ done (s', m)
      → (entry : LedgerEntry) × (entry.command_id ≡ c.command_id)
        × (s'.ledger ≡ (record_entry s.ledger side entry).0)
        × (m ≡ to_message (record_entry s.ledger side entry).1)
  unfolding cast_new answer
  cast_new-answers s s' side c m e = elim (Bool-cases (is_battle s.phase)) [
    | inr elsewhere ↦ (
      refusal c.command_id (some (phase_rejection s.phase)) none,
      refl,
      ground arith,
      ground arith,
    )
    | inl fighting ↦ elim (Option-cases s.round) [
      | inl missing ↦ (
        refusal c.command_id (some (phase_rejection s.phase)) none,
        refl,
        ground arith,
        ground arith,
      )
      | inr (r, there) ↦ elim (Result-cases (Round.cast r side c)) [
        | inr (x, refused) ↦ absurd (ground arith)
        | inl ((r', o), answered) ↦
            take_outcome-answers (record s { round = some r' }) s' side c o m (ground arith)
      ]
    ]
  ]

  -- If a session whose ledger has room for an entry answers a cast, then any later cast of the same
  -- side under the same command id, sent to the session that this left, is given the same message
  -- and changes nothing.
  pub cast_again :
      (s s' : MatchSession F S P) (side : Side) (c again : CastCommand F) (m : Message)
      → 0 < s.ledger.max_entries
      → cast s side c ≡ done (s', m)
      → again.command_id ≡ c.command_id
      → cast s' side again ≡ done (s', m)
  unfolding cast
  cast_again s s' side c again m fits e same =
      elim (Option-cases (find s.ledger side c.command_id)) [
        | inr (seen, known) ↦ ground arith
        | inl new ↦
            let (entry, named, kept, told) = cast_new-answers s s' side c m (ground arith) in
            ground
              (arith, find-record_entry s.ledger side entry, record_entry_new s.ledger side entry)
      ]
