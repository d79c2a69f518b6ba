-- ===== src/Match/Session/Recorded.antt =====
-- Whether the record of a running battle carries the casts of its round, and what a cast does to
-- that (api/app/match/session.py, run_record.py).
use mathlib.Core.Path.{subst}
use go_forth.Prelude.{
  ℕ, ◌+◌, ◌≡◌, refl, true, false, Option, none, some, List, [], ◌∷◌, ◌++◌, String, arith, sym, ap,
  map, Bool-cases, Option-cases, inl, inr, ◌⊎◌,
}
use go_forth.Prelude.Float.{Float}
use go_forth.Match.Commands.{LedgerEntry, find}
use go_forth.Match.Recorder
use go_forth.Match.Recorder.{RecordedCast, RecordedRound, RunRecorder, on_last}
use go_forth.Match.Round
use go_forth.Match.Round.{AuthoritativeRound, CastOutcome, RoundEnding, resolved_cast}
use go_forth.Match.Round.Books.{first_id}
use go_forth.Match.Round.Cast.{IsLegal, IsCharged, cast_refused, cast-IsCharged}
use go_forth.Match.Session.{battle, done, MatchSession}
use go_forth.Match.Session.Play.{
  is_battle, phase_rejection, refusal, answer, take_outcome, cast_new, cast,
}
use go_forth.Match.Wire.{ResolvedCast, Message, CastCommand, LoadoutSpell}
use go_forth.Sim.Spells.{Result-cases}
use go_forth.Sim.Types.{Side, at}

module _ {F : Type 0} where
  -- The entry that the record has for a cast of the round.
  abbrev pub recorded : ResolvedCast F → RecordedCast F
  recorded c = record {
    order = c.order;
    tick = c.tick;
    side = c.cast_by;
    command_id = c.command_id;
    spell_id = c.spell_id;
    at_x = c.location.x;
    at_y = c.location.y;
  }

  map-snoc :
      (cs : List (ResolvedCast F)) (c : ResolvedCast F)
      → map recorded (cs ++ c ∷ []) ≡ map recorded cs ++ recorded c ∷ []
  map-snoc [] c = refl
  map-snoc (d ∷ cs) c = ap (λ l. recorded d ∷ l) (map-snoc cs c)

module _ {F P : Type 0} where
  -- The casts of the last round of a record.
  abbrev pub last_casts : List (RecordedRound F P) → Option (List (RecordedCast F))
  last_casts [] = none
  last_casts (e ∷ []) = some e.casts
  last_casts (e ∷ d ∷ es) = last_casts (d ∷ es)

  pub last_casts-snoc :
      (es : List (RecordedRound F P)) (e : RecordedRound F P)
      → last_casts (es ++ e ∷ []) ≡ some e.casts
  last_casts-snoc [] e = refl
  last_casts-snoc (d ∷ []) e = refl
  last_casts-snoc (d ∷ d' ∷ es) e = last_casts-snoc (d' ∷ es) e

  last_casts-on_last :
      (es : List (RecordedRound F P)) (c : RecordedCast F) (cs : List (RecordedCast F))
      → last_casts es ≡ some cs
      → last_casts (on_last (λ e. record e { casts = e.casts ++ c ∷ [] }) es) ≡ some (cs ++ c ∷ [])
  last_casts-on_last [] c cs h = cc
  last_casts-on_last (e ∷ []) c cs h = ground arith
  last_casts-on_last (e ∷ d ∷ []) c cs h = last_casts-on_last (d ∷ []) c cs h
  last_casts-on_last (e ∷ d ∷ d' ∷ es) c cs h = last_casts-on_last (d ∷ d' ∷ es) c cs h

  recorder-grows :
      (b : RunRecorder F P) (entry : RecordedCast F) (cs : List (RecordedCast F))
      → b.is_open ≡ true
      → last_casts b.run.rounds ≡ some cs
      → ((Recorder.cast_accepted b entry).is_open ≡ true)
        × (last_casts (Recorder.cast_accepted b entry).run.rounds ≡ some (cs ++ entry ∷ []))
  unfolding Recorder.cast_accepted
  recorder-grows b entry cs open_ last_ =
      (ground arith, ground (arith, last_casts-on_last b.run.rounds entry cs last_))

-- In a battle the recorder is open, and its last round has the casts of the round, in order.
pub record IsRecorded {F S P : Type 0} (s : MatchSession F S P) : Type 0 where
  pub is_open : s.phase ≡ battle → s.recorder.is_open ≡ true
  pub same_casts :
      (r : AuthoritativeRound F S)
      → s.phase ≡ battle
      → s.round ≡ some r
      → last_casts s.recorder.run.rounds ≡ some (map recorded r.casts)

module _ {F S P : Type 0} ⦃f : Float F⦄ where
  take_refused-IsRecorded :
      (s s' : MatchSession F S P) (side : Side) (c : CastCommand F) (o : CastOutcome) (m : Message)
      → IsRecorded s
      → o.accepted ≡ false
      → take_outcome s side c o ≡ done (s', m)
      → IsRecorded s'
  unfolding take_outcome answer
  take_refused-IsRecorded s s' side c o m h no_ e = record {
    is_open = λ p. ground (arith, h.is_open);
    same_casts = λ r p there. ground (arith, h.same_casts r);
  }

  taken-entry :
      (s s' : MatchSession F S P) (side : Side) (c : CastCommand F) (o : CastOutcome) (m : Message)
      (t n : ℕ)
      → o.accepted ≡ true
      → o.tick ≡ some t
      → o.order ≡ some n
      → take_outcome s side c o ≡ done (s', m)
      → (s'.recorder
          ≡ Recorder.cast_accepted s.recorder (record {
            order = n;
            tick = t;
            side = side;
            command_id = c.command_id;
            spell_id = c.spell_id;
            at_x = c.location.x;
            at_y = c.location.y;
          }))
        × (s'.round ≡ s.round)
  unfolding take_outcome answer
  taken-entry s s' side c o m t n yes_ et en e = (ground arith, ground arith)

  take_accepted-IsRecorded :
      (s s' : MatchSession F S P) (side : Side) (c : CastCommand F) (o : CastOutcome) (m : Message)
      (r r' : AuthoritativeRound F S) (spell : LoadoutSpell F)
      → IsRecorded s
      → s.phase ≡ battle
      → s.round ≡ some r
      → o.accepted ≡ true
      → IsLegal r side c spell
      → IsCharged r side c spell r' o
      → take_outcome (record s { round = some r' }) side c o ≡ done (s', m)
      → IsRecorded s'
  take_accepted-IsRecorded s s' side c o m r r' spell h p there yes_ l t e =
      let entry : RecordedCast F = record {
        order = r.next_order;
        tick = r.runner.world.tick + 1;
        side = side;
        command_id = c.command_id;
        spell_id = c.spell_id;
        at_x = c.location.x;
        at_y = c.location.y;
      } in
      let (kept, rounds) =
        taken-entry (record s { round = some r' }) s' side c o m (r.runner.world.tick + 1)
          r.next_order yes_ t.scheduled t.ordered e in
      let (open_, last_) =
        recorder-grows s.recorder entry (map recorded r.casts) (h.is_open p)
          (h.same_casts r p there) in
      let same_id = first_id (at side r.loadouts) c.spell_id spell l.was_equipped in
      let it : recorded (resolved_cast r side c spell) ≡ entry =
        ap (λ (id : String). record entry { spell_id = id }) same_id in
      record {
        is_open = λ q. rw kept open_;
        same_casts = λ r'' q here.
            let same : r' ≡ r'' = ground (arith, rounds, here) in
            subst (λ x. last_casts s'.recorder.run.rounds ≡ some (map recorded x.casts)) same
              (rw (kept, t.remembered)
                (rw (map-snoc r.casts (resolved_cast r side c spell)) (rw it last_)));
      }

  answer-IsRecorded :
      (s : MatchSession F S P) (side : Side) (entry : LedgerEntry)
      → IsRecorded s
      → IsRecorded (answer s side entry).0
  unfolding answer
  answer-IsRecorded s side entry h = record { is_open = h.is_open; same_casts = h.same_casts }

  pub with_same-IsRecorded :
      (s : MatchSession F S P) (r r' : AuthoritativeRound F S)
      → IsRecorded s
      → s.round ≡ some r
      → r'.casts ≡ r.casts
      → IsRecorded (record s { round = some r' })
  with_same-IsRecorded s r r' h there same = record {
    is_open = h.is_open;
    same_casts = λ r'' p here.
        let it : r' ≡ r'' = ground (arith, here) in
        subst (λ x. last_casts s.recorder.run.rounds ≡ some (map recorded x.casts)) it
          (rw same (h.same_casts r p there));
  }

  cast_fighting-IsRecorded :
      (s s' : MatchSession F S P) (side : Side) (c : CastCommand F) (m : Message)
      (r : AuthoritativeRound F S)
      → IsRecorded s
      → s.round ≡ some r
      → s.phase ≡ battle
      → cast_new s side c ≡ done (s', m)
      → IsRecorded s'
  unfolding cast_new
  cast_fighting-IsRecorded s s' side c m r h there p e = elim (Result-cases (Round.cast r side c)) [
    | inr (x, refused) ↦ absurd (ground arith)
    | inl ((r', o), answered) ↦
        let told : take_outcome (record s { round = some r' }) side c o ≡ done (s', m) =
          ground arith in
        elim (Bool-cases o.accepted) [
          | inl yes_ ↦
              let (spell, legal, charged) = cast-IsCharged r r' side c o answered yes_ in
              take_accepted-IsRecorded s s' side c o m r r' spell h p there yes_ legal charged told
          | inr no_ ↦
              take_refused-IsRecorded (record s { round = some r' }) s' side c o m
                (with_same-IsRecorded s r r' h there (
                  ap (λ (x : AuthoritativeRound F S). x.casts)
                    (cast_refused r r' side c o answered no_)))
                no_ told
        ]
  ]

  -- Outside of a battle, a cast changes the ledger alone.
  pub cast_new-turned :
      (s s' : MatchSession F S P) (side : Side) (c : CastCommand F) (m : Message)
      → cast_new s side c ≡ done (s', m)
      → ((entry : LedgerEntry) × (s' ≡ (answer s side entry).0))
        ⊎ ((r : AuthoritativeRound F S) × (s.round ≡ some r) × (s.phase ≡ battle))
  unfolding cast_new
  cast_new-turned s s' side c m e = elim (Bool-cases (is_battle s.phase)) [
    | inr elsewhere ↦ inl (refusal c.command_id (some (phase_rejection s.phase)) none, ground arith)
    | inl fighting ↦ elim (Option-cases s.round) [
      | inl missing ↦ inl (refusal c.command_id (some (phase_rejection s.phase)) none, ground arith)
      | inr (r, there) ↦ inr (r, there, ground arith)
    ]
  ]

  -- A cast that is answered keeps the record complete.
  pub cast-IsRecorded :
      (s s' : MatchSession F S P) (side : Side) (c : CastCommand F) (m : Message)
      → IsRecorded s
      → cast s side c ≡ done (s', m)
      → IsRecorded s'
  unfolding cast
  cast-IsRecorded s s' side c m h e = elim (Option-cases (find s.ledger side c.command_id)) [
    | inr (seen, known) ↦ let same : s ≡ s' = ground arith in subst IsRecorded same h
    | inl new ↦
        let fresh : cast_new s side c ≡ done (s', m) = ground arith in
        elim (cast_new-turned s s' side c m fresh) [
          | inl (entry, it) ↦ subst IsRecorded (sym it) (answer-IsRecorded s side entry h)
          | inr (r, there, p) ↦ cast_fighting-IsRecorded s s' side c m r h there p fresh
        ]
  ]
