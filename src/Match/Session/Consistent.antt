-- ===== src/Match/Session/Consistent.antt =====
-- What a consistent session is, and the operations that need no rules (api/app/match/session.py).
use go_forth.Prelude.{
  ℕ, ◌+◌, ◌≤◌, ◌≡◌, ◌⊎◌, refl, Bool, true, false, Option, none, some, List, arith, not, sym,
  Bool-cases, Option-cases, inl, inr,
}
use go_forth.Prelude.Float.{Float}
use mathlib.Core.Path.{subst}
use go_forth.Match.Commands.{LedgerEntry, find}
use go_forth.Match.Round
use go_forth.Match.Round.{AuthoritativeRound, CastOutcome, RoundEnding, over}
use go_forth.Match.Round.Cast.{cast_refused, cast-IsCharged}
use go_forth.Match.Session.{
  Phase, planning, battle, round_over, match_over, done, MatchSession, has,
}
use go_forth.Match.Session.Play.{
  is_battle, phase_rejection, refusal, answer, take_outcome, cast_new, cast, finish, abandon,
}
use go_forth.Match.Wire.{Message, CastCommand, ZoneState}
use go_forth.Sim.Spells.{ok, Result-cases}
use go_forth.Sim.Types.{Side}
use go_forth.Sim.World.{World}

-- A round that is there and has no ending.
abbrev pub going : {F S : Type 0} → Option (AuthoritativeRound F S) → Bool
going none = false
going (some r) = not (over r)

pub Phase-cases :
    (p : Phase) → (p ≡ planning) ⊎ ((p ≡ battle) ⊎ ((p ≡ round_over) ⊎ (p ≡ match_over)))
Phase-cases planning = inl refl
Phase-cases battle = inr (inl refl)
Phase-cases round_over = inr (inr (inl refl))
Phase-cases match_over = inr (inr (inr refl))

-- The rounds of the match that have not been decided yet, of the `round_number` that were begun.
abbrev pub undecided : Phase → ℕ
undecided planning = 1
undecided battle = 1
undecided round_over = 0
undecided match_over = 0

-- What the phase says of the rest of the session: a battle has a round that goes on, a plan screen
-- has none, a finished round has its result, exactly a finished match has its own, and no more
-- rounds are won than are decided.
pub record IsConsistent {F S P : Type 0} (s : MatchSession F S P) : Type 0 where
  pub in_planning : s.phase ≡ planning → (has s.round ≡ false) × (has s.match_result ≡ false)
  pub in_battle : s.phase ≡ battle → (going s.round ≡ true) × (has s.match_result ≡ false)
  pub in_round_over :
      s.phase ≡ round_over → (has s.last_round_result ≡ true) × (has s.match_result ≡ false)
  pub in_match_over : s.phase ≡ match_over → has s.match_result ≡ true
  pub won : s.rounds_won.at_north + s.rounds_won.at_south + undecided s.phase ≤ s.round_number

ending-cast :
    {F S : Type 0} ⦃f : Float F⦄ (r r' : AuthoritativeRound F S) (side : Side) (c : CastCommand F)
    (o : CastOutcome)
    → Round.cast r side c ≡ ok (r', o)
    → r'.ending ≡ r.ending
ending-cast r r' side c o h = elim (Bool-cases o.accepted) [
  | inl yes_ ↦
      let (spell, legal, charged) = cast-IsCharged r r' side c o h yes_ in charged.ending_kept
  | inr no_ ↦ rw (cast_refused r r' side c o h no_) refl
]

answer-IsConsistent :
    {F S P : Type 0} (s : MatchSession F S P) (side : Side) (entry : LedgerEntry)
    → IsConsistent s
    → IsConsistent (answer s side entry).0
unfolding answer
answer-IsConsistent s side entry h = record {
  in_planning = h.in_planning;
  in_battle = h.in_battle;
  in_round_over = h.in_round_over;
  in_match_over = h.in_match_over;
  won = h.won;
}

pub with_round-IsConsistent :
    {F S P : Type 0} (s : MatchSession F S P) (r : AuthoritativeRound F S)
    → IsConsistent s
    → s.phase ≡ battle
    → r.ending ≡ none
    → IsConsistent (record s { round = some r })
with_round-IsConsistent s r h p e = record {
  in_planning = λ q. ground (arith);
  in_battle = λ q. ground (arith, h.in_battle p);
  in_round_over = λ q. ground (arith);
  in_match_over = λ q. ground (arith);
  won = h.won;
}

pub waiting-IsConsistent :
    {F S P : Type 0} (s : MatchSession F S P)
    → IsConsistent s
    → IsConsistent (record s { phase_ticks = s.phase_ticks + 1 })
waiting-IsConsistent s h = record {
  in_planning = h.in_planning;
  in_battle = h.in_battle;
  in_round_over = h.in_round_over;
  in_match_over = h.in_match_over;
  won = h.won;
}

module _ {F S P : Type 0} ⦃f : Float F⦄ where
  take_outcome-IsConsistent :
      (s s' : MatchSession F S P) (side : Side) (c : CastCommand F) (o : CastOutcome) (m : Message)
      → IsConsistent s
      → take_outcome s side c o ≡ done (s', m)
      → IsConsistent s'
  unfolding take_outcome answer
  take_outcome-IsConsistent s s' side c o m h e = record {
    in_planning = λ p. ground (arith, h.in_planning);
    in_battle = λ p. ground (arith, h.in_battle);
    in_round_over = λ p. ground (arith, h.in_round_over);
    in_match_over = λ p. ground (arith, h.in_match_over);
    won = ground (arith, h.won);
  }

  cast_new-IsConsistent :
      (s s' : MatchSession F S P) (side : Side) (c : CastCommand F) (m : Message)
      (r : AuthoritativeRound F S)
      → IsConsistent s
      → s.round ≡ some r
      → s.phase ≡ battle
      → cast_new s side c ≡ done (s', m)
      → IsConsistent s'
  unfolding cast_new
  cast_new-IsConsistent s s' side c m r h there p e = elim (Result-cases (Round.cast r side c)) [
    | inr (x, refused) ↦ absurd (ground arith)
    | inl ((r', o), answered) ↦
        take_outcome-IsConsistent (record s { round = some r' }) s' side c o m
          (with_round-IsConsistent s r' h p
            (ground (arith, ending-cast r r' side c o answered, h.in_battle p)))
          (ground arith)
  ]

  cast_elsewhere :
      (s s' : MatchSession F S P) (side : Side) (c : CastCommand F) (m : Message)
      → is_battle s.phase ≡ false
      → cast_new s side c ≡ done (s', m)
      → (entry : LedgerEntry) × (s' ≡ (answer s side entry).0)
  unfolding cast_new
  cast_elsewhere s s' side c m p e =
      (refusal c.command_id (some (phase_rejection s.phase)) none, ground arith)

  pub cast-IsConsistent :
      (s s' : MatchSession F S P) (side : Side) (c : CastCommand F) (m : Message)
      → IsConsistent s
      → cast s side c ≡ done (s', m)
      → IsConsistent s'
  unfolding cast
  cast-IsConsistent s s' side c m h e = elim (Option-cases (find s.ledger side c.command_id)) [
    | inr (seen, known) ↦ let same : s ≡ s' = ground arith in subst IsConsistent same h
    | inl new ↦
        let fresh : cast_new s side c ≡ done (s', m) = ground arith in
        elim (Bool-cases (is_battle s.phase)) [
          | inr elsewhere ↦
              let (entry, it) = cast_elsewhere s s' side c m elsewhere fresh in
              subst IsConsistent (sym it) (answer-IsConsistent s side entry h)
          | inl fighting ↦
              let p : s.phase ≡ battle = ground arith in
              elim (Option-cases s.round) [
                | inl missing ↦ absurd (ground (arith, h.in_battle p))
                | inr (r, there) ↦ cast_new-IsConsistent s s' side c m r h there p fresh
              ]
        ]
  ]

  pub finish-IsConsistent :
      (zone_states : World F → List ZoneState) (s : MatchSession F S P) (r : AuthoritativeRound F S)
      (ending : RoundEnding)
      → IsConsistent s
      → s.phase ≡ battle
      → IsConsistent (finish zone_states (record s { round = some r }) r ending)
  unfolding finish
  finish-IsConsistent zone_states s r ending h e = record {
    in_planning = λ p. ground arith;
    in_battle = λ p. ground arith;
    in_round_over = λ p. ground (arith, h.in_battle);
    in_match_over = λ p. ground arith;
    won = ground (arith, h.won);
  }

  pub abandon-IsConsistent :
      (s : MatchSession F S P) (winner : Option Side)
      → IsConsistent s
      → IsConsistent (abandon s winner)
  unfolding abandon
  abandon-IsConsistent s winner h = record {
    in_planning = λ p. ground (arith, h.in_planning);
    in_battle = λ p. ground (arith, h.in_battle);
    in_round_over = λ p. ground (arith, h.in_round_over);
    in_match_over = λ p. ground (arith, h.in_match_over);
    won = ground (arith, h.won);
  }
