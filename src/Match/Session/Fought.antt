-- ===== src/Match/Session/Fought.antt =====
-- The validated plans of a session and of its record, over every operation (api/app/match/session.py).
use mathlib.Core.Path.{subst}
use go_forth.Prelude.{
  ◌+◌, ◌≡◌, refl, Bool, true, some, arith, All, Bool-cases, Option-cases, inl, inr,
}
use go_forth.Prelude.Float.{Float}
use go_forth.Match.Commands.{find}
use go_forth.Match.Recorder.{RecordedCast, cast_accepted}
use go_forth.Match.Round
use go_forth.Match.Round.{AuthoritativeRound, CastOutcome, RoundEnding}
use go_forth.Match.Session.{battle, done, SessionRules, MatchSession, next_round}
use go_forth.Match.Session.Consistent.{Phase-cases}
use go_forth.Match.Session.Moves.{Move, locks, casts, ticks, abandons, Reach, stay, move}
use go_forth.Match.Session.Play.{
  answer, take_outcome, cast_new, cast, finish, start_battle, tick_battle, tick,
}
use go_forth.Match.Session.Recorded.{cast_new-turned}
use go_forth.Match.Wire.{Message, CastCommand}
use go_forth.Sim.Spells.{Result-cases}
use go_forth.Sim.Types.{Side}
use go_forth.Match.Session.Vetted.{
  WasVetted, IsVetted, same-IsVetted, start_battle-IsVetted, lock_in-IsVetted, entry-vetted,
  finish-IsVetted, abandon-IsVetted,
}

module _ {F S P R : Type 0} ⦃f : Float F⦄ (rules : SessionRules F S P R) where
  take_outcome-IsVetted :
      (s s' : MatchSession F S P) (side : Side) (c : CastCommand F) (o : CastOutcome) (m : Message)
      → IsVetted rules s
      → take_outcome s side c o ≡ done (s', m)
      → IsVetted rules s'
  unfolding take_outcome answer
  take_outcome-IsVetted s s' side c o m h e = elim (Bool-cases o.accepted) [
    | inr no_ ↦
        let it : s.recorder.run.rounds ≡ s'.recorder.run.rounds = ground arith in
        same-IsVetted rules s s' h (ground arith) (subst (All (WasVetted rules)) it h.all_vetted)
    | inl yes_ ↦ elim (Option-cases o.tick) [
      | inl untimed ↦ absurd (ground arith)
      | inr (t, timed) ↦ elim (Option-cases o.order) [
        | inl unordered ↦ absurd (ground arith)
        | inr (n, ordered) ↦
            let entry : RecordedCast F = record {
              order = n;
              tick = t;
              side = side;
              command_id = c.command_id;
              spell_id = c.spell_id;
              at_x = c.location.x;
              at_y = c.location.y;
            } in
            let it : (cast_accepted s.recorder entry).run.rounds ≡ s'.recorder.run.rounds =
              ground arith in
            same-IsVetted rules s s' h (ground arith)
              (subst (All (WasVetted rules)) it (entry-vetted rules s.recorder entry h.all_vetted))
      ]
    ]
  ]

  with_round-IsVetted :
      (s : MatchSession F S P) (r : AuthoritativeRound F S)
      → IsVetted rules s
      → IsVetted rules (record s { round = some r })
  with_round-IsVetted s r h =
      same-IsVetted rules s (record s { round = some r }) h refl h.all_vetted

  cast_fighting-IsVetted :
      (s s' : MatchSession F S P) (side : Side) (c : CastCommand F) (m : Message)
      (r : AuthoritativeRound F S)
      → IsVetted rules s
      → s.round ≡ some r
      → s.phase ≡ battle
      → cast_new s side c ≡ done (s', m)
      → IsVetted rules s'
  unfolding cast_new
  cast_fighting-IsVetted s s' side c m r h there p e = elim (Result-cases (Round.cast r side c)) [
    | inr (x, refused) ↦ absurd (ground arith)
    | inl ((r', o), answered) ↦
        take_outcome-IsVetted (record s { round = some r' }) s' side c o m
          (with_round-IsVetted s r' h) (ground arith)
  ]

  cast-IsVetted :
      (s s' : MatchSession F S P) (side : Side) (c : CastCommand F) (m : Message)
      → IsVetted rules s
      → cast s side c ≡ done (s', m)
      → IsVetted rules s'
  unfolding cast
  cast-IsVetted s s' side c m h e = elim (Option-cases (find s.ledger side c.command_id)) [
    | inr (seen, known) ↦ let same : s ≡ s' = ground arith in subst (IsVetted rules) same h
    | inl new ↦ elim (cast_new-turned s s' side c m (ground arith)) [
      | inl (entry, it) ↦
          same-IsVetted rules s s' h (rw it (unfold answer in refl))
            (rw it (unfold answer in h.all_vetted))
      | inr (r, there, p) ↦ cast_fighting-IsVetted s s' side c m r h there p (ground arith)
    ]
  ]

  tick-IsVetted :
      (s s' : MatchSession F S P) (changed : Bool)
      → rules.validate_plan rules.default_plan ≡ true
      → IsVetted rules s
      → tick rules s ≡ done (s', changed)
      → IsVetted rules s'
  unfolding tick tick_battle next_round
  tick-IsVetted s s' changed default h e =
      let s1 = record s { phase_ticks = s.phase_ticks + 1 } in
      let h1 = same-IsVetted rules s s1 h refl h.all_vetted in
      elim (Phase-cases s.phase) [
        | inl p ↦ elim (Bool-cases changed) [
          | inl started ↦
              let it : start_battle rules s1 ≡ s' = ground arith in
              subst (IsVetted rules) it (start_battle-IsVetted rules s1 default h1)
          | inr waits ↦ let it : s1 ≡ s' = ground arith in subst (IsVetted rules) it h1
        ]
        | inr (inl p) ↦ elim (Option-cases s.round) [
          | inl missing ↦ absurd (ground arith)
          | inr (r, there) ↦
              let r' = (Round.step rules.phases r).0 in
              let t = record s1 { round = some r' } in
              elim (Option-cases r'.ending) [
                | inl goes_on ↦
                    let it : t ≡ s' = ground arith in
                    subst (IsVetted rules) it (with_round-IsVetted s1 r' h1)
                | inr (ending, over_) ↦
                    let it : finish rules.zone_states t r' ending ≡ s' = ground arith in
                    subst (IsVetted rules) it
                      (finish-IsVetted rules t r' ending (with_round-IsVetted s1 r' h1))
              ]
        ]
        | inr (inr (inl p)) ↦ elim (Bool-cases changed) [
          | inl opened ↦
              let it : next_round s1 ≡ s' = ground arith in
              subst (IsVetted rules) it (record {
                north_vetted = λ q k. cc;
                south_vetted = λ q k. cc;
                all_vetted = h.all_vetted;
              })
          | inr waits ↦ let it : s1 ≡ s' = ground arith in subst (IsVetted rules) it h1
        ]
        | inr (inr (inr p)) ↦ let it : s1 ≡ s' = ground arith in subst (IsVetted rules) it h1
      ]

  move-IsVetted :
      (s s' : MatchSession F S P)
      → rules.validate_plan rules.default_plan ≡ true
      → Move rules s s'
      → IsVetted rules s
      → IsVetted rules s'
  move-IsVetted s s' default (locks side raw e) h = lock_in-IsVetted rules s s' side raw default h e
  move-IsVetted s s' default (casts side c m e) h = cast-IsVetted s s' side c m h e
  move-IsVetted s s' default (ticks changed e) h = tick-IsVetted s s' changed default h e
  move-IsVetted s s' default (abandons winner e) h =
      subst (IsVetted rules) e (abandon-IsVetted rules s winner h)

  -- If the default plan passes the validation, then from a session whose plans have all passed it
  -- every session that is reached is such: the plans that the two seats have locked in or been
  -- given, and both plans of every round in the run record, have passed the validation.
  pub Reach-IsVetted :
      (s s' : MatchSession F S P)
      → rules.validate_plan rules.default_plan ≡ true
      → Reach rules s s'
      → IsVetted rules s
      → IsVetted rules s'
  Reach-IsVetted s s' default stay h = h
  Reach-IsVetted s s' default (move {t = t} m rest) h =
      Reach-IsVetted t s' default rest (move-IsVetted s t default m h)
