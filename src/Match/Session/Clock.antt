-- ===== src/Match/Session/Clock.antt =====
-- The consistency of a session over locking in a plan and a tick of the clock (api/app/match/session.py).
use go_forth.Prelude.{
  ◌+◌, ◌≡◌, ◌≢◌, ◌⊎◌, Bool, true, none, some, arith, sym, Bool-cases, Option-cases, inl, inr,
}
use go_forth.Prelude.Float.{Float}
use mathlib.Core.Path.{subst}
use go_forth.Match.Round
use go_forth.Match.Round.{AuthoritativeRound, CastOutcome, RoundEnding, over}
use go_forth.Match.Session.{
  planning, battle, round_over, done, SessionRules, MatchSession, next_round,
}
use go_forth.Match.Session.Play.{finish, start_battle, lock_in, tick_battle, tick}
use go_forth.Sim.Types.{Side, put}
use go_forth.Match.Session.Consistent.{
  IsConsistent, Phase-cases, with_round-IsConsistent, waiting-IsConsistent, finish-IsConsistent,
}

module _ {F S P R : Type 0} ⦃f : Float F⦄ (rules : SessionRules F S P R) where
  start_battle-IsConsistent :
      (s : MatchSession F S P)
      → IsConsistent s
      → s.phase ≡ planning
      → IsConsistent (start_battle rules s)
  unfolding start_battle
  start_battle-IsConsistent s h e = record {
    in_planning = λ p. ground arith;
    in_battle = λ p. ground (arith, h.in_planning e);
    in_round_over = λ p. ground arith;
    in_match_over = λ p. ground arith;
    won = ground (arith, h.won);
  }

  locked_in : MatchSession F S P → Side → P → MatchSession F S P
  locked_in s side plan = record s {
    round_state = record {
      plans = put side (some plan) s.round_state.plans;
      loadouts = put side (some (rules.resolve_loadout plan)) s.round_state.loadouts;
      locked = put side true s.round_state.locked;
    };
  }

  locked_in-IsConsistent :
      (s : MatchSession F S P) (side : Side) (plan : P)
      → IsConsistent s
      → IsConsistent (locked_in s side plan)
  unfolding locked_in
  locked_in-IsConsistent s side plan h = record {
    in_planning = h.in_planning;
    in_battle = h.in_battle;
    in_round_over = h.in_round_over;
    in_match_over = h.in_match_over;
    won = h.won;
  }

  lock_in-taken :
      (s s' : MatchSession F S P) (side : Side) (raw : R) (plan : P)
      → rules.parse_plan raw ≡ some plan
      → lock_in rules s side raw ≡ done s'
      → (s.phase ≡ planning)
        × ((s' ≡ locked_in s side plan) ⊎ (s' ≡ start_battle rules (locked_in s side plan)))
  unfolding lock_in locked_in
  lock_in-taken s s' side raw plan parsed e = ground arith

  lock_in-unparsed :
      (s s' : MatchSession F S P) (side : Side) (raw : R)
      → rules.parse_plan raw ≡ none
      → lock_in rules s side raw ≢ done s'
  unfolding lock_in
  lock_in-unparsed s s' side raw unparsed e = ground arith

  pub lock_in-IsConsistent :
      (s s' : MatchSession F S P) (side : Side) (raw : R)
      → IsConsistent s
      → lock_in rules s side raw ≡ done s'
      → IsConsistent s'
  lock_in-IsConsistent s s' side raw h e = elim (Option-cases (rules.parse_plan raw)) [
    | inl unparsed ↦ absurd (lock_in-unparsed s s' side raw unparsed e)
    | inr (plan, parsed) ↦
        let (p, taken) = lock_in-taken s s' side raw plan parsed e in
        let kept = locked_in-IsConsistent s side plan h in
        elim taken [
          | inl waits ↦ subst IsConsistent (sym waits) kept
          | inr starts ↦
              subst IsConsistent (sym starts)
                (start_battle-IsConsistent (locked_in s side plan) kept (unfold locked_in in p))
        ]
  ]

  tick_battle-IsConsistent :
      (s s' : MatchSession F S P) (changed : Bool)
      → IsConsistent s
      → s.phase ≡ battle
      → tick_battle rules s ≡ done (s', changed)
      → IsConsistent s'
  unfolding tick_battle
  tick_battle-IsConsistent s s' changed h p e = elim (Option-cases s.round) [
    | inl missing ↦ absurd (ground (arith, h.in_battle p))
    | inr (r, there) ↦
        let r' = (Round.step rules.phases r).0 in
        elim (Option-cases r'.ending) [
          | inl goes_on ↦
              let it : record s { round = some r' } ≡ s' = ground arith in
              subst IsConsistent it (with_round-IsConsistent s r' h p goes_on)
          | inr (ending, over_) ↦
              let it : finish rules.zone_states (record s { round = some r' }) r' ending ≡ s' =
                ground arith in
              subst IsConsistent it (finish-IsConsistent rules.zone_states s r' ending h p)
        ]
  ]

  next_round-IsConsistent :
      (s : MatchSession F S P) → IsConsistent s → s.phase ≡ round_over → IsConsistent (next_round s)
  unfolding next_round
  next_round-IsConsistent s h p = record {
    in_planning = λ q. ground (arith, h.in_round_over p);
    in_battle = λ q. ground arith;
    in_round_over = λ q. ground arith;
    in_match_over = λ q. ground arith;
    won = ground (arith, h.won);
  }

  pub tick-IsConsistent :
      (s s' : MatchSession F S P) (changed : Bool)
      → IsConsistent s
      → tick rules s ≡ done (s', changed)
      → IsConsistent s'
  unfolding tick
  tick-IsConsistent s s' changed h e =
      let s1 = record s { phase_ticks = s.phase_ticks + 1 } in
      let h1 = waiting-IsConsistent s h in
      elim (Phase-cases s.phase) [
        | inl p ↦ elim (Bool-cases changed) [
          | inl started ↦
              let it : start_battle rules s1 ≡ s' = ground arith in
              subst IsConsistent it (start_battle-IsConsistent s1 h1 p)
          | inr waits ↦ let it : s1 ≡ s' = ground arith in subst IsConsistent it h1
        ]
        | inr (inl p) ↦ tick_battle-IsConsistent s1 s' changed h1 p (ground arith)
        | inr (inr (inl p)) ↦ elim (Bool-cases changed) [
          | inl opened ↦
              let it : next_round s1 ≡ s' = ground arith in
              subst IsConsistent it (next_round-IsConsistent s1 h1 p)
          | inr waits ↦ let it : s1 ≡ s' = ground arith in subst IsConsistent it h1
        ]
        | inr (inr (inr p)) ↦ let it : s1 ≡ s' = ground arith in subst IsConsistent it h1
      ]
