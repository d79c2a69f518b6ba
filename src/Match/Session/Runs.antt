-- ===== src/Match/Session/Runs.antt =====
-- The completeness of the record of a running battle, over every operation of a session
-- (api/app/match/session.py, run_record.py).
use mathlib.Core.Path.{subst}
use go_forth.Prelude.{
  ◌+◌, ◌≡◌, ◌≢◌, ◌⊎◌, refl, Bool, true, Option, some, [], arith, ◌&&◌, Bool-cases, Option-cases,
  inl, inr,
}
use go_forth.Prelude.Float.{Float}
use go_forth.Match.Recorder.{round_started}
use go_forth.Match.Round
use go_forth.Match.Round.{AuthoritativeRound, RoundEnding}
use go_forth.Match.Session.{battle, done, SessionRules, MatchSession, next_round}
use go_forth.Match.Session.Consistent.{Phase-cases}
use go_forth.Match.Session.Moves.{Move, locks, casts, ticks, abandons, Reach, stay, move}
use go_forth.Match.Session.Play.{
  is_match_over, finish, abandon, start_battle, lock_in, tick_battle, tick,
}
use go_forth.Match.Session.Recorded.{
  IsRecorded, last_casts-snoc, with_same-IsRecorded, cast-IsRecorded,
}
use go_forth.Sim.Types.{Side, put}

-- A session that is in no battle has nothing to keep.
elsewhere-IsRecorded : {F S P : Type 0} (s : MatchSession F S P) → s.phase ≢ battle → IsRecorded s
elsewhere-IsRecorded s away = record {
  is_open = λ p. absurd (away p);
  same_casts = λ r p here. absurd (away p);
}

module _ {F S P : Type 0} ⦃f : Float F⦄ where
  abandon-IsRecorded :
      (s : MatchSession F S P) (winner : Option Side) → IsRecorded s → IsRecorded (abandon s winner)
  unfolding abandon
  abandon-IsRecorded s winner h = elim (Bool-cases (is_match_over s.phase)) [
    | inl over_ ↦ let it : s ≡ abandon s winner = ground arith in subst IsRecorded it h
    | inr open_ ↦ elsewhere-IsRecorded (abandon s winner) (λ p. ground arith)
  ]

module _ {F S P R : Type 0} ⦃f : Float F⦄ (rules : SessionRules F S P R) where
  casts-step : (r : AuthoritativeRound F S) → (Round.step rules.phases r).0.casts ≡ r.casts
  unfolding Round.step
  casts-step r = ground arith

  start_battle-IsRecorded : (s : MatchSession F S P) → IsRecorded (start_battle rules s)
  unfolding start_battle round_started
  start_battle-IsRecorded s = record {
    is_open = λ p. refl;
    same_casts = λ r p here.
        let none_yet : r.casts ≡ [] = ground (arith, here) in
        rw none_yet (last_casts-snoc s.recorder.run.rounds _);
  }

  lock_in-became :
      (s s' : MatchSession F S P) (side : Side) (raw : R)
      → lock_in rules s side raw ≡ done s'
      → (s'.phase ≢ battle) ⊎ ((t : MatchSession F S P) × (start_battle rules t ≡ s'))
  unfolding lock_in
  lock_in-became s s' side raw e = elim (Option-cases (rules.parse_plan raw)) [
    | inl unparsed ↦ absurd (ground arith)
    | inr (plan, parsed) ↦
        let t : MatchSession F S P = record s {
          round_state = record {
            plans = put side (some plan) s.round_state.plans;
            loadouts = put side (some (rules.resolve_loadout plan)) s.round_state.loadouts;
            locked = put side true s.round_state.locked;
          };
        } in
        elim (Bool-cases (t.round_state.locked.at_north && t.round_state.locked.at_south)) [
          | inl both_ ↦ inr (t, ground arith)
          | inr waits ↦ inl (λ p. ground arith)
        ]
  ]

  away-finish :
      (s : MatchSession F S P) (r : AuthoritativeRound F S) (ending : RoundEnding)
      → (finish rules.zone_states s r ending).phase ≢ battle
  unfolding finish
  away-finish s r ending p = ground arith

  tick_battle-IsRecorded :
      (s s' : MatchSession F S P) (changed : Bool)
      → IsRecorded s
      → tick_battle rules s ≡ done (s', changed)
      → IsRecorded s'
  unfolding tick_battle
  tick_battle-IsRecorded s s' changed h e = elim (Option-cases s.round) [
    | inl missing ↦ absurd (ground arith)
    | inr (r, there) ↦
        let r' = (Round.step rules.phases r).0 in
        let t = record s { round = some r' } in
        elim (Option-cases r'.ending) [
          | inl goes_on ↦
              let it : t ≡ s' = ground arith in
              subst IsRecorded it (with_same-IsRecorded s r r' h there (casts-step r))
          | inr (ending, over_) ↦
              let it : finish rules.zone_states t r' ending ≡ s' = ground arith in
              subst IsRecorded it (
                elsewhere-IsRecorded (finish rules.zone_states t r' ending)
                  (away-finish t r' ending))
        ]
  ]

  tick-IsRecorded :
      (s s' : MatchSession F S P) (changed : Bool)
      → IsRecorded s
      → tick rules s ≡ done (s', changed)
      → IsRecorded s'
  unfolding tick next_round
  tick-IsRecorded s s' changed h e =
      let s1 = record s { phase_ticks = s.phase_ticks + 1 } in
      let h1 : IsRecorded s1 = record { is_open = h.is_open; same_casts = h.same_casts } in
      elim (Phase-cases s.phase) [
        | inl p ↦ elim (Bool-cases changed) [
          | inl started ↦
              let it : start_battle rules s1 ≡ s' = ground arith in
              subst IsRecorded it (start_battle-IsRecorded s1)
          | inr waits ↦ let it : s1 ≡ s' = ground arith in subst IsRecorded it h1
        ]
        | inr (inl p) ↦ tick_battle-IsRecorded s1 s' changed h1 (ground arith)
        | inr (inr (inl p)) ↦ elsewhere-IsRecorded s' (λ q. ground arith)
        | inr (inr (inr p)) ↦ elsewhere-IsRecorded s' (λ q. ground arith)
      ]

  move-IsRecorded : (s s' : MatchSession F S P) → Move rules s s' → IsRecorded s → IsRecorded s'
  move-IsRecorded s s' (locks side raw e) h = elim (lock_in-became s s' side raw e) [
    | inl away ↦ elsewhere-IsRecorded s' away
    | inr (t, it) ↦ subst IsRecorded it (start_battle-IsRecorded t)
  ]
  move-IsRecorded s s' (casts side c m e) h = cast-IsRecorded s s' side c m h e
  move-IsRecorded s s' (ticks changed e) h = tick-IsRecorded s s' changed h e
  move-IsRecorded s s' (abandons winner e) h = subst IsRecorded e (abandon-IsRecorded s winner h)

  -- If the record of a session is complete, it is so in every session that is reached: whenever a
  -- battle runs, the recorder is open, and the last recorded round has an entry for each cast that
  -- the round has accepted, in their order, with its order, tick, side, command, spell and
  -- location.
  pub Reach-IsRecorded :
      (s s' : MatchSession F S P) → Reach rules s s' → IsRecorded s → IsRecorded s'
  Reach-IsRecorded s s' stay h = h
  Reach-IsRecorded s s' (move {t = t} m rest) h =
      Reach-IsRecorded t s' rest (move-IsRecorded s t m h)
