-- ===== src/Match/Session/Vetted.antt =====
-- Plans that the validation has passed, in a session and in its record, and the operations that
-- take or keep them (api/app/match/session.py, run_record.py).
use mathlib.Core.Path.{subst}
use go_forth.Prelude.{
  ◌≡◌, refl, true, Option, none, some, List, [], ◌∷◌, ◌++◌, arith, sym, All, Bool-cases,
  Option-cases, inl, inr, ◌&&◌,
}
use go_forth.Prelude.Float.{Float}
use go_forth.Match.Recorder.{
  RecordedCast, RecordedRound, RunRecorder, on_last, round_started, cast_accepted, round_finished,
  match_finished,
}
use go_forth.Match.Round
use go_forth.Match.Round.{AuthoritativeRound, CastOutcome, RoundEnding}
use go_forth.Match.Session.{done, SessionRules, MatchSession, or_else, wire_ending}
use go_forth.Match.Session.Play.{finish, abandon, start_battle, lock_in}
use go_forth.Match.Wire.{WireRoundEnding}
use go_forth.Sim.Types.{Side, BySide, put}

module _ {F S P R : Type 0} ⦃f : Float F⦄ (rules : SessionRules F S P R) where
  abbrev pub IsValid : P → Type 0
  IsValid p = rules.validate_plan p ≡ true

  abbrev pub WasVetted : RecordedRound F P → Type 0
  WasVetted e = IsValid e.plans.at_north × IsValid e.plans.at_south

  -- The plans of the round that is planned or fought, and those of every round of the record, have
  -- passed the validation.
  pub record IsVetted (s : MatchSession F S P) : Type 0 where
    pub north_vetted :
        (p : P) → s.round_state.plans.at_north ≡ some p → rules.validate_plan p ≡ true
    pub south_vetted :
        (p : P) → s.round_state.plans.at_south ≡ some p → rules.validate_plan p ≡ true
    pub all_vetted :
        All
          (λ (e : RecordedRound F P).
            (rules.validate_plan e.plans.at_north ≡ true)
            × (rules.validate_plan e.plans.at_south ≡ true))
          s.recorder.run.rounds

  All-snoc :
      (es : List (RecordedRound F P)) (e : RecordedRound F P)
      → All WasVetted es
      → WasVetted e
      → All WasVetted (es ++ e ∷ [])
  All-snoc [] e h v = (v, tt)
  All-snoc (d ∷ es) e (w, h) v = (w, All-snoc es e h v)

  All-on_last :
      (g : RecordedRound F P → RecordedRound F P)
      → ((e : RecordedRound F P) → (g e).plans ≡ e.plans)
      → (es : List (RecordedRound F P)) → All WasVetted es
      → All WasVetted (on_last g es)
  All-on_last g keeps [] h = tt
  All-on_last g keeps (e ∷ []) (v, h) = (rw (keeps e) v, tt)
  All-on_last g keeps (e ∷ d ∷ es) (v, h) = (v, All-on_last g keeps (d ∷ es) h)

  -- Two sessions with the same plans, where the record's rounds are vetted.
  pub same-IsVetted :
      (s s' : MatchSession F S P)
      → IsVetted s
      → s'.round_state ≡ s.round_state
      → All WasVetted s'.recorder.run.rounds
      → IsVetted s'
  same-IsVetted s s' h same rounds = record {
    north_vetted = λ p e. h.north_vetted p (rw (sym same) e);
    south_vetted = λ p e. h.south_vetted p (rw (sym same) e);
    all_vetted = rounds;
  }

  or_else-vetted :
      (o : Option P)
      → ((p : P) → o ≡ some p → rules.validate_plan p ≡ true)
      → rules.validate_plan rules.default_plan ≡ true
      → rules.validate_plan (or_else rules.default_plan o) ≡ true
  or_else-vetted none h default = default
  or_else-vetted (some p) h default = h p refl

  pub start_battle-IsVetted :
      (s : MatchSession F S P)
      → rules.validate_plan rules.default_plan ≡ true
      → IsVetted s
      → IsVetted (start_battle rules s)
  unfolding start_battle round_started
  start_battle-IsVetted s default h =
      let north_ok = or_else-vetted s.round_state.plans.at_north h.north_vetted default in
      let south_ok = or_else-vetted s.round_state.plans.at_south h.south_vetted default in
      record {
        north_vetted = λ p e. ground (arith, h.north_vetted p, default);
        south_vetted = λ p e. ground (arith, h.south_vetted p, default);
        all_vetted =
            All-snoc s.recorder.run.rounds _ h.all_vetted
              (ground (arith, north_ok), ground (arith, south_ok));
      }

  pub lock_in-IsVetted :
      (s s' : MatchSession F S P) (side : Side) (raw : R)
      → rules.validate_plan rules.default_plan ≡ true
      → IsVetted s
      → lock_in rules s side raw ≡ done s'
      → IsVetted s'
  unfolding lock_in
  lock_in-IsVetted s s' side raw default h e = elim (Option-cases (rules.parse_plan raw)) [
    | inl unparsed ↦ absurd (ground arith)
    | inr (plan, parsed) ↦
        let t : MatchSession F S P = record s {
          round_state = record {
            plans = put side (some plan) s.round_state.plans;
            loadouts = put side (some (rules.resolve_loadout plan)) s.round_state.loadouts;
            locked = put side true s.round_state.locked;
          };
        } in
        let valid : rules.validate_plan plan ≡ true = ground arith in
        let kept : IsVetted t = record {
          north_vetted = λ p k. ground (arith, h.north_vetted p);
          south_vetted = λ p k. ground (arith, h.south_vetted p);
          all_vetted = h.all_vetted;
        } in
        elim (Bool-cases (t.round_state.locked.at_north && t.round_state.locked.at_south)) [
          | inl both_ ↦
              let it : start_battle rules t ≡ s' = ground arith in
              subst IsVetted it (start_battle-IsVetted t default kept)
          | inr waits ↦ let it : t ≡ s' = ground arith in subst IsVetted it kept
        ]
  ]

  pub entry-vetted :
      (b : RunRecorder F P) (entry : RecordedCast F)
      → All WasVetted b.run.rounds
      → All WasVetted (cast_accepted b entry).run.rounds
  unfolding cast_accepted
  entry-vetted b entry h = elim (Bool-cases b.is_open) [
    | inl open_ ↦
        let it : on_last (λ e. record e { casts = e.casts ++ entry ∷ [] }) b.run.rounds
            ≡ (cast_accepted b entry).run.rounds =
          ground arith in
        subst (All WasVetted) it
          (All-on_last (λ e. record e { casts = e.casts ++ entry ∷ [] }) (λ e. refl) b.run.rounds h)
    | inr closed ↦
        let it : b.run.rounds ≡ (cast_accepted b entry).run.rounds = ground arith in
        subst (All WasVetted) it h
  ]

  finished-vetted :
      (b : RunRecorder F P) (ending : WireRoundEnding) (hp : BySide F)
      → All WasVetted b.run.rounds
      → All WasVetted (round_finished b ending hp).run.rounds
  unfolding round_finished
  finished-vetted b ending hp h = elim (Bool-cases b.is_open) [
    | inl open_ ↦
        let it : on_last (λ e. record e { ending = some ending; base_hp_at_end = some hp })
              b.run.rounds
            ≡ (round_finished b ending hp).run.rounds =
          ground arith in
        subst (All WasVetted) it (
          All-on_last (λ e. record e { ending = some ending; base_hp_at_end = some hp }) (λ e. refl)
            b.run.rounds h)
    | inr closed ↦
        let it : b.run.rounds ≡ (round_finished b ending hp).run.rounds = ground arith in
        subst (All WasVetted) it h
  ]

  pub finish-IsVetted :
      (s : MatchSession F S P) (r : AuthoritativeRound F S) (ending : RoundEnding)
      → IsVetted s
      → IsVetted (finish rules.zone_states s r ending)
  unfolding finish match_finished
  finish-IsVetted s r ending h =
      let after = finish rules.zone_states s r ending in
      let it : (round_finished s.recorder (wire_ending ending) (Round.base_hp r)).run.rounds
          ≡ after.recorder.run.rounds =
        ground arith in
      same-IsVetted s after h (ground arith) (
        subst (All WasVetted) it
          (finished-vetted s.recorder (wire_ending ending) (Round.base_hp r) h.all_vetted))

  pub abandon-IsVetted :
      (s : MatchSession F S P) (winner : Option Side) → IsVetted s → IsVetted (abandon s winner)
  unfolding abandon match_finished
  abandon-IsVetted s winner h =
      let it : s.recorder.run.rounds ≡ (abandon s winner).recorder.run.rounds = ground arith in
      same-IsVetted s (abandon s winner) h (ground arith) (subst (All WasVetted) it h.all_vetted)
