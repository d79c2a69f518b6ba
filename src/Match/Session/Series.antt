-- ===== src/Match/Session/Series.antt =====
-- The series that a session plays, with everything but its score forgotten: who has won how many
-- rounds, and when that decides the match (api/app/match/session.py).
use mathlib.Core.Path.{subst}
use go_forth.Prelude.{
  ℕ, ◌+◌, ◌≤◌, ◌<◌, ◌≡◌, ◌⊎◌, refl, Bool, true, false, Option, some, arith, sym, leb, Bool-cases,
  Option-cases, inl, inr, if◌then◌else◌, ◌||◌, ◌∙◌,
}
use go_forth.Prelude.Float.{Float}
use go_forth.Match.Round
use go_forth.Match.Round.{AuthoritativeRound, CastOutcome, RoundEnding}
use go_forth.Match.Session.{
  Phase, planning, battle, round_over, match_over, done, RoundPolicy, SessionRules, MatchSession,
  next_round, match_ending, winner_of, count_win,
}
use go_forth.Match.Session.Moves.{Move, locks, casts, ticks, abandons, Reach, stay, move}
use go_forth.Match.Session.Play.{
  is_match_over, answer, take_outcome, cast_new, cast, finish, abandon, start_battle, lock_in,
  tick_battle, tick,
}
use go_forth.Match.Session.Consistent.{Phase-cases}
use go_forth.Match.Wire.{Message, CastCommand}
use go_forth.Sim.Spells.{Result-cases}
use go_forth.Sim.Types.{Side, BySide}

pub record Series : Type 0 where
  pub policy : RoundPolicy
  pub phase : Phase
  pub round_number : ℕ
  pub won : BySide ℕ

abbrev pub series_of : {F S P : Type 0} → MatchSession F S P → Series
series_of s = record {
  policy = s.policy;
  phase = s.phase;
  round_number = s.round_number;
  won = s.rounds_won;
}

-- A round that ends decides the match by its base, by the count of a test's rounds, or by a win
-- that is the last one needed.
abbrev pub decides : RoundPolicy → ℕ → RoundEnding → BySide ℕ → Bool
decides policy number (RoundEnding.base_destroyed _) won = true
decides policy number (RoundEnding.round_complete winner reason) won =
    if policy.test_profile
    then leb policy.rounds_to_win number
    else leb policy.rounds_to_win won.at_north || leb policy.rounds_to_win won.at_south

-- The steps of a series.
pub data SeriesStep : Series → Series → Type 0 where
  idle : {a b : Series} → b ≡ a → SeriesStep a b
  begin : {a b : Series} → a.phase ≡ planning → b ≡ record a { phase = battle } → SeriesStep a b
  decide :
      {a b : Series}
      → (ending : RoundEnding) → a.phase ≡ battle
      → b ≡ record a {
        won = count_win (winner_of ending) a.won;
        phase =
            if decides a.policy a.round_number ending (count_win (winner_of ending) a.won)
            then match_over
            else round_over;
      }
      → SeriesStep a b
  advance :
      {a b : Series}
      → a.phase ≡ round_over
      → b ≡ record a { phase = planning; round_number = a.round_number + 1 }
      → SeriesStep a b
  stop : {a b : Series} → b ≡ record a { phase = match_over } → SeriesStep a b

module _ {F S P : Type 0} ⦃f : Float F⦄ where
  series-take_outcome :
      (s s' : MatchSession F S P) (side : Side) (c : CastCommand F) (o : CastOutcome) (m : Message)
      → take_outcome s side c o ≡ done (s', m)
      → series_of s' ≡ series_of s
  unfolding take_outcome answer
  series-take_outcome s s' side c o m e = ground arith

  series-cast_new :
      (s s' : MatchSession F S P) (side : Side) (c : CastCommand F) (m : Message)
      → cast_new s side c ≡ done (s', m)
      → series_of s' ≡ series_of s
  unfolding cast_new answer
  series-cast_new s s' side c m e = elim (Option-cases s.round) [
    | inl missing ↦ ground arith
    | inr (r, there) ↦ elim (Result-cases (Round.cast r side c)) [
      | inr (x, refused) ↦ ground arith
      | inl ((r', o), answered) ↦
          ground (arith, series-take_outcome (record s { round = some r' }) s' side c o m)
    ]
  ]

  series-cast :
      (s s' : MatchSession F S P) (side : Side) (c : CastCommand F) (m : Message)
      → cast s side c ≡ done (s', m)
      → series_of s' ≡ series_of s
  unfolding cast
  series-cast s s' side c m e = ground (arith, series-cast_new s s' side c m)

module _ {F S P R : Type 0} ⦃f : Float F⦄ (rules : SessionRules F S P R) where
  lock_in-taken :
      (s s' : MatchSession F S P) (side : Side) (raw : R)
      → lock_in rules s side raw ≡ done s'
      → (s.phase ≡ planning)
        × ((series_of s' ≡ series_of s) ⊎ (series_of s' ≡ record (series_of s) { phase = battle }))
  unfolding lock_in start_battle
  lock_in-taken s s' side raw e = elim (Option-cases (rules.parse_plan raw)) [
    | inl unparsed ↦ absurd (ground arith)
    | inr (plan, parsed) ↦ ground arith
  ]

  lock_in-step :
      (s s' : MatchSession F S P) (side : Side) (raw : R)
      → lock_in rules s side raw ≡ done s'
      → SeriesStep (series_of s) (series_of s')
  lock_in-step s s' side raw e =
      let (p, taken) = lock_in-taken s s' side raw e in
      elim taken [ inl waits ↦ idle waits | inr starts ↦ begin p starts ]

  series-finish :
      (s : MatchSession F S P) (r : AuthoritativeRound F S) (ending : RoundEnding)
      → series_of (finish rules.zone_states (record s { round = some r }) r ending)
        ≡ record (series_of s) {
          won = count_win (winner_of ending) s.rounds_won;
          phase =
              if decides s.policy s.round_number ending (count_win (winner_of ending) s.rounds_won)
              then match_over
              else round_over;
        }
  unfolding finish match_ending
  series-finish s r (RoundEnding.base_destroyed winner) = refl
  series-finish s r (RoundEnding.round_complete winner reason) = ground arith

  tick_battle-step :
      (s s' : MatchSession F S P) (changed : Bool)
      → s.phase ≡ battle
      → tick_battle rules s ≡ done (s', changed)
      → SeriesStep (series_of s) (series_of s')
  unfolding tick_battle
  tick_battle-step s s' changed p e = elim (Option-cases s.round) [
    | inl missing ↦ absurd (ground arith)
    | inr (r, there) ↦
        let r' = (Round.step rules.phases r).0 in
        elim (Option-cases r'.ending) [
          | inl goes_on ↦ idle (ground arith)
          | inr (ending, over_) ↦
              let it : s' ≡ finish rules.zone_states (record s { round = some r' }) r' ending =
                ground arith in
              decide ending p (rw it (series-finish s r' ending))
        ]
  ]

  tick-step :
      (s s' : MatchSession F S P) (changed : Bool)
      → tick rules s ≡ done (s', changed)
      → SeriesStep (series_of s) (series_of s')
  unfolding tick start_battle next_round
  tick-step s s' changed e = elim (Phase-cases s.phase) [
    | inr (inl p) ↦
        tick_battle-step (record s { phase_ticks = s.phase_ticks + 1 }) s' changed p (ground arith)
    | inr (inr (inr p)) ↦ idle (ground arith)
    | inl p ↦ elim (Bool-cases changed) [
      | inl started ↦ begin p (ground arith)
      | inr waits ↦ idle (ground arith)
    ]
    | inr (inr (inl p)) ↦ elim (Bool-cases changed) [
      | inl opened ↦ advance p (ground arith)
      | inr waits ↦ idle (ground arith)
    ]
  ]

  abandon-step :
      (s : MatchSession F S P) (winner : Option Side)
      → SeriesStep (series_of s) (series_of (abandon s winner))
  unfolding abandon
  abandon-step s winner = elim (Bool-cases (is_match_over s.phase)) [
    | inl over_ ↦ idle (ground arith)
    | inr open_ ↦ stop (ground arith)
  ]

  pub move-step :
      (s s' : MatchSession F S P) → Move rules s s' → SeriesStep (series_of s) (series_of s')
  move-step s s' (locks side raw e) = lock_in-step s s' side raw e
  move-step s s' (casts side c m e) = idle (series-cast s s' side c m e)
  move-step s s' (ticks changed e) = tick-step s s' changed e
  move-step s s' (abandons winner e) =
      subst (λ t. SeriesStep (series_of s) (series_of t)) e (abandon-step s winner)

abbrev pub begun : Phase → ℕ
begun planning = 0
begun battle = 0
begun round_over = 1
begun match_over = 1

-- While a match is not over, nobody has won the rounds that win it, and a test has rounds left.
pub record IsOpen (a : Series) : Type 0 where
  pub series_open :
      a.policy.test_profile ≡ false
      → is_match_over a.phase ≡ false
      → (a.won.at_north < a.policy.rounds_to_win) × (a.won.at_south < a.policy.rounds_to_win)
  pub test_open :
      a.policy.test_profile ≡ true
      → is_match_over a.phase ≡ false
      → a.round_number + begun a.phase ≤ a.policy.rounds_to_win

decide-IsOpen :
    (a : Series) (ending : RoundEnding)
    → IsOpen a
    → a.phase ≡ battle
    → decides a.policy a.round_number ending (count_win (winner_of ending) a.won) ≡ false
    → IsOpen (record a { won = count_win (winner_of ending) a.won; phase = round_over })
decide-IsOpen a (RoundEnding.base_destroyed winner) h p e = cc
decide-IsOpen a (RoundEnding.round_complete winner reason) h p e = record {
  series_open = λ t o. ground arith;
  test_open = λ t o. ground (arith, h.test_open t);
}

step-IsOpen : (a b : Series) → SeriesStep a b → IsOpen a → IsOpen b
step-IsOpen a b (idle e) h = subst IsOpen (sym e) h
step-IsOpen a b (begin p e) h = subst IsOpen (sym e) (record {
  series_open = λ t o. h.series_open t (ground arith);
  test_open = λ t o. ground (arith, h.test_open t);
})
step-IsOpen a b (decide ending p e) h =
    elim (Bool-cases
      (decides a.policy a.round_number ending (count_win (winner_of ending) a.won))) [
        | inl decided ↦ subst IsOpen (sym e) (record {
          series_open = λ t o. absurd (ground arith);
          test_open = λ t o. absurd (ground arith);
        })
        | inr undecided ↦
            subst IsOpen (sym (e ∙ (rw undecided refl))) (decide-IsOpen a ending h p undecided)
      ]
step-IsOpen a b (advance p e) h = subst IsOpen (sym e) (record {
  series_open = λ t o. h.series_open t (ground arith);
  test_open = λ t o. ground (arith, h.test_open t);
})
step-IsOpen a b (stop e) h = subst IsOpen (sym e) (record {
  series_open = λ t o. absurd (ground arith);
  test_open = λ t o. absurd (ground arith);
})

-- From a session whose series is open, every session that is reached is open: as long as the match
-- is not over, in a series neither side has won the rounds that win it, and in a test profile the
-- number of the round is at most that of the rounds it plays, and below it once the round is over.
pub Reach-IsOpen :
    {F S P R : Type 0} ⦃f : Float F⦄ (rules : SessionRules F S P R) (s s' : MatchSession F S P)
    → Reach rules s s'
    → IsOpen (series_of s)
    → IsOpen (series_of s')
Reach-IsOpen rules s s' stay h = h
Reach-IsOpen rules s s' (move {t = t} m rest) h =
    Reach-IsOpen rules t s' rest (step-IsOpen (series_of s) (series_of t) (move-step rules s t m) h)
