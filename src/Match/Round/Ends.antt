-- ===== src/Match/Round/Ends.antt =====
-- The end of a round that is stepped on and on
-- (api/app/match/round.py, api/app/sim/run_battle.py).
use go_forth.Prelude.{
  ℕ, zero, suc, ◌+◌, ◌≤◌, ◌<◌, ◌≡◌, refl, false, none, some, List, [], ◌∷◌, arith, any, ◌&&◌,
  Option-cases, inl, inr,
}
use go_forth.Prelude.Float.{Float}
use go_forth.Match.Round.{AuthoritativeRound, RoundEnding, decide_ending, decide_on_score, step}
use go_forth.Sim.Events.{BattleEvent}
use go_forth.Sim.Runner
use go_forth.Sim.Runner.{BattleRunner, finished, side_is_wiped_out, fallen_base}
use go_forth.Sim.Runner.Ending.{KeepsTick, tick-step, limit-step, step-goes_on}
use go_forth.Sim.Types.{Side, north, south, side_eq}
use go_forth.Sim.World.{World, BattleUnit, is_alive}

-- As many steps as are asked for.
unfoldable pub play :
    {F S : Type 0} ⦃f : Float F⦄
    → (World F → World F × List (BattleEvent F))
    → ℕ
    → AuthoritativeRound F S
    → AuthoritativeRound F S
play phases zero r = r
play phases (suc n) r = play phases n (step phases r).0

module _ {F : Type 0} ⦃f : Float F⦄ where
  absent-living :
      (side : Side) (us : List (BattleUnit F))
      → any (λ u. side_eq u.side side) us ≡ false
      → any (λ u. side_eq u.side side && is_alive u) us ≡ false
  absent-living side [] h = refl
  absent-living side (u ∷ us) h = ground (arith, absent-living side us)

  decided_or_fighting :
      (limit : ℕ) (threshold : F) (w : World F)
      → decide_ending limit threshold w ≡ none
      → (fallen_base w ≡ none) × (side_is_wiped_out w ≡ false) × (w.tick < limit)
  unfolding decide_ending fallen_base side_is_wiped_out decide_on_score
  decided_or_fighting limit threshold w h =
      ground (arith, absent-living north w.units, absent-living south w.units)

goes_on-lt :
    {F S : Type 0} (b : BattleRunner F S)
    → b.stopped ≡ false
    → b.world.tick < b.limit
    → finished b ≡ false
unfolding finished
goes_on-lt b h lt = ground arith

running-early :
    {F S : Type 0} (b : BattleRunner F S) → finished b ≡ false → b.limit ≤ b.world.tick + 0 → ⊥
unfolding finished
running-early b h le = ground arith

module _ {F S : Type 0} ⦃f : Float F⦄ (phases : World F → World F × List (BattleEvent F))
    (keeps_tick : KeepsTick phases) where
  play-over :
      (n : ℕ) (r : AuthoritativeRound F S) (e : RoundEnding)
      → r.ending ≡ some e
      → play phases n r ≡ r
  unfolding play step
  play-over zero r e h = refl
  play-over (suc n) r e h = ground (arith, play-over n r e h)

  step-counts :
      (r : AuthoritativeRound F S)
      → r.ending ≡ none
      → finished r.runner ≡ false
      → (step phases r).0.ending ≡ none
      → ((step phases r).0.runner.world.tick ≡ r.runner.world.tick + 1)
        × ((step phases r).0.runner.limit ≡ r.runner.limit)
        × (finished (step phases r).0.runner ≡ false)
  unfolding step
  step-counts r going running h =
      let b = (Runner.step phases r.runner).0 in
      let (standing, fighting, early) =
        decided_or_fighting b.limit r.rules.score_threshold b.world (ground arith) in
      ground (
        arith,
        tick-step phases keeps_tick r.runner running,
        limit-step phases keeps_tick r.runner,
        step-goes_on phases r.runner running standing fighting,
        goes_on-lt b,
        early,
      )

  -- If the phases keep the tick, a round that has no ending and whose battle is not finished has an
  -- ending after as many steps as its limit is ticks away, or more.
  pub play-ends :
      (n : ℕ) (r : AuthoritativeRound F S)
      → r.ending ≡ none
      → finished r.runner ≡ false
      → r.runner.limit ≤ r.runner.world.tick + n
      → (e : RoundEnding) × ((play phases n r).ending ≡ some e)
  unfolding play
  play-ends zero r going running h = absurd (running-early r.runner running h)
  play-ends (suc n) r going running h = elim (Option-cases (step phases r).0.ending) [
    | inr (e, over_) ↦ (e, rw (play-over n (step phases r).0 e over_) over_)
    | inl goes_on ↦
        let (counted, limited, runs) = step-counts r going running goes_on in
        play-ends n (step phases r).0 goes_on runs (omega (arith, counted, limited))
  ]
