-- ===== src/Sim/Runner/Ending.antt =====
-- How a battle ends, and what its runner says of it
-- (api/app/sim/run_battle.py).
use go_forth.Prelude.{
  ℕ, zero, suc, ◌+◌, ◌≤◌, ◌<◌, ◌≡◌, true, false, none, some, List, arith, Bool-cases, inl, inr,
}
use go_forth.Prelude.Float.{Float, ◌≤?◌, nought}
use go_forth.Sim.Events.{BattleEvent}
use go_forth.Sim.Types.{Side, north, south, at}
use go_forth.Sim.World.{World}
use go_forth.Sim.Runner.{
  BattleRunner, annihilation, base_destroyed, finished, side_is_wiped_out, fallen_base, step,
  run_to_end,
}

-- The phases of a tick leave the tick and the limit's clock alone.
abbrev pub KeepsTick : {F : Type 0} → (World F → World F × List (BattleEvent F)) → Type 0
KeepsTick phases = (w : World _) → (phases w).0.tick ≡ w.tick

module _ {F S : Type 0} ⦃f : Float F⦄ (phases : World F → World F × List (BattleEvent F))
    (keeps_tick : KeepsTick phases) where
  pub tick-step :
      (r : BattleRunner F S) → finished r ≡ false → (step phases r).0.world.tick ≡ r.world.tick + 1
  unfolding step
  tick-step r h = ground (arith, keeps_tick (record r.world { tick = r.world.tick + 1 }))

  pub limit-step : (r : BattleRunner F S) → (step phases r).0.limit ≡ r.limit
  unfolding step
  limit-step r = ground arith

  finished-limit : (r : BattleRunner F S) → r.limit ≤ r.world.tick → finished r ≡ true
  unfolding finished
  finished-limit r h = ground arith

  unfinished-lt : (r : BattleRunner F S) → finished r ≡ false → r.world.tick < r.limit
  unfolding finished
  unfinished-lt r h = ground arith

  -- If the phases keep the tick, running a battle for as many rounds as its limit is ticks away, or
  -- more, leaves it finished.
  pub run_to_end-finished :
      (fuel : ℕ) (r : BattleRunner F S)
      → r.limit ≤ r.world.tick + fuel
      → finished (run_to_end phases fuel r) ≡ true
  unfolding run_to_end
  run_to_end-finished zero r h = finished-limit r (omega arith)
  run_to_end-finished (suc fuel) r h = elim (Bool-cases (finished r)) [
    | inl over ↦ rw over over
    | inr going ↦ rw going (
        run_to_end-finished fuel (step phases r).0
          (omega (arith, tick-step r going, limit-step r, unfinished-lt r going)))
  ]

-- What a runner says of its end is so of its world: a battle that is stopped has a fallen base or
-- a side without units, a fallen base is what it names before anything else, and it names a side
-- only for a base that is at nought.
pub record IsHonest {F S : Type 0} ⦃f : Float F⦄ (r : BattleRunner F S) : Type 0 where
  pub names : r.destroyed_base ≡ fallen_base r.world
  pub destroyed : (side : Side) → fallen_base r.world ≡ some side → r.outcome ≡ base_destroyed
  pub wiped_out :
      r.stopped ≡ true
      → fallen_base r.world ≡ none
      → (side_is_wiped_out r.world ≡ true) × (r.outcome ≡ annihilation)
  pub going : r.stopped ≡ false → (fallen_base r.world ≡ none) × (side_is_wiped_out r.world ≡ false)

module _ {F S : Type 0} ⦃f : Float F⦄ (phases : World F → World F × List (BattleEvent F)) where
  -- A step of a battle that is not finished leaves a runner that is honest about its end: it names
  -- the fallen base that its world has, with that outcome; if it is stopped without one, a side has
  -- no units and the outcome is annihilation; and if it is not stopped, no base has fallen and both
  -- sides have units.
  pub step-IsHonest : (r : BattleRunner F S) → finished r ≡ false → IsHonest (step phases r).0
  unfolding step finished
  step-IsHonest r h = record {
    names = ground arith;
    destroyed = λ side e. ground arith;
    wiped_out = λ e k. ground arith;
    going = λ e. ground arith;
  }

-- A side that is named has lost its base, and if both have, north is named.
pub fallen_base_lem :
    {F : Type 0} ⦃f : Float F⦄ (w : World F) (side : Side)
    → fallen_base w ≡ some side
    → ((at side w.bases).hp ≤? nought ≡ true)
unfolding fallen_base
fallen_base_lem w north h = ground arith
fallen_base_lem w south h = ground arith

-- A step that leaves no base fallen and neither side without units does not stop the battle.
pub step-goes_on :
    {F S : Type 0} ⦃f : Float F⦄ (phases : World F → World F × List (BattleEvent F))
    (r : BattleRunner F S)
    → finished r ≡ false
    → fallen_base (step phases r).0.world ≡ none
    → side_is_wiped_out (step phases r).0.world ≡ false
    → (step phases r).0.stopped ≡ false
unfolding step finished
step-goes_on phases r h standing fighting = ground arith
