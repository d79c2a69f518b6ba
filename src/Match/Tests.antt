-- ===== src/Match/Tests.antt =====
-- The round's theorems at concrete data (api/app/match/round.py).
use go_forth.Prelude.{◌≡◌, refl, true, false, none, some, String, arith}
use go_forth.Prelude.Dict.{lookup}
use go_forth.Prelude.Float.{int_float, int-IsFloat}
use go_forth.Prelude.Int.{ℤ, pos}
use go_forth.Prelude.Sorting.{list_insert, bisect_right}
use go_forth.Match.Round.{
  AuthoritativeRound, CastOutcome, RoundEnding, cast, step, refused, is_stale, decide_ending,
}
use go_forth.Match.Round.Books.{IsBooked, cast-IsBooked, step-IsBooked}
use go_forth.Match.Round.Cast.{
  IsReady, IsLegal, IsCharged, cast_refused, cast-IsCharged, cast-total,
}
use go_forth.Match.Round.Ends.{play, play-ends}
use go_forth.Match.Round.Mirror.{mirror, mirror_decision, decide_ending-mirror}
use go_forth.Match.Round.Settled.{Settled, decide_ending-Settled}
use go_forth.Match.Wire.{LoadoutSpell, stale}
use go_forth.Sim.Runner
use go_forth.Sim.Runner.{BattleRunner, finished, fallen_base, side_is_wiped_out}
use go_forth.Sim.Spells
use go_forth.Sim.Spells.{ok, err}
use go_forth.Sim.Types.{north}
use go_forth.Match.Samples.{world_on, runner, bases, idle, round, command, late}

abbrev outcome : CastOutcome
outcome = record {
  accepted = true;
  command_id = "c1";
  rejection = none;
  tick = some 1;
  order = some 1;
}

abbrev after : AuthoritativeRound ℤ String
unfolding cast is_stale Spells.inject Runner.inject lookup list_insert bisect_right
after = elim (cast round north command) [ ok (r, o) ↦ r | err e ↦ round ]

cast-round : cast round north command ≡ ok (after, outcome)
unfolding cast is_stale Spells.inject Runner.inject lookup list_insert bisect_right
cast-round = refl

cast-late : cast round north late ≡ ok (round, refused "c1" stale)
unfolding cast is_stale
cast-late = refl

decide_ending-Settled_example :
    Settled 2 (pos 240) (world_on bases) (decide_ending 2 (pos 240) (world_on bases))
decide_ending-Settled_example = decide_ending-Settled int-IsFloat 2 (pos 240) (world_on bases)

decide_ending-mirror_example :
    decide_ending 0 (pos 240) (mirror (world_on bases))
    ≡ mirror_decision (decide_ending 0 (pos 240) (world_on bases))
decide_ending-mirror_example = decide_ending-mirror int-IsFloat 0 (pos 240) (world_on bases)

cast_refused_example : round ≡ round
cast_refused_example = cast_refused round round north late (refused "c1" stale) cast-late refl

cast-IsCharged_example :
    (spell : LoadoutSpell ℤ) × IsLegal round north command spell
    × IsCharged round north command spell after outcome
cast-IsCharged_example = cast-IsCharged round after north command outcome cast-round refl

round-IsReady : IsReady round
unfolding lookup
round-IsReady = record { north_ready = (λ e. cc, tt); south_ready = (λ e. cc, tt) }

cast-total_example :
    (out : AuthoritativeRound ℤ String × CastOutcome) × (cast round north command ≡ ok out)
cast-total_example = cast-total round north command round-IsReady

round-IsBooked : IsBooked round
round-IsBooked = record {
  numbered = tt;
  next = refl;
  rising = omega arith;
  north_spent = refl;
  south_spent = refl;
}

cast-IsBooked_example : IsBooked after
cast-IsBooked_example = cast-IsBooked round after north command outcome round-IsBooked cast-round

step-IsBooked_example : IsBooked (step idle after).0
step-IsBooked_example = step-IsBooked idle (λ w. refl) after cast-IsBooked_example

runner-runs : finished (runner bases) ≡ false
unfolding finished
runner-runs = refl

play-ends_example : (e : RoundEnding) × ((play idle 2 round).ending ≡ some e)
play-ends_example = play-ends idle (λ w. refl) 2 round refl runner-runs (omega arith)
