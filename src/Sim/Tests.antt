-- ===== src/Sim/Tests.antt =====
-- The simulator's theorems at concrete data: whole numbers for the floats, a small battle, and
-- three spells (api/app/sim).
use go_forth.Prelude.{
  ℕ, ◌≡◌, refl, ◌<◌, ◌≤◌, true, false, none, List, [], ◌∷◌, ◌++◌, String, arith, All,
}
use mathlib.Core.List.{Perm}
use go_forth.Prelude.Dict.{Dict, lookup}
use go_forth.Prelude.Float.{int_float, int-IsFloat}
use go_forth.Prelude.Int.{ℤ, pos, ◌-ℤ◌}
use go_forth.Prelude.Sorting.{IsSorted, sorted, insert_right, list_insert, bisect_right}
use go_forth.Prelude.Text.{str_lt}
use go_forth.Sim.Events.{BattleEvent}
use go_forth.Sim.Runner.{BattleRunner, time_up, finished, step, run_to_end}
use go_forth.Sim.Runner.Ending.{run_to_end-finished, IsHonest, step-IsHonest}
use go_forth.Sim.Spells.{
  SpellInjection, ok, before, check_injection, schedule_injections, inject, take_due,
}
use go_forth.Sim.Spells.Queue.{inject-eq-schedule, inject-IsSorted, take_due-split}
use go_forth.Sim.Types.{Side, north, south, both}
use go_forth.Sim.World.{World}

abbrev cast_at : ℕ → String → Side → SpellInjection ℤ
cast_at tick spell_id side = record {
  tick = tick;
  spell_id = spell_id;
  location = record { x = pos 3; y = pos 4 };
  side = side;
}

abbrev catalog : Dict String
catalog = ("meteor", "burns") ∷ ("quake", "shakes") ∷ []

abbrev casts : List (SpellInjection ℤ)
casts = cast_at 9 "meteor" north ∷ cast_at 4 "quake" south ∷ cast_at 4 "meteor" north ∷ []

abbrev queue : List (SpellInjection ℤ)
queue = cast_at 4 "meteor" north ∷ cast_at 4 "quake" south ∷ cast_at 9 "meteor" north ∷ []

schedule-casts : schedule_injections casts catalog ≡ ok queue
unfolding schedule_injections check_injection before sorted insert_right lookup str_lt
schedule-casts = refl

abbrev world : World ℤ
world = record {
  tick = 0;
  rng_state = 1;
  units = [];
  troops = [];
  bases =
      both
        λ side. record { max_hp = pos 10; position = record { x = pos 0; y = pos 0 }; hp = pos 10 };
  zone_score = both λ _. pos 0;
  zone_holders = [];
  hazards = [];
  pending_spells = queue;
  next_hazard_id = 1;
}

-- North's base loses three points in every tick.
abbrev siege : World ℤ → World ℤ × List (BattleEvent ℤ)
siege w = (
  record w {
    bases = record w.bases {
      at_north = record w.bases.at_north { hp = w.bases.at_north.hp -ℤ pos 3 };
    };
  },
  [],
)

abbrev runner : BattleRunner ℤ String
runner = record {
  world = world;
  spells = catalog;
  limit = 12;
  ticks = [];
  events = [];
  outcome = time_up;
  destroyed_base = none;
  stopped = false;
}

inject-eq-schedule_example :
    inject catalog 3 queue (cast_at 5 "meteor" south)
    ≡ schedule_injections (casts ++ cast_at 5 "meteor" south ∷ []) catalog
inject-eq-schedule_example =
    inject-eq-schedule int-IsFloat catalog 3 casts queue (cast_at 5 "meteor" south) schedule-casts
      (omega arith)

run_to_end-finished_example : finished (run_to_end siege 12 runner) ≡ true
run_to_end-finished_example = run_to_end-finished siege (λ w. refl) 12 runner (omega arith)

runner-unfinished : finished runner ≡ false
unfolding finished
runner-unfinished = refl

step-IsHonest_example : IsHonest (step siege runner).0
step-IsHonest_example = step-IsHonest siege runner runner-unfinished

queue-IsSorted : IsSorted before queue
unfolding before str_lt
queue-IsSorted = ((refl, (refl, tt)), ((refl, tt), (tt, tt)))

abbrev longer : List (SpellInjection ℤ)
longer =
    cast_at 4 "meteor" north
    ∷ cast_at 4 "quake" south
    ∷ cast_at 5 "meteor" south
    ∷ cast_at 9 "meteor" north
    ∷ []

inject-longer : inject catalog 3 queue (cast_at 5 "meteor" south) ≡ ok longer
unfolding inject before lookup list_insert bisect_right
inject-longer = refl

inject-IsSorted_example :
    IsSorted before longer × (3 < 5) × Perm longer (cast_at 5 "meteor" south ∷ queue)
inject-IsSorted_example =
    inject-IsSorted int-IsFloat catalog 3 queue longer (cast_at 5 "meteor" south) queue-IsSorted
      inject-longer

take_due-split_example :
    ((take_due 4 queue).0 ++ (take_due 4 queue).1 ≡ queue)
    × All (λ (i : SpellInjection ℤ). i.tick ≤ 4) (take_due 4 queue).0
    × All (λ (i : SpellInjection ℤ). 4 < i.tick) (take_due 4 queue).1
take_due-split_example = take_due-split int-IsFloat 4 queue queue-IsSorted
