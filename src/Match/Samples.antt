-- ===== src/Match/Samples.antt =====
-- The concrete data of the tests: whole numbers for the floats, one unit and one spell for each
-- side, and a battle whose phases change nothing.
use go_forth.Prelude.{false, none, List, [], ◌∷◌, String}
use go_forth.Prelude.Float.{int_float}
use go_forth.Prelude.Int.{ℤ, pos}
use go_forth.Match.Round.{AuthoritativeRound, RoundRules, new_round}
use go_forth.Match.Wire.{LoadoutSpell, CastCommand}
use go_forth.Sim.Events.{BattleEvent}
use go_forth.Sim.Runner
use go_forth.Sim.Runner.{BattleRunner, finished, fallen_base, side_is_wiped_out}
use go_forth.Sim.Types.{Side, north, south, BySide, Vec2, both}
use go_forth.Sim.World.{World, BattleUnit, summon}

abbrev pub origin : Vec2 ℤ
origin = record { x = pos 0; y = pos 0 }

abbrev pub unit_of : String → Side → BattleUnit ℤ
unit_of id side = record {
  id = id;
  type_id = "ash-ram";
  kind = summon;
  schools = [];
  side = side;
  troop_id = id;
  max_hp = pos 5;
  damage = pos 1;
  range = pos 1;
  speed = pos 1;
  attack_cooldown_seconds = pos 1;
  hp = pos 5;
  position = origin;
  formation_offset = origin;
  destination = origin;
  cooldown_remaining = 0;
  intent = none;
  support_capacity = none;
  resummon_pace_seconds = none;
  resummon_remaining = 0;
  ability_id = none;
  energy = pos 0;
  energy_meters = record {
    damage_dealt = pos 0;
    damage_taken = pos 0;
    elapsed_seconds = pos 0;
    ally_defeated = pos 0;
  };
  burn = none;
  emplacement = false;
  blocks_movement = false;
  block_radius = pos 0;
}

abbrev pub world_on : BySide ℤ → World ℤ
world_on hp = record {
  tick = 0;
  rng_state = 1;
  units = unit_of "n1" north ∷ unit_of "s1" south ∷ [];
  troops = [];
  bases = record {
    at_north = record { max_hp = pos 10; position = origin; hp = hp.at_north };
    at_south = record { max_hp = pos 10; position = origin; hp = hp.at_south };
  };
  zone_score = record { at_north = pos 2; at_south = pos 1 };
  zone_holders = [];
  hazards = [];
  pending_spells = [];
  next_hazard_id = 1;
}

abbrev pub runner : BySide ℤ → BattleRunner ℤ String
runner hp = record {
  world = world_on hp;
  spells = ("meteor", "burns") ∷ [];
  limit = 2;
  ticks = [];
  events = [];
  outcome = Runner.time_up;
  destroyed_base = none;
  stopped = false;
}

abbrev pub numbers : RoundRules ℤ
numbers = record {
  size_width = pos 100;
  size_height = pos 100;
  seconds_per_tick = pos 1;
  energy_per_second = pos 4;
  energy_cap = pos 120;
  score_threshold = pos 240;
}

abbrev pub meteor : LoadoutSpell ℤ
meteor = record { spell_id = "meteor"; name = "Meteor"; cost = pos 35; effect = "fire" }

abbrev pub bases : BySide ℤ
bases = both λ _. pos 10

abbrev pub idle : World ℤ → World ℤ × List (BattleEvent ℤ)
idle w = (w, [])

abbrev pub round : AuthoritativeRound ℤ String
round = new_round 1 numbers (both λ _. meteor ∷ []) (pos 40) (runner bases)

abbrev pub command : CastCommand ℤ
command = record { command_id = "c1"; spell_id = "meteor"; location = origin; tick = pos 0 }

abbrev pub late : CastCommand ℤ
late = record command { tick = pos 41 }
