-- ===== src/Sim/FieldSamples.antt =====
-- A small battle on the two-lane map, with whole numbers for floats.
use go_forth.Prelude.{ℕ, ◌/◌, true, false, Option, none, some, List, [], ◌∷◌, String}
use go_forth.Prelude.Float.{int_float}
use go_forth.Prelude.Int.{ℤ, pos, pos_part}
use go_forth.Sim.BattleMap.{two_lane_map}
use go_forth.Sim.Casting.{first_useful_moment}
use go_forth.Sim.Effects.{Ability, UnitType, area_damage, origin_target}
use go_forth.Sim.Energy.{SchoolMultipliers, default_energy_rules}
use go_forth.Sim.Field.{Field, TickContext}
use go_forth.Sim.Phases.Energy.{no_energy}
use go_forth.Sim.Types.{Side, north, south, Vec2}
use go_forth.Sim.Opening.{ArmySetup, BattleSetup}
use go_forth.Sim.Opening.Build.{create_world}
use go_forth.Sim.World.{
  World, BattleUnit, UnitKind, mage, summon, School, fire, Troop, Order, hold_zone, push_enemy_base,
}

abbrev pub spot : ℕ → ℕ → Vec2 ℤ
spot x y = record { x = pos x; y = pos y }

abbrev pub soldier : String → String → UnitKind → Side → ℕ → Vec2 ℤ → BattleUnit ℤ
soldier id troop kind side hp place = record {
  id = id;
  type_id = "cinder-hound";
  kind = kind;
  schools = fire ∷ [];
  side = side;
  troop_id = troop;
  max_hp = pos 30;
  damage = pos 11;
  range = pos 40;
  speed = pos 0;
  attack_cooldown_seconds = pos 1;
  hp = pos hp;
  position = place;
  formation_offset = spot 0 0;
  destination = place;
  cooldown_remaining = 0;
  intent = none;
  support_capacity = some 3;
  resummon_pace_seconds = some (pos 1);
  resummon_remaining = 0;
  ability_id = some "flare";
  energy = pos 0;
  energy_meters = no_energy;
  burn = none;
  emplacement = false;
  blocks_movement = false;
  block_radius = pos 0;
}

abbrev pub even : School → SchoolMultipliers ℤ
even _ = record {
  energy_gain_multiplier = pos 1;
  resummon_pace_multiplier = pos 1;
  stat_axis_multiplier = pos 1;
}

abbrev pub flare : Ability ℤ
flare = record {
  id = "flare";
  energy_cost = pos 35;
  effects =
      area_damage (record {
        radius = pos 50;
        damage = record { amount = pos 9; bonus_vs_mage = pos 1; bonus_vs_base = pos 1 };
        hits_base = true;
      })
      ∷ [];
  origin = origin_target;
  range = none;
}

abbrev pub hound : UnitType ℤ
hound = record {
  id = "cinder-hound";
  kind = summon;
  schools = fire ∷ [];
  max_hp = pos 30;
  damage = pos 11;
  range = pos 40;
  speed = pos 10;
  attack_cooldown_seconds = pos 1;
  support_capacity = none;
  resummon_pace_seconds = none;
  ability_id = some "flare";
  emplacement = false;
  blocks_movement = false;
  block_radius = pos 0;
}

abbrev pub context : TickContext ℤ
context = record {
  tick_rate = 20;
  seconds_per_tick = pos 0;
  round = pos_part;
  map_config = two_lane_map;
  multipliers = record { at_north = even; at_south = even };
  energy_rules = default_energy_rules;
  abilities = ("flare", flare) ∷ [];
  spells = [];
  cast_policy = first_useful_moment;
  unit_types = ("cinder-hound", hound) ∷ [];
}

abbrev pub squad : String → Side → Order → List String → List String → Troop ℤ
squad id side order mages summons = record {
  id = id;
  side = side;
  order = order;
  mage_ids = mages;
  summon_ids = summons;
  dispelled_slots = [];
  next_unit_ordinal = 2;
}

-- North holds the west lane with a mage and a hound; a south hound stands in reach of both.
abbrev pub skirmish : ℕ → ℕ → World ℤ
skirmish mage_hp foe_hp = record {
  tick = 7;
  rng_state = 0;
  units =
      soldier "n-u0" "n" mage north mage_hp (spot 80 284)
      ∷ soldier "n-u1" "n" summon north 30 (spot 80 300)
      ∷ soldier "s-u0" "s" summon south foe_hp (spot 80 286)
      ∷ [];
  troops =
      squad "n" north (record { kind = hold_zone; zone_id = some "W" }) ("n-u0" ∷ []) ("n-u1" ∷ [])
      ∷ squad "s" south (record { kind = push_enemy_base; zone_id = none }) [] ("s-u0" ∷ [])
      ∷ [];
  bases = record {
    at_north = record { max_hp = pos 1000; position = spot 187 20; hp = pos 1000 };
    at_south = record { max_hp = pos 1000; position = spot 187 549; hp = pos 1000 };
  };
  zone_score = record { at_north = pos 0; at_south = pos 0 };
  zone_holders = ("W", none) ∷ ("E", none) ∷ [];
  hazards = [];
  pending_spells = [];
  next_hazard_id = 0;
}

abbrev pub on_ground : World ℤ → Field ℤ
on_ground w = record { world = w; events = []; rng = record { state = 0 } }

abbrev pub adept : UnitType ℤ
adept = record hound {
  id = "ember-adept";
  kind = mage;
  support_capacity = some 2;
  ability_id = none;
}

abbrev army : Side → ArmySetup
army side = record {
  side = side;
  troops =
      record {
        order = record { kind = hold_zone; zone_id = some "W" };
        mages = record { type_id = "ember-adept"; count = 1 } ∷ [];
        summons = record { type_id = "cinder-hound"; count = 2 } ∷ [];
        id = none;
      }
      ∷ [];
}

-- A battle of a troop a side, with a south base that an earlier round has damaged.
abbrev pub battle : BattleSetup ℤ
battle = record {
  unit_types = adept ∷ hound ∷ [];
  armies = army north ∷ army south ∷ [];
  base_hp = record { at_north = none; at_south = some (pos 420) };
  abilities = flare ∷ [];
  spells = [];
  spell_injections = [];
}

abbrev pub whole_fits : ℤ → ℤ → ℕ
whole_fits a b = pos_part a / pos_part b

abbrev pub opening : Option (World ℤ)
opening = create_world two_lane_map whole_fits battle (record { state = 7 })

abbrev pub opening_world : World ℤ
opening_world = elim opening [ none ↦ skirmish 1 1 | some w ↦ w ]
