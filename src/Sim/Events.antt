-- ===== src/Sim/Events.antt =====
-- The event stream, api/app/sim/events.py: one envelope for every event, and what it moved.
use go_forth.Prelude.{ℕ, Bool, false, Option, none, some, List, [], ◌∷◌, String, if◌then◌else◌}
use go_forth.Prelude.Float.{Float, ◌⊖◌, nought}
use go_forth.Sim.Types.{Side, side_eq, BySide, both, Vec2, UnitRef}

pub data BattleEventType : Type 0 where
  unit_defeated_event zone_flip_event base_hit_event ability_cast_event : BattleEventType
  spell_event resummon_event troop_dissolve_event : BattleEventType

pub record EventActors : Type 0 where
  pub source : Option UnitRef
  pub targets : List UnitRef

pub record EventSwing (F : Type 0) : Type 0 where
  pub zone_score : BySide F
  pub base_hp : BySide F
  pub units_removed : List UnitRef

pub record BattleEvent (F : Type 0) : Type 0 where
  pub kind : BattleEventType
  pub tick : ℕ
  pub position : Vec2 F
  pub actors : EventActors
  pub swing : EventSwing F
  pub zone_id : Option String
  pub label : Option String

abbrev pub no_actors : EventActors
no_actors = record { source = none; targets = [] }

-- Whether a zone's holder is that side.
abbrev pub is_holder : Option Side → Side → Bool
is_holder none side = false
is_holder (some s) side = side_eq s side

module _ {F : Type 0} ⦃f : Float F⦄ where
  -- _NO_DELTA
  abbrev pub no_delta : BySide F
  no_delta = both λ _. nought

  abbrev pub no_swing : EventSwing F
  no_swing = record { zone_score = no_delta; base_hp = no_delta; units_removed = [] }

  -- _delta
  abbrev pub delta : Option Side → Option Side → F → BySide F
  delta gaining losing amount = both λ side.
      (if is_holder gaining side then amount else nought)
      ⊖ (if is_holder losing side then amount else nought)

  abbrev pub unit_defeated : ℕ → Vec2 F → UnitRef → Option UnitRef → BattleEvent F
  unit_defeated tick position unit killer = record {
    kind = unit_defeated_event;
    tick = tick;
    position = position;
    actors = record { source = killer; targets = unit ∷ [] };
    swing = record no_swing { units_removed = unit ∷ [] };
    zone_id = none;
    label = none;
  }

  abbrev pub resummoned : ℕ → UnitRef → UnitRef → Vec2 F → BattleEvent F
  resummoned tick summon mage position = record {
    kind = resummon_event;
    tick = tick;
    position = position;
    actors = record { source = some mage; targets = summon ∷ [] };
    swing = no_swing;
    zone_id = none;
    label = none;
  }

  abbrev pub troop_dissolved : ℕ → Vec2 F → List UnitRef → BattleEvent F
  troop_dissolved tick position summons = record {
    kind = troop_dissolve_event;
    tick = tick;
    position = position;
    actors = record { source = none; targets = summons };
    swing = record no_swing { units_removed = summons };
    zone_id = none;
    label = none;
  }

  abbrev pub zone_flip : ℕ → Vec2 F → String → Option Side → Option Side → F → BattleEvent F
  zone_flip tick position zone_id holder previous points = record {
    kind = zone_flip_event;
    tick = tick;
    position = position;
    actors = no_actors;
    swing = record no_swing { zone_score = delta holder previous points };
    zone_id = some zone_id;
    label = none;
  }

  abbrev pub base_hit : ℕ → Vec2 F → Side → UnitRef → F → BattleEvent F
  base_hit tick position owner attacker damage = record {
    kind = base_hit_event;
    tick = tick;
    position = position;
    actors = record { source = some attacker; targets = [] };
    swing = record no_swing { base_hp = delta none (some owner) damage };
    zone_id = none;
    label = none;
  }

  abbrev pub ability_cast :
      ℕ → Vec2 F → String → UnitRef → List UnitRef → EventSwing F → BattleEvent F
  ability_cast tick position ability_id caster targets swing = record {
    kind = ability_cast_event;
    tick = tick;
    position = position;
    actors = record { source = some caster; targets = targets };
    swing = swing;
    zone_id = none;
    label = some ability_id;
  }

  abbrev pub spell_cast : ℕ → Vec2 F → String → EventSwing F → BattleEvent F
  spell_cast tick position spell_id swing = record {
    kind = spell_event;
    tick = tick;
    position = position;
    actors = no_actors;
    swing = swing;
    zone_id = none;
    label = some spell_id;
  }
