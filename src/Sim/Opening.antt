-- ===== src/Sim/Opening.antt =====
-- The opening state of a battle, `create_world` of api/app/sim/world.py, with `none` where it raises.
-- The AI that `attach_behavior` resolves is left out: no unit has committed to an intent yet.
pub mod Build
pub mod Members
pub mod Sound
use go_forth.Prelude.{
  ℕ, suc, ◌+◌, Bool, true, false, Option, none, some, List, [], ◌∷◌, ◌++◌, String, map, any, all,
  length, select, not, ◌&&◌, ◌||◌, ◌==◌, str_eq, if◌then◌else◌,
}
use go_forth.Prelude.Decimal.{decimal}
use go_forth.Prelude.Dict.{Dict, lookup}
use go_forth.Prelude.Float.{Float, ◌≤?◌, ◌<?◌, nought}
use go_forth.Prelude.Strip.{is_empty}
use go_forth.Sim.BattleMap.{Span, MapConfig}
use go_forth.Sim.BattleMap.Checked.{sound, unsound, validate_map_config}
use go_forth.Sim.Deployment.{
  Formation, derive_formation, deployment_band, deployment_anchor, deployment_spot,
}
use go_forth.Sim.Effects.{Ability, Effect, UnitType}
use go_forth.Sim.Formation.{objective_position, station}
use go_forth.Sim.Phases.Energy.{no_energy}
use go_forth.Sim.Rng.{Rng}
use go_forth.Sim.Spells.{Spell, SpellInjection, ok, err, build_spell_catalog, schedule_injections}
use go_forth.Sim.Types.{Side, north, south, side_eq, BySide, at, both, Vec2}
use go_forth.Sim.UnitTypes.{build_unit_type_catalog}
use go_forth.Sim.World.{
  World, BattleUnit, Troop, BaseState, Order, OrderKind, hold_zone, defend_base, push_enemy_base,
  School, UnitKind, mage, summon, is_mage, contains_id,
}
use Prim.Native.String

-- `>>` on options.
infixl 5 ◌>>=◌
abbrev pub ◌>>=◌ : {A B : Type 0} → Option A → (A → Option B) → Option B
none >>= f = none
some a >>= f = f a

pub record RosterEntry : Type 0 where
  pub type_id : String
  pub count : ℕ

pub record TroopSetup : Type 0 where
  pub order : Order
  pub mages : List RosterEntry
  pub summons : List RosterEntry
  pub id : Option String

pub record ArmySetup : Type 0 where
  pub side : Side
  pub troops : List TroopSetup

pub record BattleSetup (F : Type 0) : Type 0 where
  pub unit_types : List (UnitType F)
  pub armies : List ArmySetup
  pub base_hp : BySide (Option F)
  pub abilities : List (Ability F)
  pub spells : List (Spell (Effect F))
  pub spell_injections : List (SpellInjection F)

abbrev kind_eq : UnitKind → UnitKind → Bool
kind_eq mage mage = true
kind_eq summon summon = true
kind_eq _ _ = false

abbrev pub school_eq : School → School → Bool
school_eq School.fire School.fire = true
school_eq School.stone School.stone = true
school_eq School.artifice School.artifice = true
school_eq School.time School.time = true
school_eq School.necromancy School.necromancy = true
school_eq School.neutral School.neutral = true
school_eq _ _ = false

abbrev order_kind_eq : OrderKind → OrderKind → Bool
order_kind_eq hold_zone hold_zone = true
order_kind_eq defend_base defend_base = true
order_kind_eq push_enemy_base push_enemy_base = true
order_kind_eq _ _ = false

abbrev same_zone : Option String → Option String → Bool
same_zone none none = true
same_zone (some a) (some b) = str_eq a b
same_zone _ _ = false

abbrev pub order_eq : Order → Order → Bool
order_eq a b = order_kind_eq a.kind b.kind && same_zone a.zone_id b.zone_id

-- What the dicts `totals` and `placed` hold for an order: how often it came.
abbrev times : Order → List Order → ℕ
times order orders = length (select (order_eq order) orders)

-- _band_shares, after the orders before.
unfoldable pub band_shares : List Order → List Order → List Order → List (ℕ × ℕ)
band_shares all before [] = []
band_shares all before (order ∷ rest) =
    (times order before, times order all) ∷ band_shares all (order ∷ before) rest

-- _assert_one_army_per_side: whether it returns.
unfoldable pub one_army_per_side : List ArmySetup → Bool
one_army_per_side armies =
    let of_side =
      λ (side : Side). length (select (λ (a : ArmySetup). side_eq a.side side) armies) in
    of_side north == 1 && of_side south == 1

abbrev pub side_name : Side → String
side_name north = "north"
side_name south = "south"

abbrev default_id : Side → ℕ → String
default_id side index = String.◌++◌ (side_name side) (String.◌++◌ "-t" (decimal index))

-- `troop_setup.id or f"{army.side}-t{troop_index}"`
abbrev pub troop_id_of : Side → ℕ → Option String → String
troop_id_of side index none = default_id side index
troop_id_of side index (some id) = if is_empty id then default_id side index else id

abbrev pub member_id : String → ℕ → String
member_id troop_id index = String.◌++◌ troop_id (String.◌++◌ "-u" (decimal index))

unfoldable pub copies : {A : Type 0} → ℕ → A → List A
copies ℕ.zero x = []
copies (suc n) x = x ∷ copies n x

module _ {F : Type 0} where
  -- _expand
  unfoldable pub expand :
      List RosterEntry → Dict (UnitType F) → UnitKind → Option (List (UnitType F))
  expand [] catalog kind = some []
  expand (entry ∷ entries) catalog kind =
      let rest = expand entries catalog kind in
      elim (lookup entry.type_id catalog) [
        | none ↦ none
        | some t ↦
            if not (kind_eq t.kind kind) || entry.count == 0
            then none
            else elim rest [ none ↦ none | some more ↦ some (copies entry.count t ++ more) ]
      ]

  -- _assert_supported: whether it returns.
  unfoldable pub supported : List (UnitType F) → List (UnitType F) → Bool
  supported [] summons = false
  supported (m ∷ ms) summons =
      all
        (λ (s : UnitType F).
          any (λ school. any (λ (t : UnitType F). any (school_eq school) t.schools) (m ∷ ms))
            s.schools)
        summons

  -- The check of `create_world` on the abilities that the cards name.
  unfoldable pub abilities_known : List (Ability F) → List (UnitType F) → Bool
  abilities_known abilities = all (λ (t : UnitType F). elim t.ability_id [
    | none ↦ true
    | some id ↦ any (λ (a : Ability F). str_eq a.id id) abilities
  ])

module _ {F : Type 0} ⦃f : Float F⦄ where
  -- _carried_base_hp
  unfoldable pub carried_base_hp : MapConfig F → Side → BySide (Option F) → Option F
  carried_base_hp config side carried =
      let full = (at side config.bases).max_hp in
      elim (at side carried) [
        | none ↦ some full
        | some hp ↦ if hp ≤? nought then none else if full <? hp then none else some hp
      ]

  -- A member of a troop where it starts.
  abbrev pub member : String → String → Side → UnitType F → Vec2 F → Vec2 F → Vec2 F → BattleUnit F
  member id troop_id side t spot offset post = record {
    id = id;
    type_id = t.id;
    kind = t.kind;
    schools = t.schools;
    side = side;
    troop_id = troop_id;
    max_hp = t.max_hp;
    damage = t.damage;
    range = t.range;
    speed = t.speed;
    attack_cooldown_seconds = t.attack_cooldown_seconds;
    hp = t.max_hp;
    position = spot;
    formation_offset = offset;
    destination = post;
    cooldown_remaining = 0;
    intent = none;
    support_capacity = t.support_capacity;
    resummon_pace_seconds = t.resummon_pace_seconds;
    resummon_remaining = 0;
    ability_id = t.ability_id;
    energy = nought;
    energy_meters = no_energy;
    burn = none;
    emplacement = t.emplacement;
    blocks_movement = t.blocks_movement;
    block_radius = t.block_radius;
  }
