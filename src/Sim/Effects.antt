-- ===== src/Sim/Effects.antt =====
-- What an ability or a spell is made of: the effects of api/app/sim/effects.py, the abilities of
-- abilities.py and the unit types of units.py. All of it is inert data.
use go_forth.Prelude.{ℕ, Bool, Option, List, String, if◌then◌else◌}
use go_forth.Prelude.Float.{Float, ◌⊗◌}
use go_forth.Sim.World.{UnitKind, is_mage, School}

pub data CastOrigin : Type 0 where
  origin_self origin_target : CastOrigin

pub record DamageProfile (F : Type 0) : Type 0 where
  pub amount : F
  pub bonus_vs_mage : F
  pub bonus_vs_base : F

-- `bonus if kind == "mage" else 1.0`
abbrev pub mage_factor : {F : Type 0} ⦃f : Float F⦄ → F → UnitKind → F
mage_factor ⦃f⦄ bonus kind = if is_mage kind then bonus else f.of_nat 1

module _ {F : Type 0} ⦃f : Float F⦄ where
  abbrev pub against_unit : DamageProfile F → UnitKind → F
  against_unit profile kind = profile.amount ⊗ mage_factor profile.bonus_vs_mage kind

  abbrev pub against_base : DamageProfile F → F
  against_base profile = profile.amount ⊗ profile.bonus_vs_base

pub record DashToTarget (F : Type 0) : Type 0 where
  pub max_distance : F
  pub stop_short : F

pub record AreaDamage (F : Type 0) : Type 0 where
  pub radius : F
  pub damage : DamageProfile F
  pub hits_base : Bool

pub record Burn (F : Type 0) : Type 0 where
  pub radius : F
  pub damage_per_second : F
  pub duration_seconds : F
  pub spread_radius : F
  pub bonus_vs_mage : F

pub record BurningGround (F : Type 0) : Type 0 where
  pub radius : F
  pub damage_per_second : F
  pub duration_seconds : F
  pub bonus_vs_mage : F

pub record Knockback (F : Type 0) : Type 0 where
  pub radius : F
  pub distance : F

pub record EnergyRefill (F : Type 0) : Type 0 where
  pub radius : F
  pub amount : F
  pub include_self : Bool

pub data Effect (F : Type 0) : Type 0 where
  dash_to_target : DashToTarget F → Effect F
  area_damage : AreaDamage F → Effect F
  burn : Burn F → Effect F
  burning_ground : BurningGround F → Effect F
  knockback : Knockback F → Effect F
  energy_refill : EnergyRefill F → Effect F

pub record Ability (F : Type 0) : Type 0 where
  pub id : String
  pub energy_cost : F
  pub effects : List (Effect F)
  pub origin : CastOrigin
  pub range : Option F

pub record UnitType (F : Type 0) : Type 0 where
  pub id : String
  pub kind : UnitKind
  pub schools : List School
  pub max_hp : F
  pub damage : F
  pub range : F
  pub speed : F
  pub attack_cooldown_seconds : F
  pub support_capacity : Option ℕ
  pub resummon_pace_seconds : Option F
  pub ability_id : Option String
  pub emplacement : Bool
  pub blocks_movement : Bool
  pub block_radius : F
