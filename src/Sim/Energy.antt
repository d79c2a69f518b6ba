-- ===== src/Sim/Energy.antt =====
-- The energy gauge's rules, api/app/sim/energy.py, and the multipliers of a school that schools.py
-- resolves. A table on the schools is a function; the dict `best` is the best rate of each meter.
use go_forth.Prelude.{Bool, true, false, Option, none, some, List, [], ◌∷◌, ◌++◌, if◌then◌else◌}
use go_forth.Prelude.Float.{Float, ◌⊕◌, ◌⊗◌, ◌<?◌, nought, fmax}
use go_forth.Sim.World.{School, EnergyMeters}

pub data EnergyMeter : Type 0 where
  dealt taken elapsed ally : EnergyMeter

-- ENERGY_METERS
abbrev pub energy_meters : List EnergyMeter
energy_meters = dealt ∷ taken ∷ elapsed ∷ ally ∷ []

abbrev pub meter_eq : EnergyMeter → EnergyMeter → Bool
meter_eq dealt dealt = true
meter_eq taken taken = true
meter_eq elapsed elapsed = true
meter_eq ally ally = true
meter_eq _ _ = false

pub record EnergySource (F : Type 0) : Type 0 where
  pub meter : EnergyMeter
  pub energy_per_unit : F

pub record SchoolMultipliers (F : Type 0) : Type 0 where
  pub energy_gain_multiplier : F
  pub resummon_pace_multiplier : F
  pub stat_axis_multiplier : F

module _ {F : Type 0} where
  abbrev pub reading : EnergyMeters F → EnergyMeter → F
  reading m dealt = m.damage_dealt
  reading m taken = m.damage_taken
  reading m elapsed = m.elapsed_seconds
  reading m ally = m.ally_defeated

  abbrev pub rules_of : (School → List (EnergySource F)) → List School → List (EnergySource F)
  rules_of table [] = []
  rules_of table (school ∷ schools) = table school ++ rules_of table schools

  module _ ⦃f : Float F⦄ where
    -- The default energy rules of a battle that configures none: DEFAULT_ENERGY_RULES.
    abbrev pub default_energy_rules : School → List (EnergySource F)
    default_energy_rules School.fire =
        record { meter = elapsed; energy_per_unit = f.of_nat 4 }
        ∷ record { meter = dealt; energy_per_unit = f.of_nat 1 }
        ∷ []
    default_energy_rules School.stone =
        record { meter = elapsed; energy_per_unit = f.of_nat 4 }
        ∷ record { meter = taken; energy_per_unit = f.of_nat 1 }
        ∷ []
    default_energy_rules School.artifice =
        record { meter = elapsed; energy_per_unit = f.of_nat 10 } ∷ []
    default_energy_rules School.necromancy =
        record { meter = elapsed; energy_per_unit = f.of_nat 4 }
        ∷ record { meter = ally; energy_per_unit = f.of_nat 25 }
        ∷ []
    default_energy_rules School.time = record { meter = elapsed; energy_per_unit = f.of_nat 4 } ∷ []
    default_energy_rules School.neutral =
        record { meter = elapsed; energy_per_unit = f.of_nat 4 } ∷ []

    -- One source's turn at `best[meter]`.
    abbrev better : EnergyMeter → EnergySource F → Option F → Option F
    better meter source best =
        if meter_eq source.meter meter
        then elim best [
          | none ↦ some source.energy_per_unit
          | some current ↦
              some (if current <? source.energy_per_unit then source.energy_per_unit else current)
        ]
        else best

    unfoldable pub best_rate : EnergyMeter → List (EnergySource F) → Option F → Option F
    best_rate meter [] best = best
    best_rate meter (source ∷ rest) best = best_rate meter rest (better meter source best)

    unfoldable pub rule_over : List EnergyMeter → List (EnergySource F) → List (EnergySource F)
    rule_over [] sources = []
    rule_over (meter ∷ meters) sources =
        let rest = rule_over meters sources in
        elim (best_rate meter sources none) [
          | none ↦ rest
          | some rate ↦ record { meter = meter; energy_per_unit = rate } ∷ rest
        ]

    -- energy_rule_for
    abbrev pub energy_rule_for :
        List School → (School → List (EnergySource F)) → List (EnergySource F)
    energy_rule_for schools table = rule_over energy_meters (rules_of table schools)

    abbrev best_multiplier : (School → SchoolMultipliers F) → List School → F → F
    best_multiplier table [] best = best
    best_multiplier table (school ∷ schools) best =
        best_multiplier table schools (fmax best (table school).energy_gain_multiplier)

    -- energy_multiplier_for
    abbrev pub energy_multiplier_for : List School → (School → SchoolMultipliers F) → F
    energy_multiplier_for [] table = f.of_nat 1
    energy_multiplier_for (school ∷ schools) table =
        best_multiplier table schools (table school).energy_gain_multiplier

    unfoldable pub total_gain : EnergyMeters F → List (EnergySource F) → F → F
    total_gain meters [] total = total
    total_gain meters (source ∷ rule) total =
        total_gain meters rule (total ⊕ reading meters source.meter ⊗ source.energy_per_unit)

    -- energy_gain
    abbrev pub energy_gain : EnergyMeters F → List (EnergySource F) → F → F
    energy_gain meters rule multiplier = total_gain meters rule nought ⊗ multiplier
