-- ===== src/Sim/Resonance.antt =====
-- Resonance: how many mages of a school a side deployed (api/app/sim/resonance.py), and what that is
-- worth (schools.py). `none` where the program raises.
use go_forth.Prelude.{
  ℕ, ◌+◌, ◌-◌, Bool, true, false, Option, none, some, List, [], ◌∷◌, String, length, first, any,
  drop, not, str_eq, ◌&&◌, if◌then◌else◌,
}
use go_forth.Prelude.Dict.{Dict}
use go_forth.Prelude.Float.{Float, ◌⊘◌, ◌<?◌, nought}
use go_forth.Sim.Energy.{SchoolMultipliers}
use go_forth.Sim.Opening.{school_eq, ◌>>=◌}
use go_forth.Sim.Types.{Side, north, south, BySide}
use go_forth.Sim.World.{
  World, BattleUnit, School, fire, stone, artifice, time, necromancy, neutral, is_mage,
}
use Prim.Native.Nat.{min}

-- schools.SCHOOLS
abbrev pub schools : List School
schools = fire ∷ stone ∷ artifice ∷ time ∷ necromancy ∷ neutral ∷ []

-- The dict `counts`, which has a number for each side and school.
abbrev pub Counts : Type 0
Counts = Side → School → ℕ

abbrev same_side : Side → Side → Bool
same_side north north = true
same_side south south = true
same_side _ _ = false

-- `counts[side][school] += 1`
abbrev pub counted : Side → School → Counts → Counts
counted side school counts =
    λ s k. if same_side s side && school_eq k school then counts s k + 1 else counts s k

unfoldable pub count_schools : Side → List School → Counts → Counts
count_schools side [] counts = counts
count_schools side (school ∷ rest) counts = count_schools side rest (counted side school counts)

unfoldable pub count_units : {F : Type 0} → List (BattleUnit F) → Counts → Counts
count_units [] counts = counts
count_units (u ∷ us) counts =
    count_units us (if is_mage u.kind then count_schools u.side u.schools counts else counts)

unfoldable pub count_resonance : {F : Type 0} → World F → Counts
count_resonance w = count_units w.units (λ s k. 0)

pub record SchoolConfig (F : Type 0) : Type 0 where
  pub id : School
  pub multipliers : Option (Dict F)
  pub resonance : Option (List (SchoolMultipliers F))

abbrev pub Table : Type 0 → Type 0
Table F = List (School × SchoolMultipliers F)

module _ {F : Type 0} ⦃f : Float F⦄ where
  -- A step of the curve, its three levers in hundredths.
  abbrev step_of : ℕ → ℕ → ℕ → SchoolMultipliers F
  step_of gain pace axis = record {
    energy_gain_multiplier = f.of_nat gain ⊘ f.of_nat 100;
    resummon_pace_multiplier = f.of_nat pace ⊘ f.of_nat 100;
    stat_axis_multiplier = f.of_nat axis ⊘ f.of_nat 100;
  }

  -- DEFAULT_RESONANCE_CURVE
  abbrev pub default_resonance_curve : List (SchoolMultipliers F)
  default_resonance_curve =
      step_of 100 100 100
      ∷ step_of 75 135 88
      ∷ step_of 85 120 94
      ∷ step_of 100 100 100
      ∷ step_of 115 90 108
      ∷ []

  -- resonance_step
  unfoldable pub resonance_step : List (SchoolMultipliers F) → ℕ → Option (SchoolMultipliers F)
  resonance_step curve count = elim (drop (min count (length curve - 1)) curve) [
    | [] ↦ none
    | step ∷ _ ↦ some step
  ]

  -- `resolved[lever] = value`, for the names in _LEVERS.
  unfoldable pub with_lever : String → F → SchoolMultipliers F → Option (SchoolMultipliers F)
  with_lever lever value m =
      if str_eq lever "energy_gain_multiplier"
      then some (record m { energy_gain_multiplier = value })
      else if str_eq lever "resummon_pace_multiplier"
      then some (record m { resummon_pace_multiplier = value })
      else if str_eq lever "stat_axis_multiplier"
      then some (record m { stat_axis_multiplier = value })
      else none

  -- _merge
  unfoldable pub merge : SchoolMultipliers F → Dict F → Option (SchoolMultipliers F)
  merge base [] = some base
  merge base ((lever, value) ∷ overrides) =
      with_lever lever value base >>= λ next. if nought <? value then merge next overrides else none

  abbrev config_of : School → List (SchoolConfig F) → Option (SchoolConfig F)
  config_of school configs = first (λ (c : SchoolConfig F). school_eq c.id school) configs

  -- _by_school: whether it returns.
  unfoldable pub configured_once : List (SchoolConfig F) → Bool
  configured_once [] = true
  configured_once (c ∷ configs) =
      not (any (λ (d : SchoolConfig F). school_eq d.id c.id) configs) && configured_once configs

  -- `... or DEFAULT_RESONANCE_CURVE`, which an empty curve gives way to.
  abbrev pub curve_of : Option (SchoolConfig F) → List (SchoolMultipliers F)
  curve_of none = default_resonance_curve
  curve_of (some c) = elim c.resonance [
    | none ↦ default_resonance_curve
    | some curve ↦ elim curve [ [] ↦ default_resonance_curve | step ∷ steps ↦ step ∷ steps ]
  ]

  abbrev pub pinned : Option (SchoolConfig F) → Dict F
  pinned none = []
  pinned (some c) = elim c.multipliers [ none ↦ [] | some overrides ↦ overrides ]

  -- The loop of resolve_school_multipliers.
  unfoldable pub resolve_each :
      List (SchoolConfig F) → (School → ℕ) → List School → Option (Table F)
  resolve_each configs counts [] = some []
  resolve_each configs counts (school ∷ rest) =
      let config = config_of school configs in
      resonance_step (curve_of config) (counts school) >>= λ step.
      merge step (pinned config) >>= λ resolved.
      resolve_each configs counts rest >>= λ table. some ((school, resolved) ∷ table)

  unfoldable pub resolve_school_multipliers :
      List (SchoolConfig F) → (School → ℕ) → Option (Table F)
  resolve_school_multipliers configs counts =
      if configured_once configs then resolve_each configs counts schools else none

  unfoldable pub resolve_side_multipliers :
      List (SchoolConfig F) → Counts → Option (BySide (Table F))
  resolve_side_multipliers configs counts =
      resolve_school_multipliers configs (counts north) >>= λ at_north.
      resolve_school_multipliers configs (counts south) >>= λ at_south.
      some (record { at_north = at_north; at_south = at_south })
