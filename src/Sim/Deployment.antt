-- ===== src/Sim/Deployment.antt =====
-- The shape of a troop and where it starts, api/app/sim/formation.py, both derived from its order.
-- `fits a b` is `int(a // b)`, and 0 where that is below 0, which the program then raises to 1.
use go_forth.Prelude.{
  ℕ, zero, suc, ◌+◌, ◌-◌, ◌/◌, ◌%◌, Bool, true, false, Option, none, some, List, [], ◌∷◌, ◌++◌, map,
  ltb, ◌==◌, if◌then◌else◌,
}
use go_forth.Prelude.Float.{Float, ◌⊕◌, ◌⊖◌, ◌⊗◌, ◌⊘◌, ◌≟◌, nought, fmin, fmax}
use go_forth.Sim.BattleMap.{Span, MapConfig, zone_by_id}
use go_forth.Sim.Formation.{formation_spacing, clamp_into}
use go_forth.Sim.Rng.{Rng, next_float}
use go_forth.Sim.Types.{Side, north, south, at, Vec2}
use go_forth.Sim.World.{Order, OrderKind, hold_zone, defend_base, push_enemy_base}
use Prim.Native.Nat.{min, max}

pub record Formation (F : Type 0) : Type 0 where
  pub offsets : List (Vec2 F)
  pub depth : F
  pub lead : F
  pub columns : ℕ

-- MAX_RANK_COLUMNS
abbrev max_rank_columns : ℕ
max_rank_columns = 14

-- orders.anchors_on_mage
abbrev pub anchors_on_mage : OrderKind → Bool
anchors_on_mage hold_zone = true
anchors_on_mage defend_base = false
anchors_on_mage push_enemy_base = false

-- orders.faces_own_base
abbrev pub faces_own_base : OrderKind → Bool
faces_own_base hold_zone = false
faces_own_base defend_base = true
faces_own_base push_enemy_base = false

-- _rows
abbrev pub rows : ℕ → ℕ → ℕ
rows count columns = (count + columns - 1) / columns

module _ {F : Type 0} ⦃f : Float F⦄ where
  abbrev two : F
  two = f.of_nat 2

  -- forward
  abbrev pub forward : Side → F
  forward north = f.of_nat 1
  forward south = nought ⊖ f.of_nat 1

  -- MAGE_SETBACK_PUSH and MAGE_SETBACK_GUARDED
  abbrev pub setback_of : OrderKind → F
  setback_of hold_zone = f.of_nat 24
  setback_of defend_base = f.of_nat 24
  setback_of push_enemy_base = f.of_nat 12

  -- _block, from the slot of that index, a pair of the sideways offset and the depth.
  unfoldable pub block : ℕ → ℕ → F → ℕ → List (F × F)
  block zero columns depth_start index = []
  block (suc n) columns depth_start index =
      (
        (f.of_nat (index % columns) ⊖ f.of_nat (columns - 1) ⊘ two) ⊗ formation_spacing,
        depth_start ⊕ f.of_nat (index / columns) ⊗ f.of_nat 24,
      )
      ∷ block n columns depth_start (suc index)

  -- _lane
  abbrev pub lane_offset : F → F → F
  lane_offset facing depth = if depth ≟ nought then nought else (nought ⊖ facing) ⊗ depth

  abbrev deepest : List (F × F) → F → F
  deepest [] best = best
  deepest ((_, depth) ∷ slots) best = deepest slots (fmax best depth)

  -- `max(..., default=0.0)` over the depths.
  abbrev pub depth_of : List (F × F) → F
  depth_of [] = nought
  depth_of ((_, depth) ∷ slots) = deepest slots depth

  module _ (fits : F → F → ℕ) where
    unfoldable pub columns_for : ℕ → F → ℕ
    columns_for count band_width =
        if count == 0
        then 1
        else max 1 (min (min count (max 1 (fits band_width formation_spacing))) max_rank_columns)

    unfoldable pub derive_formation : Order → Side → ℕ → ℕ → F → Formation F
    derive_formation order side mage_count summon_count band_width =
        let summon_columns = columns_for summon_count band_width in
        let mage_depth : F =
          if ltb 0 summon_count
          then f.of_nat (rows summon_count summon_columns - 1) ⊗ f.of_nat 24 ⊕ setback_of order.kind
          else nought in
        let mages = block mage_count (columns_for mage_count band_width) mage_depth 0 in
        let slots : List (F × F) = mages ++ block summon_count summon_columns nought 0 in
        let origin : F = if anchors_on_mage order.kind then mage_depth else nought in
        record {
          offsets =
              map (λ slot. record { x = slot.0; y = lane_offset (forward side) (slot.1 ⊖ origin) })
                slots;
          depth = depth_of slots;
          lead = origin;
          columns = summon_columns;
        }

  -- The part of the strip that an order points at.
  unfoldable pub band_span : MapConfig F → Side → Order → Option (Span F)
  band_span config side order =
      let extent = (at side config.deployment).extent in
      elim order.kind [
        | hold_zone ↦ elim order.zone_id [
          | none ↦ some extent
          | some zone_id ↦ elim (zone_by_id config zone_id) [
            | none ↦ none
            | some zone ↦ some (record {
              start = fmax extent.start zone.extent.start;
              stop = fmin extent.stop zone.extent.stop;
            })
          ]
        ]
        | defend_base ↦ some extent
        | push_enemy_base ↦ some extent
      ]

  unfoldable pub deployment_band : MapConfig F → Side → Order → ℕ → ℕ → Option (Span F)
  deployment_band config side order share_index share_count = elim (band_span config side order) [
    | none ↦ none
    | some span ↦
        let width = (span.stop ⊖ span.start) ⊘ f.of_nat (max 1 share_count) in
        let start = span.start ⊕ width ⊗ f.of_nat share_index in
        some (record { start = start; stop = start ⊕ width })
  ]

  unfoldable pub deployment_anchor : MapConfig F → Side → Order → Span F → Formation F → Vec2 F
  deployment_anchor config side order band formation =
      let lane = (at side config.deployment).lane in
      let inset = formation_spacing ⊘ two in
      let free = fmax nought ((lane.stop ⊖ lane.start) ⊖ two ⊗ inset ⊖ formation.depth) in
      let given_up : F = if faces_own_base order.kind then free else nought in
      let far_edge : F = elim side [ north ↦ lane.stop | south ↦ lane.start ] in
      record {
        x = (band.start ⊕ band.stop) ⊘ two;
        y = far_edge ⊖ (inset ⊕ given_up ⊕ formation.lead) ⊗ forward side;
      }

  unfoldable pub deployment_spot : MapConfig F → Side → Vec2 F → Vec2 F → Rng → Vec2 F × Rng
  deployment_spot config side anchor offset rng =
      let strip = at side config.deployment in
      let (drawn, after) = next_float rng in
      let jitter = (drawn ⊗ two ⊖ f.of_nat 1) ⊗ f.of_nat 1 in
      (
        record {
          x = clamp_into (anchor.x ⊕ offset.x ⊕ jitter) strip.extent nought;
          y = clamp_into (anchor.y ⊕ offset.y) strip.lane nought;
        },
        after,
      )
