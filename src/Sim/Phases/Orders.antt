-- ===== src/Sim/Phases/Orders.antt =====
-- Orders into places, api/app/sim/phases/orders.py: every unit's destination, every tick.
use go_forth.Prelude.{Option, none, some, List, [], ◌∷◌}
use go_forth.Prelude.Float.{Float}
use go_forth.Sim.BattleMap.{MapConfig}
use go_forth.Sim.Field.{Field, TickContext}
use go_forth.Sim.Formation.{station}
use go_forth.Sim.Phases.Combat.{order_of}
use go_forth.Sim.World.{World, BattleUnit}

module _ {F : Type 0} ⦃f : Float F⦄ where
  -- A unit of no troop is a KeyError, an order that the map does not have a ValueError.
  unfoldable pub posted : World F → MapConfig F → BattleUnit F → Option (BattleUnit F)
  posted w config u = elim (order_of w u.troop_id) [
    | none ↦ none
    | some order ↦ elim (station order u.side u.formation_offset config) [
      | none ↦ none
      | some p ↦ some (record u { destination = p })
    ]
  ]

  unfoldable pub posted_all :
      World F → MapConfig F → List (BattleUnit F) → Option (List (BattleUnit F))
  posted_all w config [] = some []
  posted_all w config (u ∷ us) = elim (posted w config u) [
    | none ↦ none
    | some v ↦ elim (posted_all w config us) [ none ↦ none | some vs ↦ some (v ∷ vs) ]
  ]

  -- OrdersPhase.run
  unfoldable pub orders : TickContext F → Field F → Option (Field F)
  orders ctx s = elim (posted_all s.world ctx.map_config s.world.units) [
    | none ↦ none
    | some us ↦ some (record s { world = record s.world { units = us } })
  ]
