-- ===== src/Sim/Phases/Combat.antt =====
-- Combat, api/app/sim/phases/combat.py: each living unit acquires, swings on its cooldown, and a
-- defeat is told. A base is swung at only under the order to push it.
use go_forth.Prelude.{
  ℕ, ◌-◌, Bool, true, false, not, Option, none, some, String, ltb, if◌then◌else◌,
}
use go_forth.Prelude.Float.{Float, ◌⊕◌, ◌⊖◌, ◌≤?◌, nought, fmin}
use go_forth.Sim.Events.{base_hit, unit_defeated}
use go_forth.Sim.Field.{
  Field, TickContext, to_ticks, find_unit, update_unit, emit, for_each, add_dealt, add_taken,
}
use go_forth.Sim.Geometry.{distance}
use go_forth.Sim.Phases.{◌>>=◌}
use go_forth.Sim.Targeting.{acquire_target, declines_target}
use go_forth.Sim.Types.{Side, opposing, at, put}
use go_forth.Sim.World.{
  World, BattleUnit, Order, hold_zone, defend_base, push_enemy_base, is_alive, find_troop, unit_ref,
}

-- orders.may_attack_base
abbrev pub may_attack_base : Order → Bool
may_attack_base o = elim o.kind [ push_enemy_base ↦ true | hold_zone ↦ false | defend_base ↦ false ]

module _ {F : Type 0} where
  abbrev pub order_of : World F → String → Option Order
  order_of w troop_id = elim (find_troop w troop_id) [ none ↦ none | some t ↦ some t.order ]

  abbrev pub set_cooldown : ℕ → BattleUnit F → BattleUnit F
  set_cooldown n u = record u { cooldown_remaining = n }

  module _ ⦃f : Float F⦄ where
    abbrev pub hurt_base : Side → F → Field F → Field F
    hurt_base side dealt s =
        let base = at side s.world.bases in
        record s {
          world = record s.world {
            bases = put side (record base { hp = base.hp ⊖ dealt }) s.world.bases;
          };
        }

    -- _swing_at_the_base: whether the blow landed, and what it did.
    unfoldable pub swing_at_the_base : TickContext F → BattleUnit F → Field F → Bool × Field F
    swing_at_the_base ctx u s =
        let side = opposing u.side in
        let base = at side s.world.bases in
        let reach = u.range ⊕ (at side ctx.map_config.bases).footprint_radius in
        let dealt = fmin u.damage base.hp in
        if base.hp ≤? nought
        then (false, s)
        else if not (distance u.position base.position ≤? reach)
        then (false, s)
        else (
          true,
          emit (base_hit s.world.tick base.position side (unit_ref u) dealt)
              (update_unit u.id (add_dealt dealt) (hurt_base side dealt s)),
        )

    -- `hp -= damage`, and at 0 it stops.
    abbrev pub struck : F → BattleUnit F → BattleUnit F
    struck amount u =
        let hp = u.hp ⊖ amount in record u { hp = if hp ≤? nought then nought else hp }

    -- A swing at a unit.
    unfoldable pub swing_at : TickContext F → BattleUnit F → BattleUnit F → Field F → Field F
    swing_at ctx u target s =
        let struck_field =
          update_unit u.id (set_cooldown (to_ticks u.attack_cooldown_seconds ctx)) (
            update_unit target.id (λ t. add_taken u.damage (struck u.damage t))
              (update_unit u.id (add_dealt u.damage) s)) in
        if (target.hp ⊖ u.damage) ≤? nought
        then emit (unit_defeated s.world.tick target.position (unit_ref target) (some (unit_ref u)))
            struck_field
        else struck_field

    -- What a unit does that is free to act.
    unfoldable pub act : TickContext F → BattleUnit F → Field F → Option (Field F)
    act ctx u s = elim (acquire_target s.world u none) [
      | some target ↦ some (swing_at ctx u target s)
      | none ↦ if declines_target u then some s else elim (order_of s.world u.troop_id) [
        | none ↦ none
        | some order ↦
            let (landed, after) = swing_at_the_base ctx u s in
            if may_attack_base order
            then some (
                if landed
                then update_unit u.id (set_cooldown (to_ticks u.attack_cooldown_seconds ctx)) after
                else after)
            else some s
      ]
    ]

    -- One unit's turn: the dead do nothing, a cooldown counts down, and only at 0 it acts.
    unfoldable pub fight : TickContext F → String → Field F → Option (Field F)
    fight ctx id s = elim (find_unit s.world id) [
      | none ↦ some s
      | some u ↦
          if not (is_alive u)
          then some s
          else if ltb 0 u.cooldown_remaining
          then (let cooled = set_cooldown (u.cooldown_remaining - 1) u in
              let counted = update_unit id (set_cooldown (u.cooldown_remaining - 1)) s in
              if ltb 0 cooled.cooldown_remaining then some counted else act ctx cooled counted)
          else act ctx u s
    ]

    -- CombatPhase.run
    unfoldable pub combat : TickContext F → Field F → Option (Field F)
    combat ctx s = for_each (λ id acc. acc >>= fight ctx id) s.world.units (some s)
