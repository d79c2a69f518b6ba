-- ===== src/Sim/Phases/Spells.antt =====
-- Landing the player spells that are due, api/app/sim/phases/spells.py.
use go_forth.Prelude.{false, Option, none, some, List, [], ◌∷◌}
use go_forth.Prelude.Dict.{lookup}
use go_forth.Prelude.Float.{Float}
use go_forth.Sim.Events.{spell_cast}
use go_forth.Sim.Field.{Field, TickContext, emit}
use go_forth.Sim.Resolution.{Casting, no_outcome, swing_of}
use go_forth.Sim.Resolution.Resolvers.{apply_effects}
use go_forth.Sim.Spells.{SpellInjection, take_due}

module _ {F : Type 0} ⦃f : Float F⦄ where
  -- One injection lands; a spell that the catalog lacks is a ValueError.
  unfoldable pub land : TickContext F → SpellInjection F → Field F → Option (Field F)
  land ctx i s = elim (lookup i.spell_id ctx.spells) [
    | none ↦ none
    | some spell ↦
        let start : Casting F = record {
          field = s;
          cast = record {
            side = i.side;
            origin = i.location;
            caster = none;
            target = none;
            follows_caster = false;
            outcome = no_outcome;
          };
        } in
        let done = apply_effects ctx spell.effects start in
        some (
          emit (spell_cast done.field.world.tick i.location i.spell_id (swing_of done.cast.outcome))
            done.field)
  ]

  unfoldable pub land_all : TickContext F → List (SpellInjection F) → Field F → Option (Field F)
  land_all ctx [] s = some s
  land_all ctx (i ∷ rest) s = elim (land ctx i s) [ none ↦ none | some t ↦ land_all ctx rest t ]

  -- SpellsPhase.run
  unfoldable pub spells : TickContext F → Field F → Option (Field F)
  spells ctx s =
      let (landing, pending) = take_due s.world.tick s.world.pending_spells in
      land_all ctx landing (record s { world = record s.world { pending_spells = pending } })
