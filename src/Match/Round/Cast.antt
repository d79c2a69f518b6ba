-- ===== src/Match/Round/Cast.antt =====
-- What a cast does to a round, refused or accepted (api/app/match/round.py).
use go_forth.Prelude.{
  ◌+◌, ◌≡◌, ◌≢◌, refl, true, false, none, some, List, [], ◌∷◌, ◌++◌, String, arith, first, str_eq,
  Bool-cases, Option-cases, inl, inr, All,
}
use mathlib.Core.Path.{subst}
use go_forth.Prelude.Dict.{Dict, lookup}
use go_forth.Prelude.Float.{Float}
use go_forth.Match.Wire.{LoadoutSpell, CastCommand}
use go_forth.Match.Round.{
  AuthoritativeRound, CastOutcome, cast, take_cast, is_stale, equipped, on_map, can_afford, spend,
  resolved_cast, injection_of,
}
use go_forth.Sim.Runner
use go_forth.Sim.Spells
use go_forth.Sim.Spells.{SpellInjection, Result, ok, err, ◌>>=◌, Result-cases}
use go_forth.Prelude.Sorting.{list_insert, bisect_right}
use go_forth.Sim.Types.{Side, north, south, opposing, at}

module _ {F S : Type 0} ⦃f : Float F⦄ where
  -- A cast that is answered with a refusal leaves the round exactly as it was.
  pub cast_refused :
      (r r' : AuthoritativeRound F S) (side : Side) (c : CastCommand F) (o : CastOutcome)
      → cast r side c ≡ ok (r', o)
      → o.accepted ≡ false
      → r' ≡ r
  unfolding cast
  cast_refused r r' side c o h refusal = ground arith

  -- The guards of a cast that was accepted, with the spell that it found.
  pub record IsLegal (r : AuthoritativeRound F S) (side : Side) (c : CastCommand F)
      (spell : LoadoutSpell F) : Type 0 where
    pub was_equipped : equipped r side c.spell_id ≡ some spell
    pub was_going : r.ending ≡ none
    pub was_recent : is_stale r.runner.world.tick c.tick ≡ false
    pub was_on_map : on_map r.rules c.location ≡ true
    pub was_affordable : can_afford (at side r.energy) spell.cost ≡ true

  unequipped_refused :
      (r r' : AuthoritativeRound F S) (side : Side) (c : CastCommand F) (o : CastOutcome)
      → cast r side c ≡ ok (r', o)
      → equipped r side c.spell_id ≡ none
      → o.accepted ≡ false
  unfolding cast
  unequipped_refused r r' side c o h e = ground arith

  accepted_spell :
      (r r' : AuthoritativeRound F S) (side : Side) (c : CastCommand F) (o : CastOutcome)
      → cast r side c ≡ ok (r', o)
      → o.accepted ≡ true
      → (spell : LoadoutSpell F) × (equipped r side c.spell_id ≡ some spell)
  accepted_spell r r' side c o h acceptance = elim (Option-cases (equipped r side c.spell_id)) [
    | inl missing ↦ cc (unequipped_refused r r' side c o h missing, acceptance)
    | inr found ↦ found
  ]

  accepted_IsLegal :
      (r r' : AuthoritativeRound F S) (side : Side) (c : CastCommand F) (o : CastOutcome)
      (spell : LoadoutSpell F)
      → cast r side c ≡ ok (r', o)
      → o.accepted ≡ true
      → equipped r side c.spell_id ≡ some spell
      → IsLegal r side c spell × (take_cast r side c spell ≡ ok (r', o))
  unfolding cast
  accepted_IsLegal r r' side c o spell h acceptance e = (
    record {
      was_equipped = e;
      was_going = ground arith;
      was_recent = ground arith;
      was_on_map = ground arith;
      was_affordable = ground arith;
    },
    ground arith,
  )

  -- What an accepted cast does: it schedules one injection on the next tick, numbers and remembers
  -- the cast, charges the spell's cost to the seat that cast it, and touches nothing else.
  pub record IsCharged (r : AuthoritativeRound F S) (side : Side) (c : CastCommand F)
      (spell : LoadoutSpell F) (r' : AuthoritativeRound F S) (o : CastOutcome) : Type 0 where
    pub scheduled : o.tick ≡ some (r.runner.world.tick + 1)
    pub ordered : o.order ≡ some r.next_order
    pub answered : o.command_id ≡ c.command_id
    pub counted : r'.next_order ≡ r.next_order + 1
    pub charged : at side r'.energy ≡ spend spell.cost (at side r.energy)
    pub other_seat : at (opposing side) r'.energy ≡ at (opposing side) r.energy
    pub remembered : r'.casts ≡ r.casts ++ resolved_cast r side c spell ∷ []
    pub injected : Runner.inject r.runner (injection_of r side c spell) ≡ ok r'.runner
    pub ending_kept : r'.ending ≡ r.ending
    pub loadouts_kept : r'.loadouts ≡ r.loadouts

  taken_IsCharged :
      (r r' : AuthoritativeRound F S) (side : Side) (c : CastCommand F) (o : CastOutcome)
      (spell : LoadoutSpell F)
      → take_cast r side c spell ≡ ok (r', o)
      → IsCharged r side c spell r' o
  unfolding take_cast
  taken_IsCharged r r' side c o spell h = record {
    scheduled = ground arith;
    ordered = ground arith;
    answered = ground arith;
    counted = ground arith;
    charged = ground arith;
    other_seat = ground arith;
    remembered = ground arith;
    injected = ground arith;
    ending_kept = ground arith;
    loadouts_kept = ground arith;
  }

  -- If a round accepts a cast, the round was going on, the command was recent, its location was on
  -- the map and the side had the spell equipped and could pay for it; and then that side is charged
  -- its cost once, the other side nothing, one injection on the next tick goes into the battle, the
  -- cast is remembered with the next order, and the ending and the loadouts stay.
  pub cast-IsCharged :
      (r r' : AuthoritativeRound F S) (side : Side) (c : CastCommand F) (o : CastOutcome)
      → cast r side c ≡ ok (r', o)
      → o.accepted ≡ true
      → (spell : LoadoutSpell F) × IsLegal r side c spell × IsCharged r side c spell r' o
  cast-IsCharged r r' side c o h acceptance =
      let (spell, e) = accepted_spell r r' side c o h acceptance in
      let (legal, taken) = accepted_IsLegal r r' side c o spell h acceptance e in
      (spell, legal, taken_IsCharged r r' side c o spell taken)

  -- Every spell that a seat has equipped is in the sim's catalog.
  abbrev pub Equips : Dict S → List (LoadoutSpell F) → Type 0
  Equips catalog spells = All (λ (e : LoadoutSpell F). lookup e.spell_id catalog ≢ none) spells

  pub record IsReady (r : AuthoritativeRound F S) : Type 0 where
    pub north_ready : Equips r.runner.spells r.loadouts.at_north
    pub south_ready : Equips r.runner.spells r.loadouts.at_south

  find-Equips :
      (catalog : Dict S) (spells : List (LoadoutSpell F)) (id : String) (e : LoadoutSpell F)
      → Equips catalog spells
      → first (λ x. str_eq x.spell_id id) spells ≡ some e
      → lookup e.spell_id catalog ≢ none
  find-Equips catalog [] id e h k = cc
  find-Equips catalog (x ∷ spells) id e (known, rest) k = elim (Bool-cases (str_eq x.spell_id id)) [
    | inl same ↦
        let it : x ≡ e = ground arith in subst (λ s. lookup s.spell_id catalog ≢ none) it known
    | inr other ↦ find-Equips catalog spells id e rest (rw other at k)
  ]

  -- An injection on the next tick of a spell in the catalog is never refused.
  injectable :
      (b : Runner.BattleRunner F S) (i : SpellInjection F)
      → i.tick ≡ b.world.tick + 1
      → lookup i.spell_id b.spells ≢ none
      → (b' : Runner.BattleRunner F S) × (Runner.inject b i ≡ ok b')
  unfolding Runner.inject Spells.inject
  injectable b i next known = elim (Option-cases (lookup i.spell_id b.spells)) [
    | inl missing ↦ absurd (known missing)
    | inr (x, e) ↦ (
      record b {
        world = record b.world {
          pending_spells =
              list_insert b.world.pending_spells
                (bisect_right Spells.before b.world.pending_spells i) i;
        };
      },
      ground arith,
    )
  ]

  take_cast-total :
      (r : AuthoritativeRound F S) (side : Side) (c : CastCommand F) (spell : LoadoutSpell F)
      → lookup spell.spell_id r.runner.spells ≢ none
      → (out : AuthoritativeRound F S × CastOutcome) × (take_cast r side c spell ≡ ok out)
  unfolding take_cast
  take_cast-total r side c spell known =
      let (b', e) = injectable r.runner (injection_of r side c spell) refl known in
      elim (Result-cases (take_cast r side c spell)) [
        | inl done ↦ done
        | inr (x, refusal) ↦ absurd (ground (arith, e))
      ]

  ready_at :
      (r : AuthoritativeRound F S) (side : Side)
      → IsReady r
      → Equips r.runner.spells (at side r.loadouts)
  ready_at r north h = h.north_ready
  ready_at r south h = h.south_ready

  unequipped_answered :
      (r : AuthoritativeRound F S) (side : Side) (c : CastCommand F) (x : Spells.SpellError)
      → equipped r side c.spell_id ≡ none
      → cast r side c ≢ err x
  unfolding cast
  unequipped_answered r side c x e h = ground arith

  equipped_answered :
      (r : AuthoritativeRound F S) (side : Side) (c : CastCommand F) (spell : LoadoutSpell F)
      (x : Spells.SpellError) (out : AuthoritativeRound F S × CastOutcome)
      → equipped r side c.spell_id ≡ some spell
      → take_cast r side c spell ≡ ok out
      → cast r side c ≢ err x
  unfolding cast
  equipped_answered r side c spell x out e done h = ground arith

  -- If every spell in the two loadouts is in the catalog of the battle, a round answers every cast:
  -- the sim never raises.
  pub cast-total :
      (r : AuthoritativeRound F S) (side : Side) (c : CastCommand F)
      → IsReady r
      → (out : AuthoritativeRound F S × CastOutcome) × (cast r side c ≡ ok out)
  cast-total r side c ready = elim (Result-cases (cast r side c)) [
    | inl done ↦ done
    | inr (x, refusal) ↦ elim (Option-cases (equipped r side c.spell_id)) [
      | inl missing ↦ absurd (unequipped_answered r side c x missing refusal)
      | inr (spell, found) ↦
          let known =
            find-Equips r.runner.spells (at side r.loadouts) c.spell_id spell
              (ready_at r side ready) found in
          let (out, e) = take_cast-total r side c spell known in
          absurd (equipped_answered r side c spell x out found e refusal)
    ]
  ]
