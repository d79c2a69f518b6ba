-- ===== src/Match/Round.antt =====
-- One authoritative round: api/app/match/round.py. The battle under it is a `Runner`; what its
-- phases do to the world is the parameter `phases` of `step`.
-- `spell` in the sim's catalog is of any type `S`.
pub mod Settled
pub mod Mirror
pub mod Cast
pub mod Books
pub mod Ends
use go_forth.Prelude.{
  ℕ, zero, suc, ◌+◌, ◌-◌, ◌≡◌, Bool, true, false, Option, none, some, List, [], ◌∷◌, ◌++◌, String,
  ltb, leb, any, all, first, select, not, ◌&&◌, ◌||◌, if◌then◌else◌, str_eq,
}
use go_forth.Prelude.Float.{Float, ◌⊕◌, ◌⊖◌, ◌⊗◌, ◌≤?◌, ◌<?◌, nought, fmin, fmax}
use go_forth.Prelude.Int.{ℤ, pos, negsuc, pos_part}
use go_forth.Match.Wire.{
  CastRejection, not_enough_energy, not_equipped, out_of_bounds, round_over, stale, RoundReason,
  zone_control, annihilation, time_up, LoadoutSpell, ResolvedCast, CastCommand,
}
use go_forth.Sim.Events.{BattleEvent}
use go_forth.Sim.Runner
use go_forth.Sim.Runner.{BattleRunner}
use go_forth.Sim.Spells.{SpellInjection, Result, ok, err, ◌>>=◌}
use go_forth.Sim.Types.{Side, north, south, sides, side_eq, opposing, BySide, at, put, both, Vec2}
use go_forth.Sim.World.{World, BattleUnit, is_alive}

-- STALE_COMMAND_TICKS
abbrev pub stale_command_ticks : ℕ
stale_command_ticks = 40

pub record SeatEnergy (F : Type 0) : Type 0 where
  pub start : F
  pub cap : F
  pub generated : F
  pub spent : F

-- RoundEnding: a battle's `reason` goes with `round_complete` only.
pub data RoundEnding : Type 0 where
  round_complete : Option Side → RoundReason → RoundEnding
  base_destroyed : Option Side → RoundEnding

pub record CastOutcome : Type 0 where
  pub accepted : Bool
  pub command_id : String
  pub rejection : Option CastRejection
  pub tick : Option ℕ
  pub order : Option ℕ

-- The numbers that a round reads of its map, its configuration and its module's constants.
pub record RoundRules (F : Type 0) : Type 0 where
  pub size_width : F
  pub size_height : F
  pub seconds_per_tick : F
  pub energy_per_second : F
  pub energy_cap : F
  pub score_threshold : F

pub record AuthoritativeRound (F S : Type 0) : Type 0 where
  pub round_number : ℕ
  pub rules : RoundRules F
  pub loadouts : BySide (List (LoadoutSpell F))
  pub energy : BySide (SeatEnergy F)
  pub casts : List (ResolvedCast F)
  pub next_order : ℕ
  pub ending : Option RoundEnding
  pub runner : BattleRunner F S

-- `survivors[0] if len(survivors) == 1 else None`
sole : List Side → Option Side
sole (s ∷ []) = some s
sole _ = none

module _ {F : Type 0} ⦃f : Float F⦄ where
  -- SeatEnergy.current, accrue, can_afford, spend
  abbrev pub current : SeatEnergy F → F
  current e = e.start ⊕ e.generated ⊖ e.spent

  unfoldable pub accrue : F → SeatEnergy F → SeatEnergy F
  accrue gain e = record e { generated = e.generated ⊕ fmin gain (fmax nought (e.cap ⊖ current e)) }

  abbrev pub can_afford : SeatEnergy F → F → Bool
  can_afford e cost = cost ≤? current e

  abbrev pub spend : F → SeatEnergy F → SeatEnergy F
  spend cost e = record e { spent = e.spent ⊕ cost }

  -- The seat that a round opens with: `SeatEnergy(start=min(starting_energy, ENERGY_CAP), ...)`.
  abbrev pub opening_energy : F → F → SeatEnergy F
  opening_energy starting cap = record {
    start = fmin starting cap;
    cap = cap;
    generated = nought;
    spent = nought;
  }

  abbrev pub fallen : World F → Side → Bool
  fallen w side = (at side w.bases).hp ≤? nought

  abbrev pub living : World F → Side → Bool
  living w side = any (λ u. side_eq u.side side && is_alive u) w.units

  -- Whichever side has more, or neither.
  abbrev pub ahead : F → F → Option Side
  ahead n s = if s <? n then some north else if n <? s then some south else none

  -- _score_leader
  unfoldable pub score_leader : World F → Option Side
  score_leader w = ahead w.zone_score.at_north w.zone_score.at_south

  -- _outcome_on_score
  unfoldable pub outcome_on_score : World F → Option Side
  unfolding score_leader
  outcome_on_score w = elim (score_leader w) [
    | some leader ↦ some leader
    | none ↦ ahead w.bases.at_north.hp w.bases.at_south.hp
  ]

  -- The last two branches of _decide_ending: the score threshold, then the backstop.
  decide_on_score : ℕ → F → World F → Option RoundEnding
  unfolding outcome_on_score
  decide_on_score limit threshold w =
      let backstop =
        if leb limit w.tick then some (round_complete (outcome_on_score w) time_up) else none in
      elim (score_leader w) [
        | none ↦ backstop
        | some leader ↦
            if threshold ≤? at leader w.zone_score
            then some (round_complete (some leader) zone_control)
            else backstop
      ]

  -- _decide_ending, from the tick of the backstop and SCORE_THRESHOLD.
  unfoldable pub decide_ending : ℕ → F → World F → Option RoundEnding
  unfolding decide_on_score sole
  decide_ending limit threshold w =
      let down = select (fallen w) sides in
      let survivors = select (living w) sides in
      elim down [
        | _ ∷ _ ∷ _ ↦ some (base_destroyed none)
        | side ∷ [] ↦ some (base_destroyed (some (opposing side)))
        | [] ↦
            if all (living w) sides
            then decide_on_score limit threshold w
            else some (round_complete (sole survivors) annihilation)
      ]

-- `0 <= at.x <= size_width and 0 <= at.y <= size_height`
abbrev pub on_map : {F : Type 0} ⦃f : Float F⦄ → RoundRules F → Vec2 F → Bool
on_map rules p =
    nought ≤? p.x && p.x ≤? rules.size_width && nought ≤? p.y && p.y ≤? rules.size_height

-- `abs(a - b)` of a tick and a positive client tick.
abbrev pub ticks_apart : ℕ → ℕ → ℕ
ticks_apart a b = (a - b) + (b - a)

-- _is_stale: a tick of nought or less is one that the client did not state.
unfoldable pub is_stale : ℕ → ℤ → Bool
is_stale now (negsuc _) = false
is_stale now (pos zero) = false
is_stale now (pos (suc n)) = ltb stale_command_ticks (ticks_apart now (suc n))

abbrev pub refused : String → CastRejection → CastOutcome
refused command_id why = record {
  accepted = false;
  command_id = command_id;
  rejection = some why;
  tick = none;
  order = none;
}

module _ {F S : Type 0} where
  abbrev pub world : AuthoritativeRound F S → World F
  world r = r.runner.world

  abbrev pub over : AuthoritativeRound F S → Bool
  over r = elim r.ending [ none ↦ false | some _ ↦ true ]

  -- base_hp
  abbrev pub base_hp : AuthoritativeRound F S → BySide F
  base_hp r = both λ side. (at side r.runner.world.bases).hp

  -- `next((entry for entry in self._loadouts[side] if entry.spell_id == command.spell_id), None)`
  abbrev pub equipped : AuthoritativeRound F S → Side → String → Option (LoadoutSpell F)
  equipped r side spell_id = first (λ e. str_eq e.spell_id spell_id) (at side r.loadouts)

  module _ ⦃f : Float F⦄ where
    -- AuthoritativeRound.__init__, from the battle that `create_runner` has set up.
    abbrev pub new_round :
        ℕ
        → RoundRules F
        → BySide (List (LoadoutSpell F))
        → F
        → BattleRunner F S
        → AuthoritativeRound F S
    new_round number rules loadouts starting runner = record {
      round_number = number;
      rules = rules;
      loadouts = loadouts;
      energy = both λ _. opening_energy starting rules.energy_cap;
      casts = [];
      next_order = 1;
      ending = none;
      runner = runner;
    }

    -- energy_for
    abbrev pub energy_for : AuthoritativeRound F S → Side → F
    energy_for r side = current (at side r.energy)

    -- AuthoritativeRound.step
    unfoldable pub step :
        (World F → World F × List (BattleEvent F))
        → AuthoritativeRound F S
        → AuthoritativeRound F S × List (BattleEvent F)
    step phases r = elim r.ending [
      | some _ ↦ (r, [])
      | none ↦
          let (runner, events) = Runner.step phases r.runner in
          let gain = r.rules.energy_per_second ⊗ r.rules.seconds_per_tick in
          (
            record r {
              runner = runner;
              energy = both λ side. accrue gain (at side r.energy);
              ending = decide_ending runner.limit r.rules.score_threshold runner.world;
            },
            events,
          )
    ]

    -- The injection that an accepted cast becomes, on the next tick and for the seat's own side.
    abbrev pub injection_of :
        AuthoritativeRound F S → Side → CastCommand F → LoadoutSpell F → SpellInjection F
    injection_of r side command spell = record {
      tick = r.runner.world.tick + 1;
      spell_id = spell.spell_id;
      location = command.location;
      side = side;
    }

    abbrev pub resolved_cast :
        AuthoritativeRound F S → Side → CastCommand F → LoadoutSpell F → ResolvedCast F
    resolved_cast r side command spell = record {
      command_id = command.command_id;
      spell_id = spell.spell_id;
      spell_name = spell.name;
      cast_by = side;
      location = command.location;
      tick = r.runner.world.tick + 1;
      order = r.next_order;
    }

    -- The end of cast, past every refusal: inject, spend, count, remember.
    take_cast :
        AuthoritativeRound F S
        → Side
        → CastCommand F
        → LoadoutSpell F
        → Result (AuthoritativeRound F S × CastOutcome)
    take_cast r side command spell =
        Runner.inject r.runner (injection_of r side command spell) >>= λ runner. ok (
          record r {
            runner = runner;
            energy = put side (spend spell.cost (at side r.energy)) r.energy;
            next_order = r.next_order + 1;
            casts = r.casts ++ resolved_cast r side command spell ∷ [];
          },
          record {
            accepted = true;
            command_id = command.command_id;
            rejection = none;
            tick = some (r.runner.world.tick + 1);
            order = some r.next_order;
          },
        )

    -- AuthoritativeRound.cast. An error is the exception that the sim raises on an injection.
    unfoldable pub cast :
        AuthoritativeRound F S
        → Side
        → CastCommand F
        → Result (AuthoritativeRound F S × CastOutcome)
    unfolding take_cast
    cast r side command =
        if over r
        then ok (r, refused command.command_id round_over)
        else if is_stale r.runner.world.tick command.tick
        then ok (r, refused command.command_id stale)
        else elim (equipped r side command.spell_id) [
          | none ↦ ok (r, refused command.command_id not_equipped)
          | some spell ↦
              if not (on_map r.rules command.location)
              then ok (r, refused command.command_id out_of_bounds)
              else if not (can_afford (at side r.energy) spell.cost)
              then ok (r, refused command.command_id not_enough_energy)
              else take_cast r side command spell
        ]
