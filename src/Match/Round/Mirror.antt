-- ===== src/Match/Round/Mirror.antt =====
-- The sides of a world exchanged, and the decision about its round
-- (api/app/match/round.py, `_decide_ending`).
use go_forth.Prelude.{ℕ, ◌≡◌, refl, Bool, Option, none, some, List, [], ◌∷◌, arith, any, ◌&&◌, map}
use go_forth.Prelude.Float.{Float, IsFloat}
use go_forth.Match.Round.{
  RoundEnding, round_complete, base_destroyed, living, ahead, score_leader, outcome_on_score,
  decide_ending, decide_on_score,
}
use go_forth.Sim.Types.{Side, north, south, opposing, BySide, side_eq}
use go_forth.Sim.World.{World, BattleUnit, is_alive}

abbrev swap {ℓ} : {A : Type ℓ} → BySide A → BySide A
swap d = record { at_north = d.at_south; at_south = d.at_north }

module _ {F : Type 0} where
  abbrev mirror_unit : BattleUnit F → BattleUnit F
  mirror_unit u = record u { side = opposing u.side }

  abbrev pub mirror : World F → World F
  mirror w = record w {
    units = map mirror_unit w.units;
    bases = swap w.bases;
    zone_score = swap w.zone_score;
  }

abbrev mirror_winner : Option Side → Option Side
mirror_winner none = none
mirror_winner (some side) = some (opposing side)

abbrev pub mirror_ending : RoundEnding → RoundEnding
mirror_ending (round_complete winner reason) = round_complete (mirror_winner winner) reason
mirror_ending (base_destroyed winner) = base_destroyed (mirror_winner winner)

abbrev pub mirror_decision : Option RoundEnding → Option RoundEnding
mirror_decision none = none
mirror_decision (some ending) = some (mirror_ending ending)

module _ {F : Type 0} ⦃f : Float F⦄ where
  alive_on : Side → List (BattleUnit F) → Bool
  alive_on side units = any (λ u. side_eq u.side side && is_alive u) units

  mirror_alive :
      (side : Side) (units : List (BattleUnit F))
      → alive_on side (map mirror_unit units) ≡ alive_on (opposing side) units
  unfolding alive_on is_alive
  mirror_alive north [] = refl
  mirror_alive south [] = refl
  mirror_alive north (u ∷ units) = ground (arith, mirror_alive north units)
  mirror_alive south (u ∷ units) = ground (arith, mirror_alive south units)

  living-mirror : (side : Side) (w : World F) → living (mirror w) side ≡ living w (opposing side)
  unfolding alive_on
  living-mirror side w = mirror_alive side w.units

  module _ (laws : IsFloat F) where
    mirror_ahead : (n s : F) → ahead s n ≡ mirror_winner (ahead n s)
    mirror_ahead n s = ground (arith, laws.key.less_asym n s)

    mirror_outcome :
        (w : World F) → outcome_on_score (mirror w) ≡ mirror_winner (outcome_on_score w)
    unfolding outcome_on_score
    mirror_outcome w = ground (
      arith,
      laws.key.less_asym w.zone_score.at_north w.zone_score.at_south,
      laws.key.less_asym w.bases.at_north.hp w.bases.at_south.hp,
    )

    mirror_on_score :
        (limit : ℕ) (threshold : F) (w : World F)
        → decide_on_score limit threshold (mirror w)
          ≡ mirror_decision (decide_on_score limit threshold w)
    unfolding decide_on_score score_leader
    mirror_on_score limit threshold w =
        ground
          (arith, laws.key.less_asym w.zone_score.at_north w.zone_score.at_south, mirror_outcome w)

    -- For floats that keep the laws, exchanging the sides of a world, their units, bases and
    -- scores, exchanges the winner in the decision about the round and changes nothing else in it.
    pub decide_ending-mirror :
        (limit : ℕ) (threshold : F) (w : World F)
        → decide_ending limit threshold (mirror w)
          ≡ mirror_decision (decide_ending limit threshold w)
    unfolding decide_ending
    decide_ending-mirror limit threshold w =
        ground
          (arith, living-mirror north w, living-mirror south w, mirror_on_score limit threshold w)
