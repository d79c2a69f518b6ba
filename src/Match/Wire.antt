-- ===== src/Match/Wire.antt =====
-- The values that cross the wire, api/app/match/wire.py: what a client asks for, what it is answered,
-- and the endings of a round and of a match. A JSON object with fixed keys is a record.
pub mod Reading
use go_forth.Prelude.{ℕ, Bool, Option, List, String}
use go_forth.Prelude.Int.{ℤ}
use go_forth.Sim.Types.{Side, BySide, Vec2}

pub data CastRejection : Type 0 where
  not_enough_energy not_equipped out_of_bounds round_over not_your_seat : CastRejection
  not_connected stale wrong_phase : CastRejection

-- A `castOutcome`: whether the cast was accepted, for which command, and why not.
pub record Message : Type 0 where
  pub accepted : Bool
  pub command_id : String
  pub reason : Option CastRejection

abbrev pub cast_outcome_message : Bool → String → Option CastRejection → Message
cast_outcome_message accepted command_id reason = record {
  accepted = accepted;
  command_id = command_id;
  reason = reason;
}

pub record LoadoutSpell (F : Type 0) : Type 0 where
  pub spell_id : String
  pub name : String
  pub cost : F
  pub effect : String

pub record ResolvedCast (F : Type 0) : Type 0 where
  pub command_id : String
  pub spell_id : String
  pub spell_name : String
  pub cast_by : Side
  pub location : Vec2 F
  pub tick : ℕ
  pub order : ℕ

-- `tick` is what the client says, so it may be negative.
pub record CastCommand (F : Type 0) : Type 0 where
  pub command_id : String
  pub spell_id : String
  pub location : Vec2 F
  pub tick : ℤ

pub data RoundReason : Type 0 where
  zone_control annihilation time_up : RoundReason

-- round_complete, base_destroyed
pub data WireRoundEnding : Type 0 where
  round_complete : Option Side → RoundReason → WireRoundEnding
  base_destroyed : Option Side → WireRoundEnding

-- match_ending_base_destroyed, match_ending_rounds_won, match_ending_test_complete,
-- match_ending_abandoned
pub data MatchEnding : Type 0 where
  match_base_destroyed : Option Side → MatchEnding
  match_rounds_won : Side → MatchEnding
  match_test_complete : Option Side → MatchEnding
  match_abandoned : Option Side → MatchEnding

pub record BaseHp (F : Type 0) : Type 0 where
  pub hp : F
  pub max_hp : F

pub record ZoneState : Type 0 where
  pub id : String
  pub held_by : Option Side

pub record RoundResult (F : Type 0) : Type 0 where
  pub round_number : ℕ
  pub ending : WireRoundEnding
  pub bases : BySide (BaseHp F)
  pub zones : List ZoneState
  pub zone_score : BySide F

pub record MatchResult (F : Type 0) : Type 0 where
  pub ending : MatchEnding
  pub rounds_won : BySide ℕ
  pub bases : BySide (BaseHp F)
  pub last_round : RoundResult F
