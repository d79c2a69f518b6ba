-- ===== src/Match/Recorder.antt =====
-- The record of a run as a session builds it: RunRecord, RecordedRound and RunRecorder of
-- api/app/match/run_record.py. `P` is a plan in the form that the record stores.
-- `_current` is the last round of the record or nothing, the same object as the one in its list:
-- `is_open` says which, and what is done to `_current` is done to the last round.
use go_forth.Prelude.{
  ℕ, Bool, true, false, Option, none, some, List, [], ◌∷◌, ◌++◌, String, if◌then◌else◌,
}
use go_forth.Match.Wire.{LoadoutSpell, WireRoundEnding, MatchEnding, RoundReason}
use go_forth.Sim.Types.{Side, BySide}

pub record RecordedCast (F : Type 0) : Type 0 where
  pub order : ℕ
  pub tick : ℕ
  pub side : Side
  pub command_id : String
  pub spell_id : String
  pub at_x : F
  pub at_y : F

pub record RecordedRound (F P : Type 0) : Type 0 where
  pub number : ℕ
  pub seed : ℕ
  pub starting_energy : F
  pub base_hp_at_start : BySide F
  pub plans : BySide P
  pub loadouts : BySide (List (LoadoutSpell F))
  pub casts : List (RecordedCast F)
  pub ending : Option WireRoundEnding
  pub base_hp_at_end : Option (BySide F)

-- The one word for how a run stopped.
pub data TerminalReason : Type 0 where
  fell_base was_abandoned won_rounds played_test : TerminalReason
  round_reason : RoundReason → TerminalReason

-- The scores and the bases of the end are empty dicts until the match is over. The ids, the
-- versions and the settings that a record is begun with, and that nothing changes, are left out.
pub record RunRecord (F P : Type 0) : Type 0 where
  pub rounds : List (RecordedRound F P)
  pub ending : Option MatchEnding
  pub terminal_reason : Option TerminalReason
  pub rounds_won : Option (BySide ℕ)
  pub base_hp : Option (BySide F)

pub record RunRecorder (F P : Type 0) : Type 0 where
  pub run : RunRecord F P
  pub is_open : Bool

-- A change of the last element.
abbrev pub on_last : {A : Type 0} → (A → A) → List A → List A
on_last g [] = []
on_last g (x ∷ []) = g x ∷ []
on_last g (x ∷ y ∷ xs) = x ∷ on_last g (y ∷ xs)

module _ {F P : Type 0} where
  -- RunRecorder.__init__
  abbrev pub new_recorder : RunRecorder F P
  new_recorder = record {
    run = record {
      rounds = [];
      ending = none;
      terminal_reason = none;
      rounds_won = none;
      base_hp = none;
    };
    is_open = false;
  }

  unfoldable pub round_started : RunRecorder F P → RecordedRound F P → RunRecorder F P
  round_started r entry = record {
    run = record r.run { rounds = r.run.rounds ++ entry ∷ [] };
    is_open = true;
  }

  unfoldable pub cast_accepted : RunRecorder F P → RecordedCast F → RunRecorder F P
  cast_accepted r cast =
      if r.is_open
      then record r {
        run = record r.run {
          rounds = on_last (λ e. record e { casts = e.casts ++ cast ∷ [] }) r.run.rounds;
        };
      }
      else r

  unfoldable pub round_finished : RunRecorder F P → WireRoundEnding → BySide F → RunRecorder F P
  round_finished r ending base_hp =
      if r.is_open
      then record {
        run = record r.run {
          rounds =
              on_last (λ e. record e { ending = some ending; base_hp_at_end = some base_hp })
                r.run.rounds;
        };
        is_open = false;
      }
      else r

  unfoldable pub match_finished :
      RunRecorder F P → MatchEnding → TerminalReason → BySide ℕ → BySide F → RunRecorder F P
  match_finished r ending why rounds_won base_hp = record r {
    run = record r.run {
      ending = some ending;
      terminal_reason = some why;
      rounds_won = some rounds_won;
      base_hp = some base_hp;
    };
  }
