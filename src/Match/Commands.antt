-- ===== src/Match/Commands.antt =====
-- The command ledger, api/app/match/commands.py: one answer per command id, for each seat.
-- A seat's dict is a list in insertion order, so its front is the oldest id. `setdefault` with an
-- empty dict and a seat that is not there are the same empty list.
pub mod Answers
use go_forth.Prelude.{
  ℕ, ◌+◌, ◌≤◌, ◌<◌, ◌≡◌, refl, Bool, true, false, Option, none, some, List, [], ◌∷◌, ◌++◌, String,
  arith, ltb, length, if◌then◌else◌,
}
use go_forth.Prelude.Dict.{Dict, lookup}
use go_forth.Match.Wire.{CastRejection, Message, cast_outcome_message}
use go_forth.Sim.Types.{Side, BySide, at, put, both}

-- MAX_ENTRIES_PER_SEAT
abbrev pub max_entries_per_seat : ℕ
max_entries_per_seat = 512

pub record LedgerEntry : Type 0 where
  pub command_id : String
  pub accepted : Bool
  pub reason : Option CastRejection
  pub round_number : Option ℕ
  pub tick : Option ℕ
  pub order : Option ℕ

-- LedgerEntry.to_message
unfoldable pub to_message : LedgerEntry → Message
to_message e =
    if e.accepted
    then cast_outcome_message true e.command_id none
    else cast_outcome_message false e.command_id e.reason

pub record CommandLedger : Type 0 where
  pub max_entries : ℕ
  pub entries : BySide (Dict LedgerEntry)

abbrev pub new_ledger : ℕ → CommandLedger
new_ledger max = record { max_entries = max; entries = both λ _. [] }

-- CommandLedger.find
unfoldable pub find : CommandLedger → Side → String → Option LedgerEntry
find l side command_id = lookup command_id (at side l.entries)

-- `while len(seat) > self._max: seat.pop(next(iter(seat)))`
unfoldable pub evict : ℕ → Dict LedgerEntry → Dict LedgerEntry
evict max [] = []
evict max (e ∷ seat) =
    let rest = evict max seat in if ltb max (length (e ∷ seat)) then rest else e ∷ seat

-- The seat after a new id has been written at its end and the oldest ids have been dropped.
abbrev pub store : ℕ → Dict LedgerEntry → LedgerEntry → Dict LedgerEntry
store max seat entry = evict max (seat ++ (entry.command_id, entry) ∷ [])

-- CommandLedger.record
unfoldable pub record_entry : CommandLedger → Side → LedgerEntry → CommandLedger × LedgerEntry
unfolding find
record_entry l side entry = elim (find l side entry.command_id) [
  | some existing ↦ (l, existing)
  | none ↦ (
    record l { entries = put side (store l.max_entries (at side l.entries) entry) l.entries },
    entry,
  )
]

-- CommandLedger.count_for
unfoldable pub count_for : CommandLedger → Side → ℕ
count_for l side = length (at side l.entries)
