-- ===== src/Match/Commands/Answers.antt =====
-- The answers of the ledger, over any run of recorded entries (api/app/match/commands.py).
use go_forth.Prelude.{
  ℕ, suc, ◌+◌, ◌≤◌, ◌<◌, ◌≡◌, none, some, List, [], ◌∷◌, ◌++◌, String, arith, length, length-append,
  if◌then◌else◌, eq_refl, str_eq,
}
use go_forth.Prelude.Dict.{Dict, lookup, lookup-append_some}
use go_forth.Sim.Types.{Side, north, south, opposing, at}
use go_forth.Match.Commands.{
  LedgerEntry, CommandLedger, find, evict, store, record_entry, count_for,
}

length-evict : (max : ℕ) (seat : Dict LedgerEntry) → length (evict max seat) ≤ max
unfolding evict
length-evict max [] = omega arith
length-evict max (e ∷ seat) = ground (arith, length-evict max seat)

-- An id that has an answer keeps it: recording again changes nothing and returns the old answer.
pub record_entry_again :
    (l : CommandLedger) (side : Side) (entry old : LedgerEntry)
    → find l side entry.command_id ≡ some old
    → record_entry l side entry ≡ (l, old)
unfolding record_entry
record_entry_again l side entry old h = rw (h, record_entry)

-- Recording an entry for one seat changes no answer of the other seat, under any id.
pub find-record_entry_other :
    (l : CommandLedger) (side : Side) (entry : LedgerEntry) (id : String)
    → find (record_entry l side entry).0 (opposing side) id ≡ find l (opposing side) id
unfolding record_entry
find-record_entry_other l north entry id = ground arith
find-record_entry_other l south entry id = ground arith

-- No seat is remembered for more ids than the ledger allows.
pub record IsBounded (l : CommandLedger) : Type 0 where
  pub north_fits : count_for l north ≤ l.max_entries
  pub south_fits : count_for l south ≤ l.max_entries

-- If no seat is remembered for more ids than the ledger allows, the same holds after an entry is
-- recorded.
pub record_entry-IsBounded :
    (l : CommandLedger) (side : Side) (entry : LedgerEntry)
    → IsBounded l
    → IsBounded (record_entry l side entry).0
unfolding record_entry count_for
record_entry-IsBounded l north entry h =
    ground
      (arith, length-evict l.max_entries (l.entries.at_north ++ (entry.command_id, entry) ∷ []))
record_entry-IsBounded l south entry h =
    ground
      (arith, length-evict l.max_entries (l.entries.at_south ++ (entry.command_id, entry) ∷ []))

-- How many ids of a seat are younger than `id`.
younger : String → Dict LedgerEntry → ℕ
younger id [] = 0
younger id ((j, e) ∷ seat) = if str_eq j id then length seat else younger id seat

younger-lt-length :
    (id : String) (seat : Dict LedgerEntry) (e : LedgerEntry)
    → lookup id seat ≡ some e
    → younger id seat < length seat
unfolding younger lookup
younger-lt-length id [] e h = cc
younger-lt-length id ((j, f) ∷ seat) e h = ground (arith, younger-lt-length id seat e)

younger-append :
    (id : String) (seat : Dict LedgerEntry) (x : String × LedgerEntry) (e : LedgerEntry)
    → lookup id seat ≡ some e
    → younger id (seat ++ x ∷ []) ≡ younger id seat + 1
unfolding younger lookup
younger-append id [] x e h = cc
younger-append id ((j, f) ∷ seat) x e h =
    ground (arith, younger-append id seat x e, length-append seat (x ∷ []))

-- Eviction drops only ids that `max` or more are younger than.
lookup-evict :
    (max : ℕ) (id : String) (seat : Dict LedgerEntry) (e : LedgerEntry)
    → lookup id seat ≡ some e
    → younger id seat < max
    → (lookup id (evict max seat) ≡ some e) × (younger id (evict max seat) ≡ younger id seat)
unfolding evict younger lookup
lookup-evict max id [] e h y = cc
lookup-evict max id ((j, f) ∷ seat) e h y =
    ground (arith, lookup-evict max id seat e, younger-lt-length id seat e)

-- `id` is answered by `e` on that side, and at most `k` ids of the seat are younger.
record Holds (l : CommandLedger) (side : Side) (id : String) (e : LedgerEntry) (k : ℕ)
    : Type 0 where
  answered : find l side id ≡ some e
  recent : younger id (at side l.entries) ≤ k

Holds-record_entry_other :
    (l : CommandLedger) (side : Side) (id : String) (e entry : LedgerEntry) (k : ℕ)
    → Holds l side id e k
    → Holds (record_entry l (opposing side) entry).0 side id e k
unfolding record_entry
Holds-record_entry_other l north id e entry k h = ground arith
Holds-record_entry_other l south id e entry k h = ground arith

Holds-store :
    (max : ℕ) (seat : Dict LedgerEntry) (id : String) (e entry : LedgerEntry) (k : ℕ)
    → lookup id seat ≡ some e
    → younger id seat ≤ k
    → k + 1 < max
    → (lookup id (store max seat entry) ≡ some e) × (younger id (store max seat entry) ≤ k + 1)
Holds-store max seat id e entry k found recent fits = ground (
  arith,
  lookup-append_some id e seat ((entry.command_id, entry) ∷ []),
  younger-append id seat (entry.command_id, entry) e,
  lookup-evict max id (seat ++ (entry.command_id, entry) ∷ []) e,
)

Holds-record_entry_same :
    (l : CommandLedger) (side : Side) (id : String) (e entry : LedgerEntry) (k : ℕ)
    → Holds l side id e k
    → k + 1 < l.max_entries
    → Holds (record_entry l side entry).0 side id e (k + 1)
unfolding record_entry find
Holds-record_entry_same l north id e entry k h fits =
    ground (arith, Holds-store l.max_entries l.entries.at_north id e entry k h.answered h.recent)
Holds-record_entry_same l south id e entry k h fits =
    ground (arith, Holds-store l.max_entries l.entries.at_south id e entry k h.answered h.recent)

-- A run of answers, for either seat.
unfoldable pub record_all : CommandLedger → List (Side × LedgerEntry) → CommandLedger
record_all l [] = l
record_all l ((side, entry) ∷ rest) = record_all (record_entry l side entry).0 rest

-- How many of a run's answers are for a seat.
abbrev pub sent_by : Side → List (Side × LedgerEntry) → ℕ
sent_by side [] = 0
sent_by north ((north, _) ∷ rest) = suc (sent_by north rest)
sent_by north ((south, _) ∷ rest) = sent_by north rest
sent_by south ((north, _) ∷ rest) = sent_by south rest
sent_by south ((south, _) ∷ rest) = suc (sent_by south rest)

max_entries-record_entry :
    (l : CommandLedger) (side : Side) (entry : LedgerEntry)
    → (record_entry l side entry).0.max_entries ≡ l.max_entries
unfolding record_entry
max_entries-record_entry l side entry = ground arith

Holds-record_all :
    (l : CommandLedger) (side : Side) (id : String) (e : LedgerEntry) (k : ℕ)
    (rest : List (Side × LedgerEntry))
    → Holds l side id e k
    → k + sent_by side rest < l.max_entries
    → find (record_all l rest) side id ≡ some e
unfolding record_all
Holds-record_all l side id e k [] h fits = h.answered
Holds-record_all l north id e k ((north, x) ∷ rest) h fits =
    Holds-record_all (record_entry l north x).0 north id e (k + 1) rest
      (Holds-record_entry_same l north id e x k h (omega arith))
      (omega (arith, max_entries-record_entry l north x))
Holds-record_all l south id e k ((south, x) ∷ rest) h fits =
    Holds-record_all (record_entry l south x).0 south id e (k + 1) rest
      (Holds-record_entry_same l south id e x k h (omega arith))
      (omega (arith, max_entries-record_entry l south x))
Holds-record_all l north id e k ((south, x) ∷ rest) h fits =
    Holds-record_all (record_entry l south x).0 north id e k rest
      (Holds-record_entry_other l north id e x k h)
      (omega (arith, max_entries-record_entry l south x))
Holds-record_all l south id e k ((north, x) ∷ rest) h fits =
    Holds-record_all (record_entry l north x).0 south id e k rest
      (Holds-record_entry_other l south id e x k h)
      (omega (arith, max_entries-record_entry l north x))

younger-append_new :
    (id : String) (seat : Dict LedgerEntry) (e : LedgerEntry)
    → lookup id seat ≡ none
    → (lookup id (seat ++ (id, e) ∷ []) ≡ some e) × (younger id (seat ++ (id, e) ∷ []) ≡ 0)
unfolding younger lookup
younger-append_new id [] e h = ground (arith, eq_refl id)
younger-append_new id ((j, f) ∷ seat) e h = ground (arith, younger-append_new id seat e)

Holds-store_new :
    (max : ℕ) (seat : Dict LedgerEntry) (entry : LedgerEntry)
    → lookup entry.command_id seat ≡ none
    → 0 < max
    → (lookup entry.command_id (store max seat entry) ≡ some entry)
      × (younger entry.command_id (store max seat entry) ≡ 0)
Holds-store_new max seat entry h pos = ground (
  arith,
  younger-append_new entry.command_id seat entry,
  lookup-evict max entry.command_id (seat ++ (entry.command_id, entry) ∷ []) entry,
)

Holds-record_entry_new :
    (l : CommandLedger) (side : Side) (entry : LedgerEntry)
    → find l side entry.command_id ≡ none
    → 0 < l.max_entries
    → Holds (record_entry l side entry).0 side entry.command_id entry 0
unfolding record_entry find
Holds-record_entry_new l north entry h pos =
    ground (arith, Holds-store_new l.max_entries l.entries.at_north entry)
Holds-record_entry_new l south entry h pos =
    ground (arith, Holds-store_new l.max_entries l.entries.at_south entry)

-- The entry recorded for an id that a seat had no answer to is the one that is found for it
-- afterwards, whatever both seats have recorded since, as long as that seat has recorded fewer
-- entries since than the ledger keeps for a seat.
pub first_answer_stands :
    (l : CommandLedger) (side : Side) (entry : LedgerEntry) (rest : List (Side × LedgerEntry))
    → find l side entry.command_id ≡ none
    → sent_by side rest < l.max_entries
    → find (record_all (record_entry l side entry).0 rest) side entry.command_id ≡ some entry
first_answer_stands l side entry rest new fits =
    Holds-record_all (record_entry l side entry).0 side entry.command_id entry 0 rest
      (Holds-record_entry_new l side entry new (omega arith))
      (omega (arith, max_entries-record_entry l side entry))
