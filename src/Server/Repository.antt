-- ===== src/Server/Repository.antt =====
-- What the server stores, api/app/repository.py: `MemoryRepository`, as a state that each operation
-- takes and returns. The ids of `uuid4` and the instants of the clock are arguments.
pub mod Claims
use go_forth.Prelude.{
  ℕ, ◌+◌, suc, Bool, true, false, Option, none, some, List, [], ◌∷◌, ◌++◌, String, map, first,
  select, take, str_eq, not, ltb, ◌==◌, ◌&&◌, ◌||◌, if◌then◌else◌,
}
use go_forth.Prelude.Dict.{Dict, lookup, insert}
use go_forth.Prelude.Strip.{is_empty}
use go_forth.Prelude.Text.{str_lt}

pub record StoredSeat : Type 0 where
  pub seat_key : String
  pub position : ℕ
  pub reserved_for_lobby_user : Option String
  pub player_id : Option String
  pub player_name : Option String
  pub lobby_user_id : Option String

pub record StoredMatch : Type 0 where
  pub id : String
  pub external_match_id : String
  pub game_mode : String
  pub run_id : String
  pub test_profile : Bool
  pub lobby_issuer : Option String
  pub return_url : Option String
  pub graphql_url : Option String
  pub service_token : Option String
  pub finished : Bool
  pub seats : List StoredSeat
  pub finished_at : Option ℕ
  pub reported_at : Option ℕ

pub record PlayerRow : Type 0 where
  pub display_name : String
  pub first_seen_at : ℕ
  pub last_seen_at : ℕ
  pub matches_played : ℕ

pub record Repository : Type 0 where
  pub matches : Dict StoredMatch
  pub players : Dict PlayerRow

-- What a provisioning push says of a match.
pub record Push : Type 0 where
  pub external_match_id : String
  pub game_mode : String
  pub run_id : String
  pub test_profile : Bool
  pub seats : List (String × Option String)
  pub lobby_issuer : Option String
  pub return_url : Option String
  pub graphql_url : Option String
  pub service_token : Option String

pub data ClaimFault : Type 0 where
  match_not_found seat_not_found reserved_for_another already_taken : ClaimFault

pub record ClaimResult : Type 0 where
  pub match : StoredMatch
  pub seat : StoredSeat
  pub reclaimed : Bool

pub data Claimed : Type 0 where
  claimed : Repository → ClaimResult → Claimed
  refused : ClaimFault → Claimed

-- A text that Python takes for true.
abbrev pub truthy : Option String → Bool
truthy none = false
truthy (some s) = not (is_empty s)

-- `new or old`
abbrev pub or_else : Option String → Option String → Option String
or_else new old = if truthy new then new else old

abbrev pub same_text : Option String → Option String → Bool
same_text none none = true
same_text none (some _) = false
same_text (some _) none = false
same_text (some a) (some b) = str_eq a b

-- StoredMatch.seat
unfoldable pub seat_of : String → List StoredSeat → Option StoredSeat
seat_of key seats = first (λ s. str_eq s.seat_key key) seats

-- The first seat of that key, changed: the object that `StoredMatch.seat` returns.
unfoldable pub seat_updated : String → (StoredSeat → StoredSeat) → List StoredSeat → List StoredSeat
seat_updated key change [] = []
seat_updated key change (s ∷ seats) =
    let rest = seat_updated key change seats in
    if str_eq s.seat_key key then change s ∷ seats else s ∷ rest

new_seats : ℕ → List (String × Option String) → List StoredSeat
new_seats index [] = []
new_seats index ((key, reserved) ∷ rest) =
    record {
      seat_key = key;
      position = index;
      reserved_for_lobby_user = reserved;
      player_id = none;
      player_name = none;
      lobby_user_id = none;
    }
    ∷ new_seats (suc index) rest

unfoldable pub upsert_match : String → Push → Repository → Repository × StoredMatch
unfolding new_seats
upsert_match new_id p r = elim (lookup p.external_match_id r.matches) [
  | some existing ↦
      let match = record existing {
        return_url = or_else p.return_url existing.return_url;
        graphql_url = or_else p.graphql_url existing.graphql_url;
        service_token = or_else p.service_token existing.service_token;
      } in
      (record r { matches = insert p.external_match_id match r.matches }, match)
  | none ↦
      let match : StoredMatch = record {
        id = new_id;
        external_match_id = p.external_match_id;
        game_mode = p.game_mode;
        run_id = p.run_id;
        test_profile = p.test_profile;
        lobby_issuer = p.lobby_issuer;
        return_url = p.return_url;
        graphql_url = p.graphql_url;
        service_token = p.service_token;
        finished = false;
        seats = new_seats 0 p.seats;
        finished_at = none;
        reported_at = none;
      } in
      (record r { matches = insert p.external_match_id match r.matches }, match)
]

unfoldable pub record_player : String → String → ℕ → Repository → Repository
record_player user name now r = elim (lookup user r.players) [
  | none ↦ record r {
    players =
        insert user
          (record {
            display_name = name;
            first_seen_at = now;
            last_seen_at = now;
            matches_played = 0;
          })
          r.players;
  }
  | some row ↦ record r {
    players =
        insert user
          (record row {
            display_name = if is_empty name then row.display_name else name;
            last_seen_at = now;
          })
          r.players;
  }
]

abbrev pub seen : Option String → String → ℕ → Repository → Repository
seen none name now r = r
seen (some user) name now r = if is_empty user then r else record_player user name now r

-- A claim of a seat that is there: its reservation, then whether it is taken.
unfoldable pub take_seat :
    String → ℕ → String → StoredMatch → StoredSeat → Option String → String → Repository → Claimed
take_seat new_id now match_id match seat user name r =
    let reserved = seat.reserved_for_lobby_user in
    let back = record seat {
      player_name = if is_empty name then seat.player_name else some name;
    } in
    let again = record match { seats = seat_updated seat.seat_key (λ _. back) match.seats } in
    let sat = record seat {
      player_id = some new_id;
      player_name = some name;
      lobby_user_id = user;
    } in
    let joined = record match { seats = seat_updated seat.seat_key (λ _. sat) match.seats } in
    let stored = record r { matches = insert match_id joined r.matches } in
    if truthy reserved && truthy user && not (same_text reserved user)
    then refused reserved_for_another
    else elim seat.player_id [
      | some _ ↦
          if truthy user && same_text seat.lobby_user_id user
          then claimed (record r { matches = insert match_id again r.matches })
              (record { match = again; seat = back; reclaimed = true })
          else refused already_taken
      | none ↦
          claimed (seen user name now stored)
            (record { match = joined; seat = sat; reclaimed = false })
    ]

unfoldable pub claim_seat :
    String → ℕ → String → String → Option String → String → Repository → Claimed
claim_seat new_id now match_id seat_key user name r = elim (lookup match_id r.matches) [
  | none ↦ refused match_not_found
  | some match ↦ elim (seat_of seat_key match.seats) [
    | none ↦ refused seat_not_found
    | some seat ↦ take_seat new_id now match_id match seat user name r
  ]
]

-- mark_finished
unfoldable pub mark_finished : ℕ → String → Bool → Repository → Repository
mark_finished now match_id reported r = elim (lookup match_id r.matches) [
  | none ↦ r
  | some match ↦ record r {
    matches =
        insert match_id
          (record match {
            finished = true;
            finished_at = first_of match.finished_at;
            reported_at = if reported then first_of match.reported_at else match.reported_at;
          })
          r.matches;
  }
]
  where
    first_of : Option ℕ → Option ℕ
    first_of none = some now
    first_of (some t) = some t
