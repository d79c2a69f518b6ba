-- ===== src/Server/Tests.antt =====
-- A seat that is claimed, and claimed again (api/app/repository.py).
use go_forth.Prelude.{◌≡◌, refl, false, none, some, [], ◌∷◌}
use go_forth.Prelude.Dict.{lookup, insert}
use go_forth.Server.Repository.{
  Repository, StoredSeat, ClaimResult, Claimed, claimed, refused, upsert_match, claim_seat,
  take_seat, seat_of, seat_updated, record_player,
}
use go_forth.Server.Repository.Claims.{IsHeldFor, claim_seat-IsHeldFor}

abbrev opened : Repository
opened =
    (upsert_match "m1"
      (record {
        external_match_id = "ext";
        game_mode = "standard";
        run_id = "run";
        test_profile = false;
        seats = ("north", some "ann") ∷ ("south", none) ∷ [];
        lobby_issuer = none;
        return_url = none;
        graphql_url = none;
        service_token = none;
      })
      (record { matches = []; players = [] })).0

abbrev taken : StoredSeat
taken = record {
  seat_key = "north";
  position = 0;
  reserved_for_lobby_user = some "ann";
  player_id = some "p1";
  player_name = some "Ann";
  lobby_user_id = some "ann";
}

abbrev after : Claimed → Repository
after (claimed r c) = r
after (refused e) = opened

abbrev first_claim : Claimed
first_claim = claim_seat "p1" 5 "ext" "north" (some "ann") "Ann" opened

abbrev answer : Claimed → StoredSeat
answer (claimed r c) = c.seat
answer (refused e) = taken

first_claim-taken : answer first_claim ≡ taken
unfolding upsert_match claim_seat take_seat seat_of seat_updated record_player lookup insert
first_claim-taken = refl

abbrev granted : Claimed → ClaimResult → ClaimResult
granted (claimed r c) d = c
granted (refused e) d = d

abbrev nothing_granted : ClaimResult
nothing_granted = record {
  match = record {
    id = "";
    external_match_id = "";
    game_mode = "";
    run_id = "";
    test_profile = false;
    lobby_issuer = none;
    return_url = none;
    graphql_url = none;
    service_token = none;
    finished = false;
    seats = [];
    finished_at = none;
    reported_at = none;
  };
  seat = taken;
  reclaimed = false;
}

claim_seat-IsHeldFor_example :
    IsHeldFor taken
      (some "bob")
      (claim_seat "p2" 6 "ext" "north" (some "bob") "Bob" (after first_claim))
unfolding upsert_match claim_seat take_seat seat_of seat_updated record_player lookup insert
claim_seat-IsHeldFor_example =
    claim_seat-IsHeldFor "p1" "p2" 5 6 "ext" "north" (some "ann") (some "bob") "Ann" "Bob" opened
      (after first_claim) (granted first_claim nothing_granted) refl
