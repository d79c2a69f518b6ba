-- ===== src/Server/Repository/Claims.antt =====
-- What a claimed seat is to the next caller (api/app/repository.py): its own player comes back to it,
-- and everybody else is refused.
use go_forth.Prelude.{
  ℕ, ◌≡◌, refl, ap, sym, ◌∙◌, Bool, true, false, Option, none, some, List, [], ◌∷◌, String, str_eq,
  not, ◌&&◌, arith, eq_iff, Bool-cases, Option-cases, inl, inr,
}
use mathlib.Core.Path.{subst}
use go_forth.Prelude.Dict.{lookup, insert, lookup-insert_self}
use go_forth.Prelude.Keeps.{if-cases, Option-keeps_eq}
use go_forth.Server.Repository.{
  StoredSeat, StoredMatch, Repository, ClaimResult, Claimed, claimed, refused, truthy, same_text,
  seat_of, seat_updated, record_player, seen, take_seat, claim_seat,
}

seat_of-key :
    (key : String) (seats : List StoredSeat) (s : StoredSeat)
    → seat_of key seats ≡ some s
    → s.seat_key ≡ key
unfolding seat_of
seat_of-key key [] s h = cc
seat_of-key key (x ∷ seats) s h = ground (arith, eq_iff x.seat_key key, seat_of-key key seats s)

seat_of-updated :
    (key : String) (change : StoredSeat → StoredSeat) (seats : List StoredSeat) (s : StoredSeat)
    → seat_of key seats ≡ some s
    → (change s).seat_key ≡ key
    → seat_of key (seat_updated key change seats) ≡ some (change s)
unfolding seat_of seat_updated
seat_of-updated key change [] s h k = cc
seat_of-updated key change (x ∷ seats) s h k = elim (Bool-cases (str_eq x.seat_key key)) [
  | inl e ↦ ground (arith, eq_iff (change s).seat_key key)
  | inr e ↦ ground (arith, seat_of-updated key change seats s)
]

seen-matches :
    (user : Option String) (name : String) (now : ℕ) (r : Repository)
    → (seen user name now r).matches ≡ r.matches
unfolding record_player
seen-matches none name now r = refl
seen-matches (some user) name now r = elim (Option-cases (lookup user r.players)) [
  | inl e ↦ ground arith
  | inr (row, e) ↦ ground arith
]

-- Whether that caller is the seat's own player, whom its reservation lets through.
abbrev pub returning : StoredSeat → Option String → Bool
returning seat user =
    truthy user
    && same_text seat.lobby_user_id user
    && not
        (truthy seat.reserved_for_lobby_user && not (same_text seat.reserved_for_lobby_user user))

-- The answer to a caller of a seat that is held: its own player is back in it, another is refused.
abbrev pub IsHeldFor : StoredSeat → Option String → Claimed → Type 0
IsHeldFor seat user (claimed r c) =
    (returning seat user ≡ true) × (c.reclaimed ≡ true) × (c.seat.player_id ≡ seat.player_id)
IsHeldFor seat user (refused e) = returning seat user ≡ false

-- The repository has the seat of that match, and a player holds it.
pub record IsHeld (match_id key : String) (r : Repository) (seat : StoredSeat) : Type 0 where
  pub match : StoredMatch
  pub stored : lookup match_id r.matches ≡ some match
  pub found : seat_of key match.seats ≡ some seat
  pub player : String
  pub held : seat.player_id ≡ some player

IsHeld-put :
    (match_id key : String) (r : Repository) (match : StoredMatch) (seat new : StoredSeat)
    (player : String)
    → seat_of key match.seats ≡ some seat
    → new.seat_key ≡ seat.seat_key
    → new.player_id ≡ some player
    → IsHeld match_id key
        (record r {
          matches =
              insert match_id
                (record match { seats = seat_updated seat.seat_key (λ _. new) match.seats })
                r.matches;
        })
        new
IsHeld-put match_id key r match seat new player h k p = record {
  match = record match { seats = seat_updated seat.seat_key (λ _. new) match.seats };
  stored = lookup-insert_self match_id _ r.matches;
  found =
      subst (λ j. seat_of key (seat_updated j (λ _. new) match.seats) ≡ some new)
        (sym (seat_of-key key match.seats seat h))
        (seat_of-updated key (λ _. new) match.seats seat h
          (k ∙ seat_of-key key match.seats seat h));
  player = player;
  held = p;
}

take_seat-IsHeldFor :
    (id : String) (now : ℕ) (match_id : String) (match : StoredMatch) (seat : StoredSeat)
    (user : Option String) (name : String) (r : Repository) (player : String)
    → seat.player_id ≡ some player
    → IsHeldFor seat user (take_seat id now match_id match seat user name r)
unfolding take_seat
take_seat-IsHeldFor id now match_id match seat user name r player h =
    if-cases (IsHeldFor seat user)
      (truthy seat.reserved_for_lobby_user
        && truthy user
        && not (same_text seat.reserved_for_lobby_user user))
      _ _ (λ e. ground arith)
      (λ e.
        Option-keeps_eq (IsHeldFor seat user) seat.player_id _ _ (λ k. cc)
          (λ p k.
            if-cases (IsHeldFor seat user) (truthy user && same_text seat.lobby_user_id user) _ _
              (λ q. (ground arith, refl, refl)) (λ q. ground arith)))

IsHeld-claim :
    (id : String) (now : ℕ) (match_id key : String) (user : Option String) (name : String)
    (r : Repository) (seat : StoredSeat)
    → IsHeld match_id key r seat
    → IsHeldFor seat user (claim_seat id now match_id key user name r)
unfolding claim_seat
IsHeld-claim id now match_id key user name r seat h =
    let it : take_seat id now match_id h.match seat user name r
        ≡ claim_seat id now match_id key user name r =
      ground (arith, h.stored, h.found) in
    subst (IsHeldFor seat user) it
      (take_seat-IsHeldFor id now match_id h.match seat user name r h.player h.held)

-- What a claim leaves, if it is granted.
IsTaken : String → String → Claimed → Type 0
IsTaken match_id key (claimed r c) = IsHeld match_id key r c.seat
IsTaken match_id key (refused e) = Unit

IsHeld-matches :
    (match_id key : String) (r s : Repository) (seat : StoredSeat)
    → s.matches ≡ r.matches
    → IsHeld match_id key r seat
    → IsHeld match_id key s seat
IsHeld-matches match_id key r s seat e h = record {
  match = h.match;
  stored = ap (lookup match_id) e ∙ h.stored;
  found = h.found;
  player = h.player;
  held = h.held;
}

take_seat-IsTaken :
    (id : String) (now : ℕ) (match_id key : String) (match : StoredMatch) (seat : StoredSeat)
    (user : Option String) (name : String) (r : Repository)
    → seat_of key match.seats ≡ some seat
    → IsTaken match_id key (take_seat id now match_id match seat user name r)
unfolding take_seat IsTaken
take_seat-IsTaken id now match_id key match seat user name r h =
    if-cases (IsTaken match_id key)
      (truthy seat.reserved_for_lobby_user
        && truthy user
        && not (same_text seat.reserved_for_lobby_user user))
      _ _ (λ e. tt)
      (λ e.
        Option-keeps_eq (IsTaken match_id key) seat.player_id _ _
          (λ k.
            IsHeld-matches match_id key _ _ _ (seen-matches user name now _)
              (IsHeld-put match_id key r match seat _ id h refl refl))
          (λ p k.
            if-cases (IsTaken match_id key) (truthy user && same_text seat.lobby_user_id user) _ _
              (λ q. IsHeld-put match_id key r match seat _ p h refl k) (λ q. tt)))

claim_seat-IsTaken :
    (id : String) (now : ℕ) (match_id key : String) (user : Option String) (name : String)
    (r : Repository)
    → IsTaken match_id key (claim_seat id now match_id key user name r)
unfolding claim_seat IsTaken
claim_seat-IsTaken id now match_id key user name r =
    Option-keeps_eq (IsTaken match_id key) (lookup match_id r.matches) _ _ (λ e. tt)
      (λ match e.
        Option-keeps_eq (IsTaken match_id key) (seat_of key match.seats) _ _ (λ k. tt)
          (λ seat k. take_seat-IsTaken id now match_id key match seat user name r k))

-- After a claim of a seat is granted, the next claim of the seat is granted exactly when its caller
-- is the Lobby user who holds the seat and the reservation lets them through; and then it is a
-- reclaim by the same player id.
pub claim_seat-IsHeldFor :
    (id next_id : String) (now later : ℕ) (match_id key : String) (user next_user : Option String)
    (name next_name : String) (r r1 : Repository) (c : ClaimResult)
    → claim_seat id now match_id key user name r ≡ claimed r1 c
    → IsHeldFor c.seat next_user (claim_seat next_id later match_id key next_user next_name r1)
unfolding IsTaken
claim_seat-IsHeldFor id next_id now later match_id key user next_user name next_name r r1 c e =
    IsHeld-claim next_id later match_id key next_user next_name r1 c.seat
      (subst (IsTaken match_id key) e (claim_seat-IsTaken id now match_id key user name r))
