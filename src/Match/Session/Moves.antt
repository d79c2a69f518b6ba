-- ===== src/Match/Session/Moves.antt =====
-- The moves of a session, one for each operation that changes it, and the sessions that they reach
-- (api/app/match/session.py).
use go_forth.Prelude.{◌≡◌, refl, Bool, Option, arith}
use mathlib.Core.Path.{subst, ◌∙◌}
use go_forth.Prelude.Float.{Float}
use go_forth.Match.Session.{match_over, done, SessionRules, MatchSession}
use go_forth.Match.Session.Clock.{lock_in-IsConsistent, tick-IsConsistent}
use go_forth.Match.Session.Consistent.{IsConsistent, cast-IsConsistent, abandon-IsConsistent}
use go_forth.Match.Session.Play.{answer, cast_new, cast, abandon, lock_in, tick}
use go_forth.Match.Wire.{Message, CastCommand}
use go_forth.Sim.Types.{Side}

module _ {F S P R : Type 0} ⦃f : Float F⦄ (rules : SessionRules F S P R) where
  -- An operation that returns. One that raises leaves no session to go on from.
  pub data Move : MatchSession F S P → MatchSession F S P → Type 0 where
    locks :
        {s s' : MatchSession F S P}
        → (side : Side) (raw : R) → lock_in rules s side raw ≡ done s'
        → Move s s'
    casts :
        {s s' : MatchSession F S P}
        → (side : Side) (c : CastCommand F) (m : Message) → cast s side c ≡ done (s', m)
        → Move s s'
    ticks :
        {s s' : MatchSession F S P}
        → (changed : Bool) → tick rules s ≡ done (s', changed)
        → Move s s'
    abandons :
        {s s' : MatchSession F S P} → (winner : Option Side) → abandon s winner ≡ s' → Move s s'

  pub data Reach : MatchSession F S P → MatchSession F S P → Type 0 where
    stay : {s : MatchSession F S P} → Reach s s
    move : {s t u : MatchSession F S P} → Move s t → Reach t u → Reach s u

  move-IsConsistent : (s s' : MatchSession F S P) → Move s s' → IsConsistent s → IsConsistent s'
  move-IsConsistent s s' (locks side raw e) h = lock_in-IsConsistent rules s s' side raw h e
  move-IsConsistent s s' (casts side c m e) h = cast-IsConsistent s s' side c m h e
  move-IsConsistent s s' (ticks changed e) h = tick-IsConsistent rules s s' changed h e
  move-IsConsistent s s' (abandons winner e) h =
      subst IsConsistent e (abandon-IsConsistent s winner h)

  -- From a consistent session, every sequence of lock-ins, casts, ticks and abandonments that
  -- return leads to a consistent one: a plan screen has no round, a battle has a round that goes
  -- on, a finished round has its result, the match has a result when it is over and none before,
  -- and no more rounds are won than are decided.
  pub Reach-IsConsistent :
      (s s' : MatchSession F S P) → Reach s s' → IsConsistent s → IsConsistent s'
  Reach-IsConsistent s s' stay h = h
  Reach-IsConsistent s s' (move m rest) h = Reach-IsConsistent _ s' rest (move-IsConsistent s _ m h)

-- What a finished match keeps: its result, its score, the bases, the round and the record.
pub record IsKept {F S P : Type 0} (s s' : MatchSession F S P) : Type 0 where
  pub still_over : s'.phase ≡ match_over
  pub same_result : s'.match_result ≡ s.match_result
  pub same_wins : s'.rounds_won ≡ s.rounds_won
  pub same_bases : s'.base_hp ≡ s.base_hp
  pub same_round : s'.round ≡ s.round
  pub same_record : s'.recorder ≡ s.recorder

module _ {F S P R : Type 0} ⦃f : Float F⦄ (rules : SessionRules F S P R) where
  move-IsKept : (s s' : MatchSession F S P) → Move rules s s' → s.phase ≡ match_over → IsKept s s'
  unfolding lock_in cast cast_new answer tick abandon
  move-IsKept s s' (locks side raw e) h = absurd (ground arith)
  move-IsKept s s' (casts side c m e) h = record {
    still_over = ground arith;
    same_result = ground arith;
    same_wins = ground arith;
    same_bases = ground arith;
    same_round = ground arith;
    same_record = ground arith;
  }
  move-IsKept s s' (ticks changed e) h = record {
    still_over = ground arith;
    same_result = ground arith;
    same_wins = ground arith;
    same_bases = ground arith;
    same_round = ground arith;
    same_record = ground arith;
  }
  move-IsKept s s' (abandons winner e) h = record {
    still_over = ground arith;
    same_result = ground arith;
    same_wins = ground arith;
    same_bases = ground arith;
    same_round = ground arith;
    same_record = ground arith;
  }

  -- Once a match is over, no sequence of operations that return changes its phase, its result, its
  -- score, its bases, its round or its run record.
  pub Reach-IsKept :
      (s s' : MatchSession F S P) → Reach rules s s' → s.phase ≡ match_over → IsKept s s'
  Reach-IsKept s s' stay h = record {
    still_over = h;
    same_result = refl;
    same_wins = refl;
    same_bases = refl;
    same_round = refl;
    same_record = refl;
  }
  Reach-IsKept s s' (move {t = t} m rest) h =
      let first_ = move-IsKept s t m h in
      let then_ = Reach-IsKept t s' rest first_.still_over in
      record {
        still_over = then_.still_over;
        same_result = then_.same_result ∙ first_.same_result;
        same_wins = then_.same_wins ∙ first_.same_wins;
        same_bases = then_.same_bases ∙ first_.same_bases;
        same_round = then_.same_round ∙ first_.same_round;
        same_record = then_.same_record ∙ first_.same_record;
      }
