-- ===== src/Match/Round/Settled.antt =====
-- Why a round stops, as a relation that names no order of tests, and that the code decides it;
-- and that neither side is favoured by the order in which the code looks (api/app/match/round.py).
use go_forth.Prelude.{
  ℕ, ◌≤◌, ◌<◌, ◌≡◌, true, false, Option, none, some, arith, leb, all, select, sym, ◌∙◌, Bool-cases,
  inl, inr, if◌then◌else◌,
}
use mathlib.Core.Path.{subst}
use go_forth.Prelude.Float.{Float, IsFloat, ◌≤?◌, ◌<?◌}
use go_forth.Match.Wire.{zone_control, annihilation, time_up}
use go_forth.Match.Round.{
  RoundEnding, round_complete, base_destroyed, fallen, living, ahead, score_leader,
  outcome_on_score, decide_ending, decide_on_score, sole,
}
use go_forth.Sim.Types.{Side, north, south, opposing, sides, at}
use go_forth.Sim.World.{World}

-- The winner on numbers that each side has: who has more, or nobody.
pub data MoreOf {F : Type 0} ⦃f : Float F⦄ (n s : F) : Option Side → Type 0 where
  more_north : s <? n ≡ true → MoreOf n s (some north)
  more_south : n <? s ≡ true → MoreOf n s (some south)
  level : s <? n ≡ false → n <? s ≡ false → MoreOf n s none

-- Zone score decides, and on a tie the base that has more left.
pub data WinsOnScore {F : Type 0} ⦃f : Float F⦄ (w : World F) : Option Side → Type 0 where
  on_score :
      (side : Side)
      → MoreOf w.zone_score.at_north w.zone_score.at_south (some side)
      → WinsOnScore w (some side)
  on_bases :
      (winner : Option Side)
      → MoreOf w.zone_score.at_north w.zone_score.at_south none
      → MoreOf w.bases.at_north.hp w.bases.at_south.hp winner
      → WinsOnScore w winner

pub record Standing {F : Type 0} ⦃f : Float F⦄ (w : World F) : Type 0 where
  pub north_stands : fallen w north ≡ false
  pub south_stands : fallen w south ≡ false

pub record Fighting {F : Type 0} ⦃f : Float F⦄ (w : World F) : Type 0 where
  pub north_lives : living w north ≡ true
  pub south_lives : living w south ≡ true

-- The rules of the round's end.
pub data Ends {F : Type 0} ⦃f : Float F⦄ (limit : ℕ) (threshold : F) (w : World F)
    : RoundEnding → Type 0 where
  both_fell :
      fallen w north ≡ true → fallen w south ≡ true → Ends limit threshold w (base_destroyed none)
  one_fell :
      (side : Side)
      → fallen w side ≡ true
      → fallen w (opposing side) ≡ false
      → Ends limit threshold w (base_destroyed (some (opposing side)))
  none_left :
      Standing w
      → living w north ≡ false
      → living w south ≡ false
      → Ends limit threshold w (round_complete none annihilation)
  one_left :
      (side : Side)
      → Standing w
      → living w side ≡ true
      → living w (opposing side) ≡ false
      → Ends limit threshold w (round_complete (some side) annihilation)
  scored_out :
      (side : Side)
      → Standing w
      → Fighting w
      → MoreOf w.zone_score.at_north w.zone_score.at_south (some side)
      → threshold ≤? at side w.zone_score ≡ true
      → Ends limit threshold w (round_complete (some side) zone_control)
  ran_out :
      (winner : Option Side)
      → Standing w
      → Fighting w
      → ((side : Side)
          → MoreOf w.zone_score.at_north w.zone_score.at_south (some side)
          → threshold ≤? at side w.zone_score ≡ false)
      → limit ≤ w.tick
      → WinsOnScore w winner
      → Ends limit threshold w (round_complete winner time_up)

-- The round goes on: nobody has lost, nobody has scored out, and there is time left.
pub record GoesOn {F : Type 0} ⦃f : Float F⦄ (limit : ℕ) (threshold : F) (w : World F)
    : Type 0 where
  pub standing : Standing w
  pub fighting : Fighting w
  pub unscored :
      (side : Side)
      → MoreOf w.zone_score.at_north w.zone_score.at_south (some side)
      → threshold ≤? at side w.zone_score ≡ false
  pub in_time : w.tick < limit

-- What a decision has to be.
abbrev pub Settled : {F : Type 0} ⦃f : Float F⦄ → ℕ → F → World F → Option RoundEnding → Type 0
Settled limit threshold w none = GoesOn limit threshold w
Settled limit threshold w (some ending) = Ends limit threshold w ending

module _ {F : Type 0} ⦃f : Float F⦄ where
  ahead-MoreOf : (n s : F) → MoreOf n s (ahead n s)
  ahead-MoreOf n s = elim (Bool-cases (s <? n)) [
    | inl e ↦ rw e (more_north e)
    | inr e ↦ elim (Bool-cases (n <? s)) [
      | inl g ↦ rw (e, g) (more_south g)
      | inr g ↦ rw (e, g) (level e g)
    ]
  ]

  MoreOf-ahead : IsFloat F → (n s : F) (o : Option Side) → MoreOf n s o → ahead n s ≡ o
  MoreOf-ahead laws n s (some north) (more_north h) = rw h
  MoreOf-ahead laws n s (some south) (more_south h) = rw (laws.key.less_asym n s h, h)
  MoreOf-ahead laws n s none (level h k) = rw (h, k)

  MoreOf-unique : IsFloat F → (n s : F) (o p : Option Side) → MoreOf n s o → MoreOf n s p → o ≡ p
  MoreOf-unique laws n s o p m k = sym (MoreOf-ahead laws n s o m) ∙ MoreOf-ahead laws n s p k

  outcome-WinsOnScore : (w : World F) → WinsOnScore w (outcome_on_score w)
  unfolding outcome_on_score
  outcome-WinsOnScore w =
      go (score_leader w) (ahead-MoreOf w.zone_score.at_north w.zone_score.at_south)
    where
      go :
          (o : Option Side)
          → MoreOf w.zone_score.at_north w.zone_score.at_south o
          → WinsOnScore w (elim o [
            | some leader ↦ some leader
            | none ↦ ahead w.bases.at_north.hp w.bases.at_south.hp
          ])
      go (some side) m = on_score side m
      go none m = on_bases _ m (ahead-MoreOf w.bases.at_north.hp w.bases.at_south.hp)

  module _ (limit : ℕ) (threshold : F) (w : World F) (stand : Standing w) (fight : Fighting w) where
    timed :
        ((side : Side)
          → MoreOf w.zone_score.at_north w.zone_score.at_south (some side)
          → threshold ≤? at side w.zone_score ≡ false)
        → Settled limit threshold w
            (if leb limit w.tick then some (round_complete (outcome_on_score w) time_up) else none)
    timed unscored = elim (Bool-cases (leb limit w.tick)) [
      | inl late ↦ rw late (ran_out _ stand fight unscored (ground arith) (outcome-WinsOnScore w))
      | inr early ↦ rw early (record {
        standing = stand;
        fighting = fight;
        unscored = unscored;
        in_time = ground arith;
      })
    ]

    scored : IsFloat F → Settled limit threshold w (decide_on_score limit threshold w)
    unfolding decide_on_score score_leader
    scored laws = go (score_leader w) (ahead-MoreOf w.zone_score.at_north w.zone_score.at_south)
      where
        go :
            (o : Option Side)
            → MoreOf w.zone_score.at_north w.zone_score.at_south o
            → Settled limit threshold w (elim o [
              | none ↦
                  if leb limit w.tick
                  then some (round_complete (outcome_on_score w) time_up)
                  else none
              | some leader ↦
                  if threshold ≤? at leader w.zone_score
                  then some (round_complete (some leader) zone_control)
                  else if leb limit w.tick
                  then some (round_complete (outcome_on_score w) time_up)
                  else none
            ])
        go none m = timed λ side m'. cc (MoreOf-unique laws _ _ _ _ m m')
        go (some leader) m = elim (Bool-cases (threshold ≤? at leader w.zone_score)) [
          | inl reached ↦ rw reached (scored_out leader stand fight m reached)
          | inr short ↦ rw short (
              timed λ side m'.
                let same : leader ≡ side = cc (MoreOf-unique laws _ _ _ _ m m') in
                subst (λ s. threshold ≤? at s w.zone_score ≡ false) same short)
        ]

  -- For floats that keep the laws, the decision about a round is settled by its rules: an ending
  -- that it names is one that they give for that world (fallen bases first, then a side wiped out,
  -- then a score past the threshold, then the clock, ties broken on the bases), and where it names
  -- none both bases stand, both sides live, no leader has reached the threshold and there is time
  -- left.
  pub decide_ending-Settled :
      IsFloat F
      → (limit : ℕ) (threshold : F) (w : World F)
      → Settled limit threshold w (decide_ending limit threshold w)
  unfolding decide_ending
  decide_ending-Settled laws limit threshold w = elim (Bool-cases (fallen w north)) [
    | inl n ↦ elim (Bool-cases (fallen w south)) [
      | inl s ↦ rw (n, s, decide_ending) (both_fell n s)
      | inr s ↦ rw (n, s, decide_ending) (one_fell north n s)
    ]
    | inr n ↦ elim (Bool-cases (fallen w south)) [
      | inl s ↦ rw (n, s, decide_ending) (one_fell south s n)
      | inr s ↦ rw (n, s, decide_ending) (survivors (record { north_stands = n; south_stands = s }))
    ]
  ]
    where
      survivors :
          Standing w
          → Settled limit threshold w (
              if all (living w) sides
              then decide_on_score limit threshold w
              else some (round_complete (sole (select (living w) sides)) annihilation))
      survivors stand = elim (Bool-cases (living w north)) [
        | inl n ↦ elim (Bool-cases (living w south)) [
          | inl s ↦
              rw (n, s)
                (scored limit threshold w stand (record { north_lives = n; south_lives = s }) laws)
          | inr s ↦ rw (n, s) (one_left north stand n s)
        ]
        | inr n ↦ elim (Bool-cases (living w south)) [
          | inl s ↦ rw (n, s) (one_left south stand s n)
          | inr s ↦ rw (n, s) (none_left stand n s)
        ]
      ]
