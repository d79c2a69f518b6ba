-- ===== src/Sim/Phases/Scoring/Turn.antt =====
-- What the scoring of one zone does (api/app/sim/phases/scoring.py), and what a whole map's comes to.
use go_forth.Prelude.{
  ℕ, ◌≡◌, refl, sym, ◌∙◌, ap, Bool, true, false, Option, none, some, List, [], ◌∷◌, ◌++◌, String,
  All, arith, str_eq, eq_iff, eq_refl, Bool-cases, inl, inr, if◌then◌else◌,
}
use go_forth.Prelude.Dict.{Dict, lookup, insert, lookup-insert}
use go_forth.Prelude.Float.{Float}
use go_forth.Sim.BattleMap.{zone_centre}
use go_forth.Sim.Events.{BattleEvent, zone_flip}
use go_forth.Sim.Field.{Field, emit}
use go_forth.Sim.Phases.Scoring.{same_holder, pay, score_zone}
use go_forth.Sim.Types.{Side, north, south, BySide}
use go_forth.Sim.World.{World}
use go_forth.Sim.Zones.{ZoneOccupancy}

same_holder-path : (a b : Option Side) → same_holder a b ≡ true → a ≡ b
same_holder-path none none h = refl
same_holder-path none (some t) h = cc
same_holder-path (some s) none h = cc
same_holder-path (some north) (some north) h = refl
same_holder-path (some north) (some south) h = cc
same_holder-path (some south) (some north) h = cc
same_holder-path (some south) (some south) h = refl

pub str_eq_flip : (a b : String) → str_eq a b ≡ false → str_eq b a ≡ false
str_eq_flip a b h = ground (arith, eq_iff a b, eq_iff b a)

pub append_assoc : {A : Type 0} (xs ys zs : List A) → (xs ++ ys) ++ zs ≡ xs ++ (ys ++ zs)
append_assoc [] ys zs = refl
append_assoc (x ∷ xs) ys zs = ap (λ l. x ∷ l) (append_assoc xs ys zs)

pub append_none : {A : Type 0} (xs : List A) → xs ++ [] ≡ xs
append_none [] = refl
append_none (x ∷ xs) = ap (λ l. x ∷ l) (append_none xs)

module _ {F : Type 0} ⦃f : Float F⦄ where
  -- No zone's id comes again.
  abbrev pub IsDistinct : List (ZoneOccupancy F) → Type 0
  IsDistinct [] = Unit
  IsDistinct (o ∷ os) = All (λ p. str_eq o.zone.id p.zone.id ≡ false) os × IsDistinct os

  abbrev pub knows : Dict (Option Side) → ZoneOccupancy F → Bool
  knows holders o = elim (lookup o.zone.id holders) [ none ↦ false | some _ ↦ true ]

  -- The score once every holder is paid.
  abbrev pub paid_score : List (ZoneOccupancy F) → World F → BySide F
  paid_score [] w = w.zone_score
  paid_score (o ∷ os) w = paid_score os (pay o.holder o.zone.points_per_tick w)

  abbrev pub turn_told : World F → ZoneOccupancy F → Option Side → List (BattleEvent F)
  turn_told w o previous =
      if same_holder o.holder previous
      then []
      else zone_flip w.tick (zone_centre o.zone) o.zone.id o.holder previous o.zone.points_per_tick
        ∷ []

  unfoldable pub flip_of : World F → ZoneOccupancy F → List (BattleEvent F)
  flip_of w o = elim (lookup o.zone.id w.zone_holders) [
    | none ↦ []
    | some previous ↦ turn_told w o previous
  ]

  -- The flips of the zones whose holder is not the one that the dict had.
  abbrev pub flips : World F → List (ZoneOccupancy F) → List (BattleEvent F)
  flips w [] = []
  flips w (o ∷ os) = flip_of w o ++ flips w os

  pub record IsScored (os : List (ZoneOccupancy F)) (s t : Field F) : Type 0 where
    pub holders : All (λ o. lookup o.zone.id t.world.zone_holders ≡ some o.holder) os
    pub score : t.world.zone_score ≡ paid_score os s.world
    pub told : t.events ≡ s.events ++ flips s.world os

  -- What one zone's turn leaves as it was.
  pub record IsTurn (o : ZoneOccupancy F) (previous : Option Side) (s t : Field F) : Type 0 where
    pub here : lookup o.zone.id t.world.zone_holders ≡ some o.holder
    pub elsewhere :
        (id : String)
        → str_eq o.zone.id id ≡ false
        → lookup id t.world.zone_holders ≡ lookup id s.world.zone_holders
    pub score : t.world.zone_score ≡ (pay o.holder o.zone.points_per_tick s.world).zone_score
    pub tick : t.world.tick ≡ s.world.tick
    pub told : t.events ≡ s.events ++ turn_told s.world o previous

  pub pay-rest :
      (holder : Option Side) (points : F) (w : World F)
      → ((pay holder points w).zone_holders ≡ w.zone_holders)
        × ((pay holder points w).tick ≡ w.tick)
  pay-rest none points w = (refl, refl)
  pay-rest (some side) points w = (refl, refl)

  pub score_zone-IsTurn :
      (o : ZoneOccupancy F) (s : Field F) (previous : Option Side)
      → lookup o.zone.id s.world.zone_holders ≡ some previous
      → (t : Field F) × (score_zone o s ≡ some t) × IsTurn o previous s t
  unfolding score_zone
  score_zone-IsTurn o s previous e = elim (Bool-cases (same_holder o.holder previous)) [
    | inl b ↦
        let same = same_holder-path o.holder previous b in
        (
          record s { world = paid },
          ground arith,
          record {
            here = ap (lookup o.zone.id) kept ∙ e ∙ ap some (sym same);
            elsewhere = λ id k. ap (lookup id) kept;
            score = refl;
            tick = clock;
            told = ground (arith, append_none s.events);
          },
        )
    | inr b ↦ (
      emit (flip_at paid.tick) (record s {
        world = record paid { zone_holders = insert o.zone.id o.holder paid.zone_holders };
      }),
      ground arith,
      record {
        here = ground (
          arith,
          lookup-insert o.zone.id o.zone.id o.holder paid.zone_holders,
          eq_refl o.zone.id,
        );
        elsewhere =
            λ id k. ground (arith, lookup-insert o.zone.id id o.holder paid.zone_holders, kept);
        score = refl;
        tick = clock;
        told = ground (arith, clock);
      },
    )
  ]
    where
      paid : World F
      paid = pay o.holder o.zone.points_per_tick s.world

      kept : paid.zone_holders ≡ s.world.zone_holders
      kept = (pay-rest o.holder o.zone.points_per_tick s.world).0

      clock : paid.tick ≡ s.world.tick
      clock = (pay-rest o.holder o.zone.points_per_tick s.world).1

      flip_at : ℕ → BattleEvent F
      flip_at n =
          zone_flip n (zone_centre o.zone) o.zone.id o.holder previous o.zone.points_per_tick
