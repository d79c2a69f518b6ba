-- ===== src/Sim/Phases/Scoring/Paid.antt =====
-- What the scoring phase does over a whole map (api/app/sim/phases/scoring.py): every zone's holder
-- is recorded and paid, and a flip is told exactly where the holder changed.
use go_forth.Prelude.{
  ◌≡◌, refl, sym, ◌∙◌, ap, true, false, Option, none, some, List, [], ◌∷◌, ◌++◌, String, All, arith,
  str_eq, Option-cases, inl, inr,
}
use go_forth.Prelude.Dict.{lookup}
use go_forth.Prelude.Float.{Float, ◌⊕◌}
use go_forth.Sim.Field.{Field, TickContext}
use go_forth.Sim.Phases.Scoring.{pay, score_zones, scoring}
use go_forth.Sim.Types.{Side, at, put}
use go_forth.Sim.World.{World}
use go_forth.Sim.Zones.{ZoneOccupancy, zone_occupancy}
use go_forth.Sim.Phases.Scoring.Turn.{
  append_assoc, append_none, str_eq_flip, IsDistinct, knows, paid_score, turn_told, flip_of, flips,
  IsScored, IsTurn, score_zone-IsTurn,
}

module _ {F : Type 0} ⦃f : Float F⦄ where
  -- The dict's entries for those zones are the same in both.
  abbrev Agree : List (ZoneOccupancy F) → World F → World F → Type 0
  Agree os v w =
      All
        (λ (p : ZoneOccupancy F). lookup p.zone.id v.zone_holders ≡ lookup p.zone.id w.zone_holders)
        os

  paid_score-Agree :
      (os : List (ZoneOccupancy F)) (v w : World F)
      → v.zone_score ≡ w.zone_score
      → paid_score os v ≡ paid_score os w
  paid_score-Agree [] v w h = h
  paid_score-Agree (o ∷ os) v w h =
      paid_score-Agree os _ _ (pay-score o.holder o.zone.points_per_tick v w h)
    where
      pay-score :
          (holder : Option Side) (points : F) (v w : World F)
          → v.zone_score ≡ w.zone_score
          → (pay holder points v).zone_score ≡ (pay holder points w).zone_score
      pay-score none points v w h = h
      pay-score (some side) points v w h = ap (λ z. put side (at side z ⊕ points) z) h

  flips-Agree :
      (os : List (ZoneOccupancy F)) (v w : World F)
      → v.tick ≡ w.tick
      → Agree os v w
      → flips v os ≡ flips w os
  unfolding flip_of
  flips-Agree [] v w t h = refl
  flips-Agree (o ∷ os) v w t h = ground (arith, h.0, t, flips-Agree os v w t h.1)

  elsewhere-Agree :
      (o : ZoneOccupancy F) (previous : Option Side) (s t : Field F) (os : List (ZoneOccupancy F))
      → IsTurn o previous s t
      → All (λ p. str_eq o.zone.id p.zone.id ≡ false) os
      → Agree os t.world s.world
  elsewhere-Agree o previous s t [] k h = tt
  elsewhere-Agree o previous s t (p ∷ os) k h =
      (k.elsewhere p.zone.id h.0, elsewhere-Agree o previous s t os k h.1)

  knows-Agree :
      (os : List (ZoneOccupancy F)) (v w : World F)
      → Agree os v w
      → All (λ o. knows w.zone_holders o ≡ true) os
      → All (λ o. knows v.zone_holders o ≡ true) os
  knows-Agree [] v w h k = tt
  knows-Agree (o ∷ os) v w h k = (ground (arith, h.0, k.0), knows-Agree os v w h.1 k.1)

  flip_distinct :
      (o : ZoneOccupancy F) (os : List (ZoneOccupancy F))
      → All (λ p. str_eq o.zone.id p.zone.id ≡ false) os
      → All (λ p. str_eq p.zone.id o.zone.id ≡ false) os
  flip_distinct o [] h = tt
  flip_distinct o (p ∷ os) h = (str_eq_flip o.zone.id p.zone.id h.0, flip_distinct o os h.1)

  told_both :
      (s s1 : Field F) (o : ZoneOccupancy F) (previous : Option Side) (os : List (ZoneOccupancy F))
      → lookup o.zone.id s.world.zone_holders ≡ some previous
      → s1.events ≡ s.events ++ turn_told s.world o previous
      → flips s1.world os ≡ flips s.world os
      → s1.events ++ flips s1.world os ≡ s.events ++ flips s.world (o ∷ os)
  unfolding flip_of
  told_both s s1 o previous os e h k =
      let here : turn_told s.world o previous ≡ flip_of s.world o = ground arith in
      cc (h, k, here, append_assoc s.events (turn_told s.world o previous) (flips s.world os))

  -- The whole loop, and the entries of the other zones.
  record IsLoop (os : List (ZoneOccupancy F)) (s t : Field F) : Type 0 where
    scored : IsScored os s t
    others :
        (id : String)
        → All (λ o. str_eq o.zone.id id ≡ false) os
        → lookup id t.world.zone_holders ≡ lookup id s.world.zone_holders

  score_zones-IsLoop :
      (os : List (ZoneOccupancy F)) (s : Field F)
      → IsDistinct os
      → All (λ o. knows s.world.zone_holders o ≡ true) os
      → (t : Field F) × (score_zones os s ≡ some t) × IsLoop os s t
  unfolding score_zones
  score_zones-IsLoop [] s d k = (
    s,
    refl,
    record {
      scored = record { holders = tt; score = refl; told = sym (append_none s.events) };
      others = λ id h. refl;
    },
  )
  score_zones-IsLoop (o ∷ os) s d k = elim (Option-cases (lookup o.zone.id s.world.zone_holders)) [
    | inl e ↦ ground (arith, k.0)
    | inr (previous, e) ↦
        let (s1, r1, turn) = score_zone-IsTurn o s previous e in
        let agree = elsewhere-Agree o previous s s1 os turn d.0 in
        let (t, r, loop) =
          score_zones-IsLoop os s1 d.1 (knows-Agree os s1.world s.world agree k.1) in
        (
          t,
          ground (arith, r1, r),
          record {
            scored = record {
              holders =
                  (loop.others o.zone.id (flip_distinct o os d.0) ∙ turn.here, loop.scored.holders);
              score = loop.scored.score ∙ paid_score-Agree os s1.world _ turn.score;
              told =
                  loop.scored.told
                  ∙ told_both s s1 o previous os e turn.told
                      (flips-Agree os s1.world s.world turn.tick agree);
            };
            others = λ id h. loop.others id h.1 ∙ turn.elsewhere id h.0;
          },
        )
  ]

  -- If the zones of the map have different ids and all have an entry among the holders, the scoring
  -- phase returns; then every zone has the holder recorded that the occupancy gives it, the score
  -- is the old one with each holder paid the points of its zone, in the order of the zones, and the
  -- new events are one flip for each zone whose recorded holder was another, in that order.
  pub scoring-IsScored :
      (ctx : TickContext F) (s : Field F)
      → IsDistinct (zone_occupancy s.world ctx.map_config)
      → All (λ o. knows s.world.zone_holders o ≡ true) (zone_occupancy s.world ctx.map_config)
      → (t : Field F) × (scoring ctx s ≡ some t)
        × IsScored (zone_occupancy s.world ctx.map_config) s t
  unfolding scoring
  scoring-IsScored ctx s d k =
      let (t, r, loop) = score_zones-IsLoop (zone_occupancy s.world ctx.map_config) s d k in
      (t, r, loop.scored)
