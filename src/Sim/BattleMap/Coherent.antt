-- ===== src/Sim/BattleMap/Coherent.antt =====
-- What a map that `validate_map_config` lets through is (api/app/sim/map.py): its zones lie apart, so
-- the zone that a position sits in is one whatever their order.
use go_forth.Prelude.{
  ◌≡◌, refl, Bool, true, false, some, List, [], ◌∷◌, ◌++◌, first, any, All, arith, Bool-cases, inl,
  inr,
}
use mathlib.Core.Path.{subst}
use go_forth.Prelude.Float.{Float, IsFloat}
use go_forth.Sim.BattleMap.{
  Span, ZoneConfig, MapConfig, span_contains, overlaps, zone_contains, zone_containing,
}
use go_forth.Sim.BattleMap.Checked.{
  Verdict, MapFault, sound, unsound, ◌then◌, refuse_if, zones_meet, check_zone, check_zones,
  validate_map_config,
}
use go_forth.Sim.Types.{Vec2}

then-sound : (a b : Verdict) → (a then b) ≡ sound → (a ≡ sound) × (b ≡ sound)
then-sound sound b h = (refl, h)
then-sound (unsound e) b h = cc

refuse_if-sound : (b : Bool) (e : MapFault) → refuse_if b e ≡ sound → b ≡ false
refuse_if-sound true e h = cc
refuse_if-sound false e h = refl

any-append :
    {A : Type 0} (p : A → Bool) (xs : List A) (x : A)
    → any p (xs ++ x ∷ []) ≡ false
    → (any p xs ≡ false) × (p x ≡ false)
any-append p [] x h = ground arith
any-append p (y ∷ xs) x h = ground (arith, any-append p xs x)

module _ {F : Type 0} ⦃f : Float F⦄ where
  -- No two of the zones meet.
  pub IsApart : List (ZoneConfig F) → Type 0
  IsApart [] = Unit
  IsApart (z ∷ zs) = All (λ other. zones_meet other z ≡ false) zs × IsApart zs

  check_zone-clear :
      (config : MapConfig F) (seen : List (ZoneConfig F)) (z : ZoneConfig F)
      → check_zone config seen z ≡ sound
      → any (zones_meet z) seen ≡ false
  unfolding check_zone
  check_zone-clear config seen z h = ground arith

  split-seen :
      (seen : List (ZoneConfig F)) (z : ZoneConfig F) (zs : List (ZoneConfig F))
      → All (λ x. any (zones_meet x) (seen ++ z ∷ []) ≡ false) zs
      → All (λ x. any (zones_meet x) seen ≡ false) zs × All (λ x. zones_meet x z ≡ false) zs
  split-seen seen z [] h = (tt, tt)
  split-seen seen z (x ∷ zs) h =
      let (a, b) = any-append (zones_meet x) seen z h.0 in
      let (fit, clear) = split-seen seen z zs h.1 in ((a, fit), (b, clear))

  check_zones-IsApart :
      (config : MapConfig F) (seen zs : List (ZoneConfig F))
      → check_zones config seen zs ≡ sound
      → All (λ x. any (zones_meet x) seen ≡ false) zs × IsApart zs
  unfolding check_zones IsApart
  check_zones-IsApart config seen [] h = (tt, tt)
  check_zones-IsApart config seen (z ∷ zs) h =
      let (here, rest) = then-sound (check_zone config seen z) _ h in
      let (all, apart) = check_zones-IsApart config (seen ++ z ∷ []) zs rest in
      let (fit, clear) = split-seen seen z zs all in
      ((check_zone-clear config seen z here, fit), (clear, apart))

  validate_map_config-IsApart :
      (config : MapConfig F) → validate_map_config config ≡ sound → IsApart config.zones
  unfolding validate_map_config
  validate_map_config-IsApart config h =
      let zones : check_zones config [] config.zones ≡ sound = ground arith in
      (check_zones-IsApart config [] config.zones zones).1

  module _ (law : IsFloat F) where
    spans_meet :
        (a b : Span F) (v : F)
        → span_contains a v ≡ true
        → span_contains b v ≡ true
        → overlaps a b ≡ true
    spans_meet a b v h k = ground (
      arith,
      law.le-not-lt a.start v,
      law.le-not-lt b.start v,
      law.key.less_trans v b.stop a.start,
      law.key.less_trans v a.stop b.start,
    )

    zones_meet_at :
        (a b : ZoneConfig F) (p : Vec2 F)
        → zone_contains a p ≡ true
        → zone_contains b p ≡ true
        → zones_meet a b ≡ true
    zones_meet_at a b p h k =
        ground (arith, spans_meet a.lane b.lane p.y, spans_meet a.extent b.extent p.x)

    All-middle :
        (P : ZoneConfig F → Type 0) (left : List (ZoneConfig F)) (z : ZoneConfig F)
        (right : List (ZoneConfig F))
        → All P (left ++ z ∷ right)
        → P z
    All-middle P [] z right h = h.0
    All-middle P (x ∷ left) z right h = All-middle P left z right h.1

    first-apart :
        (p : Vec2 F) (left : List (ZoneConfig F)) (z : ZoneConfig F) (right : List (ZoneConfig F))
        → IsApart (left ++ z ∷ right)
        → zone_contains z p ≡ true
        → first (λ x. zone_contains x p) (left ++ z ∷ right) ≡ some z
    unfolding IsApart
    first-apart p [] z right h k = ground arith
    first-apart p (x ∷ left) z right h k = elim (Bool-cases (zone_contains x p)) [
      | inl e ↦
          let clear : zones_meet z x ≡ false =
            All-middle (λ other. zones_meet other x ≡ false) left z right h.0 in
          let meet : zones_meet z x ≡ true = zones_meet_at z x p k e in cc
      | inr e ↦ ground (arith, first-apart p left z right h.1 k)
    ]

    -- For floats that keep the laws, on a map that passes the validation a zone that contains a
    -- point is the one that the look-up finds for the point, wherever it stands among the zones.
    pub zone_containing_unique :
        (config : MapConfig F) (left : List (ZoneConfig F)) (z : ZoneConfig F)
        (right : List (ZoneConfig F)) (p : Vec2 F)
        → validate_map_config config ≡ sound
        → config.zones ≡ left ++ z ∷ right
        → zone_contains z p ≡ true
        → zone_containing config p ≡ some z
    unfolding zone_containing
    zone_containing_unique config left z right p h e k =
        let apart : IsApart (left ++ z ∷ right) =
          subst IsApart e (validate_map_config-IsApart config h) in
        cc (e, first-apart p left z right apart k)
