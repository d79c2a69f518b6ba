-- ===== src/Sim/Opening/Sound.antt =====
-- What `create_world` builds (api/app/sim/world.py): units with different ids, all alive, and two
-- bases that stand.
use go_forth.Prelude.{ℕ, ◌≡◌, refl, true, false, Option, some, List, [], All, arith}
use go_forth.Prelude.Dict.{Dict}
use go_forth.Prelude.Float.{Float, ◌≤?◌, nought}
use go_forth.Prelude.Keeps.{if-keeps, if-cases, Option-keeps, Holds, none-Holds, some-Holds}
use go_forth.Sim.BattleMap.{MapConfig}
use go_forth.Sim.BattleMap.Checked.{
  Verdict, sound, unsound, check_side, check_sides, validate_map_config,
}
use go_forth.Sim.Rng.{Rng}
use go_forth.Sim.Effects.{UnitType}
use go_forth.Sim.Opening.{BattleSetup, carried_base_hp}
use go_forth.Sim.Opening.Build.{Draft, opening_base, opened, create_world, answer}
use go_forth.Sim.Spells.{SpellInjection, build_spell_catalog, schedule_injections}
use go_forth.Sim.Types.{Side, sides, north, south, BySide, at}
use go_forth.Sim.World.{World, BaseState, is_alive}
use go_forth.Sim.Opening.Members.{
  chain-Holds, any-Holds, IsCoherent, add_unit_types-IsCoherent, IsDistinct, IsSound,
  place_armies-IsSound,
}

Verdict-keeps :
    {A : Type 0} (P : A → Type 0) (v : Verdict) (x y : A)
    → (v ≡ sound → P x)
    → P y
    → P (elim v [ sound ↦ x | unsound _ ↦ y ])
Verdict-keeps P sound x y h k = h refl
Verdict-keeps P (unsound e) x y h k = k

module _ {F : Type 0} ⦃f : Float F⦄ where
  -- An opening state that a battle can start from.
  pub record IsOpening (w : World F) : Type 0 where
    pub distinct : IsDistinct w.units
    pub alive : All (λ u. is_alive u ≡ true) w.units
    pub north_stands : (w.bases.at_north.hp ≤? nought) ≡ false
    pub south_stands : (w.bases.at_south.hp ≤? nought) ≡ false
    pub clock : w.tick ≡ 0

  check_side-hp :
      (config : MapConfig F) (side : Side)
      → check_side config side ≡ sound
      → ((at side config.bases).max_hp ≤? nought) ≡ false
  unfolding check_side
  check_side-hp config side h = ground arith

  check_sides-both :
      (config : MapConfig F)
      → check_sides config sides ≡ sound
      → (check_side config north ≡ sound) × (check_side config south ≡ sound)
  unfolding check_sides
  check_sides-both config h = ground arith

  validate_map_config-hp :
      (config : MapConfig F) (side : Side)
      → validate_map_config config ≡ sound
      → ((at side config.bases).max_hp ≤? nought) ≡ false
  unfolding validate_map_config
  validate_map_config-hp config side h =
      let all_sides : check_sides config sides ≡ sound = ground arith in
      let (n, s) = check_sides-both config all_sides in
      check_side-hp config side
        (elim side as (λ k. check_side config k ≡ sound) [ north ↦ n | south ↦ s ])

  Stands : BaseState F → Type 0
  Stands base = (base.hp ≤? nought) ≡ false

  opening_base-Stands :
      (config : MapConfig F) (side : Side) (carried : BySide (Option F))
      → validate_map_config config ≡ sound
      → Holds Stands (opening_base config side carried)
  unfolding opening_base carried_base_hp Stands
  opening_base-Stands config side carried h =
      chain-Holds (λ hp. (hp ≤? nought) ≡ false) Stands _ _
        (Option-keeps (Holds _) (at side carried) _ _
          (some-Holds _ (validate_map_config-hp config side h))
          (λ hp.
            if-cases (Holds _) (hp ≤? nought) _ _ (λ e. none-Holds _)
              (λ e. if-keeps (Holds _) _ _ _ (none-Holds _) (some-Holds _ e))))
        (λ hp e. some-Holds Stands e)

  opened-IsOpening :
      (config : MapConfig F) (d : Draft F) (carried : BySide (Option F))
      (pending : List (SpellInjection F))
      → validate_map_config config ≡ sound
      → IsSound d
      → Holds IsOpening (opened config d carried pending)
  unfolding opened Stands
  opened-IsOpening config d carried pending h k =
      chain-Holds Stands IsOpening (opening_base config north carried) _
        (opening_base-Stands config north carried h)
        (λ north_base n.
          chain-Holds Stands IsOpening (opening_base config south carried) _
            (opening_base-Stands config south carried h)
            (λ south_base s. some-Holds IsOpening (record {
              distinct = k.distinct;
              alive = k.alive;
              north_stands = n;
              south_stands = s;
              clock = refl;
            })))

  -- If the world of a battle can be built, no two of its units have one id, every unit is alive,
  -- both bases stand, and the clock is at 0, whatever the map, the set-up and the state of the
  -- generator.
  pub create_world-IsOpening :
      (config : MapConfig F) (fits : F → F → ℕ) (b : BattleSetup F) (rng : Rng) (w : World F)
      → create_world config fits b rng ≡ some w
      → IsOpening w
  unfolding create_world
  create_world-IsOpening config fits b rng w e =
      (Verdict-keeps (Holds IsOpening) (validate_map_config config) _ _
          (λ v. if-keeps (Holds IsOpening) _ _ _ (none-Holds IsOpening) (
            chain-Holds (λ (d : Dict (UnitType F)). All (λ e. IsCoherent e.1) d) IsOpening _ _
              (add_unit_types-IsCoherent [] b.unit_types tt)
              (λ catalog c. if-keeps (Holds IsOpening) _ _ _ (none-Holds IsOpening) (
                chain-Holds IsSound IsOpening _ _
                  (place_armies-IsSound config fits catalog b.armies _ c
                    (record { seen = refl; distinct = tt; alive = tt }))
                  (λ d k.
                    chain-Holds (λ _. Unit {0}) IsOpening (answer (build_spell_catalog b.spells)) _
                      (any-Holds _)
                      (λ spells _.
                        chain-Holds (λ _. Unit {0}) IsOpening
                          (answer (schedule_injections b.spell_injections spells)) _ (any-Holds _)
                          (λ pending _. opened-IsOpening config d b.base_hp pending v k)))))))
          (none-Holds IsOpening)).holds
        w e
