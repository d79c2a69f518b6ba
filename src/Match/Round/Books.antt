-- ===== src/Match/Round/Books.antt =====
-- The books of a round: the numbers and ticks of its casts, and the bill of each seat
-- (api/app/match/round.py).
use mathlib.Core.Path.{subst}
use go_forth.Prelude.{
  ℕ, ◌+◌, ◌≤◌, ◌≡◌, refl, none, some, List, [], ◌∷◌, ◌++◌, String, arith, length, length-append,
  first, str_eq, eq_iff, Bool-cases, inl, inr, if◌then◌else◌, sym,
}
use go_forth.Prelude.Float.{Float, ◌⊕◌, nought}
use go_forth.Match.Wire.{LoadoutSpell, ResolvedCast, CastCommand}
use go_forth.Match.Round.{
  AuthoritativeRound, CastOutcome, cast, step, resolved_cast, injection_of, accrue,
}
use go_forth.Match.Round.Cast.{IsLegal, IsCharged, cast_refused, cast-IsCharged}
use go_forth.Sim.Events.{BattleEvent}
use go_forth.Sim.Runner
use go_forth.Sim.Runner.Ending.{KeepsTick}
use go_forth.Sim.Spells.{SpellInjection, ok}
use go_forth.Sim.Types.{Side, north, south, side_eq, opposing, at}
use go_forth.Sim.World.{World}

module _ {F : Type 0} where
  -- The orders of the casts count up from `k`.
  abbrev pub Numbered : ℕ → List (ResolvedCast F) → Type 0
  Numbered k [] = Unit
  Numbered k (c ∷ cs) = (c.order ≡ k) × Numbered (k + 1) cs

  -- The ticks of the casts do not fall, from `lo` up to `hi`.
  abbrev pub Rising : ℕ → ℕ → List (ResolvedCast F) → Type 0
  Rising lo hi [] = lo ≤ hi
  Rising lo hi (c ∷ cs) = (lo ≤ c.tick) × Rising c.tick hi cs

  Numbered-snoc :
      (k : ℕ) (cs : List (ResolvedCast F)) (c : ResolvedCast F)
      → Numbered k cs
      → c.order ≡ k + length cs
      → Numbered k (cs ++ c ∷ [])
  Numbered-snoc k [] c h e = (omega arith, tt)
  Numbered-snoc k (d ∷ cs) c (e, h) g = (e, Numbered-snoc (k + 1) cs c h (omega arith))

  Rising-snoc :
      (lo hi : ℕ) (cs : List (ResolvedCast F)) (c : ResolvedCast F)
      → Rising lo hi cs
      → c.tick ≡ hi
      → Rising lo hi (cs ++ c ∷ [])
  Rising-snoc lo hi [] c h e = (omega arith, omega arith)
  Rising-snoc lo hi (d ∷ cs) c (g, h) e = (g, Rising-snoc d.tick hi cs c h e)

  Rising-mono :
      (lo hi hi' : ℕ) (cs : List (ResolvedCast F)) → Rising lo hi cs → hi ≤ hi' → Rising lo hi' cs
  Rising-mono lo hi hi' [] h le = omega arith
  Rising-mono lo hi hi' (c ∷ cs) (g, h) le = (g, Rising-mono c.tick hi hi' cs h le)

  module _ ⦃f : Float F⦄ where
    abbrev cost_in : List (LoadoutSpell F) → String → F
    cost_in spells id = elim (first (λ e. str_eq e.spell_id id) spells) [
      | none ↦ nought
      | some e ↦ e.cost
    ]

    -- What the casts of a side cost by its loadout, on top of `acc`.
    abbrev pub bill : List (LoadoutSpell F) → Side → F → List (ResolvedCast F) → F
    bill spells side acc [] = acc
    bill spells side acc (c ∷ cs) =
        bill spells side (if side_eq c.cast_by side then acc ⊕ cost_in spells c.spell_id else acc)
          cs

    bill-snoc :
        (spells : List (LoadoutSpell F)) (side : Side) (acc : F) (cs : List (ResolvedCast F))
        (c : ResolvedCast F)
        → bill spells side acc (cs ++ c ∷ []) ≡ (
            if side_eq c.cast_by side
            then bill spells side acc cs ⊕ cost_in spells c.spell_id
            else bill spells side acc cs)
    bill-snoc spells side acc [] c = refl
    bill-snoc spells side acc (d ∷ cs) c =
        bill-snoc spells side
          (if side_eq d.cast_by side then acc ⊕ cost_in spells d.spell_id else acc) cs c

    pub first_id :
        (spells : List (LoadoutSpell F)) (id : String) (e : LoadoutSpell F)
        → first (λ x. str_eq x.spell_id id) spells ≡ some e
        → e.spell_id ≡ id
    first_id [] id e h = cc
    first_id (x ∷ spells) id e h = elim (Bool-cases (str_eq x.spell_id id)) [
      | inl same ↦
          let it : x ≡ e = ground arith in
          subst (λ z. z.spell_id ≡ id) it ((eq_iff x.spell_id id).0 same)
      | inr other ↦ first_id spells id e (rw other at h)
    ]

    cost_in-found :
        (spells : List (LoadoutSpell F)) (id : String) (e : LoadoutSpell F)
        → first (λ x. str_eq x.spell_id id) spells ≡ some e
        → cost_in spells e.spell_id ≡ e.cost
    cost_in-found spells id e h = rw (first_id spells id e h) (rw (h, cost_in) refl)

-- What holds of a round between any two of its operations.
pub record IsBooked {F S : Type 0} ⦃f : Float F⦄ (r : AuthoritativeRound F S) : Type 0 where
  pub numbered : Numbered 1 r.casts
  pub next : r.next_order ≡ length r.casts + 1
  pub rising : Rising 0 (r.runner.world.tick + 1) r.casts
  pub north_spent : r.energy.at_north.spent ≡ bill r.loadouts.at_north north nought r.casts
  pub south_spent : r.energy.at_south.spent ≡ bill r.loadouts.at_south south nought r.casts

module _ {F S : Type 0} ⦃f : Float F⦄ where
  tick-inject :
      (b b' : Runner.BattleRunner F S) (i : SpellInjection F)
      → Runner.inject b i ≡ ok b'
      → b'.world.tick ≡ b.world.tick
  unfolding Runner.inject
  tick-inject b b' i h = ground arith

  tick-le-step :
      (phases : World F → World F × List (BattleEvent F))
      → KeepsTick phases
      → (b : Runner.BattleRunner F S) → b.world.tick ≤ (Runner.step phases b).0.world.tick
  unfolding Runner.step
  tick-le-step phases keeps b = ground (arith, keeps (record b.world { tick = b.world.tick + 1 }))

  charge-spent :
      (r r' : AuthoritativeRound F S) (side : Side) (c : CastCommand F) (o : CastOutcome)
      (spell : LoadoutSpell F)
      → IsLegal r side c spell
      → IsCharged r side c spell r' o
      → (at side r.energy).spent ≡ bill (at side r.loadouts) side nought r.casts
      → (at side r'.energy).spent ≡ bill (at side r'.loadouts) side nought r'.casts
  charge-spent r r' north c o spell l t h =
      rw (t.charged, t.remembered, t.loadouts_kept)
        (rw (bill-snoc r.loadouts.at_north north nought r.casts (resolved_cast r north c spell))
          (rw (cost_in-found r.loadouts.at_north c.spell_id spell l.was_equipped) (rw h refl)))
  charge-spent r r' south c o spell l t h =
      rw (t.charged, t.remembered, t.loadouts_kept)
        (rw (bill-snoc r.loadouts.at_south south nought r.casts (resolved_cast r south c spell))
          (rw (cost_in-found r.loadouts.at_south c.spell_id spell l.was_equipped) (rw h refl)))

  other-spent :
      (r r' : AuthoritativeRound F S) (side : Side) (c : CastCommand F) (o : CastOutcome)
      (spell : LoadoutSpell F)
      → IsCharged r side c spell r' o
      → (at (opposing side) r.energy).spent
        ≡ bill (at (opposing side) r.loadouts) (opposing side) nought r.casts
      → (at (opposing side) r'.energy).spent
        ≡ bill (at (opposing side) r'.loadouts) (opposing side) nought r'.casts
  other-spent r r' north c o spell t h =
      rw (t.other_seat, t.remembered, t.loadouts_kept)
        (rw (bill-snoc r.loadouts.at_south south nought r.casts (resolved_cast r north c spell)) h)
  other-spent r r' south c o spell t h =
      rw (t.other_seat, t.remembered, t.loadouts_kept)
        (rw (bill-snoc r.loadouts.at_north north nought r.casts (resolved_cast r south c spell)) h)

  module _ (r r' : AuthoritativeRound F S) (side : Side) (c : CastCommand F) (o : CastOutcome)
      (spell : LoadoutSpell F) (b : IsBooked r) (t : IsCharged r side c spell r' o) where
    charge-Numbered : Numbered 1 r'.casts
    charge-Numbered =
        rw t.remembered (
          Numbered-snoc 1 r.casts (resolved_cast r side c spell) b.numbered (omega (arith, b.next)))

    charge-next : r'.next_order ≡ length r'.casts + 1
    charge-next =
        rw (t.remembered, t.counted)
          (omega (arith, b.next, length-append r.casts (resolved_cast r side c spell ∷ [])))

    charge-Rising : Rising 0 (r'.runner.world.tick + 1) r'.casts
    charge-Rising =
        rw (t.remembered, tick-inject r.runner r'.runner (injection_of r side c spell) t.injected)
          (Rising-snoc 0 (r.runner.world.tick + 1) r.casts (resolved_cast r side c spell) b.rising
            refl)

  charge-IsBooked :
      (r r' : AuthoritativeRound F S) (side : Side) (c : CastCommand F) (o : CastOutcome)
      (spell : LoadoutSpell F)
      → IsBooked r
      → IsLegal r side c spell
      → IsCharged r side c spell r' o
      → IsBooked r'
  charge-IsBooked r r' north c o spell b l t = record {
    numbered = charge-Numbered r r' north c o spell b t;
    next = charge-next r r' north c o spell b t;
    rising = charge-Rising r r' north c o spell b t;
    north_spent = charge-spent r r' north c o spell l t b.north_spent;
    south_spent = other-spent r r' north c o spell t b.south_spent;
  }
  charge-IsBooked r r' south c o spell b l t = record {
    numbered = charge-Numbered r r' south c o spell b t;
    next = charge-next r r' south c o spell b t;
    rising = charge-Rising r r' south c o spell b t;
    north_spent = other-spent r r' south c o spell t b.north_spent;
    south_spent = charge-spent r r' south c o spell l t b.south_spent;
  }

  -- A cast that is answered, accepted or not, keeps the books of a round: the orders of its casts
  -- count up from one without a gap, their ticks do not fall and are not past the next tick, and
  -- what each seat has spent is the sum of the costs of its own casts, in their order, by its
  -- loadout.
  pub cast-IsBooked :
      (r r' : AuthoritativeRound F S) (side : Side) (c : CastCommand F) (o : CastOutcome)
      → IsBooked r
      → cast r side c ≡ ok (r', o)
      → IsBooked r'
  cast-IsBooked r r' side c o b h = elim (Bool-cases o.accepted) [
    | inl yes_ ↦
        let (spell, legal, charged) = cast-IsCharged r r' side c o h yes_ in
        charge-IsBooked r r' side c o spell b legal charged
    | inr no_ ↦ subst IsBooked (sym (cast_refused r r' side c o h no_)) b
  ]

  -- If the phases keep the tick, a step of a round keeps its books: the numbering, the ticks and
  -- the bills of its casts.
  pub step-IsBooked :
      (phases : World F → World F × List (BattleEvent F))
      → KeepsTick phases
      → (r : AuthoritativeRound F S) → IsBooked r
      → IsBooked (step phases r).0
  unfolding step accrue
  step-IsBooked phases keeps r b = record {
    numbered = ground (arith, b.numbered);
    next = ground arith;
    rising = ground (
      arith,
      b.rising,
      Rising-mono 0 (r.runner.world.tick + 1) ((Runner.step phases r.runner).0.world.tick + 1)
          r.casts b.rising,
      tick-le-step phases keeps r.runner,
    );
    north_spent = ground (arith, b.north_spent);
    south_spent = ground (arith, b.south_spent);
  }
