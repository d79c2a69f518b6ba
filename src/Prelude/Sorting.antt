-- ===== src/Prelude/Sorting.antt =====
-- Python's stable `sorted`, and `list.insert` at `bisect.bisect_right`, for any comparison that
-- satisfies the laws of `Order`.
use go_forth.Prelude.Tests.{ltb, if◌then◌else◌, Bool-cases}
use go_forth.Prelude.Lists.{length, All}
use go_forth.Prelude.Order.{IsKey}
use Prim.Native.Nat.{ℕ, zero, suc, ◌+◌, ◌/◌, ◌≤◌, ◌<◌}
use mathlib.Core.Path.{◌≡◌, refl, ap}
use mathlib.Core.Logic.{inl, inr}
use mathlib.Core.Bool.{Bool, true, false}
use mathlib.Core.List.{List, [], ◌∷◌, ◌++◌, Perm, perm_middle, append-nil}
use mathlib.Core.List.Perm
use native.Mathlib.Omega.{arith}

module _ {ℓ} {A : Type ℓ} (less : A → A → Bool) where
  -- Behind everything that is not greater: where a stable sort puts the newest element.
  unfoldable pub insert_right : A → List A → List A
  insert_right x [] = x ∷ []
  insert_right x (y ∷ l) = if less x y then x ∷ y ∷ l else y ∷ insert_right x l

  abbrev insert_all : List A → List A → List A
  insert_all acc [] = acc
  insert_all acc (x ∷ l) = insert_all (insert_right x acc) l

  -- `sorted(l, key = ...)`
  unfoldable pub sorted : List A → List A
  unfolding insert_right
  sorted l = insert_all [] l

  -- `less x l[i]`; an index past the end is never asked for.
  abbrev less_at : A → List A → ℕ → Bool
  less_at x [] i = true
  less_at x (y ∷ l) zero = less x y
  less_at x (y ∷ l) (suc i) = less_at x l i

  -- `while lo < hi: mid = (lo + hi) // 2; if x < a[mid]: hi = mid else: lo = mid + 1`
  unfoldable pub bisect_loop : ℕ → A → List A → ℕ → ℕ → ℕ
  bisect_loop zero x l lo hi = lo
  bisect_loop (suc fuel) x l lo hi =
      let mid = (lo + hi) / 2 in
      let left = bisect_loop fuel x l lo mid in
      let right = bisect_loop fuel x l (mid + 1) hi in
      if ltb lo hi then (if less_at x l mid then left else right) else lo

  -- `bisect.bisect_right(l, x)`: each round shortens the range, so its length is fuel enough.
  unfoldable pub bisect_right : List A → A → ℕ
  unfolding bisect_loop
  bisect_right l x = bisect_loop (length l) x l 0 (length l)

-- `l.insert(i, x)`: an index past the end appends.
unfoldable pub list_insert {ℓ} : {A : Type ℓ} → List A → ℕ → A → List A
list_insert [] i x = x ∷ []
list_insert (y ∷ l) zero x = x ∷ y ∷ l
list_insert (y ∷ l) (suc i) x = y ∷ list_insert l i x

-- Nothing stands behind something greater.
abbrev pub IsSorted {ℓ} : {A : Type ℓ} → (A → A → Bool) → List A → Type 0
IsSorted less [] = Unit
IsSorted less (x ∷ l) = All (λ y. less y x ≡ false) l × IsSorted less l

All-insert_right {ℓ κ} :
    {A : Type ℓ} (P : A → Type κ) (less : A → A → Bool) (x : A) (l : List A)
    → P x
    → All P l
    → All P (insert_right less x l)
unfolding insert_right
All-insert_right P less x [] p h = (p, tt)
All-insert_right P less x (y ∷ l) p (q, h) = elim (Bool-cases (less x y)) [
  | inl e ↦ rw e (p, (q, h))
  | inr e ↦ rw e (q, All-insert_right P less x l p h)
]

module _ {ℓ} {A : Type ℓ} {same less : A → A → Bool} (k : IsKey same less) where
  none_below :
      (x y : A) (l : List A)
      → less x y ≡ true
      → All (λ z. less z y ≡ false) l
      → All (λ z. less z x ≡ false) l
  none_below x y [] e h = tt
  none_below x y (z ∷ l) e (q, h) =
      (ground (arith, k.less_trans z x y, k.less_asym x y), none_below x y l e h)

  pub insert_right-IsSorted :
      (x : A) (l : List A) → IsSorted less l → IsSorted less (insert_right less x l)
  unfolding insert_right
  insert_right-IsSorted x [] h = (tt, tt)
  insert_right-IsSorted x (y ∷ l) (below, h) = elim (Bool-cases (less x y)) [
    | inl e ↦ rw e ((k.less_asym x y e, none_below x y l e below), (below, h))
    | inr e ↦
        rw e
          (All-insert_right (λ z. less z y ≡ false) less x l e below, insert_right-IsSorted x l h)
  ]

  insert_all-IsSorted : (acc l : List A) → IsSorted less acc → IsSorted less (insert_all less acc l)
  insert_all-IsSorted acc [] h = h
  insert_all-IsSorted acc (x ∷ l) h =
      insert_all-IsSorted (insert_right less x acc) l (insert_right-IsSorted x acc h)

  pub sorted-IsSorted : (l : List A) → IsSorted less (sorted less l)
  unfolding sorted
  sorted-IsSorted l = insert_all-IsSorted [] l tt

-- How many elements stand before everything that is greater than `x`.
rank {ℓ} : {A : Type ℓ} → (A → A → Bool) → A → List A → ℕ
rank less x [] = 0
rank less x (y ∷ l) = if less x y then 0 else suc (rank less x l)

module _ {ℓ} {A : Type ℓ} (less : A → A → Bool) where
  list_insert-rank : (x : A) (l : List A) → list_insert l (rank less x l) x ≡ insert_right less x l
  unfolding list_insert rank insert_right
  list_insert-rank x [] = refl
  list_insert-rank x (y ∷ l) = elim (Bool-cases (less x y)) [
    | inl e ↦ rw e
    | inr e ↦ rw e (ap (λ r. y ∷ r) (list_insert-rank x l))
  ]

  rank-le-length : (x : A) (l : List A) → rank less x l ≤ length l
  unfolding rank
  rank-le-length x [] = omega arith
  rank-le-length x (y ∷ l) = ground (arith, rank-le-length x l)

  before_rank : (x : A) (l : List A) (i : ℕ) → i < rank less x l → less_at less x l i ≡ false
  unfolding rank
  before_rank x [] i h = absurd (omega arith)
  before_rank x (y ∷ l) zero h = ground arith
  before_rank x (y ∷ l) (suc i) h = ground (arith, before_rank x l i)

  insert_all-append :
      (acc l r : List A) → insert_all less acc (l ++ r) ≡ insert_all less (insert_all less acc l) r
  insert_all-append acc [] r = refl
  insert_all-append acc (x ∷ l) r = insert_all-append (insert_right less x acc) l r

  -- One more element at the end of the input is inserted into the output.
  pub sorted-snoc :
      (x : A) (l : List A) → sorted less (l ++ x ∷ []) ≡ insert_right less x (sorted less l)
  unfolding sorted
  sorted-snoc x l = insert_all-append [] l (x ∷ [])

  pub insert_right-perm : (x : A) (l : List A) → Perm (insert_right less x l) (x ∷ l)
  unfolding insert_right
  insert_right-perm x [] = Perm.refl (x ∷ [])
  insert_right-perm x (y ∷ l) = elim (Bool-cases (less x y)) [
    | inl e ↦ rw e (Perm.refl (x ∷ y ∷ l))
    | inr e ↦ rw e (Perm.trans (Perm.cons y (insert_right-perm x l)) (Perm.swap x y l))
  ]

  insert_all-perm : (acc l : List A) → Perm (insert_all less acc l) (l ++ acc)
  insert_all-perm acc [] = Perm.refl acc
  insert_all-perm acc (x ∷ l) =
      Perm.trans (insert_all-perm (insert_right less x acc) l)
        (Perm.trans (Perm.append (Perm.refl l) (insert_right-perm x acc)) (perm_middle l acc))

  pub sorted-perm : (l : List A) → Perm (sorted less l) l
  unfolding sorted
  sorted-perm l = rw append-nil at (insert_all-perm [] l)

module _ {ℓ} {A : Type ℓ} {same less : A → A → Bool} (k : IsKey same less) where
  All-above :
      (x y : A) (l : List A) (i : ℕ)
      → less x y ≡ true
      → All (λ z. less z y ≡ false) l
      → less_at less x l i ≡ true
  All-above x y [] i e h = refl
  All-above x y (z ∷ l) zero e h = k.less_trans x y z e h.0
  All-above x y (z ∷ l) (suc i) e h = All-above x y l i e h.1

  from_rank :
      (x : A) (l : List A) (i : ℕ) → IsSorted less l → rank less x l ≤ i → less_at less x l i ≡ true
  unfolding rank
  from_rank x [] i s h = refl
  from_rank x (y ∷ l) zero s h = ground arith
  from_rank x (y ∷ l) (suc i) s h = elim (Bool-cases (less x y)) [
    | inl e ↦ All-above x y l i e s.0
    | inr e ↦ from_rank x l i s.1 (ground arith)
  ]

  bisect_loop-rank :
      (fuel : ℕ) (x : A) (l : List A) (lo hi : ℕ)
      → IsSorted less l
      → lo ≤ rank less x l
      → rank less x l ≤ hi
      → hi ≤ lo + fuel
      → bisect_loop less fuel x l lo hi ≡ rank less x l
  unfolding bisect_loop
  bisect_loop-rank zero x l lo hi s a b f = omega arith
  bisect_loop-rank (suc fuel) x l lo hi s a b f = ground (
    arith,
    before_rank less x l ((lo + hi) / 2),
    from_rank x l ((lo + hi) / 2) s,
    bisect_loop-rank fuel x l lo ((lo + hi) / 2) s a,
    bisect_loop-rank fuel x l ((lo + hi) / 2 + 1) hi s,
  )

  -- On a sorted list the bisection finds the stable place.
  pub list_insert-bisect_right :
      (x : A) (l : List A)
      → IsSorted less l
      → list_insert l (bisect_right less l x) x ≡ insert_right less x l
  unfolding bisect_right
  list_insert-bisect_right x l s =
      rw
        (bisect_loop-rank (length l) x l 0 (length l) s (omega arith) (rank-le-length less x l)
          (omega arith))
        (list_insert-rank less x l)
