-- ===== src/Prelude/Order.antt =====
-- Sort keys: what Python's comparison of two tuples does, part by part, and the laws that make such
-- a comparison a total order on the keys.
use go_forth.Prelude.Tests.{ltb, ◌==◌, if◌then◌else◌}
use mathlib.Core.Path.{◌≡◌}
use mathlib.Core.Bool.{Bool, true, false, ◌&&◌}
use native.Mathlib.Omega.{arith}

-- `same` and `less` are `==` and `<` of one part of a key.
pub record IsKey {ℓ} {A : Type ℓ} (same less : A → A → Bool) : Type ℓ where
  pub same_refl : (a : A) → same a a ≡ true
  pub same_sym : (a b : A) → same a b ≡ true → same b a ≡ true
  pub less_of_same : (a b : A) → same a b ≡ true → less a b ≡ false
  pub less_asym : (a b : A) → less a b ≡ true → less b a ≡ false
  pub same_of_neither : (a b : A) → less a b ≡ false → less b a ≡ false → same a b ≡ true
  pub less_trans : (a b c : A) → less a b ≡ true → less c b ≡ false → less a c ≡ true

pub nat-IsKey : IsKey ◌==◌ ltb
nat-IsKey = record {
  same_refl = λ a. ground arith;
  same_sym = λ a b h. ground arith;
  less_of_same = λ a b h. ground arith;
  less_asym = λ a b h. ground arith;
  same_of_neither = λ a b h k. ground arith;
  less_trans = λ a b c h k. ground arith;
}

-- The comparison of pairs: the first part decides unless it is the same.
module _ {ℓ κ} {A : Type ℓ} {B : Type κ} where
  abbrev pub both_same : (A → A → Bool) → (B → B → Bool) → A × B → A × B → Bool
  both_same s t (a, b) (c, d) = s a c && t b d

  abbrev pub lex_less : (A → A → Bool) → (A → A → Bool) → (B → B → Bool) → A × B → A × B → Bool
  lex_less s l m (a, b) (c, d) = if s a c then m b d else l a c

  module _ {s l : A → A → Bool} {t m : B → B → Bool} (p : IsKey s l) (q : IsKey t m) where
    lex_less_trans :
        (a b c : A × B)
        → lex_less s l m a b ≡ true
        → lex_less s l m c b ≡ false
        → lex_less s l m a c ≡ true
    lex_less_trans (a, a') (b, b') (c, c') = ground (
      arith,
      p.less_trans a b c,
      q.less_trans a' b' c',
      p.same_sym a b,
      p.same_sym a c,
      p.same_sym b c,
      p.same_sym c b,
      p.same_sym c a,
      p.less_of_same a b,
      p.less_of_same a c,
      p.less_of_same c a,
      p.less_of_same c b,
      p.less_of_same b c,
      p.less_of_same b a,
      p.less_asym a b,
      p.less_asym b a,
      p.less_asym a c,
      p.less_asym c b,
      p.less_asym b c,
      p.same_of_neither a c,
      p.same_of_neither b c,
      p.same_of_neither c b,
      p.less_trans a c b,
      p.less_trans b c a,
      p.less_trans c a b,
      p.less_trans c b a,
      p.less_trans b a c,
    )

    pub lex-IsKey : IsKey (both_same s t) (lex_less s l m)
    lex-IsKey = record {
      same_refl = λ (a, b). ground (arith, p.same_refl a, q.same_refl b);
      same_sym = λ (a, b) (c, d) h. ground (arith, p.same_sym a c, q.same_sym b d);
      less_of_same = λ (a, b) (c, d) h. ground (arith, q.less_of_same b d);
      less_asym = λ (a, b) (c, d) h.
          ground (arith, p.less_asym a c, q.less_asym b d, p.same_sym c a, p.same_sym a c);
      same_of_neither = λ (a, b) (c, d) h k.
          ground
            (arith, p.same_of_neither a c, q.same_of_neither b d, p.same_sym a c, p.same_sym c a);
      less_trans = lex_less_trans;
    }

-- A key of `B` that is read off an `A`.
pub on-IsKey {ℓ κ} :
    {A : Type ℓ} {B : Type κ} {same less : B → B → Bool} (f : A → B)
    → IsKey same less
    → IsKey (λ a c. same (f a) (f c)) (λ a c. less (f a) (f c))
on-IsKey f k = record {
  same_refl = λ a. k.same_refl (f a);
  same_sym = λ a b. k.same_sym (f a) (f b);
  less_of_same = λ a b. k.less_of_same (f a) (f b);
  less_asym = λ a b. k.less_asym (f a) (f b);
  same_of_neither = λ a b. k.same_of_neither (f a) (f b);
  less_trans = λ a b c. k.less_trans (f a) (f b) (f c);
}
