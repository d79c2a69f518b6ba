-- ===== src/Prelude/Strip.antt =====
-- Python's `str.strip()`: the white space of `str.isspace` is taken from both ends of a text.
use go_forth.Prelude.Tests.{leb, ◌==◌, if◌then◌else◌}
use Prim.Native.Nat.{ℕ}
use Prim.Native.Char.{code}
use Prim.Native.String.{String}
use mathlib.Core.Path.{◌≡◌, refl}
use mathlib.Core.Bool.{Bool, true, false, ◌&&◌, ◌||◌}
use native.Mathlib.Omega.{arith}

unfoldable pub is_space : ℕ → Bool
is_space c =
    leb 9 c && leb c 13
    || leb 28 c && leb c 32
    || c == 133
    || c == 160
    || c == 5760
    || leb 8192 c && leb c 8202
    || leb 8232 c && leb c 8233
    || c == 8239
    || c == 8287
    || c == 12288

abbrev pub is_empty : String → Bool
is_empty String.[] = true
is_empty (String.◌∷◌ c s) = false

lstrip : String → String
lstrip String.[] = String.[]
lstrip (String.◌∷◌ c s) = let rest = lstrip s in if is_space (code c) then rest else String.◌∷◌ c s

rstrip : String → String
rstrip String.[] = String.[]
rstrip (String.◌∷◌ c s) =
    let rest = rstrip s in
    if is_empty rest && is_space (code c) then String.[] else String.◌∷◌ c rest

unfoldable pub strip : String → String
unfolding lstrip rstrip
strip s = rstrip (lstrip s)

-- The first character, if there is one, is no white space.
starts_clean : String → Bool
starts_clean String.[] = true
starts_clean (String.◌∷◌ c s) = if is_space (code c) then false else true

lstrip-clean : (s : String) → starts_clean (lstrip s) ≡ true
unfolding lstrip starts_clean
lstrip-clean String.[] = refl
lstrip-clean (String.◌∷◌ c s) = ground (arith, lstrip-clean s)

rstrip-clean : (s : String) → starts_clean s ≡ true → starts_clean (rstrip s) ≡ true
unfolding rstrip starts_clean
rstrip-clean String.[] h = refl
rstrip-clean (String.◌∷◌ c s) h = ground arith

lstrip_of_clean : (s : String) → starts_clean s ≡ true → lstrip s ≡ s
unfolding lstrip starts_clean
lstrip_of_clean String.[] h = refl
lstrip_of_clean (String.◌∷◌ c s) h = ground arith

rstrip_idem : (s : String) → rstrip (rstrip s) ≡ rstrip s
unfolding rstrip
rstrip_idem String.[] = refl
rstrip_idem (String.◌∷◌ c s) = ground (arith, rstrip_idem s)

pub strip_idem : (s : String) → strip (strip s) ≡ strip s
unfolding strip
strip_idem s = cc (
  rstrip_idem (lstrip s),
  lstrip_of_clean (rstrip (lstrip s)) (rstrip-clean (lstrip s) (lstrip-clean s)),
)
