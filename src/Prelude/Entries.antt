-- ===== src/Prelude/Entries.antt =====
-- What holds of every value of a dict.
use go_forth.Prelude.Tests.{str_eq, Bool-cases}
use go_forth.Prelude.Lists.{All}
use go_forth.Prelude.Dict.{Dict, lookup, insert}
use Prim.Native.String.{String}
use mathlib.Core.Path.{◌≡◌, subst}
use mathlib.Core.Logic.{inl, inr}
use mathlib.Core.Option.{some}
use mathlib.Core.List.{[], ◌∷◌}
use native.Mathlib.Omega.{arith}

pub lookup-All :
    {V : Type 0} (P : V → Type 0) (k : String) (v : V) (d : Dict V)
    → All (λ e. P e.1) d
    → lookup k d ≡ some v
    → P v
unfolding lookup
lookup-All P k v [] h e = cc
lookup-All P k v ((j, w) ∷ d) h e = elim (Bool-cases (str_eq j k)) [
  | inl b ↦ subst P (ground arith) h.0
  | inr b ↦ lookup-All P k v d h.1 (ground arith)
]

pub insert-All :
    {V : Type 0} (P : V → Type 0) (k : String) (v : V) (d : Dict V)
    → All (λ e. P e.1) d
    → P v
    → All (λ e. P e.1) (insert k v d)
unfolding insert
insert-All P k v [] h p = (p, tt)
insert-All P k v ((j, w) ∷ d) h p = elim (Bool-cases (str_eq j k)) [
  | inl b ↦ ground (arith, p, h.1)
  | inr b ↦ ground (arith, h.0, insert-All P k v d h.1 p)
]
