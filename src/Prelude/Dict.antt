-- ===== src/Prelude/Dict.antt =====
-- Python's `dict` with text keys, as a list of entries in insertion order.
use go_forth.Prelude.Tests.{str_eq, eq_iff, eq_refl, if◌then◌else◌}
use Prim.Native.String.{String}
use mathlib.Core.Path.{◌≡◌, refl}
use mathlib.Core.Option.{Option, none, some}
use mathlib.Core.List.{List, [], ◌∷◌, ◌++◌}
use native.Mathlib.Omega.{arith}

abbrev pub Dict {ℓ} : Type ℓ → Type ℓ
Dict V = List (String × V)

module _ {ℓ} {V : Type ℓ} where
  -- d.get(k)
  unfoldable pub lookup : String → Dict V → Option V
  lookup k [] = none
  lookup k ((j, v) ∷ d) = if str_eq j k then some v else lookup k d

  -- d[k] = v: an old key keeps its place, a new one goes to the end.
  unfoldable pub insert : String → V → Dict V → Dict V
  insert k v [] = (k, v) ∷ []
  insert k v ((j, w) ∷ d) = if str_eq j k then (j, v) ∷ d else (j, w) ∷ insert k v d

  pub lookup-insert :
      (k j : String) (v : V) (d : Dict V)
      → lookup j (insert k v d) ≡ (if str_eq k j then some v else lookup j d)
  unfolding lookup insert
  lookup-insert k j v [] = refl
  lookup-insert k j v ((i, w) ∷ d) =
      ground (arith, eq_iff k j, eq_iff i k, eq_iff i j, lookup-insert k j v d)

  pub lookup-insert_self : (k : String) (v : V) (d : Dict V) → lookup k (insert k v d) ≡ some v
  lookup-insert_self k v d = simp (lookup-insert, eq_refl)

  pub lookup-append :
      (k : String) (d e : Dict V) → lookup k d ≡ none → lookup k (d ++ e) ≡ lookup k e
  unfolding lookup
  lookup-append k [] e h = refl
  lookup-append k ((j, v) ∷ d) e h = ground (arith, lookup-append k d e)

  pub lookup-append_some :
      (k : String) (v : V) (d e : Dict V) → lookup k d ≡ some v → lookup k (d ++ e) ≡ some v
  unfolding lookup
  lookup-append_some k v [] e h = cc
  lookup-append_some k v ((j, w) ∷ d) e h = ground (arith, lookup-append_some k v d e)
