-- ===== src/Prelude/Keeps.antt =====
-- What a test, or a value that may be missing, keeps of what its outcomes keep: a proof about code
-- that branches follows the branches.
use go_forth.Prelude.Tests.{if◌then◌else◌}
use mathlib.Core.Path.{◌≡◌, refl, subst}
use mathlib.Core.Bool.{Bool, true, false}
use mathlib.Core.Option.{Option, none, some}
use mathlib.Core.List.{List, [], ◌∷◌}

pub if-keeps :
    {A : Type 0} (P : A → Type 0) (b : Bool) (x y : A) → P x → P y → P (if b then x else y)
if-keeps P true x y h k = h
if-keeps P false x y h k = k

pub Option-keeps :
    {A B : Type 0} (P : B → Type 0) (o : Option A) (x : B) (g : A → B)
    → P x
    → ((a : A) → P (g a))
    → P (elim o [ none ↦ x | some a ↦ g a ])
Option-keeps P none x g h k = h
Option-keeps P (some a) x g h k = k a

pub Option-keeps_eq :
    {A B : Type 0} (P : B → Type 0) (o : Option A) (x : B) (g : A → B)
    → (o ≡ none → P x)
    → ((a : A) → o ≡ some a → P (g a))
    → P (elim o [ none ↦ x | some a ↦ g a ])
Option-keeps_eq P none x g h k = h refl
Option-keeps_eq P (some a) x g h k = k a refl

pub List-keeps :
    {A B : Type 0} (P : B → Type 0) (xs : List A) (x : B) (g : A → List A → B)
    → P x
    → ((a : A) (rest : List A) → P (g a rest))
    → P (elim xs [ [] ↦ x | a ∷ rest ↦ g a rest ])
List-keeps P [] x g h k = h
List-keeps P (a ∷ rest) x g h k = k a rest

pub if-cases :
    {A : Type 0} (P : A → Type 0) (b : Bool) (x y : A)
    → (b ≡ true → P x)
    → (b ≡ false → P y)
    → P (if b then x else y)
if-cases P true x y h k = h refl
if-cases P false x y h k = k refl

-- What an answer satisfies, if there is one.
pub record Holds {A : Type 0} (P : A → Type 0) (o : Option A) : Type 0 where
  pub holds : (a : A) → o ≡ some a → P a

some-inj : {A : Type 0} {a b : A} → ◌≡◌ {A = Option A} (some a) (some b) → a ≡ b
some-inj h = cc

pub none-Holds : {A : Type 0} (P : A → Type 0) → Holds P none
none-Holds P = record { holds = λ a e. cc }

pub some-Holds : {A : Type 0} (P : A → Type 0) {a : A} → P a → Holds P (some a)
some-Holds P h = record { holds = λ b e. subst P (some-inj e) h }

pub bind-Holds :
    {A B : Type 0} (P : A → Type 0) (Q : B → Type 0) (o : Option A) (g : A → Option B)
    → Holds P o
    → ((a : A) → P a → Holds Q (g a))
    → Holds Q (elim o [ none ↦ none | some a ↦ g a ])
bind-Holds P Q none g h k = none-Holds Q
bind-Holds P Q (some a) g h k = k a (h.holds a refl)
