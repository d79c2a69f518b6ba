-- ===== src/Match/Json.antt =====
-- JSON values as Python's `json` reads them, and the questions that the parsers of the wire ask of
-- them (api/app/match/wire.py, plan.py). `json` reads a number without a fraction or an exponent as an
-- `int`, and any other as a `float`, which may be an infinity, and NaN where the text says so.
use go_forth.Prelude.{
  arith, false, ◌≡◌, refl, ◌⊎◌, inl, inr, Option, none, some, List, [], ◌∷◌, String, Bool, str_eq,
  if◌then◌else◌,
}
use go_forth.Prelude.Double.{Double}
use go_forth.Prelude.Int.{ℤ}
use go_forth.Prelude.Strip.{strip, is_empty, strip_idem}

mutual
  pub data Json (F : Type 0) : Type 0 where
    null : Json F
    boolean : Bool → Json F
    integer : ℤ → Json F
    number : Double F → Json F
    text : String → Json F
    array : Jsons F → Json F
    object : Fields F → Json F

  pub data Jsons (F : Type 0) : Type 0 where
    end : Jsons F
    item : Json F → Jsons F → Jsons F

  pub data Fields (F : Type 0) : Type 0 where
    no_fields : Fields F
    field : String → Json F → Fields F → Fields F

-- What a parser returns: a value, or the fault that it raises.
pub data Read (E A : Type 0) : Type 0 where
  got : A → Read E A
  fault : E → Read E A

infixl 5 ◌>>=◌
abbrev pub ◌>>=◌ : {E A B : Type 0} → Read E A → (A → Read E B) → Read E B
got a >>= f = f a
fault e >>= f = fault e

pub Read-cases : {E A : Type 0} (r : Read E A) → ((a : A) × (r ≡ got a)) ⊎ ((e : E) × (r ≡ fault e))
Read-cases (got a) = inl (a, refl)
Read-cases (fault e) = inr (e, refl)

-- A chain that returns a value has a first step that does.
pub bind-got :
    {E A B : Type 0} (r : Read E A) (f : A → Read E B) (b : B)
    → (r >>= f) ≡ got b
    → (a : A) × (r ≡ got a) × (f a ≡ got b)
bind-got (got a) f b h = (a, refl, h)
bind-got (fault e) f b h = cc

-- What a parser's answer satisfies: a value the one, a fault the other.
abbrev pub Answers : {E A : Type 0} → (E → Type 0) → (A → Type 0) → Read E A → Type 0
Answers Q P (got a) = P a
Answers Q P (fault e) = Q e

pub bind-Answers :
    {E A B : Type 0} (Q : E → Type 0) (P : A → Type 0) (R : B → Type 0) (r : Read E A)
    (f : A → Read E B)
    → Answers Q P r
    → ((a : A) → P a → Answers Q R (f a))
    → Answers Q R (r >>= f)
bind-Answers Q P R (got a) f h k = k a h
bind-Answers Q P R (fault e) f h k = h

pub got-inj : {E A : Type 0} {a b : A} → ◌≡◌ {A = Read E A} (got a) (got b) → a ≡ b
got-inj h = cc

module _ {F : Type 0} where
  -- `raw.get(key, default)`; without a default Python answers None.
  unfoldable pub get : String → Json F → Fields F → Json F
  get key default no_fields = default
  get key default (field k v rest) = if str_eq k key then v else get key default rest

  unfoldable pub text_of : Json F → Option String
  text_of (text s) = some s
  text_of _ = none

  -- A JSON array, or the fault that says it is none.
  unfoldable pub list_of : {E : Type 0} → E → Json F → Read E (Jsons F)
  list_of e (array js) = got js
  list_of e _ = fault e

  -- A text that is not blank, stripped: `isinstance(raw, str) and raw.strip()`.
  unfoldable pub stripped : Json F → Option String
  stripped (text s) = if is_empty (strip s) then none else some (strip s)
  stripped _ = none

  -- `[f(x) for x in xs]` as a JSON array.
  abbrev pub array_of : {A : Type 0} → (A → Json F) → List A → Jsons F
  array_of f [] = end
  array_of f (x ∷ xs) = item (f x) (array_of f xs)

-- A text that the parser hands on as it is.
abbrev pub IsName : String → Type 0
IsName s = (strip s ≡ s) × (is_empty s ≡ false)

pub IsName-stripped : (F : Type 0) (s : String) → IsName s → stripped {F = F} (text s) ≡ some s
unfolding stripped
IsName-stripped F s h = ground arith

module _ {F : Type 0} where
  pub stripped-IsName : (j : Json F) (s : String) → stripped j ≡ some s → IsName s
  unfolding stripped
  stripped-IsName (text t) s h = ground (arith, strip_idem t)
  stripped-IsName null s h = cc
  stripped-IsName (boolean b) s h = cc
  stripped-IsName (integer n) s h = cc
  stripped-IsName (number x) s h = cc
  stripped-IsName (array x) s h = cc
  stripped-IsName (object x) s h = cc
