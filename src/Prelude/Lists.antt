-- ===== src/Prelude/Lists.antt =====
-- Lists measured by native numbers, and the tests that Python's comprehensions make.
use Prim.Native.Nat.{ℕ, suc}
use Prim.Native.String.{String}
use mathlib.Core.Bool.{Bool, true, false, ◌&&◌, ◌||◌}
use mathlib.Core.List.{List, [], ◌∷◌, ◌++◌, map}
use mathlib.Core.Path.{◌≡◌, refl, ap}
use popper_pad.Prelude.Tests.{str_eq, if◌then◌else◌}
use mathlib.Core.Option.{Option, none, some}

module _ {ℓ} {A : Type ℓ} where
  abbrev pub length : List A → ℕ
  length [] = 0
  length (x ∷ xs) = suc (length xs)

  abbrev pub all : (A → Bool) → List A → Bool
  all p [] = true
  all p (x ∷ xs) = p x && all p xs

  abbrev pub any : (A → Bool) → List A → Bool
  any p [] = false
  any p (x ∷ xs) = p x || any p xs

  abbrev pub keep : (A → Bool) → List A → List A
  keep p [] = []
  keep p (x ∷ xs) = let rest = keep p xs in if p x then x ∷ rest else rest

  abbrev pub is_empty : List A → Bool
  is_empty [] = true
  is_empty (x ∷ xs) = false

  abbrev pub All {κ} : (A → Type κ) → List A → Type κ
  All P [] = Unit
  All P (x ∷ xs) = P x × All P xs

-- `x in xs`
abbrev pub contains : List String → String → Bool
contains [] a = false
contains (x ∷ xs) a = str_eq a x || contains xs a

-- `frozenset(xs) | {a}`: a set of texts is a list without repetition.
unfoldable pub set_add : List String → String → List String
set_add xs a = if contains xs a then xs else (xs ++ a ∷ [])

-- `set(xs)`
unfoldable pub set_of : List String → List String
set_of [] = []
set_of (x ∷ xs) = let rest = set_of xs in if contains xs x then rest else x ∷ rest

-- Equality of tuples of texts, and of texts that may be `None`.
unfoldable pub texts_eq : List String → List String → Bool
texts_eq [] [] = true
texts_eq (x ∷ xs) (y ∷ ys) = str_eq x y && texts_eq xs ys
texts_eq _ _ = false

unfoldable pub option_eq : Option String → Option String → Bool
option_eq none none = true
option_eq (some x) (some y) = str_eq x y
option_eq _ _ = false

pub All-append {ℓ κ} :
    {A : Type ℓ} (P : A → Type κ) (xs ys : List A) → All P xs → All P ys → All P (xs ++ ys)
All-append P [] ys px py = py
All-append P (x ∷ xs) ys px py = (px.0, All-append P xs ys px.1 py)

pub map-append {ℓ κ} :
    {A : Type ℓ} {B : Type κ} (f : A → B) (xs ys : List A) → map f (xs ++ ys) ≡ map f xs ++ map f ys
map-append f [] ys = refl
map-append f (x ∷ xs) ys = ap (◌∷◌ (f x)) (map-append f xs ys)
