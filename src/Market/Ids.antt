-- ===== src/Market/Ids.antt =====
-- Lists without repetition, and the laws of lookups and replacements by id
-- (`_submission`, `_challenge`, `_replace_submission`, `_replace_challenge`).
use popper_pad.Prelude.{
  All, ℕ, ◌+◌, ◌≤◌, ◌≡◌, refl, ap, true, false, ◌||◌, Bool-cases, inl, inr, none, some, List, [],
  ◌∷◌, ◌++◌, map, String, length, contains, set_add, set_of, str_eq, str_eq-eq, str_eq_iff, arith,
  or-false,
}
use mathlib.Core.Option.{some-injective}
use mathlib.Core.Path.{subst}
use popper_pad.Market.Lookup.{find_by, replace_by}
use popper_pad.Market.Invariants.Relations.{is_unique}

pub str_eq_comm : (s t : String) → str_eq s t ≡ str_eq t s
str_eq_comm s t = ground (arith, str_eq_iff s t, str_eq_iff t s)

-- No text of the list occurs twice.
abbrev pub Distinct : List String → Type 0
Distinct [] = Unit
Distinct (x ∷ xs) = (contains xs x ≡ false) × Distinct xs

length-set_of-le : (xs : List String) → length (set_of xs) ≤ length xs
unfolding set_of
length-set_of-le [] = omega arith
length-set_of-le (x ∷ xs) = ground (arith, length-set_of-le xs)

-- The test `len(set(xs)) == len(xs)` finds out whether a text occurs twice.
pub is_unique-Distinct : (xs : List String) → is_unique xs ≡ true → Distinct xs
unfolding is_unique set_of
is_unique-Distinct [] h = tt
is_unique-Distinct (x ∷ xs) h = (
  ground (arith, length-set_of-le xs),
  is_unique-Distinct xs (ground (arith, length-set_of-le xs)),
)

pub Distinct-is_unique : (xs : List String) → Distinct xs → is_unique xs ≡ true
unfolding is_unique set_of
Distinct-is_unique [] h = refl
Distinct-is_unique (x ∷ xs) h = ground (arith, Distinct-is_unique xs h.1)

pub contains-append :
    (xs ys : List String) (a : String) → contains (xs ++ ys) a ≡ (contains xs a || contains ys a)
contains-append [] ys a = refl
contains-append (x ∷ xs) ys a = ground (arith, contains-append xs ys a)

pub contains-set_add :
    (xs : List String) (a b : String) → contains (set_add xs a) b ≡ (contains xs b || str_eq b a)
unfolding set_add
contains-set_add xs a b = ground (arith, contains-append xs (a ∷ []) b, str_eq_iff b a)

pub Distinct-snoc :
    (xs : List String) (a : String) → Distinct xs → contains xs a ≡ false → Distinct (xs ++ a ∷ [])
Distinct-snoc [] a d h = (refl, tt)
Distinct-snoc (x ∷ xs) a d h =
    let (ne, rest) = or-false (str_eq a x) (contains xs a) h in
    (
      ground (arith, contains-append xs (a ∷ []) x, str_eq_comm x a, d.0, ne),
      Distinct-snoc xs a d.1 rest,
    )

module _ {ℓ} {A : Type ℓ} where
  -- The sum of a measure over a list.
  abbrev pub total_of : (A → ℕ) → List A → ℕ
  total_of m [] = 0
  total_of m (x ∷ xs) = m x + total_of m xs

  pub total_of-append :
      (m : A → ℕ) (xs ys : List A) → total_of m (xs ++ ys) ≡ total_of m xs + total_of m ys
  total_of-append m [] ys = omega arith
  total_of-append m (x ∷ xs) ys = omega (arith, total_of-append m xs ys)

module _ {ℓ} {A : Type ℓ} (key : A → String) where
  pub key-find_by : (xs : List A) (id : String) {x : A} → find_by key xs id ≡ some x → key x ≡ id
  unfolding find_by
  key-find_by [] id {x} h = ground arith
  key-find_by (y ∷ ys) id {x} h = ground (arith, str_eq_iff (key y) id, key-find_by ys id {x = x})

  pub contains-find_by :
      (xs : List A) (id : String) {x : A}
      → find_by key xs id ≡ some x
      → contains (map key xs) id ≡ true
  unfolding find_by
  contains-find_by [] id {x} h = ground arith
  contains-find_by (y ∷ ys) id {x} h =
      ground (arith, str_eq_comm (key y) id, contains-find_by ys id {x = x})

  pub not-contains-find_by :
      (xs : List A) (id : String) → find_by key xs id ≡ none → contains (map key xs) id ≡ false
  unfolding find_by
  not-contains-find_by [] id h = refl
  not-contains-find_by (y ∷ ys) id h =
      ground (arith, str_eq_comm (key y) id, not-contains-find_by ys id)

  pub All-find_by {κ} :
      (P : A → Type κ) (xs : List A) (id : String) {x : A}
      → All P xs
      → find_by key xs id ≡ some x
      → P x
  unfolding find_by
  All-find_by P [] id h e = ground arith
  All-find_by P (y ∷ ys) id {x} h e = elim (Bool-cases (str_eq (key y) id)) [
    | inl same ↦ subst P (some-injective _ _ (rw same at e)) h.0
    | inr other ↦ All-find_by P ys id h.1 (rw other at e)
  ]

  pub map-replace_by : (xs : List A) (r : A) → map key (replace_by key xs r) ≡ map key xs
  unfolding replace_by
  map-replace_by [] r = refl
  map-replace_by (y ∷ ys) r = ground (arith, str_eq_iff (key y) (key r), map-replace_by ys r)

  pub replace_by-absent :
      (xs : List A) (r : A) → contains (map key xs) (key r) ≡ false → replace_by key xs r ≡ xs
  unfolding replace_by
  replace_by-absent [] r h = refl
  replace_by-absent (y ∷ ys) r h =
      ground (arith, str_eq_comm (key y) (key r), replace_by-absent ys r)

  pub All-replace_by {κ} :
      (P : A → Type κ) (xs : List A) (r : A) → All P xs → P r → All P (replace_by key xs r)
  unfolding replace_by
  All-replace_by P [] r h p = tt
  All-replace_by P (y ∷ ys) r h p = elim (Bool-cases (str_eq (key y) (key r))) [
    | inl same ↦ rw same (p, All-replace_by P ys r h.1 p)
    | inr other ↦ rw other (h.0, All-replace_by P ys r h.1 p)
  ]

  pub total_of-replace_by :
      (m : A → ℕ) (xs : List A) (r : A) {x : A}
      → Distinct (map key xs)
      → find_by key xs (key r) ≡ some x
      → total_of m (replace_by key xs r) + m x ≡ total_of m xs + m r
  unfolding find_by replace_by
  total_of-replace_by m [] r d e = ground arith
  total_of-replace_by m (y ∷ ys) r {x} d e = elim (Bool-cases (str_eq (key y) (key r))) [
    | inl same ↦
        rw (same, replace_by-absent ys r (rw (← str_eq-eq _ _ same) d.0))
          (omega (arith, ap m (some-injective _ _ (rw same at e))))
    | inr other ↦ rw other (omega (arith, total_of-replace_by m ys r d.1 (rw other at e)))
  ]
