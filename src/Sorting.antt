-- ===== src/Sorting.antt =====
-- Python's `sorted` with a key, and dictionaries that a comprehension builds.
use popper_pad.Prelude.{
  suc, ◌∙◌, ◌≡◌, refl, Bool, true, false, contains, map, or-false, str_eq_iff, ◌||◌, any,
  Bool-cases, Option-cases, inl, inr, Option, none, some, List, [], ◌∷◌, String, str_eq, length,
  arith, if◌then◌else◌, ap, All,
}

comm : (s t : String) → str_eq s t ≡ str_eq t s
comm s t = ground (arith, str_eq_iff s t, str_eq_iff t s)

-- `{key(x): x for x in xs}.get(id)`: a later entry replaces an earlier one.
module _ {ℓ} {A : Type ℓ} (key : A → String) where
  unfoldable pub last_by : List A → String → Option A
  last_by [] id = none
  last_by (x ∷ xs) id = elim (last_by xs id) [
    | some y ↦ some y
    | none ↦ if str_eq (key x) id then some x else none
  ]

  pub last_by-absent :
      (xs : List A) (id : String) → contains (map key xs) id ≡ false → last_by xs id ≡ none
  unfolding last_by
  last_by-absent [] id h = refl
  last_by-absent (x ∷ xs) id h =
      let (ne, rest) = or-false (str_eq id (key x)) (contains (map key xs) id) h in
      rw (last_by-absent xs id rest, comm (key x) id, ne) refl

  pub last_by-known :
      (xs : List A) (id : String)
      → any (λ x. str_eq (key x) id) xs ≡ true
      → (x : A) × (last_by xs id ≡ some x)
  unfolding last_by
  last_by-known [] id h = cc h
  last_by-known (x ∷ xs) id h = elim (Option-cases (last_by xs id)) [
    | inr (y, e) ↦ (y, rw e refl)
    | inl nothing ↦ elim (Bool-cases (str_eq (key x) id)) [
      | inl same ↦ (x, rw (nothing, same) refl)
      | inr other ↦ let (y, e) = last_by-known xs id (rw other at h) in cc (nothing, e)
    ]
  ]

-- `sorted(xs, key=...)`, which is stable, for a test `le` on the keys.
module _ {ℓ} {A : Type ℓ} (le : A → A → Bool) where
  unfoldable pub insert_by : A → List A → List A
  insert_by x [] = x ∷ []
  insert_by x (y ∷ ys) = if le x y then x ∷ y ∷ ys else y ∷ insert_by x ys

  unfoldable pub sort_by : List A → List A
  sort_by [] = []
  sort_by (x ∷ xs) = insert_by x (sort_by xs)

  any-insert_by : (p : A → Bool) (x : A) (ys : List A) → any p (insert_by x ys) ≡ (p x || any p ys)
  unfolding insert_by
  any-insert_by p x [] = refl
  any-insert_by p x (y ∷ ys) = elim (Bool-cases (le x y)) [
    | inl below ↦ rw below refl
    | inr above ↦ rw above (ground (arith, any-insert_by p x ys))
  ]

  -- Sorting keeps what is in a list.
  pub any-sort_by : (p : A → Bool) (xs : List A) → any p (sort_by xs) ≡ any p xs
  unfolding sort_by
  any-sort_by p [] = refl
  any-sort_by p (x ∷ xs) = ground (arith, any-insert_by p x (sort_by xs), any-sort_by p xs)

  length-insert_by : (x : A) (ys : List A) → length (insert_by x ys) ≡ suc (length ys)
  unfolding insert_by
  length-insert_by x [] = refl
  length-insert_by x (y ∷ ys) = elim (Bool-cases (le x y)) [
    | inl below ↦ rw below refl
    | inr above ↦ rw above (ap suc (length-insert_by x ys))
  ]

  pub length-sort_by : (xs : List A) → length (sort_by xs) ≡ length xs
  unfolding sort_by
  length-sort_by [] = refl
  length-sort_by (x ∷ xs) = length-insert_by x (sort_by xs) ∙ ap suc (length-sort_by xs)

  All-insert_by {κ} :
      (P : A → Type κ) (x : A) (ys : List A) → P x → All P ys → All P (insert_by x ys)
  unfolding insert_by
  All-insert_by P x [] p h = (p, tt)
  All-insert_by P x (y ∷ ys) p h = elim (Bool-cases (le x y)) [
    | inl below ↦ rw below (p, (h.0, h.1))
    | inr above ↦ rw above (h.0, All-insert_by P x ys p h.1)
  ]

  pub All-sort_by {κ} : (P : A → Type κ) (xs : List A) → All P xs → All P (sort_by xs)
  unfolding sort_by
  All-sort_by P [] h = tt
  All-sort_by P (x ∷ xs) h = All-insert_by P x (sort_by xs) h.0 (All-sort_by P xs h.1)
