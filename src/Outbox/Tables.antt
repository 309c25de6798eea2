-- ===== src/Outbox/Tables.antt =====
-- The dictionaries of src/popperpad/core/outbox.py as lists of their values: which keys they have
-- after an update, a sort and a selection by key.
use popper_pad.Prelude.{
  map-append, ◌≡◌, refl, ap, ◌∙◌, sym, Bool, true, false, ◌++◌, ◌&&◌, ◌||◌, any, contains, keep,
  map, Bool-cases, inl, inr, none, some, List, [], ◌∷◌, String, str_eq, str_eq_iff, str_eq-eq,
  or-false, and-true, arith,
}
use popper_pad.Sorting.{sort_by, insert_by}
use popper_pad.Market.Lookup.{find_by, replace_by}
use popper_pad.Market.Ids.{
  Distinct, Distinct-snoc, contains-append, map-replace_by, str_eq_comm, contains-find_by,
}
use popper_pad.Outbox.{upsert}

module _ {ℓ} {A : Type ℓ} (key : A → String) where
  pub contains-map :
      (xs : List A) (id : String) → contains (map key xs) id ≡ any (λ x. str_eq id (key x)) xs
  contains-map [] id = refl
  contains-map (x ∷ xs) id = ap (λ b. str_eq id (key x) || b) (contains-map xs id)

  pub contains-upsert :
      (xs : List A) (x : A) (id : String)
      → contains (map key (upsert key xs x)) id ≡ (contains (map key xs) id || str_eq id (key x))
  unfolding upsert
  contains-upsert xs x id = elim (Bool-cases (contains (map key xs) (key x))) [
    | inl there ↦ rw (there, map-replace_by key xs x) (ground (arith, there, str_eq_iff id (key x)))
    | inr absent ↦
        rw (absent, map-append key xs (x ∷ []), contains-append (map key xs) (key x ∷ []) id)
          (ground arith)
  ]

  pub Distinct-upsert :
      (xs : List A) (x : A) → Distinct (map key xs) → Distinct (map key (upsert key xs x))
  unfolding upsert
  Distinct-upsert xs x d = elim (Bool-cases (contains (map key xs) (key x))) [
    | inl there ↦ rw (there, map-replace_by key xs x) d
    | inr absent ↦
        rw (absent, map-append key xs (x ∷ [])) (Distinct-snoc (map key xs) (key x) d absent)
  ]

  -- A selection that looks at the key only.
  pub contains-keep :
      (p : String → Bool) (xs : List A) (id : String)
      → contains (map key (keep (λ x. p (key x)) xs)) id ≡ (contains (map key xs) id && p id)
  contains-keep p [] id = refl
  contains-keep p (x ∷ xs) id = elim (Bool-cases (str_eq id (key x))) [
    | inl same ↦
        let here : p id ≡ p (key x) = ap p (str_eq-eq id (key x) same) in
        elim (Bool-cases (p (key x))) [
          | inl kept ↦ rw (kept, same, here, kept) refl
          | inr dropped ↦ ground (arith, contains-keep p xs id, here, dropped)
        ]
    | inr other ↦ elim (Bool-cases (p (key x))) [
      | inl kept ↦ rw (kept, other) (contains-keep p xs id)
      | inr dropped ↦ rw (dropped, other) (contains-keep p xs id)
    ]
  ]

  pub Distinct-keep :
      (p : String → Bool) (xs : List A)
      → Distinct (map key xs)
      → Distinct (map key (keep (λ x. p (key x)) xs))
  Distinct-keep p [] d = tt
  Distinct-keep p (x ∷ xs) d = elim (Bool-cases (p (key x))) [
    | inl kept ↦ rw kept (contains-keep p xs (key x) ∙ rw d.0 refl, Distinct-keep p xs d.1)
    | inr dropped ↦ rw dropped (Distinct-keep p xs d.1)
  ]

  module _ (le : A → A → Bool) where
    contains-insert_by :
        (x : A) (ys : List A) (id : String)
        → contains (map key (insert_by le x ys)) id
          ≡ (str_eq id (key x) || contains (map key ys) id)
    unfolding insert_by
    contains-insert_by x [] id = refl
    contains-insert_by x (y ∷ ys) id = elim (Bool-cases (le x y)) [
      | inl below ↦ rw below refl
      | inr above ↦ rw above (ground (arith, contains-insert_by x ys id))
    ]

    Distinct-insert_by :
        (x : A) (ys : List A)
        → contains (map key ys) (key x) ≡ false
        → Distinct (map key ys)
        → Distinct (map key (insert_by le x ys))
    unfolding insert_by
    Distinct-insert_by x [] h d = (refl, tt)
    Distinct-insert_by x (y ∷ ys) h d = elim (Bool-cases (le x y)) [
      | inl below ↦ rw below (h, d)
      | inr above ↦ rw above (
        contains-insert_by x ys (key y) ∙ ground (arith, d.0, h, str_eq_comm (key x) (key y)),
        Distinct-insert_by x ys (ground (arith, h)) d.1,
      )
    ]

    pub contains-sort_by :
        (xs : List A) (id : String)
        → contains (map key (sort_by le xs)) id ≡ contains (map key xs) id
    unfolding sort_by
    contains-sort_by [] id = refl
    contains-sort_by (x ∷ xs) id =
        contains-insert_by x (sort_by le xs) id
        ∙ ap (λ b. str_eq id (key x) || b) (contains-sort_by xs id)

    pub Distinct-sort_by :
        (xs : List A) → Distinct (map key xs) → Distinct (map key (sort_by le xs))
    unfolding sort_by
    Distinct-sort_by [] d = tt
    Distinct-sort_by (x ∷ xs) d =
        Distinct-insert_by x (sort_by le xs) (contains-sort_by xs (key x) ∙ d.0)
          (Distinct-sort_by xs d.1)

    -- Sorting entries with distinct keys, and selecting some by key, finds the same entry for a key.
    find_by-insert_by :
        (x : A) (ys : List A) (id : String) {e : A}
        → contains (map key ys) (key x) ≡ false
        → find_by key (insert_by le x ys) id ≡ some e
        → find_by key (x ∷ ys) id ≡ some e
    unfolding insert_by find_by
    find_by-insert_by x [] id {e} h f = f
    find_by-insert_by x (y ∷ ys) id {e} h f = elim (Bool-cases (le x y)) [
      | inl below ↦ rw below at f
      | inr above ↦
          let g = rw (above, find_by) at f in
          let (ne, rest) = or-false (str_eq (key x) (key y)) (contains (map key ys) (key x)) h in
          elim (Bool-cases (str_eq (key y) id)) [
            | inl same ↦
                let other : str_eq (key x) id ≡ false =
                  ap (str_eq (key x)) (sym (str_eq-eq (key y) id same)) ∙ ne in
                rw (other, same) (rw same at g)
            | inr other ↦
                let k = find_by-insert_by x ys id {e = e} rest (rw other at g) in rw other k
          ]
    ]

    pub find_by-sort_by :
        (xs : List A) (id : String) {e : A}
        → Distinct (map key xs)
        → find_by key (sort_by le xs) id ≡ some e
        → find_by key xs id ≡ some e
    unfolding sort_by find_by
    find_by-sort_by [] id {e} d f = f
    find_by-sort_by (x ∷ xs) id {e} d f =
        let k =
          find_by-insert_by x (sort_by le xs) id {e = e} (contains-sort_by xs (key x) ∙ d.0) f in
        elim (Bool-cases (str_eq (key x) id)) [
          | inl same ↦ rw same (rw (same, find_by) at k)
          | inr other ↦ rw other (find_by-sort_by xs id {e = e} d.1 (rw (other, find_by) at k))
        ]

  pub find_by-keep :
      (p : String → Bool) (xs : List A) (id : String) {e : A}
      → find_by key (keep (λ x. p (key x)) xs) id ≡ some e
      → find_by key xs id ≡ some e
  unfolding find_by
  find_by-keep p [] id {e} f = f
  find_by-keep p (x ∷ xs) id {e} f =
      let chosen =
        (and-true (contains (map key (x ∷ xs)) id) (p id) (
          sym (contains-keep p (x ∷ xs) id)
          ∙ contains-find_by key (keep (λ x. p (key x)) (x ∷ xs)) id {x = e} f)).1 in
      elim (Bool-cases (str_eq (key x) id)) [
        | inl same ↦
            let kept = ap p (str_eq-eq (key x) id same) ∙ chosen in
            rw same (rw (kept, same, find_by) at f)
        | inr other ↦ elim (Bool-cases (p (key x))) [
          | inl kept ↦ rw other (find_by-keep p xs id {e = e} (rw (kept, other, find_by) at f))
          | inr dropped ↦ rw other (find_by-keep p xs id {e = e} (rw dropped at f))
        ]
      ]

  pub find_by-absent :
      (xs : List A) (id : String) → contains (map key xs) id ≡ false → find_by key xs id ≡ none
  unfolding find_by
  find_by-absent [] id h = refl
  find_by-absent (x ∷ xs) id h =
      let (ne, rest) = or-false (str_eq id (key x)) (contains (map key xs) id) h in
      rw (str_eq_comm (key x) id, ne) (find_by-absent xs id rest)

-- What a dictionary holds under a key after an update.
module _ {ℓ} {A : Type ℓ} (key : A → String) where
  find_by-replace :
      (xs : List A) (x : A) (id : String)
      → contains (map key xs) (key x) ≡ true
      → str_eq (key x) id ≡ true
      → find_by key (replace_by key xs x) id ≡ some x
  unfolding find_by replace_by
  find_by-replace [] x id there same = cc there
  find_by-replace (y ∷ ys) x id there same = elim (Bool-cases (str_eq (key y) (key x))) [
    | inl here ↦ rw (here, same) refl
    | inr other ↦
        let rest : contains (map key ys) (key x) ≡ true =
          ground (arith, there, other, str_eq_comm (key x) (key y)) in
        let away = ap (str_eq (key y)) (sym (str_eq-eq (key x) id same)) ∙ other in
        rw (other, away) (find_by-replace ys x id rest same)
  ]

  find_by-replace_other :
      (xs : List A) (x : A) (id : String)
      → str_eq (key x) id ≡ false
      → find_by key (replace_by key xs x) id ≡ find_by key xs id
  unfolding find_by replace_by
  find_by-replace_other [] x id other = refl
  find_by-replace_other (y ∷ ys) x id other = elim (Bool-cases (str_eq (key y) (key x))) [
    | inl here ↦
        let away = ap (λ k. str_eq k id) (str_eq-eq (key y) (key x) here) ∙ other in
        rw (here, other, away) (find_by-replace_other ys x id other)
    | inr away ↦ rw (away, find_by-replace_other ys x id other) refl
  ]

  find_by-snoc :
      (xs : List A) (x : A) (id : String)
      → contains (map key xs) id ≡ false
      → str_eq (key x) id ≡ true
      → find_by key (xs ++ x ∷ []) id ≡ some x
  unfolding find_by
  find_by-snoc [] x id absent same = rw same refl
  find_by-snoc (y ∷ ys) x id absent same =
      let (ne, rest) = or-false (str_eq id (key y)) (contains (map key ys) id) absent in
      rw (str_eq_comm (key y) id, ne) (find_by-snoc ys x id rest same)

  find_by-snoc_other :
      (xs : List A) (x : A) (id : String)
      → str_eq (key x) id ≡ false
      → find_by key (xs ++ x ∷ []) id ≡ find_by key xs id
  unfolding find_by
  find_by-snoc_other [] x id other = rw other refl
  find_by-snoc_other (y ∷ ys) x id other = rw (find_by-snoc_other ys x id other) refl

  pub find_by-upsert :
      (xs : List A) (x : A) (id : String)
      → str_eq (key x) id ≡ true
      → find_by key (upsert key xs x) id ≡ some x
  unfolding upsert
  find_by-upsert xs x id same = elim (Bool-cases (contains (map key xs) (key x))) [
    | inl there ↦ rw there (find_by-replace xs x id there same)
    | inr absent ↦ rw absent (
        find_by-snoc xs x id (ap (contains (map key xs)) (sym (str_eq-eq (key x) id same)) ∙ absent)
          same)
  ]

  pub find_by-upsert_other :
      (xs : List A) (x : A) (id : String)
      → str_eq (key x) id ≡ false
      → find_by key (upsert key xs x) id ≡ find_by key xs id
  unfolding upsert
  find_by-upsert_other xs x id other = elim (Bool-cases (contains (map key xs) (key x))) [
    | inl there ↦ rw there (find_by-replace_other xs x id other)
    | inr absent ↦ rw absent (find_by-snoc_other xs x id other)
  ]
