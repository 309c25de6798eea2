-- ===== src/Outbox/Held.antt =====
-- Which effects the dictionaries of `pending_outbox` of src/popperpad/core/outbox.py hold.
use popper_pad.Prelude.{
  ◌≡◌, refl, ap, ◌∙◌, Bool, true, false, contains, map, inl, inr, List, [], ◌∷◌, ◌++◌, ◌⊎◌,
  Bool-cases, keep, some, and-true, arith, str_eq-eq, str_eq_refl, str_eq,
}
use popper_pad.Sorting.{sort_by, insert_by}
use popper_pad.Values.Equality.{json_eq, plain, json_eq-plain}
use popper_pad.Market.Lookup.{find_by, replace_by}
use popper_pad.Outbox.{CommittedEffect, effect_eq, conflicts, effect_key, upsert}
use popper_pad.Outbox.Tables.{find_by-upsert, find_by-upsert_other}

-- The effect is one of the list.
abbrev pub Among : CommittedEffect → List CommittedEffect → Type 0
Among e [] = ⊥
Among e (x ∷ xs) = (e ≡ x) ⊎ Among e xs

-- Two effects with one id agree: in the commit, in the kind, and in the payload up to Python's `==`.
pub record IsSame (x e : CommittedEffect) : Type 0 where
  pub commit : x.commit_record_hash ≡ e.commit_record_hash
  pub kind : x.kind ≡ e.kind
  pub payload : plain x.payload ≡ plain e.payload

IsSame-trans : (x y z : CommittedEffect) → IsSame x y → IsSame y z → IsSame x z
IsSame-trans x y z p q = record {
  commit = p.commit ∙ q.commit;
  kind = p.kind ∙ q.kind;
  payload = p.payload ∙ q.payload;
}

effect_eq-IsSame : (x e : CommittedEffect) → effect_eq x e ≡ true → IsSame x e
unfolding effect_eq
effect_eq-IsSame x e h =
    let (id, h1) = and-true (str_eq x.effect_id e.effect_id) _ h in
    let (commit, h2) = and-true (str_eq x.commit_record_hash e.commit_record_hash) _ h1 in
    let (kind, payload) = and-true (str_eq x.kind e.kind) (json_eq x.payload e.payload) h2 in
    record {
      commit = str_eq-eq _ _ commit;
      kind = str_eq-eq _ _ kind;
      payload = json_eq-plain _ _ payload;
    }

-- The table has the effect, or one that agrees with it.
abbrev pub Has : List CommittedEffect → CommittedEffect → Type 0
Has table x = (e : CommittedEffect) × (find_by effect_key table x.effect_id ≡ some e) × IsSame x e

no_conflict :
    (table : List CommittedEffect) (e y : CommittedEffect)
    → conflicts effect_eq (find_by effect_key table e.effect_id) e ≡ false
    → find_by effect_key table e.effect_id ≡ some y
    → effect_eq y e ≡ true
no_conflict table e y free found = ground (arith, rw found at free)

pub Has-upsert :
    (table : List CommittedEffect) (e x : CommittedEffect)
    → conflicts effect_eq (find_by effect_key table e.effect_id) e ≡ false
    → Has table x
    → Has (upsert effect_key table e) x
Has-upsert table e x free (y, found, same) = elim (Bool-cases (str_eq e.effect_id x.effect_id)) [
  | inl here ↦
      let at_e = ap (find_by effect_key table) (str_eq-eq e.effect_id x.effect_id here) ∙ found in
      (
        e,
        find_by-upsert effect_key table e x.effect_id here,
        IsSame-trans x y e same (effect_eq-IsSame y e (no_conflict table e y free at_e)),
      )
  | inr other ↦ (y, find_by-upsert_other effect_key table e x.effect_id other ∙ found, same)
]

pub Has-new :
    (table : List CommittedEffect) (e : CommittedEffect) → Has (upsert effect_key table e) e
Has-new table e = (
  e,
  find_by-upsert effect_key table e e.effect_id (str_eq_refl e.effect_id),
  record { commit = refl; kind = refl; payload = refl },
)

further :
    (y : CommittedEffect) (ys : List CommittedEffect) (e x : CommittedEffect)
    → Among x ys ⊎ (x ≡ e)
    → Among x (y ∷ ys) ⊎ (x ≡ e)
further y ys e x (inl old) = inl (inr old)
further y ys e x (inr new) = inr new

Among-replace :
    (table : List CommittedEffect) (e x : CommittedEffect)
    → Among x (replace_by effect_key table e)
    → Among x table ⊎ (x ≡ e)
unfolding replace_by
Among-replace [] e x h = elim h [ ]
Among-replace (y ∷ ys) e x h = elim (Bool-cases (str_eq y.effect_id e.effect_id)) [
  | inl same ↦ elim (rw same at h) [
    | inl new ↦ inr new
    | inr more ↦ further y ys e x (Among-replace ys e x more)
  ]
  | inr other ↦ elim (rw other at h) [
    | inl first ↦ inl (inl first)
    | inr more ↦ further y ys e x (Among-replace ys e x more)
  ]
]

Among-snoc :
    (table : List CommittedEffect) (e x : CommittedEffect)
    → Among x (table ++ e ∷ [])
    → Among x table ⊎ (x ≡ e)
Among-snoc [] e x (inl h) = inr h
Among-snoc [] e x (inr h) = elim h [ ]
Among-snoc (y ∷ ys) e x (inl h) = inl (inl h)
Among-snoc (y ∷ ys) e x (inr h) = further y ys e x (Among-snoc ys e x h)

pub Among-upsert :
    (table : List CommittedEffect) (e x : CommittedEffect)
    → Among x (upsert effect_key table e)
    → Among x table ⊎ (x ≡ e)
unfolding upsert
Among-upsert table e x h = elim (Bool-cases (contains (map effect_key table) e.effect_id)) [
  | inl there ↦ Among-replace table e x (rw there at h)
  | inr absent ↦ Among-snoc table e x (rw absent at h)
]

pub Among-keep :
    (p : CommittedEffect → Bool) (xs : List CommittedEffect) (x : CommittedEffect)
    → Among x (keep p xs)
    → Among x xs
Among-keep p [] x h = h
Among-keep p (y ∷ ys) x h = elim (Bool-cases (p y)) [
  | inl kept ↦ elim (rw kept at h) [
    | inl first ↦ inl first
    | inr more ↦ inr (Among-keep p ys x more)
  ]
  | inr dropped ↦ inr (Among-keep p ys x (rw dropped at h))
]

module _ (le : CommittedEffect → CommittedEffect → Bool) where
  Among-insert_by :
      (y : CommittedEffect) (ys : List CommittedEffect) (x : CommittedEffect)
      → Among x (insert_by le y ys)
      → Among x (y ∷ ys)
  unfolding insert_by
  Among-insert_by y [] x h = h
  Among-insert_by y (z ∷ zs) x h = elim (Bool-cases (le y z)) [
    | inl below ↦ rw below at h
    | inr above ↦ elim (rw above at h) [
      | inl first ↦ inr (inl first)
      | inr more ↦ swap_first (Among-insert_by y zs x more)
    ]
  ]
    where
      swap_first : (x ≡ y) ⊎ Among x zs → (x ≡ y) ⊎ ((x ≡ z) ⊎ Among x zs)
      swap_first (inl new) = inl new
      swap_first (inr old) = inr (inr old)

  pub Among-sort_by :
      (xs : List CommittedEffect) (x : CommittedEffect) → Among x (sort_by le xs) → Among x xs
  unfolding sort_by
  Among-sort_by [] x h = h
  Among-sort_by (y ∷ ys) x h = elim (Among-insert_by y (sort_by le ys) x h) [
    | inl first ↦ inl first
    | inr more ↦ inr (Among-sort_by ys x more)
  ]
