-- ===== src/Graph/Status/Laws.antt =====
-- `derive_status` of src/popperpad/core/graph.py against a description of it that knows no order.
use popper_pad.Prelude.{
  ◌≡◌, refl, ap, ◌∙◌, Bool, true, false, not, ◌&&◌, ◌||◌, any, map, some, option_eq, str_eq_refl,
  arith, is_empty, contains, Bool-cases, inl, inr, List, [], ◌∷◌, String, str_eq, le_text,
}
use mathlib.Core.Path.{ap₂}
use popper_pad.Sorting.{last_by-absent, sort_by, insert_by, any-sort_by}
use popper_pad.Graph.Types.{EdgeKind, Status, TruthEdge, StatusSnapshot}
use popper_pad.Graph.Status.{
  evidence_admits, in_context, counts, kind_eq, collect, classify, derive_status,
}

-- The edge speaks for the hypothesis (or against it).
abbrev pub speaks : StatusSnapshot → EdgeKind → TruthEdge → Bool
speaks snapshot kind edge = counts snapshot edge && kind_eq edge.kind kind

abbrev pub names : StatusSnapshot → EdgeKind → String → TruthEdge → Bool
names snapshot kind ref edge = speaks snapshot kind edge && str_eq ref edge.ref

-- The status by whether any edge supports, and whether any refutes.
abbrev pub verdict_of : Bool → Bool → Status
verdict_of true true = Status.disputed
verdict_of false true = Status.falsified
verdict_of true false = Status.supported
verdict_of false false = Status.unknown

module _ (s : StatusSnapshot) (kind : EdgeKind) where
  is_empty-collect :
      (es : List TruthEdge) → not (is_empty (collect s kind es)) ≡ any (speaks s kind) es
  unfolding collect
  is_empty-collect [] = refl
  is_empty-collect (e ∷ es) = elim (Bool-cases (speaks s kind e)) [
    | inl yes_speaks ↦ rw yes_speaks refl
    | inr silent ↦ rw silent (is_empty-collect es)
  ]

  contains-collect :
      (ref : String) (es : List TruthEdge)
      → contains (collect s kind es) ref ≡ any (names s kind ref) es
  unfolding collect
  contains-collect ref [] = refl
  contains-collect ref (e ∷ es) = elim (Bool-cases (speaks s kind e)) [
    | inl yes_speaks ↦ rw yes_speaks (ap (λ b. str_eq ref e.ref || b) (contains-collect ref es))
    | inr silent ↦ rw silent (contains-collect ref es)
  ]

  -- An edge that does not count is passed over wherever it is inserted.
  collect-insert_by :
      (e : TruthEdge) (es : List TruthEdge)
      → speaks s kind e ≡ false
      → collect s kind (insert_by (λ a b. le_text a.ref b.ref) e es) ≡ collect s kind es
  unfolding collect insert_by
  collect-insert_by e [] h = rw h refl
  collect-insert_by e (x ∷ xs) h = elim (Bool-cases (le_text e.ref x.ref)) [
    | inl below ↦ rw (below, h) refl
    | inr above ↦ rw above (rw (collect-insert_by e xs h) refl)
  ]

classify-eq :
    (xs ys : List String) → classify xs ys ≡ verdict_of (not (is_empty xs)) (not (is_empty ys))
classify-eq [] [] = refl
classify-eq [] (y ∷ ys) = refl
classify-eq (x ∷ xs) [] = refl
classify-eq (x ∷ xs) (y ∷ ys) = refl

-- The derived status depends on two facts only, whether some edge of the snapshot that counts supports
-- the hypothesis and whether one refutes it: both make it disputed, one makes it falsified or
-- supported, none leaves it unknown.
pub derive_status-state :
    (s : StatusSnapshot)
    → (derive_status s).state
      ≡ verdict_of
          (any (speaks s EdgeKind.supports) s.edges)
          (any (speaks s EdgeKind.refutes) s.edges)
unfolding derive_status
derive_status-state s =
    let le : TruthEdge → TruthEdge → Bool = λ a b. le_text a.ref b.ref in
    let sorted = sort_by le s.edges in
    classify-eq (collect s EdgeKind.supports sorted) (collect s EdgeKind.refutes sorted)
    ∙ ap₂ verdict_of
        (is_empty-collect s EdgeKind.supports sorted
          ∙ any-sort_by le (speaks s EdgeKind.supports) s.edges)
        (is_empty-collect s EdgeKind.refutes sorted
          ∙ any-sort_by le (speaks s EdgeKind.refutes) s.edges)

-- The refs that a status lists as supports, and those that it lists as refutations, are those of the
-- edges of the snapshot that count and are of that kind.
pub derive_status-refs :
    (s : StatusSnapshot) (ref : String)
    → (contains (derive_status s).supports ref ≡ any (names s EdgeKind.supports ref) s.edges)
      × (contains (derive_status s).refutes ref ≡ any (names s EdgeKind.refutes ref) s.edges)
unfolding derive_status
derive_status-refs s ref =
    let le : TruthEdge → TruthEdge → Bool = λ a b. le_text a.ref b.ref in
    let sorted = sort_by le s.edges in
    (
      contains-collect s EdgeKind.supports ref sorted
          ∙ any-sort_by le (names s EdgeKind.supports ref) s.edges,
      contains-collect s EdgeKind.refutes ref sorted
          ∙ any-sort_by le (names s EdgeKind.refutes ref) s.edges,
    )

collect-more :
    (s : StatusSnapshot) (e : TruthEdge) (kind : EdgeKind) (es : List TruthEdge)
    → collect (record s { edges = e ∷ s.edges }) kind es ≡ collect s kind es
unfolding collect evidence_admits
collect-more s e kind [] = refl
collect-more s e kind (x ∷ xs) = rw (collect-more s e kind xs) refl

silent-speaks :
    (s : StatusSnapshot) (kind : EdgeKind) (e : TruthEdge)
    → counts s e ≡ false
    → speaks s kind e ≡ false
silent-speaks s kind e h = rw h refl

-- An edge that cannot speak about the hypothesis: it points at another one, or the snapshot is for a
-- context and the edge is in another one or in none, or none of its evidence is in the snapshot.
pub data IsSilent (s : StatusSnapshot) (e : TruthEdge) : Type 0 where
  other_target : str_eq e.to_ref s.hypothesis_ref ≡ false → IsSilent s e
  other_context :
      (c : String)
      → s.context_ref ≡ some c
      → option_eq e.context_ref (some c) ≡ false
      → IsSilent s e
  unknown_evidence :
      ((ref : String)
        → contains e.evidence_refs ref ≡ true
        → contains (map (λ v. v.ref) s.evidence) ref ≡ false)
      → IsSilent s e

and_false : (a : Bool) → (a && false) ≡ false
and_false true = refl
and_false false = refl

or_right : (a b : Bool) → b ≡ true → (a || b) ≡ true
or_right a b h = ground arith

and_false_right : (a b : Bool) → (a && (b && false)) ≡ false
and_false_right a b = ground arith

evidence_admits-unknown :
    (s : StatusSnapshot) (e : TruthEdge) (ref : String)
    → contains (map (λ v. v.ref) s.evidence) ref ≡ false
    → evidence_admits s e ref ≡ false
unfolding evidence_admits
evidence_admits-unknown s e ref h =
    rw (evidence_admits, last_by-absent (λ v. v.ref) s.evidence ref h) refl

any-unknown :
    (s : StatusSnapshot) (e : TruthEdge) (refs : List String)
    → ((ref : String)
        → contains refs ref ≡ true
        → contains (map (λ v. v.ref) s.evidence) ref ≡ false)
    → any (evidence_admits s e) refs ≡ false
any-unknown s e [] h = refl
any-unknown s e (r ∷ rs) h =
    rw
      (
        evidence_admits-unknown s e r (h r (rw (str_eq_refl r) refl)),
        any-unknown s e rs (λ x there. h x (or_right (str_eq x r) (contains rs x) there)),
      )
      refl

silent-counts : (s : StatusSnapshot) (e : TruthEdge) → IsSilent s e → counts s e ≡ false
silent-counts s e (IsSilent.other_target h) = rw h refl
silent-counts s e (IsSilent.other_context c at_c h) =
    rw (at_c, h) (and_false (str_eq e.to_ref s.hypothesis_ref))
silent-counts s e (IsSilent.unknown_evidence h) =
    rw (any-unknown s e e.evidence_refs h)
      (and_false_right (str_eq e.to_ref s.hypothesis_ref) (in_context s.context_ref e))

-- Publishing an edge at another hypothesis, or, in a snapshot for a context, in no or another context, or
-- without evidence in the snapshot, changes nothing of the derived status: neither the state nor the
-- lists of supports and refutations.
pub derive_status-silent :
    (s : StatusSnapshot) (e : TruthEdge)
    → IsSilent s e
    → derive_status (record s { edges = e ∷ s.edges }) ≡ derive_status s
unfolding derive_status sort_by
derive_status-silent s e silent =
    let le : TruthEdge → TruthEdge → Bool = λ a b. le_text a.ref b.ref in
    let same : (kind : EdgeKind)
        → collect (record s { edges = e ∷ s.edges }) kind (insert_by le e (sort_by le s.edges))
          ≡ collect s kind (sort_by le s.edges) =
      λ kind.
        collect-more s e kind (insert_by le e (sort_by le s.edges))
        ∙ collect-insert_by s kind e (sort_by le s.edges)
            (silent-speaks s kind e (silent-counts s e silent)) in
    ap₂ (λ xs ys. record { state = classify xs ys; supports = xs; refutes = ys })
      (same EdgeKind.supports) (same EdgeKind.refutes)
