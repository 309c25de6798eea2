-- ===== src/Graph/Transfer/Hops.antt =====
-- The neighbours of a node in src/popperpad/core/graph.py: where they come from, and how many there
-- are.
use popper_pad.Prelude.{
  All-append, ◌+◌, ◌*◌, ◌≤◌, ◌≡◌, refl, ◌∙◌, sym, Bool, true, false, ◌&&◌, ◌||◌, any, All, length,
  some, List, [], ◌∷◌, ◌++◌, String, str_eq, str_eq_refl, le_text, if◌then◌else◌, arith,
}
use popper_pad.Sorting.{sort_by, any-sort_by, length-sort_by, All-sort_by, last_by-known}
use popper_pad.Graph.Types.{SemanticEdge, TransferSnapshot}
use popper_pad.Graph.Transfer.{Hop, hops_of, hops_from, le_hop, adjacent, edge_by_ref}

-- The edge leads from the node by this hop, forwards, or backwards if it is an equivalence.
abbrev pub joins : String → Hop → SemanticEdge → Bool
joins node h e =
    str_eq e.ref h.edge_ref
    && ((str_eq e.from_ref node && str_eq e.to_ref h.target)
        || (str_eq e.tag "≅" && (str_eq e.to_ref node && str_eq e.from_ref h.target)))

-- An edge of the list leads from the node by this hop.
abbrev pub IsHop : List SemanticEdge → String → Hop → Type 0
IsHop es node h = any (joins node h) es ≡ true

pub length-append {ℓ} : {A : Type ℓ} (xs ys : List A) → length (xs ++ ys) ≡ length xs + length ys
length-append [] ys = omega arith
length-append (x ∷ xs) ys = omega (arith, length-append xs ys)

pub All-weaken {ℓ κ} :
    {A : Type ℓ} (P Q : A → Type κ) (xs : List A) → ((x : A) → P x → Q x) → All P xs → All Q xs
All-weaken P Q [] f h = tt
All-weaken P Q (x ∷ xs) f h = (f x h.0, All-weaken P Q xs f h.1)

or-right : (a b : Bool) → b ≡ true → (a || b) ≡ true
or-right a b h = ground arith

or-left : (a b : Bool) → a ≡ true → (a || b) ≡ true
or-left a b h = ground arith

All-if {ℓ κ} :
    {A : Type ℓ} (P : A → Type κ) (b : Bool) (x : A)
    → (b ≡ true → P x)
    → All P (if b then x ∷ [] else [])
All-if P true x h = (h refl, tt)
All-if P false x h = tt

joins-hops_of :
    (node : String) (e : SemanticEdge) → All (λ h. joins node h e ≡ true) (hops_of node e)
joins-hops_of node e =
    All-append (λ h. joins node h e ≡ true) _ _
      (All-if (λ h. joins node h e ≡ true) (str_eq e.from_ref node) _
        (λ from. ground (arith, from, str_eq_refl e.ref, str_eq_refl e.to_ref)))
      (All-if (λ h. joins node h e ≡ true) (str_eq e.tag "≅" && str_eq e.to_ref node) _
        (λ back. ground (arith, back, str_eq_refl e.ref, str_eq_refl e.from_ref)))

length-hops_of : (node : String) (e : SemanticEdge) → length (hops_of node e) ≤ 2
length-hops_of node e = ground arith

hops_from-IsHop : (node : String) (es : List SemanticEdge) → All (IsHop es node) (hops_from node es)
unfolding hops_from
hops_from-IsHop node [] = tt
hops_from-IsHop node (e ∷ es) =
    All-append (IsHop (e ∷ es) node) (hops_of node e) (hops_from node es)
      (All-weaken (λ h. joins node h e ≡ true) (IsHop (e ∷ es) node) (hops_of node e)
        (λ h j. or-left _ _ j) (joins-hops_of node e))
      (All-weaken (IsHop es node) (IsHop (e ∷ es) node) (hops_from node es) (λ h j. or-right _ _ j)
        (hops_from-IsHop node es))

length-hops_from :
    (node : String) (es : List SemanticEdge) → length (hops_from node es) ≤ 2 * length es
unfolding hops_from
length-hops_from node [] = omega arith
length-hops_from node (e ∷ es) = omega (
  arith,
  length-append (hops_of node e) (hops_from node es),
  length-hops_of node e,
  length-hops_from node es,
)

module _ (snapshot : TransferSnapshot) (node : String) where
  pub adjacent-IsHop : All (IsHop snapshot.edges node) (adjacent snapshot node)
  unfolding adjacent
  adjacent-IsHop =
      let sorted = sort_by (λ a b. le_text a.ref b.ref) snapshot.edges in
      All-sort_by le_hop (IsHop snapshot.edges node) (hops_from node sorted) (
        All-weaken (IsHop sorted node) (IsHop snapshot.edges node) (hops_from node sorted)
          (λ h j. sym (any-sort_by (λ a b. le_text a.ref b.ref) (joins node h) snapshot.edges) ∙ j)
          (hops_from-IsHop node sorted))

  pub length-adjacent : length (adjacent snapshot node) ≤ 2 * length snapshot.edges
  unfolding adjacent
  length-adjacent =
      let sorted = sort_by (λ a b. le_text a.ref b.ref) snapshot.edges in
      omega (
        arith,
        length-sort_by le_hop (hops_from node sorted),
        length-hops_from node sorted,
        length-sort_by (λ a b. le_text a.ref b.ref) snapshot.edges,
      )

any-joins :
    (node : String) (h : Hop) (es : List SemanticEdge)
    → any (joins node h) es ≡ true
    → any (λ e. str_eq e.ref h.edge_ref) es ≡ true
any-joins node h [] k = k
any-joins node h (e ∷ es) k = ground (arith, any-joins node h es)

-- `edge_by_ref` has the edge of every hop.
pub IsHop-edge_by_ref :
    (snapshot : TransferSnapshot) (node : String) (h : Hop)
    → IsHop snapshot.edges node h
    → (e : SemanticEdge) × (edge_by_ref snapshot h.edge_ref ≡ some e)
IsHop-edge_by_ref snapshot node h j =
    last_by-known (λ e. e.ref) snapshot.edges h.edge_ref (any-joins node h snapshot.edges j)
