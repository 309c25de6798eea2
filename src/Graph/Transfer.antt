-- ===== src/Graph/Transfer.antt =====
-- src/popperpad/core/graph.py: `find_transfer_paths`.
pub mod Hops
pub mod Search
use popper_pad.Prelude.{
  ℕ, zero, suc, ◌+◌, ◌*◌, ◌-◌, ℤ, pos, pos_part, leb_ℤ, leb, Bool, true, false, not, ◌&&◌, ◌||◌,
  any, is_empty, contains, set_add, length, map, Option, none, some, List, [], ◌∷◌, ◌++◌, String,
  str_eq, le_text, if◌then◌else◌,
}
use popper_pad.Sorting.{last_by, sort_by}
use popper_pad.Graph.Types.{
  EvidenceRecord, Obligation, SemanticEdge, TransferSnapshot, OpenObligation, TransferPath, is_pass,
}

-- `_obligation_satisfied`
unfoldable pub obligation_satisfied : TransferSnapshot → Obligation → List String → Bool
obligation_satisfied snapshot obligation evidence_refs =
    any
      (λ ref. elim (last_by (λ e. e.ref) snapshot.evidence ref) [
        | none ↦ false
        | some evidence ↦
            str_eq evidence.recipe_ref obligation.recipe_ref && is_pass evidence.status
      ])
      evidence_refs

-- The loop of `_open_edge_obligations`.
unfoldable pub open_of_edge :
    TransferSnapshot → SemanticEdge → List Obligation → List OpenObligation
open_of_edge snapshot edge [] = []
open_of_edge snapshot edge (o ∷ os) =
    let rest = open_of_edge snapshot edge os in
    if obligation_satisfied snapshot o edge.evidence_refs
    then rest
    else record { edge_ref = edge.ref; obligation_id = o.obligation_id; recipe_ref = o.recipe_ref }
      ∷ rest

-- `_open_edge_obligations`
abbrev pub open_edge_obligations : TransferSnapshot → SemanticEdge → List OpenObligation
open_edge_obligations snapshot edge = open_of_edge snapshot edge edge.obligations

-- `edge_by_ref.get(ref)`
abbrev pub edge_by_ref : TransferSnapshot → String → Option SemanticEdge
edge_by_ref snapshot = last_by (λ e. e.ref) snapshot.edges

-- `_open_path_obligations`, where `none` is a KeyError of `edge_by_ref`.
unfoldable pub open_path_obligations : TransferSnapshot → List String → Option (List OpenObligation)
open_path_obligations snapshot [] = some []
open_path_obligations snapshot (ref ∷ refs) = elim (edge_by_ref snapshot ref) [
  | none ↦ none
  | some edge ↦ elim (open_path_obligations snapshot refs) [
    | none ↦ none
    | some rest ↦ some (open_edge_obligations snapshot edge ++ rest)
  ]
]

-- A pair of an edge ref and the node that it leads to.
pub record Hop : Type 0 where
  pub edge_ref : String
  pub target : String

-- What one edge appends to `adjacency[node]`.
abbrev pub hops_of : String → SemanticEdge → List Hop
hops_of node edge =
    (if str_eq edge.from_ref node
      then record { edge_ref = edge.ref; target = edge.to_ref } ∷ []
      else [])
    ++ (if str_eq edge.tag "≅" && str_eq edge.to_ref node
        then record { edge_ref = edge.ref; target = edge.from_ref } ∷ []
        else [])

unfoldable pub hops_from : String → List SemanticEdge → List Hop
hops_from node [] = []
hops_from node (e ∷ es) = hops_of node e ++ hops_from node es

-- The order of the pairs.
unfoldable pub le_hop : Hop → Hop → Bool
le_hop a b =
    not (le_text b.edge_ref a.edge_ref)
    || (str_eq a.edge_ref b.edge_ref && le_text a.target b.target)

-- `adjacency.get(node, ())`, after its sort.
unfoldable pub adjacent : TransferSnapshot → String → List Hop
adjacent snapshot node =
    sort_by le_hop (hops_from node (sort_by (λ a b. le_text a.ref b.ref) snapshot.edges))

-- An entry of the queue.
pub record Walk : Type 0 where
  pub node : String
  pub edge_path : List String
  pub visited_nodes : List String

-- The loop over the neighbours of a node: the entries that it appends to the queue, where `none` is a
-- KeyError of `edge_by_ref`.
unfoldable pub extend : TransferSnapshot → Bool → Walk → List Hop → Option (List Walk)
extend snapshot require_validated walk [] = some []
extend snapshot require_validated walk (h ∷ hs) =
    let rest = extend snapshot require_validated walk hs in
    if contains walk.visited_nodes h.target then rest else elim (edge_by_ref snapshot h.edge_ref) [
      | none ↦ none
      | some edge ↦
          if require_validated && not (is_empty (open_edge_obligations snapshot edge))
          then rest
          else elim rest [
            | none ↦ none
            | some walks ↦ some (
                record {
                  node = h.target;
                  edge_path = walk.edge_path ++ h.edge_ref ∷ [];
                  visited_nodes = set_add walk.visited_nodes h.target;
                }
                ∷ walks)
          ]
    ]

-- The result of the function: paths, the ValueError for a depth out of bounds, or a KeyError.
-- `out_of_fuel` is no result of the program.
pub data Outcome : Type 0 where
  paths : List TransferPath → Outcome
  bad_depth key_error out_of_fuel : Outcome

-- The order of tuples of texts.
unfoldable pub le_texts : List String → List String → Bool
le_texts [] ys = true
le_texts (x ∷ xs) [] = false
le_texts (x ∷ xs) (y ∷ ys) = let rest = le_texts xs ys in not (le_text y x) || (str_eq x y && rest)

-- `tuple(sorted(found, key=lambda path: path.edge_refs))`
abbrev pub sort_paths : List TransferPath → List TransferPath
sort_paths = sort_by (λ a b. le_texts a.edge_refs b.edge_refs)

module _ (snapshot : TransferSnapshot) (to_ref : String) (max_depth : ℕ)
    (require_validated : Bool) where
  -- The `while` loop, whose queue is a list.
  unfoldable pub search_loop : ℕ → List Walk → List TransferPath → Outcome
  search_loop fuel [] found = Outcome.paths (sort_paths found)
  search_loop zero (w ∷ queue) found = Outcome.out_of_fuel
  search_loop (suc fuel) (w ∷ queue) found = elim (str_eq w.node to_ref) [
    | true ↦ elim (open_path_obligations snapshot w.edge_path) [
      | none ↦ Outcome.key_error
      | some obligations ↦
          search_loop fuel queue
            (found ++ record { edge_refs = w.edge_path; obligations_open = obligations } ∷ [])
    ]
    | false ↦ elim (leb max_depth (length w.edge_path)) [
      | true ↦ search_loop fuel queue found
      | false ↦ elim (extend snapshot require_validated w (adjacent snapshot w.node)) [
        | none ↦ Outcome.key_error
        | some walks ↦ search_loop fuel (queue ++ walks) found
      ]
    ]
  ]

-- The entries below one with `depth` edges to go, if no node has more than `width` neighbours.
abbrev pub tree_size : ℕ → ℕ → ℕ
tree_size width zero = 1
tree_size width (suc depth) = 1 + width * tree_size width depth

-- `find_transfer_paths`; an edge gives at most two neighbours.
unfoldable pub find_transfer_paths : TransferSnapshot → String → String → ℤ → Bool → Outcome
find_transfer_paths snapshot from_ref to_ref max_depth require_validated =
    if not (leb_ℤ (pos 1) max_depth && leb_ℤ max_depth (pos 12))
    then Outcome.bad_depth
    else search_loop snapshot to_ref (pos_part max_depth) require_validated
        (tree_size (2 * length snapshot.edges) (pos_part max_depth))
        (record { node = from_ref; edge_path = []; visited_nodes = from_ref ∷ [] } ∷ []) []
