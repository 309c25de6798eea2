-- ===== src/Graph/Status.antt =====
-- src/popperpad/core/graph.py: `derive_status`.
pub mod Laws
use popper_pad.Prelude.{
  Bool, true, false, not, ◌&&◌, any, is_empty, contains, Option, none, some, List, [], ◌∷◌, String,
  str_eq, option_eq, le_text, if◌then◌else◌,
}
use popper_pad.Sorting.{last_by, sort_by}
use popper_pad.Graph.Types.{
  Verdict, EdgeKind, Status, RecipeRecord, EvidenceRecord, TruthEdge, StatusSnapshot, StatusResult,
  is_pass,
}

-- `{"supports": "support", "refutes": "refute"}.get(edge.kind)`
abbrev pub expected_verdict : EdgeKind → Verdict
expected_verdict EdgeKind.supports = Verdict.support
expected_verdict EdgeKind.refutes = Verdict.refute

abbrev pub verdict_eq : Verdict → Verdict → Bool
verdict_eq Verdict.support Verdict.support = true
verdict_eq Verdict.refute Verdict.refute = true
verdict_eq _ _ = false

abbrev pub kind_eq : EdgeKind → EdgeKind → Bool
kind_eq EdgeKind.supports EdgeKind.supports = true
kind_eq EdgeKind.refutes EdgeKind.refutes = true
kind_eq _ _ = false

-- The body of the loop of `_truth_edge_admissible`: this evidence admits the edge.
unfoldable pub evidence_admits : StatusSnapshot → TruthEdge → String → Bool
evidence_admits snapshot edge evidence_ref =
    elim (last_by (λ e. e.ref) snapshot.evidence evidence_ref) [
      | none ↦ false
      | some evidence ↦
          contains evidence.subject_refs snapshot.hypothesis_ref
          && (option_eq evidence.context_ref edge.context_ref
              && (is_pass evidence.status
                  && (contains snapshot.accepted_recipe_refs evidence.recipe_ref
                      && elim (last_by (λ r. r.ref) snapshot.recipes evidence.recipe_ref) [
                        | none ↦ false
                        | some recipe ↦
                            verdict_eq recipe.verdict_on_pass (expected_verdict edge.kind)
                      ])))
    ]

-- `_truth_edge_admissible`
abbrev pub truth_edge_admissible : StatusSnapshot → TruthEdge → Bool
truth_edge_admissible snapshot edge = any (evidence_admits snapshot edge) edge.evidence_refs

-- `snapshot.context_ref is None or edge.context_ref == snapshot.context_ref`
abbrev pub in_context : Option String → TruthEdge → Bool
in_context none edge = true
in_context (some c) edge = option_eq edge.context_ref (some c)

-- The tests at the head of the loop of `derive_status`: the edge is not passed over.
abbrev pub counts : StatusSnapshot → TruthEdge → Bool
counts snapshot edge =
    str_eq edge.to_ref snapshot.hypothesis_ref
    && (in_context snapshot.context_ref edge && truth_edge_admissible snapshot edge)

-- The loop of `derive_status`, for the edges of one kind.
unfoldable pub collect : StatusSnapshot → EdgeKind → List TruthEdge → List String
collect snapshot kind [] = []
collect snapshot kind (edge ∷ edges) =
    let rest = collect snapshot kind edges in
    if counts snapshot edge && kind_eq edge.kind kind then edge.ref ∷ rest else rest

-- `_classify`
abbrev pub classify : List String → List String → Status
classify supports refutes =
    if not (is_empty supports) && not (is_empty refutes)
    then Status.disputed
    else if not (is_empty refutes)
    then Status.falsified
    else if not (is_empty supports)
    then Status.supported
    else Status.unknown

unfoldable pub derive_status : StatusSnapshot → StatusResult
derive_status snapshot =
    let edges = sort_by (λ a b. le_text a.ref b.ref) snapshot.edges in
    let supports = collect snapshot EdgeKind.supports edges in
    let refutes = collect snapshot EdgeKind.refutes edges in
    record { state = classify supports refutes; supports = supports; refutes = refutes }
