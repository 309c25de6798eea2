-- ===== src/Graph/Examples.antt =====
-- The theorems on the claim graph at concrete snapshots.
use popper_pad.Prelude.{
  ◌≡◌, refl, subst, sym, str_eq-eq, arith, pos, true, false, none, any, contains, map, String, List,
  [], ◌∷◌, All, str_eq, option_eq, set_add,
}
use popper_pad.Sorting.{last_by, sort_by, insert_by}
use popper_pad.Graph.Types.{
  Verdict, EdgeKind, Status, EvidenceRecord, TruthEdge, StatusSnapshot, TransferSnapshot,
  TransferPath, is_pass,
}
use popper_pad.Graph.Status.{evidence_admits, collect, derive_status}
use popper_pad.Graph.Status.Laws.{
  IsSilent, speaks, names, verdict_of, derive_status-state, derive_status-refs,
  derive_status-silent,
}
use popper_pad.Graph.Transfer.{
  Outcome, find_transfer_paths, search_loop, extend, adjacent, hops_from, le_hop,
  open_path_obligations, open_of_edge, obligation_satisfied, le_texts,
}
use popper_pad.Graph.Transfer.Search.{IsPath, find_transfer_paths-IsPath}

abbrev proof : EvidenceRecord
proof = record {
  ref = "v1";
  recipe_ref = "r1";
  context_ref = none;
  subject_refs = "h1" ∷ [];
  status = "Pass";
}

abbrev backing : TruthEdge
backing = record {
  ref = "t1";
  kind = EdgeKind.supports;
  from_ref = "v1";
  to_ref = "h1";
  context_ref = none;
  evidence_refs = "v1" ∷ [];
}

-- An edge whose evidence is not in the snapshot.
abbrev rumour : TruthEdge
rumour = record {
  ref = "t0";
  kind = EdgeKind.refutes;
  from_ref = "v2";
  to_ref = "h1";
  context_ref = none;
  evidence_refs = "v2" ∷ [];
}

abbrev snapshot : StatusSnapshot
snapshot = record {
  hypothesis_ref = "h1";
  context_ref = none;
  accepted_recipe_refs = "r1" ∷ [];
  edges = backing ∷ [];
  evidence = proof ∷ [];
  recipes = record { ref = "r1"; verdict_on_pass = Verdict.support } ∷ [];
}

snapshot-supported : (derive_status snapshot).state ≡ Status.supported
unfolding derive_status collect evidence_admits last_by sort_by insert_by is_pass str_eq option_eq
snapshot-supported = refl

unheard :
    (ref : String)
    → contains rumour.evidence_refs ref ≡ true
    → contains (map (λ v. v.ref) snapshot.evidence) ref ≡ false
unfolding str_eq
unheard ref there =
    let same : str_eq ref "v2" ≡ true = ground (arith, there) in
    subst (λ r. contains (map (λ v. v.ref) snapshot.evidence) r ≡ false)
      (sym (str_eq-eq ref "v2" same)) refl

rumour-IsSilent : IsSilent snapshot rumour
rumour-IsSilent = IsSilent.unknown_evidence λ ref there. unheard ref there

derive_status-state_example :
    (derive_status snapshot).state
    ≡ verdict_of
        (any (speaks snapshot EdgeKind.supports) snapshot.edges)
        (any (speaks snapshot EdgeKind.refutes) snapshot.edges)
derive_status-state_example = derive_status-state snapshot

derive_status-refs_example :
    (contains (derive_status snapshot).supports "t1"
      ≡ any (names snapshot EdgeKind.supports "t1") snapshot.edges)
    × (contains (derive_status snapshot).refutes "t1"
        ≡ any (names snapshot EdgeKind.refutes "t1") snapshot.edges)
derive_status-refs_example = derive_status-refs snapshot "t1"

derive_status-silent_example :
    derive_status (record snapshot { edges = rumour ∷ backing ∷ [] }) ≡ derive_status snapshot
derive_status-silent_example = derive_status-silent snapshot rumour rumour-IsSilent

abbrev chain : TransferSnapshot
chain = record {
  edges =
      record {
        ref = "e2";
        from_ref = "c";
        to_ref = "b";
        tag = "≅";
        obligations = [];
        evidence_refs = [];
      }
      ∷ record {
        ref = "e1";
        from_ref = "a";
        to_ref = "b";
        tag = "↪";
        obligations = record { obligation_id = "o1"; recipe_ref = "r1" } ∷ [];
        evidence_refs = "v1" ∷ [];
      }
      ∷ [];
  evidence = proof ∷ [];
}

chain-paths :
    find_transfer_paths chain "a" "c" (pos 3) true
    ≡ Outcome.paths (record { edge_refs = "e1" ∷ "e2" ∷ []; obligations_open = [] } ∷ [])
unfolding find_transfer_paths search_loop extend adjacent hops_from le_hop open_path_obligations
    open_of_edge obligation_satisfied le_texts last_by sort_by insert_by is_pass str_eq option_eq
    set_add
chain-paths = refl

find_transfer_paths-IsPath_example :
    (ps : List TransferPath) × (find_transfer_paths chain "a" "c" (pos 3) true ≡ Outcome.paths ps)
    × All (IsPath chain "a" "c" 3 true) ps
find_transfer_paths-IsPath_example = find_transfer_paths-IsPath chain "a" "c" (pos 3) true refl refl
