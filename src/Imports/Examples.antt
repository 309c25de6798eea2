-- ===== src/Imports/Examples.antt =====
-- The theorems on receipts of verifiers and on imports at a trusted bundle.
use popper_pad.Prelude.{
  ◌≡◌, refl, ◌↔◌, All, true, none, some, pos, [], ◌∷◌, option_eq, set_of, str_eq, sort_texts,
  texts_eq,
}
use popper_pad.Values.{str}
use popper_pad.Codec.{json_hash, frame_sha256, sha256_bytes}
use popper_pad.Result.{Checked, refuse_when, ◌>>=◌, ◌>>◌}
use popper_pad.Market.Types.{valid_ref}
use popper_pad.Market.Samples.{plain, ref}
use popper_pad.Receipts.{
  VerifierResult, VerifierStatementV1, AuthenticatedVerifierReceiptV1, ReceiptPolicy, sorted_unique,
  binding_matches, admit_authenticated_verifier_receipt,
}
use popper_pad.Receipts.Laws.{
  binding_of, IsAdmissible, admit_authenticated_verifier_receipt-IsAdmissible,
}
use popper_pad.Commit.Types.{CommitBundle}
use popper_pad.Commit.Derive.{derived_of, derive_commit_record}
use popper_pad.Commit.Plan.{
  Planned, Request, Collected, plan_prevalidated, plan_objects, plan_blobs, check_intents,
  collect_writes, candidate_of, bundle_of, plan_request, plan_prevalidated_commit,
}
use popper_pad.Commit.Logical.{lookup, object_record, logical_authority_scope}
use popper_pad.Imports.Policy.{ImportTruthMode, TrustPolicy, authority_scope_value}
use popper_pad.Imports.Admission.{
  ImportRequest, predecessors_differ, root_differs, admit_checks, plan_of, scope_of,
  admit_bundle_import, policy_hash_of,
}
use popper_pad.Imports.Laws.{
  IsTrusted, admission_of, admit_bundle_import-IsTrusted,
  admit_bundle_import-logical_authority_scope,
}
use popper_pad.Imports.Authority.{plan_prevalidated_commit-scope}

abbrev statement : VerifierStatementV1
statement = record {
  claim_ref = ref;
  context_ref = none;
  recipe_ref = ref;
  evidence_ref = ref;
  edge_ref = ref;
  input_roots = [];
  verifier_id = ref;
  verifier_version = "v1";
  result = VerifierResult.refutes;
  output_roots = ref ∷ [];
  policy_hash = ref;
  toolchain_hash = ref;
}

abbrev authenticated : AuthenticatedVerifierReceiptV1
authenticated = record {
  receipt = record { statement = statement; signer_key_id = ref; signature = [] };
  receipt_root = ref;
}

abbrev accepting : ReceiptPolicy
accepting = record {
  trusted_verifier_ids = ref ∷ [];
  accepted_versions = "v1" ∷ [];
  accepted_policy_hashes = ref ∷ [];
  accepted_toolchain_hashes = ref ∷ [];
}

admit_authenticated_verifier_receipt-IsAdmissible_example :
    (admit_authenticated_verifier_receipt authenticated (binding_of statement) accepting
      ≡ Checked.ok statement)
    ↔ IsAdmissible statement (binding_of statement) accepting
admit_authenticated_verifier_receipt-IsAdmissible_example =
    admit_authenticated_verifier_receipt-IsAdmissible authenticated (binding_of statement) accepting

receipt-admitted :
    admit_authenticated_verifier_receipt authenticated (binding_of statement) accepting
    ≡ Checked.ok statement
unfolding admit_authenticated_verifier_receipt binding_matches refuse_when ◌>>◌ str_eq option_eq
    texts_eq
receipt-admitted = refl

abbrev trust : TrustPolicy
trust = record {
  require_signatures = true;
  require_bundle_root_match = true;
  expected_bundle_root = some ref;
  expected_previous_bundle_refs = some [];
  trusted_signers = record { key_id = ref; public_key = [] } ∷ [];
  minimum_signatures = pos 1;
  accept_adapters = "ipfs" ∷ [];
  require_anchors = "chain" ∷ [];
  trusted_verifiers = [];
  accept_verifier_versions = [];
  accept_receipt_policy_hashes = [];
  accept_toolchain_hashes = [];
  truth_mode = ImportTruthMode.quarantined;
}

abbrev bundle_import : ImportRequest
bundle_import = record {
  bundle_root = ref;
  unsigned_bundle_root = ref;
  content_root = ref;
  authenticated_signatures = record { unsigned_bundle_root = ref; signer_key_ids = ref ∷ [] };
  previous_bundle_refs = [];
  policy = trust;
  provenance = record {
    storage_adapters = "ipfs" ∷ [];
    anchor_adapters = "chain" ∷ [];
    receipt_refs = [];
  };
}

bundle-admitted :
    admit_bundle_import plain bundle_import ≡ Checked.ok (admission_of plain bundle_import)
unfolding admit_bundle_import admit_checks predecessors_differ root_differs sorted_unique valid_ref
    set_of sort_texts texts_eq str_eq refuse_when ◌>>◌
bundle-admitted = refl

admit_bundle_import-IsTrusted_example :
    (admit_bundle_import plain bundle_import ≡ Checked.ok (admission_of plain bundle_import))
    ↔ IsTrusted bundle_import
admit_bundle_import-IsTrusted_example = admit_bundle_import-IsTrusted plain bundle_import

admit_bundle_import-logical_authority_scope_example :
    (logical_authority_scope (plan_of plain bundle_import).policy_version
      ≡ some (authority_scope_value (plan_of plain bundle_import).authority_scope))
    × ((plan_of plain bundle_import).authority_scope ≡ scope_of ImportTruthMode.quarantined)
admit_bundle_import-logical_authority_scope_example =
    admit_bundle_import-logical_authority_scope plain bundle_import
      (admission_of plain bundle_import) bundle-admitted

abbrev request : Request
request = record {
  expected_head = "";
  created_at = "2026-01-01T00:00:00Z";
  objects = [];
  prevalidated_objects = (1 ∷ [], "popperpad/claim/v1") ∷ [];
  blobs = [];
  outbox = [];
  evidence_root = ref;
  policy_version = (plan_of plain bundle_import).policy_version;
  core_version = "popperpad-core/v1";
}

abbrev writes : Collected
writes = record {
  objects = record { ref = ref; schema = "popperpad/claim/v1"; payload = 1 ∷ [] } ∷ [];
  blobs = [];
}

abbrev bundle : CommitBundle
bundle = bundle_of request writes (derived_of plain (candidate_of request writes))

import-planned :
    plan_prevalidated_commit plain "" "2026-01-01T00:00:00Z"
      ((1 ∷ [], "popperpad/claim/v1") ∷ [])
      []
      ref
      (plan_of plain bundle_import).policy_version
      "popperpad-core/v1"
    ≡ Planned.bundle bundle
unfolding plan_prevalidated_commit plan_request collect_writes plan_prevalidated plan_objects
    plan_blobs check_intents derive_commit_record candidate_of valid_ref refuse_when ◌>>=◌ ◌>>◌
    sha256_bytes json_hash frame_sha256 str_eq plan_of policy_hash_of bundle
import-planned = refl

plan_prevalidated_commit-scope_example :
    All
      (λ w. lookup (object_record bundle w) "authority_scope" ≡ some (str "import_quarantined"))
      bundle.objects
plan_prevalidated_commit-scope_example =
    plan_prevalidated_commit-scope plain bundle_import (admission_of plain bundle_import) ""
      "2026-01-01T00:00:00Z" ((1 ∷ [], "popperpad/claim/v1") ∷ []) [] ref "popperpad-core/v1" bundle
      bundle-admitted import-planned
