-- ===== src/Commit/Examples.antt =====
-- The theorems on commits at one plan.
use popper_pad.Prelude.{ℕ, All, ◌≡◌, refl, List, [], ◌∷◌, ◌++◌, true, str_eq}
use popper_pad.Values.{Json, str, dict}
use popper_pad.Codec.{json_bytes, sha256_bytes}
use popper_pad.Result.{Checked, refuse_when, ◌>>=◌, ◌>>◌}
use popper_pad.Market.Types.{valid_ref}
use popper_pad.Market.Ids.{Distinct}
use popper_pad.Market.Samples.{plain, ref}
use popper_pad.Commit.Types.{ReceiptVersion, CommitBundle, ValidatedCommitRecord}
use popper_pad.Commit.Derive.{derived_of, derive_commit_record}
use popper_pad.Commit.Validate.{validate_commit_bundle}
use popper_pad.Commit.Plan.{
  Planned, Request, Collected, freeze_payload, schema_of, plan_prevalidated, plan_objects,
  plan_blobs, check_intents, collect_writes, candidate_of, bundle_of, object_refs, blob_refs,
  plan_request,
}
use popper_pad.Commit.Logical.{IsScoped, logical_records, logical_records-IsScoped}
use popper_pad.Commit.RoundTrip.{plan_request-validate_commit_bundle}
use popper_pad.Commit.Binding.{
  IsAddressed, IsBound, validate_commit_bundle-IsBound, plan_request-IsAddressed,
}

abbrev claim : Json
unfolding dict
claim = dict (("schema", str "popperpad/claim/v1") ∷ ("text", str "all swans are white") ∷ [])

abbrev request : Request
unfolding dict
request = record {
  expected_head = "";
  created_at = "2026-01-01T00:00:00Z";
  objects = claim ∷ [];
  prevalidated_objects = [];
  blobs = [];
  outbox = ("notify", dict []) ∷ [];
  evidence_root = "";
  policy_version = "popperpad-policy/v1";
  core_version = "popperpad-core/v1";
}

abbrev writes : Collected
unfolding json_bytes claim
writes = record {
  objects = record { ref = ref; schema = "popperpad/claim/v1"; payload = json_bytes claim } ∷ [];
  blobs = [];
}

abbrev bundle : CommitBundle
unfolding writes request
bundle = bundle_of request writes (derived_of plain (candidate_of request writes))

abbrev validated : ValidatedCommitRecord
unfolding bundle
validated = record {
  expected_head = "";
  receipt_version = ReceiptVersion.v2;
  record_hash = bundle.record_hash;
  row = bundle.row;
}

plain-valid : (bytes : List ℕ) → valid_ref (sha256_bytes plain bytes) ≡ true
unfolding valid_ref sha256_bytes
plain-valid bytes = refl

request-planned : plan_request plain request ≡ Planned.bundle bundle
unfolding plan_request collect_writes plan_prevalidated plan_objects plan_blobs check_intents
    freeze_payload schema_of derive_commit_record candidate_of valid_ref refuse_when ◌>>=◌ ◌>>◌
    sha256_bytes json_bytes dict str_eq bundle
request-planned = refl

bundle-validated : validate_commit_bundle plain bundle ≡ Checked.ok validated
unfolding bundle validated request
bundle-validated =
    plan_request-validate_commit_bundle plain plain-valid request bundle request-planned

plan_request-validate_commit_bundle_example :
    validate_commit_bundle plain bundle ≡ Checked.ok validated
unfolding bundle validated request
plan_request-validate_commit_bundle_example =
    plan_request-validate_commit_bundle plain plain-valid request bundle request-planned

validate_commit_bundle-IsBound_example : IsBound plain bundle validated
validate_commit_bundle-IsBound_example =
    validate_commit_bundle-IsBound plain bundle validated bundle-validated

plan_request-IsAddressed_example :
    IsAddressed plain bundle × Distinct (object_refs bundle.objects ++ blob_refs bundle.blobs)
plan_request-IsAddressed_example = plan_request-IsAddressed plain request bundle request-planned

logical_records-IsScoped_example : All (IsScoped bundle) (logical_records bundle)
logical_records-IsScoped_example = logical_records-IsScoped bundle
