-- ===== src/Commit/Plan.antt =====
-- `plan_commit` and `plan_prevalidated_commit` of src/popperpad/core/commit.py.
use popper_pad.Prelude.{
  ℕ, ◌&&◌, contains, is_nonempty, map, not, List, [], ◌∷◌, ◌++◌, String, ◌⊕◌, none, some,
}
use popper_pad.Values.{Json, str, obj}
use popper_pad.Codec.{Crypto, json_bytes, sha256_bytes}
use popper_pad.Result.{Checked, refuse_when, ◌>>=◌, ◌>>◌, reason}
use popper_pad.Commit.Types.{
  ObjectWrite, BlobWrite, CommitBundle, ReceiptVersion, object_row, blob_row, valid_root,
}
use popper_pad.Commit.Derive.{Candidate, Derived, derive_commit_record}
use popper_pad.Commit.Parse.{get, is_object}

-- What the planners return: a bundle, a rejection, or the TypeError of a constructor.
pub data Planned : Type 0 where
  bundle : CommitBundle → Planned
  rejected : String → Json → Planned
  raised : Planned

-- The arguments of `_plan_commit`, whose mappings are frozen already.
pub record Request : Type 0 where
  pub expected_head : String
  pub created_at : String
  pub objects : List Json
  pub prevalidated_objects : List (List ℕ × String)
  pub blobs : List (List ℕ × String)
  pub outbox : List (String × Json)
  pub evidence_root : String
  pub policy_version : String
  pub core_version : String

-- `_freeze_payload`, for a value of JSON.
unfoldable pub freeze_payload : Json → Checked (Unit {0})
freeze_payload raw =
    refuse_when (not (is_object raw)) "INVALID_OBJECT" (reason "object payload must be a mapping")

-- `frozen.get("schema")` where it is a text, else the empty text.
unfoldable pub schema_of : Json → String
unfolding get
schema_of (obj fs) = elim (get fs "schema") [ some (str s) ↦ s | _ ↦ "" ]
schema_of _ = ""

-- The loop over the intents of the outbox.
unfoldable pub check_intents : List (String × Json) → Checked (Unit {0})
check_intents [] = Checked.ok tt
check_intents ((kind, payload) ∷ rest) = do
  refuse_when (not (is_nonempty kind)) "INVALID_EFFECT"
      (reason "effect kind must be a non-empty string")
  freeze_payload payload
  check_intents rest

abbrev pub object_refs : List ObjectWrite → List String
object_refs writes = map (λ w. w.ref) writes

abbrev pub blob_refs : List BlobWrite → List String
blob_refs writes = map (λ w. w.ref) writes

-- What `_plan_commit` has collected before it derives the record.
pub record Collected : Type 0 where
  pub objects : List ObjectWrite
  pub blobs : List BlobWrite

unfoldable pub candidate_of : Request → Collected → Candidate
candidate_of r w = record {
  receipt_version = ReceiptVersion.v2;
  expected_head = r.expected_head;
  created_at = r.created_at;
  object_rows = map object_row w.objects;
  blob_rows = map blob_row w.blobs;
  outbox_intents = r.outbox;
  evidence_root = r.evidence_root;
  policy_version = r.policy_version;
  core_version = r.core_version;
}

abbrev pub bundle_of : Request → Collected → Derived → CommitBundle
bundle_of r w d = record {
  expected_head = r.expected_head;
  commit_root = d.commit_root;
  record_hash = d.record_hash;
  objects = w.objects;
  blobs = w.blobs;
  outbox = d.outbox;
  receipt = d.receipt;
  row = d.row;
}

module _ (crypto : Crypto) where
  -- The two loops over the objects; `seen` are the refs so far.
  unfoldable pub plan_prevalidated :
      List String → List (List ℕ × String) → Checked (List ObjectWrite)
  plan_prevalidated seen [] = Checked.ok []
  plan_prevalidated seen ((payload, schema) ∷ rest) = do
    refuse_when (not (is_nonempty schema)) "INVALID_OBJECT_SCHEMA"
        (reason "every object must carry a non-empty schema")
    refuse_when (contains seen (sha256_bytes crypto payload)) "DUPLICATE_WRITE"
        (reason ("duplicate object ref: " ⊕ sha256_bytes crypto payload))
    writes ← plan_prevalidated (sha256_bytes crypto payload ∷ seen) rest
    Checked.ok
        (record { ref = sha256_bytes crypto payload; schema = schema; payload = payload } ∷ writes)

  unfoldable pub plan_objects : List String → List Json → Checked (List ObjectWrite)
  plan_objects seen [] = Checked.ok []
  plan_objects seen (raw ∷ rest) = do
    freeze_payload raw
    refuse_when (not (is_nonempty (schema_of raw))) "INVALID_OBJECT_SCHEMA"
        (reason "every object must carry a non-empty schema")
    refuse_when (contains seen (sha256_bytes crypto (json_bytes raw))) "DUPLICATE_WRITE"
        (reason ("duplicate object ref: " ⊕ sha256_bytes crypto (json_bytes raw)))
    writes ← plan_objects (sha256_bytes crypto (json_bytes raw) ∷ seen) rest
    Checked.ok (
        record {
          ref = sha256_bytes crypto (json_bytes raw);
          schema = schema_of raw;
          payload = json_bytes raw;
        }
        ∷ writes)

  unfoldable pub plan_blobs : List String → List (List ℕ × String) → Checked (List BlobWrite)
  plan_blobs seen [] = Checked.ok []
  plan_blobs seen ((payload, media_type) ∷ rest) = do
    refuse_when (not (is_nonempty media_type)) "INVALID_MEDIA_TYPE"
        (reason "blob media type must be a non-empty string")
    refuse_when (contains seen (sha256_bytes crypto payload)) "DUPLICATE_WRITE"
        (reason ("duplicate object/blob ref: " ⊕ sha256_bytes crypto payload))
    writes ← plan_blobs (sha256_bytes crypto payload ∷ seen) rest
    Checked.ok (
        record { ref = sha256_bytes crypto payload; media_type = media_type; payload = payload }
        ∷ writes)

  unfoldable pub collect_writes : Request → Checked Collected
  collect_writes r = do
    refuse_when (not (valid_root r.expected_head)) "INVALID_PRE_STATE_ROOT"
        (reason "expected_head must be empty or sha256:<64hex>")
    refuse_when (not (is_nonempty r.created_at)) "INVALID_CREATED_AT"
        (reason "created_at must be a non-empty string")
    refuse_when (is_nonempty r.evidence_root && not (valid_root r.evidence_root))
        "INVALID_EVIDENCE_ROOT" (reason "evidence_root must be empty or sha256:<64hex>")
    first ← plan_prevalidated [] r.prevalidated_objects
    second ← plan_objects (object_refs first) r.objects
    blobs ← plan_blobs (object_refs (first ++ second)) r.blobs
    check_intents r.outbox
    Checked.ok (record { objects = first ++ second; blobs = blobs })

  -- `_plan_commit`
  unfoldable pub plan_request : Request → Planned
  plan_request r = elim (collect_writes r) [
    | Checked.refused code details ↦ Planned.rejected code details
    | Checked.ok w ↦ elim (derive_commit_record crypto (candidate_of r w)) [
      | none ↦ Planned.raised
      | some d ↦ Planned.bundle (bundle_of r w d)
    ]
  ]

  -- `plan_commit`
  unfoldable pub plan_commit :
      String
      → String
      → List Json
      → List (List ℕ × String)
      → List (String × Json)
      → String
      → String
      → String
      → Planned
  plan_commit expected_head created_at objects blobs outbox evidence_root policy_version
        core_version =
      plan_request (record {
        expected_head = expected_head;
        created_at = created_at;
        objects = objects;
        prevalidated_objects = [];
        blobs = blobs;
        outbox = outbox;
        evidence_root = evidence_root;
        policy_version = policy_version;
        core_version = core_version;
      })

  -- `plan_prevalidated_commit`
  unfoldable pub plan_prevalidated_commit :
      String
      → String
      → List (List ℕ × String)
      → List (List ℕ × String)
      → String
      → String
      → String
      → Planned
  plan_prevalidated_commit expected_head created_at objects blobs evidence_root policy_version
        core_version =
      plan_request (record {
        expected_head = expected_head;
        created_at = created_at;
        objects = [];
        prevalidated_objects = objects;
        blobs = blobs;
        outbox = [];
        evidence_root = evidence_root;
        policy_version = policy_version;
        core_version = core_version;
      })
