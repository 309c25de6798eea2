-- ===== src/Commit/Validate.antt =====
-- `validate_commit_record` and `validate_commit_bundle` of src/popperpad/core/commit.py.
use popper_pad.Prelude.{
  ℕ, ◌&&◌, ◌||◌, ◌++◌, any, map, not, Bool, true, false, List, [], ◌∷◌, String, str_eq, none, some,
  if◌then◌else◌,
}
use popper_pad.Values.{Json, str, arr, obj}
use popper_pad.Codec.{Crypto, sha256_bytes}
use popper_pad.Result.{Checked, refuse_when, ◌>>=◌, ◌>>◌, reason}
use popper_pad.Values.Equality.{json_eq}
use popper_pad.Market.Invariants.Relations.{is_unique}
use popper_pad.Commit.Types.{
  CommitBundle, ValidatedCommitRecord, ReceiptVersion, receipt_json, object_row, blob_row,
  effect_row, rows, valid_root,
}
use popper_pad.Commit.Derive.{Candidate, Derived, derive_commit_record}
use popper_pad.Commit.Parse.{
  invalid, raise_when, get, entry, require_exact_keys, require_string, require_ref,
  parse_object_rows, parse_blob_rows, parse_outbox_rows,
}

abbrev pub record_keys : List String
record_keys =
    "schema" ∷ "op" ∷ "created_at" ∷ "prev_record_hash" ∷ "commit_root" ∷ "objects" ∷ "blobs"
    ∷ "outbox" ∷ "receipt" ∷ "record_hash" ∷ []

abbrev pub receipt_keys : List String
receipt_keys =
    "version" ∷ "pre_state_root" ∷ "command_hash" ∷ "evidence_root" ∷ "policy_version"
    ∷ "core_version" ∷ "replay_id" ∷ "next_state_root" ∷ "effect_plan_hash" ∷ []

abbrev pub is_text : Json → String → Bool
is_text (str s) t = str_eq s t
is_text _ t = false

-- `type(value) is not str or not _valid_root(value)`
unfoldable pub require_root : String → Json → Checked String
require_root message (str s) = raise_when (not (valid_root s)) message >> Checked.ok s
require_root message _ = invalid message

-- The test is membership in a set, which raises a TypeError for a value without a hash.
unfoldable pub require_version : Json → Checked ReceiptVersion
require_version (arr xs) = invalid "unhashable type: 'list'"
require_version (obj fs) = invalid "unhashable type: 'dict'"
require_version value =
    if is_text value "popperpad/receipt/v1"
    then Checked.ok ReceiptVersion.v1
    else if is_text value "popperpad/receipt/v2"
    then Checked.ok ReceiptVersion.v2
    else invalid "unsupported receipt version"

abbrev pub is_v1 : ReceiptVersion → Bool
is_v1 ReceiptVersion.v1 = true
is_v1 ReceiptVersion.v2 = false

-- The part of the validation that reads the receipt.
pub record ParsedReceipt : Type 0 where
  pub version : ReceiptVersion
  pub evidence_root : String
  pub policy_version : String
  pub core_version : String

unfoldable pub parse_receipt : Bool → Json → Checked ParsedReceipt
parse_receipt allow_legacy_receipt value = do
  receipt ← require_exact_keys value receipt_keys "receipt"
  raw_version ← entry receipt "version"
  version ← require_version raw_version
  raise_when (is_v1 version && not allow_legacy_receipt)
      "new publication requires popperpad/receipt/v2"
  raw_root ← entry receipt "pre_state_root"
  _ ← require_root "receipt pre_state_root is invalid" raw_root
  raw_evidence ← entry receipt "evidence_root"
  evidence_root ← require_root "receipt evidence_root is invalid" raw_evidence
  raw_command ← entry receipt "command_hash"
  _ ← require_ref "receipt.command_hash" raw_command
  raw_replay ← entry receipt "replay_id"
  _ ← require_ref "receipt.replay_id" raw_replay
  raw_next ← entry receipt "next_state_root"
  _ ← require_ref "receipt.next_state_root" raw_next
  raw_plan ← entry receipt "effect_plan_hash"
  _ ← require_ref "receipt.effect_plan_hash" raw_plan
  raw_policy ← entry receipt "policy_version"
  policy_version ← require_string "receipt.policy_version" raw_policy
  raw_core ← entry receipt "core_version"
  core_version ← require_string "receipt.core_version" raw_core
  Checked.ok (record {
    version = version;
    evidence_root = evidence_root;
    policy_version = policy_version;
    core_version = core_version;
  })

-- The validation of a record up to the derivation.
unfoldable pub parse_record : Bool → Json → Checked Candidate
parse_record allow_legacy_receipt value = do
  plain ← require_exact_keys value record_keys "record"
  schema ← entry plain "schema"
  op ← entry plain "op"
  raise_when (not (is_text schema "popperpad/log_record/v2") || not (is_text op "commit_bundle"))
      "record schema/op is not a v2 commit bundle"
  raw_created ← entry plain "created_at"
  created_at ← require_string "created_at" raw_created
  raw_head ← entry plain "prev_record_hash"
  expected_head ← require_root "prev_record_hash must be empty or a sha256 ref" raw_head
  raw_root ← entry plain "commit_root"
  _ ← require_ref "commit_root" raw_root
  raw_hash ← entry plain "record_hash"
  _ ← require_ref "record_hash" raw_hash
  raw_objects ← entry plain "objects"
  object_rows ← parse_object_rows raw_objects
  raw_blobs ← entry plain "blobs"
  blob_rows ← parse_blob_rows raw_blobs
  raise_when (not (is_unique (map (λ r. r.0) (object_rows ++ blob_rows))))
      "object/blob refs must be unique"
  raw_outbox ← entry plain "outbox"
  outbox_intents ← parse_outbox_rows raw_outbox
  raw_receipt ← entry plain "receipt"
  receipt ← parse_receipt allow_legacy_receipt raw_receipt
  Checked.ok (record {
    receipt_version = receipt.version;
    expected_head = expected_head;
    created_at = created_at;
    object_rows = map (λ r. r.1) object_rows;
    blob_rows = map (λ r. r.1) blob_rows;
    outbox_intents = outbox_intents;
    evidence_root = receipt.evidence_root;
    policy_version = receipt.policy_version;
    core_version = receipt.core_version;
  })

-- `plain[key] == value`; a validated record has the key.
unfoldable pub same_field : Json → String → Json → Bool
same_field (obj fs) key value = elim (get fs key) [ some v ↦ json_eq value v | none ↦ false ]
same_field _ key value = false

unfoldable pub bundle_agrees : CommitBundle → ValidatedCommitRecord → Bool
bundle_agrees bundle validated =
    str_eq bundle.expected_head validated.expected_head
    && (same_field validated.row "commit_root" (str bundle.commit_root)
        && (str_eq bundle.record_hash validated.record_hash
            && (same_field validated.row "receipt" (receipt_json bundle.receipt)
                && (same_field validated.row "objects" (rows object_row bundle.objects)
                    && (same_field validated.row "blobs" (rows blob_row bundle.blobs)
                        && same_field validated.row "outbox" (rows effect_row bundle.outbox))))))

module _ (crypto : Crypto) where
  unfoldable pub derive_again : Candidate → Checked Derived
  derive_again c = elim (derive_commit_record crypto c) [
    | some d ↦ Checked.ok d
    | none ↦ invalid "policy_version must be a non-empty string"
  ]

  unfoldable pub validate_commit_record : Json → Bool → Checked ValidatedCommitRecord
  validate_commit_record owned allow_legacy_receipt = do
    c ← parse_record allow_legacy_receipt owned
    d ← derive_again c
    raise_when (not (json_eq d.row owned))
        "record fields do not derive from one semantic commit candidate"
    Checked.ok (record {
      expected_head = c.expected_head;
      receipt_version = c.receipt_version;
      record_hash = d.record_hash;
      row = owned;
    })

  abbrev pub is_content : String → List ℕ → Bool
  is_content ref payload = str_eq (sha256_bytes crypto payload) ref

  unfoldable pub validate_commit_bundle : CommitBundle → Checked ValidatedCommitRecord
  validate_commit_bundle bundle = do
    validated ← validate_commit_record bundle.row false
    refuse_when
        (any (λ w. not (is_content w.ref w.payload)) bundle.objects
          || any (λ w. not (is_content w.ref w.payload)) bundle.blobs)
        "INVALID_COMMIT_BUNDLE" (reason "payload bytes do not match their refs")
    refuse_when (not (bundle_agrees bundle validated)) "INVALID_COMMIT_BUNDLE"
        (reason "bundle fields differ from the validated record")
    Checked.ok validated
