-- ===== src/Commit/Types.antt =====
-- The values of src/popperpad/core/commit.py.
use popper_pad.Prelude.{ℕ, map, Bool, ◌||◌, not, is_nonempty, List, [], ◌∷◌, String, length}
use popper_pad.Values.{Json, str, arr, tuple, dict, nat}
use popper_pad.Market.Types.{valid_ref}

pub record ObjectWrite : Type 0 where
  pub ref : String
  pub schema : String
  pub payload : List ℕ

pub record BlobWrite : Type 0 where
  pub ref : String
  pub media_type : String
  pub payload : List ℕ

pub record OutboxEffect : Type 0 where
  pub effect_id : String
  pub kind : String
  pub payload : Json

-- `_RECEIPT_V1` and `_RECEIPT_V2`
pub data ReceiptVersion : Type 0 where
  v1 : ReceiptVersion
  v2 : ReceiptVersion

abbrev pub version_text : ReceiptVersion → String
version_text ReceiptVersion.v1 = "popperpad/receipt/v1"
version_text ReceiptVersion.v2 = "popperpad/receipt/v2"

pub record ReceiptDraft : Type 0 where
  pub version : ReceiptVersion
  pub pre_state_root : String
  pub command_hash : String
  pub evidence_root : String
  pub policy_version : String
  pub core_version : String
  pub replay_id : String
  pub next_state_root : String
  pub effect_plan_hash : String

-- `ReceiptDraft.as_json`
unfoldable pub receipt_json : ReceiptDraft → Json
receipt_json r = dict (
    ("version", str (version_text r.version))
    ∷ ("pre_state_root", str r.pre_state_root)
    ∷ ("command_hash", str r.command_hash)
    ∷ ("evidence_root", str r.evidence_root)
    ∷ ("policy_version", str r.policy_version)
    ∷ ("core_version", str r.core_version)
    ∷ ("replay_id", str r.replay_id)
    ∷ ("next_state_root", str r.next_state_root)
    ∷ ("effect_plan_hash", str r.effect_plan_hash)
    ∷ [])

pub record CommitBundle : Type 0 where
  pub expected_head : String
  pub commit_root : String
  pub record_hash : String
  pub objects : List ObjectWrite
  pub blobs : List BlobWrite
  pub outbox : List OutboxEffect
  pub receipt : ReceiptDraft
  pub row : Json

pub record ValidatedCommitRecord : Type 0 where
  pub expected_head : String
  pub receipt_version : ReceiptVersion
  pub record_hash : String
  pub row : Json

-- `_valid_root`
abbrev pub valid_root : String → Bool
valid_root value = not (is_nonempty value) || valid_ref value

-- The rows of a commit for what it writes.
unfoldable pub object_row : ObjectWrite → Json
object_row w =
    dict (("ref", str w.ref) ∷ ("schema", str w.schema) ∷ ("bytes", nat (length w.payload)) ∷ [])

unfoldable pub blob_row : BlobWrite → Json
blob_row w =
    dict (
      ("ref", str w.ref)
      ∷ ("media_type", str w.media_type)
      ∷ ("bytes", nat (length w.payload))
      ∷ [])

unfoldable pub effect_row : OutboxEffect → Json
effect_row e =
    dict (("effect_id", str e.effect_id) ∷ ("kind", str e.kind) ∷ ("payload", e.payload) ∷ [])

-- `{"kind": kind, "payload": payload}`
unfoldable pub intent_row : (String × Json) → Json
intent_row (kind, payload) = dict (("kind", str kind) ∷ ("payload", payload) ∷ [])

abbrev pub rows {ℓ} : {A : Type ℓ} → (A → Json) → List A → Json
rows f xs = arr (tuple (map f xs))
