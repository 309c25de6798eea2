-- ===== src/Commit/Records.antt =====
-- A record that is built from good parts is read back as the candidate it was built from.
use popper_pad.Prelude.{◌≡◌, refl, true, false, is_nonempty, map, List, ◌∷◌, ◌++◌, String, str_eq}
use popper_pad.Values.{Json, str, arr, dict, tuple}
use popper_pad.Result.{Checked, refuse_when, ◌>>=◌, ◌>>◌}
use popper_pad.Market.Types.{valid_ref}
use popper_pad.Market.Invariants.Relations.{is_unique}
use popper_pad.Commit.Types.{
  ReceiptVersion, ReceiptDraft, receipt_json, valid_root, OutboxEffect, effect_row, rows,
}
use popper_pad.Commit.Derive.{record_core}
use popper_pad.Commit.Parse.{
  get, entry, exact_keys, require_exact_keys, require_string, require_ref, Row, parse_object_rows,
  parse_blob_rows, parse_outbox_rows,
}
use popper_pad.Commit.Validate.{parse_receipt, parse_record, require_root, require_version}

pub record IsReceipt (r : ReceiptDraft) : Type 0 where
  pub current : r.version ≡ ReceiptVersion.v2
  pub pre_state : valid_root r.pre_state_root ≡ true
  pub evidence : valid_root r.evidence_root ≡ true
  pub command : valid_ref r.command_hash ≡ true
  pub replay : valid_ref r.replay_id ≡ true
  pub next : valid_ref r.next_state_root ≡ true
  pub plan : valid_ref r.effect_plan_hash ≡ true
  pub policy : is_nonempty r.policy_version ≡ true
  pub core : is_nonempty r.core_version ≡ true

pub parse_receipt-receipt_json :
    (r : ReceiptDraft)
    → IsReceipt r
    → parse_receipt false (receipt_json r)
      ≡ Checked.ok (record {
        version = ReceiptVersion.v2;
        evidence_root = r.evidence_root;
        policy_version = r.policy_version;
        core_version = r.core_version;
      })
unfolding parse_receipt receipt_json require_exact_keys exact_keys entry get require_root
    require_version require_ref require_string dict str_eq refuse_when ◌>>=◌ ◌>>◌
parse_receipt-receipt_json r h =
    rw (h.current, h.pre_state, h.evidence, h.command, h.replay, h.next, h.plan, h.policy, h.core)
      refl

-- The parts of a record and what the validation reads from them.
pub record IsRecord (created_at head commit_root record_hash : String) (objects blobs : List Json)
    (outbox : List OutboxEffect) (receipt : ReceiptDraft) (object_entries blob_entries : List Row)
    (intents : List (String × Json)) : Type 0 where
  pub created : is_nonempty created_at ≡ true
  pub started : valid_root head ≡ true
  pub rooted : valid_ref commit_root ≡ true
  pub hashed : valid_ref record_hash ≡ true
  pub objects_read : parse_object_rows (arr (tuple objects)) ≡ Checked.ok object_entries
  pub blobs_read : parse_blob_rows (arr (tuple blobs)) ≡ Checked.ok blob_entries
  pub unique : is_unique (map (λ r. r.0) (object_entries ++ blob_entries)) ≡ true
  pub outbox_read : parse_outbox_rows (rows effect_row outbox) ≡ Checked.ok intents
  pub receipt_read : IsReceipt receipt

pub parse_record-record_core :
    (created_at head commit_root record_hash : String) (objects blobs : List Json)
    (outbox : List OutboxEffect) (receipt : ReceiptDraft) (object_entries blob_entries : List Row)
    (intents : List (String × Json))
    → IsRecord created_at head commit_root record_hash objects blobs outbox receipt object_entries
        blob_entries intents
    → parse_record false (
        dict (
          ("record_hash", str record_hash)
          ∷ record_core head created_at objects blobs outbox commit_root receipt))
      ≡ Checked.ok (record {
        receipt_version = ReceiptVersion.v2;
        expected_head = head;
        created_at = created_at;
        object_rows = map (λ r. r.1) object_entries;
        blob_rows = map (λ r. r.1) blob_entries;
        outbox_intents = intents;
        evidence_root = receipt.evidence_root;
        policy_version = receipt.policy_version;
        core_version = receipt.core_version;
      })
unfolding parse_record require_exact_keys exact_keys entry get require_root require_ref
    require_string dict str_eq refuse_when ◌>>=◌ ◌>>◌
parse_record-record_core created_at head commit_root record_hash objects blobs outbox receipt oe be
      intents h =
    rw
      (
        h.created,
        h.started,
        h.rooted,
        h.hashed,
        h.objects_read,
        h.blobs_read,
        h.unique,
        h.outbox_read,
        parse_receipt-receipt_json receipt h.receipt_read,
      )
      refl
