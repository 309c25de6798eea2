-- ===== src/Commit/Derive.antt =====
-- `_derive_commit_record` of src/popperpad/core/commit.py.
use popper_pad.Prelude.{
  ℕ, suc, ◌&&◌, is_nonempty, Option, none, some, List, [], ◌∷◌, String, if◌then◌else◌,
}
use popper_pad.Values.{Json, str, arr, tuple, dict, nat}
use popper_pad.Codec.{Crypto, json_hash}
use popper_pad.Commit.Types.{
  OutboxEffect, ReceiptVersion, ReceiptDraft, receipt_json, intent_row, effect_row, rows,
}

-- The parts of a record from which the rest is derived.
pub record Candidate : Type 0 where
  pub receipt_version : ReceiptVersion
  pub expected_head : String
  pub created_at : String
  pub object_rows : List Json
  pub blob_rows : List Json
  pub outbox_intents : List (String × Json)
  pub evidence_root : String
  pub policy_version : String
  pub core_version : String

pub record Derived : Type 0 where
  pub receipt : ReceiptDraft
  pub outbox : List OutboxEffect
  pub commit_root : String
  pub record_hash : String
  pub row : Json

command_domain : ReceiptVersion → String
command_domain ReceiptVersion.v1 = "commit-command/v1"
command_domain ReceiptVersion.v2 = "commit-command/v2"

replay_domain : ReceiptVersion → String
replay_domain ReceiptVersion.v1 = "replay-id/v1"
replay_domain ReceiptVersion.v2 = "replay-id/v2"

effect_id_domain : ReceiptVersion → String
effect_id_domain ReceiptVersion.v1 = "outbox-effect-id/v1"
effect_id_domain ReceiptVersion.v2 = "outbox-effect-id/v2"

effect_plan_domain : ReceiptVersion → String
effect_plan_domain ReceiptVersion.v1 = "effect-plan/v1"
effect_plan_domain ReceiptVersion.v2 = "effect-plan/v2"

commit_domain : ReceiptVersion → String
commit_domain ReceiptVersion.v1 = "commit-bundle/v1"
commit_domain ReceiptVersion.v2 = "commit-bundle/v2"

command_fields : ReceiptVersion → Candidate → List (String × Json)
command_fields ReceiptVersion.v1 c =
    ("expected_head", str c.expected_head)
    ∷ ("objects", arr (tuple c.object_rows))
    ∷ ("blobs", arr (tuple c.blob_rows))
    ∷ ("policy_version", str c.policy_version)
    ∷ ("core_version", str c.core_version)
    ∷ []
command_fields ReceiptVersion.v2 c =
    ("expected_head", str c.expected_head)
    ∷ ("created_at", str c.created_at)
    ∷ ("evidence_root", str c.evidence_root)
    ∷ ("objects", arr (tuple c.object_rows))
    ∷ ("blobs", arr (tuple c.blob_rows))
    ∷ ("outbox", rows intent_row c.outbox_intents)
    ∷ ("policy_version", str c.policy_version)
    ∷ ("core_version", str c.core_version)
    ∷ []

-- The entries of the record without its hash.
abbrev pub record_core :
    String
    → String
    → List Json
    → List Json
    → List OutboxEffect
    → String
    → ReceiptDraft
    → List (String × Json)
record_core expected_head created_at objects blobs outbox commit_root receipt =
    ("schema", str "popperpad/log_record/v2")
    ∷ ("op", str "commit_bundle")
    ∷ ("created_at", str created_at)
    ∷ ("prev_record_hash", str expected_head)
    ∷ ("commit_root", str commit_root)
    ∷ ("objects", arr (tuple objects))
    ∷ ("blobs", arr (tuple blobs))
    ∷ ("outbox", rows effect_row outbox)
    ∷ ("receipt", receipt_json receipt)
    ∷ []

module _ (crypto : Crypto) where
  command_hash_of : Candidate → String
  unfolding command_domain command_fields
  command_hash_of c =
      json_hash crypto (command_domain c.receipt_version)
        (dict (command_fields c.receipt_version c))

  replay_id_of : Candidate → String
  unfolding replay_domain command_hash_of
  replay_id_of c = json_hash crypto (replay_domain c.receipt_version) (
      dict
        (("pre_state_root", str c.expected_head) ∷ ("command_hash", str (command_hash_of c)) ∷ []))

  -- The effects of the intents from an index on.
  unfoldable pub plan_effects :
      ReceiptVersion → String → ℕ → List (String × Json) → List OutboxEffect
  unfolding effect_id_domain
  plan_effects version replay_id index [] = []
  plan_effects version replay_id index ((kind, payload) ∷ intents) =
      record {
        effect_id = json_hash crypto (effect_id_domain version) (
            dict (
              ("replay_id", str replay_id)
              ∷ ("index", nat index)
              ∷ ("kind", str kind)
              ∷ ("payload", payload)
              ∷ []));
        kind = kind;
        payload = payload;
      }
      ∷ plan_effects version replay_id (suc index) intents

  unfoldable pub effects_of : Candidate → List OutboxEffect
  unfolding replay_id_of
  effects_of c = plan_effects c.receipt_version (replay_id_of c) 0 c.outbox_intents

  unfoldable pub commit_root_of : Candidate → String
  unfolding commit_domain command_hash_of
  commit_root_of c = json_hash crypto (commit_domain c.receipt_version) (
      dict (
        ("expected_head", str c.expected_head)
        ∷ ("created_at", str c.created_at)
        ∷ ("command_hash", str (command_hash_of c))
        ∷ ("evidence_root", str c.evidence_root)
        ∷ ("objects", arr (tuple c.object_rows))
        ∷ ("blobs", arr (tuple c.blob_rows))
        ∷ ("outbox", rows effect_row (effects_of c))
        ∷ ("policy_version", str c.policy_version)
        ∷ ("core_version", str c.core_version)
        ∷ []))

  unfoldable pub receipt_of : Candidate → ReceiptDraft
  unfolding command_hash_of replay_id_of effect_plan_domain
  receipt_of c = record {
    version = c.receipt_version;
    pre_state_root = c.expected_head;
    command_hash = command_hash_of c;
    evidence_root = c.evidence_root;
    policy_version = c.policy_version;
    core_version = c.core_version;
    replay_id = replay_id_of c;
    next_state_root = commit_root_of c;
    effect_plan_hash =
        json_hash crypto (effect_plan_domain c.receipt_version) (rows effect_row (effects_of c));
  }

  unfoldable pub core_of : Candidate → List (String × Json)
  core_of c =
      record_core c.expected_head c.created_at c.object_rows c.blob_rows (effects_of c)
        (commit_root_of c) (receipt_of c)

  unfoldable pub record_hash_of : Candidate → String
  record_hash_of c = json_hash crypto "log-record/v2" (dict (core_of c))

  unfoldable pub derived_of : Candidate → Derived
  derived_of c = record {
    receipt = receipt_of c;
    outbox = effects_of c;
    commit_root = commit_root_of c;
    record_hash = record_hash_of c;
    row = dict (("record_hash", str (record_hash_of c)) ∷ core_of c);
  }

  -- `_derive_commit_record`, where `none` is the TypeError of `ReceiptDraft` for an empty version of the
  -- policy or the core; its other texts are hashes.
  unfoldable pub derive_commit_record : Candidate → Option Derived
  derive_commit_record c =
      if is_nonempty c.policy_version && is_nonempty c.core_version
      then some (derived_of c)
      else none
