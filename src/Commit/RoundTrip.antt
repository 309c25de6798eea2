-- ===== src/Commit/RoundTrip.antt =====
-- What `_plan_commit` builds in src/popperpad/core/commit.py passes `validate_commit_bundle`.
use mathlib.Core.Path.{ap₂}
use popper_pad.Prelude.{
  ℕ, suc, ◌≡◌, refl, ap, ◌∙◌, sym, subst, is_nonempty, map, not, true, false, and-intro, List, [],
  ◌∷◌, ◌++◌, String, str_eq, str_eq_refl, All, map-append,
}
use popper_pad.Values.{Json, dict}
use popper_pad.Values.Equality.{json_eq_refl}
use popper_pad.Codec.{Crypto, sha256_bytes, json_hash, frame_sha256}
use popper_pad.Result.{Checked, when-pass, bind-pass}
use popper_pad.Market.Types.{valid_ref}
use popper_pad.Market.Ids.{Distinct, Distinct-is_unique}
use popper_pad.Market.Invariants.Relations.{is_unique}
use popper_pad.Commit.Types.{
  ObjectWrite, BlobWrite, ReceiptVersion, CommitBundle, object_row, blob_row,
}
use popper_pad.Commit.Derive.{
  plan_effects, effects_of, commit_root_of, receipt_of, core_of, record_hash_of, derived_of,
}
use popper_pad.Commit.Parse.{parse_object_rows, parse_blob_rows, parse_outbox_rows, get}
use popper_pad.Commit.Validate.{
  parse_record, validate_commit_record, same_field, bundle_agrees, validate_commit_bundle,
}
use popper_pad.Commit.Plan.{Planned, Request, Collected, candidate_of, bundle_of, plan_request}
use popper_pad.Commit.Rows.{
  IsObjectWrite, IsBlobWrite, IsEffect, object_entry, blob_entry, parse_writes-object_row,
  parse_writes-blob_row, parse_intents-effect_row, refs-entries,
}
use popper_pad.Commit.Records.{IsReceipt, IsRecord, parse_record-record_core}
use popper_pad.Commit.Writes.{IsIntent}
use popper_pad.Commit.Collected.{
  IsCollected, collect_writes-IsCollected, or_none, content_any, derive_again-some,
  plan_request-bundle,
}

module _ (crypto : Crypto) where
  module _ (is_hash : (bytes : List ℕ) → valid_ref (sha256_bytes crypto bytes) ≡ true) where
    object_writes :
        (ws : List ObjectWrite)
        → All (λ x. x.ref ≡ sha256_bytes crypto x.payload) ws
        → All (λ x. is_nonempty x.schema ≡ true) ws
        → All IsObjectWrite ws
    object_writes [] content named = tt
    object_writes (w ∷ ws) content named = (
      record { hashed = ap valid_ref content.0 ∙ is_hash w.payload; named = named.0 },
      object_writes ws content.1 named.1,
    )

    blob_writes :
        (ws : List BlobWrite)
        → All (λ x. x.ref ≡ sha256_bytes crypto x.payload) ws
        → All (λ x. is_nonempty x.media_type ≡ true) ws
        → All IsBlobWrite ws
    blob_writes [] content named = tt
    blob_writes (w ∷ ws) content named = (
      record { hashed = ap valid_ref content.0 ∙ is_hash w.payload; named = named.0 },
      blob_writes ws content.1 named.1,
    )

    hash_valid : (domain : String) (v : Json) → valid_ref (json_hash crypto domain v) ≡ true
    unfolding json_hash frame_sha256
    hash_valid domain v = is_hash _

    plan_effects-IsEffect :
        (version : ReceiptVersion) (replay_id : String) (index : ℕ) (intents : List (String × Json))
        → All IsIntent intents
        → All IsEffect (plan_effects crypto version replay_id index intents)
          × (map (λ e. (e.kind, e.payload)) (plan_effects crypto version replay_id index intents)
              ≡ intents)
    unfolding plan_effects
    plan_effects-IsEffect version replay_id index [] h = (tt, refl)
    plan_effects-IsEffect version replay_id index ((kind, payload) ∷ intents) h =
        let (later, same) = plan_effects-IsEffect version replay_id (suc index) intents h.1 in
        (
          (record { hashed = hash_valid _ _; named = h.0.0; mapping = h.0.1 }, later),
          ap (◌∷◌ (kind, payload)) same,
        )

    IsReceipt-receipt_of :
        (r : Request) (w : Collected)
        → IsCollected crypto r w
        → is_nonempty r.policy_version ≡ true
        → is_nonempty r.core_version ≡ true
        → IsReceipt (receipt_of crypto (candidate_of r w))
    unfolding receipt_of candidate_of commit_root_of
    IsReceipt-receipt_of r w h policy core = record {
      current = refl;
      pre_state = h.started;
      evidence = h.evidence;
      command = hash_valid _ _;
      replay = hash_valid _ _;
      next = hash_valid _ _;
      plan = hash_valid _ _;
      policy = policy;
      core = core;
    }

    entries_unique :
        (r : Request) (w : Collected)
        → IsCollected crypto r w
        → is_unique (map (λ x. x.0) (map object_entry w.objects ++ map blob_entry w.blobs)) ≡ true
    entries_unique r w h = Distinct-is_unique _ (
        subst Distinct
          (sym (
            map-append (λ x. x.0) (map object_entry w.objects) (map blob_entry w.blobs)
            ∙ ap₂ ◌++◌ (refs-entries (λ x. x.ref) object_row w.objects).0
                (refs-entries (λ x. x.ref) blob_row w.blobs).0))
          h.distinct)

    IsRecord-candidate :
        (r : Request) (w : Collected)
        → IsCollected crypto r w
        → is_nonempty r.policy_version ≡ true
        → is_nonempty r.core_version ≡ true
        → IsRecord r.created_at r.expected_head
            (commit_root_of crypto (candidate_of r w))
            (record_hash_of crypto (candidate_of r w))
            (map object_row w.objects)
            (map blob_row w.blobs)
            (effects_of crypto (candidate_of r w))
            (receipt_of crypto (candidate_of r w))
            (map object_entry w.objects)
            (map blob_entry w.blobs)
            r.outbox
    unfolding commit_root_of record_hash_of candidate_of effects_of parse_object_rows
        parse_blob_rows parse_outbox_rows
    IsRecord-candidate r w h policy core = record {
      created = h.created;
      started = h.started;
      rooted = hash_valid _ _;
      hashed = hash_valid _ _;
      objects_read =
          parse_writes-object_row 0 w.objects
            (object_writes w.objects h.object_content h.object_named);
      blobs_read =
          parse_writes-blob_row 0 w.blobs (blob_writes w.blobs h.blob_content h.blob_named);
      unique = entries_unique r w h;
      outbox_read =
          (let (good, same) = plan_effects-IsEffect ReceiptVersion.v2 _ 0 r.outbox h.intents in
            parse_intents-effect_row 0 _ good ∙ ap Checked.ok same);
      receipt_read = IsReceipt-receipt_of r w h policy core;
    }

    parse_record-derived_of :
        (r : Request) (w : Collected)
        → IsCollected crypto r w
        → is_nonempty r.policy_version ≡ true
        → is_nonempty r.core_version ≡ true
        → parse_record false (derived_of crypto (candidate_of r w)).row
          ≡ Checked.ok (candidate_of r w)
    unfolding derived_of core_of candidate_of receipt_of
    parse_record-derived_of r w h policy core =
        parse_record-record_core _ _ _ _ _ _ _ _ _ _ _ (IsRecord-candidate r w h policy core)
        ∙ ap₂
            (λ os bs. Checked.ok (record {
              receipt_version = ReceiptVersion.v2;
              expected_head = r.expected_head;
              created_at = r.created_at;
              object_rows = os;
              blob_rows = bs;
              outbox_intents = r.outbox;
              evidence_root = r.evidence_root;
              policy_version = r.policy_version;
              core_version = r.core_version;
            }))
            (refs-entries (λ x. x.ref) object_row w.objects).1
            (refs-entries (λ x. x.ref) blob_row w.blobs).1

    bundle_of-agrees :
        (r : Request) (w : Collected)
        → bundle_agrees (bundle_of r w (derived_of crypto (candidate_of r w))) (record {
          expected_head = r.expected_head;
          receipt_version = ReceiptVersion.v2;
          record_hash = record_hash_of crypto (candidate_of r w);
          row = (derived_of crypto (candidate_of r w)).row;
        })
          ≡ true
    unfolding bundle_agrees same_field get derived_of core_of candidate_of dict str_eq
    bundle_of-agrees r w = and-intro _ _ (str_eq_refl _) (
        and-intro _ _ (json_eq_refl _) (
          and-intro _ _ (str_eq_refl _) (
            and-intro _ _ (json_eq_refl _)
              (and-intro _ _ (json_eq_refl _) (and-intro _ _ (json_eq_refl _) (json_eq_refl _))))))

    validate-derived_of :
        (r : Request) (w : Collected)
        → IsCollected crypto r w
        → is_nonempty r.policy_version ≡ true
        → is_nonempty r.core_version ≡ true
        → validate_commit_record crypto (derived_of crypto (candidate_of r w)).row false
          ≡ Checked.ok (record {
            expected_head = r.expected_head;
            receipt_version = ReceiptVersion.v2;
            record_hash = (derived_of crypto (candidate_of r w)).record_hash;
            row = (derived_of crypto (candidate_of r w)).row;
          })
    unfolding validate_commit_record candidate_of
    validate-derived_of r w h policy core =
        bind-pass _ _ _ (parse_record-derived_of r w h policy core)
        ∙ bind-pass _ _ _ (derive_again-some crypto r w policy core)
        ∙ when-pass _ _ _ _ (ap not (json_eq_refl _))

    derived_passes :
        (r : Request) (w : Collected)
        → IsCollected crypto r w
        → is_nonempty r.policy_version ≡ true
        → is_nonempty r.core_version ≡ true
        → validate_commit_bundle crypto (bundle_of r w (derived_of crypto (candidate_of r w)))
          ≡ Checked.ok (record {
            expected_head = r.expected_head;
            receipt_version = ReceiptVersion.v2;
            record_hash = (derived_of crypto (candidate_of r w)).record_hash;
            row = (derived_of crypto (candidate_of r w)).row;
          })
    unfolding validate_commit_bundle derived_of
    derived_passes r w h policy core =
        bind-pass _ _ _ (validate-derived_of r w h policy core)
        ∙ when-pass _ _ _ _ (
            or_none (content_any crypto (λ x. x.ref) (λ x. x.payload) w.objects h.object_content)
              (content_any crypto (λ x. x.ref) (λ x. x.payload) w.blobs h.blob_content))
        ∙ when-pass _ _ _ _ (ap not (bundle_of-agrees r w))

    -- Where hashes are well-formed refs, each bundle that `_plan_commit` returns passes
    -- `validate_commit_bundle`, as a record of the second receipt version on the expected head.
    pub plan_request-validate_commit_bundle :
        (r : Request) (b : CommitBundle)
        → plan_request crypto r ≡ Planned.bundle b
        → validate_commit_bundle crypto b
          ≡ Checked.ok (record {
            expected_head = r.expected_head;
            receipt_version = ReceiptVersion.v2;
            record_hash = b.record_hash;
            row = b.row;
          })
    plan_request-validate_commit_bundle r b h =
        let (w, collected, policy, core, same) = plan_request-bundle crypto r b h in
        subst
          (λ x.
            validate_commit_bundle crypto x
            ≡ Checked.ok (record {
              expected_head = r.expected_head;
              receipt_version = ReceiptVersion.v2;
              record_hash = x.record_hash;
              row = x.row;
            }))
          same (derived_passes r w (collect_writes-IsCollected crypto r w collected) policy core)
