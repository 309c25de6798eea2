-- ===== src/Imports/Admission.antt =====
-- `admit_bundle_import` of src/popperpad/core/imports.py, with its plan and receipt.
use popper_pad.Prelude.{
  ℕ, ◌==◌, ◌&&◌, all, contains, is_empty, keep, not, Bool, true, false, Option, none, some, List,
  [], ◌∷◌, String, ◌⊕◌, length, option_eq, sort_texts, str_eq, texts_eq, pos, ltb_ℤ, if◌then◌else◌,
}
use popper_pad.Values.{Json, null, bool, int, str, arr, dict, texts, text_or_null, nat}
use popper_pad.Codec.{Crypto, json_hash, json_bytes, frame_bytes}
use popper_pad.Verifier.{hex}
use popper_pad.Result.{Checked, refuse_when, ◌>>◌, reason}
use popper_pad.Market.Types.{valid_ref}
use popper_pad.Receipts.{sorted_unique, detail, verifier_key_ref}
use popper_pad.Imports.Policy.{
  ImportTruthMode, truth_mode_value, ImportAuthorityScope, TrustedKey,
  AuthenticatedBundleSignatures, VerifiedImportProvenance, TrustPolicy, key_ids,
}

pub record ImportPlan : Type 0 where
  pub bundle_root : String
  pub evidence_root : String
  pub policy_hash : String
  pub policy_version : String
  pub authority_scope : ImportAuthorityScope

pub record ImportAdmissionReceipt : Type 0 where
  pub bundle_root : String
  pub unsigned_bundle_root : String
  pub policy_hash : String
  pub signer_key_ids : List String
  pub provenance_receipt_refs : List String
  pub truth_mode : ImportTruthMode

-- What `Accept` carries.
pub record Admission : Type 0 where
  pub plan : ImportPlan
  pub receipt : ImportAdmissionReceipt

-- The arguments of `admit_bundle_import`.
pub record ImportRequest : Type 0 where
  pub bundle_root : String
  pub unsigned_bundle_root : String
  pub content_root : String
  pub authenticated_signatures : AuthenticatedBundleSignatures
  pub previous_bundle_refs : List String
  pub policy : TrustPolicy
  pub provenance : VerifiedImportProvenance

abbrev pub optional_texts : Option (List String) → Json
optional_texts none = null
optional_texts (some refs) = arr (texts refs)

-- `_details(key=values)`
abbrev pub details_of : String → List String → Json
unfolding dict
details_of key values = dict ((key, arr (texts values)) ∷ [])

abbrev pub compared : Json → Json → Json
unfolding dict
compared expected actual = dict (("expected", expected) ∷ ("actual", actual) ∷ [])

-- The texts that are not in a list.
abbrev pub outside : List String → List String → List String
outside accepted values = keep (λ v. not (contains accepted v)) values

-- The policy expects other predecessors.
unfoldable pub predecessors_differ : Option (List String) → List String → Bool
predecessors_differ none refs = false
predecessors_differ (some expected) refs = not (texts_eq expected refs)

-- The policy expects another root.
unfoldable pub root_differs : Option String → String → Bool
root_differs none root = false
root_differs (some expected) root = not (str_eq expected root)

abbrev pub is_missing : Option String → Bool
is_missing none = true
is_missing (some _) = false

abbrev pub scope_of : ImportTruthMode → ImportAuthorityScope
scope_of ImportTruthMode.trusted_receipt = ImportAuthorityScope.scope_trusted_receipt
scope_of ImportTruthMode.quarantined = ImportAuthorityScope.scope_quarantined

-- The version text of a policy, before its hash.
abbrev pub version_prefix : ImportTruthMode → String
version_prefix ImportTruthMode.trusted_receipt = "popperpad-import-policy/v2/trusted-receipt"
version_prefix ImportTruthMode.quarantined = "popperpad-import-policy/v2/quarantined"

-- The tests of `admit_bundle_import`, in its order.
unfoldable pub admit_checks : ImportRequest → Checked (Unit {0})
admit_checks r = do
  refuse_when (not (valid_ref r.bundle_root)) "INVALID_BUNDLE_ROOT"
      (detail "bundle_root" r.bundle_root)
  refuse_when (not (valid_ref r.unsigned_bundle_root)) "INVALID_UNSIGNED_BUNDLE_ROOT"
      (detail "unsigned_bundle_root" r.unsigned_bundle_root)
  refuse_when (not (valid_ref r.content_root)) "INVALID_CONTENT_ROOT"
      (detail "content_root" r.content_root)
  refuse_when (not (all valid_ref r.previous_bundle_refs)) "INVALID_PREVIOUS_BUNDLE_REFS"
      (reason "must contain sha256 refs")
  refuse_when (not (sorted_unique r.previous_bundle_refs)) "INVALID_PREVIOUS_BUNDLE_REFS"
      (reason "not sorted unique")
  refuse_when (r.policy.require_bundle_root_match && is_missing r.policy.expected_bundle_root)
      "EXPECTED_BUNDLE_ROOT_REQUIRED" (reason "policy requires an independently obtained root")
  refuse_when
      (r.policy.require_bundle_root_match
        && root_differs r.policy.expected_bundle_root r.bundle_root)
      "BUNDLE_ROOT_MISMATCH"
      (compared (text_or_null r.policy.expected_bundle_root) (str r.bundle_root))
  refuse_when (not (str_eq r.authenticated_signatures.unsigned_bundle_root r.unsigned_bundle_root))
      "SIGNATURE_ROOT_MISMATCH"
      (compared (str r.unsigned_bundle_root) (str r.authenticated_signatures.unsigned_bundle_root))
  refuse_when (predecessors_differ r.policy.expected_previous_bundle_refs r.previous_bundle_refs)
      "REPLAY_PREDECESSOR_MISMATCH"
      (compared (optional_texts r.policy.expected_previous_bundle_refs)
        (arr (texts r.previous_bundle_refs)))
  refuse_when
      (not (
        is_empty
          (outside (key_ids r.policy.trusted_signers) r.authenticated_signatures.signer_key_ids)))
      "UNKNOWN_SIGNER"
      (details_of "key_ids"
        (outside (key_ids r.policy.trusted_signers) r.authenticated_signatures.signer_key_ids))
  refuse_when
      (r.policy.require_signatures
        && ltb_ℤ (pos (length r.authenticated_signatures.signer_key_ids))
            r.policy.minimum_signatures)
      "SIGNATURE_THRESHOLD_NOT_MET"
      (dict (
        ("required", int r.policy.minimum_signatures)
        ∷ ("admitted", nat (length r.authenticated_signatures.signer_key_ids))
        ∷ []))
  refuse_when (not (is_empty r.policy.accept_adapters) && is_empty r.provenance.storage_adapters)
      "ACCEPTED_ADAPTER_REQUIRED" (details_of "accepted" r.policy.accept_adapters)
  refuse_when
      (not (is_empty r.policy.accept_adapters)
        && not (is_empty (outside r.policy.accept_adapters r.provenance.storage_adapters)))
      "UNACCEPTED_ADAPTER"
      (details_of "adapters" (outside r.policy.accept_adapters r.provenance.storage_adapters))
  refuse_when (not (is_empty (outside r.provenance.anchor_adapters r.policy.require_anchors)))
      "REQUIRED_ANCHOR_MISSING"
      (details_of "anchors" (outside r.provenance.anchor_adapters r.policy.require_anchors))

module _ (crypto : Crypto) where
  -- `none` is the ValueError for a key that has not 32 bytes.
  unfoldable pub bundle_signer_ref : List ℕ → Option String
  bundle_signer_ref public_key =
      if length public_key == 32
      then some (
          json_hash crypto "bundle-import-signer-key/v1"
            (dict (("algorithm", str "ed25519") ∷ ("public_key_hex", str (hex public_key)) ∷ [])))
      else none

  -- The constructors of `TrustedSigner` and `TrustedVerifierV1` raise nothing.
  unfoldable pub signer_built : TrustedKey → Bool
  signer_built k = option_eq (bundle_signer_ref k.public_key) (some k.key_id)

  unfoldable pub verifier_built : TrustedKey → Bool
  verifier_built k = option_eq (verifier_key_ref crypto k.public_key) (some k.key_id)

  -- `TrustPolicy.hash`
  unfoldable pub policy_hash_of : TrustPolicy → String
  policy_hash_of p = json_hash crypto "bundle-import-policy/v1" (
      dict (
        ("require_signatures", bool p.require_signatures)
        ∷ ("require_bundle_root_match", bool p.require_bundle_root_match)
        ∷ ("expected_bundle_root", text_or_null p.expected_bundle_root)
        ∷ ("expected_previous_bundle_refs", optional_texts p.expected_previous_bundle_refs)
        ∷ ("trusted_signer_ids", arr (texts (key_ids p.trusted_signers)))
        ∷ ("minimum_signatures", int p.minimum_signatures)
        ∷ ("accept_adapters", arr (texts p.accept_adapters))
        ∷ ("require_anchors", arr (texts p.require_anchors))
        ∷ ("truth_mode", str (truth_mode_value p.truth_mode))
        ∷ ("trusted_verifier_ids", arr (texts (key_ids p.trusted_verifiers)))
        ∷ ("accept_verifier_versions", arr (texts p.accept_verifier_versions))
        ∷ ("accept_receipt_policy_hashes", arr (texts p.accept_receipt_policy_hashes))
        ∷ ("accept_toolchain_hashes", arr (texts p.accept_toolchain_hashes))
        ∷ []))

  unfoldable pub plan_of : ImportRequest → ImportPlan
  plan_of r = record {
    bundle_root = r.bundle_root;
    evidence_root = r.bundle_root;
    policy_hash = policy_hash_of r.policy;
    policy_version = version_prefix r.policy.truth_mode ⊕ ("/" ⊕ policy_hash_of r.policy);
    authority_scope = scope_of r.policy.truth_mode;
  }

  unfoldable pub receipt_of_import : ImportRequest → ImportAdmissionReceipt
  receipt_of_import r = record {
    bundle_root = r.bundle_root;
    unsigned_bundle_root = r.unsigned_bundle_root;
    policy_hash = policy_hash_of r.policy;
    signer_key_ids = sort_texts r.authenticated_signatures.signer_key_ids;
    provenance_receipt_refs = r.provenance.receipt_refs;
    truth_mode = r.policy.truth_mode;
  }

  unfoldable pub admit_bundle_import : ImportRequest → Checked Admission
  admit_bundle_import r = do
    admit_checks r
    Checked.ok (record { plan = plan_of r; receipt = receipt_of_import r })

-- `bundle_signature_message`, for a root that is a ref.
unfoldable pub bundle_signature_message : String → List ℕ
bundle_signature_message unsigned_bundle_root = frame_bytes "bundle-import-signature/v1" (
    json_bytes (
      dict (
        ("schema", str "popperpad/bundle-signature-statement/v1")
        ∷ ("unsigned_bundle_root", str unsigned_bundle_root)
        ∷ [])))
