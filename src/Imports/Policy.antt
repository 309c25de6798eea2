-- ===== src/Imports/Policy.antt =====
-- The trust policy of src/popperpad/core/imports.py, and what the shell has verified of a bundle.
use popper_pad.Prelude.{
  ℕ, ◌&&◌, ◌||◌, all, is_empty, is_nonempty, map, not, Bool, true, false, Option, none, some, List,
  String, ℤ, pos, ltb_ℤ,
}
use popper_pad.Market.Types.{valid_ref, valid_ref_or_none}
use popper_pad.Receipts.{sorted_unique, ref_tuple}

pub data ImportTruthMode : Type 0 where
  quarantined : ImportTruthMode
  trusted_receipt : ImportTruthMode

abbrev pub truth_mode_value : ImportTruthMode → String
truth_mode_value ImportTruthMode.quarantined = "quarantined"
truth_mode_value ImportTruthMode.trusted_receipt = "trusted_receipt"

abbrev pub is_trusted_receipt : ImportTruthMode → Bool
is_trusted_receipt ImportTruthMode.quarantined = false
is_trusted_receipt ImportTruthMode.trusted_receipt = true

pub data ImportAuthorityScope : Type 0 where
  scope_quarantined : ImportAuthorityScope
  scope_trusted_receipt : ImportAuthorityScope

abbrev pub authority_scope_value : ImportAuthorityScope → String
authority_scope_value ImportAuthorityScope.scope_quarantined = "import_quarantined"
authority_scope_value ImportAuthorityScope.scope_trusted_receipt = "import_trusted_receipt"

-- `TrustedSigner` and `TrustedVerifierV1`; the algorithm is always Ed25519.
pub record TrustedKey : Type 0 where
  pub key_id : String
  pub public_key : List ℕ

pub record AuthenticatedBundleSignatures : Type 0 where
  pub unsigned_bundle_root : String
  pub signer_key_ids : List String

-- `AuthenticatedBundleSignatures.__post_init__` raises nothing.
unfoldable pub signatures_built : AuthenticatedBundleSignatures → Bool
signatures_built a = valid_ref a.unsigned_bundle_root && ref_tuple a.signer_key_ids

pub record VerifiedImportProvenance : Type 0 where
  pub storage_adapters : List String
  pub anchor_adapters : List String
  pub receipt_refs : List String

-- `_require_sorted_unique_strings` raises nothing.
abbrev pub sorted_unique_strings : List String → Bool
sorted_unique_strings values = all is_nonempty values && sorted_unique values

-- `VerifiedImportProvenance.__post_init__` raises nothing.
unfoldable pub provenance_built : VerifiedImportProvenance → Bool
provenance_built p =
    sorted_unique_strings p.storage_adapters
    && (sorted_unique_strings p.anchor_adapters && ref_tuple p.receipt_refs)

pub record TrustPolicy : Type 0 where
  pub require_signatures : Bool
  pub require_bundle_root_match : Bool
  pub expected_bundle_root : Option String
  pub expected_previous_bundle_refs : Option (List String)
  pub trusted_signers : List TrustedKey
  pub minimum_signatures : ℤ
  pub accept_adapters : List String
  pub require_anchors : List String
  pub trusted_verifiers : List TrustedKey
  pub accept_verifier_versions : List String
  pub accept_receipt_policy_hashes : List String
  pub accept_toolchain_hashes : List String
  pub truth_mode : ImportTruthMode

abbrev pub key_ids : List TrustedKey → List String
key_ids keys = map (λ k. k.key_id) keys

abbrev pub optional_refs : Option (List String) → Bool
optional_refs none = true
optional_refs (some refs) = ref_tuple refs

-- `TrustPolicy.__post_init__` raises nothing.
unfoldable pub trust_policy_built : TrustPolicy → Bool
trust_policy_built p =
    valid_ref_or_none p.expected_bundle_root
    && (optional_refs p.expected_previous_bundle_refs
        && (sorted_unique (key_ids p.trusted_signers)
            && (not (ltb_ℤ p.minimum_signatures (pos 1))
                && (sorted_unique_strings p.accept_adapters
                    && (sorted_unique_strings p.require_anchors
                        && (sorted_unique (key_ids p.trusted_verifiers)
                            && (sorted_unique_strings p.accept_verifier_versions
                                && (ref_tuple p.accept_receipt_policy_hashes
                                    && (ref_tuple p.accept_toolchain_hashes
                                        && (not (is_trusted_receipt p.truth_mode)
                                            || (p.require_signatures
                                                && (not (is_empty p.trusted_verifiers)
                                                    && (not (is_empty p.accept_verifier_versions)
                                                        && (not (
                                                            is_empty p.accept_receipt_policy_hashes)
                                                            && not (
                                                            is_empty
                                                            p.accept_toolchain_hashes)))))))))))))))
