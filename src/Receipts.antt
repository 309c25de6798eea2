-- ===== src/Receipts.antt =====
-- src/popperpad/core/verifier_receipts.py: receipts of verifiers and their admission for one edge.
pub mod Laws
use popper_pad.Prelude.{
  ℕ, ◌==◌, ◌&&◌, all, contains, is_nonempty, not, Bool, true, false, Option, none, some, List, [],
  ◌∷◌, String, length, option_eq, set_of, sort_texts, str_eq, texts_eq, if◌then◌else◌,
}
use popper_pad.Values.{Json, str, obj, arr, dict, texts, text_or_null}
use popper_pad.Codec.{Crypto, json_hash, json_bytes, frame_bytes}
use popper_pad.Verifier.{hex}
use popper_pad.Result.{Checked, refuse_when, ◌>>◌}
use popper_pad.Market.Types.{valid_ref, valid_ref_or_none}

pub data VerifierResult : Type 0 where
  supports : VerifierResult
  refutes : VerifierResult

abbrev pub result_value : VerifierResult → String
result_value VerifierResult.supports = "supports"
result_value VerifierResult.refutes = "refutes"

abbrev pub result_eq : VerifierResult → VerifierResult → Bool
result_eq VerifierResult.supports VerifierResult.supports = true
result_eq VerifierResult.refutes VerifierResult.refutes = true
result_eq _ _ = false

-- `values == tuple(sorted(set(values)))`
unfoldable pub sorted_unique : List String → Bool
sorted_unique values = texts_eq values (sort_texts (set_of values))

-- `_require_ref_tuple` raises nothing.
abbrev pub ref_tuple : List String → Bool
ref_tuple values = all valid_ref values && sorted_unique values

pub record VerifierStatementV1 : Type 0 where
  pub claim_ref : String
  pub context_ref : Option String
  pub recipe_ref : String
  pub evidence_ref : String
  pub edge_ref : String
  pub input_roots : List String
  pub verifier_id : String
  pub verifier_version : String
  pub result : VerifierResult
  pub output_roots : List String
  pub policy_hash : String
  pub toolchain_hash : String

-- `VerifierStatementV1.__post_init__` raises nothing.
unfoldable pub statement_built : VerifierStatementV1 → Bool
statement_built s =
    all valid_ref (
      s.claim_ref ∷ s.recipe_ref ∷ s.evidence_ref ∷ s.edge_ref ∷ s.verifier_id ∷ s.policy_hash
      ∷ s.toolchain_hash ∷ [])
    && (valid_ref_or_none s.context_ref
        && (ref_tuple s.input_roots
            && (ref_tuple s.output_roots && is_nonempty s.verifier_version)))

-- The algorithm is always Ed25519.
pub record VerifierReceiptV1 : Type 0 where
  pub statement : VerifierStatementV1
  pub signer_key_id : String
  pub signature : List ℕ

-- `VerifierReceiptV1.__post_init__` raises nothing.
unfoldable pub receipt_built : VerifierReceiptV1 → Bool
receipt_built r =
    valid_ref r.signer_key_id
    && (str_eq r.signer_key_id r.statement.verifier_id && (length r.signature == 64))

pub record AuthenticatedVerifierReceiptV1 : Type 0 where
  pub receipt : VerifierReceiptV1
  pub receipt_root : String

pub record TruthReceiptBinding : Type 0 where
  pub claim_ref : String
  pub context_ref : Option String
  pub recipe_ref : String
  pub evidence_ref : String
  pub edge_ref : String
  pub input_roots : List String
  pub result : VerifierResult
  pub output_roots : List String

-- `verifier_statement_json`
unfoldable pub statement_json : VerifierStatementV1 → Json
statement_json s = dict (
    ("schema", str "popperpad/verifier-statement/v1")
    ∷ ("claim_ref", str s.claim_ref)
    ∷ ("context_ref", text_or_null s.context_ref)
    ∷ ("recipe_ref", str s.recipe_ref)
    ∷ ("evidence_ref", str s.evidence_ref)
    ∷ ("edge_ref", str s.edge_ref)
    ∷ ("input_roots", arr (texts s.input_roots))
    ∷ ("verifier_id", str s.verifier_id)
    ∷ ("verifier_version", str s.verifier_version)
    ∷ ("result", str (result_value s.result))
    ∷ ("output_roots", arr (texts s.output_roots))
    ∷ ("policy_hash", str s.policy_hash)
    ∷ ("toolchain_hash", str s.toolchain_hash)
    ∷ [])

-- `verifier_statement_signing_bytes`
unfoldable pub statement_signing_bytes : VerifierStatementV1 → List ℕ
statement_signing_bytes s = frame_bytes "verifier-statement/v1" (json_bytes (statement_json s))

abbrev pub body_fields : VerifierReceiptV1 → List (String × Json)
body_fields r =
    ("schema", str "popperpad/verifier-receipt/v1")
    ∷ ("algorithm", str "ed25519")
    ∷ ("signer_key_id", str r.signer_key_id)
    ∷ ("signature_hex", str (hex r.signature))
    ∷ ("statement", statement_json r.statement)
    ∷ []

-- The statement is the one that the binding asks for.
unfoldable pub binding_matches : VerifierStatementV1 → TruthReceiptBinding → Bool
binding_matches s b =
    str_eq s.claim_ref b.claim_ref
    && (option_eq s.context_ref b.context_ref
        && (str_eq s.recipe_ref b.recipe_ref
            && (str_eq s.evidence_ref b.evidence_ref
                && (str_eq s.edge_ref b.edge_ref
                    && (texts_eq s.input_roots b.input_roots
                        && (result_eq s.result b.result
                            && texts_eq s.output_roots b.output_roots))))))

-- The lists of a policy that `admit_authenticated_verifier_receipt` takes.
pub record ReceiptPolicy : Type 0 where
  pub trusted_verifier_ids : List String
  pub accepted_versions : List String
  pub accepted_policy_hashes : List String
  pub accepted_toolchain_hashes : List String

-- `_details(key=value)`
abbrev pub detail : String → String → Json
unfolding dict
detail key value = dict ((key, str value) ∷ [])

-- `admit_authenticated_verifier_receipt`: the statement that it accepts.
unfoldable pub admit_authenticated_verifier_receipt :
    AuthenticatedVerifierReceiptV1
    → TruthReceiptBinding
    → ReceiptPolicy
    → Checked VerifierStatementV1
admit_authenticated_verifier_receipt a binding policy = do
  refuse_when (not (contains policy.trusted_verifier_ids a.receipt.statement.verifier_id))
      "UNTRUSTED_VERIFIER" (detail "verifier_id" a.receipt.statement.verifier_id)
  refuse_when (not (contains policy.accepted_versions a.receipt.statement.verifier_version))
      "UNACCEPTED_VERIFIER_VERSION" (detail "verifier_version" a.receipt.statement.verifier_version)
  refuse_when (not (contains policy.accepted_policy_hashes a.receipt.statement.policy_hash))
      "RECEIPT_POLICY_MISMATCH" (detail "policy_hash" a.receipt.statement.policy_hash)
  refuse_when (not (contains policy.accepted_toolchain_hashes a.receipt.statement.toolchain_hash))
      "TOOLCHAIN_MISMATCH" (detail "toolchain_hash" a.receipt.statement.toolchain_hash)
  refuse_when (not (binding_matches a.receipt.statement binding)) "REPLAY_BINDING_MISMATCH"
      (detail "receipt_root" a.receipt_root)
  Checked.ok a.receipt.statement

module _ (crypto : Crypto) where
  -- `none` is the ValueError for a key that has not 32 bytes.
  unfoldable pub verifier_key_ref : List ℕ → Option String
  verifier_key_ref public_key =
      if length public_key == 32
      then some (
          json_hash crypto "verifier-signer-key/v1"
            (dict (("algorithm", str "ed25519") ∷ ("public_key_hex", str (hex public_key)) ∷ [])))
      else none

  unfoldable pub verifier_receipt_root : VerifierReceiptV1 → String
  verifier_receipt_root r = json_hash crypto "verifier-receipt/v1" (dict (body_fields r))

  unfoldable pub verifier_receipt_object : VerifierReceiptV1 → Json
  verifier_receipt_object r = dict (("receipt_root", str (verifier_receipt_root r)) ∷ body_fields r)

  -- `AuthenticatedVerifierReceiptV1.__post_init__` raises nothing.
  unfoldable pub authenticated_built : AuthenticatedVerifierReceiptV1 → Bool
  authenticated_built a =
      valid_ref a.receipt_root && str_eq a.receipt_root (verifier_receipt_root a.receipt)
