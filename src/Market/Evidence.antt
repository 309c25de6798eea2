-- ===== src/Market/Evidence.antt =====
-- src/popperpad/core/market.py: verifier receipts, their authentication, and their binding to
-- the state, the policy, the subject and the outcome of a command.
pub mod Binding
use popper_pad.Prelude.{
  ℕ, Bool, true, false, not, ◌&&◌, ◌||◌, str_eq, texts_eq, option_eq, length, set_of, contains,
  ◌==◌, Option, none, some, List, [], ◌∷◌, String, if◌then◌else◌,
}
use popper_pad.Codec.{Crypto}
use popper_pad.Verifier.{ed25519_verifier_ref, verify_ed25519_signature}
use popper_pad.Market.Types.{
  BountyState, SubmissionState, ChallengeState, MarketPolicy, SubmissionVerdict, ChallengeVerdict,
}
use popper_pad.Market.Commands.{
  VerifySubmission, ResolveChallenge, MarketCommand, SubmissionVerifierStatement,
  ChallengeVerifierStatement, VerifierStatement, VerifierReceipt, MarketEvidence, RejectionCode,
  Reject, MarketDecision, refuse,
}
use popper_pad.Market.Json.{
  market_state_hash, market_policy_hash, verifier_receipt_ref, verifier_statement_signing_bytes,
}
use popper_pad.Market.Lookup.{submission, challenge}

abbrev pub submission_verdict_eq : SubmissionVerdict → SubmissionVerdict → Bool
submission_verdict_eq SubmissionVerdict.accepted SubmissionVerdict.accepted = true
submission_verdict_eq SubmissionVerdict.rejected SubmissionVerdict.rejected = true
submission_verdict_eq _ _ = false

abbrev pub challenge_verdict_eq : ChallengeVerdict → ChallengeVerdict → Bool
challenge_verdict_eq ChallengeVerdict.upheld ChallengeVerdict.upheld = true
challenge_verdict_eq ChallengeVerdict.rejected ChallengeVerdict.rejected = true
challenge_verdict_eq _ _ = false

-- `==` of the two dataclasses.
unfoldable pub submission_statement_eq :
    SubmissionVerifierStatement → SubmissionVerifierStatement → Bool
submission_statement_eq a b =
    str_eq a.pre_state_hash b.pre_state_hash
    && (str_eq a.policy_hash b.policy_hash
        && (str_eq a.bounty_id b.bounty_id
            && (str_eq a.claim_ref b.claim_ref
                && (option_eq a.context_ref b.context_ref
                    && (str_eq a.submission_id b.submission_id
                        && (str_eq a.recipe_ref b.recipe_ref
                            && (texts_eq a.evidence_refs b.evidence_refs
                                && (texts_eq a.artifact_refs b.artifact_refs
                                    && submission_verdict_eq a.outcome b.outcome))))))))

unfoldable pub challenge_statement_eq :
    ChallengeVerifierStatement → ChallengeVerifierStatement → Bool
challenge_statement_eq a b =
    str_eq a.pre_state_hash b.pre_state_hash
    && (str_eq a.policy_hash b.policy_hash
        && (str_eq a.bounty_id b.bounty_id
            && (str_eq a.claim_ref b.claim_ref
                && (option_eq a.context_ref b.context_ref
                    && (str_eq a.challenge_id b.challenge_id
                        && (str_eq a.submission_id b.submission_id
                            && (str_eq a.finding_kind b.finding_kind
                                && (texts_eq a.evidence_refs b.evidence_refs
                                    && challenge_verdict_eq a.outcome b.outcome))))))))

abbrev pub submission_outcome : Bool → SubmissionVerdict
submission_outcome true = SubmissionVerdict.accepted
submission_outcome false = SubmissionVerdict.rejected

abbrev pub challenge_outcome : Bool → ChallengeVerdict
challenge_outcome true = ChallengeVerdict.upheld
challenge_outcome false = ChallengeVerdict.rejected

abbrev rejection : RejectionCode → String → String → Reject
rejection code field reason = record { code = code; field = field; reason = reason }

-- `_reject("INVALID_EVIDENCE", …)`
abbrev pub evidence_reject : String → String → Option MarketDecision
evidence_reject field reason = some (refuse RejectionCode.invalid_evidence field reason)

-- `if test: return _reject("INVALID_EVIDENCE", field, reason)`
unfoldable pub evidence_if : Bool → String → String → Option MarketDecision → Option MarketDecision
evidence_if true field reason rest = evidence_reject field reason
evidence_if false field reason rest = rest

module _ (crypto : Crypto) where
  unfoldable pub find_receipt : List VerifierReceipt → String → Option VerifierReceipt
  find_receipt [] ref = none
  find_receipt (r ∷ rs) ref =
      if str_eq (verifier_receipt_ref crypto r) ref then some r else find_receipt rs ref

  -- `_find_verifier_receipt`
  unfoldable pub find_verifier_receipt : MarketEvidence → String → Option VerifierReceipt
  unfolding find_receipt
  find_verifier_receipt evidence ref = find_receipt evidence.verifier_receipts ref

  -- `submission_verifier_statement`
  unfoldable pub submission_verifier_statement :
      BountyState → VerifySubmission → MarketPolicy → SubmissionState → SubmissionVerifierStatement
  submission_verifier_statement state command policy s = record {
    pre_state_hash = market_state_hash crypto state;
    policy_hash = market_policy_hash crypto policy;
    bounty_id = state.terms.bounty_id;
    claim_ref = state.terms.claim_ref;
    context_ref = state.terms.context_ref;
    submission_id = s.submission_id;
    recipe_ref = s.recipe_ref;
    evidence_refs = s.evidence_refs;
    artifact_refs = s.artifact_refs;
    outcome = submission_outcome command.accepted;
  }

  -- `challenge_verifier_statement`
  unfoldable pub challenge_verifier_statement :
      BountyState → ResolveChallenge → MarketPolicy → ChallengeState → ChallengeVerifierStatement
  challenge_verifier_statement state command policy c = record {
    pre_state_hash = market_state_hash crypto state;
    policy_hash = market_policy_hash crypto policy;
    bounty_id = state.terms.bounty_id;
    claim_ref = state.terms.claim_ref;
    context_ref = state.terms.context_ref;
    challenge_id = c.challenge_id;
    submission_id = c.submission_id;
    finding_kind = c.finding_kind;
    evidence_refs = c.evidence_refs;
    outcome = challenge_outcome command.upheld;
  }

  -- `_verify_receipt_authentication`
  unfoldable pub verify_receipt_authentication : VerifierReceipt → String → Option Reject
  verify_receipt_authentication receipt ref =
      if not (str_eq (verifier_receipt_ref crypto receipt) ref)
      then some
          (rejection RejectionCode.invalid_evidence "verifier_receipt_ref" "content ref mismatch")
      else if not (
          verify_ed25519_signature crypto receipt.public_key receipt.signature
            (verifier_statement_signing_bytes receipt.statement))
      then some
          (rejection RejectionCode.invalid_evidence "verifier_receipt" "invalid Ed25519 signature")
      else none

  unfoldable pub receipts_error : List VerifierReceipt → Option String
  unfolding verify_receipt_authentication
  receipts_error [] = none
  receipts_error (r ∷ rs) =
      let rest = receipts_error rs in
      elim (verify_receipt_authentication r (verifier_receipt_ref crypto r)) [
        | some e ↦ some e.reason
        | none ↦ rest
      ]

  unfoldable pub receipt_refs : List VerifierReceipt → List String
  receipt_refs [] = []
  receipt_refs (r ∷ rs) = verifier_receipt_ref crypto r ∷ receipt_refs rs

  -- `_validate_market_evidence`
  unfoldable pub validate_market_evidence : MarketEvidence → Option String
  unfolding receipts_error receipt_refs
  validate_market_evidence evidence =
      let refs = receipt_refs evidence.verifier_receipts in
      elim (receipts_error evidence.verifier_receipts) [
        | some e ↦ some e
        | none ↦
            if length (set_of refs) == length refs
            then none
            else some "verifier receipt refs must be unique"
      ]

  -- The tests of `_validate_command_evidence_binding` on the key that signed.
  unfoldable pub submission_key_binding :
      VerifySubmission → Option SubmissionState → List ℕ → Option MarketDecision
  submission_key_binding command found public_key = elim (ed25519_verifier_ref crypto public_key) [
    | none ↦ some (MarketDecision.raised "Ed25519 public key must be exactly 32 bytes")
    | some verifier_ref ↦
        evidence_if
          (not (str_eq verifier_ref command.verifier_ref)
            || elim found [ none ↦ false | some s ↦ not (str_eq verifier_ref s.verifier_ref) ])
          "verifier_ref" "signing key does not match command" none
  ]

  unfoldable pub challenge_key_binding : ResolveChallenge → List ℕ → Option MarketDecision
  challenge_key_binding command public_key = elim (ed25519_verifier_ref crypto public_key) [
    | none ↦ some (MarketDecision.raised "Ed25519 public key must be exactly 32 bytes")
    | some verifier_ref ↦
        evidence_if (not (str_eq verifier_ref command.verifier_ref)) "verifier_ref"
          "signing key does not match command" none
  ]

  -- The branch of `_validate_command_evidence_binding` for `VerifySubmission`.
  unfoldable pub submission_binding :
      BountyState
      → VerifySubmission
      → MarketPolicy
      → List ℕ
      → VerifierStatement
      → Option MarketDecision
  unfolding submission_key_binding
  submission_binding state command policy public_key (VerifierStatement.challenge _) =
      evidence_reject "verifier_receipt" "wrong statement kind"
  submission_binding state command policy public_key (VerifierStatement.submission statement) =
      let found = submission state command.submission_id in
      evidence_if
        (not (str_eq statement.pre_state_hash (market_state_hash crypto state))
          || (not (str_eq statement.policy_hash (market_policy_hash crypto policy))
              || (not (str_eq statement.bounty_id state.terms.bounty_id)
                  || (not (str_eq statement.claim_ref state.terms.claim_ref)
                      || (not (option_eq statement.context_ref state.terms.context_ref)
                          || (not (str_eq statement.submission_id command.submission_id)
                              || not (
                                  submission_verdict_eq statement.outcome
                                    (submission_outcome command.accepted))))))))
        "verifier_receipt"
        "statement is not bound to the current state, policy, command, and outcome"
        (evidence_if
          (elim found [
            | none ↦ false
            | some s ↦ not (
                submission_statement_eq statement
                  (submission_verifier_statement state command policy s))
          ])
          "verifier_receipt" "statement is not bound to the exact submission"
          (submission_key_binding command found public_key))

  -- The branch of `_validate_command_evidence_binding` for `ResolveChallenge`.
  unfoldable pub challenge_binding :
      BountyState
      → ResolveChallenge
      → MarketPolicy
      → List ℕ
      → VerifierStatement
      → Option MarketDecision
  unfolding challenge_key_binding
  challenge_binding state command policy public_key (VerifierStatement.submission _) =
      evidence_reject "verifier_receipt" "wrong statement kind"
  challenge_binding state command policy public_key (VerifierStatement.challenge statement) =
      evidence_if
        (not (str_eq statement.pre_state_hash (market_state_hash crypto state))
          || (not (str_eq statement.policy_hash (market_policy_hash crypto policy))
              || (not (str_eq statement.bounty_id state.terms.bounty_id)
                  || (not (str_eq statement.claim_ref state.terms.claim_ref)
                      || (not (option_eq statement.context_ref state.terms.context_ref)
                          || (not (str_eq statement.challenge_id command.challenge_id)
                              || not (
                                  challenge_verdict_eq statement.outcome
                                    (challenge_outcome command.upheld))))))))
        "verifier_receipt"
        "statement is not bound to the current state, policy, command, and outcome"
        (evidence_if
          (elim (challenge state command.challenge_id) [
            | none ↦ false
            | some c ↦ not (
                challenge_statement_eq statement
                  (challenge_verifier_statement state command policy c))
          ])
          "verifier_receipt" "statement is not bound to the exact challenge"
          (challenge_key_binding command public_key))

  -- `_validate_command_evidence_binding`, where `none` lets the command pass.
  unfoldable pub validate_command_evidence_binding :
      BountyState → MarketCommand → MarketPolicy → MarketEvidence → Option MarketDecision
  unfolding submission_binding challenge_binding
  validate_command_evidence_binding state (MarketCommand.verify_submission c) policy evidence =
      elim (find_verifier_receipt evidence c.verifier_receipt_ref) [
        | none ↦ none
        | some receipt ↦ submission_binding state c policy receipt.public_key receipt.statement
      ]
  validate_command_evidence_binding state (MarketCommand.resolve_challenge c) policy evidence =
      elim (find_verifier_receipt evidence c.verifier_receipt_ref) [
        | none ↦ none
        | some receipt ↦ challenge_binding state c policy receipt.public_key receipt.statement
      ]
  validate_command_evidence_binding state _ policy evidence = none
