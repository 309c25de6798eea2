-- ===== src/Market/Admit.antt =====
-- src/popperpad/core/market.py: the admission of a verifier receipt by the handlers of
-- `VerifySubmission` and `ResolveChallenge`.
use popper_pad.Prelude.{ℕ, not, ◌||◌, str_eq, contains, none, some, List, String, if◌then◌else◌}
use popper_pad.Codec.{Crypto}
use popper_pad.Verifier.{ed25519_verifier_ref}
use popper_pad.Market.Types.{BountyState, SubmissionState, ChallengeState, MarketPolicy}
use popper_pad.Market.Commands.{
  VerifySubmission, ResolveChallenge, SubmissionVerifierStatement, ChallengeVerifierStatement,
  VerifierStatement, MarketEvidence, RejectionCode, Admission, admitted, denied,
}
use popper_pad.Market.Evidence.{
  find_verifier_receipt, verify_receipt_authentication, submission_statement_eq,
  challenge_statement_eq, submission_verifier_statement, challenge_verifier_statement,
}

unfoldable pub deny : {A : Type 0} → RejectionCode → String → String → Admission A
deny code field reason = denied (record { code = code; field = field; reason = reason })

module _ (crypto : Crypto) where
  -- What `_admit_submission_receipt` does with a receipt that is found and authentic.
  unfoldable pub admit_submission_statement :
      BountyState
      → VerifySubmission
      → MarketPolicy
      → SubmissionState
      → List ℕ
      → VerifierStatement
      → Admission SubmissionVerifierStatement
  unfolding deny
  admit_submission_statement state command policy s public_key (VerifierStatement.challenge _) =
      deny RejectionCode.invalid_evidence "verifier_receipt" "wrong statement kind"
  admit_submission_statement state command policy s public_key
        (VerifierStatement.submission statement) =
      elim (ed25519_verifier_ref crypto public_key) [
        | none ↦
            deny RejectionCode.invalid_evidence "verifier_public_key"
              "Ed25519 public key must be exactly 32 bytes"
        | some verifier_ref ↦
            if not (
              submission_statement_eq statement
                (submission_verifier_statement crypto state command policy s))
            then deny RejectionCode.invalid_evidence "verifier_receipt"
                "statement is not bound to the exact state, policy, subject, and outcome"
            else if not (str_eq verifier_ref command.verifier_ref)
                || not (str_eq verifier_ref s.verifier_ref)
            then deny RejectionCode.invalid_evidence "verifier_ref"
                "signing key does not match command"
            else if not (contains state.terms.accepted_verifier_refs verifier_ref)
            then deny RejectionCode.policy_mismatch "verifier_ref" verifier_ref
            else admitted statement
      ]

  -- `_admit_submission_receipt`
  unfoldable pub admit_submission_receipt :
      BountyState
      → VerifySubmission
      → MarketPolicy
      → MarketEvidence
      → SubmissionState
      → Admission SubmissionVerifierStatement
  unfolding deny admit_submission_statement
  admit_submission_receipt state command policy evidence s =
      elim (find_verifier_receipt crypto evidence command.verifier_receipt_ref) [
        | none ↦
            deny RejectionCode.missing_evidence "verifier_receipt_ref" command.verifier_receipt_ref
        | some receipt ↦
            elim (verify_receipt_authentication crypto receipt command.verifier_receipt_ref) [
              | some error ↦ denied error
              | none ↦
                  admit_submission_statement state command policy s receipt.public_key
                    receipt.statement
            ]
      ]

  -- What `_admit_challenge_receipt` does with a receipt that is found and authentic.
  unfoldable pub admit_challenge_statement :
      BountyState
      → ResolveChallenge
      → MarketPolicy
      → ChallengeState
      → List ℕ
      → VerifierStatement
      → Admission ChallengeVerifierStatement
  unfolding deny
  admit_challenge_statement state command policy c public_key (VerifierStatement.submission _) =
      deny RejectionCode.invalid_evidence "verifier_receipt" "wrong statement kind"
  admit_challenge_statement state command policy c public_key
        (VerifierStatement.challenge statement) =
      elim (ed25519_verifier_ref crypto public_key) [
        | none ↦
            deny RejectionCode.invalid_evidence "verifier_public_key"
              "Ed25519 public key must be exactly 32 bytes"
        | some verifier_ref ↦
            if not (
              challenge_statement_eq statement
                (challenge_verifier_statement crypto state command policy c))
            then deny RejectionCode.invalid_evidence "verifier_receipt"
                "statement is not bound to the exact state, policy, subject, and outcome"
            else if not (str_eq verifier_ref command.verifier_ref)
            then deny RejectionCode.invalid_evidence "verifier_ref"
                "signing key does not match command"
            else if not (contains state.terms.accepted_verifier_refs verifier_ref)
            then deny RejectionCode.policy_mismatch "verifier_ref" verifier_ref
            else admitted statement
      ]

  -- `_admit_challenge_receipt`
  unfoldable pub admit_challenge_receipt :
      BountyState
      → ResolveChallenge
      → MarketPolicy
      → MarketEvidence
      → ChallengeState
      → Admission ChallengeVerifierStatement
  unfolding deny admit_challenge_statement
  admit_challenge_receipt state command policy evidence c =
      elim (find_verifier_receipt crypto evidence command.verifier_receipt_ref) [
        | none ↦
            deny RejectionCode.missing_evidence "verifier_receipt_ref" command.verifier_receipt_ref
        | some receipt ↦
            elim (verify_receipt_authentication crypto receipt command.verifier_receipt_ref) [
              | some error ↦ denied error
              | none ↦
                  admit_challenge_statement state command policy c receipt.public_key
                    receipt.statement
            ]
      ]
