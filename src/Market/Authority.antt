-- ===== src/Market/Authority.antt =====
-- The receipts of verifiers behind the verdicts of src/popperpad/core/market.py.
mod Statements
use popper_pad.Market.Authority.Statements.{submission_statement_eq-eq, challenge_statement_eq-eq}
use popper_pad.Prelude.{
  ◌≡◌, refl, true, Option, none, some, List, String, contains, arith, str_eq-eq, Option-cases, inl,
  inr, texts_eq, option_eq, and-true, ap, ◌∙◌, [], ◌∷◌,
}
use popper_pad.Codec.{Crypto}
use popper_pad.Verifier.{ed25519_verifier_ref, verify_ed25519_signature}
use popper_pad.Market.Types.{
  SubmissionVerdict, ChallengeVerdict, BountyState, SubmissionState, ChallengeState, MarketPolicy,
}
use popper_pad.Market.Commands.{
  VerifySubmission, ResolveChallenge, SubmissionVerifierStatement, ChallengeVerifierStatement,
  VerifierStatement, VerifierReceipt, MarketCommand, MarketEvidence, Commit, committed, admitted,
}
use popper_pad.Market.Json.{verifier_statement_signing_bytes}
use popper_pad.Market.Evidence.{
  submission_verdict_eq, challenge_verdict_eq, find_verifier_receipt, verify_receipt_authentication,
  submission_statement_eq, submission_verifier_statement, challenge_statement_eq,
  challenge_verifier_statement,
}
use popper_pad.Market.Lookup.{submission, challenge}
use popper_pad.Market.Commits.{accept-OnCommit, failure-OnCommit, if-OnCommit, apply-OnCommit}
use popper_pad.Market.Guards.Submissions.{verify_submission-OnCommit}
use popper_pad.Market.Guards.Challenges.{resolve_challenge-OnCommit}
use popper_pad.Market.Handlers.Submissions.{commit_verdict}
use popper_pad.Market.Handlers.Challenges.{commit_upheld, commit_dismissed}
use popper_pad.Market.Apply.{dispatch, apply_market_command}
use popper_pad.Market.Admit.{
  deny, admit_submission_statement, admit_submission_receipt, admit_challenge_statement,
  admit_challenge_receipt,
}

-- A receipt that is signed by a key of the accepted verifiers, the verifier that is named.
pub record IsSigned (crypto : Crypto) (state : BountyState) (verifier : String)
    (receipt : VerifierReceipt) : Type 0 where
  pub signed :
      verify_ed25519_signature crypto receipt.public_key receipt.signature
        (verifier_statement_signing_bytes receipt.statement)
      ≡ true
  pub by : ed25519_verifier_ref crypto receipt.public_key ≡ some verifier
  pub accepted : contains state.terms.accepted_verifier_refs verifier ≡ true

-- The evidence holds a receipt with this reference, and it is signed and makes this statement.
pub record HasReceipt (crypto : Crypto) (state : BountyState) (evidence : MarketEvidence)
    (ref verifier : String) (statement : VerifierStatement) : Type 0 where
  pub receipt : VerifierReceipt
  pub is_found : find_verifier_receipt crypto evidence ref ≡ some receipt
  pub states : receipt.statement ≡ statement
  pub is_signed : IsSigned crypto state verifier receipt

-- The evidence holds a receipt for the verdict on a submission of the state.
abbrev pub HasVerdict :
    Crypto → BountyState → VerifySubmission → MarketPolicy → MarketEvidence → Type 0
HasVerdict crypto state command policy evidence =
    (s : SubmissionState) × (submission state command.submission_id ≡ some s)
    × HasReceipt crypto state evidence command.verifier_receipt_ref command.verifier_ref
        (VerifierStatement.submission (submission_verifier_statement crypto state command policy s))

-- The evidence holds a receipt for the verdict on a challenge of the state.
abbrev pub HasRuling :
    Crypto → BountyState → ResolveChallenge → MarketPolicy → MarketEvidence → Type 0
HasRuling crypto state command policy evidence =
    (c : ChallengeState) × (challenge state command.challenge_id ≡ some c)
    × HasReceipt crypto state evidence command.verifier_receipt_ref command.verifier_ref
        (VerifierStatement.challenge (challenge_verifier_statement crypto state command policy c))

module _ (crypto : Crypto) (state : BountyState) where
  authentication-signed :
      (receipt : VerifierReceipt) (ref : String)
      → verify_receipt_authentication crypto receipt ref ≡ none
      → verify_ed25519_signature crypto receipt.public_key receipt.signature
          (verifier_statement_signing_bytes receipt.statement)
        ≡ true
  unfolding verify_receipt_authentication
  authentication-signed receipt ref h = ground arith

  admit_submission_statement-by :
      (command : VerifySubmission) (policy : MarketPolicy) (s : SubmissionState)
      (receipt : VerifierReceipt) (statement : SubmissionVerifierStatement)
      (given : VerifierStatement)
      → admit_submission_statement crypto state command policy s receipt.public_key given
        ≡ admitted statement
      → (given ≡ VerifierStatement.submission statement)
        × (submission_statement_eq statement
              (submission_verifier_statement crypto state command policy s)
            ≡ true)
        × (ed25519_verifier_ref crypto receipt.public_key ≡ some command.verifier_ref)
        × (contains state.terms.accepted_verifier_refs command.verifier_ref ≡ true)
  unfolding admit_submission_statement deny
  admit_submission_statement-by command policy s receipt statement (VerifierStatement.challenge x)
        h =
      ground arith
  admit_submission_statement-by command policy s receipt statement (VerifierStatement.submission x)
        h =
      elim (Option-cases (ed25519_verifier_ref crypto receipt.public_key)) [
        | inl nothing ↦ cc (rw (nothing, admit_submission_statement) at h)
        | inr (r, e) ↦
            let k = rw (e, admit_submission_statement) at h in
            ground (arith, k, str_eq-eq r command.verifier_ref)
      ]

  admit_submission-receipt :
      (command : VerifySubmission) (policy : MarketPolicy) (evidence : MarketEvidence)
      (s : SubmissionState) (statement : SubmissionVerifierStatement)
      → admit_submission_receipt crypto state command policy evidence s ≡ admitted statement
      → HasReceipt crypto state evidence command.verifier_receipt_ref command.verifier_ref (
          VerifierStatement.submission
            (submission_verifier_statement crypto state command policy s))
  unfolding admit_submission_receipt deny
  admit_submission-receipt command policy evidence s statement h =
      elim (Option-cases (find_verifier_receipt crypto evidence command.verifier_receipt_ref)) [
        | inl nothing ↦ cc (rw (nothing, admit_submission_receipt) at h)
        | inr (r, e) ↦
            let h2 = rw (e, admit_submission_receipt) at h in
            elim (Option-cases
              (verify_receipt_authentication crypto r command.verifier_receipt_ref)) [
                | inr (error, f) ↦ cc (rw f at h2)
                | inl good ↦
                    let (same, exact, by, ok) =
                      admit_submission_statement-by command policy s r statement r.statement
                        (rw good at h2) in
                    record {
                      receipt = r;
                      is_found = e;
                      states =
                          same
                          ∙ ap VerifierStatement.submission (submission_statement_eq-eq _ _ exact);
                      is_signed = record {
                        signed = authentication-signed r command.verifier_receipt_ref good;
                        by = by;
                        accepted = ok;
                      };
                    }
              ]
      ]

  admit_challenge_statement-by :
      (command : ResolveChallenge) (policy : MarketPolicy) (c : ChallengeState)
      (receipt : VerifierReceipt) (statement : ChallengeVerifierStatement)
      (given : VerifierStatement)
      → admit_challenge_statement crypto state command policy c receipt.public_key given
        ≡ admitted statement
      → (given ≡ VerifierStatement.challenge statement)
        × (challenge_statement_eq statement
              (challenge_verifier_statement crypto state command policy c)
            ≡ true)
        × (ed25519_verifier_ref crypto receipt.public_key ≡ some command.verifier_ref)
        × (contains state.terms.accepted_verifier_refs command.verifier_ref ≡ true)
  unfolding admit_challenge_statement deny
  admit_challenge_statement-by command policy c receipt statement (VerifierStatement.submission x)
        h =
      ground arith
  admit_challenge_statement-by command policy c receipt statement (VerifierStatement.challenge x)
        h =
      elim (Option-cases (ed25519_verifier_ref crypto receipt.public_key)) [
        | inl nothing ↦ cc (rw (nothing, admit_challenge_statement) at h)
        | inr (r, e) ↦
            let k = rw (e, admit_challenge_statement) at h in
            ground (arith, k, str_eq-eq r command.verifier_ref)
      ]

  admit_challenge-receipt :
      (command : ResolveChallenge) (policy : MarketPolicy) (evidence : MarketEvidence)
      (c : ChallengeState) (statement : ChallengeVerifierStatement)
      → admit_challenge_receipt crypto state command policy evidence c ≡ admitted statement
      → HasReceipt crypto state evidence command.verifier_receipt_ref command.verifier_ref
          (VerifierStatement.challenge (challenge_verifier_statement crypto state command policy c))
  unfolding admit_challenge_receipt deny
  admit_challenge-receipt command policy evidence c statement h =
      elim (Option-cases (find_verifier_receipt crypto evidence command.verifier_receipt_ref)) [
        | inl nothing ↦ cc (rw (nothing, admit_challenge_receipt) at h)
        | inr (r, e) ↦
            let h2 = rw (e, admit_challenge_receipt) at h in
            elim (Option-cases
              (verify_receipt_authentication crypto r command.verifier_receipt_ref)) [
                | inr (error, f) ↦ cc (rw f at h2)
                | inl good ↦
                    let (same, exact, by, ok) =
                      admit_challenge_statement-by command policy c r statement r.statement
                        (rw good at h2) in
                    record {
                      receipt = r;
                      is_found = e;
                      states =
                          same
                          ∙ ap VerifierStatement.challenge (challenge_statement_eq-eq _ _ exact);
                      is_signed = record {
                        signed = authentication-signed r command.verifier_receipt_ref good;
                        by = by;
                        accepted = ok;
                      };
                    }
              ]
      ]

-- A committed verdict on a submission is about a submission of the state, and the evidence holds a
-- receipt with the reference that the command gives: its statement is the one for this state, this
-- policy, this submission and this outcome, its signature is good, and its key is the command's
-- verifier, which the terms accept.
pub verdict-HasReceipt :
    (crypto : Crypto) (state : BountyState) (command : VerifySubmission) (policy : MarketPolicy)
    (evidence : MarketEvidence) (c : Commit)
    → committed (
        apply_market_command crypto state (MarketCommand.verify_submission command) policy evidence)
      ≡ some c
    → HasVerdict crypto state command policy evidence
unfolding dispatch commit_verdict
verdict-HasReceipt crypto state command policy evidence c e =
    (apply-OnCommit crypto {P = λ c. HasVerdict crypto state command policy evidence} state
        (MarketCommand.verify_submission command) policy evidence
        λ a. verify_submission-OnCommit crypto state command policy evidence λ s checks.
          let given =
            admit_submission-receipt crypto state command policy evidence s checks.statement
              checks.is_admitted in
          if-OnCommit command.accepted _ _
            (λ yes_given. accept-OnCommit _ _ _ (s, checks.is_found, given))
            (λ no_given. failure-OnCommit _ _ _ _ (s, checks.is_found, given))).holds
      c e

-- A committed verdict on a challenge is about a challenge of the state, and the evidence holds a
-- receipt with the reference that the command gives: its statement is the one for this state, this
-- policy, this challenge and this outcome, its signature is good, and its key is the command's
-- verifier, which the terms accept.
pub ruling-HasReceipt :
    (crypto : Crypto) (state : BountyState) (command : ResolveChallenge) (policy : MarketPolicy)
    (evidence : MarketEvidence) (c : Commit)
    → committed (
        apply_market_command crypto state (MarketCommand.resolve_challenge command) policy evidence)
      ≡ some c
    → HasRuling crypto state command policy evidence
unfolding dispatch commit_upheld commit_dismissed
ruling-HasReceipt crypto state command policy evidence c e =
    (apply-OnCommit crypto {P = λ c. HasRuling crypto state command policy evidence} state
        (MarketCommand.resolve_challenge command) policy evidence
        λ a.
          resolve_challenge-OnCommit crypto state command policy evidence
            (λ ch s checks upheld. accept-OnCommit _ _ _ (
              ch,
              checks.is_found,
              admit_challenge-receipt crypto state command policy evidence ch checks.statement
                  checks.is_admitted,
            ))
            (λ ch s checks dismissed. failure-OnCommit _ _ _ _ (
              ch,
              checks.is_found,
              admit_challenge-receipt crypto state command policy evidence ch checks.statement
                  checks.is_admitted,
            ))).holds
      c e
