-- ===== src/Market/Evidence/Binding.antt =====
-- `_validate_command_evidence_binding` only refuses, and never commits.
use popper_pad.Prelude.{◌≡◌, Bool, true, false, Option, none, some, List, ℕ, String, arith}
use popper_pad.Codec.{Crypto}
use popper_pad.Market.Types.{BountyState, MarketPolicy, SubmissionState}
use popper_pad.Market.Commands.{
  VerifySubmission, ResolveChallenge, MarketCommand, VerifierStatement, VerifierReceipt,
  MarketEvidence, MarketDecision, committed,
}
use popper_pad.Market.Evidence.{
  evidence_if, submission_key_binding, challenge_key_binding, submission_binding, challenge_binding,
  validate_command_evidence_binding,
}

-- The decision that is given, if any, commits nothing.
abbrev pub Harmless : Option MarketDecision → Type 0
Harmless o = (d : MarketDecision) → o ≡ some d → committed d ≡ none

evidence_if-Harmless :
    (b : Bool) (field reason : String) (o : Option MarketDecision)
    → Harmless o
    → Harmless (evidence_if b field reason o)
unfolding evidence_if
evidence_if-Harmless true field reason o h d e = ground arith
evidence_if-Harmless false field reason o h d e = h d e

module _ (crypto : Crypto) where
  submission_key_binding-Harmless :
      (command : VerifySubmission) (found : Option SubmissionState) (key : List ℕ)
      → Harmless (submission_key_binding crypto command found key)
  unfolding submission_key_binding evidence_if
  submission_key_binding-Harmless command found key d e = ground arith

  challenge_key_binding-Harmless :
      (command : ResolveChallenge) (key : List ℕ)
      → Harmless (challenge_key_binding crypto command key)
  unfolding challenge_key_binding evidence_if
  challenge_key_binding-Harmless command key d e = ground arith

  submission_binding-Harmless :
      (state : BountyState) (command : VerifySubmission) (policy : MarketPolicy) (key : List ℕ)
      (statement : VerifierStatement)
      → Harmless (submission_binding crypto state command policy key statement)
  unfolding submission_binding
  submission_binding-Harmless state command policy key (VerifierStatement.challenge _) =
      λ d e. ground arith
  submission_binding-Harmless state command policy key (VerifierStatement.submission statement) =
      evidence_if-Harmless _ _ _ _
        (evidence_if-Harmless _ _ _ _ (submission_key_binding-Harmless command _ key))

  challenge_binding-Harmless :
      (state : BountyState) (command : ResolveChallenge) (policy : MarketPolicy) (key : List ℕ)
      (statement : VerifierStatement)
      → Harmless (challenge_binding crypto state command policy key statement)
  unfolding challenge_binding
  challenge_binding-Harmless state command policy key (VerifierStatement.submission _) =
      λ d e. ground arith
  challenge_binding-Harmless state command policy key (VerifierStatement.challenge statement) =
      evidence_if-Harmless _ _ _ _
        (evidence_if-Harmless _ _ _ _ (challenge_key_binding-Harmless command key))

  found-Harmless :
      (o : Option VerifierReceipt) (k : VerifierReceipt → Option MarketDecision)
      → ((r : VerifierReceipt) → Harmless (k r))
      → Harmless (elim o [ none ↦ none | some r ↦ k r ])
  found-Harmless none k h d e = ground arith
  found-Harmless (some r) k h d e = h r d e

  pub binding-commits_nothing :
      (state : BountyState) (command : MarketCommand) (policy : MarketPolicy)
      (evidence : MarketEvidence)
      → Harmless (validate_command_evidence_binding crypto state command policy evidence)
  unfolding validate_command_evidence_binding
  binding-commits_nothing state (MarketCommand.verify_submission c) policy evidence =
      found-Harmless _ _ (λ r. submission_binding-Harmless state c policy r.public_key r.statement)
  binding-commits_nothing state (MarketCommand.resolve_challenge c) policy evidence =
      found-Harmless _ _ (λ r. challenge_binding-Harmless state c policy r.public_key r.statement)
  binding-commits_nothing state _ policy evidence = λ d e. ground arith
