-- ===== src/Market/Handlers/Submissions.antt =====
-- src/popperpad/core/market.py: `_submit_candidate` and `_verify_submission`.
use popper_pad.Prelude.{
  max, ltb, ltb_ℤ, not, ◌&&◌, ◌||◌, Bool, true, false, all, is_empty, is_nonempty, contains, str_eq,
  str_nat, set_add, Option, none, some, [], ◌∷◌, ◌++◌, ◌⊕◌, if◌then◌else◌,
}
use popper_pad.Values.{zero_amount, str}
use popper_pad.Codec.{Crypto}
use popper_pad.Market.Types.{
  SubmissionStatus, BountyState, SubmissionState, MarketPolicy, is_open_phase, is_pending,
  phase_value, submission_status_value, valid_id, valid_ref,
}
use popper_pad.Market.Commands.{
  SubmitCandidate, VerifySubmission, MarketCommand, MarketEvidence, EffectKind, RejectionCode,
  MarketDecision, refuse_if, found, ◌>>=◌, ◌>>◌,
}
use popper_pad.Market.Lookup.{
  submission, replace_submission, challenge_deadline, effect, accepted, failed,
}
use popper_pad.Market.Admit.{admit_submission_receipt}

abbrev pub is_some {ℓ} : {A : Type ℓ} → Option A → Bool
is_some none = false
is_some (some _) = true

-- The `SubmissionState` that `_submit_candidate` builds.
abbrev pub new_submission : SubmitCandidate → SubmissionState
new_submission command = record {
  submission_id = command.submission_id;
  submitter_ref = command.submitter_ref;
  recipe_ref = command.recipe_ref;
  verifier_ref = command.verifier_ref;
  evidence_refs = command.evidence_refs;
  artifact_refs = command.artifact_refs;
  submitted_at = command.now_epoch_s;
  status = SubmissionStatus.pending;
  bond_locked = command.bond;
  verifier_receipt_ref = none;
}

-- The `next_submission` of `_verify_submission`.
abbrev pub verified_submission : VerifySubmission → SubmissionState → SubmissionState
verified_submission command s = record s {
  status = if command.accepted then SubmissionStatus.verified else SubmissionStatus.rejected;
  bond_locked = if command.accepted then s.bond_locked else zero_amount;
  verifier_receipt_ref = some command.verifier_receipt_ref;
}

-- The next state of `_submit_candidate`.
abbrev pub after_submit : BountyState → SubmitCandidate → BountyState
after_submit state command = record state {
  submissions = state.submissions ++ new_submission command ∷ [];
  processed_command_ids = set_add state.processed_command_ids command.command_id;
}

-- The next state of `_verify_submission`.
abbrev pub after_verify : BountyState → VerifySubmission → SubmissionState → BountyState
after_verify state command s = record state {
  submissions = replace_submission state.submissions (verified_submission command s);
  processed_command_ids = set_add state.processed_command_ids command.command_id;
}

module _ (crypto : Crypto) where
  -- What `_submit_candidate` commits.
  unfoldable pub commit_submit : BountyState → SubmitCandidate → MarketDecision
  commit_submit state command =
      accepted crypto state (after_submit state command) (MarketCommand.submit_candidate command)
        "candidate_submitted"
        (effect EffectKind.lock_submission_bond command.submitter_ref command.bond
            command.submission_id []
          ∷ [])

  unfoldable pub submit_candidate : BountyState → SubmitCandidate → MarketPolicy → MarketDecision
  submit_candidate state command policy = do
    let required =
        max state.terms.minimum_submission_bond.atoms policy.minimum_submission_bond.atoms
    refuse_if (not (valid_id command.submission_id) || not (is_nonempty command.submitter_ref))
        RejectionCode.invalid_command "submission" command.submission_id
    refuse_if (not (valid_ref command.recipe_ref && valid_ref command.verifier_ref))
        RejectionCode.invalid_command "recipe_or_verifier_ref" "invalid ref"
    refuse_if (not (all valid_ref (command.evidence_refs ++ command.artifact_refs)))
        RejectionCode.invalid_command "evidence_or_artifact_ref" "invalid ref"
    refuse_if (not (is_open_phase state.phase)) RejectionCode.wrong_phase "phase"
        (phase_value state.phase)
    refuse_if (ltb_ℤ state.terms.deadline_epoch_s command.now_epoch_s) RejectionCode.time_window
        "deadline" "submission arrived after deadline"
    refuse_if (is_some (submission state command.submission_id)) RejectionCode.duplicate_entity
        "submission_id" command.submission_id
    refuse_if (not (contains state.terms.accepted_recipe_refs command.recipe_ref))
        RejectionCode.policy_mismatch "recipe_ref" command.recipe_ref
    refuse_if (not (contains state.terms.accepted_verifier_refs command.verifier_ref))
        RejectionCode.policy_mismatch "verifier_ref" command.verifier_ref
    refuse_if (is_empty command.evidence_refs) RejectionCode.missing_evidence "evidence_refs"
        "must be non-empty"
    refuse_if (ltb command.bond.atoms required) RejectionCode.insufficient_amount "bond"
        ("minimum is " ⊕ (str_nat required ⊕ " atoms"))
    commit_submit state command

  -- What `_verify_submission` commits once the receipt is admitted.
  unfoldable pub commit_verdict : BountyState → VerifySubmission → SubmissionState → MarketDecision
  commit_verdict state command s =
      if command.accepted
      then accepted crypto state (after_verify state command s)
          (MarketCommand.verify_submission command) "submission_verified" []
      else failed crypto state (after_verify state command s)
          (MarketCommand.verify_submission command) "submission_rejected" "VERIFIER_REJECTED"
          (effect EffectKind.refund_submission_bond s.submitter_ref s.bond_locked s.submission_id
              (("reason", str "honest_verifier_rejection") ∷ [])
            ∷ [])

  unfoldable pub verify_submission :
      BountyState → VerifySubmission → MarketPolicy → MarketEvidence → MarketDecision
  verify_submission state command policy evidence = do
    refuse_if (not (valid_id command.submission_id && valid_ref command.verifier_ref))
        RejectionCode.invalid_command "submission_or_verifier" "invalid"
    refuse_if (not (valid_ref command.verifier_receipt_ref)) RejectionCode.invalid_command
        "verifier_receipt_ref" command.verifier_receipt_ref
    refuse_if (not (is_open_phase state.phase)) RejectionCode.wrong_phase "phase"
        (phase_value state.phase)
    refuse_if (ltb_ℤ (challenge_deadline state) command.now_epoch_s) RejectionCode.time_window
        "challenge_deadline" "verification arrived too late"
    s ←
        found (submission state command.submission_id) RejectionCode.unknown_entity "submission_id"
          command.submission_id
    refuse_if (not (is_pending s.status)) RejectionCode.policy_mismatch "submission_status"
        (submission_status_value s.status)
    refuse_if (not (str_eq command.verifier_ref s.verifier_ref)) RejectionCode.policy_mismatch
        "verifier_ref" command.verifier_ref
    _ ← admit_submission_receipt crypto state command policy evidence s
    commit_verdict state command s
