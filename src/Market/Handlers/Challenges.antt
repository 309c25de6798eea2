-- ===== src/Market/Handlers/Challenges.antt =====
-- src/popperpad/core/market.py: `_open_challenge` and `_resolve_challenge`.
use popper_pad.Prelude.{
  ltb, ltb_ℤ, not, ◌&&◌, ◌||◌, all, any, is_empty, is_nonempty, contains, str_eq, str_nat, set_add,
  none, some, [], ◌∷◌, ◌++◌, ◌⊕◌, if◌then◌else◌,
}
use popper_pad.Values.{zero_amount, str}
use popper_pad.Codec.{Crypto}
use popper_pad.Market.Types.{
  SubmissionStatus, ChallengeStatus, BountyState, SubmissionState, ChallengeState, MarketPolicy,
  is_open_phase, is_verified, is_open, phase_value, submission_status_value, challenge_status_value,
  valid_id, valid_ref,
}
use popper_pad.Market.Commands.{
  OpenChallenge, ResolveChallenge, MarketCommand, MarketEvidence, EffectKind, RejectionCode,
  MarketDecision, refuse_if, found, ◌>>=◌, ◌>>◌,
}
use popper_pad.Market.Lookup.{
  submission, challenge, replace_submission, replace_challenge, challenge_deadline,
  resolution_deadline, effect, accepted, failed,
}
use popper_pad.Market.Admit.{admit_challenge_receipt}
use popper_pad.Market.Handlers.Submissions.{is_some}

-- The `ChallengeState` that `_open_challenge` builds.
abbrev pub new_challenge : OpenChallenge → ChallengeState
new_challenge command = record {
  challenge_id = command.challenge_id;
  submission_id = command.submission_id;
  challenger_ref = command.challenger_ref;
  finding_kind = command.finding_kind;
  evidence_refs = command.evidence_refs;
  opened_at = command.now_epoch_s;
  status = ChallengeStatus.opened;
  deposit_locked = command.deposit;
  verifier_receipt_ref = none;
}

-- The `next_challenge` of `_resolve_challenge`.
abbrev pub resolved_challenge : ResolveChallenge → ChallengeState → ChallengeState
resolved_challenge command c = record c {
  status = if command.upheld then ChallengeStatus.upheld else ChallengeStatus.rejected;
  deposit_locked = zero_amount;
  verifier_receipt_ref = some command.verifier_receipt_ref;
}

-- The `next_submission` of `_resolve_challenge`.
abbrev pub slashed_submission : SubmissionState → SubmissionState
slashed_submission s = record s { status = SubmissionStatus.rejected; bond_locked = zero_amount }

-- The next state of `_open_challenge`.
abbrev pub after_challenge : BountyState → OpenChallenge → BountyState
after_challenge state command = record state {
  challenges = state.challenges ++ new_challenge command ∷ [];
  processed_command_ids = set_add state.processed_command_ids command.command_id;
}

-- The next state of `_resolve_challenge` for an upheld challenge.
abbrev pub after_upheld :
    BountyState → ResolveChallenge → ChallengeState → SubmissionState → BountyState
after_upheld state command c s = record state {
  submissions = replace_submission state.submissions (slashed_submission s);
  challenges = replace_challenge state.challenges (resolved_challenge command c);
  processed_command_ids = set_add state.processed_command_ids command.command_id;
}

-- The next state of `_resolve_challenge` for a rejected challenge.
abbrev pub after_dismissed : BountyState → ResolveChallenge → ChallengeState → BountyState
after_dismissed state command c = record state {
  challenges = replace_challenge state.challenges (resolved_challenge command c);
  processed_command_ids = set_add state.processed_command_ids command.command_id;
}

module _ (crypto : Crypto) where
  -- What `_open_challenge` commits.
  unfoldable pub commit_challenge : BountyState → OpenChallenge → MarketDecision
  commit_challenge state command =
      accepted crypto state (after_challenge state command) (MarketCommand.open_challenge command)
        "challenge_opened"
        (effect EffectKind.lock_challenge_deposit command.challenger_ref command.deposit
            command.challenge_id []
          ∷ [])

  unfoldable pub open_challenge : BountyState → OpenChallenge → MarketPolicy → MarketDecision
  open_challenge state command policy = do
    let minimum = policy.minimum_challenge_deposit.atoms
    refuse_if (not (valid_id command.challenge_id && valid_id command.submission_id))
        RejectionCode.invalid_command "challenge_or_submission_id" "invalid"
    refuse_if (not (is_nonempty command.challenger_ref) || not (is_nonempty command.finding_kind))
        RejectionCode.invalid_command "challenger_or_finding" "must be non-empty"
    refuse_if (not (all valid_ref command.evidence_refs)) RejectionCode.invalid_command
        "evidence_refs" "invalid ref"
    refuse_if (not (is_open_phase state.phase)) RejectionCode.wrong_phase "phase"
        (phase_value state.phase)
    refuse_if (ltb_ℤ (challenge_deadline state) command.now_epoch_s) RejectionCode.time_window
        "challenge_deadline" "challenge arrived too late"
    refuse_if (is_some (challenge state command.challenge_id)) RejectionCode.duplicate_entity
        "challenge_id" command.challenge_id
    s ←
        found (submission state command.submission_id) RejectionCode.unknown_entity "submission_id"
          command.submission_id
    refuse_if (not (is_verified s.status)) RejectionCode.policy_mismatch "submission_status"
        (submission_status_value s.status)
    refuse_if
        (any (λ c. str_eq c.submission_id command.submission_id && is_open c.status)
          state.challenges)
        RejectionCode.policy_mismatch "submission_id" "already has an open challenge"
    refuse_if (not (contains policy.slashable_findings command.finding_kind))
        RejectionCode.policy_mismatch "finding_kind" command.finding_kind
    refuse_if (is_empty command.evidence_refs) RejectionCode.missing_evidence "evidence_refs"
        "must be non-empty"
    refuse_if (ltb command.deposit.atoms minimum) RejectionCode.insufficient_amount "deposit"
        ("minimum is " ⊕ (str_nat minimum ⊕ " atoms"))
    commit_challenge state command

  -- What `_resolve_challenge` commits for an upheld challenge.
  unfoldable pub commit_upheld :
      BountyState
      → ResolveChallenge
      → MarketPolicy
      → ChallengeState
      → SubmissionState
      → MarketDecision
  commit_upheld state command policy c s =
      accepted crypto state (after_upheld state command c s)
        (MarketCommand.resolve_challenge command) "challenge_upheld"
        (effect EffectKind.refund_challenge_deposit c.challenger_ref c.deposit_locked c.challenge_id
            []
          ∷ effect EffectKind.slash_submission_bond policy.treasury_ref s.bond_locked
              s.submission_id (("finding_kind", str c.finding_kind) ∷ [])
          ∷ [])

  -- What `_resolve_challenge` commits for a rejected challenge.
  unfoldable pub commit_dismissed :
      BountyState → ResolveChallenge → MarketPolicy → ChallengeState → MarketDecision
  commit_dismissed state command policy c =
      failed crypto state (after_dismissed state command c)
        (MarketCommand.resolve_challenge command) "challenge_rejected" "CHALLENGE_REJECTED"
        (effect EffectKind.slash_challenge_deposit policy.treasury_ref c.deposit_locked
            c.challenge_id (("finding_kind", str c.finding_kind) ∷ [])
          ∷ [])

  unfoldable pub resolve_challenge :
      BountyState → ResolveChallenge → MarketPolicy → MarketEvidence → MarketDecision
  resolve_challenge state command policy evidence = do
    refuse_if (not (valid_id command.challenge_id && valid_ref command.verifier_ref))
        RejectionCode.invalid_command "challenge_or_verifier" "invalid"
    refuse_if (not (valid_ref command.verifier_receipt_ref)) RejectionCode.invalid_command
        "verifier_receipt_ref" command.verifier_receipt_ref
    refuse_if (not (is_open_phase state.phase)) RejectionCode.wrong_phase "phase"
        (phase_value state.phase)
    c ←
        found (challenge state command.challenge_id) RejectionCode.unknown_entity "challenge_id"
          command.challenge_id
    refuse_if (not (is_open c.status)) RejectionCode.policy_mismatch "challenge_status"
        (challenge_status_value c.status)
    refuse_if (ltb_ℤ (resolution_deadline state c policy) command.now_epoch_s)
        RejectionCode.time_window "resolution_deadline" "challenge adjudication timed out"
    refuse_if (not (contains state.terms.accepted_verifier_refs command.verifier_ref))
        RejectionCode.policy_mismatch "verifier_ref" command.verifier_ref
    s ←
        found (submission state c.submission_id) RejectionCode.unknown_entity "submission_id"
          c.submission_id
    _ ← admit_challenge_receipt crypto state command policy evidence c
    if command.upheld
        then commit_upheld state command policy c s
        else commit_dismissed state command policy c
