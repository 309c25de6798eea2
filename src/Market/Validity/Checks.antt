-- ===== src/Market/Validity/Checks.antt =====
-- Predicates for the checks of a state, as far as they go over lists; `IsValid` in Spec spells out the
-- others too.
use popper_pad.Prelude.{
  ltb, ◌==◌, ◌≡◌, true, ◌||◌, not, all, is_empty, is_nonempty, contains, some, List, [], String,
  All,
}
use popper_pad.Market.Types.{
  BountyState, SubmissionState, ChallengeState, valid_id, valid_ref, valid_ref_or_none, non_neg_int,
  is_open, is_rejected, is_verified, is_open_phase,
}
use popper_pad.Market.Closing.{open_only}
use popper_pad.Market.Ids.{Distinct}
use popper_pad.Market.Invariants.Fields.{check_terms, nonempty_or_none}
use popper_pad.Market.Invariants.Relations.{
  submission_ids, challenge_ids, subjects, submission_by_id, check_phase, check_terminal_invariants,
}

pub record SubmissionOk (s : SubmissionState) : Type 0 where
  pub id : valid_id s.submission_id ≡ true
  pub submitter : is_nonempty s.submitter_ref ≡ true
  pub recipe : valid_ref s.recipe_ref ≡ true
  pub verifier : valid_ref s.verifier_ref ≡ true
  pub evidence : all valid_ref s.evidence_refs ≡ true
  pub artifacts : all valid_ref s.artifact_refs ≡ true
  pub time : non_neg_int s.submitted_at ≡ true
  pub receipt : valid_ref_or_none s.verifier_receipt_ref ≡ true

pub record ChallengeOk (c : ChallengeState) : Type 0 where
  pub id : valid_id c.challenge_id ≡ true
  pub subject : valid_id c.submission_id ≡ true
  pub challenger : is_nonempty c.challenger_ref ≡ true
  pub finding : is_nonempty c.finding_kind ≡ true
  pub evidence : all valid_ref c.evidence_refs ≡ true
  pub time : non_neg_int c.opened_at ≡ true
  pub receipt : valid_ref_or_none c.verifier_receipt_ref ≡ true

-- The submission is there, and it is verified.
abbrev pub IsPayable : List SubmissionState → String → Type 0
IsPayable ss id =
    (s : SubmissionState) × (submission_by_id ss id ≡ some s) × (is_verified s.status ≡ true)

abbrev pub HasDeposit : ChallengeState → Type 0
HasDeposit c = ltb 0 c.deposit_locked.atoms ≡ true

abbrev pub IsReleased : ChallengeState → Type 0
IsReleased c = (is_open c.status || (c.deposit_locked.atoms == 0)) ≡ true

abbrev pub IsUnbonded : SubmissionState → Type 0
IsUnbonded s = (not (is_rejected s.status) || (s.bond_locked.atoms == 0)) ≡ true

abbrev pub RefersTo : List SubmissionState → ChallengeState → Type 0
RefersTo ss c = contains (submission_ids ss) c.submission_id ≡ true

pub record IsChecked (s : BountyState) : Type 0 where
  pub terms : check_terms s.terms ≡ []
  pub submissions : All SubmissionOk s.submissions
  pub challenges : All ChallengeOk s.challenges
  pub payable_format : all valid_id s.payable_submission_ids ≡ true
  pub settlement_format : nonempty_or_none s.settlement_ref ≡ true
  pub processed_format : all valid_id s.processed_command_ids ≡ true
  pub distinct_submissions : Distinct (submission_ids s.submissions)
  pub distinct_challenges : Distinct (challenge_ids s.challenges)
  pub distinct_payable : Distinct s.payable_submission_ids
  pub references : All (RefersTo s.submissions) s.challenges
  pub payable : All (IsPayable s.submissions) s.payable_submission_ids
  pub open_subjects : Distinct (subjects (open_only s.challenges))
  pub open_phase : (is_empty (open_only s.challenges) || is_open_phase s.phase) ≡ true
  pub open_deposits : All HasDeposit (open_only s.challenges)
  pub released : All IsReleased s.challenges
  pub unbonded : All IsUnbonded s.submissions
  pub phase : check_phase s.phase s ≡ []
  pub terminal : check_terminal_invariants s ≡ []
