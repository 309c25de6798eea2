-- ===== src/Market/Validity/Spec.antt =====
-- The valid states of a bounty, described without the checks of
-- src/popperpad/core/market_invariants.py.
use popper_pad.Prelude.{
  ◌≡◌, ◌↔◌, refl, ◌||◌, true, all, is_empty, Bool-cases, inl, inr, [], All, arith,
}
use popper_pad.Market.Types.{
  BountyTerms, BountyState, terms_built, valid_id, is_open_phase, is_settled_phase,
}
use popper_pad.Market.Closing.{open_only}
use popper_pad.Market.Ids.{Distinct}
use popper_pad.Market.Invariants.Fields.{check_terms, nonempty_or_none}
use popper_pad.Market.Invariants.Relations.{
  submission_ids, challenge_ids, subjects, check_terminal_invariants, market_state_violations,
  is_none, is_terminal,
}
use popper_pad.Market.Validity.Checks.{
  SubmissionOk, ChallengeOk, IsPayable, HasDeposit, IsReleased, IsUnbonded, RefersTo, IsChecked,
}
use popper_pad.Market.Validity.Reflect.{
  append-nil_inv, nil-append_intro, check-nil, nil-check, violations-IsChecked,
  IsChecked-violations,
}
use popper_pad.Market.Validity.Phases.{
  PhaseOk, EndOk, check_phase-PhaseOk, PhaseOk-check_phase, locks-EndOk, EndOk-locks,
}

pub check_terms-built : (t : BountyTerms) → terms_built t ≡ true → check_terms t ≡ []
unfolding terms_built check_terms
check_terms-built t h = ground arith

built-check_terms : (t : BountyTerms) → check_terms t ≡ [] → terms_built t ≡ true
unfolding terms_built check_terms
built-check_terms t h = ground arith

-- A valid state: terms that their constructor admits; well-formed submissions, challenges and ids; no id
-- twice; each challenge about a submission of the state; payable ids of verified submissions; at most
-- one open challenge for a submission, only in the open phase and only with a deposit; no deposit on a
-- challenge that is not open, no bond on a rejected submission; a settlement ref only where the bounty
-- is settled; and what its phase asks for.
pub record IsValid (s : BountyState) : Type 0 where
  pub terms : terms_built s.terms ≡ true
  pub submissions : All SubmissionOk s.submissions
  pub challenges : All ChallengeOk s.challenges
  pub payable_format : all valid_id s.payable_submission_ids ≡ true
  pub settlement_format : nonempty_or_none s.settlement_ref ≡ true
  pub processed_format : all valid_id s.processed_command_ids ≡ true
  pub distinct_submissions : Distinct (submission_ids s.submissions)
  pub distinct_challenges : Distinct (challenge_ids s.challenges)
  pub distinct_payable : Distinct s.payable_submission_ids
  pub references : All (RefersTo s.submissions) s.challenges
  pub payable : All (IsPayable s.submissions) s.payable_submission_ids
  pub open_subjects : Distinct (subjects (open_only s.challenges))
  pub open_phase : (is_empty (open_only s.challenges) || is_open_phase s.phase) ≡ true
  pub open_deposits : All HasDeposit (open_only s.challenges)
  pub released : All IsReleased s.challenges
  pub unbonded : All IsUnbonded s.submissions
  pub phase : PhaseOk s.phase s
  pub settlement : (is_settled_phase s.phase || is_none s.settlement_ref) ≡ true
  pub ending : EndOk (is_terminal s.phase) s

terminal-EndOk :
    (s : BountyState)
    → check_terminal_invariants s ≡ []
    → ((is_settled_phase s.phase || is_none s.settlement_ref) ≡ true)
      × EndOk (is_terminal s.phase) s
unfolding check_terminal_invariants
terminal-EndOk s h = elim (Bool-cases (is_terminal s.phase)) [
  | inl closed ↦
      let (unset, locks) = append-nil_inv _ _ (rw closed at h) in
      (check-nil _ _ _ _ unset, rw closed (locks-EndOk s locks))
  | inr going ↦
      let (unset, none_left) = append-nil_inv _ _ (rw going at h) in
      (check-nil _ _ _ _ unset, rw going tt)
]

EndOk-terminal :
    (s : BountyState)
    → (is_settled_phase s.phase || is_none s.settlement_ref) ≡ true
    → EndOk (is_terminal s.phase) s
    → check_terminal_invariants s ≡ []
unfolding check_terminal_invariants
EndOk-terminal s unset ok = elim (Bool-cases (is_terminal s.phase)) [
  | inl closed ↦
      rw closed (nil-append_intro _ _ (nil-check _ _ _ _ unset) (EndOk-locks s (rw closed at ok)))
  | inr going ↦ rw going (nil-append_intro _ _ (nil-check _ _ _ _ unset) refl)
]

checked-IsValid : (s : BountyState) → IsChecked s → IsValid s
checked-IsValid s v =
    let (settlement, ending) = terminal-EndOk s v.terminal in
    record {
      terms = built-check_terms s.terms v.terms;
      submissions = v.submissions;
      challenges = v.challenges;
      payable_format = v.payable_format;
      settlement_format = v.settlement_format;
      processed_format = v.processed_format;
      distinct_submissions = v.distinct_submissions;
      distinct_challenges = v.distinct_challenges;
      distinct_payable = v.distinct_payable;
      references = v.references;
      payable = v.payable;
      open_subjects = v.open_subjects;
      open_phase = v.open_phase;
      open_deposits = v.open_deposits;
      released = v.released;
      unbonded = v.unbonded;
      phase = check_phase-PhaseOk s.phase s v.phase;
      settlement = settlement;
      ending = ending;
    }

valid-IsChecked : (s : BountyState) → IsValid s → IsChecked s
valid-IsChecked s v = record {
  terms = check_terms-built s.terms v.terms;
  submissions = v.submissions;
  challenges = v.challenges;
  payable_format = v.payable_format;
  settlement_format = v.settlement_format;
  processed_format = v.processed_format;
  distinct_submissions = v.distinct_submissions;
  distinct_challenges = v.distinct_challenges;
  distinct_payable = v.distinct_payable;
  references = v.references;
  payable = v.payable;
  open_subjects = v.open_subjects;
  open_phase = v.open_phase;
  open_deposits = v.open_deposits;
  released = v.released;
  unbonded = v.unbonded;
  phase = PhaseOk-check_phase s.phase s v.phase;
  terminal = EndOk-terminal s v.settlement v.ending;
}

-- `market_state_violations` finds nothing in a state exactly if the state is valid as `IsValid` says.
pub market_state_violations-IsValid :
    (s : BountyState) → (market_state_violations s ≡ []) ↔ IsValid s
market_state_violations-IsValid s = (
  λ h. checked-IsValid s (violations-IsChecked s h),
  λ v. IsChecked-violations s (valid-IsChecked s v),
)
