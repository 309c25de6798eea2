-- ===== src/Market/Guards/Submissions.antt =====
-- What `_submit_candidate` and `_verify_submission` have checked when they commit.
use popper_pad.Prelude.{
  ◌≡◌, refl, ◌≤◌, ◌≤ℤ◌, ltb_ℤ-false, ltb-false, max, true, false, all, is_empty, is_nonempty,
  contains, none, some, ◌++◌, arith, not-eq_false, or-false, and-true, str_eq-eq, Option,
}
use popper_pad.Codec.{Crypto}
use popper_pad.Market.Types.{
  BountyPhase, SubmissionStatus, BountyState, SubmissionState, MarketPolicy, is_open_phase-eq,
  is_pending-eq, valid_id, valid_ref,
}
use popper_pad.Market.Commands.{
  SubmitCandidate, VerifySubmission, MarketEvidence, SubmissionVerifierStatement, Commit, admitted,
}
use popper_pad.Market.Lookup.{submission, challenge_deadline}
use popper_pad.Market.Commits.{OnCommit, guard-OnCommit, found-OnCommit, bind-OnCommit}
use popper_pad.Market.Admit.{admit_submission_receipt}
use popper_pad.Market.Handlers.Submissions.{
  is_some, submit_candidate, verify_submission, commit_submit, commit_verdict,
}

pub is_some-none {ℓ} : {A : Type ℓ} (o : Option A) → is_some o ≡ false → o ≡ none
is_some-none none h = refl
is_some-none (some a) h = ground arith

pub record SubmitChecks (state : BountyState) (command : SubmitCandidate) (policy : MarketPolicy)
    : Type 0 where
  pub id : valid_id command.submission_id ≡ true
  pub submitter : is_nonempty command.submitter_ref ≡ true
  pub recipe : valid_ref command.recipe_ref ≡ true
  pub verifier : valid_ref command.verifier_ref ≡ true
  pub refs : all valid_ref (command.evidence_refs ++ command.artifact_refs) ≡ true
  pub phase : state.phase ≡ BountyPhase.opened
  pub in_time : command.now_epoch_s ≤ℤ state.terms.deadline_epoch_s
  pub is_fresh : submission state command.submission_id ≡ none
  pub recipe_accepted : contains state.terms.accepted_recipe_refs command.recipe_ref ≡ true
  pub verifier_accepted : contains state.terms.accepted_verifier_refs command.verifier_ref ≡ true
  pub has_evidence : is_empty command.evidence_refs ≡ false
  pub bonded :
      max state.terms.minimum_submission_bond.atoms policy.minimum_submission_bond.atoms
      ≤ command.bond.atoms

pub record VerifyChecks (crypto : Crypto) (state : BountyState) (command : VerifySubmission)
    (policy : MarketPolicy) (evidence : MarketEvidence) (s : SubmissionState) : Type 0 where
  pub receipt : valid_ref command.verifier_receipt_ref ≡ true
  pub phase : state.phase ≡ BountyPhase.opened
  pub in_time : command.now_epoch_s ≤ℤ challenge_deadline state
  pub is_found : submission state command.submission_id ≡ some s
  pub status : s.status ≡ SubmissionStatus.pending
  pub verifier : command.verifier_ref ≡ s.verifier_ref
  pub statement : SubmissionVerifierStatement
  pub is_admitted :
      admit_submission_receipt crypto state command policy evidence s ≡ admitted statement

module _ (crypto : Crypto) {P : Commit → Type 0} (state : BountyState) where
  pub submit_candidate-OnCommit :
      (command : SubmitCandidate) (policy : MarketPolicy)
      → (SubmitChecks state command policy → OnCommit P (commit_submit crypto state command))
      → OnCommit P (submit_candidate crypto state command policy)
  unfolding submit_candidate
  submit_candidate-OnCommit command policy k = guard-OnCommit _ _ _ _ _ λ named.
      guard-OnCommit _ _ _ _ _ λ referred. guard-OnCommit _ _ _ _ _ λ refs.
        guard-OnCommit _ _ _ _ _ λ phase. guard-OnCommit _ _ _ _ _ λ time.
          guard-OnCommit _ _ _ _ _ λ fresh. guard-OnCommit _ _ _ _ _ λ recipe.
            guard-OnCommit _ _ _ _ _ λ verifier. guard-OnCommit _ _ _ _ _ λ evidence.
              guard-OnCommit _ _ _ _ _ λ bond.
                let (id, submitter) = or-false _ _ named in
                let (r, v) = and-true _ _ (not-eq_false _ referred) in
                k (record {
                  id = not-eq_false _ id;
                  submitter = not-eq_false _ submitter;
                  recipe = r;
                  verifier = v;
                  refs = not-eq_false _ refs;
                  phase = is_open_phase-eq _ (not-eq_false _ phase);
                  in_time = ltb_ℤ-false state.terms.deadline_epoch_s command.now_epoch_s time;
                  is_fresh = is_some-none _ fresh;
                  recipe_accepted = not-eq_false _ recipe;
                  verifier_accepted = not-eq_false _ verifier;
                  has_evidence = evidence;
                  bonded = ltb-false _ _ bond;
                })

  pub verify_submission-OnCommit :
      (command : VerifySubmission) (policy : MarketPolicy) (evidence : MarketEvidence)
      → ((s : SubmissionState)
          → VerifyChecks crypto state command policy evidence s
          → OnCommit P (commit_verdict crypto state command s))
      → OnCommit P (verify_submission crypto state command policy evidence)
  unfolding verify_submission
  verify_submission-OnCommit command policy evidence k = guard-OnCommit _ _ _ _ _ λ named.
      guard-OnCommit _ _ _ _ _ λ receipt. guard-OnCommit _ _ _ _ _ λ phase.
        guard-OnCommit _ _ _ _ _ λ time. found-OnCommit _ _ _ _ _ λ s is_found.
          guard-OnCommit _ _ _ _ _ λ status. guard-OnCommit _ _ _ _ _ λ verifier.
            bind-OnCommit _ _ λ statement is_admitted. k s (record {
              receipt = not-eq_false _ receipt;
              phase = is_open_phase-eq _ (not-eq_false _ phase);
              in_time = ltb_ℤ-false (challenge_deadline state) command.now_epoch_s time;
              is_found = is_found;
              status = is_pending-eq _ (not-eq_false _ status);
              verifier = str_eq-eq _ _ (not-eq_false _ verifier);
              statement = statement;
              is_admitted = is_admitted;
            })
