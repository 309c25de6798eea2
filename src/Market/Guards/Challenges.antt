-- ===== src/Market/Guards/Challenges.antt =====
-- What `_open_challenge` and `_resolve_challenge` have checked when they commit.
use popper_pad.Prelude.{
  ◌≡◌, ◌≤◌, ◌≤ℤ◌, ltb_ℤ-false, ltb-false, true, false, ◌&&◌, all, any, is_empty, is_nonempty,
  contains, str_eq, none, some, not-eq_false, or-false, and-true,
}
use popper_pad.Codec.{Crypto}
use popper_pad.Market.Types.{
  BountyPhase, SubmissionStatus, ChallengeStatus, BountyState, SubmissionState, ChallengeState,
  MarketPolicy, is_open, is_open_phase-eq, is_verified-eq, is_open-eq, valid_id, valid_ref,
}
use popper_pad.Market.Commands.{
  OpenChallenge, ResolveChallenge, MarketEvidence, ChallengeVerifierStatement, Commit, admitted,
}
use popper_pad.Market.Lookup.{submission, challenge, challenge_deadline, resolution_deadline}
use popper_pad.Market.Commits.{OnCommit, guard-OnCommit, found-OnCommit, bind-OnCommit, if-OnCommit}
use popper_pad.Market.Admit.{admit_challenge_receipt}
use popper_pad.Market.Handlers.Challenges.{
  open_challenge, resolve_challenge, commit_challenge, commit_upheld, commit_dismissed,
}
use popper_pad.Market.Guards.Submissions.{is_some-none}

pub record ChallengeChecks (state : BountyState) (command : OpenChallenge) (policy : MarketPolicy)
    (s : SubmissionState) : Type 0 where
  pub id : valid_id command.challenge_id ≡ true
  pub subject : valid_id command.submission_id ≡ true
  pub challenger : is_nonempty command.challenger_ref ≡ true
  pub finding : is_nonempty command.finding_kind ≡ true
  pub refs : all valid_ref command.evidence_refs ≡ true
  pub phase : state.phase ≡ BountyPhase.opened
  pub in_time : command.now_epoch_s ≤ℤ challenge_deadline state
  pub is_fresh : challenge state command.challenge_id ≡ none
  pub is_found : submission state command.submission_id ≡ some s
  pub status : s.status ≡ SubmissionStatus.verified
  pub unchallenged :
      any (λ c. str_eq c.submission_id command.submission_id && is_open c.status) state.challenges
      ≡ false
  pub slashable : contains policy.slashable_findings command.finding_kind ≡ true
  pub has_evidence : is_empty command.evidence_refs ≡ false
  pub deposited : policy.minimum_challenge_deposit.atoms ≤ command.deposit.atoms

pub record ResolveChecks (crypto : Crypto) (state : BountyState) (command : ResolveChallenge)
    (policy : MarketPolicy) (evidence : MarketEvidence) (c : ChallengeState) (s : SubmissionState)
    : Type 0 where
  pub receipt : valid_ref command.verifier_receipt_ref ≡ true
  pub phase : state.phase ≡ BountyPhase.opened
  pub is_found : challenge state command.challenge_id ≡ some c
  pub status : c.status ≡ ChallengeStatus.opened
  pub in_time : command.now_epoch_s ≤ℤ resolution_deadline state c policy
  pub verifier_accepted : contains state.terms.accepted_verifier_refs command.verifier_ref ≡ true
  pub subject : submission state c.submission_id ≡ some s
  pub statement : ChallengeVerifierStatement
  pub is_admitted :
      admit_challenge_receipt crypto state command policy evidence c ≡ admitted statement

module _ (crypto : Crypto) {P : Commit → Type 0} (state : BountyState) where
  pub open_challenge-OnCommit :
      (command : OpenChallenge) (policy : MarketPolicy)
      → ((s : SubmissionState)
          → ChallengeChecks state command policy s
          → OnCommit P (commit_challenge crypto state command))
      → OnCommit P (open_challenge crypto state command policy)
  unfolding open_challenge
  open_challenge-OnCommit command policy k = guard-OnCommit _ _ _ _ _ λ named.
      guard-OnCommit _ _ _ _ _ λ texts. guard-OnCommit _ _ _ _ _ λ refs.
        guard-OnCommit _ _ _ _ _ λ phase. guard-OnCommit _ _ _ _ _ λ time.
          guard-OnCommit _ _ _ _ _ λ fresh. found-OnCommit _ _ _ _ _ λ s is_found.
            guard-OnCommit _ _ _ _ _ λ status. guard-OnCommit _ _ _ _ _ λ unchallenged.
              guard-OnCommit _ _ _ _ _ λ finding. guard-OnCommit _ _ _ _ _ λ evidence.
                guard-OnCommit _ _ _ _ _ λ deposit.
                  let (id, subject) = and-true _ _ (not-eq_false _ named) in
                  let (who, what) = or-false _ _ texts in
                  k s (record {
                    id = id;
                    subject = subject;
                    challenger = not-eq_false _ who;
                    finding = not-eq_false _ what;
                    refs = not-eq_false _ refs;
                    phase = is_open_phase-eq _ (not-eq_false _ phase);
                    in_time = ltb_ℤ-false (challenge_deadline state) command.now_epoch_s time;
                    is_fresh = is_some-none _ fresh;
                    is_found = is_found;
                    status = is_verified-eq _ (not-eq_false _ status);
                    unchallenged = unchallenged;
                    slashable = not-eq_false _ finding;
                    has_evidence = evidence;
                    deposited = ltb-false _ _ deposit;
                  })

  pub resolve_challenge-OnCommit :
      (command : ResolveChallenge) (policy : MarketPolicy) (evidence : MarketEvidence)
      → ((c : ChallengeState) (s : SubmissionState)
          → ResolveChecks crypto state command policy evidence c s
          → command.upheld ≡ true
          → OnCommit P (commit_upheld crypto state command policy c s))
      → ((c : ChallengeState) (s : SubmissionState)
          → ResolveChecks crypto state command policy evidence c s
          → command.upheld ≡ false
          → OnCommit P (commit_dismissed crypto state command policy c))
      → OnCommit P (resolve_challenge crypto state command policy evidence)
  unfolding resolve_challenge
  resolve_challenge-OnCommit command policy evidence upheld dismissed =
      guard-OnCommit _ _ _ _ _ λ named. guard-OnCommit _ _ _ _ _ λ receipt.
        guard-OnCommit _ _ _ _ _ λ phase. found-OnCommit _ _ _ _ _ λ c is_found.
          guard-OnCommit _ _ _ _ _ λ status. guard-OnCommit _ _ _ _ _ λ time.
            guard-OnCommit _ _ _ _ _ λ verifier. found-OnCommit _ _ _ _ _ λ s subject.
              bind-OnCommit _ _ λ statement is_admitted.
                let checks : ResolveChecks crypto state command policy evidence c s = record {
                  receipt = not-eq_false _ receipt;
                  phase = is_open_phase-eq _ (not-eq_false _ phase);
                  is_found = is_found;
                  status = is_open-eq _ (not-eq_false _ status);
                  in_time =
                      ltb_ℤ-false (resolution_deadline state c policy) command.now_epoch_s time;
                  verifier_accepted = not-eq_false _ verifier;
                  subject = subject;
                  statement = statement;
                  is_admitted = is_admitted;
                } in
                if-OnCommit command.upheld _ _ (upheld c s checks) (dismissed c s checks)
