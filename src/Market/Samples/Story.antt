-- ===== src/Market/Samples/Story.antt =====
-- The life of the sample bounty after its opening: a candidate, its verification, the advance to
-- the payable phase, and the settlement.
use popper_pad.Prelude.{ℕ, suc, zero, pos, ℤ, Option, none, true, some, List, [], ◌∷◌, String}
use popper_pad.Market.Types.{BountyPhase, SubmissionStatus, BountyState, SubmissionState}
use popper_pad.Market.Commands.{
  SubmitCandidate, VerifySubmission, OpenChallenge, ResolveChallenge, AdvanceBounty, SettleBounty,
  MarketCommand, EffectKind, TransitionReceipt, VerifierStatement, MarketEvidence, Commit,
}
use popper_pad.Market.Handlers.Submissions.{new_submission}
use popper_pad.Values.{zero_amount, str}
use popper_pad.Market.Lookup.{effect}
use popper_pad.Market.Evidence.{submission_verifier_statement, challenge_verifier_statement}
use popper_pad.Market.Handlers.Challenges.{new_challenge, resolved_challenge}
use popper_pad.Market.Samples.{plain, ref, terms, policy}

-- A receipt of the sample bounty, whose digests are all the same.
abbrev pub receipt : String → String → ℤ → BountyPhase → BountyPhase → TransitionReceipt
receipt command_id event_kind time previous next = record {
  version = "popperpad/market-receipt/v1";
  bounty_id = "bounty-1";
  command_id = command_id;
  event_kind = event_kind;
  occurred_at = time;
  previous_phase = previous;
  next_phase = next;
  command_hash = ref;
  state_hash = ref;
  effect_plan_hash = ref;
}

abbrev pub open_state : List SubmissionState → List String → BountyState
open_state submissions ids = record {
  terms = terms;
  phase = BountyPhase.opened;
  escrow_locked = record { atoms = 100 };
  submissions = submissions;
  challenges = [];
  payable_submission_ids = [];
  settlement_ref = none;
  processed_command_ids = ids;
}

abbrev pub entry : SubmissionStatus → ℕ → Option String → SubmissionState
entry status bond receipt_ref = record {
  submission_id = "s1";
  submitter_ref = "alice";
  recipe_ref = ref;
  verifier_ref = ref;
  evidence_refs = ref ∷ [];
  artifact_refs = [];
  submitted_at = pos 100;
  status = status;
  bond_locked = record { atoms = bond };
  verifier_receipt_ref = receipt_ref;
}

abbrev pub opened : Commit
opened = record {
  next = open_state [] ("c1" ∷ []);
  effects = effect EffectKind.lock_escrow "sponsor" (record { atoms = 100 }) "bounty-1" [] ∷ [];
  receipt = receipt "c1" "bounty_opened" (pos 10) BountyPhase.draft BountyPhase.opened;
}

abbrev pub candidate : SubmitCandidate
candidate = record {
  command_id = "c2";
  submission_id = "s1";
  submitter_ref = "alice";
  recipe_ref = ref;
  verifier_ref = ref;
  evidence_refs = ref ∷ [];
  artifact_refs = [];
  bond = record { atoms = 10 };
  now_epoch_s = pos 100;
}

abbrev pub submitting : MarketCommand
submitting = MarketCommand.submit_candidate candidate

abbrev pub submitted : Commit
submitted = record {
  next = open_state (entry SubmissionStatus.pending 10 none ∷ []) ("c1" ∷ "c2" ∷ []);
  effects = effect EffectKind.lock_submission_bond "alice" (record { atoms = 10 }) "s1" [] ∷ [];
  receipt = receipt "c2" "candidate_submitted" (pos 100) BountyPhase.opened BountyPhase.opened;
}

abbrev pub verdict : VerifySubmission
verdict = record {
  command_id = "c3";
  submission_id = "s1";
  verifier_ref = ref;
  verifier_receipt_ref = ref;
  accepted = true;
  now_epoch_s = pos 200;
}

abbrev pub verifying : MarketCommand
verifying = MarketCommand.verify_submission verdict

abbrev pub copies : ℕ → ℕ → List ℕ
copies zero x = []
copies (suc n) x = x ∷ copies n x

abbrev pub verdict_evidence : MarketEvidence
verdict_evidence = record {
  verifier_receipts =
      (record {
        statement = VerifierStatement.submission (
            submission_verifier_statement plain submitted.next verdict policy
              (new_submission candidate));
        public_key = copies 32 0;
        signature = copies 64 0;
      })
      ∷ [];
}

abbrev pub verified : Commit
verified = record {
  next = open_state (entry SubmissionStatus.verified 10 (some ref) ∷ []) ("c1" ∷ "c2" ∷ "c3" ∷ []);
  effects = [];
  receipt = receipt "c3" "submission_verified" (pos 200) BountyPhase.opened BountyPhase.opened;
}

abbrev pub closing : AdvanceBounty
closing = record { command_id = "c4"; now_epoch_s = pos 1501 }

abbrev pub advancing : MarketCommand
advancing = MarketCommand.advance_bounty closing

abbrev pub payable : Commit
payable = record {
  next =
      record (open_state (entry SubmissionStatus.verified 10 (some ref) ∷ [])
        ("c1" ∷ "c2" ∷ "c3" ∷ "c4" ∷ [])) {
          phase = BountyPhase.payable;
          payable_submission_ids = "s1" ∷ [];
        };
  effects = [];
  receipt = receipt "c4" "bounty_payable" (pos 1501) BountyPhase.opened BountyPhase.payable;
}

abbrev pub settlement : SettleBounty
settlement = record {
  command_id = "c5";
  settlement_ref = "settlement-1";
  payouts =
      (record { recipient_ref = "alice"; submission_id = "s1"; amount = record { atoms = 100 } })
      ∷ [];
  now_epoch_s = pos 1600;
}

abbrev pub settling : MarketCommand
settling = MarketCommand.settle_bounty settlement

abbrev pub settled : Commit
settled = record {
  next =
      record (open_state (entry SubmissionStatus.verified 0 (some ref) ∷ [])
        ("c1" ∷ "c2" ∷ "c3" ∷ "c4" ∷ "c5" ∷ [])) {
          phase = BountyPhase.settled;
          escrow_locked = zero_amount;
          payable_submission_ids = "s1" ∷ [];
          settlement_ref = some "settlement-1";
        };
  effects =
      effect EffectKind.payout "alice" (record { atoms = 100 }) "s1" []
      ∷ effect EffectKind.refund_submission_bond "alice" (record { atoms = 10 }) "s1"
          (("reason", str "settlement_complete") ∷ [])
      ∷ [];
  receipt = receipt "c5" "bounty_settled" (pos 1600) BountyPhase.payable BountyPhase.settled;
}

abbrev pub objection : OpenChallenge
objection = record {
  command_id = "c6";
  challenge_id = "h1";
  submission_id = "s1";
  challenger_ref = "bob";
  finding_kind = "fraud";
  evidence_refs = ref ∷ [];
  deposit = record { atoms = 7 };
  now_epoch_s = pos 300;
}

abbrev pub objecting : MarketCommand
objecting = MarketCommand.open_challenge objection

abbrev pub challenged : Commit
challenged = record {
  next =
      record (open_state (entry SubmissionStatus.verified 10 (some ref) ∷ [])
        ("c1" ∷ "c2" ∷ "c3" ∷ "c6" ∷ [])) { challenges = new_challenge objection ∷ [] };
  effects = effect EffectKind.lock_challenge_deposit "bob" (record { atoms = 7 }) "h1" [] ∷ [];
  receipt = receipt "c6" "challenge_opened" (pos 300) BountyPhase.opened BountyPhase.opened;
}

abbrev pub ruling : ResolveChallenge
ruling = record {
  command_id = "c7";
  challenge_id = "h1";
  verifier_ref = ref;
  verifier_receipt_ref = ref;
  upheld = true;
  now_epoch_s = pos 400;
}

abbrev pub resolving : MarketCommand
resolving = MarketCommand.resolve_challenge ruling

abbrev pub ruling_evidence : MarketEvidence
ruling_evidence = record {
  verifier_receipts =
      (record {
        statement = VerifierStatement.challenge (
            challenge_verifier_statement plain challenged.next ruling policy
              (new_challenge objection));
        public_key = copies 32 0;
        signature = copies 64 0;
      })
      ∷ [];
}

abbrev pub slashed : Commit
slashed = record {
  next =
      record (open_state (entry SubmissionStatus.rejected 0 (some ref) ∷ [])
        ("c1" ∷ "c2" ∷ "c3" ∷ "c6" ∷ "c7" ∷ [])) {
          challenges = resolved_challenge ruling (new_challenge objection) ∷ [];
        };
  effects =
      effect EffectKind.refund_challenge_deposit "bob" (record { atoms = 7 }) "h1" []
      ∷ effect EffectKind.slash_submission_bond "protocol:treasury" (record { atoms = 10 }) "s1"
          (("finding_kind", str "fraud") ∷ [])
      ∷ [];
  receipt = receipt "c7" "challenge_upheld" (pos 400) BountyPhase.opened BountyPhase.opened;
}
