-- ===== src/Market/Handlers/Advance.antt =====
-- src/popperpad/core/market.py: `_advance_bounty`.
use popper_pad.Prelude.{
  ltb, leb_ℤ, ltb_ℤ, not, ◌&&◌, ◌||◌, Bool, any, keep, is_empty, set_add, le_text, List, [], ◌∷◌,
  ◌++◌, String, map, if◌then◌else◌,
}
use popper_pad.Values.{zero_amount, str}
use popper_pad.Codec.{Crypto}
use popper_pad.Market.Types.{
  BountyPhase, ChallengeStatus, BountyState, SubmissionState, ChallengeState, MarketPolicy,
  is_open_phase, is_verified, is_open, phase_value,
}
use popper_pad.Market.Commands.{
  AdvanceBounty, MarketCommand, EffectKind, MarketEffect, RejectionCode, MarketDecision, refuse_if,
  ◌>>◌,
}
use popper_pad.Market.Lookup.{
  replace_challenge, challenge_deadline, resolution_deadline, effect, accepted, failed,
}

-- `timed_out`
abbrev pub timed_out : ChallengeState → ChallengeState
timed_out c = record c { status = ChallengeStatus.rejected; deposit_locked = zero_amount }

abbrev pub open_challenges : BountyState → List ChallengeState
open_challenges state = keep (λ c. is_open c.status) state.challenges

-- The loop over the open challenges: the challenges after it, and its effects.
unfoldable pub close_challenges : List ChallengeState → List ChallengeState → List ChallengeState
close_challenges [] challenges = challenges
close_challenges (c ∷ cs) challenges =
    close_challenges cs (replace_challenge challenges (timed_out c))

unfoldable pub timeout_effects : MarketPolicy → List ChallengeState → List MarketEffect
timeout_effects policy [] = []
timeout_effects policy (c ∷ cs) =
    effect EffectKind.slash_challenge_deposit policy.treasury_ref c.deposit_locked c.challenge_id
      (("finding_kind", str c.finding_kind) ∷ ("reason", str "resolution_timeout") ∷ [])
    ∷ timeout_effects policy cs

-- The order of the keys `(value.submitted_at, value.submission_id)`.
unfoldable pub le_key : SubmissionState → SubmissionState → Bool
le_key a b =
    ltb_ℤ a.submitted_at b.submitted_at
    || (leb_ℤ a.submitted_at b.submitted_at && le_text a.submission_id b.submission_id)

unfoldable pub insert_submission : SubmissionState → List SubmissionState → List SubmissionState
insert_submission s [] = s ∷ []
insert_submission s (t ∷ ts) = if le_key s t then s ∷ t ∷ ts else t ∷ insert_submission s ts

-- `sorted`, which is stable.
unfoldable pub sort_submissions : List SubmissionState → List SubmissionState
sort_submissions [] = []
sort_submissions (s ∷ ss) = insert_submission s (sort_submissions ss)

-- `eligible`
unfoldable pub eligible : BountyState → List String
eligible state =
    map (λ s. s.submission_id)
      (keep (λ s. is_verified s.status) (sort_submissions state.submissions))

-- The loop that gives back every locked bond: the submissions after it, and its effects.
unfoldable pub release_bonds : List SubmissionState → List SubmissionState
release_bonds [] = []
release_bonds (s ∷ ss) =
    (if ltb 0 s.bond_locked.atoms then record s { bond_locked = zero_amount } else s)
    ∷ release_bonds ss

unfoldable pub refund_effects : String → List SubmissionState → List MarketEffect
refund_effects reason [] = []
refund_effects reason (s ∷ ss) =
    let rest = refund_effects reason ss in
    if ltb 0 s.bond_locked.atoms
    then effect EffectKind.refund_submission_bond s.submitter_ref s.bond_locked s.submission_id
        (("reason", str reason) ∷ [])
      ∷ rest
    else rest

-- The next state of `_advance_bounty` when a verified submission is there.
abbrev pub after_payable : BountyState → AdvanceBounty → BountyState
after_payable state command = record state {
  phase = BountyPhase.payable;
  challenges = close_challenges (open_challenges state) state.challenges;
  payable_submission_ids = eligible state;
  processed_command_ids = set_add state.processed_command_ids command.command_id;
}

-- The next state of `_advance_bounty` when there is none.
abbrev pub after_expired : BountyState → AdvanceBounty → BountyState
after_expired state command = record state {
  phase = BountyPhase.expired;
  escrow_locked = zero_amount;
  submissions = release_bonds state.submissions;
  challenges = close_challenges (open_challenges state) state.challenges;
  processed_command_ids = set_add state.processed_command_ids command.command_id;
}

-- The effect that gives the escrow of an expired bounty back.
abbrev pub refund_escrow : BountyState → MarketEffect
refund_escrow state =
    effect EffectKind.refund_escrow state.terms.sponsor_ref state.escrow_locked
      state.terms.bounty_id (("reason", str "no_payable_submission") ∷ [])

module _ (crypto : Crypto) where
  -- What `_advance_bounty` commits when a verified submission is there.
  unfoldable pub commit_payable : BountyState → AdvanceBounty → MarketPolicy → MarketDecision
  commit_payable state command policy =
      accepted crypto state (after_payable state command) (MarketCommand.advance_bounty command)
        "bounty_payable" (timeout_effects policy (open_challenges state))

  -- What `_advance_bounty` commits when there is none.
  unfoldable pub commit_expired : BountyState → AdvanceBounty → MarketPolicy → MarketDecision
  commit_expired state command policy =
      failed crypto state (after_expired state command) (MarketCommand.advance_bounty command)
        "bounty_expired" "NO_PAYABLE_SUBMISSION"
        (timeout_effects policy (open_challenges state)
          ++ (refund_escrow state ∷ refund_effects "bounty_expired" state.submissions))

  unfoldable pub advance_bounty : BountyState → AdvanceBounty → MarketPolicy → MarketDecision
  advance_bounty state command policy = do
    refuse_if (not (is_open_phase state.phase)) RejectionCode.wrong_phase "phase"
        (phase_value state.phase)
    refuse_if (leb_ℤ command.now_epoch_s (challenge_deadline state)) RejectionCode.time_window
        "challenge_deadline" "window is still open"
    refuse_if
        (any (λ c. leb_ℤ command.now_epoch_s (resolution_deadline state c policy))
          (open_challenges state))
        RejectionCode.policy_mismatch "challenges" "challenge adjudication is still open"
    if not (is_empty (eligible state))
        then commit_payable state command policy
        else commit_expired state command policy
