-- ===== src/Market/Handlers/Settle.antt =====
-- src/popperpad/core/market.py: `_settle_bounty`.
use popper_pad.Prelude.{
  ℕ, ◌+◌, ◌==◌, not, ◌||◌, any, is_empty, is_nonempty, contains, str_eq, str_nat, set_add, Option,
  none, some, List, [], ◌∷◌, ◌++◌, String, ◌⊕◌, if◌then◌else◌,
}
use popper_pad.Values.{zero_amount}
use popper_pad.Codec.{Crypto}
use popper_pad.Market.Types.{
  BountyPhase, BountyState, SubmissionState, is_payable_phase, phase_value, valid_id,
}
use popper_pad.Market.Commands.{
  Payout, SettleBounty, MarketCommand, EffectKind, MarketEffect, RejectionCode, MarketDecision,
  Admission, admitted, denied, refuse_if, ◌>>=◌, ◌>>◌,
}
use popper_pad.Market.Lookup.{submission, effect, accepted}
use popper_pad.Market.Handlers.Advance.{release_bonds, refund_effects}

-- `eligible.get(submission_id)`
unfoldable pub eligible_submission : BountyState → String → Option SubmissionState
eligible_submission state id =
    if contains state.payable_submission_ids id then submission state id else none

-- The loop over the payouts, from the ids seen and the total so far to the total.
unfoldable pub check_payouts : BountyState → List String → ℕ → List Payout → Admission ℕ
check_payouts state seen total [] = admitted total
check_payouts state seen total (p ∷ ps) =
    let rest = check_payouts state (p.submission_id ∷ seen) (total + p.amount.atoms) ps in
    elim (eligible_submission state p.submission_id) [
      | none ↦ denied (record {
        code = RejectionCode.unknown_entity;
        field = "submission_id";
        reason = p.submission_id;
      })
      | some s ↦
          if contains seen p.submission_id
          then denied (record {
            code = RejectionCode.duplicate_entity;
            field = "submission_id";
            reason = p.submission_id;
          })
          else if not (str_eq p.recipient_ref s.submitter_ref)
          then denied (record {
            code = RejectionCode.policy_mismatch;
            field = "recipient_ref";
            reason = p.recipient_ref;
          })
          else rest
    ]

unfoldable pub payout_effects : List Payout → List MarketEffect
payout_effects [] = []
payout_effects (p ∷ ps) =
    effect EffectKind.payout p.recipient_ref p.amount p.submission_id [] ∷ payout_effects ps

-- The next state of `_settle_bounty`.
abbrev pub after_settle : BountyState → SettleBounty → BountyState
after_settle state command = record state {
  phase = BountyPhase.settled;
  escrow_locked = zero_amount;
  submissions = release_bonds state.submissions;
  settlement_ref = some command.settlement_ref;
  processed_command_ids = set_add state.processed_command_ids command.command_id;
}

module _ (crypto : Crypto) where
  -- What `_settle_bounty` commits.
  unfoldable pub commit_settled : BountyState → SettleBounty → MarketDecision
  commit_settled state command =
      accepted crypto state (after_settle state command) (MarketCommand.settle_bounty command)
        "bounty_settled"
        (payout_effects command.payouts ++ refund_effects "settlement_complete" state.submissions)

  unfoldable pub settle_bounty : BountyState → SettleBounty → MarketDecision
  settle_bounty state command = do
    refuse_if (not (is_nonempty command.settlement_ref)) RejectionCode.invalid_command
        "settlement_ref" "must be non-empty"
    refuse_if
        (any (λ p. not (valid_id p.submission_id) || not (is_nonempty p.recipient_ref))
          command.payouts)
        RejectionCode.invalid_command "payout" "invalid recipient or submission"
    refuse_if (not (is_payable_phase state.phase)) RejectionCode.wrong_phase "phase"
        (phase_value state.phase)
    refuse_if (is_empty command.payouts) RejectionCode.missing_evidence "payouts"
        "must be non-empty"
    total ← check_payouts state [] 0 command.payouts
    refuse_if (not (total == state.escrow_locked.atoms)) RejectionCode.conservation_failure
        "payouts" ("sum " ⊕ (str_nat total ⊕ (" != escrow " ⊕ str_nat state.escrow_locked.atoms)))
    commit_settled state command
