-- ===== src/Market/Handlers/Funding.antt =====
-- src/popperpad/core/market.py: `_open_bounty` and `_cancel_bounty`.
use popper_pad.Prelude.{
  max, ◌==◌, leb_ℤ, not, ◌||◌, is_empty, str_eq, str_nat, set_add, [], ◌∷◌, ◌⊕◌,
}
use popper_pad.Values.{zero_amount, str}
use popper_pad.Codec.{Crypto}
use popper_pad.Market.Types.{
  BountyPhase, BountyState, MarketPolicy, is_draft_phase, is_open_phase, phase_value,
}
use popper_pad.Market.Commands.{
  OpenBounty, CancelBounty, MarketCommand, EffectKind, RejectionCode, MarketDecision, refuse_if,
  ◌>>◌,
}
use popper_pad.Market.Lookup.{effect, accepted}

-- The next state of `_open_bounty`.
abbrev pub after_open : BountyState → OpenBounty → BountyState
after_open state command = record state {
  phase = BountyPhase.opened;
  escrow_locked = command.funded;
  processed_command_ids = set_add state.processed_command_ids command.command_id;
}

-- The next state of `_cancel_bounty`.
abbrev pub after_cancel : BountyState → CancelBounty → BountyState
after_cancel state command = record state {
  phase = BountyPhase.canceled;
  escrow_locked = zero_amount;
  processed_command_ids = set_add state.processed_command_ids command.command_id;
}

module _ (crypto : Crypto) where
  -- What `_open_bounty` commits.
  unfoldable pub commit_open : BountyState → OpenBounty → MarketDecision
  commit_open state command =
      accepted crypto state (after_open state command) (MarketCommand.open_bounty command)
        "bounty_opened"
        (effect EffectKind.lock_escrow command.sponsor_ref command.funded state.terms.bounty_id []
          ∷ [])

  unfoldable pub open_bounty : BountyState → OpenBounty → MarketPolicy → MarketDecision
  open_bounty state command policy = do
    let required = max state.terms.reward.atoms policy.minimum_bounty.atoms
    refuse_if (not (is_draft_phase state.phase)) RejectionCode.wrong_phase "phase"
        (phase_value state.phase)
    refuse_if (leb_ℤ state.terms.deadline_epoch_s command.now_epoch_s) RejectionCode.time_window
        "deadline" "bounty must open before deadline"
    refuse_if (not (str_eq command.sponsor_ref state.terms.sponsor_ref))
        RejectionCode.policy_mismatch "sponsor_ref" command.sponsor_ref
    refuse_if (not (command.funded.atoms == required)) RejectionCode.insufficient_amount "funded"
        ("must equal " ⊕ (str_nat required ⊕ " atoms"))
    commit_open state command

  -- What `_cancel_bounty` commits.
  unfoldable pub commit_cancel : BountyState → CancelBounty → MarketDecision
  commit_cancel state command =
      accepted crypto state (after_cancel state command) (MarketCommand.cancel_bounty command)
        "bounty_canceled"
        (effect EffectKind.refund_escrow state.terms.sponsor_ref state.escrow_locked
            state.terms.bounty_id (("reason", str "sponsor_cancel_before_activity") ∷ [])
          ∷ [])

  unfoldable pub cancel_bounty : BountyState → CancelBounty → MarketDecision
  cancel_bounty state command = do
    refuse_if (not (is_open_phase state.phase)) RejectionCode.wrong_phase "phase"
        (phase_value state.phase)
    refuse_if (leb_ℤ state.terms.deadline_epoch_s command.now_epoch_s) RejectionCode.time_window
        "deadline" "cannot cancel at or after deadline"
    refuse_if (not (is_empty state.submissions) || not (is_empty state.challenges))
        RejectionCode.policy_mismatch "market_activity" "cannot cancel after activity"
    refuse_if (not (str_eq command.sponsor_ref state.terms.sponsor_ref))
        RejectionCode.policy_mismatch "sponsor_ref" command.sponsor_ref
    commit_cancel state command
