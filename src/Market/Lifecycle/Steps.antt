-- ===== src/Market/Lifecycle/Steps.antt =====
-- The handlers of src/popperpad/core/market.py as steps of the life of a bounty.
use popper_pad.Prelude.{◌≡◌, refl, some, List, String, set_add}
use popper_pad.Codec.{Crypto}
use mathlib.Core.Path.{subst}
use popper_pad.Prelude.{sym}
use popper_pad.Market.Types.{BountyPhase, BountyState, MarketPolicy}
use popper_pad.Market.Commands.{
  MarketCommand, command_id, MarketEvidence, MarketEffect, Commit, committed,
}
use popper_pad.Market.Json.{market_state_hash}
use popper_pad.Market.Lookup.{transition_receipt}
use popper_pad.Market.Commits.{
  OnCommit, accept-OnCommit, failure-OnCommit, if-OnCommit, apply-OnCommit,
}
use popper_pad.Market.Handlers.Funding.{commit_open, commit_cancel}
use popper_pad.Market.Handlers.Submissions.{commit_submit, commit_verdict}
use popper_pad.Market.Handlers.Challenges.{commit_challenge, commit_upheld, commit_dismissed}
use popper_pad.Market.Handlers.Advance.{commit_payable, commit_expired}
use popper_pad.Market.Handlers.Settle.{commit_settled}
use popper_pad.Market.Guards.Funding.{open_bounty-OnCommit, cancel_bounty-OnCommit}
use popper_pad.Market.Guards.Submissions.{submit_candidate-OnCommit, verify_submission-OnCommit}
use popper_pad.Market.Guards.Challenges.{open_challenge-OnCommit, resolve_challenge-OnCommit}
use popper_pad.Market.Guards.Advance.{advance_bounty-OnCommit}
use popper_pad.Market.Guards.Settle.{settle_bounty-OnCommit}
use popper_pad.Market.Apply.{dispatch, apply_market_command}
use popper_pad.Market.Lifecycle.{Move, IsStep}

module _ (crypto : Crypto) (state : BountyState) where
  -- A next state with the terms of the state and the command's id, with the receipt for it.
  transition_receipt-IsStep :
      (command : MarketCommand) (next : BountyState) (event : String) (es : List MarketEffect)
      {before : BountyPhase}
      → state.phase ≡ before
      → Move command before next.phase
      → next.terms ≡ state.terms
      → next.processed_command_ids ≡ set_add state.processed_command_ids (command_id command)
      → IsStep crypto state command (record {
        next = next;
        effects = es;
        receipt = transition_receipt crypto state next command event es;
      })
  unfolding transition_receipt market_state_hash
  transition_receipt-IsStep command next event es same move kept ids = record {
    move = subst (λ p. Move command p next.phase) (sym same) move;
    terms_kept = kept;
    id_recorded = ids;
    receipt = record {
      bounty = rw kept refl;
      command_named = refl;
      time = refl;
      before = refl;
      after = refl;
      command_digest = refl;
      state_digest = refl;
      effects_digest = refl;
    };
  }

  dispatch-IsStep :
      (command : MarketCommand) (policy : MarketPolicy) (evidence : MarketEvidence)
      → OnCommit (IsStep crypto state command) (dispatch crypto state command policy evidence)
  unfolding dispatch commit_open commit_cancel commit_submit commit_verdict commit_challenge
      commit_upheld commit_dismissed commit_payable commit_expired commit_settled
  dispatch-IsStep (MarketCommand.open_bounty c) policy evidence =
      open_bounty-OnCommit crypto state c policy λ checks.
        accept-OnCommit _ _ _
          (transition_receipt-IsStep _ _ _ _ checks.phase (Move.opens c) refl refl)
  dispatch-IsStep (MarketCommand.submit_candidate c) policy evidence =
      submit_candidate-OnCommit crypto state c policy λ checks. accept-OnCommit _ _ _ (
        transition_receipt-IsStep _ _ _ _ checks.phase
          (subst (Move _ _) (sym checks.phase) (Move.submits c)) refl refl)
  dispatch-IsStep (MarketCommand.verify_submission c) policy evidence =
      verify_submission-OnCommit crypto state c policy evidence λ s checks.
        let move = subst (Move _ _) (sym checks.phase) (Move.verifies c) in
        if-OnCommit c.accepted _ _
          (λ yes_given.
            accept-OnCommit _ _ _ (transition_receipt-IsStep _ _ _ _ checks.phase move refl refl))
          (λ no_given.
            failure-OnCommit _ _ _ _
              (transition_receipt-IsStep _ _ _ _ checks.phase move refl refl))
  dispatch-IsStep (MarketCommand.open_challenge c) policy evidence =
      open_challenge-OnCommit crypto state c policy λ s checks. accept-OnCommit _ _ _ (
        transition_receipt-IsStep _ _ _ _ checks.phase
          (subst (Move _ _) (sym checks.phase) (Move.challenges c)) refl refl)
  dispatch-IsStep (MarketCommand.resolve_challenge c) policy evidence =
      resolve_challenge-OnCommit crypto state c policy evidence
        (λ ch s checks upheld. accept-OnCommit _ _ _ (
          transition_receipt-IsStep _ _ _ _ checks.phase
            (subst (Move _ _) (sym checks.phase) (Move.resolves c)) refl refl))
        (λ ch s checks dismissed. failure-OnCommit _ _ _ _ (
          transition_receipt-IsStep _ _ _ _ checks.phase
            (subst (Move _ _) (sym checks.phase) (Move.resolves c)) refl refl))
  dispatch-IsStep (MarketCommand.advance_bounty c) policy evidence =
      advance_bounty-OnCommit crypto state c policy
        (λ checks left.
          accept-OnCommit _ _ _
            (transition_receipt-IsStep _ _ _ _ checks.phase (Move.pays c) refl refl))
        (λ checks none_left.
          failure-OnCommit _ _ _ _
            (transition_receipt-IsStep _ _ _ _ checks.phase (Move.expires c) refl refl))
  dispatch-IsStep (MarketCommand.settle_bounty c) policy evidence =
      settle_bounty-OnCommit crypto state c λ checks.
        accept-OnCommit _ _ _
          (transition_receipt-IsStep _ _ _ _ checks.phase (Move.settles c) refl refl)
  dispatch-IsStep (MarketCommand.cancel_bounty c) policy evidence =
      cancel_bounty-OnCommit crypto state c λ checks.
        accept-OnCommit _ _ _
          (transition_receipt-IsStep _ _ _ _ checks.phase (Move.cancels c) refl refl)

-- Whatever `apply_market_command` commits takes a move of the life cycle, keeps the terms, adds the
-- command's id to the processed ids, and has a receipt that names this bounty, this command, its time
-- and both phases, with the digests of the command, of the next state and of the effects.
pub apply-IsStep :
    (crypto : Crypto) (state : BountyState) (command : MarketCommand) (policy : MarketPolicy)
    (evidence : MarketEvidence) (c : Commit)
    → committed (apply_market_command crypto state command policy evidence) ≡ some c
    → IsStep crypto state command c
apply-IsStep crypto state command policy evidence c e =
    (apply-OnCommit crypto state command policy evidence
        (λ a. dispatch-IsStep crypto state command policy evidence)).holds
      c e
