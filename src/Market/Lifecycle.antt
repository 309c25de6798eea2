-- ===== src/Market/Lifecycle.antt =====
-- The life of a bounty in src/popperpad/core/market.py: the moves between phases, what every
-- commit keeps and records, and runs of commands.
pub mod Steps
pub mod Runs
use popper_pad.Prelude.{
  ◌+◌, ◌≡◌, Bool, true, Option, none, some, List, [], ◌∷◌, ◌++◌, String, contains, set_add,
}
use popper_pad.Codec.{Crypto, json_hash}
use popper_pad.Values.{arr, tuple}
use popper_pad.Prelude.{map}
use popper_pad.Market.Types.{BountyPhase, BountyState, MarketPolicy}
use popper_pad.Market.Commands.{
  OpenBounty, SubmitCandidate, VerifySubmission, OpenChallenge, ResolveChallenge, AdvanceBounty,
  SettleBounty, CancelBounty, MarketCommand, command_id, now_epoch_s, MarketEvidence, MarketEffect,
  Commit, committed,
}
use popper_pad.Market.Json.{state_json, command_json, effect_json, market_state_hash}
use popper_pad.Market.Apply.{apply_market_command}

-- The phases before and after a commit of a command.
pub data Move : MarketCommand → BountyPhase → BountyPhase → Type 0 where
  opens : (c : OpenBounty) → Move (MarketCommand.open_bounty c) BountyPhase.draft BountyPhase.opened
  submits :
      (c : SubmitCandidate)
      → Move (MarketCommand.submit_candidate c) BountyPhase.opened BountyPhase.opened
  verifies :
      (c : VerifySubmission)
      → Move (MarketCommand.verify_submission c) BountyPhase.opened BountyPhase.opened
  challenges :
      (c : OpenChallenge)
      → Move (MarketCommand.open_challenge c) BountyPhase.opened BountyPhase.opened
  resolves :
      (c : ResolveChallenge)
      → Move (MarketCommand.resolve_challenge c) BountyPhase.opened BountyPhase.opened
  pays :
      (c : AdvanceBounty)
      → Move (MarketCommand.advance_bounty c) BountyPhase.opened BountyPhase.payable
  expires :
      (c : AdvanceBounty)
      → Move (MarketCommand.advance_bounty c) BountyPhase.opened BountyPhase.expired
  settles :
      (c : SettleBounty)
      → Move (MarketCommand.settle_bounty c) BountyPhase.payable BountyPhase.settled
  cancels :
      (c : CancelBounty)
      → Move (MarketCommand.cancel_bounty c) BountyPhase.opened BountyPhase.canceled

-- The receipt of a commit is about this step: its parties, its phases and the digests of the
-- command, of the state that it leads to and of the effects.
pub record IsReceipt (crypto : Crypto) (state : BountyState) (command : MarketCommand) (c : Commit)
    : Type 0 where
  pub bounty : c.receipt.bounty_id ≡ state.terms.bounty_id
  pub command_named : c.receipt.command_id ≡ command_id command
  pub time : c.receipt.occurred_at ≡ now_epoch_s command
  pub before : c.receipt.previous_phase ≡ state.phase
  pub after : c.receipt.next_phase ≡ c.next.phase
  pub command_digest :
      c.receipt.command_hash ≡ json_hash crypto "market-command/v1" (command_json command)
  pub state_digest : c.receipt.state_hash ≡ market_state_hash crypto c.next
  pub effects_digest :
      c.receipt.effect_plan_hash
      ≡ json_hash crypto "market-effects/v1" (arr (tuple (map effect_json c.effects)))

-- A commit that is a step from a state by a command.
pub record IsStep (crypto : Crypto) (state : BountyState) (command : MarketCommand) (c : Commit)
    : Type 0 where
  pub move : Move command state.phase c.next.phase
  pub terms_kept : c.next.terms ≡ state.terms
  pub id_recorded :
      c.next.processed_command_ids ≡ set_add state.processed_command_ids (command_id command)
  pub receipt : IsReceipt crypto state command c

-- A run of commands from a state, which are applied with any policies and any evidence: the ids of
-- its commits, all its effects, and the state it leads to. A refused command is a step of the
-- run that leaves the state as it is.
pub data Run (crypto : Crypto)
    : BountyState → List String → List MarketEffect → BountyState → Type 0 where
  idle : {s : BountyState} → Run crypto s [] [] s
  refused :
      {s t : BountyState} {ids : List String} {es : List MarketEffect} (command : MarketCommand)
      (policy : MarketPolicy) (evidence : MarketEvidence)
      → committed (apply_market_command crypto s command policy evidence) ≡ none
      → Run crypto s ids es t
      → Run crypto s ids es t
  commits :
      {s t : BountyState} {ids : List String} {es : List MarketEffect} (command : MarketCommand)
      (policy : MarketPolicy) (evidence : MarketEvidence) (c : Commit)
      → committed (apply_market_command crypto s command policy evidence) ≡ some c
      → Run crypto c.next ids es t
      → Run crypto s (command_id command ∷ ids) (c.effects ++ es) t
