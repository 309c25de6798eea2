-- ===== src/Market/Apply.antt =====
-- src/popperpad/core/market.py: `apply_market_command`, with the checks that come before the
-- handlers. The checks of Python types have no counterpart: the commands are typed.
use popper_pad.Prelude.{
  pos, ltb_ℤ, not, all, contains, is_empty, is_nonempty, ◌&&◌, Option, none, some, [], ◌∷◌, String,
  str_int, if◌then◌else◌,
}
use popper_pad.Codec.{Crypto}
use popper_pad.Market.Types.{BountyState, MarketPolicy, valid_id, valid_ref, non_neg_int}
use popper_pad.Market.Commands.{
  MarketCommand, command_id, now_epoch_s, MarketEvidence, RejectionCode, MarketDecision, refuse,
  refuse_if, ◌>>◌, stop_on,
}
use popper_pad.Market.Evidence.{validate_market_evidence, validate_command_evidence_binding}
use popper_pad.Market.Handlers.Funding.{open_bounty, cancel_bounty}
use popper_pad.Market.Handlers.Submissions.{submit_candidate, verify_submission}
use popper_pad.Market.Handlers.Challenges.{open_challenge, resolve_challenge}
use popper_pad.Market.Handlers.Advance.{advance_bounty}
use popper_pad.Market.Handlers.Settle.{settle_bounty}
use popper_pad.Market.Invariants.Codes.{render}
use popper_pad.Market.Invariants.Relations.{market_state_violations}

-- `_validate_market_state`
unfoldable pub validate_market_state : BountyState → Option String
validate_market_state state = elim (market_state_violations state) [
  | [] ↦ none
  | v ∷ vs ↦ some (render v)
]

-- `_validate_market_policy`
unfoldable pub validate_market_policy : MarketPolicy → Option String
validate_market_policy p =
    if not (not (is_empty p.slashable_findings) && all is_nonempty p.slashable_findings)
    then some "slashable_findings must be a non-empty frozenset of strings"
    else if not (is_nonempty p.treasury_ref)
    then some "treasury_ref must be a non-empty string"
    else if not (non_neg_int p.challenge_resolution_seconds)
    then some "challenge_resolution_seconds must be a non-negative integer"
    else if not (is_nonempty p.version)
    then some "version must be a non-empty string"
    else none

-- The tests of field types in `_validate_common_command` that look into the value: the
-- references of `SubmitCandidate` and `OpenChallenge`.
unfoldable pub valid_fields : MarketCommand → Option (String × String)
valid_fields (MarketCommand.submit_candidate c) =
    if all valid_ref c.evidence_refs && all valid_ref c.artifact_refs
    then none
    else some ("submit_candidate", "invalid field type")
valid_fields (MarketCommand.open_challenge c) =
    if all valid_ref c.evidence_refs then none else some ("open_challenge", "invalid field type")
valid_fields _ = none

-- `_validate_common_command`, where `none` lets the command pass.
unfoldable pub validate_common_command : MarketCommand → Option MarketDecision
validate_common_command command =
    if not (valid_id (command_id command))
    then some (refuse RejectionCode.invalid_command "command_id" (command_id command))
    else if ltb_ℤ (now_epoch_s command) (pos 0)
    then some (refuse RejectionCode.invalid_command "now_epoch_s" (str_int (now_epoch_s command)))
    else elim (valid_fields command) [
      | none ↦ none
      | some (field, reason) ↦ some (refuse RejectionCode.invalid_command field reason)
    ]

module _ (crypto : Crypto) where
  -- The dispatch to the handlers.
  unfoldable pub dispatch :
      BountyState → MarketCommand → MarketPolicy → MarketEvidence → MarketDecision
  dispatch state (MarketCommand.open_bounty c) policy evidence = open_bounty crypto state c policy
  dispatch state (MarketCommand.submit_candidate c) policy evidence =
      submit_candidate crypto state c policy
  dispatch state (MarketCommand.verify_submission c) policy evidence =
      verify_submission crypto state c policy evidence
  dispatch state (MarketCommand.open_challenge c) policy evidence =
      open_challenge crypto state c policy
  dispatch state (MarketCommand.resolve_challenge c) policy evidence =
      resolve_challenge crypto state c policy evidence
  dispatch state (MarketCommand.advance_bounty c) policy evidence =
      advance_bounty crypto state c policy
  dispatch state (MarketCommand.settle_bounty c) policy evidence = settle_bounty crypto state c
  dispatch state (MarketCommand.cancel_bounty c) policy evidence = cancel_bounty crypto state c

  -- What `apply_market_command` does once the state, the policy and the common fields are valid.
  unfoldable pub apply_checked :
      BountyState → MarketCommand → MarketPolicy → MarketEvidence → MarketDecision
  apply_checked state command policy evidence =
      stop_on (validate_market_evidence crypto evidence)
        (λ error. refuse RejectionCode.invalid_evidence "evidence" error)
        (stop_on (validate_command_evidence_binding crypto state command policy evidence)
          (λ decision. decision)
          (do
            refuse_if (contains state.processed_command_ids (command_id command))
                RejectionCode.duplicate_command "command_id" (command_id command)
            dispatch state command policy evidence))

  unfoldable pub apply_market_command :
      BountyState → MarketCommand → MarketPolicy → MarketEvidence → MarketDecision
  apply_market_command state command policy evidence =
      stop_on (validate_market_state state)
        (λ error. refuse RejectionCode.invalid_state "state" error)
        (stop_on (validate_market_policy policy)
          (λ error. refuse RejectionCode.invalid_policy "policy" error)
          (stop_on (validate_common_command command) (λ decision. decision)
            (apply_checked state command policy evidence)))
