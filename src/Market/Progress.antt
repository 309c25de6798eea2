-- ===== src/Market/Progress.antt =====
-- Progress in src/popperpad/core/market.py: when an advance of a bounty commits.
pub mod Settling
use popper_pad.Prelude.{
  ℕ, ◌+◌, ◌==◌, ◌≡◌, refl, Bool, true, false, not, any, is_empty, is_nonempty, contains, none, some,
  List, [], ◌∷◌, String, arith, ℤ, pos, ltb_ℤ, leb_ℤ, Bool-cases, inl, inr, ◌∙◌, ap, sym, subst,
}
use popper_pad.Codec.{Crypto}
use popper_pad.Market.Types.{BountyPhase, BountyState, MarketPolicy, is_open_phase, valid_id}
use popper_pad.Market.Commands.{
  AdvanceBounty, MarketCommand, command_id, now_epoch_s, MarketEvidence, MarketDecision, Commit,
  committed, stop_on, refuse_if, ◌>>◌,
}
use popper_pad.Market.Lookup.{challenge_deadline, resolution_deadline}
use popper_pad.Market.Evidence.{validate_market_evidence, validate_command_evidence_binding}
use popper_pad.Market.Invariants.Relations.{market_state_violations}
use popper_pad.Market.Handlers.Advance.{
  open_challenges, eligible, commit_payable, commit_expired, advance_bounty,
}
use popper_pad.Market.Guards.Advance.{AdvanceChecks, advance_bounty-eq}
use popper_pad.Market.Commits.{Admissible, none-validate_market_state}
use popper_pad.Market.Apply.{
  validate_market_state, validate_market_policy, valid_fields, validate_common_command, dispatch,
  apply_checked, apply_market_command,
}

none-validate_common_command :
    (command : MarketCommand)
    → valid_id (command_id command) ≡ true
    → ltb_ℤ (now_epoch_s command) (pos 0) ≡ false
    → valid_fields command ≡ none
    → validate_common_command command ≡ none
unfolding validate_common_command
none-validate_common_command command id time fields = rw (id, time, fields) refl

-- A command that passes the checks gets the decision of its handler.
pub apply-dispatch :
    (crypto : Crypto) (state : BountyState) (command : MarketCommand) (policy : MarketPolicy)
    (evidence : MarketEvidence)
    → Admissible crypto state command policy evidence
    → apply_market_command crypto state command policy evidence
      ≡ dispatch crypto state command policy evidence
unfolding apply_market_command apply_checked stop_on refuse_if ◌>>◌
apply-dispatch crypto state command policy evidence a =
    rw
      (
        none-validate_market_state state a.state_valid,
        a.policy_valid,
        none-validate_common_command command a.id_valid a.time_valid a.fields_valid,
        a.evidence_valid,
        a.bound,
        a.is_new,
      )
      refl

-- What the clock and the command of an advance must give.
pub record IsDueAdvance (state : BountyState) (command : AdvanceBounty) (policy : MarketPolicy)
    : Type 0 where
  pub id_valid : valid_id command.command_id ≡ true
  pub is_new : contains state.processed_command_ids command.command_id ≡ false
  pub time_valid : ltb_ℤ command.now_epoch_s (pos 0) ≡ false
  pub checks : AdvanceChecks state command policy

-- Something is committed, after which the bounty is no longer open.
abbrev pub Closes : Crypto → BountyState → MarketCommand → MarketPolicy → MarketEvidence → Type 0
Closes crypto state command policy evidence =
    (c : Commit) × (committed (apply_market_command crypto state command policy evidence) ≡ some c)
    × (is_open_phase c.next.phase ≡ false)

-- The decision commits a state that is not open.
abbrev Leaves : MarketDecision → Type 0
Leaves d = (c : Commit) × (committed d ≡ some c) × (is_open_phase c.next.phase ≡ false)

module _ (crypto : Crypto) (state : BountyState) (command : AdvanceBounty)
    (policy : MarketPolicy) where
  commit_payable-Leaves : Leaves (commit_payable crypto state command policy)
  unfolding commit_payable
  commit_payable-Leaves = (_, refl, refl)

  commit_expired-Leaves : Leaves (commit_expired crypto state command policy)
  unfolding commit_expired
  commit_expired-Leaves = (_, refl, refl)

  advance_bounty-Leaves :
      AdvanceChecks state command policy → Leaves (advance_bounty crypto state command policy)
  advance_bounty-Leaves checks =
      subst Leaves (sym (advance_bounty-eq crypto state command policy checks))
        (elim (Bool-cases (is_empty (eligible state))) [
          | inl none_left ↦ rw none_left commit_expired-Leaves
          | inr left ↦ rw left commit_payable-Leaves
        ])

-- An open bounty without violations does not stay open: after the challenge deadline and the
-- resolution deadlines of its open challenges, an advance with a valid new id and a time that is not
-- negative, under a valid policy and with valid evidence, commits a state that is not open.
pub advance-Closes :
    (crypto : Crypto) (state : BountyState) (command : AdvanceBounty) (policy : MarketPolicy)
    (evidence : MarketEvidence)
    → market_state_violations state ≡ []
    → validate_market_policy policy ≡ none
    → validate_market_evidence crypto evidence ≡ none
    → IsDueAdvance state command policy
    → Closes crypto state (MarketCommand.advance_bounty command) policy evidence
unfolding dispatch validate_command_evidence_binding valid_fields
advance-Closes crypto state command policy evidence valid good fine due =
    let (c, e, closed) = advance_bounty-Leaves crypto state command policy due.checks in
    (
      c,
      ap committed (
            apply-dispatch crypto state (MarketCommand.advance_bounty command) policy evidence
              (record {
                state_valid = valid;
                policy_valid = good;
                id_valid = due.id_valid;
                time_valid = due.time_valid;
                fields_valid = refl;
                evidence_valid = fine;
                bound = refl;
                is_new = due.is_new;
              }))
          ∙ e,
      closed,
    )
