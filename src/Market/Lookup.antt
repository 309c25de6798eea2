-- ===== src/Market/Lookup.antt =====
-- src/popperpad/core/market.py: lookups and replacements by id, deadlines, effects and receipts.
use popper_pad.Prelude.{
  ℤ, ◌+ℤ◌, max_ℤ, str_eq, Option, none, some, List, [], ◌∷◌, String, map, if◌then◌else◌,
}
use popper_pad.Values.{Amount, Json, arr, dict, tuple}
use popper_pad.Codec.{Crypto, json_hash}
use popper_pad.Market.Types.{BountyState, SubmissionState, ChallengeState, MarketPolicy}
use popper_pad.Market.Commands.{
  MarketCommand, command_id, now_epoch_s, EffectKind, MarketEffect, TransitionReceipt,
  MarketDecision,
}
use popper_pad.Market.Json.{state_json, command_json, effect_json}

-- `next((value for value in values if value.id == id), None)`
module _ {ℓ} {A : Type ℓ} (key : A → String) where
  unfoldable pub find_by : List A → String → Option A
  find_by [] id = none
  find_by (x ∷ xs) id = if str_eq (key x) id then some x else find_by xs id

  -- `tuple(r if value.id == r.id else value for value in values)`
  unfoldable pub replace_by : List A → A → List A
  replace_by [] r = []
  replace_by (x ∷ xs) r = (if str_eq (key x) (key r) then r else x) ∷ replace_by xs r

abbrev pub submission_key : SubmissionState → String
submission_key s = s.submission_id

abbrev pub challenge_key : ChallengeState → String
challenge_key c = c.challenge_id

-- `_submission`
abbrev pub submission : BountyState → String → Option SubmissionState
submission state = find_by submission_key state.submissions

-- `_challenge`
abbrev pub challenge : BountyState → String → Option ChallengeState
challenge state = find_by challenge_key state.challenges

-- `_replace_submission`
abbrev pub replace_submission : List SubmissionState → SubmissionState → List SubmissionState
replace_submission = replace_by submission_key

-- `_replace_challenge`
abbrev pub replace_challenge : List ChallengeState → ChallengeState → List ChallengeState
replace_challenge = replace_by challenge_key

-- `_challenge_deadline`
unfoldable pub challenge_deadline : BountyState → ℤ
challenge_deadline state = state.terms.deadline_epoch_s +ℤ state.terms.challenge_window_seconds

-- `_resolution_deadline`
unfoldable pub resolution_deadline : BountyState → ChallengeState → MarketPolicy → ℤ
resolution_deadline state c policy =
    max_ℤ (challenge_deadline state) (c.opened_at +ℤ policy.challenge_resolution_seconds)

-- `_effect`, with the keyword arguments as a list.
abbrev pub effect : EffectKind → String → Amount → String → List (String × Json) → MarketEffect
effect kind account_ref amount subject_ref metadata = record {
  kind = kind;
  account_ref = account_ref;
  amount = amount;
  subject_ref = subject_ref;
  metadata = dict metadata;
}

module _ (crypto : Crypto) where
  -- `_receipt`
  unfoldable pub transition_receipt :
      BountyState → BountyState → MarketCommand → String → List MarketEffect → TransitionReceipt
  transition_receipt previous next command event_kind effects = record {
    version = "popperpad/market-receipt/v1";
    bounty_id = next.terms.bounty_id;
    command_id = command_id command;
    event_kind = event_kind;
    occurred_at = now_epoch_s command;
    previous_phase = previous.phase;
    next_phase = next.phase;
    command_hash = json_hash crypto "market-command/v1" (command_json command);
    state_hash = json_hash crypto "market-state/v1" (state_json next);
    effect_plan_hash = json_hash crypto "market-effects/v1" (arr (tuple (map effect_json effects)));
  }

  -- `_accept`
  abbrev pub accepted :
      BountyState → BountyState → MarketCommand → String → List MarketEffect → MarketDecision
  accepted previous next command event_kind effects =
      MarketDecision.accept next effects
        (transition_receipt previous next command event_kind effects)

  -- `_committed_failure`
  abbrev pub failed :
      BountyState
      → BountyState
      → MarketCommand
      → String
      → String
      → List MarketEffect
      → MarketDecision
  failed previous next command event_kind failure_code effects =
      MarketDecision.committed_failure failure_code next effects
        (transition_receipt previous next command event_kind effects)
