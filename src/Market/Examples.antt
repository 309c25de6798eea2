-- ===== src/Market/Examples.antt =====
-- The theorems at concrete inputs: the bounty of the samples, from its opening to its settlement.
use popper_pad.Market.Types.{BountyPhase}
use popper_pad.Prelude.{
  false, ◌+◌, ◌≡◌, ◌↔◌, refl, true, none, some, List, [], ◌∷◌, ◌++◌, String, contains,
}
use popper_pad.Market.Commands.{committed}
use popper_pad.Market.Invariants.Relations.{market_state_violations, is_terminal}
use popper_pad.Market.Apply.{apply_market_command}
use popper_pad.Market.Validity.Spec.{IsValid, market_state_violations-IsValid}
use popper_pad.Market.Ids.{Distinct}
use popper_pad.Market.Conservation.{locked, inflow, outflow}
use popper_pad.Market.Conservation.Handlers.{apply-Balanced}
use popper_pad.Market.Authority.{HasVerdict, verdict-HasReceipt, HasRuling, ruling-HasReceipt}
use popper_pad.Market.Types.{terms_built, initial_bounty}
use popper_pad.Market.Samples.{terms}
use popper_pad.Market.Solvency.{initial_bounty-IsValid, locked-terminal}
use popper_pad.Market.Apply.{validate_market_policy}
use popper_pad.Market.Evidence.{validate_market_evidence}
use popper_pad.Market.Progress.{IsDueAdvance, Closes, advance-Closes}
use popper_pad.Market.Progress.Settling.{CanSettle, payable-CanSettle}
use popper_pad.Prelude.{pos}
use popper_pad.Market.Calm.{is_raised}
use popper_pad.Market.Calm.Bindings.{apply_market_command-calm}
use popper_pad.Prelude.{any}
use popper_pad.Market.Eligible.{is_eligible, advance-eligible}
use popper_pad.Market.Settlement.{IsShare, settlement-IsShare}
use popper_pad.Market.Lifecycle.{IsStep, Run}
use popper_pad.Market.Lifecycle.Steps.{apply-IsStep}
use popper_pad.Market.Lifecycle.Runs.{
  terminal-committed, replay-committed, Run-Balanced, Run-Distinct,
}
use popper_pad.Market.Samples.{plain, policy, no_evidence, start, opening, program, hashing}
use popper_pad.Market.Samples.Story.{
  opened, submitting, submitted, verdict, verifying, verdict_evidence, verified, advancing, payable,
  settling, settlement, settled, closing, objecting, challenged, ruling, resolving, ruling_evidence,
  slashed,
}

opening-commits :
    committed (apply_market_command plain start opening policy no_evidence) ≡ some opened
unfolding program hashing
opening-commits = refl

submitting-commits :
    committed (apply_market_command plain opened.next submitting policy no_evidence)
    ≡ some submitted
unfolding program hashing
submitting-commits = refl

verifying-commits :
    committed (apply_market_command plain submitted.next verifying policy verdict_evidence)
    ≡ some verified
unfolding program hashing
verifying-commits = refl

advancing-commits :
    committed (apply_market_command plain verified.next advancing policy no_evidence) ≡ some payable
unfolding program hashing
advancing-commits = refl

settling-commits :
    committed (apply_market_command plain payable.next settling policy no_evidence) ≡ some settled
unfolding program hashing
settling-commits = refl

abbrev story_ids : List String
story_ids = "c1" ∷ "c2" ∷ "c3" ∷ "c4" ∷ "c5" ∷ []

-- The whole life of the sample bounty.
story :
    Run plain start story_ids
      (opened.effects
        ++ (submitted.effects
            ++ (verified.effects ++ (payable.effects ++ (settled.effects ++ [])))))
      settled.next
story = Run.commits opening policy no_evidence opened opening-commits (
    Run.commits submitting policy no_evidence submitted submitting-commits (
      Run.commits verifying policy verdict_evidence verified verifying-commits (
        Run.commits advancing policy no_evidence payable advancing-commits
          (Run.commits settling policy no_evidence settled settling-commits Run.idle))))

apply-Balanced_example :
    locked payable.next + inflow settled.effects ≡ locked settled.next + outflow settled.effects
apply-Balanced_example =
    apply-Balanced plain payable.next settling policy no_evidence settled settling-commits

Run-Balanced_example :
    locked start
      + inflow (
          opened.effects
          ++ (submitted.effects
              ++ (verified.effects ++ (payable.effects ++ (settled.effects ++ [])))))
    ≡ locked settled.next
      + outflow (
          opened.effects
          ++ (submitted.effects
              ++ (verified.effects ++ (payable.effects ++ (settled.effects ++ [])))))
Run-Balanced_example = Run-Balanced plain story

Run-Distinct_example : Distinct story_ids
Run-Distinct_example = Run-Distinct plain story

apply-IsStep_example : IsStep plain submitted.next verifying verified
apply-IsStep_example =
    apply-IsStep plain submitted.next verifying policy verdict_evidence verified verifying-commits

settled-terminal : is_terminal settled.next.phase ≡ true
unfolding program hashing
settled-terminal = refl

terminal-committed_example :
    committed (apply_market_command plain settled.next advancing policy no_evidence) ≡ none
terminal-committed_example =
    terminal-committed plain settled.next advancing policy no_evidence settled-terminal

submitting-processed : contains submitted.next.processed_command_ids "c2" ≡ true
unfolding program hashing
submitting-processed = refl

replay-committed_example :
    committed (apply_market_command plain submitted.next submitting policy no_evidence) ≡ none
replay-committed_example =
    replay-committed plain submitted.next submitting policy no_evidence submitting-processed

verdict-HasReceipt_example : HasVerdict plain submitted.next verdict policy verdict_evidence
verdict-HasReceipt_example =
    verdict-HasReceipt plain submitted.next verdict policy verdict_evidence verified
      verifying-commits

payable-violations : market_state_violations payable.next ≡ []
unfolding program hashing
payable-violations = refl

settlement-IsShare_example : IsShare payable.next settlement.payouts
settlement-IsShare_example =
    settlement-IsShare plain payable.next settlement policy no_evidence settled settling-commits

objecting-commits :
    committed (apply_market_command plain verified.next objecting policy no_evidence)
    ≡ some challenged
unfolding program hashing
objecting-commits = refl

resolving-commits :
    committed (apply_market_command plain challenged.next resolving policy ruling_evidence)
    ≡ some slashed
unfolding program hashing
resolving-commits = refl

ruling-HasReceipt_example : HasRuling plain challenged.next ruling policy ruling_evidence
ruling-HasReceipt_example =
    ruling-HasReceipt plain challenged.next ruling policy ruling_evidence slashed resolving-commits

market_state_violations-IsValid_example :
    (market_state_violations payable.next ≡ []) ↔ IsValid payable.next
market_state_violations-IsValid_example = market_state_violations-IsValid payable.next

terms-built : terms_built terms ≡ true
unfolding terms_built program
terms-built = refl

initial_bounty-IsValid_example : market_state_violations (initial_bounty terms) ≡ []
initial_bounty-IsValid_example = initial_bounty-IsValid terms terms-built

settled-violations : market_state_violations settled.next ≡ []
unfolding program hashing
settled-violations = refl

locked-terminal_example : locked settled.next ≡ 0
locked-terminal_example = locked-terminal settled.next settled-violations settled-terminal

closing-due : IsDueAdvance verified.next closing policy
unfolding program hashing
closing-due = record {
  id_valid = refl;
  is_new = refl;
  time_valid = refl;
  checks = record { phase = refl; window_over = refl; adjudicated = refl };
}

verified-violations : market_state_violations verified.next ≡ []
unfolding program hashing
verified-violations = refl

policy-valid : validate_market_policy policy ≡ none
unfolding program
policy-valid = refl

no_evidence-valid : validate_market_evidence plain no_evidence ≡ none
unfolding program
no_evidence-valid = refl

advance-Closes_example : Closes plain verified.next advancing policy no_evidence
advance-Closes_example =
    advance-Closes plain verified.next closing policy no_evidence verified-violations policy-valid
      no_evidence-valid closing-due

payable-CanSettle_example :
    CanSettle plain payable.next policy no_evidence "c5" "settlement-1" (pos 1600)
unfolding program
payable-CanSettle_example =
    payable-CanSettle plain payable.next policy no_evidence "c5" "settlement-1" (pos 1600)
      payable-violations refl policy-valid no_evidence-valid refl refl refl refl

apply_market_command-calm_example :
    is_raised (apply_market_command plain submitted.next verifying policy verdict_evidence) ≡ false
apply_market_command-calm_example =
    apply_market_command-calm plain submitted.next verifying policy verdict_evidence

payable-phase : payable.next.phase ≡ BountyPhase.payable
payable-phase = refl

advance-eligible_example :
    contains payable.next.payable_submission_ids "s1"
    ≡ any (is_eligible "s1") verified.next.submissions
advance-eligible_example =
    advance-eligible plain verified.next closing policy no_evidence payable advancing-commits
      payable-phase "s1"
