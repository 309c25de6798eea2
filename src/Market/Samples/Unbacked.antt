-- ===== src/Market/Samples/Unbacked.antt =====
-- A challenge without a deposit in src/popperpad/core/market.py, under a policy that asks for none.
use popper_pad.Prelude.{pos, some, none, [], ◌∷◌, ◌≡◌, refl, map}
use popper_pad.Market.Commands.{MarketCommand, Commit, committed}
use popper_pad.Market.Types.{MarketPolicy, BountyPhase}
use popper_pad.Market.Handlers.Challenges.{new_challenge}
use popper_pad.Market.Invariants.Codes.{MarketStateViolationCode}
use popper_pad.Market.Invariants.Relations.{market_state_violations}
use popper_pad.Market.Apply.{apply_market_command, validate_market_policy}
use popper_pad.Market.Samples.{plain, policy, no_evidence, program, hashing}
use popper_pad.Market.Samples.Story.{objection, verified, challenged, receipt}
use popper_pad.Market.Commands.{OpenChallenge}
use popper_pad.Values.{zero_amount}
use popper_pad.Market.Lookup.{effect}
use popper_pad.Market.Commands.{EffectKind}

abbrev lenient : MarketPolicy
lenient = record policy { minimum_challenge_deposit = zero_amount }

abbrev unbacked : OpenChallenge
unbacked = record objection { deposit = zero_amount }

abbrev unbacked_commit : Commit
unbacked_commit = record {
  next = record challenged.next { challenges = new_challenge unbacked ∷ [] };
  effects = effect EffectKind.lock_challenge_deposit "bob" zero_amount "h1" [] ∷ [];
  receipt = receipt "c6" "challenge_opened" (pos 300) BountyPhase.opened BountyPhase.opened;
}

lenient-valid : validate_market_policy lenient ≡ none
unfolding program
lenient-valid = refl

unbacked-commits :
    committed (
      apply_market_command plain verified.next
        (MarketCommand.open_challenge unbacked)
        lenient
        no_evidence)
    ≡ some unbacked_commit
unfolding program hashing
unbacked-commits = refl

unbacked-violations :
    map (λ v. v.code) (market_state_violations unbacked_commit.next)
    ≡ MarketStateViolationCode.open_challenge_without_deposit ∷ []
unfolding program
unbacked-violations = refl
