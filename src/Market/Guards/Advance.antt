-- ===== src/Market/Guards/Advance.antt =====
-- What `_advance_bounty` has checked when it commits.
use popper_pad.Prelude.{
  ◌≡◌, leb_ℤ, true, false, any, is_empty, not, arith, not-eq_false, if◌then◌else◌,
}
use popper_pad.Codec.{Crypto}
use popper_pad.Market.Types.{BountyPhase, BountyState, MarketPolicy, is_open_phase-eq}
use popper_pad.Market.Commands.{AdvanceBounty, Commit, refuse_if, ◌>>◌}
use popper_pad.Market.Lookup.{challenge_deadline, resolution_deadline}
use popper_pad.Market.Commits.{OnCommit, guard-OnCommit, if-OnCommit}
use popper_pad.Market.Handlers.Advance.{
  open_challenges, eligible, commit_payable, commit_expired, advance_bounty,
}

pub record AdvanceChecks (state : BountyState) (command : AdvanceBounty) (policy : MarketPolicy)
    : Type 0 where
  pub phase : state.phase ≡ BountyPhase.opened
  pub window_over : leb_ℤ command.now_epoch_s (challenge_deadline state) ≡ false
  pub adjudicated :
      any
        (λ c. leb_ℤ command.now_epoch_s (resolution_deadline state c policy))
        (open_challenges state)
      ≡ false

module _ (crypto : Crypto) (state : BountyState) (command : AdvanceBounty)
    (policy : MarketPolicy) where
  pub advance_bounty-OnCommit :
      {P : Commit → Type 0}
      → (AdvanceChecks state command policy
          → is_empty (eligible state) ≡ false
          → OnCommit P (commit_payable crypto state command policy))
      → (AdvanceChecks state command policy
          → is_empty (eligible state) ≡ true
          → OnCommit P (commit_expired crypto state command policy))
      → OnCommit P (advance_bounty crypto state command policy)
  unfolding advance_bounty
  advance_bounty-OnCommit payable expired = guard-OnCommit _ _ _ _ _ λ phase.
      guard-OnCommit _ _ _ _ _ λ window. guard-OnCommit _ _ _ _ _ λ adjudicated.
        let checks : AdvanceChecks state command policy = record {
          phase = is_open_phase-eq _ (not-eq_false _ phase);
          window_over = window;
          adjudicated = adjudicated;
        } in
        if-OnCommit (not (is_empty (eligible state))) _ _
          (λ some_left. payable checks (ground arith))
          (λ none_left. expired checks (not-eq_false _ none_left))

  -- These checks are all that `_advance_bounty` asks.
  pub advance_bounty-eq :
      AdvanceChecks state command policy
      → advance_bounty crypto state command policy ≡ (
          if is_empty (eligible state)
          then commit_expired crypto state command policy
          else commit_payable crypto state command policy)
  unfolding advance_bounty refuse_if ◌>>◌
  advance_bounty-eq checks = ground (arith, checks.phase, checks.window_over, checks.adjudicated)
