-- ===== src/Market/Guards/Funding.antt =====
-- What `_open_bounty` and `_cancel_bounty` have checked when they commit.
use popper_pad.Prelude.{
  ◌≡◌, leb_ℤ, max, true, false, is_empty, not-eq_false, or-false, ==→eq, str_eq-eq,
}
use popper_pad.Codec.{Crypto}
use popper_pad.Market.Types.{
  BountyPhase, BountyState, MarketPolicy, is_draft_phase-eq, is_open_phase-eq,
}
use popper_pad.Market.Commands.{OpenBounty, CancelBounty, Commit}
use popper_pad.Market.Commits.{OnCommit, guard-OnCommit}
use popper_pad.Market.Handlers.Funding.{open_bounty, cancel_bounty, commit_open, commit_cancel}

pub record OpenChecks (state : BountyState) (command : OpenBounty) (policy : MarketPolicy)
    : Type 0 where
  pub phase : state.phase ≡ BountyPhase.draft
  pub before_deadline : leb_ℤ state.terms.deadline_epoch_s command.now_epoch_s ≡ false
  pub by_sponsor : command.sponsor_ref ≡ state.terms.sponsor_ref
  pub exact : command.funded.atoms ≡ max state.terms.reward.atoms policy.minimum_bounty.atoms

pub record CancelChecks (state : BountyState) (command : CancelBounty) : Type 0 where
  pub phase : state.phase ≡ BountyPhase.opened
  pub before_deadline : leb_ℤ state.terms.deadline_epoch_s command.now_epoch_s ≡ false
  pub no_submissions : is_empty state.submissions ≡ true
  pub no_challenges : is_empty state.challenges ≡ true
  pub by_sponsor : command.sponsor_ref ≡ state.terms.sponsor_ref

module _ (crypto : Crypto) {P : Commit → Type 0} (state : BountyState) where
  pub open_bounty-OnCommit :
      (command : OpenBounty) (policy : MarketPolicy)
      → (OpenChecks state command policy → OnCommit P (commit_open crypto state command))
      → OnCommit P (open_bounty crypto state command policy)
  unfolding open_bounty
  open_bounty-OnCommit command policy k = guard-OnCommit _ _ _ _ _ λ draft.
      guard-OnCommit _ _ _ _ _ λ early. guard-OnCommit _ _ _ _ _ λ sponsor.
        guard-OnCommit _ _ _ _ _ λ exact. k (record {
          phase = is_draft_phase-eq _ (not-eq_false _ draft);
          before_deadline = early;
          by_sponsor = str_eq-eq _ _ (not-eq_false _ sponsor);
          exact = ==→eq _ _ (not-eq_false _ exact);
        })

  pub cancel_bounty-OnCommit :
      (command : CancelBounty)
      → (CancelChecks state command → OnCommit P (commit_cancel crypto state command))
      → OnCommit P (cancel_bounty crypto state command)
  unfolding cancel_bounty
  cancel_bounty-OnCommit command k = guard-OnCommit _ _ _ _ _ λ phase.
      guard-OnCommit _ _ _ _ _ λ early. guard-OnCommit _ _ _ _ _ λ idle.
        guard-OnCommit _ _ _ _ _ λ sponsor.
          let (subs, chs) = or-false _ _ idle in
          k (record {
            phase = is_open_phase-eq _ (not-eq_false _ phase);
            before_deadline = early;
            no_submissions = not-eq_false _ subs;
            no_challenges = not-eq_false _ chs;
            by_sponsor = str_eq-eq _ _ (not-eq_false _ sponsor);
          })
