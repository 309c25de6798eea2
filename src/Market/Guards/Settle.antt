-- ===== src/Market/Guards/Settle.antt =====
-- What `_settle_bounty` has checked when it commits.
use popper_pad.Prelude.{
  ◌≡◌, true, false, any, not, ◌||◌, is_empty, is_nonempty, [], not-eq_false, ==→eq,
}
use popper_pad.Codec.{Crypto}
use popper_pad.Market.Types.{BountyPhase, BountyState, is_payable_phase-eq, valid_id}
use popper_pad.Market.Commands.{SettleBounty, Commit, admitted}
use popper_pad.Market.Commits.{OnCommit, guard-OnCommit, bind-OnCommit}
use popper_pad.Market.Handlers.Settle.{check_payouts, commit_settled, settle_bounty}

pub record SettleChecks (state : BountyState) (command : SettleBounty) : Type 0 where
  pub reference : is_nonempty command.settlement_ref ≡ true
  pub recipients :
      any (λ p. not (valid_id p.submission_id) || not (is_nonempty p.recipient_ref)) command.payouts
      ≡ false
  pub phase : state.phase ≡ BountyPhase.payable
  pub has_payouts : is_empty command.payouts ≡ false
  pub total : check_payouts state [] 0 command.payouts ≡ admitted state.escrow_locked.atoms

module _ (crypto : Crypto) {P : Commit → Type 0} (state : BountyState) where
  pub settle_bounty-OnCommit :
      (command : SettleBounty)
      → (SettleChecks state command → OnCommit P (commit_settled crypto state command))
      → OnCommit P (settle_bounty crypto state command)
  unfolding settle_bounty
  settle_bounty-OnCommit command k = guard-OnCommit _ _ _ _ _ λ reference.
      guard-OnCommit _ _ _ _ _ λ recipients. guard-OnCommit _ _ _ _ _ λ phase.
        guard-OnCommit _ _ _ _ _ λ payouts. bind-OnCommit _ _ λ total checked.
          guard-OnCommit _ _ _ _ _ λ exact. k (record {
            reference = not-eq_false _ reference;
            recipients = recipients;
            phase = is_payable_phase-eq _ (not-eq_false _ phase);
            has_payouts = payouts;
            total = cc (checked, ==→eq _ _ (not-eq_false _ exact));
          })
