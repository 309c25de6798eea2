-- ===== src/Market/Conservation/Handlers.antt =====
-- The ledger of each handler of src/popperpad/core/market.py.
use popper_pad.Prelude.{◌+◌, ◌≡◌, refl, sym, ◌∙◌, some, [], ◌∷◌, String, arith}
use mathlib.Core.Path.{subst}
use popper_pad.Codec.{Crypto}
use popper_pad.Market.Types.{BountyState, SubmissionState, ChallengeState, MarketPolicy}
use popper_pad.Market.Commands.{
  OpenBounty, SubmitCandidate, VerifySubmission, OpenChallenge, ResolveChallenge, AdvanceBounty,
  SettleBounty, CancelBounty, MarketCommand, MarketEvidence, Commit, committed,
}
use popper_pad.Market.Lookup.{
  submission_key, challenge_key, replace_submission, replace_challenge, submission, challenge,
}
use popper_pad.Market.Ids.{total_of, total_of-append, total_of-replace_by, key-find_by}
use popper_pad.Market.Closing.{
  deposit, bond, open_only, close_challenges-eq-map, total_of-map-close_one, total_of-release_bonds,
}
use popper_pad.Market.Commits.{
  OnCommit, accept-OnCommit, failure-OnCommit, if-OnCommit, apply-OnCommit,
}
use popper_pad.Market.Handlers.Funding.{open_bounty, cancel_bounty, commit_open, commit_cancel}
use popper_pad.Market.Handlers.Submissions.{
  submit_candidate, verify_submission, commit_submit, commit_verdict, verified_submission,
}
use popper_pad.Market.Handlers.Challenges.{
  open_challenge, resolve_challenge, commit_challenge, commit_upheld, commit_dismissed,
  resolved_challenge, slashed_submission,
}
use popper_pad.Market.Handlers.Advance.{
  close_challenges, timeout_effects, refund_effects, refund_escrow, commit_payable, commit_expired,
  advance_bounty,
}
use popper_pad.Market.Handlers.Settle.{payout_effects, commit_settled, settle_bounty}
use popper_pad.Market.Guards.Funding.{open_bounty-OnCommit, cancel_bounty-OnCommit}
use popper_pad.Market.Guards.Submissions.{submit_candidate-OnCommit, verify_submission-OnCommit}
use popper_pad.Market.Guards.Challenges.{open_challenge-OnCommit, resolve_challenge-OnCommit}
use popper_pad.Market.Guards.Advance.{advance_bounty-OnCommit}
use popper_pad.Market.Guards.Settle.{settle_bounty-OnCommit}
use popper_pad.Market.Validity.{IsChecked}
use popper_pad.Market.Validity.Reflect.{violations-IsChecked}
use popper_pad.Market.Apply.{dispatch, apply_market_command}
use popper_pad.Market.Conservation.{
  locked, inflow, outflow, inflow-append, outflow-append, outflow-timeout_effects,
  inflow-timeout_effects, outflow-refund_effects, inflow-refund_effects, outflow-payout_effects,
  inflow-payout_effects, draft_escrow,
}

-- What was locked and what came in is what is locked and what went out.
abbrev pub Balanced : BountyState → Commit → Type 0
Balanced state c = locked state + inflow c.effects ≡ locked c.next + outflow c.effects

bonds-replace :
    (state : BountyState) (id : String) (s r : SubmissionState)
    → IsChecked state
    → submission state id ≡ some s
    → r.submission_id ≡ s.submission_id
    → total_of bond (replace_submission state.submissions r) + bond s
      ≡ total_of bond state.submissions + bond r
bonds-replace state id s r v found same =
    let key = key-find_by submission_key state.submissions id {x = s} found in
    total_of-replace_by submission_key bond state.submissions r {x = s} v.distinct_submissions
      (subst (λ i. submission state i ≡ some s) (sym key ∙ sym same) found)

deposits-replace :
    (state : BountyState) (id : String) (c r : ChallengeState)
    → IsChecked state
    → challenge state id ≡ some c
    → r.challenge_id ≡ c.challenge_id
    → total_of deposit (replace_challenge state.challenges r) + deposit c
      ≡ total_of deposit state.challenges + deposit r
deposits-replace state id c r v found same =
    let key = key-find_by challenge_key state.challenges id {x = c} found in
    total_of-replace_by challenge_key deposit state.challenges r {x = c} v.distinct_challenges
      (subst (λ i. challenge state i ≡ some c) (sym key ∙ sym same) found)

deposits-close :
    (state : BountyState)
    → IsChecked state
    → total_of deposit (close_challenges (open_only state.challenges) state.challenges)
        + total_of deposit (open_only state.challenges)
      ≡ total_of deposit state.challenges
deposits-close state v =
    rw (close_challenges-eq-map state.challenges v.distinct_challenges)
      (total_of-map-close_one state.challenges)

module _ (crypto : Crypto) (state : BountyState) (v : IsChecked state) where
  pub open_bounty-Balanced :
      (command : OpenBounty) (policy : MarketPolicy)
      → OnCommit (Balanced state) (open_bounty crypto state command policy)
  unfolding commit_open
  open_bounty-Balanced command policy =
      open_bounty-OnCommit crypto state command policy
        (λ checks. accept-OnCommit _ _ _ (omega (arith, draft_escrow state v checks.phase)))

  pub cancel_bounty-Balanced :
      (command : CancelBounty) → OnCommit (Balanced state) (cancel_bounty crypto state command)
  unfolding commit_cancel
  cancel_bounty-Balanced command =
      cancel_bounty-OnCommit crypto state command (λ checks. accept-OnCommit _ _ _ (omega arith))

  pub submit_candidate-Balanced :
      (command : SubmitCandidate) (policy : MarketPolicy)
      → OnCommit (Balanced state) (submit_candidate crypto state command policy)
  unfolding commit_submit
  submit_candidate-Balanced command policy =
      submit_candidate-OnCommit crypto state command policy (λ checks.
        accept-OnCommit _ _ _ (omega (arith, total_of-append bond state.submissions (_ ∷ []))))

  pub verify_submission-Balanced :
      (command : VerifySubmission) (policy : MarketPolicy) (evidence : MarketEvidence)
      → OnCommit (Balanced state) (verify_submission crypto state command policy evidence)
  unfolding commit_verdict
  verify_submission-Balanced command policy evidence =
      verify_submission-OnCommit crypto state command policy evidence λ s checks.
        let sums =
          bonds-replace state command.submission_id s (verified_submission command s) v
            checks.is_found refl in
        if-OnCommit command.accepted _ _
          (λ yes_given. accept-OnCommit _ _ _ (ground (arith, sums, yes_given)))
          (λ no_given. failure-OnCommit _ _ _ _ (ground (arith, sums, no_given)))

  pub open_challenge-Balanced :
      (command : OpenChallenge) (policy : MarketPolicy)
      → OnCommit (Balanced state) (open_challenge crypto state command policy)
  unfolding commit_challenge
  open_challenge-Balanced command policy =
      open_challenge-OnCommit crypto state command policy (λ s checks.
        accept-OnCommit _ _ _ (omega (arith, total_of-append deposit state.challenges (_ ∷ []))))

  pub resolve_challenge-Balanced :
      (command : ResolveChallenge) (policy : MarketPolicy) (evidence : MarketEvidence)
      → OnCommit (Balanced state) (resolve_challenge crypto state command policy evidence)
  unfolding commit_upheld commit_dismissed
  resolve_challenge-Balanced command policy evidence =
      resolve_challenge-OnCommit crypto state command policy evidence
        (λ c s checks upheld. accept-OnCommit _ _ _ (
          omega (
            arith,
            deposits-replace state command.challenge_id c (resolved_challenge command c) v
                checks.is_found refl,
            bonds-replace state c.submission_id s (slashed_submission s) v checks.subject refl,
          )))
        (λ c s checks dismissed. failure-OnCommit _ _ _ _ (
          omega (
            arith,
            deposits-replace state command.challenge_id c (resolved_challenge command c) v
                checks.is_found refl,
          )))

  pub advance_bounty-Balanced :
      (command : AdvanceBounty) (policy : MarketPolicy)
      → OnCommit (Balanced state) (advance_bounty crypto state command policy)
  unfolding commit_payable commit_expired
  advance_bounty-Balanced command policy =
      let opens = open_only state.challenges in
      let timeouts_out = outflow-timeout_effects policy opens in
      let timeouts_in = inflow-timeout_effects policy opens in
      advance_bounty-OnCommit crypto state command policy
        (λ checks left.
          accept-OnCommit _ _ _ (omega (arith, deposits-close state v, timeouts_out, timeouts_in)))
        (λ checks none_left. failure-OnCommit _ _ _ _ (
          omega (
            arith,
            deposits-close state v,
            timeouts_out,
            timeouts_in,
            inflow-append (timeout_effects policy opens)
                (refund_escrow state ∷ refund_effects "bounty_expired" state.submissions),
            outflow-append (timeout_effects policy opens)
                (refund_escrow state ∷ refund_effects "bounty_expired" state.submissions),
            outflow-refund_effects "bounty_expired" state.submissions,
            inflow-refund_effects "bounty_expired" state.submissions,
            total_of-release_bonds state.submissions,
          )))

  pub settle_bounty-Balanced :
      (command : SettleBounty) → OnCommit (Balanced state) (settle_bounty crypto state command)
  unfolding commit_settled
  settle_bounty-Balanced command = settle_bounty-OnCommit crypto state command (λ checks.
      accept-OnCommit _ _ _ (
        omega (
          arith,
          outflow-payout_effects state [] 0 command.payouts checks.total,
          inflow-payout_effects command.payouts,
          inflow-append (payout_effects command.payouts)
              (refund_effects "settlement_complete" state.submissions),
          outflow-append (payout_effects command.payouts)
              (refund_effects "settlement_complete" state.submissions),
          outflow-refund_effects "settlement_complete" state.submissions,
          inflow-refund_effects "settlement_complete" state.submissions,
          total_of-release_bonds state.submissions,
        )))

dispatch-Balanced :
    (crypto : Crypto) (state : BountyState) (v : IsChecked state) (command : MarketCommand)
    (policy : MarketPolicy) (evidence : MarketEvidence)
    → OnCommit (Balanced state) (dispatch crypto state command policy evidence)
unfolding dispatch
dispatch-Balanced crypto state v (MarketCommand.open_bounty c) policy evidence =
    open_bounty-Balanced crypto state v c policy
dispatch-Balanced crypto state v (MarketCommand.submit_candidate c) policy evidence =
    submit_candidate-Balanced crypto state v c policy
dispatch-Balanced crypto state v (MarketCommand.verify_submission c) policy evidence =
    verify_submission-Balanced crypto state v c policy evidence
dispatch-Balanced crypto state v (MarketCommand.open_challenge c) policy evidence =
    open_challenge-Balanced crypto state v c policy
dispatch-Balanced crypto state v (MarketCommand.resolve_challenge c) policy evidence =
    resolve_challenge-Balanced crypto state v c policy evidence
dispatch-Balanced crypto state v (MarketCommand.advance_bounty c) policy evidence =
    advance_bounty-Balanced crypto state v c policy
dispatch-Balanced crypto state v (MarketCommand.settle_bounty c) policy evidence =
    settle_bounty-Balanced crypto state v c
dispatch-Balanced crypto state v (MarketCommand.cancel_bounty c) policy evidence =
    cancel_bounty-Balanced crypto state v c

-- A commit creates and loses no funds: escrow, bonds and deposits before it, with what its effects
-- lock, are escrow, bonds and deposits after it, with what its effects refund, slash and pay out.
pub apply-Balanced :
    (crypto : Crypto) (state : BountyState) (command : MarketCommand) (policy : MarketPolicy)
    (evidence : MarketEvidence) (c : Commit)
    → committed (apply_market_command crypto state command policy evidence) ≡ some c
    → locked state + inflow c.effects ≡ locked c.next + outflow c.effects
apply-Balanced crypto state command policy evidence c e =
    (apply-OnCommit crypto state command policy evidence (λ a.
        dispatch-Balanced crypto state (violations-IsChecked state a.state_valid) command policy
          evidence)).holds
      c e
