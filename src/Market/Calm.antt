-- ===== src/Market/Calm.antt =====
-- The ValueError for a key of the wrong length in src/popperpad/core/market.py: the decisions that are
-- not this exception.
pub mod Bindings
use popper_pad.Prelude.{
  ◌≡◌, refl, Bool, true, false, Option, none, some, List, [], ◌∷◌, String, arith, if◌then◌else◌, ap,
  not, is_empty, ◌&&◌, ◌||◌, ◌==◌, and-true, Option-cases, Bool-cases, inl, inr, str_eq,
  not-eq_false, length,
}
use popper_pad.Codec.{Crypto}
use popper_pad.Market.Types.{BountyState, MarketPolicy}
use popper_pad.Market.Commands.{
  MarketCommand, MarketEvidence, MarketDecision, RejectionCode, Admission, admitted, denied,
  refuse_if, found, ◌>>=◌, ◌>>◌, stop_on,
}
use popper_pad.Market.Handlers.Funding.{commit_open, commit_cancel, open_bounty, cancel_bounty}
use popper_pad.Market.Handlers.Submissions.{
  commit_submit, commit_verdict, submit_candidate, verify_submission,
}
use popper_pad.Market.Handlers.Challenges.{
  commit_challenge, commit_upheld, commit_dismissed, open_challenge, resolve_challenge,
}
use popper_pad.Market.Handlers.Advance.{eligible, commit_payable, commit_expired, advance_bounty}
use popper_pad.Market.Handlers.Settle.{commit_settled, settle_bounty}
use popper_pad.Market.Apply.{dispatch}

abbrev pub is_raised : MarketDecision → Bool
is_raised (MarketDecision.raised e) = true
is_raised _ = false

pub guard-calm :
    (b : Bool) (code : RejectionCode) (field reason : String) (d : MarketDecision)
    → is_raised d ≡ false
    → is_raised (refuse_if b code field reason >> d) ≡ false
unfolding refuse_if ◌>>◌
guard-calm true code field reason d h = refl
guard-calm false code field reason d h = h

bind-calm {ℓ} :
    {A : Type ℓ} (m : Admission A) (f : A → MarketDecision)
    → ((a : A) → is_raised (f a) ≡ false)
    → is_raised (m >>= f) ≡ false
unfolding ◌>>=◌
bind-calm (admitted a) f h = h a
bind-calm (denied r) f h = refl

if-calm :
    (b : Bool) (d e : MarketDecision)
    → is_raised d ≡ false
    → is_raised e ≡ false
    → is_raised (if b then d else e) ≡ false
if-calm true d e h k = h
if-calm false d e h k = k

module _ (crypto : Crypto) (state : BountyState) where
  pub dispatch-calm :
      (command : MarketCommand) (policy : MarketPolicy) (evidence : MarketEvidence)
      → is_raised (dispatch crypto state command policy evidence) ≡ false
  unfolding dispatch open_bounty cancel_bounty submit_candidate verify_submission open_challenge
      resolve_challenge advance_bounty settle_bounty commit_open commit_cancel commit_submit
      commit_verdict commit_challenge commit_upheld commit_dismissed commit_payable commit_expired
      commit_settled
  dispatch-calm (MarketCommand.open_bounty c) policy evidence =
      guard-calm _ _ _ _ _
        (guard-calm _ _ _ _ _ (guard-calm _ _ _ _ _ (guard-calm _ _ _ _ _ (refl))))
  dispatch-calm (MarketCommand.cancel_bounty c) policy evidence =
      guard-calm _ _ _ _ _
        (guard-calm _ _ _ _ _ (guard-calm _ _ _ _ _ (guard-calm _ _ _ _ _ (refl))))
  dispatch-calm (MarketCommand.submit_candidate c) policy evidence = guard-calm _ _ _ _ _ (
      guard-calm _ _ _ _ _ (
        guard-calm _ _ _ _ _ (
          guard-calm _ _ _ _ _ (
            guard-calm _ _ _ _ _ (
              guard-calm _ _ _ _ _ (
                guard-calm _ _ _ _ _
                  (guard-calm _ _ _ _ _ (guard-calm _ _ _ _ _ (guard-calm _ _ _ _ _ (refl))))))))))
  dispatch-calm (MarketCommand.verify_submission c) policy evidence = guard-calm _ _ _ _ _ (
      guard-calm _ _ _ _ _ (
        guard-calm _ _ _ _ _ (
          guard-calm _ _ _ _ _ (
            bind-calm _ _ (λ s.
              guard-calm _ _ _ _ _
                (guard-calm _ _ _ _ _ (bind-calm _ _ (λ a. if-calm c.accepted _ _ refl refl))))))))
  dispatch-calm (MarketCommand.open_challenge c) policy evidence = guard-calm _ _ _ _ _ (
      guard-calm _ _ _ _ _ (
        guard-calm _ _ _ _ _ (
          guard-calm _ _ _ _ _ (
            guard-calm _ _ _ _ _ (
              guard-calm _ _ _ _ _ (
                bind-calm _ _ (λ s. guard-calm _ _ _ _ _ (
                  guard-calm _ _ _ _ _ (
                    guard-calm _ _ _ _ _
                      (guard-calm _ _ _ _ _ (guard-calm _ _ _ _ _ (refl))))))))))))
  dispatch-calm (MarketCommand.resolve_challenge c) policy evidence = guard-calm _ _ _ _ _ (
      guard-calm _ _ _ _ _ (
        guard-calm _ _ _ _ _ (
          bind-calm _ _ (λ ch. guard-calm _ _ _ _ _ (
            guard-calm _ _ _ _ _ (
              guard-calm _ _ _ _ _
                (bind-calm _ _ (λ s. bind-calm _ _ (λ a. if-calm c.upheld _ _ refl refl)))))))))
  dispatch-calm (MarketCommand.advance_bounty c) policy evidence = guard-calm _ _ _ _ _ (
      guard-calm _ _ _ _ _ (
        guard-calm _ _ _ _ _ (
          if-calm (not (is_empty (eligible state))) (commit_payable crypto state c policy)
            (commit_expired crypto state c policy) refl refl)))
  dispatch-calm (MarketCommand.settle_bounty c) policy evidence = guard-calm _ _ _ _ _ (
      guard-calm _ _ _ _ _ (
        guard-calm _ _ _ _ _
          (guard-calm _ _ _ _ _ (bind-calm _ _ (λ total. guard-calm _ _ _ _ _ (refl))))))
