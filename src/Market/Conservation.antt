-- ===== src/Market/Conservation.antt =====
-- The ledger of a bounty: what is locked in a state, and what the effects of a commit move in
-- and out. Locked means escrow, submission bonds and challenge deposits.
pub mod Handlers
use popper_pad.Prelude.{
  ℕ, ◌+◌, ◌≡◌, refl, List, [], ◌∷◌, ◌++◌, String, ltb, arith, if◌then◌else◌, Bool, true, false,
}
use popper_pad.Market.Types.{
  BountyPhase, BountyState, SubmissionState, ChallengeState, MarketPolicy,
}
use popper_pad.Market.Commands.{EffectKind, MarketEffect, Payout, Admission, admitted}
use mathlib.Core.Path.{subst}
use popper_pad.Market.Validity.{IsChecked}
use popper_pad.Market.Invariants.Relations.{check_phase}
use popper_pad.Market.Ids.{total_of, total_of-append}
use popper_pad.Market.Closing.{deposit, bond, open_only}
use popper_pad.Market.Handlers.Advance.{timeout_effects, refund_effects}
use popper_pad.Market.Handlers.Settle.{check_payouts, payout_effects, eligible_submission}

-- What a bounty holds.
abbrev pub locked : BountyState → ℕ
locked s = s.escrow_locked.atoms + total_of bond s.submissions + total_of deposit s.challenges

-- The effects that move funds into the bounty; all others move funds out of it.
abbrev pub is_lock : EffectKind → Bool
is_lock EffectKind.lock_escrow = true
is_lock EffectKind.lock_submission_bond = true
is_lock EffectKind.lock_challenge_deposit = true
is_lock _ = false

abbrev pub moved_in : MarketEffect → ℕ
moved_in e = if is_lock e.kind then e.amount.atoms else 0

abbrev pub moved_out : MarketEffect → ℕ
moved_out e = if is_lock e.kind then 0 else e.amount.atoms

abbrev pub inflow : List MarketEffect → ℕ
inflow = total_of moved_in

abbrev pub outflow : List MarketEffect → ℕ
outflow = total_of moved_out

pub outflow-timeout_effects :
    (policy : MarketPolicy) (cs : List ChallengeState)
    → outflow (timeout_effects policy cs) ≡ total_of deposit cs
unfolding timeout_effects
outflow-timeout_effects policy [] = refl
outflow-timeout_effects policy (c ∷ cs) = omega (arith, outflow-timeout_effects policy cs)

pub inflow-timeout_effects :
    (policy : MarketPolicy) (cs : List ChallengeState) → inflow (timeout_effects policy cs) ≡ 0
unfolding timeout_effects
inflow-timeout_effects policy [] = refl
inflow-timeout_effects policy (c ∷ cs) = omega (arith, inflow-timeout_effects policy cs)

pub outflow-refund_effects :
    (reason : String) (ss : List SubmissionState)
    → outflow (refund_effects reason ss) ≡ total_of bond ss
unfolding refund_effects
outflow-refund_effects reason [] = refl
outflow-refund_effects reason (s ∷ ss) = ground (arith, outflow-refund_effects reason ss)

pub inflow-refund_effects :
    (reason : String) (ss : List SubmissionState) → inflow (refund_effects reason ss) ≡ 0
unfolding refund_effects
inflow-refund_effects reason [] = refl
inflow-refund_effects reason (s ∷ ss) = ground (arith, inflow-refund_effects reason ss)

pub inflow-payout_effects : (ps : List Payout) → inflow (payout_effects ps) ≡ 0
unfolding payout_effects
inflow-payout_effects [] = refl
inflow-payout_effects (p ∷ ps) = omega (arith, inflow-payout_effects ps)

-- The loop over the payouts adds their amounts up.
pub outflow-payout_effects :
    (state : BountyState) (seen : List String) (start : ℕ) (ps : List Payout) {total : ℕ}
    → check_payouts state seen start ps ≡ admitted total
    → total ≡ start + outflow (payout_effects ps)
unfolding check_payouts payout_effects
outflow-payout_effects state seen start [] {total} h = ground arith
outflow-payout_effects state seen start (p ∷ ps) {total} h = ground (
  arith,
  outflow-payout_effects state (p.submission_id ∷ seen) (start + p.amount.atoms) ps {total = total},
)

draft_escrow_check :
    (state : BountyState) → check_phase BountyPhase.draft state ≡ [] → state.escrow_locked.atoms ≡ 0
unfolding check_phase
draft_escrow_check state h = ground arith

pub inflow-append : (xs ys : List MarketEffect) → inflow (xs ++ ys) ≡ inflow xs + inflow ys
inflow-append xs ys = total_of-append moved_in xs ys

pub outflow-append : (xs ys : List MarketEffect) → outflow (xs ++ ys) ≡ outflow xs + outflow ys
outflow-append xs ys = total_of-append moved_out xs ys

-- A draft has nothing in escrow.
pub draft_escrow :
    (state : BountyState)
    → IsChecked state
    → state.phase ≡ BountyPhase.draft
    → state.escrow_locked.atoms ≡ 0
draft_escrow state v draft =
    draft_escrow_check state (subst (λ p. check_phase p state ≡ []) draft v.phase)
