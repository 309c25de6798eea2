-- ===== src/Market/Solvency.antt =====
-- New bounties and closed bounties of src/popperpad/core/market.py, and what runs between them give
-- out.
use popper_pad.Prelude.{ℕ, ◌==◌, ◌≡◌, refl, Bool, true, false, not, any, List, [], ◌∷◌, arith}
use popper_pad.Market.Types.{BountyPhase, BountyTerms, BountyState, initial_bounty, terms_built}
use popper_pad.Market.Ids.{total_of}
use popper_pad.Market.Closing.{deposit, bond}
use popper_pad.Market.Invariants.Relations.{
  market_state_violations, is_terminal, check_phase, check_terminal_locks,
  check_terminal_invariants,
}
use popper_pad.Market.Validity.Reflect.{
  append-nil_inv, check-nil, violations-IsChecked, IsChecked-violations,
}
use popper_pad.Market.Validity.Spec.{check_terms-built}
use popper_pad.Market.Conservation.{locked}

-- The state that `initial_bounty` makes of terms that were built has no violation.
pub initial_bounty-IsValid :
    (terms : BountyTerms)
    → terms_built terms ≡ true
    → market_state_violations (initial_bounty terms) ≡ []
unfolding initial_bounty check_phase check_terminal_invariants
initial_bounty-IsValid terms built = IsChecked-violations (initial_bounty terms) (record {
  terms = check_terms-built terms built;
  submissions = tt;
  challenges = tt;
  payable_format = refl;
  settlement_format = refl;
  processed_format = refl;
  distinct_submissions = tt;
  distinct_challenges = tt;
  distinct_payable = tt;
  references = tt;
  payable = tt;
  open_subjects = tt;
  open_phase = refl;
  open_deposits = tt;
  released = tt;
  unbonded = tt;
  phase = refl;
  terminal = refl;
})

none_held {ℓ} :
    {A : Type ℓ} (m : A → ℕ) (xs : List A)
    → any (λ x. not (m x == 0)) xs ≡ false
    → total_of m xs ≡ 0
none_held m [] h = refl
none_held m (x ∷ xs) h = ground (arith, none_held m xs)

not-true : (b : Bool) → not b ≡ true → b ≡ false
not-true b h = ground arith

terminal_locks :
    (s : BountyState)
    → check_terminal_invariants s ≡ []
    → is_terminal s.phase ≡ true
    → (any (λ x. not (bond x == 0)) s.submissions ≡ false)
      × (any (λ c. not (deposit c == 0)) s.challenges ≡ false)
unfolding check_terminal_invariants check_terminal_locks
terminal_locks s h closed =
    let (others, locks) = append-nil_inv _ _ (rw closed at h) in
    let (bonds, rest) = append-nil_inv _ _ locks in
    let (deposits, opens) = append-nil_inv _ _ rest in
    (not-true _ (check-nil _ _ _ _ bonds), not-true _ (check-nil _ _ _ _ deposits))

terminal_escrow :
    (p : BountyPhase) (s : BountyState)
    → check_phase p s ≡ []
    → is_terminal p ≡ true
    → s.escrow_locked.atoms ≡ 0
unfolding check_phase
terminal_escrow BountyPhase.draft s h closed = cc closed
terminal_escrow BountyPhase.opened s h closed = cc closed
terminal_escrow BountyPhase.payable s h closed = cc closed
terminal_escrow BountyPhase.settled s h closed = ground arith
terminal_escrow BountyPhase.expired s h closed = ground arith
terminal_escrow BountyPhase.canceled s h closed = ground arith

-- A closed bounty without violations holds nothing: no escrow, no bond and no deposit.
pub locked-terminal :
    (s : BountyState) → market_state_violations s ≡ [] → is_terminal s.phase ≡ true → locked s ≡ 0
locked-terminal s valid closed =
    let v = violations-IsChecked s valid in
    let (bonds, deposits) = terminal_locks s v.terminal closed in
    omega (
      arith,
      terminal_escrow s.phase s v.phase closed,
      none_held bond s.submissions bonds,
      none_held deposit s.challenges deposits,
    )
