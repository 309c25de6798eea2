-- ===== src/Market/Validity/Phases.antt =====
-- What src/popperpad/core/market_invariants.py asks of a state in its phase and at its end.
use popper_pad.Prelude.{
  ℕ, ◌≡◌, ◌<◌, ◌↔◌, refl, not, ◌||◌, ◌==◌, ltb→lt, lt→ltb, ==→eq, Bool, true, false, any, is_empty,
  Option, none, some, List, [], ◌∷◌, All, and-true, or-false, arith,
}
use popper_pad.Market.Types.{BountyPhase, BountyState, SubmissionState, ChallengeState, is_open}
use popper_pad.Market.Invariants.Relations.{
  check_phase, check_terminal_locks, is_none, is_given, has_no_activity,
}
use popper_pad.Market.Validity.Reflect.{append-nil_inv, nil-append_intro, check-nil, nil-check}

-- The state of a bounty in a phase.
abbrev pub PhaseOk : BountyPhase → BountyState → Type 0
PhaseOk BountyPhase.draft s =
    (s.escrow_locked.atoms ≡ 0)
    × (s.submissions ≡ [])
    × (s.challenges ≡ [])
    × (s.payable_submission_ids ≡ [])
    × (s.settlement_ref ≡ none)
PhaseOk BountyPhase.opened s =
    (0 < s.escrow_locked.atoms) × (s.payable_submission_ids ≡ []) × (s.settlement_ref ≡ none)
PhaseOk BountyPhase.payable s =
    (0 < s.escrow_locked.atoms)
    × (is_empty s.payable_submission_ids ≡ false)
    × (any (λ c. is_open c.status) s.challenges ≡ false)
PhaseOk BountyPhase.settled s =
    (s.escrow_locked.atoms ≡ 0)
    × (is_empty s.payable_submission_ids ≡ false)
    × (is_given s.settlement_ref ≡ true)
PhaseOk BountyPhase.expired s = (s.escrow_locked.atoms ≡ 0) × (s.payable_submission_ids ≡ [])
PhaseOk BountyPhase.canceled s =
    (s.escrow_locked.atoms ≡ 0)
    × (s.submissions ≡ [])
    × (s.challenges ≡ [])
    × (s.payable_submission_ids ≡ [])

abbrev pub IsFree : SubmissionState → Type 0
IsFree x = x.bond_locked.atoms ≡ 0

abbrev pub IsClosed : ChallengeState → Type 0
IsClosed c = (c.deposit_locked.atoms ≡ 0) × (is_open c.status ≡ false)

-- A closed bounty has no bond, no deposit and no open challenge.
abbrev pub EndOk : Bool → BountyState → Type 0
EndOk false s = Unit {0}
EndOk true s = All IsFree s.submissions × All IsClosed s.challenges

zero_escrow : (n : ℕ) → (n == 0) ≡ true → n ≡ 0
zero_escrow n h = ==→eq n 0 h

no_entries {ℓ} : {A : Type ℓ} (xs : List A) → is_empty xs ≡ true → xs ≡ []
no_entries [] h = refl
no_entries (x ∷ xs) h = cc h

not_given {ℓ} : {A : Type ℓ} (x : Option A) → is_none x ≡ true → x ≡ none
not_given none h = refl
not_given (some a) h = cc h

not-eq_true : (b : Bool) → not b ≡ true → b ≡ false
not-eq_true b h = ground arith

pub check_phase-PhaseOk : (p : BountyPhase) (s : BountyState) → check_phase p s ≡ [] → PhaseOk p s
unfolding check_phase
check_phase-PhaseOk BountyPhase.draft s h =
    let (escrow, rest) = append-nil_inv _ _ h in
    let (quiet, unset) = and-true (has_no_activity s) _ (check-nil _ _ _ _ rest) in
    let (subs, more) = and-true (is_empty s.submissions) _ quiet in
    let (chs, pay) = and-true (is_empty s.challenges) _ more in
    (
      zero_escrow _ (check-nil _ _ _ _ escrow),
      no_entries _ subs,
      no_entries _ chs,
      no_entries _ pay,
      not_given _ unset,
    )
check_phase-PhaseOk BountyPhase.opened s h =
    let (escrow, rest) = append-nil_inv _ _ h in
    let (pay, unset) = append-nil_inv _ _ rest in
    (
      ltb→lt _ _ (check-nil _ _ _ _ escrow),
      no_entries _ (check-nil _ _ _ _ pay),
      not_given _ (check-nil _ _ _ _ unset),
    )
check_phase-PhaseOk BountyPhase.payable s h =
    let (escrow, rest) = append-nil_inv _ _ h in
    let (pay, opens) = append-nil_inv _ _ rest in
    (
      ltb→lt _ _ (check-nil _ _ _ _ escrow),
      not-eq_true _ (check-nil _ _ _ _ pay),
      not-eq_true _ (check-nil _ _ _ _ opens),
    )
check_phase-PhaseOk BountyPhase.settled s h =
    let (escrow, rest) = append-nil_inv _ _ h in
    let (pay, given) = append-nil_inv _ _ rest in
    (
      zero_escrow _ (check-nil _ _ _ _ escrow),
      not-eq_true _ (check-nil _ _ _ _ pay),
      check-nil _ _ _ _ given,
    )
check_phase-PhaseOk BountyPhase.expired s h =
    let (escrow, pay) = append-nil_inv _ _ h in
    (zero_escrow _ (check-nil _ _ _ _ escrow), no_entries _ (check-nil _ _ _ _ pay))
check_phase-PhaseOk BountyPhase.canceled s h =
    let (escrow, rest) = append-nil_inv _ _ h in
    let (subs, more) = and-true (is_empty s.submissions) _ (check-nil _ _ _ _ rest) in
    let (chs, pay) = and-true (is_empty s.challenges) _ more in
    (
      zero_escrow _ (check-nil _ _ _ _ escrow),
      no_entries _ subs,
      no_entries _ chs,
      no_entries _ pay,
    )

pub PhaseOk-check_phase : (p : BountyPhase) (s : BountyState) → PhaseOk p s → check_phase p s ≡ []
unfolding check_phase
PhaseOk-check_phase BountyPhase.draft s (a, b, c, d, e) = rw (a, b, c, d, e) refl
PhaseOk-check_phase BountyPhase.opened s (a, b, c) = rw (lt→ltb _ _ a, b, c) refl
PhaseOk-check_phase BountyPhase.payable s (a, b, c) = rw (lt→ltb _ _ a, b, c) refl
PhaseOk-check_phase BountyPhase.settled s (a, b, c) = rw (a, b, c) refl
PhaseOk-check_phase BountyPhase.expired s (a, b) = rw (a, b) refl
PhaseOk-check_phase BountyPhase.canceled s (a, b, c, d) = rw (a, b, c, d) refl

free_step : (n : ℕ) (b : Bool) → (not (n == 0) || b) ≡ false → (n ≡ 0) × (b ≡ false)
free_step n b h = ground arith

free_back : (n : ℕ) (b : Bool) → n ≡ 0 → b ≡ false → (not (n == 0) || b) ≡ false
free_back n b h k = ground arith

or_back : (a b : Bool) → a ≡ false → b ≡ false → (a || b) ≡ false
or_back a b h k = ground arith

any-IsFree :
    (ss : List SubmissionState)
    → (any (λ x. not (x.bond_locked.atoms == 0)) ss ≡ false) ↔ All IsFree ss
any-IsFree [] = (λ h. tt, λ h. refl)
any-IsFree (x ∷ xs) = (
  λ h. let (a, b) = free_step x.bond_locked.atoms _ h in (a, (any-IsFree xs).0 b),
  λ h. free_back _ _ h.0 ((any-IsFree xs).1 h.1),
)

any-IsClosed :
    (cs : List ChallengeState)
    → ((any (λ c. not (c.deposit_locked.atoms == 0)) cs ≡ false)
        × (any (λ c. is_open c.status) cs ≡ false))
      ↔ All IsClosed cs
any-IsClosed [] = (λ h. tt, λ h. (refl, refl))
any-IsClosed (c ∷ cs) = (
  λ (h, k).
      let (a, b) = free_step c.deposit_locked.atoms _ h in
      let (d, e) = or-false (is_open c.status) _ k in ((a, d), (any-IsClosed cs).0 (b, e)),
  λ ((a, d), rest). let (b, e) = (any-IsClosed cs).1 rest in (free_back _ _ a b, or_back _ _ d e),
)

not-eq_false : (b : Bool) → b ≡ false → not b ≡ true
not-eq_false b h = ground arith

pub locks-EndOk :
    (s : BountyState)
    → check_terminal_locks s ≡ []
    → All IsFree s.submissions × All IsClosed s.challenges
unfolding check_terminal_locks
locks-EndOk s h =
    let (bonds, rest) = append-nil_inv _ _ h in
    let (deposits, opens) = append-nil_inv _ _ rest in
    (
      (any-IsFree s.submissions).0 (not-eq_true _ (check-nil _ _ _ _ bonds)),
      (any-IsClosed s.challenges).0
          (not-eq_true _ (check-nil _ _ _ _ deposits), not-eq_true _ (check-nil _ _ _ _ opens)),
    )

pub EndOk-locks :
    (s : BountyState)
    → All IsFree s.submissions × All IsClosed s.challenges
    → check_terminal_locks s ≡ []
unfolding check_terminal_locks
EndOk-locks s (bonds, closed) =
    let (deposits, opens) = (any-IsClosed s.challenges).1 closed in
    nil-append_intro _ _ (nil-check _ _ _ _ (not-eq_false _ ((any-IsFree s.submissions).1 bonds))) (
      nil-append_intro _ _ (nil-check _ _ _ _ (not-eq_false _ deposits))
        (nil-check _ _ _ _ (not-eq_false _ opens)))
