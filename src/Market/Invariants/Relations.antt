-- ===== src/Market/Invariants/Relations.antt =====
-- src/popperpad/core/market_invariants.py: the checks across fields, and their sequence.
use popper_pad.Prelude.{
  ltb, ◌==◌, str_eq, not, ◌&&◌, ◌||◌, Bool, true, false, any, keep, length, set_of, contains,
  is_empty, is_nonempty, map, Option, none, some, List, [], ◌∷◌, ◌++◌, String, ◌⊕◌, if◌then◌else◌,
}
use popper_pad.Market.Types.{
  BountyPhase, BountyState, SubmissionState, ChallengeState, is_open_phase, is_settled_phase,
  is_verified, is_rejected, is_open, submission_status_value,
}
use popper_pad.Market.Invariants.Codes.{MarketStateViolationCode, MarketStateViolation}
use popper_pad.Market.Invariants.Fields.{
  check, check_terms, check_submission_fields, check_challenge_fields, check_collection_fields,
}

-- `len(set(xs)) == len(xs)`
unfoldable pub is_unique : List String → Bool
is_unique xs = length (set_of xs) == length xs

abbrev pub submission_ids : List SubmissionState → List String
submission_ids ss = map (λ s. s.submission_id) ss

abbrev pub challenge_ids : List ChallengeState → List String
challenge_ids cs = map (λ c. c.challenge_id) cs

-- `_check_uniqueness`
unfoldable pub check_uniqueness : BountyState → List MarketStateViolation
check_uniqueness s =
    check (is_unique (submission_ids s.submissions))
      MarketStateViolationCode.duplicate_submission_id "$.submissions" "ids must be unique"
    ++ (check (is_unique (challenge_ids s.challenges))
          MarketStateViolationCode.duplicate_challenge_id "$.challenges" "ids must be unique"
        ++ check (is_unique s.payable_submission_ids)
            MarketStateViolationCode.duplicate_payable_submission_id "$.payable_submission_ids"
            "must be unique")

-- `_check_references`
unfoldable pub check_references :
    List SubmissionState → List ChallengeState → List MarketStateViolation
check_references ss [] = []
check_references ss (c ∷ cs) =
    check (contains (submission_ids ss) c.submission_id)
      MarketStateViolationCode.challenge_unknown_submission
      ("$.challenges[" ⊕ (c.challenge_id ⊕ "]"))
      ("references unknown submission " ⊕ c.submission_id)
    ++ check_references ss cs

-- `submissions_by_id.get(id)`: a later entry of the dictionary replaces an earlier one.
unfoldable pub submission_by_id : List SubmissionState → String → Option SubmissionState
submission_by_id [] id = none
submission_by_id (s ∷ ss) id = elim (submission_by_id ss id) [
  | some t ↦ some t
  | none ↦ if str_eq s.submission_id id then some s else none
]

unfoldable pub check_payable_id : List SubmissionState → String → List MarketStateViolation
check_payable_id ss id = elim (submission_by_id ss id) [
  | none ↦
      check false MarketStateViolationCode.payable_unknown_submission
        ("$.payable_submission_ids[" ⊕ (id ⊕ "]")) "references unknown submission"
  | some s ↦
      check (is_verified s.status) MarketStateViolationCode.payable_submission_not_verified
        ("$.payable_submission_ids[" ⊕ (id ⊕ "]"))
        ("submission status is " ⊕ (submission_status_value s.status ⊕ ", not verified"))
]

-- `_check_payable`
unfoldable pub check_payable : List SubmissionState → List String → List MarketStateViolation
check_payable ss [] = []
check_payable ss (id ∷ ids) = check_payable_id ss id ++ check_payable ss ids

abbrev pub open_of : List ChallengeState → List ChallengeState
open_of cs = keep (λ c. is_open c.status) cs

abbrev pub subjects : List ChallengeState → List String
subjects cs = map (λ c. c.submission_id) cs

unfoldable pub check_open_deposits : List ChallengeState → List MarketStateViolation
check_open_deposits [] = []
check_open_deposits (c ∷ cs) =
    check (ltb 0 c.deposit_locked.atoms) MarketStateViolationCode.open_challenge_without_deposit
      ("$.challenges[" ⊕ (c.challenge_id ⊕ "]")) "open challenge has no locked deposit"
    ++ check_open_deposits cs

unfoldable pub check_resolved_deposits : List ChallengeState → List MarketStateViolation
check_resolved_deposits [] = []
check_resolved_deposits (c ∷ cs) =
    check (is_open c.status || (c.deposit_locked.atoms == 0))
      MarketStateViolationCode.resolved_challenge_retains_deposit
      ("$.challenges[" ⊕ (c.challenge_id ⊕ "]")) "resolved challenge retains deposit"
    ++ check_resolved_deposits cs

unfoldable pub check_rejected_bonds : List SubmissionState → List MarketStateViolation
check_rejected_bonds [] = []
check_rejected_bonds (s ∷ ss) =
    check (not (is_rejected s.status) || (s.bond_locked.atoms == 0))
      MarketStateViolationCode.rejected_submission_retains_bond
      ("$.submissions[" ⊕ (s.submission_id ⊕ "]")) "rejected submission retains bond"
    ++ check_rejected_bonds ss

-- `_check_challenge_invariants`
unfoldable pub check_challenge_invariants : BountyState → List MarketStateViolation
check_challenge_invariants s =
    check (is_unique (subjects (open_of s.challenges)))
      MarketStateViolationCode.multiple_open_challenges "$.challenges"
      "multiple open challenges per submission"
    ++ (check (is_empty (open_of s.challenges) || is_open_phase s.phase)
          MarketStateViolationCode.open_challenge_outside_open_phase "$.phase"
          "open challenges exist outside OPEN phase"
        ++ (check_open_deposits (open_of s.challenges)
            ++ (check_resolved_deposits s.challenges ++ check_rejected_bonds s.submissions)))

abbrev pub is_none {ℓ} : {A : Type ℓ} → Option A → Bool
is_none none = true
is_none (some _) = false

-- `bool(settlement_ref)`
abbrev pub is_given : Option String → Bool
is_given none = false
is_given (some r) = is_nonempty r

abbrev pub has_no_activity : BountyState → Bool
has_no_activity s =
    is_empty s.submissions && (is_empty s.challenges && is_empty s.payable_submission_ids)

-- The branches of `_check_phase_invariants`.
unfoldable pub check_phase : BountyPhase → BountyState → List MarketStateViolation
check_phase BountyPhase.draft s =
    check (s.escrow_locked.atoms == 0) MarketStateViolationCode.draft_has_escrow "$.escrow_locked"
      "draft must have zero escrow"
    ++ check (has_no_activity s && is_none s.settlement_ref)
        MarketStateViolationCode.draft_has_activity "$" "draft must have no activity"
check_phase BountyPhase.opened s =
    check (ltb 0 s.escrow_locked.atoms) MarketStateViolationCode.open_without_escrow
      "$.escrow_locked" "open must have positive escrow"
    ++ (check (is_empty s.payable_submission_ids) MarketStateViolationCode.open_has_payable_ids
          "$.payable_submission_ids" "open must have no payable ids"
        ++ check (is_none s.settlement_ref) MarketStateViolationCode.open_has_settlement
            "$.settlement_ref" "open must have no settlement")
check_phase BountyPhase.payable s =
    check (ltb 0 s.escrow_locked.atoms) MarketStateViolationCode.payable_without_escrow
      "$.escrow_locked" "payable must have positive escrow"
    ++ (check (not (is_empty s.payable_submission_ids))
          MarketStateViolationCode.payable_without_submission "$.payable_submission_ids"
          "payable must have at least one submission"
        ++ check (not (any (λ c. is_open c.status) s.challenges))
            MarketStateViolationCode.payable_with_open_challenge "$.challenges"
            "payable must have no open challenges")
check_phase BountyPhase.settled s =
    check (s.escrow_locked.atoms == 0) MarketStateViolationCode.settled_retains_escrow
      "$.escrow_locked" "settled must have zero escrow"
    ++ (check (not (is_empty s.payable_submission_ids))
          MarketStateViolationCode.settled_without_payable_submission "$.payable_submission_ids"
          "settled must reference payable submissions"
        ++ check (is_given s.settlement_ref) MarketStateViolationCode.settled_without_receipt
            "$.settlement_ref" "settled must have a settlement ref")
check_phase BountyPhase.expired s =
    check (s.escrow_locked.atoms == 0) MarketStateViolationCode.expired_retains_escrow
      "$.escrow_locked" "expired must have zero escrow"
    ++ check (is_empty s.payable_submission_ids) MarketStateViolationCode.expired_has_payable_ids
        "$.payable_submission_ids" "expired must have no payable ids"
check_phase BountyPhase.canceled s =
    check (s.escrow_locked.atoms == 0) MarketStateViolationCode.canceled_retains_escrow
      "$.escrow_locked" "canceled must have zero escrow"
    ++ check (has_no_activity s) MarketStateViolationCode.canceled_has_activity "$"
        "canceled must have no activity"

-- `_check_phase_invariants`
unfoldable pub check_phase_invariants : BountyState → List MarketStateViolation
check_phase_invariants s = check_phase s.phase s

abbrev pub is_terminal : BountyPhase → Bool
is_terminal BountyPhase.settled = true
is_terminal BountyPhase.expired = true
is_terminal BountyPhase.canceled = true
is_terminal _ = false

unfoldable pub check_terminal_locks : BountyState → List MarketStateViolation
check_terminal_locks s =
    check (not (any (λ x. not (x.bond_locked.atoms == 0)) s.submissions))
      MarketStateViolationCode.terminal_retains_bond "$.submissions"
      "terminal state retains submission bond"
    ++ (check (not (any (λ c. not (c.deposit_locked.atoms == 0)) s.challenges))
          MarketStateViolationCode.terminal_retains_deposit "$.challenges"
          "terminal state retains challenge deposit"
        ++ check (not (any (λ c. is_open c.status) s.challenges))
            MarketStateViolationCode.terminal_has_open_challenge "$.challenges"
            "terminal state has open challenge")

-- `_check_terminal_invariants`
unfoldable pub check_terminal_invariants : BountyState → List MarketStateViolation
unfolding check_terminal_locks
check_terminal_invariants s =
    check (is_settled_phase s.phase || is_none s.settlement_ref)
      MarketStateViolationCode.non_settled_has_settlement "$.settlement_ref"
      "non-settled state has settlement ref"
    ++ (if is_terminal s.phase then check_terminal_locks s else [])

-- `if violations: return tuple(violations)`, and what follows otherwise.
abbrev pub or_else :
    List MarketStateViolation → List MarketStateViolation → List MarketStateViolation
or_else [] rest = rest
or_else (v ∷ vs) rest = v ∷ vs

-- `market_state_violations`
unfoldable pub market_state_violations : BountyState → List MarketStateViolation
market_state_violations s = or_else (check_terms s.terms) (
    or_else (check_submission_fields 0 s.submissions) (
      or_else (check_challenge_fields 0 s.challenges) (
        or_else (check_collection_fields s) (
          check_uniqueness s
          ++ (check_references s.submissions s.challenges
              ++ (check_payable s.submissions s.payable_submission_ids
                  ++ (check_challenge_invariants s
                      ++ (check_phase_invariants s ++ check_terminal_invariants s))))))))
