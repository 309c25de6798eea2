-- ===== src/Market/Validity/Reflect.antt =====
-- What each check of src/popperpad/core/market_invariants.py says of a state when it finds nothing.
use popper_pad.Prelude.{
  ℕ, suc, ◌≡◌, refl, Bool, true, false, List, [], ◌∷◌, ◌++◌, String, All, arith, Option-cases, inl,
  inr,
}
use popper_pad.Market.Types.{BountyState, SubmissionState, ChallengeState}
use popper_pad.Market.Ids.{is_unique-Distinct, Distinct-is_unique}
use popper_pad.Market.Invariants.Codes.{MarketStateViolationCode, MarketStateViolation}
use popper_pad.Market.Invariants.Fields.{
  check, check_submission, check_submission_fields, check_challenge, check_challenge_fields,
  check_collection_fields,
}
use popper_pad.Market.Invariants.Relations.{
  check_uniqueness, check_references, check_payable_id, check_payable, check_open_deposits,
  check_resolved_deposits, check_rejected_bonds, check_challenge_invariants, check_phase_invariants,
  or_else, market_state_violations, submission_by_id,
}
use popper_pad.Market.Validity.Checks.{
  SubmissionOk, ChallengeOk, IsPayable, HasDeposit, IsReleased, IsUnbonded, RefersTo, IsChecked,
}

pub append-nil_inv : (xs ys : List MarketStateViolation) → xs ++ ys ≡ [] → (xs ≡ []) × (ys ≡ [])
append-nil_inv [] ys h = (refl, h)
append-nil_inv (x ∷ xs) ys h = ground arith

pub nil-append_intro : (xs ys : List MarketStateViolation) → xs ≡ [] → ys ≡ [] → xs ++ ys ≡ []
nil-append_intro [] ys h k = k
nil-append_intro (x ∷ xs) ys h k = ground arith

or_else-nil_inv : (xs ys : List MarketStateViolation) → or_else xs ys ≡ [] → (xs ≡ []) × (ys ≡ [])
or_else-nil_inv [] ys h = (refl, h)
or_else-nil_inv (x ∷ xs) ys h = ground arith

nil-or_else_intro : (xs ys : List MarketStateViolation) → xs ≡ [] → ys ≡ [] → or_else xs ys ≡ []
nil-or_else_intro [] ys h k = k
nil-or_else_intro (x ∷ xs) ys h k = ground arith

pub check-nil :
    (b : Bool) (code : MarketStateViolationCode) (path detail : String)
    → check b code path detail ≡ []
    → b ≡ true
check-nil true code path detail h = refl
check-nil false code path detail h = ground arith

check_submission-Ok :
    (path : String) (s : SubmissionState) → check_submission path s ≡ [] → SubmissionOk s
unfolding check_submission
check_submission-Ok path s h = ground arith

Ok-check_submission :
    (path : String) (s : SubmissionState) → SubmissionOk s → check_submission path s ≡ []
unfolding check_submission
Ok-check_submission path s h = ground arith

check_challenge-Ok :
    (path : String) (c : ChallengeState) → check_challenge path c ≡ [] → ChallengeOk c
unfolding check_challenge
check_challenge-Ok path c h = ground arith

Ok-check_challenge :
    (path : String) (c : ChallengeState) → ChallengeOk c → check_challenge path c ≡ []
unfolding check_challenge
Ok-check_challenge path c h = ground arith

check_submission_fields-Ok :
    (i : ℕ) (ss : List SubmissionState) → check_submission_fields i ss ≡ [] → All SubmissionOk ss
unfolding check_submission_fields
check_submission_fields-Ok i [] h = tt
check_submission_fields-Ok i (s ∷ ss) h =
    let (a, b) = append-nil_inv _ _ h in
    (check_submission-Ok _ s a, check_submission_fields-Ok (suc i) ss b)

Ok-check_submission_fields :
    (i : ℕ) (ss : List SubmissionState) → All SubmissionOk ss → check_submission_fields i ss ≡ []
unfolding check_submission_fields
Ok-check_submission_fields i [] h = refl
Ok-check_submission_fields i (s ∷ ss) h =
    nil-append_intro _ _ (Ok-check_submission _ s h.0) (Ok-check_submission_fields (suc i) ss h.1)

check_challenge_fields-Ok :
    (i : ℕ) (cs : List ChallengeState) → check_challenge_fields i cs ≡ [] → All ChallengeOk cs
unfolding check_challenge_fields
check_challenge_fields-Ok i [] h = tt
check_challenge_fields-Ok i (c ∷ cs) h =
    let (a, b) = append-nil_inv _ _ h in
    (check_challenge-Ok _ c a, check_challenge_fields-Ok (suc i) cs b)

Ok-check_challenge_fields :
    (i : ℕ) (cs : List ChallengeState) → All ChallengeOk cs → check_challenge_fields i cs ≡ []
unfolding check_challenge_fields
Ok-check_challenge_fields i [] h = refl
Ok-check_challenge_fields i (c ∷ cs) h =
    nil-append_intro _ _ (Ok-check_challenge _ c h.0) (Ok-check_challenge_fields (suc i) cs h.1)

check_references-All :
    (ss : List SubmissionState) (cs : List ChallengeState)
    → check_references ss cs ≡ []
    → All (RefersTo ss) cs
unfolding check_references
check_references-All ss [] h = tt
check_references-All ss (c ∷ cs) h =
    let (a, b) = append-nil_inv _ _ h in (check-nil _ _ _ _ a, check_references-All ss cs b)

All-check_references :
    (ss : List SubmissionState) (cs : List ChallengeState)
    → All (RefersTo ss) cs
    → check_references ss cs ≡ []
unfolding check_references
All-check_references ss [] h = refl
All-check_references ss (c ∷ cs) h = rw h.0 (All-check_references ss cs h.1)

check_payable_id-IsPayable :
    (ss : List SubmissionState) (id : String) → check_payable_id ss id ≡ [] → IsPayable ss id
unfolding check_payable_id
check_payable_id-IsPayable ss id h = elim (Option-cases (submission_by_id ss id)) [
  | inl missing ↦ ground arith
  | inr (s, e) ↦ (s, e, ground arith)
]

IsPayable-check_payable_id :
    (ss : List SubmissionState) (id : String) → IsPayable ss id → check_payable_id ss id ≡ []
unfolding check_payable_id
IsPayable-check_payable_id ss id (s, e, v) = ground arith

check_payable-All :
    (ss : List SubmissionState) (ids : List String)
    → check_payable ss ids ≡ []
    → All (IsPayable ss) ids
unfolding check_payable
check_payable-All ss [] h = tt
check_payable-All ss (id ∷ ids) h =
    let (a, b) = append-nil_inv _ _ h in
    (check_payable_id-IsPayable ss id a, check_payable-All ss ids b)

All-check_payable :
    (ss : List SubmissionState) (ids : List String)
    → All (IsPayable ss) ids
    → check_payable ss ids ≡ []
unfolding check_payable
All-check_payable ss [] h = refl
All-check_payable ss (id ∷ ids) h =
    nil-append_intro _ _ (IsPayable-check_payable_id ss id h.0) (All-check_payable ss ids h.1)

check_open_deposits-All :
    (cs : List ChallengeState) → check_open_deposits cs ≡ [] → All HasDeposit cs
unfolding check_open_deposits
check_open_deposits-All [] h = tt
check_open_deposits-All (c ∷ cs) h =
    let (a, b) = append-nil_inv _ _ h in (check-nil _ _ _ _ a, check_open_deposits-All cs b)

All-check_open_deposits :
    (cs : List ChallengeState) → All HasDeposit cs → check_open_deposits cs ≡ []
unfolding check_open_deposits
All-check_open_deposits [] h = refl
All-check_open_deposits (c ∷ cs) h = rw h.0 (All-check_open_deposits cs h.1)

check_resolved_deposits-All :
    (cs : List ChallengeState) → check_resolved_deposits cs ≡ [] → All IsReleased cs
unfolding check_resolved_deposits
check_resolved_deposits-All [] h = tt
check_resolved_deposits-All (c ∷ cs) h =
    let (a, b) = append-nil_inv _ _ h in (check-nil _ _ _ _ a, check_resolved_deposits-All cs b)

All-check_resolved_deposits :
    (cs : List ChallengeState) → All IsReleased cs → check_resolved_deposits cs ≡ []
unfolding check_resolved_deposits
All-check_resolved_deposits [] h = refl
All-check_resolved_deposits (c ∷ cs) h = rw h.0 (All-check_resolved_deposits cs h.1)

check_rejected_bonds-All :
    (ss : List SubmissionState) → check_rejected_bonds ss ≡ [] → All IsUnbonded ss
unfolding check_rejected_bonds
check_rejected_bonds-All [] h = tt
check_rejected_bonds-All (s ∷ ss) h =
    let (a, b) = append-nil_inv _ _ h in (check-nil _ _ _ _ a, check_rejected_bonds-All ss b)

All-check_rejected_bonds :
    (ss : List SubmissionState) → All IsUnbonded ss → check_rejected_bonds ss ≡ []
unfolding check_rejected_bonds
All-check_rejected_bonds [] h = refl
All-check_rejected_bonds (s ∷ ss) h = rw h.0 (All-check_rejected_bonds ss h.1)

pub violations-IsChecked : (s : BountyState) → market_state_violations s ≡ [] → IsChecked s
unfolding market_state_violations check_collection_fields check_uniqueness
    check_challenge_invariants check_phase_invariants
violations-IsChecked s h =
    let (terms, h1) = or_else-nil_inv _ _ h in
    let (subs, h2) = or_else-nil_inv _ _ h1 in
    let (chs, h3) = or_else-nil_inv _ _ h2 in
    let (coll, h4) = or_else-nil_inv _ _ h3 in
    let (pf, coll1) = append-nil_inv _ _ coll in
    let (sf, cf) = append-nil_inv _ _ coll1 in
    let (uniq, h5) = append-nil_inv _ _ h4 in
    let (us, uniq1) = append-nil_inv _ _ uniq in
    let (uc, up) = append-nil_inv _ _ uniq1 in
    let (refs, h6) = append-nil_inv _ _ h5 in
    let (pay, h7) = append-nil_inv _ _ h6 in
    let (inv, h8) = append-nil_inv _ _ h7 in
    let (os, inv1) = append-nil_inv _ _ inv in
    let (op, inv2) = append-nil_inv _ _ inv1 in
    let (od, inv3) = append-nil_inv _ _ inv2 in
    let (rd, rb) = append-nil_inv _ _ inv3 in
    let (ph, te) = append-nil_inv _ _ h8 in
    record {
      terms = terms;
      submissions = check_submission_fields-Ok 0 _ subs;
      challenges = check_challenge_fields-Ok 0 _ chs;
      payable_format = check-nil _ _ _ _ pf;
      settlement_format = check-nil _ _ _ _ sf;
      processed_format = check-nil _ _ _ _ cf;
      distinct_submissions = is_unique-Distinct _ (check-nil _ _ _ _ us);
      distinct_challenges = is_unique-Distinct _ (check-nil _ _ _ _ uc);
      distinct_payable = is_unique-Distinct _ (check-nil _ _ _ _ up);
      references = check_references-All _ _ refs;
      payable = check_payable-All _ _ pay;
      open_subjects = is_unique-Distinct _ (check-nil _ _ _ _ os);
      open_phase = check-nil _ _ _ _ op;
      open_deposits = check_open_deposits-All _ od;
      released = check_resolved_deposits-All _ rd;
      unbonded = check_rejected_bonds-All _ rb;
      phase = ph;
      terminal = te;
    }

pub nil-check :
    (b : Bool) (code : MarketStateViolationCode) (path detail : String)
    → b ≡ true
    → check b code path detail ≡ []
nil-check b code path detail h = rw h

pub IsChecked-violations : (s : BountyState) → IsChecked s → market_state_violations s ≡ []
unfolding market_state_violations check_collection_fields check_uniqueness
    check_challenge_invariants check_phase_invariants
IsChecked-violations s v = nil-or_else_intro _ _ v.terms (
    nil-or_else_intro _ _ (Ok-check_submission_fields 0 _ v.submissions) (
      nil-or_else_intro _ _ (Ok-check_challenge_fields 0 _ v.challenges) (
        nil-or_else_intro _ _
          (nil-append_intro _ _ (nil-check _ _ _ _ v.payable_format) (
            nil-append_intro _ _ (nil-check _ _ _ _ v.settlement_format)
              (nil-check _ _ _ _ v.processed_format)))
          (nil-append_intro _ _
            (nil-append_intro _ _ (nil-check _ _ _ _ (Distinct-is_unique _ v.distinct_submissions))
              (nil-append_intro _ _ (nil-check _ _ _ _ (Distinct-is_unique _ v.distinct_challenges))
                (nil-check _ _ _ _ (Distinct-is_unique _ v.distinct_payable))))
            (nil-append_intro _ _ (All-check_references _ _ v.references) (
              nil-append_intro _ _ (All-check_payable _ _ v.payable) (
                nil-append_intro _ _
                  (nil-append_intro _ _ (nil-check _ _ _ _ (Distinct-is_unique _ v.open_subjects)) (
                    nil-append_intro _ _ (nil-check _ _ _ _ v.open_phase) (
                      nil-append_intro _ _ (All-check_open_deposits _ v.open_deposits) (
                        nil-append_intro _ _ (All-check_resolved_deposits _ v.released)
                          (All-check_rejected_bonds _ v.unbonded)))))
                  (nil-append_intro _ _ v.phase v.terminal))))))))
