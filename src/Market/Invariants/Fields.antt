-- ===== src/Market/Invariants/Fields.antt =====
-- src/popperpad/core/market_invariants.py: the checks of single fields. The types of the model
-- take the place of the checks of Python types, whose codes no state of the model can show.
use popper_pad.Prelude.{
  ℕ, suc, ltb, Bool, true, false, all, is_nonempty, str_nat, Option, none, some, List, [], ◌∷◌,
  ◌++◌, String, ◌⊕◌,
}
use popper_pad.Market.Types.{
  BountyTerms, BountyState, SubmissionState, ChallengeState, valid_id, valid_ref, valid_ref_or_none,
  valid_ref_set, non_neg_int,
}
use popper_pad.Market.Invariants.Codes.{MarketStateViolationCode, MarketStateViolation}

-- A violation, unless the test holds: `if not …: out.append(_v(…))`.
abbrev pub check : Bool → MarketStateViolationCode → String → String → List MarketStateViolation
check true code path detail = []
check false code path detail = record { code = code; field_path = path; detail = detail } ∷ []

-- `_check_types_and_terms`
unfoldable pub check_terms : BountyTerms → List MarketStateViolation
check_terms t =
    check (valid_id t.bounty_id) MarketStateViolationCode.terms_bounty_id "$.terms.bounty_id"
      "invalid id format"
    ++ (check (is_nonempty t.sponsor_ref) MarketStateViolationCode.terms_sponsor_ref
          "$.terms.sponsor_ref" "must be non-empty string"
        ++ (check (valid_ref t.claim_ref) MarketStateViolationCode.terms_claim_ref
              "$.terms.claim_ref" "invalid ref format"
            ++ (check (valid_ref_or_none t.context_ref) MarketStateViolationCode.terms_context_ref
                  "$.terms.context_ref" "must be null or valid ref"
                ++ (check (ltb 0 t.reward.atoms) MarketStateViolationCode.terms_reward
                      "$.terms.reward" "must be positive Amount"
                    ++ (check (non_neg_int t.deadline_epoch_s)
                          MarketStateViolationCode.terms_deadline "$.terms.deadline_epoch_s"
                          "must be non-negative int"
                        ++ (check (non_neg_int t.challenge_window_seconds)
                              MarketStateViolationCode.terms_challenge_window
                              "$.terms.challenge_window_seconds" "must be non-negative int"
                            ++ (check (valid_ref_set t.accepted_recipe_refs)
                                  MarketStateViolationCode.terms_recipe_refs
                                  "$.terms.accepted_recipe_refs"
                                  "must be non-empty frozenset of valid refs"
                                ++ check (valid_ref_set t.accepted_verifier_refs)
                                    MarketStateViolationCode.terms_verifier_refs
                                    "$.terms.accepted_verifier_refs"
                                    "must be non-empty frozenset of valid refs")))))))

-- The body of the loop of `_check_submission_fields`.
unfoldable pub check_submission : String → SubmissionState → List MarketStateViolation
check_submission path s =
    check (valid_id s.submission_id) MarketStateViolationCode.submission_id
      (path ⊕ ".submission_id") "invalid id format"
    ++ (check (is_nonempty s.submitter_ref) MarketStateViolationCode.submission_submitter_ref
          (path ⊕ ".submitter_ref") "must be non-empty string"
        ++ (check (valid_ref s.recipe_ref) MarketStateViolationCode.submission_recipe_ref
              (path ⊕ ".recipe_ref") "invalid ref format"
            ++ (check (valid_ref s.verifier_ref) MarketStateViolationCode.submission_verifier_ref
                  (path ⊕ ".verifier_ref") "invalid ref format"
                ++ (check (all valid_ref s.evidence_refs)
                      MarketStateViolationCode.submission_evidence_refs (path ⊕ ".evidence_refs")
                      "must be tuple of valid refs"
                    ++ (check (all valid_ref s.artifact_refs)
                          MarketStateViolationCode.submission_artifact_refs
                          (path ⊕ ".artifact_refs") "must be tuple of valid refs"
                        ++ (check (non_neg_int s.submitted_at)
                              MarketStateViolationCode.submission_submitted_at
                              (path ⊕ ".submitted_at") "must be non-negative int"
                            ++ check (valid_ref_or_none s.verifier_receipt_ref)
                                MarketStateViolationCode.submission_receipt_ref
                                (path ⊕ ".verifier_receipt_ref") "must be null or valid ref"))))))

-- `_check_submission_fields`, from the index `i` on.
unfoldable pub check_submission_fields : ℕ → List SubmissionState → List MarketStateViolation
check_submission_fields i [] = []
check_submission_fields i (s ∷ ss) =
    check_submission ("$.submissions[" ⊕ (str_nat i ⊕ "]")) s ++ check_submission_fields (suc i) ss

-- The body of the loop of `_check_challenge_fields`.
unfoldable pub check_challenge : String → ChallengeState → List MarketStateViolation
check_challenge path c =
    check (valid_id c.challenge_id) MarketStateViolationCode.challenge_id (path ⊕ ".challenge_id")
      "invalid id format"
    ++ (check (valid_id c.submission_id) MarketStateViolationCode.challenge_submission_id
          (path ⊕ ".submission_id") "invalid id format"
        ++ (check (is_nonempty c.challenger_ref) MarketStateViolationCode.challenge_challenger_ref
              (path ⊕ ".challenger_ref") "must be non-empty string"
            ++ (check (is_nonempty c.finding_kind) MarketStateViolationCode.challenge_finding_kind
                  (path ⊕ ".finding_kind") "must be non-empty string"
                ++ (check (all valid_ref c.evidence_refs)
                      MarketStateViolationCode.challenge_evidence_refs (path ⊕ ".evidence_refs")
                      "must be tuple of valid refs"
                    ++ (check (non_neg_int c.opened_at) MarketStateViolationCode.challenge_opened_at
                          (path ⊕ ".opened_at") "must be non-negative int"
                        ++ check (valid_ref_or_none c.verifier_receipt_ref)
                            MarketStateViolationCode.challenge_receipt_ref
                            (path ⊕ ".verifier_receipt_ref") "must be null or valid ref")))))

-- `_check_challenge_fields`, from the index `i` on.
unfoldable pub check_challenge_fields : ℕ → List ChallengeState → List MarketStateViolation
check_challenge_fields i [] = []
check_challenge_fields i (c ∷ cs) =
    check_challenge ("$.challenges[" ⊕ (str_nat i ⊕ "]")) c ++ check_challenge_fields (suc i) cs

abbrev pub nonempty_or_none : Option String → Bool
nonempty_or_none none = true
nonempty_or_none (some r) = is_nonempty r

-- `_check_collection_fields`
unfoldable pub check_collection_fields : BountyState → List MarketStateViolation
check_collection_fields s =
    check (all valid_id s.payable_submission_ids) MarketStateViolationCode.payable_ids_format
      "$.payable_submission_ids" "must be tuple of valid ids"
    ++ (check (nonempty_or_none s.settlement_ref) MarketStateViolationCode.settlement_ref_type
          "$.settlement_ref" "must be null or non-empty string"
        ++ check (all valid_id s.processed_command_ids)
            MarketStateViolationCode.processed_command_ids_format "$.processed_command_ids"
            "must contain valid ids")
