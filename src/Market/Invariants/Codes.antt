-- ===== src/Market/Invariants/Codes.antt =====
-- src/popperpad/core/market_invariants.py: the codes of the violations, and their texts.
use popper_pad.Prelude.{String, ◌⊕◌}

pub data MarketStateViolationCode : Type 0 where
  state_type terms_type terms_bounty_id terms_sponsor_ref : MarketStateViolationCode
  terms_claim_ref terms_context_ref terms_reward terms_min_bond : MarketStateViolationCode
  terms_deadline terms_challenge_window terms_recipe_refs : MarketStateViolationCode
  terms_verifier_refs phase_type escrow_type submission_type : MarketStateViolationCode
  submission_id submission_submitter_ref submission_recipe_ref : MarketStateViolationCode
  submission_verifier_ref submission_evidence_refs : MarketStateViolationCode
  submission_artifact_refs submission_submitted_at submission_status : MarketStateViolationCode
  submission_bond submission_receipt_ref challenge_type challenge_id : MarketStateViolationCode
  challenge_submission_id challenge_challenger_ref : MarketStateViolationCode
  challenge_finding_kind challenge_evidence_refs challenge_opened_at : MarketStateViolationCode
  challenge_status challenge_deposit challenge_receipt_ref : MarketStateViolationCode
  duplicate_submission_id duplicate_challenge_id : MarketStateViolationCode
  challenge_unknown_submission duplicate_payable_submission_id : MarketStateViolationCode
  payable_unknown_submission payable_submission_not_verified : MarketStateViolationCode
  payable_ids_format multiple_open_challenges : MarketStateViolationCode
  open_challenge_outside_open_phase open_challenge_without_deposit : MarketStateViolationCode
  resolved_challenge_retains_deposit rejected_submission_retains_bond : MarketStateViolationCode
  terminal_retains_escrow terminal_retains_bond : MarketStateViolationCode
  terminal_retains_deposit terminal_has_open_challenge : MarketStateViolationCode
  non_settled_has_settlement settlement_ref_type : MarketStateViolationCode
  processed_command_ids_type processed_command_ids_format : MarketStateViolationCode
  draft_has_escrow draft_has_activity open_without_escrow : MarketStateViolationCode
  open_has_payable_ids open_has_settlement payable_without_escrow : MarketStateViolationCode
  payable_without_submission payable_with_open_challenge : MarketStateViolationCode
  settled_retains_escrow settled_without_payable_submission : MarketStateViolationCode
  settled_without_receipt expired_retains_escrow : MarketStateViolationCode
  expired_has_payable_ids canceled_retains_escrow : MarketStateViolationCode
  canceled_has_activity : MarketStateViolationCode

-- `MarketStateViolationCode.value`
unfoldable pub code_value : MarketStateViolationCode → String
code_value state_type = "state_type"
code_value terms_type = "terms_type"
code_value terms_bounty_id = "terms_bounty_id"
code_value terms_sponsor_ref = "terms_sponsor_ref"
code_value terms_claim_ref = "terms_claim_ref"
code_value terms_context_ref = "terms_context_ref"
code_value terms_reward = "terms_reward"
code_value terms_min_bond = "terms_min_bond"
code_value terms_deadline = "terms_deadline"
code_value terms_challenge_window = "terms_challenge_window"
code_value terms_recipe_refs = "terms_recipe_refs"
code_value terms_verifier_refs = "terms_verifier_refs"
code_value phase_type = "phase_type"
code_value escrow_type = "escrow_type"
code_value submission_type = "submission_type"
code_value submission_id = "submission_id"
code_value submission_submitter_ref = "submission_submitter_ref"
code_value submission_recipe_ref = "submission_recipe_ref"
code_value submission_verifier_ref = "submission_verifier_ref"
code_value submission_evidence_refs = "submission_evidence_refs"
code_value submission_artifact_refs = "submission_artifact_refs"
code_value submission_submitted_at = "submission_submitted_at"
code_value submission_status = "submission_status"
code_value submission_bond = "submission_bond"
code_value submission_receipt_ref = "submission_receipt_ref"
code_value challenge_type = "challenge_type"
code_value challenge_id = "challenge_id"
code_value challenge_submission_id = "challenge_submission_id"
code_value challenge_challenger_ref = "challenge_challenger_ref"
code_value challenge_finding_kind = "challenge_finding_kind"
code_value challenge_evidence_refs = "challenge_evidence_refs"
code_value challenge_opened_at = "challenge_opened_at"
code_value challenge_status = "challenge_status"
code_value challenge_deposit = "challenge_deposit"
code_value challenge_receipt_ref = "challenge_receipt_ref"
code_value duplicate_submission_id = "duplicate_submission_id"
code_value duplicate_challenge_id = "duplicate_challenge_id"
code_value challenge_unknown_submission = "challenge_unknown_submission"
code_value duplicate_payable_submission_id = "duplicate_payable_submission_id"
code_value payable_unknown_submission = "payable_unknown_submission"
code_value payable_submission_not_verified = "payable_submission_not_verified"
code_value payable_ids_format = "payable_ids_format"
code_value multiple_open_challenges = "multiple_open_challenges"
code_value open_challenge_outside_open_phase = "open_challenge_outside_open_phase"
code_value open_challenge_without_deposit = "open_challenge_without_deposit"
code_value resolved_challenge_retains_deposit = "resolved_challenge_retains_deposit"
code_value rejected_submission_retains_bond = "rejected_submission_retains_bond"
code_value terminal_retains_escrow = "terminal_retains_escrow"
code_value terminal_retains_bond = "terminal_retains_bond"
code_value terminal_retains_deposit = "terminal_retains_deposit"
code_value terminal_has_open_challenge = "terminal_has_open_challenge"
code_value non_settled_has_settlement = "non_settled_has_settlement"
code_value settlement_ref_type = "settlement_ref_type"
code_value processed_command_ids_type = "processed_command_ids_type"
code_value processed_command_ids_format = "processed_command_ids_format"
code_value draft_has_escrow = "draft_has_escrow"
code_value draft_has_activity = "draft_has_activity"
code_value open_without_escrow = "open_without_escrow"
code_value open_has_payable_ids = "open_has_payable_ids"
code_value open_has_settlement = "open_has_settlement"
code_value payable_without_escrow = "payable_without_escrow"
code_value payable_without_submission = "payable_without_submission"
code_value payable_with_open_challenge = "payable_with_open_challenge"
code_value settled_retains_escrow = "settled_retains_escrow"
code_value settled_without_payable_submission = "settled_without_payable_submission"
code_value settled_without_receipt = "settled_without_receipt"
code_value expired_retains_escrow = "expired_retains_escrow"
code_value expired_has_payable_ids = "expired_has_payable_ids"
code_value canceled_retains_escrow = "canceled_retains_escrow"
code_value canceled_has_activity = "canceled_has_activity"

pub record MarketStateViolation : Type 0 where
  pub code : MarketStateViolationCode
  pub field_path : String
  pub detail : String

-- `MarketStateViolation.render`
unfoldable pub render : MarketStateViolation → String
render v = code_value v.code ⊕ (" at " ⊕ (v.field_path ⊕ (": " ⊕ v.detail)))
