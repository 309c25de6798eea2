-- ===== src/Market/Samples.antt =====
-- A bounty that runs from its opening to its settlement, to evaluate the program on.
pub mod Story
mod Unbacked
use popper_pad.Prelude.{
  ◌+ℤ◌, pos, true, none, some, [], ◌∷◌, String, ◌≡◌, refl, set_add, set_of, texts_eq, option_eq,
  str_eq, str_nat, str_int,
}
use popper_pad.Values.{dict, tuple, texts, text_or_null}
use popper_pad.Codec.{Crypto, json_bytes, frame_bytes, sha256_bytes, frame_sha256, json_hash}
use popper_pad.Verifier.{hex, ed25519_verifier_ref, verify_ed25519_signature}
use popper_pad.Market.Types.{
  BountyPhase, BountyTerms, BountyState, MarketPolicy, initial_bounty, phase_value,
  submission_status_value, challenge_status_value, submission_verdict_value,
  challenge_verdict_value, valid_id, valid_ref, valid_ref_or_none, valid_ref_set,
}
use popper_pad.Market.Commands.{
  MarketCommand, MarketEvidence, MarketDecision, Commit, committed, refuse_if, found, ◌>>=◌, ◌>>◌,
  stop_on,
}
use popper_pad.Market.Json.{
  state_json, command_json, verifier_statement_json, verifier_statement_signing_bytes,
  verifier_receipt_json, effect_kind_value, effect_json, market_state_hash, market_policy_hash,
  verifier_receipt_ref,
}
use popper_pad.Market.Lookup.{
  find_by, replace_by, challenge_deadline, resolution_deadline, transition_receipt,
}
use popper_pad.Market.Evidence.{
  submission_statement_eq, challenge_statement_eq, find_verifier_receipt,
  submission_verifier_statement, challenge_verifier_statement, verify_receipt_authentication,
  validate_market_evidence, validate_command_evidence_binding, evidence_if,
}
use popper_pad.Market.Admit.{admit_submission_receipt, admit_challenge_receipt}
use popper_pad.Market.Handlers.Funding.{commit_open, commit_cancel, open_bounty, cancel_bounty}
use popper_pad.Market.Handlers.Submissions.{
  commit_submit, commit_verdict, submit_candidate, verify_submission,
}
use popper_pad.Market.Handlers.Challenges.{
  commit_challenge, commit_upheld, commit_dismissed, open_challenge, resolve_challenge,
}
use popper_pad.Market.Handlers.Advance.{
  close_challenges, timeout_effects, le_key, insert_submission, sort_submissions, eligible,
  release_bonds, refund_effects, commit_payable, commit_expired, advance_bounty,
}
use popper_pad.Market.Handlers.Settle.{
  eligible_submission, check_payouts, payout_effects, commit_settled, settle_bounty,
}
use popper_pad.Market.Invariants.Fields.{
  check_terms, check_submission, check_submission_fields, check_challenge, check_challenge_fields,
  check_collection_fields,
}
use popper_pad.Market.Invariants.Relations.{
  is_unique, check_uniqueness, check_references, submission_by_id, check_payable_id, check_payable,
  check_open_deposits, check_resolved_deposits, check_rejected_bonds, check_challenge_invariants,
  check_phase, check_phase_invariants, check_terminal_invariants, market_state_violations,
}
use popper_pad.Market.Apply.{
  validate_market_state, validate_market_policy, valid_fields, validate_common_command, dispatch,
  apply_checked, apply_market_command,
}

-- Every function that a run of `apply_market_command` calls. The hashes stay shut.
unfoldable pub program : Unit {0}
unfolding ◌+ℤ◌ set_add set_of texts_eq option_eq str_eq initial_bounty phase_value
    submission_status_value challenge_status_value valid_id valid_ref valid_ref_or_none
    valid_ref_set refuse_if found ◌>>=◌ ◌>>◌ stop_on find_by replace_by challenge_deadline
    resolution_deadline submission_statement_eq challenge_statement_eq find_verifier_receipt
    submission_verifier_statement challenge_verifier_statement verify_receipt_authentication
    validate_market_evidence validate_command_evidence_binding evidence_if admit_submission_receipt
    admit_challenge_receipt commit_open commit_cancel open_bounty cancel_bounty commit_submit
    commit_verdict submit_candidate verify_submission commit_challenge commit_upheld
    commit_dismissed open_challenge resolve_challenge close_challenges timeout_effects le_key
    insert_submission sort_submissions eligible release_bonds refund_effects commit_payable
    commit_expired advance_bounty eligible_submission check_payouts payout_effects commit_settled
    settle_bounty check_terms check_submission check_submission_fields check_challenge
    check_challenge_fields check_collection_fields is_unique check_uniqueness check_references
    submission_by_id check_payable_id check_payable check_open_deposits check_resolved_deposits
    check_rejected_bonds check_challenge_invariants check_phase check_phase_invariants
    check_terminal_invariants market_state_violations validate_market_state validate_market_policy
    valid_fields validate_common_command dispatch apply_checked apply_market_command
program = tt

-- The functions that hash and that verify receipts.
unfoldable pub hashing : Unit {0}
unfolding json_bytes frame_bytes sha256_bytes frame_sha256 json_hash hex ed25519_verifier_ref
    verify_ed25519_signature dict tuple texts text_or_null state_json command_json
    verifier_statement_json verifier_statement_signing_bytes verifier_receipt_json
    submission_verdict_value challenge_verdict_value effect_kind_value effect_json market_state_hash
    market_policy_hash verifier_receipt_ref transition_receipt str_nat str_int
hashing = tt

abbrev pub digest : String
digest = "0123456789abcdef0123456789abcdef0123456789abcdef0123456789abcdef"

abbrev pub ref : String
ref = "sha256:0123456789abcdef0123456789abcdef0123456789abcdef0123456789abcdef"

-- A stand-in for the cryptographic functions: one digest for all bytes, every signature good.
abbrev pub plain : Crypto
plain = record { sha256_hex = λ bytes. digest; ed25519_verify = λ key signature message. true }

abbrev pub terms : BountyTerms
terms = record {
  bounty_id = "bounty-1";
  sponsor_ref = "sponsor";
  claim_ref = ref;
  context_ref = none;
  reward = record { atoms = 100 };
  minimum_submission_bond = record { atoms = 5 };
  deadline_epoch_s = pos 1000;
  challenge_window_seconds = pos 500;
  accepted_recipe_refs = ref ∷ [];
  accepted_verifier_refs = ref ∷ [];
}

abbrev pub policy : MarketPolicy
policy = record {
  minimum_bounty = record { atoms = 50 };
  minimum_submission_bond = record { atoms = 10 };
  minimum_challenge_deposit = record { atoms = 7 };
  slashable_findings = "fraud" ∷ [];
  treasury_ref = "protocol:treasury";
  challenge_resolution_seconds = pos 300;
  version = "popperpad/market-policy/v1";
}

abbrev pub no_evidence : MarketEvidence
no_evidence = record { verifier_receipts = [] }

abbrev pub start : BountyState
unfolding initial_bounty
start = initial_bounty terms

abbrev pub opening : MarketCommand
opening = MarketCommand.open_bounty (record {
  command_id = "c1";
  sponsor_ref = "sponsor";
  funded = record { atoms = 100 };
  now_epoch_s = pos 10;
})
