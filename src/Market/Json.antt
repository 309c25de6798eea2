-- ===== src/Market/Json.antt =====
-- src/popperpad/core/market.py: the JSON forms of states, policies, commands and statements,
-- their hashes, and the bytes that a verifier signs.
use popper_pad.Prelude.{ℕ, List, [], ◌∷◌, String, map, sort_texts}
use popper_pad.Values.{Json, str, int, bool, arr, nat, dict, tuple, texts, text_or_null}
use popper_pad.Codec.{Crypto, json_hash, json_bytes, frame_bytes, sha256_bytes}
use popper_pad.Verifier.{hex}
use popper_pad.Market.Types.{
  BountyTerms, BountyState, SubmissionState, ChallengeState, MarketPolicy, phase_value,
  submission_status_value, challenge_status_value, submission_verdict_value,
  challenge_verdict_value,
}
use popper_pad.Market.Commands.{
  MarketCommand, Payout, VerifierStatement, VerifierReceipt, EffectKind, MarketEffect,
}

terms_json : BountyTerms → Json
terms_json t = dict (
    ("bounty_id", str t.bounty_id)
    ∷ ("sponsor_ref", str t.sponsor_ref)
    ∷ ("claim_ref", str t.claim_ref)
    ∷ ("context_ref", text_or_null t.context_ref)
    ∷ ("reward_atoms", nat t.reward.atoms)
    ∷ ("minimum_submission_bond_atoms", nat t.minimum_submission_bond.atoms)
    ∷ ("deadline_epoch_s", int t.deadline_epoch_s)
    ∷ ("challenge_window_seconds", int t.challenge_window_seconds)
    ∷ ("accepted_recipe_refs", arr (texts (sort_texts t.accepted_recipe_refs)))
    ∷ ("accepted_verifier_refs", arr (texts (sort_texts t.accepted_verifier_refs)))
    ∷ [])

submission_json : SubmissionState → Json
submission_json s = dict (
    ("submission_id", str s.submission_id)
    ∷ ("submitter_ref", str s.submitter_ref)
    ∷ ("recipe_ref", str s.recipe_ref)
    ∷ ("verifier_ref", str s.verifier_ref)
    ∷ ("evidence_refs", arr (texts s.evidence_refs))
    ∷ ("artifact_refs", arr (texts s.artifact_refs))
    ∷ ("submitted_at", int s.submitted_at)
    ∷ ("status", str (submission_status_value s.status))
    ∷ ("bond_locked_atoms", nat s.bond_locked.atoms)
    ∷ ("verifier_receipt_ref", text_or_null s.verifier_receipt_ref)
    ∷ [])

challenge_json : ChallengeState → Json
challenge_json c = dict (
    ("challenge_id", str c.challenge_id)
    ∷ ("submission_id", str c.submission_id)
    ∷ ("challenger_ref", str c.challenger_ref)
    ∷ ("finding_kind", str c.finding_kind)
    ∷ ("evidence_refs", arr (texts c.evidence_refs))
    ∷ ("opened_at", int c.opened_at)
    ∷ ("status", str (challenge_status_value c.status))
    ∷ ("deposit_locked_atoms", nat c.deposit_locked.atoms)
    ∷ ("verifier_receipt_ref", text_or_null c.verifier_receipt_ref)
    ∷ [])

-- `_state_json`
unfoldable pub state_json : BountyState → Json
unfolding terms_json submission_json challenge_json
state_json s = dict (
    ("terms", terms_json s.terms)
    ∷ ("phase", str (phase_value s.phase))
    ∷ ("escrow_locked_atoms", nat s.escrow_locked.atoms)
    ∷ ("submissions", arr (tuple (map submission_json s.submissions)))
    ∷ ("challenges", arr (tuple (map challenge_json s.challenges)))
    ∷ ("payable_submission_ids", arr (texts s.payable_submission_ids))
    ∷ ("settlement_ref", text_or_null s.settlement_ref)
    ∷ ("processed_command_ids", arr (texts (sort_texts s.processed_command_ids)))
    ∷ [])

payout_json : Payout → Json
payout_json p = dict (
    ("recipient_ref", str p.recipient_ref)
    ∷ ("submission_id", str p.submission_id)
    ∷ ("amount_atoms", nat p.amount.atoms)
    ∷ [])

-- `_command_json`
unfoldable pub command_json : MarketCommand → Json
unfolding payout_json
command_json (MarketCommand.open_bounty c) = dict (
    ("kind", str "open_bounty")
    ∷ ("command_id", str c.command_id)
    ∷ ("sponsor_ref", str c.sponsor_ref)
    ∷ ("funded_atoms", nat c.funded.atoms)
    ∷ ("now_epoch_s", int c.now_epoch_s)
    ∷ [])
command_json (MarketCommand.submit_candidate c) = dict (
    ("kind", str "submit_candidate")
    ∷ ("command_id", str c.command_id)
    ∷ ("submission_id", str c.submission_id)
    ∷ ("submitter_ref", str c.submitter_ref)
    ∷ ("recipe_ref", str c.recipe_ref)
    ∷ ("verifier_ref", str c.verifier_ref)
    ∷ ("evidence_refs", arr (texts c.evidence_refs))
    ∷ ("artifact_refs", arr (texts c.artifact_refs))
    ∷ ("bond_atoms", nat c.bond.atoms)
    ∷ ("now_epoch_s", int c.now_epoch_s)
    ∷ [])
command_json (MarketCommand.verify_submission c) = dict (
    ("kind", str "verify_submission")
    ∷ ("command_id", str c.command_id)
    ∷ ("submission_id", str c.submission_id)
    ∷ ("verifier_ref", str c.verifier_ref)
    ∷ ("verifier_receipt_ref", str c.verifier_receipt_ref)
    ∷ ("accepted", bool c.accepted)
    ∷ ("now_epoch_s", int c.now_epoch_s)
    ∷ [])
command_json (MarketCommand.open_challenge c) = dict (
    ("kind", str "open_challenge")
    ∷ ("command_id", str c.command_id)
    ∷ ("challenge_id", str c.challenge_id)
    ∷ ("submission_id", str c.submission_id)
    ∷ ("challenger_ref", str c.challenger_ref)
    ∷ ("finding_kind", str c.finding_kind)
    ∷ ("evidence_refs", arr (texts c.evidence_refs))
    ∷ ("deposit_atoms", nat c.deposit.atoms)
    ∷ ("now_epoch_s", int c.now_epoch_s)
    ∷ [])
command_json (MarketCommand.resolve_challenge c) = dict (
    ("kind", str "resolve_challenge")
    ∷ ("command_id", str c.command_id)
    ∷ ("challenge_id", str c.challenge_id)
    ∷ ("verifier_ref", str c.verifier_ref)
    ∷ ("verifier_receipt_ref", str c.verifier_receipt_ref)
    ∷ ("upheld", bool c.upheld)
    ∷ ("now_epoch_s", int c.now_epoch_s)
    ∷ [])
command_json (MarketCommand.advance_bounty c) = dict (
    ("kind", str "advance_bounty")
    ∷ ("command_id", str c.command_id)
    ∷ ("now_epoch_s", int c.now_epoch_s)
    ∷ [])
command_json (MarketCommand.settle_bounty c) = dict (
    ("kind", str "settle_bounty")
    ∷ ("command_id", str c.command_id)
    ∷ ("settlement_ref", str c.settlement_ref)
    ∷ ("payouts", arr (tuple (map payout_json c.payouts)))
    ∷ ("now_epoch_s", int c.now_epoch_s)
    ∷ [])
command_json (MarketCommand.cancel_bounty c) = dict (
    ("kind", str "cancel_bounty")
    ∷ ("command_id", str c.command_id)
    ∷ ("sponsor_ref", str c.sponsor_ref)
    ∷ ("now_epoch_s", int c.now_epoch_s)
    ∷ [])

-- `verifier_statement_json`
unfoldable pub verifier_statement_json : VerifierStatement → Json
verifier_statement_json (VerifierStatement.submission s) = dict (
    ("schema", str "popperpad/market-verifier-statement/submission/v1")
    ∷ ("pre_state_hash", str s.pre_state_hash)
    ∷ ("policy_hash", str s.policy_hash)
    ∷ ("bounty_id", str s.bounty_id)
    ∷ ("claim_ref", str s.claim_ref)
    ∷ ("context_ref", text_or_null s.context_ref)
    ∷ ("submission_id", str s.submission_id)
    ∷ ("recipe_ref", str s.recipe_ref)
    ∷ ("evidence_refs", arr (texts s.evidence_refs))
    ∷ ("artifact_refs", arr (texts s.artifact_refs))
    ∷ ("outcome", str (submission_verdict_value s.outcome))
    ∷ [])
verifier_statement_json (VerifierStatement.challenge s) = dict (
    ("schema", str "popperpad/market-verifier-statement/challenge/v1")
    ∷ ("pre_state_hash", str s.pre_state_hash)
    ∷ ("policy_hash", str s.policy_hash)
    ∷ ("bounty_id", str s.bounty_id)
    ∷ ("claim_ref", str s.claim_ref)
    ∷ ("context_ref", text_or_null s.context_ref)
    ∷ ("challenge_id", str s.challenge_id)
    ∷ ("submission_id", str s.submission_id)
    ∷ ("finding_kind", str s.finding_kind)
    ∷ ("evidence_refs", arr (texts s.evidence_refs))
    ∷ ("outcome", str (challenge_verdict_value s.outcome))
    ∷ [])

unfoldable pub verifier_statement_signing_bytes : VerifierStatement → List ℕ
verifier_statement_signing_bytes s =
    frame_bytes "market-verifier-statement/v1" (json_bytes (verifier_statement_json s))

unfoldable pub verifier_receipt_json : VerifierReceipt → Json
verifier_receipt_json r = dict (
    ("schema", str "popperpad/market-verifier-receipt/v1")
    ∷ ("algorithm", str "ed25519")
    ∷ ("public_key_hex", str (hex r.public_key))
    ∷ ("signature_hex", str (hex r.signature))
    ∷ ("statement", verifier_statement_json r.statement)
    ∷ [])

unfoldable pub effect_kind_value : EffectKind → String
effect_kind_value EffectKind.lock_escrow = "lock_escrow"
effect_kind_value EffectKind.lock_submission_bond = "lock_submission_bond"
effect_kind_value EffectKind.lock_challenge_deposit = "lock_challenge_deposit"
effect_kind_value EffectKind.refund_escrow = "refund_escrow"
effect_kind_value EffectKind.refund_submission_bond = "refund_submission_bond"
effect_kind_value EffectKind.refund_challenge_deposit = "refund_challenge_deposit"
effect_kind_value EffectKind.slash_submission_bond = "slash_submission_bond"
effect_kind_value EffectKind.slash_challenge_deposit = "slash_challenge_deposit"
effect_kind_value EffectKind.payout = "payout"

-- `MarketEffect.as_json`
unfoldable pub effect_json : MarketEffect → Json
effect_json e = dict (
    ("kind", str (effect_kind_value e.kind))
    ∷ ("account_ref", str e.account_ref)
    ∷ ("amount_atoms", nat e.amount.atoms)
    ∷ ("subject_ref", str e.subject_ref)
    ∷ ("metadata", e.metadata)
    ∷ [])

policy_json : MarketPolicy → Json
policy_json p = dict (
    ("version", str p.version)
    ∷ ("minimum_bounty_atoms", nat p.minimum_bounty.atoms)
    ∷ ("minimum_submission_bond_atoms", nat p.minimum_submission_bond.atoms)
    ∷ ("minimum_challenge_deposit_atoms", nat p.minimum_challenge_deposit.atoms)
    ∷ ("slashable_findings", arr (texts (sort_texts p.slashable_findings)))
    ∷ ("treasury_ref", str p.treasury_ref)
    ∷ ("challenge_resolution_seconds", int p.challenge_resolution_seconds)
    ∷ [])

module _ (crypto : Crypto) where
  unfoldable pub market_state_hash : BountyState → String
  market_state_hash s = json_hash crypto "market-state/v1" (state_json s)

  unfoldable pub market_policy_hash : MarketPolicy → String
  unfolding policy_json
  market_policy_hash p = json_hash crypto "market-policy/v1" (policy_json p)

  unfoldable pub verifier_receipt_ref : VerifierReceipt → String
  verifier_receipt_ref r = sha256_bytes crypto (json_bytes (verifier_receipt_json r))
