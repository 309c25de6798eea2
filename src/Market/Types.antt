-- ===== src/Market/Types.antt =====
-- src/popperpad/core/market.py: the closed enumerations, the state and the policy of a bounty.
-- A field that Python annotates as an integer and does not check when the value is built is an ℤ.
use popper_pad.Prelude.{
  ◌≡◌, arith, ℕ, Bool, true, false, not, ◌&&◌, ◌||◌, ltb, ltb_ℤ, pos, ℤ, Option, none, some, List,
  [], String, is_nonempty, is_empty, all, codes, leb, length, ◌==◌, drop_prefix,
}
use popper_pad.Values.{Amount, zero_amount}

pub data BountyPhase : Type 0 where
  draft opened payable settled expired canceled : BountyPhase

pub data SubmissionStatus : Type 0 where
  pending verified rejected : SubmissionStatus

pub data ChallengeStatus : Type 0 where
  opened upheld rejected : ChallengeStatus

pub data SubmissionVerdict : Type 0 where
  accepted rejected : SubmissionVerdict

pub data ChallengeVerdict : Type 0 where
  upheld rejected : ChallengeVerdict

unfoldable pub phase_value : BountyPhase → String
phase_value BountyPhase.draft = "draft"
phase_value BountyPhase.opened = "open"
phase_value BountyPhase.payable = "payable"
phase_value BountyPhase.settled = "settled"
phase_value BountyPhase.expired = "expired"
phase_value BountyPhase.canceled = "canceled"

unfoldable pub submission_status_value : SubmissionStatus → String
submission_status_value SubmissionStatus.pending = "pending"
submission_status_value SubmissionStatus.verified = "verified"
submission_status_value SubmissionStatus.rejected = "rejected"

unfoldable pub challenge_status_value : ChallengeStatus → String
challenge_status_value ChallengeStatus.opened = "open"
challenge_status_value ChallengeStatus.upheld = "upheld"
challenge_status_value ChallengeStatus.rejected = "rejected"

unfoldable pub submission_verdict_value : SubmissionVerdict → String
submission_verdict_value SubmissionVerdict.accepted = "accepted"
submission_verdict_value SubmissionVerdict.rejected = "rejected"

unfoldable pub challenge_verdict_value : ChallengeVerdict → String
challenge_verdict_value ChallengeVerdict.upheld = "upheld"
challenge_verdict_value ChallengeVerdict.rejected = "rejected"

-- The tests `x is BountyPhase.OPEN` and the like.
abbrev pub is_draft_phase : BountyPhase → Bool
is_draft_phase BountyPhase.draft = true
is_draft_phase _ = false

abbrev pub is_open_phase : BountyPhase → Bool
is_open_phase BountyPhase.opened = true
is_open_phase _ = false

abbrev pub is_payable_phase : BountyPhase → Bool
is_payable_phase BountyPhase.payable = true
is_payable_phase _ = false

abbrev pub is_settled_phase : BountyPhase → Bool
is_settled_phase BountyPhase.settled = true
is_settled_phase _ = false

abbrev pub is_pending : SubmissionStatus → Bool
is_pending SubmissionStatus.pending = true
is_pending _ = false

abbrev pub is_verified : SubmissionStatus → Bool
is_verified SubmissionStatus.verified = true
is_verified _ = false

abbrev pub is_rejected : SubmissionStatus → Bool
is_rejected SubmissionStatus.rejected = true
is_rejected _ = false

abbrev pub is_open : ChallengeStatus → Bool
is_open ChallengeStatus.opened = true
is_open _ = false

pub record BountyTerms : Type 0 where
  pub bounty_id : String
  pub sponsor_ref : String
  pub claim_ref : String
  pub context_ref : Option String
  pub reward : Amount
  pub minimum_submission_bond : Amount
  pub deadline_epoch_s : ℤ
  pub challenge_window_seconds : ℤ
  pub accepted_recipe_refs : List String
  pub accepted_verifier_refs : List String

pub record SubmissionState : Type 0 where
  pub submission_id : String
  pub submitter_ref : String
  pub recipe_ref : String
  pub verifier_ref : String
  pub evidence_refs : List String
  pub artifact_refs : List String
  pub submitted_at : ℤ
  pub status : SubmissionStatus
  pub bond_locked : Amount
  pub verifier_receipt_ref : Option String

pub record ChallengeState : Type 0 where
  pub challenge_id : String
  pub submission_id : String
  pub challenger_ref : String
  pub finding_kind : String
  pub evidence_refs : List String
  pub opened_at : ℤ
  pub status : ChallengeStatus
  pub deposit_locked : Amount
  pub verifier_receipt_ref : Option String

pub record BountyState : Type 0 where
  pub terms : BountyTerms
  pub phase : BountyPhase
  pub escrow_locked : Amount
  pub submissions : List SubmissionState
  pub challenges : List ChallengeState
  pub payable_submission_ids : List String
  pub settlement_ref : Option String
  pub processed_command_ids : List String

pub record MarketPolicy : Type 0 where
  pub minimum_bounty : Amount
  pub minimum_submission_bond : Amount
  pub minimum_challenge_deposit : Amount
  pub slashable_findings : List String
  pub treasury_ref : String
  pub challenge_resolution_seconds : ℤ
  pub version : String

-- `initial_bounty`
unfoldable pub initial_bounty : BountyTerms → BountyState
initial_bounty terms = record {
  terms = terms;
  phase = BountyPhase.draft;
  escrow_locked = zero_amount;
  submissions = [];
  challenges = [];
  payable_submission_ids = [];
  settlement_ref = none;
  processed_command_ids = [];
}

-- `_ID_RE`: one to 128 of the characters A-Z a-z 0-9 . _ : / -
id_char : ℕ → Bool
id_char c =
    (leb b'A' c && leb c b'Z')
    || ((leb b'a' c && leb c b'z')
        || ((leb b'0' c && leb c b'9')
            || ((c == b'.') || ((c == b'_') || ((c == b':') || ((c == b'/') || (c == b'-')))))))

unfoldable pub valid_id : String → Bool
unfolding id_char
valid_id s = let cs = codes s in leb 1 (length cs) && (leb (length cs) 128 && all id_char cs)

unfoldable pub hex_code : ℕ → Bool
hex_code c = (leb b'0' c && leb c b'9') || (leb b'a' c && leb c b'f')

-- `_REF_RE`: the text sha256: and 64 lower-case hexadecimal digits.
unfoldable pub valid_ref : String → Bool
unfolding hex_code
valid_ref s = elim (drop_prefix (codes "sha256:") (codes s)) [
  | none ↦ false
  | some cs ↦ (length cs == 64) && all hex_code cs
]

unfoldable pub valid_ref_or_none : Option String → Bool
valid_ref_or_none none = true
valid_ref_or_none (some r) = valid_ref r

abbrev pub non_neg_int : ℤ → Bool
non_neg_int n = not (ltb_ℤ n (pos 0))

-- `_is_ref_frozenset(value, non_empty=True)`
unfoldable pub valid_ref_set : List String → Bool
valid_ref_set refs = not (is_empty refs) && all valid_ref refs

-- `BountyTerms.__post_init__` raises nothing.
unfoldable pub terms_built : BountyTerms → Bool
terms_built t =
    valid_id t.bounty_id
    && (is_nonempty t.sponsor_ref
        && (valid_ref t.claim_ref
            && (valid_ref_or_none t.context_ref
                && (ltb 0 t.reward.atoms
                    && ((non_neg_int t.deadline_epoch_s && non_neg_int t.challenge_window_seconds)
                        && (valid_ref_set t.accepted_recipe_refs
                            && valid_ref_set t.accepted_verifier_refs))))))

-- `MarketPolicy.__post_init__` raises nothing.
unfoldable pub policy_built : MarketPolicy → Bool
policy_built p =
    is_nonempty p.version && (not (is_empty p.slashable_findings) && is_nonempty p.treasury_ref)

pub is_draft_phase-eq : (p : BountyPhase) → is_draft_phase p ≡ true → p ≡ BountyPhase.draft
is_draft_phase-eq p h = ground arith

pub is_open_phase-eq : (p : BountyPhase) → is_open_phase p ≡ true → p ≡ BountyPhase.opened
is_open_phase-eq p h = ground arith

pub is_payable_phase-eq : (p : BountyPhase) → is_payable_phase p ≡ true → p ≡ BountyPhase.payable
is_payable_phase-eq p h = ground arith

pub is_pending-eq : (s : SubmissionStatus) → is_pending s ≡ true → s ≡ SubmissionStatus.pending
is_pending-eq s h = ground arith

pub is_verified-eq : (s : SubmissionStatus) → is_verified s ≡ true → s ≡ SubmissionStatus.verified
is_verified-eq s h = ground arith

pub is_open-eq : (s : ChallengeStatus) → is_open s ≡ true → s ≡ ChallengeStatus.opened
is_open-eq s h = ground arith
