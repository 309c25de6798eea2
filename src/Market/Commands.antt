-- ===== src/Market/Commands.antt =====
-- src/popperpad/core/market.py: commands, verifier statements, effects, receipts and decisions.
use popper_pad.Prelude.{ℕ, ℤ, Bool, true, false, Option, none, some, List, String}
use popper_pad.Values.{Amount, Json}
use popper_pad.Market.Types.{BountyPhase, BountyState, SubmissionVerdict, ChallengeVerdict}

pub record OpenBounty : Type 0 where
  pub command_id : String
  pub sponsor_ref : String
  pub funded : Amount
  pub now_epoch_s : ℤ

pub record SubmitCandidate : Type 0 where
  pub command_id : String
  pub submission_id : String
  pub submitter_ref : String
  pub recipe_ref : String
  pub verifier_ref : String
  pub evidence_refs : List String
  pub artifact_refs : List String
  pub bond : Amount
  pub now_epoch_s : ℤ

pub record VerifySubmission : Type 0 where
  pub command_id : String
  pub submission_id : String
  pub verifier_ref : String
  pub verifier_receipt_ref : String
  pub accepted : Bool
  pub now_epoch_s : ℤ

pub record OpenChallenge : Type 0 where
  pub command_id : String
  pub challenge_id : String
  pub submission_id : String
  pub challenger_ref : String
  pub finding_kind : String
  pub evidence_refs : List String
  pub deposit : Amount
  pub now_epoch_s : ℤ

pub record ResolveChallenge : Type 0 where
  pub command_id : String
  pub challenge_id : String
  pub verifier_ref : String
  pub verifier_receipt_ref : String
  pub upheld : Bool
  pub now_epoch_s : ℤ

pub record AdvanceBounty : Type 0 where
  pub command_id : String
  pub now_epoch_s : ℤ

pub record Payout : Type 0 where
  pub recipient_ref : String
  pub submission_id : String
  pub amount : Amount

pub record SettleBounty : Type 0 where
  pub command_id : String
  pub settlement_ref : String
  pub payouts : List Payout
  pub now_epoch_s : ℤ

pub record CancelBounty : Type 0 where
  pub command_id : String
  pub sponsor_ref : String
  pub now_epoch_s : ℤ

pub data MarketCommand : Type 0 where
  open_bounty : OpenBounty → MarketCommand
  submit_candidate : SubmitCandidate → MarketCommand
  verify_submission : VerifySubmission → MarketCommand
  open_challenge : OpenChallenge → MarketCommand
  resolve_challenge : ResolveChallenge → MarketCommand
  advance_bounty : AdvanceBounty → MarketCommand
  settle_bounty : SettleBounty → MarketCommand
  cancel_bounty : CancelBounty → MarketCommand

-- `command.command_id`, which every command has.
abbrev pub command_id : MarketCommand → String
command_id (MarketCommand.open_bounty c) = c.command_id
command_id (MarketCommand.submit_candidate c) = c.command_id
command_id (MarketCommand.verify_submission c) = c.command_id
command_id (MarketCommand.open_challenge c) = c.command_id
command_id (MarketCommand.resolve_challenge c) = c.command_id
command_id (MarketCommand.advance_bounty c) = c.command_id
command_id (MarketCommand.settle_bounty c) = c.command_id
command_id (MarketCommand.cancel_bounty c) = c.command_id

-- `command.now_epoch_s`, which every command has.
abbrev pub now_epoch_s : MarketCommand → ℤ
now_epoch_s (MarketCommand.open_bounty c) = c.now_epoch_s
now_epoch_s (MarketCommand.submit_candidate c) = c.now_epoch_s
now_epoch_s (MarketCommand.verify_submission c) = c.now_epoch_s
now_epoch_s (MarketCommand.open_challenge c) = c.now_epoch_s
now_epoch_s (MarketCommand.resolve_challenge c) = c.now_epoch_s
now_epoch_s (MarketCommand.advance_bounty c) = c.now_epoch_s
now_epoch_s (MarketCommand.settle_bounty c) = c.now_epoch_s
now_epoch_s (MarketCommand.cancel_bounty c) = c.now_epoch_s

pub record SubmissionVerifierStatement : Type 0 where
  pub pre_state_hash : String
  pub policy_hash : String
  pub bounty_id : String
  pub claim_ref : String
  pub context_ref : Option String
  pub submission_id : String
  pub recipe_ref : String
  pub evidence_refs : List String
  pub artifact_refs : List String
  pub outcome : SubmissionVerdict

pub record ChallengeVerifierStatement : Type 0 where
  pub pre_state_hash : String
  pub policy_hash : String
  pub bounty_id : String
  pub claim_ref : String
  pub context_ref : Option String
  pub challenge_id : String
  pub submission_id : String
  pub finding_kind : String
  pub evidence_refs : List String
  pub outcome : ChallengeVerdict

pub data VerifierStatement : Type 0 where
  submission : SubmissionVerifierStatement → VerifierStatement
  challenge : ChallengeVerifierStatement → VerifierStatement

pub record VerifierReceipt : Type 0 where
  pub statement : VerifierStatement
  pub public_key : List ℕ
  pub signature : List ℕ

pub record MarketEvidence : Type 0 where
  pub verifier_receipts : List VerifierReceipt

-- The nine texts that the program writes into `MarketEffect.kind`.
pub data EffectKind : Type 0 where
  lock_escrow lock_submission_bond lock_challenge_deposit : EffectKind
  refund_escrow refund_submission_bond refund_challenge_deposit : EffectKind
  slash_submission_bond slash_challenge_deposit payout : EffectKind

pub record MarketEffect : Type 0 where
  pub kind : EffectKind
  pub account_ref : String
  pub amount : Amount
  pub subject_ref : String
  pub metadata : Json

pub record TransitionReceipt : Type 0 where
  pub version : String
  pub bounty_id : String
  pub command_id : String
  pub event_kind : String
  pub occurred_at : ℤ
  pub previous_phase : BountyPhase
  pub next_phase : BountyPhase
  pub command_hash : String
  pub state_hash : String
  pub effect_plan_hash : String

-- `REJECTION_PRECEDENCE`
pub data RejectionCode : Type 0 where
  invalid_state invalid_policy invalid_command invalid_evidence duplicate_command : RejectionCode
  wrong_phase time_window duplicate_entity unknown_entity policy_mismatch : RejectionCode
  missing_evidence insufficient_amount conservation_failure : RejectionCode

-- The place of a code in `REJECTION_PRECEDENCE`.
unfoldable pub precedence : RejectionCode → ℕ
precedence RejectionCode.invalid_state = 0
precedence RejectionCode.invalid_policy = 1
precedence RejectionCode.invalid_command = 2
precedence RejectionCode.invalid_evidence = 3
precedence RejectionCode.duplicate_command = 4
precedence RejectionCode.wrong_phase = 5
precedence RejectionCode.time_window = 6
precedence RejectionCode.duplicate_entity = 7
precedence RejectionCode.unknown_entity = 8
precedence RejectionCode.policy_mismatch = 9
precedence RejectionCode.missing_evidence = 10
precedence RejectionCode.insufficient_amount = 11
precedence RejectionCode.conservation_failure = 12

-- `Reject`, whose details are a field and a reason.
pub record Reject : Type 0 where
  pub code : RejectionCode
  pub field : String
  pub reason : String

-- `MarketDecision`; `raised` is an exception that leaves the function.
pub data MarketDecision : Type 0 where
  accept : BountyState → List MarketEffect → TransitionReceipt → MarketDecision
  reject : Reject → MarketDecision
  committed_failure : String → BountyState → List MarketEffect → TransitionReceipt → MarketDecision
  raised : String → MarketDecision

-- `_reject`
abbrev pub refuse : RejectionCode → String → String → MarketDecision
refuse code field reason =
    MarketDecision.reject (record { code = code; field = field; reason = reason })

-- The state, the effects and the receipt that a decision commits.
pub record Commit : Type 0 where
  pub next : BountyState
  pub effects : List MarketEffect
  pub receipt : TransitionReceipt

abbrev pub committed : MarketDecision → Option Commit
committed (MarketDecision.accept s es r) = some (record { next = s; effects = es; receipt = r })
committed (MarketDecision.committed_failure c s es r) =
    some (record { next = s; effects = es; receipt = r })
committed (MarketDecision.reject r) = none
committed (MarketDecision.raised e) = none

-- The result of a check: a value, or the rejection that ends the command.
pub data Admission {ℓ} (A : Type ℓ) : Type ℓ where
  admitted : A → Admission A
  denied : Reject → Admission A

-- `if test: return _reject(code, field, reason)`
unfoldable pub refuse_if : Bool → RejectionCode → String → String → Admission (Unit {0})
refuse_if true code field reason = denied (record { code = code; field = field; reason = reason })
refuse_if false code field reason = admitted tt

-- `if value is None: return _reject(code, field, reason)`
unfoldable pub found {ℓ} : {A : Type ℓ} → Option A → RejectionCode → String → String → Admission A
found none code field reason = denied (record { code = code; field = field; reason = reason })
found (some a) code field reason = admitted a

-- The statements of a handler in sequence: the first rejection is its result.
infixl 5 ◌>>=◌ ◌>>◌
unfoldable pub ◌>>=◌ {ℓ} : {A : Type ℓ} → Admission A → (A → MarketDecision) → MarketDecision
admitted a >>= k = k a
denied r >>= k = MarketDecision.reject r

unfoldable pub ◌>>◌ : Admission (Unit {0}) → MarketDecision → MarketDecision
admitted _ >> d = d
denied r >> d = MarketDecision.reject r

-- `if value is not None: return …`
unfoldable pub stop_on {ℓ} :
    {A : Type ℓ} → Option A → (A → MarketDecision) → MarketDecision → MarketDecision
stop_on (some a) f d = f a
stop_on none f d = d
