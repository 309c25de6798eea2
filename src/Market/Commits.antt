-- ===== src/Market/Commits.antt =====
-- What a decision commits, and rules for statements about it: one rule for each way in which the
-- handlers of src/popperpad/core/market.py build a decision.
use popper_pad.Prelude.{
  ◌≡◌, refl, subst, Bool, true, false, contains, Option, none, some, List, [], String, arith,
  if◌then◌else◌, ltb_ℤ, pos,
}
use mathlib.Core.Option.{some-injective}
use popper_pad.Codec.{Crypto}
use popper_pad.Market.Types.{BountyState, MarketPolicy, valid_id}
use popper_pad.Market.Commands.{
  MarketCommand, command_id, now_epoch_s, MarketEvidence, MarketEffect, TransitionReceipt, Reject,
  MarketDecision, Commit, committed, RejectionCode, Admission, admitted, denied, refuse_if, found,
  ◌>>=◌, ◌>>◌, stop_on,
}
use popper_pad.Market.Evidence.Binding.{binding-commits_nothing}
use popper_pad.Market.Evidence.{validate_market_evidence, validate_command_evidence_binding}
use popper_pad.Market.Invariants.Relations.{market_state_violations}
use popper_pad.Market.Apply.{
  validate_market_state, validate_market_policy, valid_fields, validate_common_command, dispatch,
  apply_checked, apply_market_command,
}

-- `P` holds of what the decision commits, if it commits.
pub record OnCommit (P : Commit → Type 0) (d : MarketDecision) : Type 0 where
  pub holds : (c : Commit) → committed d ≡ some c → P c

module _ {P : Commit → Type 0} where
  pub none-OnCommit : (d : MarketDecision) → committed d ≡ none → OnCommit P d
  none-OnCommit d h = record { holds = λ c e. cc }

  pub reject-OnCommit : (r : Reject) → OnCommit P (MarketDecision.reject r)
  reject-OnCommit r = record { holds = λ c e. cc }

  pub accept-OnCommit :
      (s : BountyState) (es : List MarketEffect) (r : TransitionReceipt)
      → P (record { next = s; effects = es; receipt = r })
      → OnCommit P (MarketDecision.accept s es r)
  accept-OnCommit s es r h = record { holds = λ c e. subst P (some-injective _ _ e) h }

  pub failure-OnCommit :
      (code : String) (s : BountyState) (es : List MarketEffect) (r : TransitionReceipt)
      → P (record { next = s; effects = es; receipt = r })
      → OnCommit P (MarketDecision.committed_failure code s es r)
  failure-OnCommit code s es r h = record { holds = λ c e. subst P (some-injective _ _ e) h }

  -- A guard that refuses: what follows may use that its test failed.
  pub guard-OnCommit :
      (b : Bool) (code : RejectionCode) (field reason : String) (d : MarketDecision)
      → (b ≡ false → OnCommit P d)
      → OnCommit P (refuse_if b code field reason >> d)
  unfolding refuse_if ◌>>◌
  guard-OnCommit true code field reason d k = reject-OnCommit _
  guard-OnCommit false code field reason d k = k refl

  pub bind-OnCommit {ℓ} :
      {A : Type ℓ} (m : Admission A) (f : A → MarketDecision)
      → ((a : A) → m ≡ admitted a → OnCommit P (f a))
      → OnCommit P (m >>= f)
  unfolding ◌>>=◌
  bind-OnCommit (admitted a) f k = k a refl
  bind-OnCommit (denied r) f k = reject-OnCommit r

  pub found-OnCommit {ℓ} :
      {A : Type ℓ} (o : Option A) (code : RejectionCode) (field reason : String)
      (f : A → MarketDecision)
      → ((a : A) → o ≡ some a → OnCommit P (f a))
      → OnCommit P (found o code field reason >>= f)
  unfolding found ◌>>=◌
  found-OnCommit none code field reason f k = reject-OnCommit _
  found-OnCommit (some a) code field reason f k = k a refl

  pub if-OnCommit :
      (b : Bool) (d e : MarketDecision)
      → (b ≡ true → OnCommit P d)
      → (b ≡ false → OnCommit P e)
      → OnCommit P (if b then d else e)
  if-OnCommit true d e k l = k refl
  if-OnCommit false d e k l = l refl

  pub stop_on-OnCommit {ℓ} :
      {A : Type ℓ} (o : Option A) (f : A → MarketDecision) (d : MarketDecision)
      → ((a : A) → o ≡ some a → OnCommit P (f a))
      → (o ≡ none → OnCommit P d)
      → OnCommit P (stop_on o f d)
  unfolding stop_on
  stop_on-OnCommit (some a) f d k l = k a refl
  stop_on-OnCommit none f d k l = l refl

-- The checks that a command passes before its handler runs.
pub record Admissible (crypto : Crypto) (state : BountyState) (command : MarketCommand)
    (policy : MarketPolicy) (evidence : MarketEvidence) : Type 0 where
  pub state_valid : market_state_violations state ≡ []
  pub policy_valid : validate_market_policy policy ≡ none
  pub id_valid : valid_id (command_id command) ≡ true
  pub time_valid : ltb_ℤ (now_epoch_s command) (pos 0) ≡ false
  pub fields_valid : valid_fields command ≡ none
  pub evidence_valid : validate_market_evidence crypto evidence ≡ none
  pub bound : validate_command_evidence_binding crypto state command policy evidence ≡ none
  pub is_new : contains state.processed_command_ids (command_id command) ≡ false

pub validate_market_state-none :
    (state : BountyState) → validate_market_state state ≡ none → market_state_violations state ≡ []
unfolding validate_market_state
validate_market_state-none state h = ground arith

pub none-validate_market_state :
    (state : BountyState) → market_state_violations state ≡ [] → validate_market_state state ≡ none
unfolding validate_market_state
none-validate_market_state state h = ground arith

validate_common_command-none :
    (command : MarketCommand)
    → validate_common_command command ≡ none
    → (valid_id (command_id command) ≡ true)
      × (ltb_ℤ (now_epoch_s command) (pos 0) ≡ false)
      × (valid_fields command ≡ none)
unfolding validate_common_command
validate_common_command-none command h = ground arith

-- The checks of the command commit nothing.
validate_common_command-some :
    (command : MarketCommand) (d : MarketDecision)
    → validate_common_command command ≡ some d
    → committed d ≡ none
unfolding validate_common_command
validate_common_command-some command d h = ground arith

module _ (crypto : Crypto) where
  apply_checked-OnCommit :
      {P : Commit → Type 0} (state : BountyState) (command : MarketCommand) (policy : MarketPolicy)
      (evidence : MarketEvidence)
      → (validate_market_evidence crypto evidence ≡ none
          → validate_command_evidence_binding crypto state command policy evidence ≡ none
          → contains state.processed_command_ids (command_id command) ≡ false
          → OnCommit P (dispatch crypto state command policy evidence))
      → OnCommit P (apply_checked crypto state command policy evidence)
  unfolding apply_checked
  apply_checked-OnCommit state command policy evidence k =
      stop_on-OnCommit (validate_market_evidence crypto evidence) _ _ (λ error e. reject-OnCommit _)
        (λ valid.
          stop_on-OnCommit (validate_command_evidence_binding crypto state command policy evidence)
            _ _
            (λ d e.
              none-OnCommit d (binding-commits_nothing crypto state command policy evidence d e))
            (λ bound. guard-OnCommit _ _ _ _ _ (k valid bound)))

  -- A statement about every commit of `apply_market_command` is one about its handlers.
  pub apply-OnCommit :
      {P : Commit → Type 0} (state : BountyState) (command : MarketCommand) (policy : MarketPolicy)
      (evidence : MarketEvidence)
      → (Admissible crypto state command policy evidence
          → OnCommit P (dispatch crypto state command policy evidence))
      → OnCommit P (apply_market_command crypto state command policy evidence)
  unfolding apply_market_command
  apply-OnCommit state command policy evidence k =
      stop_on-OnCommit (validate_market_state state) _ _ (λ error e. reject-OnCommit _)
        (λ valid.
          stop_on-OnCommit (validate_market_policy policy) _ _ (λ error e. reject-OnCommit _)
            (λ good.
              stop_on-OnCommit (validate_common_command command) _ _
                (λ d e. none-OnCommit d (validate_common_command-some command d e))
                (λ common.
                  let (id, time, fields) = validate_common_command-none command common in
                  apply_checked-OnCommit state command policy evidence (λ ev b new. k (record {
                    state_valid = validate_market_state-none state valid;
                    policy_valid = good;
                    id_valid = id;
                    time_valid = time;
                    fields_valid = fields;
                    evidence_valid = ev;
                    bound = b;
                    is_new = new;
                  })))))
