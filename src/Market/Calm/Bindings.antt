-- ===== src/Market/Calm/Bindings.antt =====
-- The decisions of `_validate_command_evidence_binding` and of `apply_market_command` of
-- src/popperpad/core/market.py that are not the ValueError for a key of the wrong length.
use popper_pad.Prelude.{
  ◌∷◌, [], refl, length, ◌==◌, subst, str_eq, Option-cases, Bool-cases, inl, inr, ◌≡◌, Bool, true,
  false, Option, none, some, List, ℕ, String, arith,
}
use popper_pad.Codec.{Crypto}
use popper_pad.Market.Types.{BountyState, MarketPolicy, SubmissionState}
use popper_pad.Market.Commands.{
  VerifySubmission, ResolveChallenge, MarketCommand, VerifierStatement, VerifierReceipt,
  MarketEvidence, MarketDecision, stop_on,
}
use mathlib.Core.Option.{some-injective}
use popper_pad.Verifier.{ed25519_verifier_ref, verify_ed25519_signature}
use popper_pad.Market.Json.{verifier_receipt_ref}
use popper_pad.Market.Calm.{is_raised, guard-calm, dispatch-calm}
use popper_pad.Market.Apply.{
  validate_market_state, validate_market_policy, validate_common_command, apply_checked,
  apply_market_command,
}
use popper_pad.Market.Evidence.{
  receipts_error, find_receipt, find_verifier_receipt, verify_receipt_authentication,
  validate_market_evidence, evidence_if, submission_key_binding, challenge_key_binding,
  submission_binding, challenge_binding, validate_command_evidence_binding,
}

-- The decision that is given, if any, is not an exception.
abbrev pub IsCalm : Option MarketDecision → Type 0
IsCalm o = (d : MarketDecision) → o ≡ some d → is_raised d ≡ false

evidence_if-IsCalm :
    (b : Bool) (field reason : String) (o : Option MarketDecision)
    → IsCalm o
    → IsCalm (evidence_if b field reason o)
unfolding evidence_if
evidence_if-IsCalm true field reason o h d e = ground arith
evidence_if-IsCalm false field reason o h d e = h d e

module _ (crypto : Crypto) where
  submission_key_binding-IsCalm :
      (command : VerifySubmission) (found : Option SubmissionState) (key : List ℕ) {r : String}
      → ed25519_verifier_ref crypto key ≡ some r
      → IsCalm (submission_key_binding crypto command found key)
  unfolding submission_key_binding evidence_if
  submission_key_binding-IsCalm command found key {r} k d e = ground (arith, k)

  challenge_key_binding-IsCalm :
      (command : ResolveChallenge) (key : List ℕ) {r : String}
      → ed25519_verifier_ref crypto key ≡ some r
      → IsCalm (challenge_key_binding crypto command key)
  unfolding challenge_key_binding evidence_if
  challenge_key_binding-IsCalm command key {r} k d e = ground (arith, k)

  submission_binding-IsCalm :
      (state : BountyState) (command : VerifySubmission) (policy : MarketPolicy) (key : List ℕ)
      (statement : VerifierStatement) {r : String}
      → ed25519_verifier_ref crypto key ≡ some r
      → IsCalm (submission_binding crypto state command policy key statement)
  unfolding submission_binding
  submission_binding-IsCalm state command policy key (VerifierStatement.challenge _) {r} k =
      λ d e. ground arith
  submission_binding-IsCalm state command policy key (VerifierStatement.submission statement) {r}
        k =
      evidence_if-IsCalm _ _ _ _
        (evidence_if-IsCalm _ _ _ _ (submission_key_binding-IsCalm command _ key {r = r} k))

  challenge_binding-IsCalm :
      (state : BountyState) (command : ResolveChallenge) (policy : MarketPolicy) (key : List ℕ)
      (statement : VerifierStatement) {r : String}
      → ed25519_verifier_ref crypto key ≡ some r
      → IsCalm (challenge_binding crypto state command policy key statement)
  unfolding challenge_binding
  challenge_binding-IsCalm state command policy key (VerifierStatement.submission _) {r} k =
      λ d e. ground arith
  challenge_binding-IsCalm state command policy key (VerifierStatement.challenge statement) {r} k =
      evidence_if-IsCalm _ _ _ _
        (evidence_if-IsCalm _ _ _ _ (challenge_key_binding-IsCalm command key {r = r} k))

  found-IsCalm :
      (o : Option VerifierReceipt) (k : VerifierReceipt → Option MarketDecision)
      → ((r : VerifierReceipt) → o ≡ some r → IsCalm (k r))
      → IsCalm (elim o [ none ↦ none | some r ↦ k r ])
  found-IsCalm none k h d e = ground arith
  found-IsCalm (some r) k h d e = h r refl d e

  sized_key :
      (key : List ℕ)
      → (length key == 32) ≡ true
      → (v : String) × (ed25519_verifier_ref crypto key ≡ some v)
  unfolding ed25519_verifier_ref
  sized_key key size = elim (Option-cases (ed25519_verifier_ref crypto key)) [
    | inl nothing ↦ cc (rw (size, ed25519_verifier_ref) at nothing)
    | inr found ↦ found
  ]

  authentic-key :
      (r : VerifierReceipt) (ref : String)
      → verify_receipt_authentication crypto r ref ≡ none
      → (v : String) × (ed25519_verifier_ref crypto r.public_key ≡ some v)
  unfolding verify_receipt_authentication verify_ed25519_signature
  authentic-key r ref h =
      let size : (length r.public_key == 32) ≡ true = ground (arith, h) in
      sized_key r.public_key size

  found-authentic :
      (rs : List VerifierReceipt) (ref : String) (r : VerifierReceipt)
      → receipts_error crypto rs ≡ none
      → find_receipt crypto rs ref ≡ some r
      → verify_receipt_authentication crypto r (verifier_receipt_ref crypto r) ≡ none
  unfolding receipts_error find_receipt
  found-authentic [] ref r h e = ground arith
  found-authentic (x ∷ xs) ref r h e =
      elim (Option-cases (verify_receipt_authentication crypto x (verifier_receipt_ref crypto x))) [
        | inr (error, f) ↦ cc (rw (f, receipts_error) at h)
        | inl good ↦
            let k = rw (good, receipts_error) at h in
            elim (Bool-cases (str_eq (verifier_receipt_ref crypto x) ref)) [
              | inl same ↦
                  subst
                    (λ y.
                      verify_receipt_authentication crypto y (verifier_receipt_ref crypto y) ≡ none)
                    (some-injective _ _ (rw (same, find_receipt) at e)) good
              | inr other ↦ found-authentic xs ref r k (rw (other, find_receipt) at e)
            ]
      ]

  valid_evidence :
      (evidence : MarketEvidence)
      → validate_market_evidence crypto evidence ≡ none
      → receipts_error crypto evidence.verifier_receipts ≡ none
  unfolding validate_market_evidence
  valid_evidence evidence h =
      elim (Option-cases (receipts_error crypto evidence.verifier_receipts)) [
        | inl nothing ↦ nothing
        | inr (error, f) ↦ cc (rw (f, validate_market_evidence) at h)
      ]

  found-key :
      (evidence : MarketEvidence) (ref : String) (r : VerifierReceipt)
      → validate_market_evidence crypto evidence ≡ none
      → find_verifier_receipt crypto evidence ref ≡ some r
      → (v : String) × (ed25519_verifier_ref crypto r.public_key ≡ some v)
  unfolding find_verifier_receipt
  found-key evidence ref r fine e =
      authentic-key r _
        (found-authentic evidence.verifier_receipts ref r (valid_evidence evidence fine) e)

  pub binding-IsCalm :
      (state : BountyState) (command : MarketCommand) (policy : MarketPolicy)
      (evidence : MarketEvidence)
      → validate_market_evidence crypto evidence ≡ none
      → IsCalm (validate_command_evidence_binding crypto state command policy evidence)
  unfolding validate_command_evidence_binding
  binding-IsCalm state (MarketCommand.verify_submission c) policy evidence fine =
      found-IsCalm _ _ λ r e.
        submission_binding-IsCalm state c policy r.public_key r.statement
          ((found-key evidence c.verifier_receipt_ref r fine e).1)
  binding-IsCalm state (MarketCommand.resolve_challenge c) policy evidence fine =
      found-IsCalm _ _ λ r e.
        challenge_binding-IsCalm state c policy r.public_key r.statement
          ((found-key evidence c.verifier_receipt_ref r fine e).1)
  binding-IsCalm state _ policy evidence fine = λ d e. ground arith

stop_on-calm {ℓ} :
    {A : Type ℓ} (o : Option A) (f : A → MarketDecision) (d : MarketDecision)
    → ((a : A) → o ≡ some a → is_raised (f a) ≡ false)
    → (o ≡ none → is_raised d ≡ false)
    → is_raised (stop_on o f d) ≡ false
unfolding stop_on
stop_on-calm none f d h k = k refl
stop_on-calm (some a) f d h k = h a refl

common-IsCalm : (command : MarketCommand) → IsCalm (validate_common_command command)
unfolding validate_common_command
common-IsCalm command d e = ground arith

apply_checked-calm :
    (crypto : Crypto) (state : BountyState) (command : MarketCommand) (policy : MarketPolicy)
    (evidence : MarketEvidence)
    → is_raised (apply_checked crypto state command policy evidence) ≡ false
unfolding apply_checked
apply_checked-calm crypto state command policy evidence =
    stop_on-calm (validate_market_evidence crypto evidence) _ _ (λ error e. refl)
      λ fine.
        stop_on-calm (validate_command_evidence_binding crypto state command policy evidence) _ _
          (λ d e. binding-IsCalm crypto state command policy evidence fine d e)
          (λ bound. guard-calm _ _ _ _ _ (dispatch-calm crypto state command policy evidence))

-- The ValueError of `ed25519_verifier_ref` for a key that has not 32 bytes never leaves
-- `apply_market_command`, for any state, command, policy and evidence: keys are used only of receipts
-- that are authentic. Errors of encoding a value for its hash are not covered.
pub apply_market_command-calm :
    (crypto : Crypto) (state : BountyState) (command : MarketCommand) (policy : MarketPolicy)
    (evidence : MarketEvidence)
    → is_raised (apply_market_command crypto state command policy evidence) ≡ false
unfolding apply_market_command
apply_market_command-calm crypto state command policy evidence =
    stop_on-calm (validate_market_state state) _ _ (λ error e. refl)
      λ valid.
        stop_on-calm (validate_market_policy policy) _ _ (λ error e. refl)
          λ good.
            stop_on-calm (validate_common_command command) _ _ (common-IsCalm command)
              (λ common. apply_checked-calm crypto state command policy evidence)
