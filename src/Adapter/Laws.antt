-- ===== src/Adapter/Laws.antt =====
-- The responses that src/popperpad/core/adapter_protocol.py builds for a request.
use popper_pad.Prelude.{
  ℕ, contains, ◌≡◌, refl, true, and-true, and-intro, is_nonempty, Option, none, some, List, [],
  String, str_eq, str_eq_refl,
}
use popper_pad.Values.{Json, dict}
use popper_pad.Values.Equality.{json_eq}
use popper_pad.Codec.{Crypto, sha256_bytes, json_hash, frame_sha256, encodes, canonical_hash}
use popper_pad.Adapter.Encoding.{
  valid_ref-encodes, code-encodes, request-encodes, invalid-encodes, body-encodes,
}
use popper_pad.Market.Types.{valid_ref, valid_ref_or_none}
use popper_pad.Commit.Parse.{get}
use popper_pad.Adapter.Types.{
  AdapterDecisionKind, AdapterRequest, InvalidInput, InvalidInputCode, is_dict, invalid_json,
  input_code_value, input_codes, request_built, request_json,
}
use popper_pad.Adapter.Response.{
  AdapterResponse, ResponseOutcome, decision_fits, invalid_details, detail_is, detail_text,
  invalid_outcome, response_built, response_of, request_hash_of, commitment_of, body_json,
  response_encodes, build_response, build_invalid_input_response,
}

-- The outcome has neither effects nor a receipt.
pub record IsSilent (o : ResponseOutcome) : Type 0 where
  pub effects : o.effects ≡ []
  pub plan : o.effect_plan_hash ≡ none
  pub receipt : o.receipt ≡ none

-- What a decision says of the state after it.
abbrev pub IsDecision : AdapterDecisionKind → ResponseOutcome → Type 0
IsDecision AdapterDecisionKind.invalid_input o = IsSilent o × (o.post_state ≡ none)
IsDecision AdapterDecisionKind.reject o =
    IsSilent o
    × (o.post_state_hash ≡ some o.pre_state_hash)
    × (s : Json) × (o.post_state ≡ some s)
    × (json_eq s o.pre_state ≡ true)
IsDecision _ o = (s : Json) × (o.post_state ≡ some s) × (r : Json) × (o.receipt ≡ some r)

-- Each code is in the list of the codes, and no code is empty.
code_known :
    (code : InvalidInputCode)
    → (contains input_codes (input_code_value code) ≡ true)
      × (is_nonempty (input_code_value code) ≡ true)
unfolding str_eq
code_known InvalidInputCode.non_canonical_json = (refl, refl)
code_known InvalidInputCode.invalid_utf8 = (refl, refl)
code_known InvalidInputCode.duplicate_json_key = (refl, refl)
code_known InvalidInputCode.float_not_allowed = (refl, refl)
code_known InvalidInputCode.unknown_field = (refl, refl)
code_known InvalidInputCode.schema_mismatch = (refl, refl)
code_known InvalidInputCode.profile_mismatch = (refl, refl)
code_known InvalidInputCode.binding_mismatch = (refl, refl)
code_known InvalidInputCode.source_manifest_mismatch = (refl, refl)
code_known InvalidInputCode.model_hash_mismatch = (refl, refl)
code_known InvalidInputCode.pre_state_hash_mismatch = (refl, refl)
code_known InvalidInputCode.input_too_large = (refl, refl)
code_known InvalidInputCode.abstract_state_out_of_domain = (refl, refl)
code_known InvalidInputCode.abstract_command_out_of_domain = (refl, refl)

module _ (crypto : Crypto) where
  -- What a response takes from its request and from its outcome.
  pub record IsEcho (r : AdapterRequest) (o : ResponseOutcome) (x : AdapterResponse) : Type 0 where
    pub request_id : x.request_id ≡ r.request_id
    pub case_id : x.case_id ≡ r.case_id
    pub binding : x.binding_hash ≡ r.binding_hash
    pub request :
        x.request_hash ≡ json_hash crypto "popperpad-data-adapter-request/v1" (request_json r)
    pub outcome : x.outcome ≡ o
    pub request_encodes : encodes (request_json r) ≡ true
    pub commitment :
        canonical_hash crypto "popperpad-data-adapter-response/v1"
          (dict (body_json x.request_id x.case_id x.binding_hash x.request_hash x.outcome))
        ≡ some x.response_commitment

  module _ (is_hash : (bytes : List ℕ) → valid_ref (sha256_bytes crypto bytes) ≡ true) where
    hash_valid : (domain : String) (v : Json) → valid_ref (json_hash crypto domain v) ≡ true
    unfolding json_hash frame_sha256
    hash_valid domain v = is_hash _

    details_fit :
        (i : InvalidInput)
        → is_nonempty i.field_path ≡ true
        → invalid_details (invalid_json i) (input_code_value i.code) ≡ true
    unfolding invalid_details detail_is detail_text invalid_json get dict str_eq
    details_fit i named =
        and-intro _ _ (code_known i.code).0
          (and-intro _ _ (str_eq_refl (input_code_value i.code)) (rw named refl))

    details_object : (i : InvalidInput) → is_dict (invalid_json i) ≡ true
    unfolding invalid_json dict
    details_object i = refl

    response_good :
        (r : AdapterRequest) (i : InvalidInput) (pre_state : Json) (pre_state_hash : String)
        → is_nonempty r.request_id ≡ true
        → is_nonempty r.case_id ≡ true
        → valid_ref r.binding_hash ≡ true
        → is_nonempty i.field_path ≡ true
        → is_dict pre_state ≡ true
        → valid_ref pre_state_hash ≡ true
        → response_built crypto (response_of crypto r (invalid_outcome i pre_state pre_state_hash))
          ≡ true
    unfolding response_built response_of decision_fits request_hash_of commitment_of
        valid_ref_or_none
    response_good r i pre_state pre_state_hash id case_id binding named object hashed =
        and-intro _ _ id (
          and-intro _ _ case_id (
            and-intro _ _ (and-intro _ _ (details_object i) (and-intro _ _ object refl)) (
              and-intro _ _ (and-intro _ _ (code_known i.code).1 (details_fit i named)) (
                and-intro _ _ binding (
                  and-intro _ _ (hash_valid _ _)
                    (and-intro _ _ hashed (and-intro _ _ (hash_valid _ _) (str_eq_refl _))))))))

    response-encodes :
        (r : AdapterRequest) (i : InvalidInput) (pre_state : Json) (pre_state_hash : String)
        → valid_ref r.binding_hash ≡ true
        → encodes (request_json r) ≡ true
        → encodes (invalid_json i) ≡ true
        → encodes pre_state ≡ true
        → valid_ref pre_state_hash ≡ true
        → response_encodes crypto r (invalid_outcome i pre_state pre_state_hash) ≡ true
    unfolding request_hash_of
    response-encodes r i pre_state pre_state_hash binding sent shown kept hashed =
        let (request_id, case_id) = request-encodes r sent in
        let (field_path, detail) = invalid-encodes i shown in
        and-intro _ _ sent (
          body-encodes r.request_id r.case_id r.binding_hash (request_hash_of crypto r) i pre_state
            pre_state_hash request_id case_id (valid_ref-encodes _ binding)
            (valid_ref-encodes _ (hash_valid _ _)) (code-encodes i.code) field_path detail kept
            (valid_ref-encodes _ hashed))

    -- Where hashes are well-formed refs, a well-formed request whose JSON form encodes has its response to an
    -- invalid input, for each code, field and detail that encode and each state before that does; its
    -- reason is the code, and it has the state before but none after.
    pub build_invalid_input_response-some :
        (r : AdapterRequest) (i : InvalidInput) (pre_state : Json) (pre_state_hash : String)
        → request_built r ≡ true
        → encodes (request_json r) ≡ true
        → is_nonempty i.field_path ≡ true
        → encodes (invalid_json i) ≡ true
        → is_dict pre_state ≡ true
        → encodes pre_state ≡ true
        → valid_ref pre_state_hash ≡ true
        → (x : AdapterResponse) × (build_invalid_input_response crypto r i pre_state pre_state_hash
            ≡ some x)
          × (x.request_id ≡ r.request_id)
          × (x.outcome.reason_code ≡ some (input_code_value i.code))
          × (x.outcome.pre_state ≡ pre_state)
          × (x.outcome.post_state ≡ none)
    unfolding build_invalid_input_response build_response request_built response_of
    build_invalid_input_response-some r i pre_state pre_state_hash well sent named shown object kept
          hashed =
        let (id, h1) = and-true _ _ well in
        let (case_id, h2) = and-true _ _ h1 in
        let (binding, h3) = and-true _ _ h2 in
        let good =
          response_good r i pre_state pre_state_hash id case_id binding named object hashed in
        let encoded =
          response-encodes r i pre_state pre_state_hash binding sent shown kept hashed in
        (
          response_of crypto r (invalid_outcome i pre_state pre_state_hash),
          rw (encoded, good) refl,
          refl,
          refl,
          refl,
          refl,
        )
