-- ===== src/Adapter/Response.antt =====
-- The responses of src/popperpad/core/adapter_protocol.py: what their constructor checks, and their builders.
use popper_pad.Prelude.{
  ◌&&◌, ◌||◌, all, contains, is_empty, is_nonempty, not, Bool, true, false, Option, none, some,
  List, [], ◌∷◌, String, option_eq, str_eq, if◌then◌else◌,
}
use popper_pad.Values.{Json, str, obj, arr, tuple, dict, texts, text_or_null}
use popper_pad.Values.Equality.{json_eq}
use popper_pad.Codec.{Crypto, json_hash, encodes}
use popper_pad.Market.Types.{valid_ref, valid_ref_or_none}
use popper_pad.Commit.Parse.{get}
use popper_pad.Adapter.Types.{
  AdapterDecisionKind, decision_value, input_code_value, input_codes, InvalidInput, invalid_json,
  AdapterRequest, json_or_null, is_dict, is_dict_or_none, is_some, request_json,
}

-- What the caller of `build_response` decides.
pub record ResponseOutcome : Type 0 where
  pub decision_kind : AdapterDecisionKind
  pub reason_code : Option String
  pub reason_details : Json
  pub pre_state : Json
  pub pre_state_hash : String
  pub post_state : Option Json
  pub post_state_hash : Option String
  pub effects : List Json
  pub effect_plan_hash : Option String
  pub receipt : Option Json
  pub state_violations : List Json
  pub projection_warnings : List String

pub record AdapterResponse : Type 0 where
  pub request_id : String
  pub case_id : String
  pub binding_hash : String
  pub request_hash : String
  pub outcome : ResponseOutcome
  pub response_commitment : String

abbrev pub is_text_given : Option String → Bool
is_text_given none = false
is_text_given (some s) = is_nonempty s

-- `details.get(key)` is the text `value`.
unfoldable pub detail_is : Json → String → String → Bool
detail_is (obj fs) key value = elim (get fs key) [ some (str s) ↦ str_eq s value | _ ↦ false ]
detail_is _ key value = false

-- `details.get(key)` is a text, and not empty if that is asked for.
unfoldable pub detail_text : Bool → Json → String → Bool
detail_text non_empty (obj fs) key = elim (get fs key) [
  | some (str s) ↦ not non_empty || is_nonempty s
  | _ ↦ false
]
detail_text non_empty _ key = false

-- The code of an invalid input and the details agree.
unfoldable pub invalid_details : Json → String → Bool
invalid_details details code =
    contains input_codes code
    && (detail_is details "code" code
        && (detail_text true details "field_path" && detail_text false details "detail"))

abbrev pub reason_invalid : Json → Option String → Bool
reason_invalid details none = false
reason_invalid details (some code) = is_nonempty code && invalid_details details code

-- No effects, no hash of an effect plan, and no receipt.
abbrev pub is_silent : ResponseOutcome → Bool
is_silent o = is_empty o.effects && (not (is_some o.effect_plan_hash) && not (is_some o.receipt))

-- A next state, a hash of the effect plan, and a receipt.
abbrev pub is_committed : ResponseOutcome → Bool
is_committed o =
    is_some o.post_state
    && (is_some o.post_state_hash && (is_some o.effect_plan_hash && is_some o.receipt))

abbrev pub same_json : Option Json → Json → Bool
same_json none v = false
same_json (some w) v = json_eq w v

-- `_validate_decision_invariants`
unfoldable pub decision_fits : AdapterDecisionKind → ResponseOutcome → Bool
decision_fits AdapterDecisionKind.invalid_input o =
    not (is_some o.post_state)
    && (not (is_some o.post_state_hash)
        && (is_silent o && reason_invalid o.reason_details o.reason_code))
decision_fits AdapterDecisionKind.reject o =
    is_text_given o.reason_code
    && (same_json o.post_state o.pre_state
        && (option_eq o.post_state_hash (some o.pre_state_hash) && is_silent o))
decision_fits AdapterDecisionKind.accept o = not (is_some o.reason_code) && is_committed o
decision_fits AdapterDecisionKind.committed_failure o =
    is_text_given o.reason_code && is_committed o

-- `AdapterResponse._body_json`
unfoldable pub body_json :
    String → String → String → String → ResponseOutcome → List (String × Json)
body_json request_id case_id binding_hash request_hash o =
    ("schema", str "popperpad/data-adapter-response/v1")
    ∷ ("protocol_version", str "v1")
    ∷ ("request_id", str request_id)
    ∷ ("case_id", str case_id)
    ∷ ("binding_hash", str binding_hash)
    ∷ ("request_hash", str request_hash)
    ∷ ("decision_kind", str (decision_value o.decision_kind))
    ∷ ("reason_code", text_or_null o.reason_code)
    ∷ ("reason_details", o.reason_details)
    ∷ ("pre_state", o.pre_state)
    ∷ ("pre_state_hash", str o.pre_state_hash)
    ∷ ("post_state", json_or_null o.post_state)
    ∷ ("post_state_hash", text_or_null o.post_state_hash)
    ∷ ("effects", arr (tuple o.effects))
    ∷ ("effect_plan_hash", text_or_null o.effect_plan_hash)
    ∷ ("receipt", json_or_null o.receipt)
    ∷ ("state_violations", arr (tuple o.state_violations))
    ∷ ("projection_warnings", arr (texts o.projection_warnings))
    ∷ []

-- The payloads of the response are objects.
abbrev pub payloads_built : ResponseOutcome → Bool
payloads_built o =
    is_dict o.reason_details
    && (is_dict o.pre_state
        && (is_dict_or_none o.post_state
            && (all is_dict o.effects
                && (is_dict_or_none o.receipt && all is_dict o.state_violations))))

-- The outcome that `build_invalid_input_response` passes on.
abbrev pub invalid_outcome : InvalidInput → Json → String → ResponseOutcome
invalid_outcome invalid pre_state pre_state_hash = record {
  decision_kind = AdapterDecisionKind.invalid_input;
  reason_code = some (input_code_value invalid.code);
  reason_details = invalid_json invalid;
  pre_state = pre_state;
  pre_state_hash = pre_state_hash;
  post_state = none;
  post_state_hash = none;
  effects = [];
  effect_plan_hash = none;
  receipt = none;
  state_violations = [];
  projection_warnings = [];
}

module _ (crypto : Crypto) where
  -- `AdapterRequest.hash`
  unfoldable pub request_hash_of : AdapterRequest → String
  request_hash_of r = json_hash crypto "popperpad-data-adapter-request/v1" (request_json r)

  unfoldable pub commitment_of : String → String → String → String → ResponseOutcome → String
  commitment_of request_id case_id binding_hash request_hash o =
      json_hash crypto "popperpad-data-adapter-response/v1"
        (dict (body_json request_id case_id binding_hash request_hash o))

  -- `AdapterResponse.__post_init__` raises nothing.
  unfoldable pub response_built : AdapterResponse → Bool
  response_built r =
      is_nonempty r.request_id
      && (is_nonempty r.case_id
          && (payloads_built r.outcome
              && (decision_fits r.outcome.decision_kind r.outcome
                  && (valid_ref r.binding_hash
                      && (valid_ref r.request_hash
                          && (valid_ref r.outcome.pre_state_hash
                              && (valid_ref r.response_commitment
                                  && (valid_ref_or_none r.outcome.post_state_hash
                                      && (valid_ref_or_none r.outcome.effect_plan_hash
                                          && str_eq r.response_commitment (
                                              commitment_of r.request_id r.case_id r.binding_hash
                                                r.request_hash r.outcome))))))))))

  unfoldable pub response_of : AdapterRequest → ResponseOutcome → AdapterResponse
  response_of r o = record {
    request_id = r.request_id;
    case_id = r.case_id;
    binding_hash = r.binding_hash;
    request_hash = request_hash_of r;
    outcome = o;
    response_commitment = commitment_of r.request_id r.case_id r.binding_hash (request_hash_of r) o;
  }

  -- The two hashes of `build_response` raise nothing.
  abbrev pub response_encodes : AdapterRequest → ResponseOutcome → Bool
  response_encodes r o =
      encodes (request_json r)
      && encodes (dict (body_json r.request_id r.case_id r.binding_hash (request_hash_of r) o))

  -- `build_response`, where `none` is an exception: of an encoding, or of the constructor.
  unfoldable pub build_response : AdapterRequest → ResponseOutcome → Option AdapterResponse
  build_response r o =
      if response_encodes r o && response_built (response_of r o)
      then some (response_of r o)
      else none

  unfoldable pub build_invalid_input_response :
      AdapterRequest → InvalidInput → Json → String → Option AdapterResponse
  build_invalid_input_response r invalid pre_state pre_state_hash =
      build_response r (invalid_outcome invalid pre_state pre_state_hash)
