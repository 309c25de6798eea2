-- ===== src/Adapter/Examples.antt =====
-- The theorems on responses at one request.
use popper_pad.Prelude.{ℕ, ◌≡◌, refl, str_nat, true, none, some, List, []}
use popper_pad.Values.{Json, dict}
use popper_pad.Codec.{encodes, int_encodes, text_encodes, sha256_bytes}
use popper_pad.Market.Types.{valid_ref}
use popper_pad.Market.Samples.{plain, ref}
use popper_pad.Adapter.Types.{
  AdapterOperation, AdapterDecisionKind, AdapterRequest, InvalidInput, InvalidInputCode,
  request_built, request_json, context_json, invalid_json,
}
use popper_pad.Adapter.Response.{AdapterResponse, ResponseOutcome, build_invalid_input_response}
use popper_pad.Adapter.Laws.{build_invalid_input_response-some}

abbrev state : Json
unfolding dict
state = dict []

abbrev request : AdapterRequest
unfolding state
request = record {
  request_id = "q1";
  case_id = "case";
  binding_hash = ref;
  operation = AdapterOperation.validate_state;
  state = state;
  command = none;
  execution_context = record { time_class = "epoch"; now_epoch_s = 5 };
  expected_pre_state_hash = ref;
}

abbrev refusal : ResponseOutcome
unfolding state
refusal = record {
  decision_kind = AdapterDecisionKind.reject;
  reason_code = some "TIME_WINDOW";
  reason_details = state;
  pre_state = state;
  pre_state_hash = ref;
  post_state = some state;
  post_state_hash = some ref;
  effects = [];
  effect_plan_hash = none;
  receipt = none;
  state_violations = [];
  projection_warnings = [];
}

plain-valid : (bytes : List ℕ) → valid_ref (sha256_bytes plain bytes) ≡ true
unfolding valid_ref sha256_bytes
plain-valid bytes = refl

request-encodes : encodes (request_json request) ≡ true
unfolding encodes int_encodes text_encodes request_json context_json dict str_nat request state
request-encodes = refl

abbrev too_large : InvalidInput
too_large = record { code = InvalidInputCode.input_too_large; field_path = "$"; detail = "" }

request-built : request_built request ≡ true
unfolding request_built valid_ref request state dict
request-built = refl

shown : encodes (invalid_json too_large) ≡ true
unfolding encodes text_encodes invalid_json dict
shown = refl

build_invalid_input_response-some_example :
    (x : AdapterResponse) × (build_invalid_input_response plain request too_large state ref
      ≡ some x)
    × (x.request_id ≡ "q1")
    × (x.outcome.reason_code ≡ some "input_too_large")
    × (x.outcome.pre_state ≡ state)
    × (x.outcome.post_state ≡ none)
unfolding state dict valid_ref encodes
build_invalid_input_response-some_example =
    build_invalid_input_response-some plain plain-valid request too_large state ref request-built
      request-encodes refl shown refl refl refl
