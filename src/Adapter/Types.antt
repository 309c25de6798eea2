-- ===== src/Adapter/Types.antt =====
-- The operations, codes and requests of src/popperpad/core/adapter_protocol.py.
use popper_pad.Prelude.{
  ℕ, ◌&&◌, is_nonempty, not, Bool, true, false, Option, none, some, List, [], ◌∷◌, String, pos,
}
use popper_pad.Values.{Json, null, int, str, obj, dict}
use popper_pad.Market.Types.{valid_ref}

pub data AdapterOperation : Type 0 where
  validate_state : AdapterOperation
  step : AdapterOperation

abbrev pub operation_value : AdapterOperation → String
operation_value AdapterOperation.validate_state = "validate_state"
operation_value AdapterOperation.step = "step"

pub data AdapterDecisionKind : Type 0 where
  invalid_input : AdapterDecisionKind
  reject : AdapterDecisionKind
  accept : AdapterDecisionKind
  committed_failure : AdapterDecisionKind

abbrev pub decision_value : AdapterDecisionKind → String
decision_value AdapterDecisionKind.invalid_input = "invalid_input"
decision_value AdapterDecisionKind.reject = "reject"
decision_value AdapterDecisionKind.accept = "accept"
decision_value AdapterDecisionKind.committed_failure = "committed_failure"

pub data InvalidInputCode : Type 0 where
  non_canonical_json : InvalidInputCode
  invalid_utf8 : InvalidInputCode
  duplicate_json_key : InvalidInputCode
  float_not_allowed : InvalidInputCode
  unknown_field : InvalidInputCode
  schema_mismatch : InvalidInputCode
  profile_mismatch : InvalidInputCode
  binding_mismatch : InvalidInputCode
  source_manifest_mismatch : InvalidInputCode
  model_hash_mismatch : InvalidInputCode
  pre_state_hash_mismatch : InvalidInputCode
  input_too_large : InvalidInputCode
  abstract_state_out_of_domain : InvalidInputCode
  abstract_command_out_of_domain : InvalidInputCode

abbrev pub input_code_value : InvalidInputCode → String
input_code_value InvalidInputCode.non_canonical_json = "non_canonical_json"
input_code_value InvalidInputCode.invalid_utf8 = "invalid_utf8"
input_code_value InvalidInputCode.duplicate_json_key = "duplicate_json_key"
input_code_value InvalidInputCode.float_not_allowed = "float_not_allowed"
input_code_value InvalidInputCode.unknown_field = "unknown_field"
input_code_value InvalidInputCode.schema_mismatch = "schema_mismatch"
input_code_value InvalidInputCode.profile_mismatch = "profile_mismatch"
input_code_value InvalidInputCode.binding_mismatch = "binding_mismatch"
input_code_value InvalidInputCode.source_manifest_mismatch = "source_manifest_mismatch"
input_code_value InvalidInputCode.model_hash_mismatch = "model_hash_mismatch"
input_code_value InvalidInputCode.pre_state_hash_mismatch = "pre_state_hash_mismatch"
input_code_value InvalidInputCode.input_too_large = "input_too_large"
input_code_value InvalidInputCode.abstract_state_out_of_domain = "abstract_state_out_of_domain"
input_code_value InvalidInputCode.abstract_command_out_of_domain = "abstract_command_out_of_domain"

-- The texts for which `InvalidInputCode(text)` raises nothing.
abbrev pub input_codes : List String
input_codes =
    "non_canonical_json" ∷ "invalid_utf8" ∷ "duplicate_json_key" ∷ "float_not_allowed"
    ∷ "unknown_field" ∷ "schema_mismatch" ∷ "profile_mismatch" ∷ "binding_mismatch"
    ∷ "source_manifest_mismatch" ∷ "model_hash_mismatch" ∷ "pre_state_hash_mismatch"
    ∷ "input_too_large" ∷ "abstract_state_out_of_domain" ∷ "abstract_command_out_of_domain" ∷ []

pub record InvalidInput : Type 0 where
  pub code : InvalidInputCode
  pub field_path : String
  pub detail : String

-- `InvalidInput.as_json`
unfoldable pub invalid_json : InvalidInput → Json
invalid_json i = dict (
    ("code", str (input_code_value i.code))
    ∷ ("field_path", str i.field_path)
    ∷ ("detail", str i.detail)
    ∷ [])

-- The constructor refuses a negative time.
pub record ExecutionContext : Type 0 where
  pub time_class : String
  pub now_epoch_s : ℕ

unfoldable pub context_json : ExecutionContext → Json
context_json c =
    dict (("time_class", str c.time_class) ∷ ("now_epoch_s", int (pos c.now_epoch_s)) ∷ [])

-- The schema and the version of the protocol are constants.
pub record AdapterRequest : Type 0 where
  pub request_id : String
  pub case_id : String
  pub binding_hash : String
  pub operation : AdapterOperation
  pub state : Json
  pub command : Option Json
  pub execution_context : ExecutionContext
  pub expected_pre_state_hash : String

abbrev pub json_or_null : Option Json → Json
json_or_null none = null
json_or_null (some v) = v

abbrev pub is_dict : Json → Bool
is_dict (obj fs) = true
is_dict _ = false

abbrev pub is_dict_or_none : Option Json → Bool
is_dict_or_none none = true
is_dict_or_none (some v) = is_dict v

abbrev pub is_some {ℓ} : {A : Type ℓ} → Option A → Bool
is_some none = false
is_some (some _) = true

-- The command is given exactly for a step.
abbrev pub command_fits : AdapterOperation → Option Json → Bool
command_fits AdapterOperation.step command = is_some command
command_fits AdapterOperation.validate_state command = not (is_some command)

-- `AdapterRequest.__post_init__` raises nothing.
unfoldable pub request_built : AdapterRequest → Bool
request_built r =
    is_nonempty r.request_id
    && (is_nonempty r.case_id
        && (valid_ref r.binding_hash
            && (is_dict r.state
                && (is_dict_or_none r.command
                    && (is_nonempty r.execution_context.time_class
                        && (command_fits r.operation r.command
                            && valid_ref r.expected_pre_state_hash))))))

unfoldable pub request_json : AdapterRequest → Json
request_json r = dict (
    ("schema", str "popperpad/data-adapter-request/v1")
    ∷ ("protocol_version", str "v1")
    ∷ ("request_id", str r.request_id)
    ∷ ("case_id", str r.case_id)
    ∷ ("binding_hash", str r.binding_hash)
    ∷ ("operation", str (operation_value r.operation))
    ∷ ("state", r.state)
    ∷ ("command", json_or_null r.command)
    ∷ ("execution_context", context_json r.execution_context)
    ∷ ("expected_pre_state_hash", str r.expected_pre_state_hash)
    ∷ [])
