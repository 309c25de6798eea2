-- ===== src/Checking/Evidence.antt =====
-- src/popperpad/core/evidence.py: the evidence, artifact and edge of one execution of a check.
use popper_pad.Prelude.{
  ℕ, suc, is_nonempty, not, Bool, true, false, Option, none, some, List, [], ◌∷◌, ◌++◌, map, String,
  ◌⊕◌, str_nat, ℤ, if◌then◌else◌,
}
use popper_pad.Values.{Json, null, bool, int, str, arr, tuple, texts, dict, text_or_null, nat}
use popper_pad.Codec.{Crypto, json_bytes, sha256_bytes}
use popper_pad.Result.{Checked, refuse_when, ◌>>◌}
use popper_pad.Market.Types.{valid_ref, valid_ref_or_none}
use popper_pad.Outbox.{valid_head}
use popper_pad.Checking.{RunIntent}

pub data ExecutionStatus : Type 0 where
  execution_pass : ExecutionStatus
  execution_fail : ExecutionStatus
  execution_skip : ExecutionStatus
  execution_timeout : ExecutionStatus
  execution_error : ExecutionStatus

abbrev pub is_execution_pass : ExecutionStatus → Bool
is_execution_pass ExecutionStatus.execution_pass = true
is_execution_pass _ = false

-- `status.value.lower()`
abbrev pub status_lower : ExecutionStatus → String
status_lower ExecutionStatus.execution_pass = "pass"
status_lower ExecutionStatus.execution_fail = "fail"
status_lower ExecutionStatus.execution_skip = "skip"
status_lower ExecutionStatus.execution_timeout = "timeout"
status_lower ExecutionStatus.execution_error = "error"

-- The constructors refuse a negative size and duration.
pub record CapturedOutput : Type 0 where
  pub name : String
  pub ref : String
  pub byte_size : ℕ
  pub truncated : Bool
  pub path : String
  pub media_type : String

-- `CapturedOutput.as_json`
unfoldable pub output_json : CapturedOutput → Json
output_json o = dict (
    ("name", str o.name)
    ∷ ("ref", str o.ref)
    ∷ ("bytes", nat o.byte_size)
    ∷ ("truncated", bool o.truncated)
    ∷ ("path", str o.path)
    ∷ ("media_type", str o.media_type)
    ∷ [])

pub record CheckExecution : Type 0 where
  pub intent : RunIntent
  pub recipe_ref : String
  pub hypothesis_ref : String
  pub context_ref : Option String
  pub created_at : String
  pub status : ExecutionStatus
  pub reason : String
  pub exit_code : Option ℤ
  pub stdout_ref : String
  pub stderr_ref : String
  pub outputs : List CapturedOutput
  pub toolchain : Json
  pub duration_ms : ℕ
  pub argv : List String
  pub stdout_truncated : Bool
  pub stderr_truncated : Bool

pub record PlannedCheckObjects : Type 0 where
  pub objects : List Json
  pub evidence_ref : String
  pub artifact_ref : Option String
  pub edge_ref : Option String

-- `_reject("INVALID_CHECK_EXECUTION", field, reason)` where the test holds
abbrev pub refuse_field : Bool → String → String → Checked (Unit {0})
unfolding dict
refuse_field test field why =
    refuse_when test "INVALID_CHECK_EXECUTION"
      (dict (("field", str field) ∷ ("reason", str why) ∷ []))

-- `outputs[index].field`
abbrev pub output_field : ℕ → String → String
output_field index field = "outputs[" ⊕ (str_nat index ⊕ ("]." ⊕ field))

unfoldable pub check_outputs : ℕ → List CapturedOutput → Checked (Unit {0})
check_outputs index [] = Checked.ok tt
check_outputs index (o ∷ os) = do
  refuse_field (not (is_nonempty o.name)) (output_field index "name") "must be non-empty"
  refuse_field (not (valid_ref o.ref)) (output_field index "ref") "must be sha256:<64hex>"
  check_outputs (suc index) os

unfoldable pub check_execution : CheckExecution → Checked (Unit {0})
check_execution e = do
  refuse_field (not (valid_ref e.recipe_ref)) "recipe_ref" "must be sha256:<64hex>"
  refuse_field (not (valid_ref e.hypothesis_ref)) "hypothesis_ref" "must be sha256:<64hex>"
  refuse_field (not (valid_ref_or_none e.context_ref)) "context_ref"
      "must be null or sha256:<64hex>"
  refuse_field (not (is_nonempty e.created_at)) "created_at" "must be non-empty"
  refuse_field (not (valid_head e.stdout_ref)) "stdout_ref" "must be empty or sha256:<64hex>"
  refuse_field (not (valid_head e.stderr_ref)) "stderr_ref" "must be empty or sha256:<64hex>"
  check_outputs 0 e.outputs

abbrev pub int_or_null : Option ℤ → Json
int_or_null none = null
int_or_null (some n) = int n

-- An entry that is there only for a text that is not empty.
abbrev pub entry_if : String → String → List (String × Json)
entry_if key value = if is_nonempty value then (key, str value) ∷ [] else []

unfoldable pub evidence_of : CheckExecution → Json
evidence_of e = dict (
    ("schema", str "popperpad/evidence/v1")
    ∷ ("evidence_kind", str "check")
    ∷ ("created_at", str e.created_at)
    ∷ ("recipe_ref", str e.recipe_ref)
    ∷ ("context_ref", text_or_null e.context_ref)
    ∷ ("subject_refs", arr (texts (e.hypothesis_ref ∷ [])))
    ∷ (
      "result",
      dict (("status", str (status_lower e.status)) ∷ ("exit_code", int_or_null e.exit_code) ∷ []),
    )
    ∷ ("reason", str e.reason)
    ∷ ("toolchain", e.toolchain)
    ∷ ("duration_ms", nat e.duration_ms)
    ∷ ("argv", arr (texts e.argv))
    ∷ ("stdout_truncated", bool e.stdout_truncated)
    ∷ ("stderr_truncated", bool e.stderr_truncated)
    ∷ ("outputs", arr (tuple (map output_json e.outputs)))
    ∷ (entry_if "stdout_ref" e.stdout_ref ++ entry_if "stderr_ref" e.stderr_ref))

unfoldable pub artifact_of : CapturedOutput → Json
artifact_of o = dict (
    ("schema", str "popperpad/artifact/v1")
    ∷ ("name", str o.name)
    ∷ ("kind", str "counterexample")
    ∷ ("media_type", str o.media_type)
    ∷ ("blob_ref", str o.ref)
    ∷ [])

unfoldable pub edge_of : CheckExecution → String → String → String → Json
edge_of e edge_type from_ref evidence_ref = dict (
    ("schema", str "popperpad/edge/v1")
    ∷ ("edge_type", str edge_type)
    ∷ ("from_ref", str from_ref)
    ∷ ("to_ref", str e.hypothesis_ref)
    ∷ ("context_ref", text_or_null e.context_ref)
    ∷ ("evidence_refs", arr (texts (evidence_ref ∷ [])))
    ∷ [])

module _ (crypto : Crypto) where
  unfoldable pub object_ref : Json → String
  object_ref value = sha256_bytes crypto (json_bytes value)

  -- The plan with the edge from the evidence.
  unfoldable pub plan_direct : CheckExecution → String → PlannedCheckObjects
  plan_direct e edge_type =
      let evidence_ref = object_ref (evidence_of e) in
      let edge = edge_of e edge_type evidence_ref evidence_ref in
      record {
        objects = evidence_of e ∷ edge ∷ [];
        evidence_ref = evidence_ref;
        artifact_ref = none;
        edge_ref = some (object_ref edge);
      }

  -- The plan with the edge from an artifact.
  unfoldable pub plan_artifact : CheckExecution → CapturedOutput → PlannedCheckObjects
  plan_artifact e first =
      let evidence_ref = object_ref (evidence_of e) in
      let artifact_ref = object_ref (artifact_of first) in
      let edge = edge_of e "refutes" artifact_ref evidence_ref in
      record {
        objects = evidence_of e ∷ artifact_of first ∷ edge ∷ [];
        evidence_ref = evidence_ref;
        artifact_ref = some artifact_ref;
        edge_ref = some (object_ref edge);
      }

  unfoldable pub plan_passed :
      CheckExecution → RunIntent → List CapturedOutput → PlannedCheckObjects
  plan_passed e RunIntent.prove outputs = plan_direct e "supports"
  plan_passed e RunIntent.refute [] = plan_direct e "refutes"
  plan_passed e RunIntent.refute (first ∷ rest) = plan_artifact e first

  unfoldable pub plan_check_objects : CheckExecution → Checked PlannedCheckObjects
  plan_check_objects e = do
    check_execution e
    Checked.ok (
        if is_execution_pass e.status then plan_passed e e.intent e.outputs else record {
          objects = evidence_of e ∷ [];
          evidence_ref = object_ref (evidence_of e);
          artifact_ref = none;
          edge_ref = none;
        })
