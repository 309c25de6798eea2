-- ===== src/Recipe/Examples.antt =====
-- The theorems on recipes at one recipe and one observation.
use popper_pad.Prelude.{◌≡◌, refl, ◌↔◌, true, none, pos, [], ◌∷◌, codes, str_eq, str_nat}
use popper_pad.Values.{null, str, int, arr, tuple, obj, Fields, end, field}
use popper_pad.Result.{Checked, refuse_when, ◌>>=◌, ◌>>◌}
use popper_pad.Commit.Parse.{get}
use popper_pad.Adapter.Profile.{segments, codes_eq}
use popper_pad.Recipe.{InputKind, RecipePlan, ProcessObservation, Regex}
use popper_pad.Recipe.Paths.{
  field_details, is_space, strip_start, strip_end, clean, normalize_relative_path,
}
use popper_pad.Recipe.Plan.{
  or_empty, positive_int, string_items, string_tuple, normalize_all, input_of, input_spec,
  optional_text, exit_code_of, plan_files, plan_env, optional_max, media_type_of, plan_artifact,
  plan_artifacts, mapping_of, plan_stdin, optional_regex, plan_expectations, plan_recipe,
}
use popper_pad.Recipe.Judge.{
  check_contains, check_paths, first_failure, check_regex, evaluate_observation,
}
use popper_pad.Recipe.Judge.Laws.{IsMet, evaluate_observation-IsMet}
use popper_pad.Recipe.Laws.{IsContained, plan_recipe-IsContained}

-- Each pattern compiles and is found.
abbrev found_all : Regex
found_all = record { compile_error = λ p. none; search = λ p text. true }

abbrev recipe : Fields
unfolding tuple
recipe = field "argv" (arr (tuple (str "lean" ∷ str "proof.lean" ∷ []))) (
    field "capture_paths" (arr (tuple (str " out\\log " ∷ []))) (
      field "files" (obj (field "proof.lean" (obj (field "text" (str "theorem") end)) end))
        (field "expect" (obj (field "exit_code" (int (pos 0)) end)) end)))

abbrev planned : RecipePlan
planned = record {
  argv = "lean" ∷ "proof.lean" ∷ [];
  timeout_ms = pos 30000;
  max_output_bytes = pos 65536;
  max_capture_bytes = pos 1048576;
  expectations = record {
    exit_code = pos 0;
    stdout_contains = none;
    stderr_contains = none;
    stdout_not_contains = none;
    stderr_not_contains = none;
    stdout_regex = none;
    stderr_regex = none;
    files_exist = [];
    files_not_exist = [];
  };
  capture_paths = codes "out/log" ∷ [];
  artifacts = [];
  stdin = none;
  env = [];
  files = (codes "proof.lean", record { input_kind = InputKind.kind_text; value = "theorem" }) ∷ [];
  requires = [];
  requires_paths = [];
}

unfoldable planning : Unit {0}
unfolding or_empty positive_int string_items string_tuple normalize_all input_of input_spec
    optional_text exit_code_of plan_files plan_env optional_max media_type_of plan_artifact
    plan_artifacts mapping_of plan_stdin optional_regex plan_expectations plan_recipe is_space
    strip_start strip_end clean normalize_relative_path segments codes_eq get refuse_when ◌>>=◌ ◌>>◌
    str_eq tuple
planning = tt

recipe-planned : plan_recipe found_all recipe ≡ Checked.ok planned
unfolding planning recipe
recipe-planned = refl

plan_recipe-IsContained_example : IsContained planned
plan_recipe-IsContained_example = plan_recipe-IsContained found_all recipe planned recipe-planned

-- A path that climbs is refused, also behind backslashes.
climbing_refused :
    plan_recipe found_all (
      field "argv"
        (arr (tuple (str "x" ∷ [])))
        (field "capture_paths" (arr (tuple (str "a\\..\\b" ∷ []))) end))
    ≡ Checked.refused "INVALID_RECIPE"
        (field_details "capture_paths[0]" "must not be absolute or contain '..'")
unfolding planning str_nat
climbing_refused = refl

-- An input with an empty text raises a TypeError.
empty_input_raises :
    plan_recipe found_all (
      field "argv"
        (arr (tuple (str "x" ∷ [])))
        (field "stdin" (obj (field "text" (str "") end)) end))
    ≡ Checked.refused "TypeError" null
unfolding planning
empty_input_raises = refl

abbrev observed : ProcessObservation
observed = record { exit_code = pos 0; stdout_text = "done"; stderr_text = ""; existing_paths = [] }

evaluate_observation-IsMet_example :
    ((evaluate_observation found_all planned observed).passed ≡ true)
    ↔ IsMet found_all planned.expectations observed
evaluate_observation-IsMet_example = evaluate_observation-IsMet found_all planned observed

observed-passes : (evaluate_observation found_all planned observed).passed ≡ true
unfolding evaluate_observation first_failure check_contains check_paths check_regex
observed-passes = refl
