-- ===== src/Checking/Examples.antt =====
-- The theorems on checks at a summary and at one execution.
use popper_pad.Prelude.{◌≡◌, refl, true, false, none, some, pos, List, [], ◌∷◌}
use popper_pad.Values.{dict}
use popper_pad.Result.{Checked, refuse_when, ◌>>◌}
use popper_pad.Market.Types.{valid_ref, valid_ref_or_none}
use popper_pad.Market.Samples.{plain, ref}
use popper_pad.Checking.{RunIntent, Category, AggregateVerdict, decide_check_summary}
use popper_pad.Checking.Evidence.{
  ExecutionStatus, CheckExecution, PlannedCheckObjects, check_outputs, check_execution, plan_passed,
  plan_check_objects,
}
use popper_pad.Checking.Laws.{
  IsVerdict, decide_check_summary-IsVerdict, IsPublished, plan_check_objects-IsPublished,
}

abbrev results : List Category
results = Category.pass ∷ Category.fail ∷ Category.pass ∷ []

decide_check_summary-IsVerdict_example :
    IsVerdict RunIntent.prove results
      (decide_check_summary (record { intent = RunIntent.prove; categories = results }))
decide_check_summary-IsVerdict_example = decide_check_summary-IsVerdict RunIntent.prove results

fail_wins :
    decide_check_summary (record { intent = RunIntent.prove; categories = results })
    ≡ AggregateVerdict.verdict_fail
unfolding decide_check_summary
fail_wins = refl

abbrev execution : CheckExecution
unfolding dict
execution = record {
  intent = RunIntent.refute;
  recipe_ref = ref;
  hypothesis_ref = ref;
  context_ref = none;
  created_at = "2026-01-01T00:00:00Z";
  status = ExecutionStatus.execution_pass;
  reason = "pass";
  exit_code = some (pos 0);
  stdout_ref = "";
  stderr_ref = ref;
  outputs =
      record {
        name = "swan";
        ref = ref;
        byte_size = 3;
        truncated = false;
        path = "swan.png";
        media_type = "image/png";
      }
      ∷ [];
  toolchain = dict [];
  duration_ms = 12;
  argv = "look" ∷ [];
  stdout_truncated = false;
  stderr_truncated = false;
}

abbrev published : PlannedCheckObjects
unfolding plan_passed execution
published = plan_passed plain execution execution.intent execution.outputs

execution-planned : plan_check_objects plain execution ≡ Checked.ok published
unfolding plan_check_objects check_execution check_outputs valid_ref valid_ref_or_none refuse_when
    ◌>>◌ published execution
execution-planned = refl

plan_check_objects-IsPublished_example :
    IsPublished plain execution RunIntent.refute execution.outputs true published
unfolding execution
plan_check_objects-IsPublished_example =
    plan_check_objects-IsPublished plain execution published execution-planned
