-- ===== src/Recipe/Laws.antt =====
-- The captured, file, artifact and expected paths of a recipe that `plan_recipe` of
-- src/popperpad/core/recipe.py accepts. The paths in `requires_paths` are not normalised there, and may
-- be absolute.
use popper_pad.Prelude.{ℕ, suc, ◌≡◌, any, is_empty, or-false, false, List, [], ◌∷◌, String, All}
use popper_pad.Values.{Json, null, bool, int, str, arr, obj, Fields, end, field}
use popper_pad.Result.{Checked, OnOk, refused-OnOk, ok-OnOk, when-OnOk, bind-OnOk}
use popper_pad.Adapter.Profile.{codes_eq, starts_with_slash}
use popper_pad.Recipe.{InputSpec, Expectations, RecipePlan, Regex}
use popper_pad.Recipe.Paths.{clean, climbs, normalize_relative_path}
use popper_pad.Recipe.Plan.{
  normalize_all, plan_files, plan_artifact, plan_artifacts, plan_expectations, plan_recipe,
}

-- A path that is not empty, does not start at the root, and has no segment `..`.
pub record IsInside (path : List ℕ) : Type 0 where
  pub named : is_empty path ≡ false
  pub relative : starts_with_slash path ≡ false
  pub stays : climbs path ≡ false

normalize-IsInside : (v : Json) (name : String) → OnOk IsInside (normalize_relative_path v name)
unfolding normalize_relative_path
normalize-IsInside (str s) name = when-OnOk _ _ _ _ λ named. when-OnOk _ _ _ _ λ good. ok-OnOk _ (
    let (relative, stays) = or-false (starts_with_slash (clean s)) (climbs (clean s)) good in
    record { named = named; relative = relative; stays = stays })
normalize-IsInside null name = refused-OnOk _ _
normalize-IsInside (bool b) name = refused-OnOk _ _
normalize-IsInside (int n) name = refused-OnOk _ _
normalize-IsInside (arr xs) name = refused-OnOk _ _
normalize-IsInside (obj fs) name = refused-OnOk _ _

normalize_all-IsInside :
    (name : String) (index : ℕ) (ps : List String)
    → OnOk (All IsInside) (normalize_all name index ps)
unfolding normalize_all
normalize_all-IsInside name index [] = ok-OnOk _ tt
normalize_all-IsInside name index (p ∷ ps) = bind-OnOk _ _ λ path e. bind-OnOk _ _ λ rest f.
    ok-OnOk _ (
      (normalize-IsInside (str p) _).holds path e,
      (normalize_all-IsInside name (suc index) ps).holds rest f,
    )

-- The paths of a list of files, each new after `seen`.
abbrev pub AreFiles : List (List ℕ) → List (List ℕ × InputSpec) → Type 0
AreFiles seen [] = Unit
AreFiles seen ((path, input) ∷ more) =
    IsInside path × (any (codes_eq path) seen ≡ false) × AreFiles (path ∷ seen) more

plan_files-AreFiles :
    (seen : List (List ℕ)) (fs : Fields) → OnOk (AreFiles seen) (plan_files seen fs)
unfolding plan_files
plan_files-AreFiles seen end = ok-OnOk _ tt
plan_files-AreFiles seen (field name spec rest) = bind-OnOk _ _ λ path e. when-OnOk _ _ _ _ λ new.
    bind-OnOk _ _ λ input f. bind-OnOk _ _ λ more g. ok-OnOk _ (
      (normalize-IsInside (str name) _).holds path e,
      new,
      (plan_files-AreFiles (path ∷ seen) rest).holds more g,
    )

plan_artifact-IsInside : (id : String) (v : Json) → OnOk (λ a. IsInside a.path) (plan_artifact id v)
unfolding plan_artifact
plan_artifact-IsInside id (obj fs) = bind-OnOk _ _ λ path e.
    bind-OnOk _ _
      λ max f. bind-OnOk _ _ λ media g. ok-OnOk _ ((normalize-IsInside _ _).holds path e)
plan_artifact-IsInside id null = refused-OnOk _ _
plan_artifact-IsInside id (bool b) = refused-OnOk _ _
plan_artifact-IsInside id (int n) = refused-OnOk _ _
plan_artifact-IsInside id (str s) = refused-OnOk _ _
plan_artifact-IsInside id (arr xs) = refused-OnOk _ _

plan_artifacts-IsInside :
    (fs : Fields) → OnOk (All (λ entry. IsInside (entry.1).path)) (plan_artifacts fs)
unfolding plan_artifacts
plan_artifacts-IsInside end = ok-OnOk _ tt
plan_artifacts-IsInside (field id spec rest) = when-OnOk _ _ _ _ λ named.
    bind-OnOk _ _ λ artifact e. bind-OnOk _ _ λ more f. ok-OnOk _ (
      (plan_artifact-IsInside id spec).holds artifact e,
      (plan_artifacts-IsInside rest).holds more f,
    )

-- The paths of a plan that `normalize_relative_path` has passed stay inside (`requires_paths` are not
-- among them), its files have distinct paths, and it has a command.
pub record IsContained (plan : RecipePlan) : Type 0 where
  pub capture_paths : All IsInside plan.capture_paths
  pub files : AreFiles [] plan.files
  pub artifacts : All (λ entry. IsInside (entry.1).path) plan.artifacts
  pub exist : All IsInside plan.expectations.files_exist
  pub not_exist : All IsInside plan.expectations.files_not_exist
  pub command : is_empty plan.argv ≡ false

-- The paths that a recipe expects to be there, and not to be there.
pub record IsExpected (x : Expectations) : Type 0 where
  pub exist : All IsInside x.files_exist
  pub not_exist : All IsInside x.files_not_exist

module _ (regex : Regex) where
  plan_expectations-IsExpected : (v : Json) → OnOk IsExpected (plan_expectations regex v)
  unfolding plan_expectations
  plan_expectations-IsExpected v = bind-OnOk _ _ λ fs e0. bind-OnOk _ _ λ x1 e1.
      bind-OnOk _ _ λ x2 e2. bind-OnOk _ _ λ x3 e3. bind-OnOk _ _ λ x4 e4. bind-OnOk _ _ λ x5 e5.
        bind-OnOk _ _ λ x6 e6. bind-OnOk _ _ λ x7 e7. bind-OnOk _ _ λ x8 e8. bind-OnOk _ _ λ x9 e9.
          bind-OnOk _ _ λ exist f. bind-OnOk _ _ λ not_exist g. ok-OnOk _ (record {
            exist = (normalize_all-IsInside _ _ _).holds exist f;
            not_exist = (normalize_all-IsInside _ _ _).holds not_exist g;
          })

  -- A recipe that `plan_recipe` accepts has a command, and the paths in its plan of what it captures, of its
  -- files and artifacts, and of what it expects to exist or not are each relative, not empty and without
  -- a segment `..`. No two of its files have the same path. This says nothing of its `requires_paths`.
  pub plan_recipe-IsContained :
      (recipe : Fields) (plan : RecipePlan)
      → plan_recipe regex recipe ≡ Checked.ok plan
      → IsContained plan
  unfolding plan_recipe
  plan_recipe-IsContained recipe plan h =
      (bind-OnOk {P = IsContained} _ _ λ argv e0. when-OnOk _ _ _ _ λ command.
          bind-OnOk _ _ λ x1 e1. bind-OnOk _ _ λ x2 e2. bind-OnOk _ _ λ x3 e3. bind-OnOk _ _ λ x e.
            bind-OnOk _ _ λ raw e4. bind-OnOk _ _ λ capture c. bind-OnOk _ _ λ raw_files e5.
              bind-OnOk _ _ λ files f. bind-OnOk _ _ λ stdin e6. bind-OnOk _ _ λ raw_env e7.
                bind-OnOk _ _ λ env e8. bind-OnOk _ _ λ raw_artifacts e9.
                  bind-OnOk _ _ λ artifacts a. bind-OnOk _ _ λ requires e10.
                    bind-OnOk _ _ λ requires_paths e11. ok-OnOk _ (record {
                      capture_paths = (normalize_all-IsInside _ _ _).holds capture c;
                      files = (plan_files-AreFiles _ _).holds files f;
                      artifacts = (plan_artifacts-IsInside _).holds artifacts a;
                      exist = ((plan_expectations-IsExpected _).holds x e).exist;
                      not_exist = ((plan_expectations-IsExpected _).holds x e).not_exist;
                      command = command;
                    })).holds
        plan h
