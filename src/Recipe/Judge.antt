-- ===== src/Recipe/Judge.antt =====
-- `evaluate_observation` of src/popperpad/core/recipe.py.
pub mod Laws
use popper_pad.Prelude.{
  ℕ, ◌==◌, ◌&&◌, ◌||◌, any, not, Bool, true, false, Option, none, some, List, [], ◌∷◌, ◌++◌, String,
  codes, drop_prefix, str_int, ℤ, pos, negsuc, if◌then◌else◌,
}
use popper_pad.Adapter.Profile.{codes_eq}
use popper_pad.Recipe.{Expectations, RecipePlan, ProcessObservation, RecipeEvaluation, Regex}

-- `needle in text`, as code points.
unfoldable pub has_infix : List ℕ → List ℕ → Bool
has_infix needle [] = elim (drop_prefix needle []) [ some _ ↦ true | none ↦ false ]
has_infix needle (c ∷ cs) = elim (drop_prefix needle (c ∷ cs)) [
  | some _ ↦ true
  | none ↦ has_infix needle cs
]

-- A check and the reason to give where it fails; `none` is a check that holds.
abbrev pub failing : Bool → List ℕ → Option (List ℕ)
failing true reason = none
failing false reason = some reason

-- `_contains`
unfoldable pub check_contains : String → Option String → Bool → String → Option (List ℕ)
check_contains text none should label = none
check_contains text (some needle) true label =
    failing (has_infix (codes needle) (codes text)) (codes label ++ codes " mismatch")
check_contains text (some needle) false label =
    failing (not (has_infix (codes needle) (codes text))) (codes label ++ codes " mismatch")

-- `path in existing`
abbrev pub exists_path : List (List ℕ) → List ℕ → Bool
exists_path existing path = any (codes_eq path) existing

-- `_paths`
unfoldable pub check_paths : List (List ℕ) → List (List ℕ) → Bool → String → Option (List ℕ)
check_paths existing [] should label = none
check_paths existing (p ∷ ps) should label =
    let rest = check_paths existing ps should label in
    let there = exists_path existing p in
    if (if should then there else not there)
    then rest
    else some (codes label ++ (codes " mismatch: " ++ p))

abbrev pub int_equal : ℤ → ℤ → Bool
int_equal (pos m) (pos n) = m == n
int_equal (negsuc m) (negsuc n) = m == n
int_equal _ _ = false

-- The first reason of a list of checks.
unfoldable pub first_failure : List (Option (List ℕ)) → RecipeEvaluation
first_failure [] = record { passed = true; reason = codes "pass" }
first_failure (none ∷ checks) = first_failure checks
first_failure (some reason ∷ checks) = record { passed = false; reason = reason }

module _ (regex : Regex) where
  -- `_regex`
  unfoldable pub check_regex : String → Option String → String → Option (List ℕ)
  check_regex text none label = none
  check_regex text (some pattern_text) label =
      failing (regex.search pattern_text text) (codes label ++ codes " mismatch")

  abbrev pub checks_of : Expectations → ProcessObservation → List (Option (List ℕ))
  checks_of x o =
      check_contains o.stdout_text x.stdout_contains true "stdout_contains"
      ∷ check_contains o.stderr_text x.stderr_contains true "stderr_contains"
      ∷ check_contains o.stdout_text x.stdout_not_contains false "stdout_not_contains"
      ∷ check_contains o.stderr_text x.stderr_not_contains false "stderr_not_contains"
      ∷ check_regex o.stdout_text x.stdout_regex "stdout_regex"
      ∷ check_regex o.stderr_text x.stderr_regex "stderr_regex"
      ∷ check_paths o.existing_paths x.files_exist true "files_exist"
      ∷ check_paths o.existing_paths x.files_not_exist false "files_not_exist"
      ∷ []

  unfoldable pub evaluate_observation : RecipePlan → ProcessObservation → RecipeEvaluation
  evaluate_observation plan o =
      if int_equal o.exit_code plan.expectations.exit_code
      then first_failure (checks_of plan.expectations o)
      else record {
        passed = false;
        reason =
            codes "exit_code "
            ++ (codes (str_int o.exit_code)
                ++ (codes " != " ++ codes (str_int plan.expectations.exit_code)));
      }
