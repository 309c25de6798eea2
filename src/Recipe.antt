-- ===== src/Recipe.antt =====
-- src/popperpad/core/recipe.py: the plan of a recipe from untrusted data, and the judgement of what a
-- process did. A path is the list of its code points.
pub mod Paths
pub mod Plan
pub mod Judge
pub mod Laws
mod Examples
use popper_pad.Prelude.{ℕ, ℤ, Option, List, String, Bool}

pub data InputKind : Type 0 where
  kind_ref : InputKind
  kind_text : InputKind
  kind_binding : InputKind

pub record InputSpec : Type 0 where
  pub input_kind : InputKind
  pub value : String

pub record ArtifactPlan : Type 0 where
  pub path : List ℕ
  pub max_bytes : Option ℤ
  pub media_type : String

pub record Expectations : Type 0 where
  pub exit_code : ℤ
  pub stdout_contains : Option String
  pub stderr_contains : Option String
  pub stdout_not_contains : Option String
  pub stderr_not_contains : Option String
  pub stdout_regex : Option String
  pub stderr_regex : Option String
  pub files_exist : List (List ℕ)
  pub files_not_exist : List (List ℕ)

pub record RecipePlan : Type 0 where
  pub argv : List String
  pub timeout_ms : ℤ
  pub max_output_bytes : ℤ
  pub max_capture_bytes : ℤ
  pub expectations : Expectations
  pub capture_paths : List (List ℕ)
  pub artifacts : List (String × ArtifactPlan)
  pub stdin : Option InputSpec
  pub env : List (String × Option String)
  pub files : List (List ℕ × InputSpec)
  pub requires : List String
  pub requires_paths : List String

pub record ProcessObservation : Type 0 where
  pub exit_code : ℤ
  pub stdout_text : String
  pub stderr_text : String
  pub existing_paths : List (List ℕ)

-- The result of an evaluation; the reason is a list of code points.
pub record RecipeEvaluation : Type 0 where
  pub passed : Bool
  pub reason : List ℕ

-- Python's module `re`: the message of the error with which a pattern does not compile, and whether a
-- pattern is found in a text.
pub record Regex : Type 0 where
  pub compile_error : String → Option String
  pub search : String → String → Bool
