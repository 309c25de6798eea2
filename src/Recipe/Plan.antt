-- ===== src/Recipe/Plan.antt =====
-- `plan_recipe` of src/popperpad/core/recipe.py with its parsers. The TypeError of the constructor of an
-- input is a refusal with the code `TypeError`.
use popper_pad.Prelude.{
  ℕ, zero, suc, any, is_empty, is_nonempty, not, false, Option, none, some, List, [], ◌∷◌, String,
  ◌⊕◌, str_nat, ℤ, pos, leb_ℤ, if◌then◌else◌,
}
use popper_pad.Values.{Json, null, bool, int, str, arr, obj, Items, nil, cons, Fields, end, field}
use popper_pad.Result.{Checked, refuse_when, ◌>>=◌, ◌>>◌}
use popper_pad.Commit.Parse.{get}
use popper_pad.Adapter.Profile.{codes_eq}
use popper_pad.Recipe.{InputKind, InputSpec, ArtifactPlan, Expectations, RecipePlan, Regex}
use popper_pad.Recipe.Paths.{refused_field, refuse_if_field, normalize_relative_path}

-- `mapping.get(key)`, where a missing key is `None`.
abbrev pub get_or_null : Fields → String → Json
get_or_null fs key = elim (get fs key) [ some v ↦ v | none ↦ null ]

-- `value or {}`
unfoldable pub or_empty : Json → Json
or_empty null = obj end
or_empty (bool false) = obj end
or_empty (int (pos zero)) = obj end
or_empty (str s) = if is_nonempty s then str s else obj end
or_empty (arr nil) = obj end
or_empty v = v

unfoldable pub positive_int : Json → ℤ → String → Checked ℤ
positive_int null default name =
    refuse_if_field (leb_ℤ default (pos 0)) name "must be a positive integer" >> Checked.ok default
positive_int (int n) default name =
    refuse_if_field (leb_ℤ n (pos 0)) name "must be a positive integer" >> Checked.ok n
positive_int _ default name = refused_field name "must be a positive integer"

unfoldable pub string_items : Items → String → Checked (List String)
string_items nil name = Checked.ok []
string_items (cons (str s) xs) name = do rest ← string_items xs name; Checked.ok (s ∷ rest)
string_items (cons _ xs) name = refused_field name "must contain only strings"

-- `_string_tuple`
unfoldable pub string_tuple : Json → String → Checked (List String)
string_tuple null name = Checked.ok []
string_tuple (arr xs) name = string_items xs name
string_tuple _ name = refused_field name "must be an array of strings"

abbrev pub indexed : String → ℕ → String
indexed name index = name ⊕ ("[" ⊕ (str_nat index ⊕ "]"))

-- `normalize_relative_path` on each path from an index on.
unfoldable pub normalize_all : String → ℕ → List String → Checked (List (List ℕ))
normalize_all name index [] = Checked.ok []
normalize_all name index (p ∷ ps) = do
  path ← normalize_relative_path (str p) (indexed name index)
  rest ← normalize_all name (suc index) ps
  Checked.ok (path ∷ rest)

-- An input of one kind.
unfoldable pub input_of : InputKind → String → Json → String → Checked InputSpec
input_of kind key (str s) name =
    refuse_when (not (is_nonempty s)) "TypeError" null
    >> Checked.ok (record { input_kind = kind; value = s })
input_of kind key _ name = refused_field (name ⊕ ("." ⊕ key)) "must be a string"

-- `_input_spec`
unfoldable pub input_spec : Json → String → Checked InputSpec
input_spec (obj fs) name = elim (get fs "ref") [
  | some r ↦ elim (get fs "text") [
    | some t ↦ refused_field name "must contain exactly one of ref, text, binding"
    | none ↦ elim (get fs "binding") [
      | some b ↦ refused_field name "must contain exactly one of ref, text, binding"
      | none ↦ input_of InputKind.kind_ref "ref" r name
    ]
  ]
  | none ↦ elim (get fs "text") [
    | some t ↦ elim (get fs "binding") [
      | some b ↦ refused_field name "must contain exactly one of ref, text, binding"
      | none ↦ input_of InputKind.kind_text "text" t name
    ]
    | none ↦ elim (get fs "binding") [
      | some b ↦ input_of InputKind.kind_binding "binding" b name
      | none ↦ refused_field name "must contain exactly one of ref, text, binding"
    ]
  ]
]
input_spec _ name = refused_field name "must be an object"

unfoldable pub optional_text : Json → String → Checked (Option String)
optional_text null name = Checked.ok none
optional_text (str s) name = Checked.ok (some s)
optional_text _ name = refused_field name "must be a string"

unfoldable pub exit_code_of : Fields → Checked ℤ
exit_code_of fs = elim (get fs "exit_code") [
  | none ↦ Checked.ok (pos 0)
  | some (int n) ↦ Checked.ok n
  | some _ ↦ refused_field "expect.exit_code" "must be an integer"
]

-- The loop over the files of a recipe; `seen` are the paths so far.
unfoldable pub plan_files : List (List ℕ) → Fields → Checked (List (List ℕ × InputSpec))
plan_files seen end = Checked.ok []
plan_files seen (field name spec rest) = do
  path ← normalize_relative_path (str name) ("files." ⊕ name)
  refuse_if_field (any (codes_eq path) seen) ("files." ⊕ name) "duplicates a normalized file path"
  input ← input_spec spec ("files." ⊕ name)
  more ← plan_files (path ∷ seen) rest
  Checked.ok ((path, input) ∷ more)

unfoldable pub plan_env : Fields → Checked (List (String × Option String))
plan_env end = Checked.ok []
plan_env (field key (str s) rest) = do
  refuse_if_field (not (is_nonempty key)) "env" "keys must be non-empty strings"
  more ← plan_env rest
  Checked.ok ((key, some s) ∷ more)
plan_env (field key null rest) = do
  refuse_if_field (not (is_nonempty key)) "env" "keys must be non-empty strings"
  more ← plan_env rest
  Checked.ok ((key, none) ∷ more)
plan_env (field key _ rest) = do
  refuse_if_field (not (is_nonempty key)) "env" "keys must be non-empty strings"
  refused_field ("env." ⊕ key) "must be a string or null"

unfoldable pub optional_max : Json → String → Checked (Option ℤ)
optional_max null name = Checked.ok none
optional_max v name = do n ← positive_int v (pos 0) name; Checked.ok (some n)

unfoldable pub media_type_of : Fields → String → Checked String
media_type_of fs name = elim (get fs "media_type") [
  | none ↦ Checked.ok "application/octet-stream"
  | some (str s) ↦ refuse_if_field (not (is_nonempty s)) name "must be a string" >> Checked.ok s
  | some _ ↦ refused_field name "must be a string"
]

unfoldable pub plan_artifact : String → Json → Checked ArtifactPlan
plan_artifact id (obj fs) = do
  path ← normalize_relative_path (get_or_null fs "path") ("artifacts." ⊕ (id ⊕ ".path"))
  max_bytes ← optional_max (get_or_null fs "max_bytes") ("artifacts." ⊕ (id ⊕ ".max_bytes"))
  media_type ← media_type_of fs ("artifacts." ⊕ (id ⊕ ".media_type"))
  Checked.ok (record { path = path; max_bytes = max_bytes; media_type = media_type })
plan_artifact id _ = refused_field ("artifacts." ⊕ id) "must be an object"

unfoldable pub plan_artifacts : Fields → Checked (List (String × ArtifactPlan))
plan_artifacts end = Checked.ok []
plan_artifacts (field id spec rest) = do
  refuse_if_field (not (is_nonempty id)) "artifacts" "keys must be non-empty strings"
  artifact ← plan_artifact id spec
  more ← plan_artifacts rest
  Checked.ok ((id, artifact) ∷ more)

-- `isinstance(value, Mapping)`
unfoldable pub mapping_of : Json → String → Checked Fields
mapping_of (obj fs) name = Checked.ok fs
mapping_of _ name = refused_field name "must be an object"

unfoldable pub plan_stdin : Json → Checked (Option InputSpec)
plan_stdin null = Checked.ok none
plan_stdin v = do input ← input_spec v "stdin"; Checked.ok (some input)

-- `None` stands for the empty mapping.
abbrev pub null_as_empty : Json → Json
null_as_empty null = obj end
null_as_empty v = v

module _ (regex : Regex) where
  unfoldable pub optional_regex : Json → String → Checked (Option String)
  optional_regex null name = Checked.ok none
  optional_regex (str s) name = elim (regex.compile_error s) [
    | none ↦ Checked.ok (some s)
    | some message ↦ refused_field name ("invalid regex: " ⊕ message)
  ]
  optional_regex _ name = refused_field name "must be a string"

  -- `_expectations`
  unfoldable pub plan_expectations : Json → Checked Expectations
  plan_expectations value = do
    fs ← mapping_of (null_as_empty value) "expect"
    exit_code ← exit_code_of fs
    stdout_contains ← optional_text (get_or_null fs "stdout_contains") "expect.stdout_contains"
    stderr_contains ← optional_text (get_or_null fs "stderr_contains") "expect.stderr_contains"
    stdout_not_contains ←
        optional_text (get_or_null fs "stdout_not_contains") "expect.stdout_not_contains"
    stderr_not_contains ←
        optional_text (get_or_null fs "stderr_not_contains") "expect.stderr_not_contains"
    stdout_regex ← optional_regex (get_or_null fs "stdout_regex") "expect.stdout_regex"
    stderr_regex ← optional_regex (get_or_null fs "stderr_regex") "expect.stderr_regex"
    exist ← string_tuple (get_or_null fs "files_exist") "expect.files_exist"
    not_exist ← string_tuple (get_or_null fs "files_not_exist") "expect.files_not_exist"
    files_exist ← normalize_all "expect.files_exist" 0 exist
    files_not_exist ← normalize_all "expect.files_not_exist" 0 not_exist
    Checked.ok (record {
      exit_code = exit_code;
      stdout_contains = stdout_contains;
      stderr_contains = stderr_contains;
      stdout_not_contains = stdout_not_contains;
      stderr_not_contains = stderr_not_contains;
      stdout_regex = stdout_regex;
      stderr_regex = stderr_regex;
      files_exist = files_exist;
      files_not_exist = files_not_exist;
    })

  unfoldable pub plan_recipe : Fields → Checked RecipePlan
  plan_recipe recipe = do
    argv ← string_tuple (get_or_null recipe "argv") "argv"
    refuse_if_field (is_empty argv) "argv" "must be non-empty"
    timeout_ms ← positive_int (get_or_null recipe "timeout_ms") (pos 30000) "timeout_ms"
    max_output_bytes ←
        positive_int (get_or_null recipe "max_output_bytes") (pos 65536) "max_output_bytes"
    max_capture_bytes ←
        positive_int (get_or_null recipe "max_capture_bytes") (pos 1048576) "max_capture_bytes"
    expectations ← plan_expectations (get_or_null recipe "expect")
    raw_capture ← string_tuple (get_or_null recipe "capture_paths") "capture_paths"
    capture_paths ← normalize_all "capture_paths" 0 raw_capture
    raw_files ← mapping_of (or_empty (get_or_null recipe "files")) "files"
    files ← plan_files [] raw_files
    stdin ← plan_stdin (get_or_null recipe "stdin")
    raw_env ← mapping_of (or_empty (get_or_null recipe "env")) "env"
    env ← plan_env raw_env
    raw_artifacts ← mapping_of (or_empty (get_or_null recipe "artifacts")) "artifacts"
    artifacts ← plan_artifacts raw_artifacts
    requires ← string_tuple (get_or_null recipe "requires") "requires"
    requires_paths ← string_tuple (get_or_null recipe "requires_paths") "requires_paths"
    Checked.ok (record {
      argv = argv;
      timeout_ms = timeout_ms;
      max_output_bytes = max_output_bytes;
      max_capture_bytes = max_capture_bytes;
      expectations = expectations;
      capture_paths = capture_paths;
      artifacts = artifacts;
      stdin = stdin;
      env = env;
      files = files;
      requires = requires;
      requires_paths = requires_paths;
    })
