-- ===== src/Recipe/Judge/Laws.antt =====
-- The judgement of src/popperpad/core/recipe.py against what a recipe expects.
use popper_pad.Prelude.{
  ℕ, ◌≡◌, refl, ap, ◌∙◌, sym, ◌↔◌, not, Bool, true, false, Bool-cases, inl, inr, Option, none, some,
  List, [], ◌∷◌, String, codes, All, ℤ, pos, negsuc, ==→eq, eq→==,
}
use popper_pad.Recipe.{Expectations, RecipePlan, ProcessObservation, Regex}
use popper_pad.Recipe.Judge.{
  has_infix, failing, check_contains, exists_path, check_paths, int_equal, first_failure,
  check_regex, checks_of, evaluate_observation,
}

-- The text contains the needle, if one is given, or does not.
abbrev pub MeetsContains : String → Option String → Bool → Type 0
MeetsContains text none should = Unit
MeetsContains text (some needle) should = has_infix (codes needle) (codes text) ≡ should

abbrev pub MeetsRegex : Regex → String → Option String → Type 0
MeetsRegex regex text none = Unit
MeetsRegex regex text (some pattern_text) = regex.search pattern_text text ≡ true

abbrev pub MeetsPaths : List (List ℕ) → List (List ℕ) → Bool → Type 0
MeetsPaths existing paths should = All (λ p. exists_path existing p ≡ should) paths

-- The observation is what the recipe expects.
pub record IsMet (regex : Regex) (x : Expectations) (o : ProcessObservation) : Type 0 where
  pub exit_code : o.exit_code ≡ x.exit_code
  pub stdout_contains : MeetsContains o.stdout_text x.stdout_contains true
  pub stderr_contains : MeetsContains o.stderr_text x.stderr_contains true
  pub stdout_not_contains : MeetsContains o.stdout_text x.stdout_not_contains false
  pub stderr_not_contains : MeetsContains o.stderr_text x.stderr_not_contains false
  pub stdout_regex : MeetsRegex regex o.stdout_text x.stdout_regex
  pub stderr_regex : MeetsRegex regex o.stderr_text x.stderr_regex
  pub files_exist : MeetsPaths o.existing_paths x.files_exist true
  pub files_not_exist : MeetsPaths o.existing_paths x.files_not_exist false

int_equal-eq : (m n : ℤ) → int_equal m n ≡ true → m ≡ n
int_equal-eq (pos m) (pos n) h = ap pos (==→eq m n h)
int_equal-eq (negsuc m) (negsuc n) h = ap negsuc (==→eq m n h)
int_equal-eq (pos m) (negsuc n) h = cc h
int_equal-eq (negsuc m) (pos n) h = cc h

int_equal_refl : (n : ℤ) → int_equal n n ≡ true
int_equal_refl (pos n) = eq→== n n refl
int_equal_refl (negsuc n) = eq→== n n refl

not-eq_true : (b : Bool) → not b ≡ true → b ≡ false
not-eq_true true h = cc h
not-eq_true false h = refl

failing-none : (b : Bool) (reason : List ℕ) → failing b reason ≡ none → b ≡ true
failing-none true reason h = refl
failing-none false reason h = cc h

contains_met :
    (text : String) (needle : Option String) (should : Bool) (label : String)
    → (check_contains text needle should label ≡ none) ↔ MeetsContains text needle should
unfolding check_contains
contains_met text none should label = (λ h. tt, λ h. refl)
contains_met text (some needle) true label = (λ h. failing-none _ _ h, λ h. rw h refl)
contains_met text (some needle) false label =
    (λ h. not-eq_true _ (failing-none _ _ h), λ h. rw h refl)

regex_met :
    (regex : Regex) (text : String) (pattern_text : Option String) (label : String)
    → (check_regex regex text pattern_text label ≡ none) ↔ MeetsRegex regex text pattern_text
unfolding check_regex
regex_met regex text none label = (λ h. tt, λ h. refl)
regex_met regex text (some p) label = (λ h. failing-none _ _ h, λ h. rw h refl)

paths_met :
    (existing paths : List (List ℕ)) (should : Bool) (label : String)
    → (check_paths existing paths should label ≡ none) ↔ MeetsPaths existing paths should
unfolding check_paths
paths_met existing [] should label = (λ h. tt, λ h. refl)
paths_met existing (p ∷ ps) true label = elim (Bool-cases (exists_path existing p)) [
  | inl there ↦ (
    λ h. (there, (paths_met existing ps true label).0 (rw there at h)),
    λ h. rw there ((paths_met existing ps true label).1 h.1),
  )
  | inr absent ↦ (λ h. cc (rw absent at h), λ h. cc (absent, h.0))
]
paths_met existing (p ∷ ps) false label = elim (Bool-cases (exists_path existing p)) [
  | inl there ↦ (λ h. cc (rw there at h), λ h. cc (there, h.0))
  | inr absent ↦ (
    λ h. (absent, (paths_met existing ps false label).0 (rw absent at h)),
    λ h. rw absent ((paths_met existing ps false label).1 h.1),
  )
]

first_failure-none :
    (checks : List (Option (List ℕ)))
    → ((first_failure checks).passed ≡ true) ↔ All (λ c. c ≡ none) checks
unfolding first_failure
first_failure-none [] = (λ h. tt, λ h. refl)
first_failure-none (none ∷ checks) =
    (λ h. (refl, (first_failure-none checks).0 h), λ h. (first_failure-none checks).1 h.1)
first_failure-none (some reason ∷ checks) = (λ h. cc h, λ h. cc (h.0))

module _ (regex : Regex) (plan : RecipePlan) (o : ProcessObservation) where
  checks-IsMet :
      o.exit_code ≡ plan.expectations.exit_code
      → All (λ c. c ≡ none) (checks_of regex plan.expectations o)
      → IsMet regex plan.expectations o
  checks-IsMet same (c1, (c2, (c3, (c4, (c5, (c6, (c7, (c8, end_of)))))))) = record {
    exit_code = same;
    stdout_contains = (contains_met _ plan.expectations.stdout_contains true _).0 c1;
    stderr_contains = (contains_met _ plan.expectations.stderr_contains true _).0 c2;
    stdout_not_contains = (contains_met _ plan.expectations.stdout_not_contains false _).0 c3;
    stderr_not_contains = (contains_met _ plan.expectations.stderr_not_contains false _).0 c4;
    stdout_regex = (regex_met regex _ plan.expectations.stdout_regex _).0 c5;
    stderr_regex = (regex_met regex _ plan.expectations.stderr_regex _).0 c6;
    files_exist = (paths_met _ plan.expectations.files_exist true _).0 c7;
    files_not_exist = (paths_met _ plan.expectations.files_not_exist false _).0 c8;
  }

  IsMet-checks :
      IsMet regex plan.expectations o → All (λ c. c ≡ none) (checks_of regex plan.expectations o)
  IsMet-checks h = (
    (contains_met _ plan.expectations.stdout_contains true _).1 h.stdout_contains,
    (
      (contains_met _ plan.expectations.stderr_contains true _).1 h.stderr_contains,
      (
        (contains_met _ plan.expectations.stdout_not_contains false _).1 h.stdout_not_contains,
        (
          (contains_met _ plan.expectations.stderr_not_contains false _).1 h.stderr_not_contains,
          (
            (regex_met regex _ plan.expectations.stdout_regex _).1 h.stdout_regex,
            (
              (regex_met regex _ plan.expectations.stderr_regex _).1 h.stderr_regex,
              (
                (paths_met _ plan.expectations.files_exist true _).1 h.files_exist,
                ((paths_met _ plan.expectations.files_not_exist false _).1 h.files_not_exist, tt),
              ),
            ),
          ),
        ),
      ),
    ),
  )

  -- An observation passes exactly if it is what the recipe expects: the exit code, the texts that the output
  -- should and should not contain, the patterns, and the files that should and should not exist.
  pub evaluate_observation-IsMet :
      ((evaluate_observation regex plan o).passed ≡ true) ↔ IsMet regex plan.expectations o
  unfolding evaluate_observation
  evaluate_observation-IsMet =
      elim (Bool-cases (int_equal o.exit_code plan.expectations.exit_code)) [
        | inl same ↦ (
          λ h.
              checks-IsMet (int_equal-eq _ _ same)
                ((first_failure-none (checks_of regex plan.expectations o)).0 (rw same at h)),
          λ h.
              rw same
                ((first_failure-none (checks_of regex plan.expectations o)).1 (IsMet-checks h)),
        )
        | inr other ↦ (
          λ h. cc (rw other at h),
          λ h. cc (
              sym other
              ∙ ap (int_equal o.exit_code) (sym h.exit_code)
              ∙ int_equal_refl o.exit_code),
        )
      ]
