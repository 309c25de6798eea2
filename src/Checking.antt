-- ===== src/Checking.antt =====
-- src/popperpad/core/check.py and src/popperpad/core/evidence.py: the verdict over the results of recipes,
-- and the objects that one execution of a check publishes.
pub mod Evidence
pub mod Laws
mod Examples
use popper_pad.Prelude.{
  ◌≡◌, Bool, true, false, contains, is_empty, List, [], ◌∷◌, String, str_eq, if◌then◌else◌,
}

pub data RunIntent : Type 0 where
  prove : RunIntent
  refute : RunIntent

abbrev pub is_refute : RunIntent → Bool
is_refute RunIntent.prove = false
is_refute RunIntent.refute = true

pub data AggregateVerdict : Type 0 where
  verdict_pass : AggregateVerdict
  verdict_fail : AggregateVerdict
  verdict_inconclusive : AggregateVerdict

-- A category of `CheckSummary`: its constructor admits these three only.
pub data Category : Type 0 where
  pass : Category
  fail : Category
  inconclusive : Category

abbrev pub category_eq : Category → Category → Bool
category_eq Category.pass Category.pass = true
category_eq Category.fail Category.fail = true
category_eq Category.inconclusive Category.inconclusive = true
category_eq _ _ = false

-- `category in categories`
abbrev pub has : List Category → Category → Bool
has [] c = false
has (x ∷ xs) c = if category_eq c x then true else has xs c

pub record CheckSummary : Type 0 where
  pub intent : RunIntent
  pub categories : List Category

unfoldable pub recipe_applies : String → RunIntent → Bool
recipe_applies verdict_on_pass RunIntent.prove = str_eq verdict_on_pass "support"
recipe_applies verdict_on_pass RunIntent.refute = str_eq verdict_on_pass "refute"

unfoldable pub decide_check_summary : CheckSummary → AggregateVerdict
decide_check_summary s =
    let any_pass = has s.categories Category.pass in
    let any_fail = has s.categories Category.fail in
    let any_inconclusive = has s.categories Category.inconclusive in
    if is_empty s.categories
    then AggregateVerdict.verdict_inconclusive
    else if is_refute s.intent
    then (if any_pass
        then AggregateVerdict.verdict_pass
        else if any_inconclusive
        then AggregateVerdict.verdict_inconclusive
        else AggregateVerdict.verdict_fail)
    else if any_fail
    then AggregateVerdict.verdict_fail
    else if any_pass
    then AggregateVerdict.verdict_pass
    else AggregateVerdict.verdict_inconclusive
