-- ===== src/Checking/Laws.antt =====
-- The verdict of src/popperpad/core/check.py and the objects of src/popperpad/core/evidence.py.
use popper_pad.Prelude.{
  ◌≡◌, refl, subst, not, if◌then◌else◌, is_nonempty, str_eq, ◌&&◌, all, Bool, true, false, is_empty,
  Option, none, some, List, [], ◌∷◌, String, arith, Bool-cases, inl, inr,
}
use popper_pad.Values.{Json, str, arr, obj, dict, texts, text_or_null}
use popper_pad.Codec.{Crypto}
use popper_pad.Result.{Checked, then-ok, ok-injective}
use popper_pad.Commit.Parse.{get}
use popper_pad.Checking.{
  RunIntent, Category, AggregateVerdict, category_eq, has, decide_check_summary,
}
use popper_pad.Checking.Evidence.{
  CheckExecution, CapturedOutput, PlannedCheckObjects, is_execution_pass, check_execution,
  evidence_of, artifact_of, edge_of, object_ref, plan_direct, plan_artifact, plan_passed,
  plan_check_objects,
}

abbrev pub passes : AggregateVerdict → Bool
passes AggregateVerdict.verdict_pass = true
passes _ = false

abbrev pub fails : AggregateVerdict → Bool
fails AggregateVerdict.verdict_fail = true
fails _ = false

-- The verdict over results, by the intent: a proof fails if any result does, and passes if some result
-- does and none fails; a refutation passes if any result does, and fails if there are results and all
-- of them fail.
abbrev pub IsVerdict : RunIntent → List Category → AggregateVerdict → Type 0
IsVerdict RunIntent.prove cs v =
    (fails v ≡ has cs Category.fail)
    × (passes v ≡ (has cs Category.pass && not (has cs Category.fail)))
IsVerdict RunIntent.refute cs v =
    (passes v ≡ has cs Category.pass)
    × (fails v ≡ (not (is_empty cs) && all (category_eq Category.fail) cs))

all-fail :
    (cs : List Category)
    → all (category_eq Category.fail) cs
      ≡ (not (has cs Category.pass) && not (has cs Category.inconclusive))
all-fail [] = refl
all-fail (Category.pass ∷ cs) = refl
all-fail (Category.fail ∷ cs) = all-fail cs
all-fail (Category.inconclusive ∷ cs) = ground arith

prove_table :
    (f p : Bool)
    → (fails (
          if f
          then AggregateVerdict.verdict_fail
          else if p
          then AggregateVerdict.verdict_pass
          else AggregateVerdict.verdict_inconclusive)
        ≡ f)
      × (passes (
            if f
            then AggregateVerdict.verdict_fail
            else if p
            then AggregateVerdict.verdict_pass
            else AggregateVerdict.verdict_inconclusive)
          ≡ (p && not f))
prove_table true true = (refl, refl)
prove_table true false = (refl, refl)
prove_table false true = (refl, refl)
prove_table false false = (refl, refl)

refute_table :
    (p i : Bool)
    → (passes (
          if p
          then AggregateVerdict.verdict_pass
          else if i
          then AggregateVerdict.verdict_inconclusive
          else AggregateVerdict.verdict_fail)
        ≡ p)
      × (fails (
            if p
            then AggregateVerdict.verdict_pass
            else if i
            then AggregateVerdict.verdict_inconclusive
            else AggregateVerdict.verdict_fail)
          ≡ (not p && not i))
refute_table true true = (refl, refl)
refute_table true false = (refl, refl)
refute_table false true = (refl, refl)
refute_table false false = (refl, refl)

-- The verdict of a summary. A proof fails exactly if some result fails, and passes exactly if some passes
-- and none fails. A refutation passes exactly if some result passes, and fails exactly if there are
-- results and all of them fail. What neither passes nor fails is inconclusive.
pub decide_check_summary-IsVerdict :
    (intent : RunIntent) (cs : List Category)
    → IsVerdict intent cs (decide_check_summary (record { intent = intent; categories = cs }))
unfolding decide_check_summary
decide_check_summary-IsVerdict RunIntent.prove [] = (refl, refl)
decide_check_summary-IsVerdict RunIntent.prove (c ∷ cs) =
    prove_table (has (c ∷ cs) Category.fail) (has (c ∷ cs) Category.pass)
decide_check_summary-IsVerdict RunIntent.refute [] = (refl, refl)
decide_check_summary-IsVerdict RunIntent.refute (c ∷ cs) =
    rw (all-fail (c ∷ cs))
      (refute_table (has (c ∷ cs) Category.pass) (has (c ∷ cs) Category.inconclusive))

-- `value.get(key)` of an object.
abbrev pub entry_of : Json → String → Option Json
entry_of (obj fs) key = get fs key
entry_of _ key = none

-- The evidence is about this execution.
pub record IsEvidence (e : CheckExecution) (v : Json) : Type 0 where
  pub schema : entry_of v "schema" ≡ some (str "popperpad/evidence/v1")
  pub recipe : entry_of v "recipe_ref" ≡ some (str e.recipe_ref)
  pub subjects : entry_of v "subject_refs" ≡ some (arr (texts (e.hypothesis_ref ∷ [])))
  pub context : entry_of v "context_ref" ≡ some (text_or_null e.context_ref)

-- An edge of a kind, from a source to the hypothesis in its context, that cites one evidence.
pub record IsEdge (e : CheckExecution) (kind source evidence_ref : String) (v : Json) : Type 0 where
  pub schema : entry_of v "schema" ≡ some (str "popperpad/edge/v1")
  pub edge_type : entry_of v "edge_type" ≡ some (str kind)
  pub from_ref : entry_of v "from_ref" ≡ some (str source)
  pub to_ref : entry_of v "to_ref" ≡ some (str e.hypothesis_ref)
  pub context : entry_of v "context_ref" ≡ some (text_or_null e.context_ref)
  pub evidence : entry_of v "evidence_refs" ≡ some (arr (texts (evidence_ref ∷ [])))

-- The artifact is the counterexample that an output holds.
pub record IsCounterexample (o : CapturedOutput) (v : Json) : Type 0 where
  pub schema : entry_of v "schema" ≡ some (str "popperpad/artifact/v1")
  pub kind : entry_of v "kind" ≡ some (str "counterexample")
  pub blob : entry_of v "blob_ref" ≡ some (str o.ref)

evidence_of-IsEvidence : (e : CheckExecution) → IsEvidence e (evidence_of e)
unfolding evidence_of dict get str_eq
evidence_of-IsEvidence e = elim (Bool-cases (is_nonempty e.stdout_ref)) [
  | inl out ↦ elim (Bool-cases (is_nonempty e.stderr_ref)) [
    | inl err ↦
        rw (evidence_of, out, err)
          (record { schema = refl; recipe = refl; subjects = refl; context = refl })
    | inr err ↦
        rw (evidence_of, out, err)
          (record { schema = refl; recipe = refl; subjects = refl; context = refl })
  ]
  | inr out ↦ elim (Bool-cases (is_nonempty e.stderr_ref)) [
    | inl err ↦
        rw (evidence_of, out, err)
          (record { schema = refl; recipe = refl; subjects = refl; context = refl })
    | inr err ↦
        rw (evidence_of, out, err)
          (record { schema = refl; recipe = refl; subjects = refl; context = refl })
  ]
]

edge_of-IsEdge :
    (e : CheckExecution) (kind source evidence_ref : String)
    → IsEdge e kind source evidence_ref (edge_of e kind source evidence_ref)
unfolding edge_of dict get str_eq
edge_of-IsEdge e kind source evidence_ref = record {
  schema = refl;
  edge_type = refl;
  from_ref = refl;
  to_ref = refl;
  context = refl;
  evidence = refl;
}

artifact_of-IsCounterexample : (o : CapturedOutput) → IsCounterexample o (artifact_of o)
unfolding artifact_of dict get str_eq
artifact_of-IsCounterexample o = record { schema = refl; kind = refl; blob = refl }

module _ (crypto : Crypto) where
  -- Evidence and an edge from it.
  abbrev pub IsDirect : CheckExecution → String → PlannedCheckObjects → Type 0
  IsDirect e kind p =
      (v : Json) × (edge : Json) × (p.objects ≡ v ∷ edge ∷ [])
      × (p.evidence_ref ≡ object_ref crypto v)
      × (p.artifact_ref ≡ none)
      × (p.edge_ref ≡ some (object_ref crypto edge))
      × IsEvidence e v
      × IsEdge e kind p.evidence_ref p.evidence_ref edge

  -- Evidence, a counterexample, and a refutation from the counterexample.
  abbrev pub IsRefuted : CheckExecution → CapturedOutput → PlannedCheckObjects → Type 0
  IsRefuted e o p =
      (v : Json) × (a : Json) × (edge : Json) × (p.objects ≡ v ∷ a ∷ edge ∷ [])
      × (p.evidence_ref ≡ object_ref crypto v)
      × (p.artifact_ref ≡ some (object_ref crypto a))
      × (p.edge_ref ≡ some (object_ref crypto edge))
      × IsEvidence e v
      × IsCounterexample o a
      × IsEdge e "refutes" (object_ref crypto a) p.evidence_ref edge

  -- What is published for an execution, by its intent, its outputs, and whether it passed.
  abbrev pub IsPublished :
      CheckExecution → RunIntent → List CapturedOutput → Bool → PlannedCheckObjects → Type 0
  IsPublished e intent outputs false p =
      (v : Json) × (p.objects ≡ v ∷ [])
      × (p.evidence_ref ≡ object_ref crypto v)
      × (p.artifact_ref ≡ none)
      × (p.edge_ref ≡ none)
      × IsEvidence e v
  IsPublished e RunIntent.prove outputs true p = IsDirect e "supports" p
  IsPublished e RunIntent.refute [] true p = IsDirect e "refutes" p
  IsPublished e RunIntent.refute (o ∷ os) true p = IsRefuted e o p

  plan_direct-IsDirect :
      (e : CheckExecution) (kind : String) → IsDirect e kind (plan_direct crypto e kind)
  unfolding plan_direct
  plan_direct-IsDirect e kind = (
    evidence_of e,
    edge_of e kind _ _,
    refl,
    refl,
    refl,
    refl,
    evidence_of-IsEvidence e,
    edge_of-IsEdge e kind _ _,
  )

  plan_artifact-IsRefuted :
      (e : CheckExecution) (o : CapturedOutput) → IsRefuted e o (plan_artifact crypto e o)
  unfolding plan_artifact
  plan_artifact-IsRefuted e o = (
    evidence_of e,
    artifact_of o,
    edge_of e "refutes" _ _,
    refl,
    refl,
    refl,
    refl,
    evidence_of-IsEvidence e,
    artifact_of-IsCounterexample o,
    edge_of-IsEdge e "refutes" _ _,
  )

  passed-IsPublished :
      (e : CheckExecution) (intent : RunIntent) (outputs : List CapturedOutput)
      → IsPublished e intent outputs true (plan_passed crypto e intent outputs)
  unfolding plan_passed
  passed-IsPublished e RunIntent.prove outputs = plan_direct-IsDirect e "supports"
  passed-IsPublished e RunIntent.refute [] = plan_direct-IsDirect e "refutes"
  passed-IsPublished e RunIntent.refute (first ∷ rest) = plan_artifact-IsRefuted e first

  -- An accepted execution publishes evidence that names its recipe, its hypothesis and its context. If it
  -- did not pass, that is all. If it passed, an edge to the hypothesis in that context cites this evidence
  -- and no other: a support from the evidence for a proof; for a refutation, a refutation from the
  -- evidence if there are no outputs, and else from a counterexample with the blob of the first output,
  -- which is published too. The refs of the plan are the hashes of these objects.
  pub plan_check_objects-IsPublished :
      (e : CheckExecution) (p : PlannedCheckObjects)
      → plan_check_objects crypto e ≡ Checked.ok p
      → IsPublished e e.intent e.outputs (is_execution_pass e.status) p
  unfolding plan_check_objects
  plan_check_objects-IsPublished e p h =
      let (checked, made) = then-ok (check_execution e) _ p h in
      subst (IsPublished e e.intent e.outputs (is_execution_pass e.status)) (ok-injective _ p made)
        (elim (Bool-cases (is_execution_pass e.status)) [
          | inl passed ↦ rw passed (passed-IsPublished e e.intent e.outputs)
          | inr other ↦ rw other (evidence_of e, refl, refl, refl, refl, evidence_of-IsEvidence e)
        ])
