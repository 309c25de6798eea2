-- ===== src/Receipts/Laws.antt =====
-- What the admission of a receipt guarantees in src/popperpad/core/verifier_receipts.py.
use mathlib.Core.Path.{ap₂}
use popper_pad.Prelude.{
  ◌≡◌, refl, ap, ◌∙◌, sym, ◌↔◌, not, contains, true, not-eq_false, and-true, and-intro, Option,
  none, some, List, [], ◌∷◌, String, str_eq-eq, str_eq_refl, option_eq, texts_eq,
}
use popper_pad.Result.{Checked, when-ok, when-pass, ok-injective}
use popper_pad.Receipts.{
  VerifierResult, VerifierStatementV1, AuthenticatedVerifierReceiptV1, TruthReceiptBinding,
  ReceiptPolicy, result_eq, binding_matches, admit_authenticated_verifier_receipt,
}

-- The entries of a statement that a binding fixes.
abbrev pub binding_of : VerifierStatementV1 → TruthReceiptBinding
binding_of s = record {
  claim_ref = s.claim_ref;
  context_ref = s.context_ref;
  recipe_ref = s.recipe_ref;
  evidence_ref = s.evidence_ref;
  edge_ref = s.edge_ref;
  input_roots = s.input_roots;
  result = s.result;
  output_roots = s.output_roots;
}

pub texts_eq-eq : (xs ys : List String) → texts_eq xs ys ≡ true → xs ≡ ys
unfolding texts_eq
texts_eq-eq [] [] h = refl
texts_eq-eq [] (y ∷ ys) h = cc h
texts_eq-eq (x ∷ xs) [] h = cc h
texts_eq-eq (x ∷ xs) (y ∷ ys) h =
    let (here, later) = and-true _ _ h in ap₂ ◌∷◌ (str_eq-eq x y here) (texts_eq-eq xs ys later)

pub texts_eq_refl : (xs : List String) → texts_eq xs xs ≡ true
unfolding texts_eq
texts_eq_refl [] = refl
texts_eq_refl (x ∷ xs) = and-intro _ _ (str_eq_refl x) (texts_eq_refl xs)

pub option_eq-eq : (x y : Option String) → option_eq x y ≡ true → x ≡ y
unfolding option_eq
option_eq-eq none none h = refl
option_eq-eq none (some y) h = cc h
option_eq-eq (some x) none h = cc h
option_eq-eq (some x) (some y) h = ap some (str_eq-eq x y h)

pub option_eq_refl : (x : Option String) → option_eq x x ≡ true
unfolding option_eq
option_eq_refl none = refl
option_eq_refl (some x) = str_eq_refl x

result_eq-eq : (x y : VerifierResult) → result_eq x y ≡ true → x ≡ y
result_eq-eq VerifierResult.supports VerifierResult.supports h = refl
result_eq-eq VerifierResult.refutes VerifierResult.refutes h = refl
result_eq-eq VerifierResult.supports VerifierResult.refutes h = cc h
result_eq-eq VerifierResult.refutes VerifierResult.supports h = cc h

result_eq_refl : (x : VerifierResult) → result_eq x x ≡ true
result_eq_refl VerifierResult.supports = refl
result_eq_refl VerifierResult.refutes = refl

binding_matches-eq :
    (s : VerifierStatementV1) (b : TruthReceiptBinding)
    → binding_matches s b ≡ true
    → binding_of s ≡ b
unfolding binding_matches
binding_matches-eq s b h =
    let (claim, h1) = and-true _ _ h in
    let (context, h2) = and-true _ _ h1 in
    let (recipe, h3) = and-true _ _ h2 in
    let (evidence, h4) = and-true _ _ h3 in
    let (edge, h5) = and-true _ _ h4 in
    let (inputs, h6) = and-true _ _ h5 in
    let (result, outputs) = and-true _ _ h6 in
    rw
      (
        str_eq-eq s.claim_ref b.claim_ref claim,
        option_eq-eq s.context_ref b.context_ref context,
        str_eq-eq s.recipe_ref b.recipe_ref recipe,
        str_eq-eq s.evidence_ref b.evidence_ref evidence,
        str_eq-eq s.edge_ref b.edge_ref edge,
        texts_eq-eq s.input_roots b.input_roots inputs,
        result_eq-eq s.result b.result result,
        texts_eq-eq s.output_roots b.output_roots outputs,
      )
      refl

binding_matches_refl : (s : VerifierStatementV1) → binding_matches s (binding_of s) ≡ true
unfolding binding_matches
binding_matches_refl s = and-intro _ _ (str_eq_refl _) (
    and-intro _ _ (option_eq_refl _) (
      and-intro _ _ (str_eq_refl _) (
        and-intro _ _ (str_eq_refl _) (
          and-intro _ _ (str_eq_refl _) (
            and-intro _ _ (texts_eq_refl _)
              (and-intro _ _ (result_eq_refl _) (texts_eq_refl _)))))))

-- The policy admits the statement, which is about exactly what the binding names.
pub record IsAdmissible (s : VerifierStatementV1) (binding : TruthReceiptBinding)
    (policy : ReceiptPolicy) : Type 0 where
  pub verifier : contains policy.trusted_verifier_ids s.verifier_id ≡ true
  pub version : contains policy.accepted_versions s.verifier_version ≡ true
  pub policy_hash : contains policy.accepted_policy_hashes s.policy_hash ≡ true
  pub toolchain : contains policy.accepted_toolchain_hashes s.toolchain_hash ≡ true
  pub bound : binding_of s ≡ binding

pub admit-IsAdmissible :
    (a : AuthenticatedVerifierReceiptV1) (binding : TruthReceiptBinding) (policy : ReceiptPolicy)
    (s : VerifierStatementV1)
    → admit_authenticated_verifier_receipt a binding policy ≡ Checked.ok s
    → (a.receipt.statement ≡ s) × IsAdmissible a.receipt.statement binding policy
unfolding admit_authenticated_verifier_receipt
admit-IsAdmissible a binding policy s h =
    let (verifier, h1) = when-ok _ _ _ _ _ h in
    let (version, h2) = when-ok _ _ _ _ _ h1 in
    let (hash, h3) = when-ok _ _ _ _ _ h2 in
    let (toolchain, h4) = when-ok _ _ _ _ _ h3 in
    let (matches, h5) = when-ok _ _ _ _ _ h4 in
    (
      ok-injective _ s h5,
      record {
        verifier = not-eq_false _ verifier;
        version = not-eq_false _ version;
        policy_hash = not-eq_false _ hash;
        toolchain = not-eq_false _ toolchain;
        bound = binding_matches-eq a.receipt.statement binding (not-eq_false _ matches);
      },
    )

IsAdmissible-admit :
    (a : AuthenticatedVerifierReceiptV1) (binding : TruthReceiptBinding) (policy : ReceiptPolicy)
    → IsAdmissible a.receipt.statement binding policy
    → admit_authenticated_verifier_receipt a binding policy ≡ Checked.ok a.receipt.statement
unfolding admit_authenticated_verifier_receipt
IsAdmissible-admit a binding policy h =
    when-pass _ _ _ _ (ap not h.verifier)
    ∙ when-pass _ _ _ _ (ap not h.version)
    ∙ when-pass _ _ _ _ (ap not h.policy_hash)
    ∙ when-pass _ _ _ _ (ap not h.toolchain)
    ∙ when-pass _ _ _ _ (
        ap not (
          ap (binding_matches a.receipt.statement) (sym h.bound)
          ∙ binding_matches_refl a.receipt.statement))

-- A receipt is admitted, with its own statement, exactly if the policy trusts the verifier and accepts its
-- version, its policy and its toolchain, and the statement is about what the binding names, entry by
-- entry.
pub admit_authenticated_verifier_receipt-IsAdmissible :
    (a : AuthenticatedVerifierReceiptV1) (binding : TruthReceiptBinding) (policy : ReceiptPolicy)
    → (admit_authenticated_verifier_receipt a binding policy ≡ Checked.ok a.receipt.statement)
      ↔ IsAdmissible a.receipt.statement binding policy
admit_authenticated_verifier_receipt-IsAdmissible a binding policy = (
  λ h. (admit-IsAdmissible a binding policy a.receipt.statement h).1,
  IsAdmissible-admit a binding policy,
)
