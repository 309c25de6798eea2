-- ===== src/Imports/Laws.antt =====
-- What the admission of a bundle guarantees in src/popperpad/core/imports.py, and which authority the
-- commit of an admitted bundle has in src/popperpad/core/commit.py.
use popper_pad.Prelude.{
  ◌≡◌, refl, ap, ◌∙◌, sym, subst, ◌↔◌, ◌&&◌, ◌||◌, all, contains, is_empty, not, Bool, true, false,
  Bool-cases, inl, inr, not-eq_false, and-true, and-intro, List, [], ◌∷◌, ◌++◌, codes, String, ◌⊕◌,
  codes-append, str_eq, str_eq-eq, str_eq_refl, option_eq, length, ℤ, pos, ltb_ℤ, leb_ℤ, Option,
  none, some, arith,
}
use popper_pad.Values.{Json}
use popper_pad.Codec.{Crypto}
use popper_pad.Result.{Checked, refuse_when, when-ok, when-pass, then-ok, then-pass, ok-injective}
use popper_pad.Market.Types.{valid_ref}
use popper_pad.Receipts.{ref_tuple}
use popper_pad.Receipts.Laws.{texts_eq-eq, texts_eq_refl}
use popper_pad.Commit.Logical.{logical_authority_scope, scope_of_codes}
use popper_pad.Imports.Policy.{ImportTruthMode, key_ids, authority_scope_value}
use popper_pad.Imports.Admission.{
  ImportRequest, Admission, outside, is_missing, root_differs, predecessors_differ, scope_of,
  version_prefix, admit_checks, plan_of, receipt_of_import, admit_bundle_import, policy_hash_of,
}

-- What a policy asks of the predecessors.
abbrev pub AcceptsPredecessors : Option (List String) → List String → Type 0
AcceptsPredecessors none refs = Unit
AcceptsPredecessors (some expected) refs = expected ≡ refs

-- What a policy asks of an import.
pub record IsTrusted (r : ImportRequest) : Type 0 where
  pub refs :
      (valid_ref r.bundle_root && (valid_ref r.unsigned_bundle_root && valid_ref r.content_root))
      ≡ true
  pub previous : ref_tuple r.previous_bundle_refs ≡ true
  pub root :
      (not r.policy.require_bundle_root_match
        || option_eq r.policy.expected_bundle_root (some r.bundle_root))
      ≡ true
  pub signed : r.authenticated_signatures.unsigned_bundle_root ≡ r.unsigned_bundle_root
  pub predecessors :
      AcceptsPredecessors r.policy.expected_previous_bundle_refs r.previous_bundle_refs
  pub signers :
      all (contains (key_ids r.policy.trusted_signers)) r.authenticated_signatures.signer_key_ids
      ≡ true
  pub threshold :
      (not r.policy.require_signatures
        || leb_ℤ r.policy.minimum_signatures
            (pos (length r.authenticated_signatures.signer_key_ids)))
      ≡ true
  pub adapters :
      (is_empty r.policy.accept_adapters
        || (not (is_empty r.provenance.storage_adapters)
            && all (contains r.policy.accept_adapters) r.provenance.storage_adapters))
      ≡ true
  pub anchors : all (contains r.provenance.anchor_adapters) r.policy.require_anchors ≡ true

is_empty-outside :
    (accepted values : List String)
    → is_empty (outside accepted values) ≡ all (contains accepted) values
is_empty-outside accepted [] = refl
is_empty-outside accepted (v ∷ vs) = elim (Bool-cases (contains accepted v)) [
  | inl there ↦ rw there (is_empty-outside accepted vs)
  | inr absent ↦ rw absent refl
]

none_outside :
    (accepted values : List String)
    → not (is_empty (outside accepted values)) ≡ false
    → all (contains accepted) values ≡ true
none_outside accepted values h = sym (is_empty-outside accepted values) ∙ not-eq_false _ h

all_inside :
    (accepted values : List String)
    → all (contains accepted) values ≡ true
    → not (is_empty (outside accepted values)) ≡ false
all_inside accepted values h = ap not (is_empty-outside accepted values ∙ h)

root_matches :
    (require : Bool) (expected : Option String) (root : String)
    → ((require && is_missing expected) ≡ false) × ((require && root_differs expected root) ≡ false)
    → (not require || option_eq expected (some root)) ≡ true
unfolding root_differs option_eq
root_matches false expected root h = refl
root_matches true none root h = cc h.0
root_matches true (some e) root h = not-eq_false _ h.1

matches_root :
    (require : Bool) (expected : Option String) (root : String)
    → (not require || option_eq expected (some root)) ≡ true
    → ((require && is_missing expected) ≡ false) × ((require && root_differs expected root) ≡ false)
unfolding root_differs option_eq
matches_root false expected root h = (refl, refl)
matches_root true none root h = cc h
matches_root true (some e) root h = (refl, ap not h)

predecessors_agree :
    (expected : Option (List String)) (refs : List String)
    → predecessors_differ expected refs ≡ false
    → AcceptsPredecessors expected refs
unfolding predecessors_differ
predecessors_agree none refs h = tt
predecessors_agree (some e) refs h = texts_eq-eq e refs (not-eq_false _ h)

agree_predecessors :
    (expected : Option (List String)) (refs : List String)
    → AcceptsPredecessors expected refs
    → predecessors_differ expected refs ≡ false
unfolding predecessors_differ
agree_predecessors none refs h = refl
agree_predecessors (some e) refs h = rw h (ap not (texts_eq_refl refs))

enough :
    (require : Bool) (n m : ℤ) → (require && ltb_ℤ n m) ≡ false → (not require || leb_ℤ m n) ≡ true
enough false n m h = refl
enough true n m h = ground arith

not_few :
    (require : Bool) (n m : ℤ) → (not require || leb_ℤ m n) ≡ true → (require && ltb_ℤ n m) ≡ false
not_few false n m h = refl
not_few true n m h = ground arith

adapters_accepted :
    (any_adapter unstored inside : Bool)
    → ((not any_adapter && unstored) ≡ false) × ((not any_adapter && not inside) ≡ false)
    → (any_adapter || (not unstored && inside)) ≡ true
adapters_accepted a u i h = ground (arith, h.0, h.1)

accepted_adapters :
    (any_adapter unstored inside : Bool)
    → (any_adapter || (not unstored && inside)) ≡ true
    → ((not any_adapter && unstored) ≡ false) × ((not any_adapter && not inside) ≡ false)
accepted_adapters a u i h = (ground (arith, h), ground (arith, h))

when-passed :
    (b : Bool) (code : String) (details : Json)
    → refuse_when b code details ≡ Checked.ok tt
    → b ≡ false
unfolding refuse_when
when-passed true code details h = cc h
when-passed false code details h = refl

admit_checks-IsTrusted : (r : ImportRequest) → admit_checks r ≡ Checked.ok tt → IsTrusted r
unfolding admit_checks
admit_checks-IsTrusted r h =
    let (bundle, h1) = when-ok _ _ _ _ _ h in
    let (unsigned, h2) = when-ok _ _ _ _ _ h1 in
    let (content, h3) = when-ok _ _ _ _ _ h2 in
    let (previous, h4) = when-ok _ _ _ _ _ h3 in
    let (sorted, h5) = when-ok _ _ _ _ _ h4 in
    let (given, h6) = when-ok _ _ _ _ _ h5 in
    let (root, h7) = when-ok _ _ _ _ _ h6 in
    let (signed, h8) = when-ok _ _ _ _ _ h7 in
    let (predecessors, h9) = when-ok _ _ _ _ _ h8 in
    let (signers, h10) = when-ok _ _ _ _ _ h9 in
    let (threshold, h11) = when-ok _ _ _ _ _ h10 in
    let (stored, h12) = when-ok _ _ _ _ _ h11 in
    let (adapters, h13) = when-ok _ _ _ _ _ h12 in
    record {
      refs =
          and-intro _ _ (not-eq_false _ bundle)
            (and-intro _ _ (not-eq_false _ unsigned) (not-eq_false _ content));
      previous = and-intro _ _ (not-eq_false _ previous) (not-eq_false _ sorted);
      root =
          root_matches r.policy.require_bundle_root_match r.policy.expected_bundle_root
            r.bundle_root (given, root);
      signed = str_eq-eq _ _ (not-eq_false _ signed);
      predecessors =
          predecessors_agree r.policy.expected_previous_bundle_refs r.previous_bundle_refs
            predecessors;
      signers = none_outside _ _ signers;
      threshold =
          enough r.policy.require_signatures
            (pos (length r.authenticated_signatures.signer_key_ids)) r.policy.minimum_signatures
            threshold;
      adapters = adapters_accepted _ _ _ (
        stored,
        ap (λ b. not (is_empty r.policy.accept_adapters) && not b)
              (sym (is_empty-outside r.policy.accept_adapters r.provenance.storage_adapters))
            ∙ adapters,
      );
      anchors = none_outside _ _ (when-passed _ _ _ h13);
    }

IsTrusted-admit_checks : (r : ImportRequest) → IsTrusted r → admit_checks r ≡ Checked.ok tt
unfolding admit_checks refuse_when
IsTrusted-admit_checks r h =
    let (bundle, more) = and-true _ _ h.refs in
    let (unsigned, content) = and-true _ _ more in
    let (previous, sorted) = and-true _ _ h.previous in
    let (given, root) =
      matches_root r.policy.require_bundle_root_match r.policy.expected_bundle_root r.bundle_root
        h.root in
    let (stored, adapters) = accepted_adapters _ _ _ h.adapters in
    when-pass _ _ _ _ (ap not bundle)
    ∙ when-pass _ _ _ _ (ap not unsigned)
    ∙ when-pass _ _ _ _ (ap not content)
    ∙ when-pass _ _ _ _ (ap not previous)
    ∙ when-pass _ _ _ _ (ap not sorted)
    ∙ when-pass _ _ _ _ given
    ∙ when-pass _ _ _ _ root
    ∙ when-pass _ _ _ _ (
        ap (λ x. not (str_eq r.authenticated_signatures.unsigned_bundle_root x)) (sym h.signed)
        ∙ ap not (str_eq_refl r.authenticated_signatures.unsigned_bundle_root))
    ∙ when-pass _ _ _ _ (
        agree_predecessors r.policy.expected_previous_bundle_refs r.previous_bundle_refs
          h.predecessors)
    ∙ when-pass _ _ _ _ (all_inside _ _ h.signers)
    ∙ when-pass _ _ _ _ (
        not_few r.policy.require_signatures (pos (length r.authenticated_signatures.signer_key_ids))
          r.policy.minimum_signatures h.threshold)
    ∙ when-pass _ _ _ _ stored
    ∙ when-pass _ _ _ _ (
        ap (λ b. not (is_empty r.policy.accept_adapters) && not b)
          (is_empty-outside r.policy.accept_adapters r.provenance.storage_adapters)
        ∙ adapters)
    ∙ rw (all_inside _ _ h.anchors) refl

scope_known :
    (mode : ImportTruthMode) (hash : String)
    → logical_authority_scope (version_prefix mode ⊕ ("/" ⊕ hash))
      ≡ some (authority_scope_value (scope_of mode))
unfolding logical_authority_scope scope_of_codes
scope_known ImportTruthMode.quarantined hash =
    ap scope_of_codes (codes-append "popperpad-import-policy/v2/quarantined" ("/" ⊕ hash))
scope_known ImportTruthMode.trusted_receipt hash = ap scope_of_codes (
    codes-append "popperpad-import-policy/v2/trusted-receipt" ("/" ⊕ hash)
    ∙ ap (◌++◌ (codes "popperpad-import-policy/v2/trusted-receipt")) (codes-append "/" hash))

module _ (crypto : Crypto) where
  -- What an admission of the request carries.
  abbrev pub admission_of : ImportRequest → Admission
  admission_of r = record { plan = plan_of crypto r; receipt = receipt_of_import crypto r }

  -- A bundle is admitted, with the plan and the receipt of the request, exactly if its roots are refs, the
  -- root is the one that the policy expects, the signatures are for its unsigned root, by trusted
  -- signers only and by as many as the policy asks for, the predecessors are those expected, and the
  -- storage adapters and the anchors are as the policy asks.
  pub admit_bundle_import-IsTrusted :
      (r : ImportRequest)
      → (admit_bundle_import crypto r ≡ Checked.ok (admission_of r)) ↔ IsTrusted r
  unfolding admit_bundle_import
  admit_bundle_import-IsTrusted r = (
    λ h. admit_checks-IsTrusted r (then-ok (admit_checks r) _ _ h).0,
    λ h. then-pass _ _ (IsTrusted-admit_checks r h),
  )

  -- The commit of an admitted bundle, under the version text of its plan, has the authority that the plan
  -- names: trusted only where the policy is in trusted_receipt mode, else quarantined.
  pub admit_bundle_import-logical_authority_scope :
      (r : ImportRequest) (a : Admission)
      → admit_bundle_import crypto r ≡ Checked.ok a
      → (logical_authority_scope a.plan.policy_version
          ≡ some (authority_scope_value a.plan.authority_scope))
        × (a.plan.authority_scope ≡ scope_of r.policy.truth_mode)
  unfolding admit_bundle_import plan_of
  admit_bundle_import-logical_authority_scope r a h =
      let (passed, made) = then-ok (admit_checks r) _ a h in
      subst
        (λ x.
          (logical_authority_scope x.plan.policy_version
            ≡ some (authority_scope_value x.plan.authority_scope))
          × (x.plan.authority_scope ≡ scope_of r.policy.truth_mode))
        (ok-injective _ a made)
        (scope_known r.policy.truth_mode (policy_hash_of crypto r.policy), refl)
