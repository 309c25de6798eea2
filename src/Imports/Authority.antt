-- ===== src/Imports/Authority.antt =====
-- From the admission of a bundle in src/popperpad/core/imports.py to the rows of the log of its commit in
-- src/popperpad/core/commit.py.
use popper_pad.Prelude.{ℕ, ◌≡◌, ap, ◌∙◌, sym, All, List, [], ◌∷◌, String, some}
use popper_pad.Values.{str}
use popper_pad.Codec.{Crypto}
use popper_pad.Result.{Checked}
use popper_pad.Commit.Types.{CommitBundle}
use popper_pad.Commit.Derive.{derived_of, receipt_of}
use popper_pad.Commit.Plan.{Planned, Request, candidate_of, plan_request, plan_prevalidated_commit}
use popper_pad.Commit.Collected.{plan_request-bundle}
use popper_pad.Commit.Logical.{
  logical_authority_scope, lookup, object_record, text_of, object_due, object_record-IsScoped,
}
use popper_pad.Imports.Policy.{authority_scope_value}
use popper_pad.Imports.Admission.{ImportRequest, Admission, admit_bundle_import, scope_of}
use popper_pad.Imports.Laws.{admit_bundle_import-logical_authority_scope}

All-intro {ℓ κ} : {A : Type ℓ} (P : A → Type κ) (xs : List A) → ((x : A) → P x) → All P xs
All-intro P [] h = tt
All-intro P (x ∷ xs) h = (h x, All-intro P xs h)

module _ (crypto : Crypto) where
  planned-policy_version :
      (r : Request) (b : CommitBundle)
      → plan_request crypto r ≡ Planned.bundle b
      → b.receipt.policy_version ≡ r.policy_version
  unfolding derived_of receipt_of candidate_of
  planned-policy_version r b h =
      let (w, collected, policy, core, same) = plan_request-bundle crypto r b h in
      sym (ap (λ x. x.receipt.policy_version) same)

  -- In the log rows of a commit that is planned under the version text of an admitted import, each object
  -- carries the authority of the policy's truth mode: `import_trusted_receipt` in trusted_receipt mode, and
  -- otherwise `import_quarantined`.
  pub plan_prevalidated_commit-scope :
      (r : ImportRequest) (a : Admission) (expected_head created_at : String)
      (objects blobs : List (List ℕ × String)) (evidence_root core_version : String)
      (b : CommitBundle)
      → admit_bundle_import crypto r ≡ Checked.ok a
      → plan_prevalidated_commit crypto expected_head created_at objects blobs evidence_root
          a.plan.policy_version core_version
        ≡ Planned.bundle b
      → All
          (λ w.
            lookup (object_record b w) "authority_scope"
            ≡ some (str (authority_scope_value (scope_of r.policy.truth_mode))))
          b.objects
  unfolding plan_prevalidated_commit
  plan_prevalidated_commit-scope r a expected_head created_at objects blobs evidence_root
        core_version b h p =
      let (scoped, mode) = admit_bundle_import-logical_authority_scope crypto r a h in
      All-intro _ b.objects λ w.
        (object_record-IsScoped b w).scoped
        ∙ object_due b w
        ∙ ap (λ v. text_of (logical_authority_scope v)) (planned-policy_version _ b p)
        ∙ ap text_of scoped
        ∙ ap (λ s. some (str (authority_scope_value s))) mode
