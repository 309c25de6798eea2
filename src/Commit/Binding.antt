-- ===== src/Commit/Binding.antt =====
-- What the plan of a commit and its validation in src/popperpad/core/commit.py bind together.
use popper_pad.Prelude.{
  ℕ, ◌≡◌, ap, ◌∙◌, sym, subst, any, not, true, false, not-eq_false, and-true, or-false,
  Option-cases, inl, inr, List, [], ◌∷◌, ◌++◌, String, str_eq-eq, All,
}
use popper_pad.Values.Equality.{json_eq}
use popper_pad.Codec.{Crypto, sha256_bytes}
use popper_pad.Result.{Checked, ok-injective, when-ok, bind-ok}
use popper_pad.Market.Ids.{Distinct}
use popper_pad.Commit.Types.{CommitBundle, ValidatedCommitRecord}
use popper_pad.Commit.Derive.{Candidate, Derived, derived_of, derive_commit_record}
use popper_pad.Commit.Validate.{
  parse_record, derive_again, validate_commit_record, bundle_agrees, is_content,
  validate_commit_bundle,
}
use popper_pad.Commit.Plan.{Planned, Request, object_refs, blob_refs, plan_request}
use popper_pad.Commit.Collected.{collect_writes-IsCollected, plan_request-bundle, derive-some}

content-All {ℓ} :
    {A : Type ℓ} (crypto : Crypto) (ref : A → String) (payload : A → List ℕ) (ws : List A)
    → any (λ w. not (is_content crypto (ref w) (payload w))) ws ≡ false
    → All (λ w. ref w ≡ sha256_bytes crypto (payload w)) ws
content-All crypto ref payload [] h = tt
content-All crypto ref payload (w ∷ ws) h =
    let (here, later) = or-false _ _ h in
    (sym (str_eq-eq _ _ (not-eq_false _ here)), content-All crypto ref payload ws later)

module _ (crypto : Crypto) where
  -- Each write of the bundle is stored under the hash of its content.
  pub record IsAddressed (b : CommitBundle) : Type 0 where
    pub objects : All (λ w. w.ref ≡ sha256_bytes crypto w.payload) b.objects
    pub blobs : All (λ w. w.ref ≡ sha256_bytes crypto w.payload) b.blobs

  -- The record of the bundle is the one that its own fields give, and the bundle has its hash and head.
  pub record IsBound (b : CommitBundle) (v : ValidatedCommitRecord) : Type 0 where
    pub addressed : IsAddressed b
    pub candidate : Candidate
    pub parsed : parse_record false b.row ≡ Checked.ok candidate
    pub derived : json_eq (derived_of crypto candidate).row b.row ≡ true
    pub hash : b.record_hash ≡ (derived_of crypto candidate).record_hash
    pub head : b.expected_head ≡ candidate.expected_head
    pub same : v.record_hash ≡ b.record_hash

  again-derived :
      (c : Candidate) (d : Derived) → derive_again crypto c ≡ Checked.ok d → derived_of crypto c ≡ d
  unfolding derive_again
  again-derived c d h = elim (Option-cases (derive_commit_record crypto c)) [
    | inl missing ↦ cc (rw (missing, derive_again) at h)
    | inr (e, there) ↦
        let (policy, core, same) = derive-some crypto c e there in
        same ∙ ok-injective e d (rw (there, derive_again) at h)
  ]

  -- A bundle that `validate_commit_bundle` accepts stores each payload under its hash, and its record
  -- is, up to Python's equality, the one that is derived from the fields of the record itself; the
  -- bundle names the hash and the head of that record.
  pub validate_commit_bundle-IsBound :
      (b : CommitBundle) (v : ValidatedCommitRecord)
      → validate_commit_bundle crypto b ≡ Checked.ok v
      → IsBound b v
  unfolding validate_commit_bundle validate_commit_record bundle_agrees
  validate_commit_bundle-IsBound b v h =
      let (u, valid, h1) = bind-ok (validate_commit_record crypto b.row false) _ v h in
      let (content, h2) = when-ok _ _ _ _ _ h1 in
      let (agrees, h3) = when-ok _ _ _ _ _ h2 in
      let (c, parsed, k1) = bind-ok (parse_record false b.row) _ u valid in
      let (d, again, k2) = bind-ok (derive_again crypto c) _ u k1 in
      let (same_row, k3) = when-ok _ _ _ _ _ k2 in
      let (objects_ok, blobs_ok) = or-false _ _ content in
      let derived = again-derived c d again in
      let made = ok-injective _ u k3 in
      let (head_ok, more) = and-true _ _ (not-eq_false _ agrees) in
      let (root_ok, more2) = and-true _ _ more in
      let (hash_ok, more3) = and-true _ _ more2 in
      let hash = str_eq-eq _ _ hash_ok in
      record {
        addressed = record {
          objects = content-All crypto (λ w. w.ref) (λ w. w.payload) b.objects objects_ok;
          blobs = content-All crypto (λ w. w.ref) (λ w. w.payload) b.blobs blobs_ok;
        };
        candidate = c;
        parsed = parsed;
        derived = ap (λ x. json_eq x.row b.row) derived ∙ not-eq_false _ same_row;
        hash = hash ∙ sym (ap (λ x. x.record_hash) made) ∙ sym (ap (λ x. x.record_hash) derived);
        head = str_eq-eq _ _ head_ok ∙ sym (ap (λ x. x.expected_head) made);
        same = sym (ap (λ x. x.record_hash) (ok-injective u v h3)) ∙ sym hash;
      }

  -- The writes of a bundle that `_plan_commit` returns are stored under the hashes of their contents,
  -- and no two of them, objects or blobs, have the same ref.
  pub plan_request-IsAddressed :
      (r : Request) (b : CommitBundle)
      → plan_request crypto r ≡ Planned.bundle b
      → IsAddressed b × Distinct (object_refs b.objects ++ blob_refs b.blobs)
  plan_request-IsAddressed r b h =
      let (w, collected, policy, core, same) = plan_request-bundle crypto r b h in
      let good = collect_writes-IsCollected crypto r w collected in
      subst (λ x. IsAddressed x × Distinct (object_refs x.objects ++ blob_refs x.blobs)) same
        (record { objects = good.object_content; blobs = good.blob_content }, good.distinct)
