-- ===== src/Commit/Collected.antt =====
-- What `_plan_commit` of src/popperpad/core/commit.py has tested when it returns a bundle.

use mathlib.Core.Option.{some-injective}
use popper_pad.Prelude.{
  ℕ, ◌≡◌, refl, ap, ◌∙◌, sym, subst, any, is_nonempty, not, Bool, true, false, ◌&&◌, ◌||◌,
  not-eq_false, and-true, Bool-cases, Option-cases, inl, inr, List, [], ◌∷◌, ◌++◌, String, str_eq,
  str_eq_refl, All, All-append, map-append, arith, none, some,
}
use popper_pad.Codec.{Crypto, sha256_bytes}
use popper_pad.Result.{Checked, ok-injective, when-ok, then-ok, bind-ok, Checked-split}
use popper_pad.Market.Ids.{Distinct}
use popper_pad.Commit.Types.{CommitBundle, valid_root}
use popper_pad.Commit.Derive.{Candidate, Derived, derived_of, derive_commit_record}
use popper_pad.Commit.Validate.{derive_again, is_content}
use popper_pad.Commit.Plan.{
  Planned, Request, Collected, collect_writes, candidate_of, bundle_of, plan_prevalidated,
  plan_objects, plan_blobs, check_intents, object_refs, blob_refs, plan_request,
}
use popper_pad.Commit.Writes.{
  IsIntent, Distinct-new, plan_prevalidated-AreObjects, plan_objects-AreObjects,
  plan_blobs-AreBlobs, check_intents-IsIntent,
}

valid_evidence : (b c : Bool) → (b && not (not b || c)) ≡ false → (not b || c) ≡ true
valid_evidence b c h = ground arith

pub or_none : {a b : Bool} → a ≡ false → b ≡ false → (a || b) ≡ false
or_none h k = rw (h, k) refl

from_bundle : CommitBundle → Planned → CommitBundle
from_bundle a (Planned.bundle b) = b
from_bundle a _ = a

pub content_any {ℓ} :
    {A : Type ℓ} (crypto : Crypto) (ref : A → String) (payload : A → List ℕ) (ws : List A)
    → All (λ w. ref w ≡ sha256_bytes crypto (payload w)) ws
    → any (λ w. not (is_content crypto (ref w) (payload w))) ws ≡ false
content_any crypto ref payload [] h = refl
content_any crypto ref payload (w ∷ ws) h =
    or_none
      (ap not (
        ap (str_eq (sha256_bytes crypto (payload w))) h.0
        ∙ str_eq_refl (sha256_bytes crypto (payload w))))
      (content_any crypto ref payload ws h.1)

absurd_none {κ} : {P : Type κ} (d : Derived) → none ≡ some d → P
absurd_none d h = cc h

bundle-injective : (a b : CommitBundle) → Planned.bundle a ≡ Planned.bundle b → a ≡ b
unfolding from_bundle
bundle-injective a b e = ap (from_bundle a) e

module _ (crypto : Crypto) where
  -- What `_plan_commit` has tested before it derives the record.
  pub record IsCollected (r : Request) (w : Collected) : Type 0 where
    pub started : valid_root r.expected_head ≡ true
    pub created : is_nonempty r.created_at ≡ true
    pub evidence : valid_root r.evidence_root ≡ true
    pub object_content : All (λ x. x.ref ≡ sha256_bytes crypto x.payload) w.objects
    pub object_named : All (λ x. is_nonempty x.schema ≡ true) w.objects
    pub blob_content : All (λ x. x.ref ≡ sha256_bytes crypto x.payload) w.blobs
    pub blob_named : All (λ x. is_nonempty x.media_type ≡ true) w.blobs
    pub distinct : Distinct (object_refs w.objects ++ blob_refs w.blobs)
    pub intents : All IsIntent r.outbox

  pub collect_writes-IsCollected :
      (r : Request) (w : Collected) → collect_writes crypto r ≡ Checked.ok w → IsCollected r w
  unfolding collect_writes
  collect_writes-IsCollected r w h =
      let (head_ok, h1) = when-ok _ _ _ _ _ h in
      let (created_ok, h2) = when-ok _ _ _ _ _ h1 in
      let (evidence_ok, h3) = when-ok _ _ _ _ _ h2 in
      let (first, e1, h4) = bind-ok (plan_prevalidated crypto [] r.prevalidated_objects) _ w h3 in
      let (second, e2, h5) = bind-ok (plan_objects crypto (object_refs first) r.objects) _ w h4 in
      let (blobs, e3, h6) =
        bind-ok (plan_blobs crypto (object_refs (first ++ second)) r.blobs) _ w h5 in
      let (checked, h7) = then-ok (check_intents r.outbox) _ w h6 in
      let one = (plan_prevalidated-AreObjects crypto [] r.prevalidated_objects).holds first e1 in
      let two = (plan_objects-AreObjects crypto (object_refs first) r.objects).holds second e2 in
      let three =
        (plan_blobs-AreBlobs crypto (object_refs (first ++ second)) r.blobs).holds blobs e3 in
      let refs = map-append (λ x. x.ref) first second in
      subst (IsCollected r) (ok-injective _ w h7) (record {
        started = not-eq_false _ head_ok;
        created = not-eq_false _ created_ok;
        evidence = valid_evidence _ _ evidence_ok;
        object_content = All-append _ first second one.content two.content;
        object_named = All-append _ first second one.named two.named;
        blob_content = three.content;
        blob_named = three.named;
        distinct =
            Distinct-new (object_refs (first ++ second)) (blob_refs blobs)
              (subst Distinct (sym refs) (
                Distinct-new (object_refs first) (object_refs second)
                  (Distinct-new [] (object_refs first) tt one.new) two.new))
              three.new;
        intents = check_intents-IsIntent r.outbox checked;
      })

  -- The two ways of the derivation.
  pub derive-some :
      (c : Candidate) (d : Derived)
      → derive_commit_record crypto c ≡ some d
      → (is_nonempty c.policy_version ≡ true)
        × (is_nonempty c.core_version ≡ true)
        × (derived_of crypto c ≡ d)
  unfolding derive_commit_record
  derive-some c d h =
      elim (Bool-cases (is_nonempty c.policy_version && is_nonempty c.core_version)) [
        | inl both ↦
            let (policy, core) = and-true _ _ both in
            (policy, core, some-injective _ _ (rw both at h))
        | inr missing ↦ absurd_none d (rw missing at h)
      ]

  pub derive_again-some :
      (r : Request) (w : Collected)
      → is_nonempty r.policy_version ≡ true
      → is_nonempty r.core_version ≡ true
      → derive_again crypto (candidate_of r w) ≡ Checked.ok (derived_of crypto (candidate_of r w))
  unfolding derive_again derive_commit_record candidate_of
  derive_again-some r w policy core = rw (policy, core, derive_again, derive_commit_record) refl

  -- What a bundle is that the plan returns.
  pub plan_request-bundle :
      (r : Request) (b : CommitBundle)
      → plan_request crypto r ≡ Planned.bundle b
      → (w : Collected) × (collect_writes crypto r ≡ Checked.ok w)
        × (is_nonempty r.policy_version ≡ true)
        × (is_nonempty r.core_version ≡ true)
        × (bundle_of r w (derived_of crypto (candidate_of r w)) ≡ b)
  unfolding plan_request candidate_of
  plan_request-bundle r b h = elim (Checked-split (collect_writes crypto r)) [
    | inr (code, details, e) ↦ cc (rw (e, plan_request) at h)
    | inl (w, e) ↦ elim (Option-cases (derive_commit_record crypto (candidate_of r w))) [
      | inl missing ↦ cc (rw (e, missing, plan_request) at h)
      | inr (d, there) ↦
          let (policy, core, same) = derive-some (candidate_of r w) d there in
          (
            w,
            e,
            policy,
            core,
            ap (bundle_of r w) same ∙ bundle-injective _ b (rw (e, there, plan_request) at h),
          )
    ]
  ]
