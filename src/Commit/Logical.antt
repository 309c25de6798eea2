-- ===== src/Commit/Logical.antt =====
-- `logical_authority_scope` and `CommitBundle.logical_records` of src/popperpad/core/commit.py: the rows
-- of the log that a commit stands for, with the authority of their objects.
use popper_pad.Prelude.{
  ℕ, All-append, if◌then◌else◌, ◌≡◌, refl, ap, sym, Option, none, some, List, [], ◌∷◌, ◌++◌, map,
  String, codes, drop_prefix, str_eq, All, Option-cases, inl, inr,
}
use popper_pad.Values.{Json, null, str, obj, dict}
use popper_pad.Commit.Types.{ObjectWrite, BlobWrite, CommitBundle}
use popper_pad.Commit.Parse.{get}

-- `logical_authority_scope` on the code points of the version of a policy; `drop_prefix` gives something
-- where `startswith` holds.
unfoldable pub scope_of_codes : List ℕ → Option String
scope_of_codes cs = elim (drop_prefix (codes "popperpad-import-policy/") cs) [
  | none ↦ none
  | some _ ↦ elim (drop_prefix (codes "popperpad-import-policy/v2/trusted-receipt/") cs) [
    | some _ ↦ some "import_trusted_receipt"
    | none ↦ some "import_quarantined"
  ]
]

unfoldable pub logical_authority_scope : String → Option String
logical_authority_scope policy_version = scope_of_codes (codes policy_version)

-- `record[key]`
unfoldable pub field_of : Json → String → Json
unfolding get
field_of (obj fs) key = elim (get fs key) [ some v ↦ v | none ↦ null ]
field_of _ key = null

abbrev pub scope_fields : Option String → List (String × Json)
scope_fields none = []
scope_fields (some scope) = ("authority_scope", str scope) ∷ []

unfoldable pub object_record : CommitBundle → ObjectWrite → Json
object_record b w = dict (
    ("schema", str "popperpad/log_record/v1")
    ∷ ("op", str "add_object")
    ∷ ("created_at", field_of b.row "created_at")
    ∷ ("obj_ref", str w.ref)
    ∷ ("obj_schema", str w.schema)
    ∷ ("commit_record_hash", str b.record_hash)
    ∷ scope_fields (logical_authority_scope b.receipt.policy_version))

unfoldable pub blob_record : CommitBundle → BlobWrite → Json
blob_record b w = dict (
    ("schema", str "popperpad/log_record/v1")
    ∷ ("op", str "add_blob")
    ∷ ("created_at", field_of b.row "created_at")
    ∷ ("blob_ref", str w.ref)
    ∷ ("media_type", str w.media_type)
    ∷ ("commit_record_hash", str b.record_hash)
    ∷ [])

-- `CommitBundle.logical_records`
unfoldable pub logical_records : CommitBundle → List Json
logical_records b = map (object_record b) b.objects ++ map (blob_record b) b.blobs

-- The value of an entry of a row, if it has the entry.
abbrev pub lookup : Json → String → Option Json
lookup (obj fs) key = get fs key
lookup _ key = none

abbrev pub text_of : Option String → Option Json
text_of none = none
text_of (some s) = some (str s)

-- The scope that a row should carry by its operation: objects carry that of the policy, blobs none.
abbrev pub due_scope : CommitBundle → Option Json → Option Json
due_scope b (some (str op)) =
    if str_eq op "add_object"
    then text_of (logical_authority_scope b.receipt.policy_version)
    else none
due_scope b _ = none

-- A row that names its commit and carries the due scope.
pub record IsScoped (b : CommitBundle) (row : Json) : Type 0 where
  pub named : lookup row "commit_record_hash" ≡ some (str b.record_hash)
  pub scoped : lookup row "authority_scope" ≡ due_scope b (lookup row "op")

pub object_record-IsScoped : (b : CommitBundle) (w : ObjectWrite) → IsScoped b (object_record b w)
unfolding object_record get dict str_eq
object_record-IsScoped b w =
    elim (Option-cases (logical_authority_scope b.receipt.policy_version)) [
      | inl e ↦ record { named = rw e refl; scoped = rw e (sym (ap text_of e)) }
      | inr (scope, e) ↦ record { named = rw e refl; scoped = rw e (sym (ap text_of e)) }
    ]

pub object_due :
    (b : CommitBundle) (w : ObjectWrite)
    → due_scope b (lookup (object_record b w) "op")
      ≡ text_of (logical_authority_scope b.receipt.policy_version)
unfolding object_record get dict str_eq
object_due b w = elim (Option-cases (logical_authority_scope b.receipt.policy_version)) [
  | inl e ↦ rw e (ap text_of e)
  | inr (scope, e) ↦ rw e (ap text_of e)
]

blob_record-IsScoped : (b : CommitBundle) (w : BlobWrite) → IsScoped b (blob_record b w)
unfolding blob_record get dict str_eq
blob_record-IsScoped b w = record { named = refl; scoped = refl }

All-map {ℓ κ μ} :
    {A : Type ℓ} {B : Type κ} (P : B → Type μ) (f : A → B) (xs : List A)
    → ((x : A) → P (f x))
    → All P (map f xs)
All-map P f [] h = tt
All-map P f (x ∷ xs) h = (h x, All-map P f xs h)

-- Each row of the log that a commit stands for names the hash of the commit's record; a row of an object
-- carries the authority that the policy of the commit gives, and a row of a blob none.
pub logical_records-IsScoped : (b : CommitBundle) → All (IsScoped b) (logical_records b)
unfolding logical_records
logical_records-IsScoped b =
    All-append (IsScoped b) (map (object_record b) b.objects) (map (blob_record b) b.blobs)
      (All-map (IsScoped b) (object_record b) b.objects (object_record-IsScoped b))
      (All-map (IsScoped b) (blob_record b) b.blobs (blob_record-IsScoped b))
