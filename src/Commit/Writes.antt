-- ===== src/Commit/Writes.antt =====
-- What the loops of `_plan_commit` guarantee of the writes they collect.
use popper_pad.Prelude.{
  ℕ, ◌≡◌, refl, ◌∙◌, contains, is_nonempty, map, true, false, not-eq_false, List, [], ◌∷◌, ◌++◌,
  String, str_eq_iff, str_eq_refl, All, arith,
}
use popper_pad.Values.{Json}
use popper_pad.Codec.{Crypto, json_bytes, sha256_bytes}
use popper_pad.Result.{Checked, ◌>>=◌, OnOk, ok-OnOk, when-OnOk, bind-OnOk, when-ok}
use popper_pad.Market.Ids.{Distinct, contains-append}
use popper_pad.Commit.Types.{ObjectWrite, BlobWrite}
use popper_pad.Commit.Parse.{is_object}
use popper_pad.Commit.Plan.{
  freeze_payload, plan_prevalidated, plan_objects, plan_blobs, check_intents,
}

-- Each text is new after `seen` and the texts before it.
abbrev pub IsNew : List String → List String → Type 0
IsNew seen [] = Unit
IsNew seen (x ∷ xs) = (contains seen x ≡ false) × IsNew (x ∷ seen) xs

IsNew-seen :
    (seen xs : List String) (id : String)
    → IsNew seen xs
    → contains seen id ≡ true
    → contains xs id ≡ false
IsNew-seen seen [] id new h = refl
IsNew-seen seen (x ∷ xs) id new h =
    let later = IsNew-seen (x ∷ seen) xs id new.1 (ground (arith, h)) in
    ground (arith, later, new.0, h, str_eq_iff id x)

IsNew-Distinct : (seen xs : List String) → IsNew seen xs → Distinct xs
IsNew-Distinct seen [] new = tt
IsNew-Distinct seen (x ∷ xs) new = (
  IsNew-seen (x ∷ seen) xs x new.1 (ground (arith, str_eq_refl x)),
  IsNew-Distinct (x ∷ seen) xs new.1,
)

Distinct-append :
    (xs ys : List String)
    → Distinct xs
    → Distinct ys
    → ((id : String) → contains xs id ≡ true → contains ys id ≡ false)
    → Distinct (xs ++ ys)
Distinct-append [] ys dx dy apart = dy
Distinct-append (x ∷ xs) ys dx dy apart = (
  contains-append xs ys x ∙ ground (arith, dx.0, apart x (ground (arith, str_eq_refl x))),
  Distinct-append xs ys dx.1 dy λ id h. apart id (ground (arith, h)),
)

-- New texts after distinct ones.
pub Distinct-new : (seen xs : List String) → Distinct seen → IsNew seen xs → Distinct (seen ++ xs)
Distinct-new seen xs d new =
    Distinct-append seen xs d (IsNew-Distinct seen xs new) λ id h. IsNew-seen seen xs id new h

module _ (crypto : Crypto) where
  -- Writes that carry the hash of their content and a label, with refs that are new after `seen`.
  pub record IsPlan {A : Type 0} (ref label : A → String) (payload : A → List ℕ)
      (seen : List String) (ws : List A) : Type 0 where
    pub new : IsNew seen (map ref ws)
    pub content : All (λ w. ref w ≡ sha256_bytes crypto (payload w)) ws
    pub named : All (λ w. is_nonempty (label w) ≡ true) ws

  abbrev pub AreObjects : List String → List ObjectWrite → Type 0
  AreObjects = IsPlan (λ w. w.ref) (λ w. w.schema) (λ w. w.payload)

  abbrev pub AreBlobs : List String → List BlobWrite → Type 0
  AreBlobs = IsPlan (λ w. w.ref) (λ w. w.media_type) (λ w. w.payload)

  -- One more write in front.
  IsPlan-cons :
      {A : Type 0} (ref label : A → String) (payload : A → List ℕ) (seen : List String) (w : A)
      (m : Checked (List A))
      → ref w ≡ sha256_bytes crypto (payload w)
      → is_nonempty (label w) ≡ true
      → contains seen (ref w) ≡ false
      → OnOk (IsPlan ref label payload (ref w ∷ seen)) m
      → OnOk (IsPlan ref label payload seen) (m >>= λ ws. Checked.ok (w ∷ ws))
  IsPlan-cons ref label payload seen w m content named new later = bind-OnOk m _ λ ws e. ok-OnOk _ (
      let rest = later.holds ws e in
      record {
        new = (new, rest.new);
        content = (content, rest.content);
        named = (named, rest.named);
      })

  pub plan_prevalidated-AreObjects :
      (seen : List String) (items : List (List ℕ × String))
      → OnOk (AreObjects seen) (plan_prevalidated crypto seen items)
  unfolding plan_prevalidated
  plan_prevalidated-AreObjects seen [] = ok-OnOk _ (record { new = tt; content = tt; named = tt })
  plan_prevalidated-AreObjects seen ((payload, schema) ∷ rest) = when-OnOk _ _ _ _ λ named.
      when-OnOk _ _ _ _ λ new.
        IsPlan-cons (λ w. w.ref) (λ w. w.schema) (λ w. w.payload) seen _ _ refl
          (not-eq_false _ named) new
          (plan_prevalidated-AreObjects (sha256_bytes crypto payload ∷ seen) rest)

  pub plan_objects-AreObjects :
      (seen : List String) (items : List Json)
      → OnOk (AreObjects seen) (plan_objects crypto seen items)
  unfolding plan_objects freeze_payload
  plan_objects-AreObjects seen [] = ok-OnOk _ (record { new = tt; content = tt; named = tt })
  plan_objects-AreObjects seen (raw ∷ rest) = when-OnOk _ _ _ _ λ mapping.
      when-OnOk _ _ _ _ λ named. when-OnOk _ _ _ _ λ new.
        IsPlan-cons (λ w. w.ref) (λ w. w.schema) (λ w. w.payload) seen _ _ refl
          (not-eq_false _ named) new
          (plan_objects-AreObjects (sha256_bytes crypto (json_bytes raw) ∷ seen) rest)

  pub plan_blobs-AreBlobs :
      (seen : List String) (items : List (List ℕ × String))
      → OnOk (AreBlobs seen) (plan_blobs crypto seen items)
  unfolding plan_blobs
  plan_blobs-AreBlobs seen [] = ok-OnOk _ (record { new = tt; content = tt; named = tt })
  plan_blobs-AreBlobs seen ((payload, media_type) ∷ rest) = when-OnOk _ _ _ _ λ named.
      when-OnOk _ _ _ _ λ new.
        IsPlan-cons (λ w. w.ref) (λ w. w.media_type) (λ w. w.payload) seen _ _ refl
          (not-eq_false _ named) new (plan_blobs-AreBlobs (sha256_bytes crypto payload ∷ seen) rest)

-- An intent of the outbox that the plan accepts.
abbrev pub IsIntent : String × Json → Type 0
IsIntent (kind, payload) = (is_nonempty kind ≡ true) × (is_object payload ≡ true)

pub check_intents-IsIntent :
    (intents : List (String × Json)) → check_intents intents ≡ Checked.ok tt → All IsIntent intents
unfolding check_intents freeze_payload
check_intents-IsIntent [] h = tt
check_intents-IsIntent ((kind, payload) ∷ rest) h =
    let (named, h1) = when-ok _ _ _ _ _ h in
    let (mapping, h2) = when-ok _ _ _ _ _ h1 in
    ((not-eq_false _ named, not-eq_false _ mapping), check_intents-IsIntent rest h2)
