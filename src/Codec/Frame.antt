-- ===== src/Codec/Frame.antt =====
-- The frame that src/popperpad/core/codec.py puts before a payload keeps domains apart.
use mathlib.Core.Path.{ap₂}
use mathlib.Core.Option.{some-injective}
use popper_pad.Prelude.{
  ℕ, ◌/◌, ◌%◌, ◌≡◌, ◌∙◌, refl, ap, sym, ltb, ltb-false, Bool, Bool-cases, inl, inr, true, false,
  not, ◌&&◌, ◌==◌, any, is_nonempty, some, List, [], ◌∷◌, ◌++◌, String, codes, length, arith,
}
use popper_pad.Values.{Json}
use popper_pad.Codec.{
  Crypto, utf8, domain_prefix, domain_frame, domain_ok, domain_sha256, text_encodes, encodes,
  frame_bytes, frame_sha256, json_bytes, json_hash, canonical_json_bytes, canonical_hash,
}

head_or : {A : Type 0} → A → List A → A
head_or a [] = a
head_or a (x ∷ xs) = x

tail : {A : Type 0} → List A → List A
tail [] = []
tail (x ∷ xs) = xs

cons-injective : {A : Type 0} (x y : A) (xs ys : List A) → x ∷ xs ≡ y ∷ ys → (x ≡ y) × (xs ≡ ys)
unfolding head_or tail
cons-injective x y xs ys e = (ap (head_or x) e, ap tail e)

append-cancel : {A : Type 0} (ps xs ys : List A) → ps ++ xs ≡ ps ++ ys → xs ≡ ys
append-cancel [] xs ys e = e
append-cancel (p ∷ ps) xs ys e =
    append-cancel ps xs ys (cons-injective p p (ps ++ xs) (ps ++ ys) e).1

append-split :
    {A : Type 0} (xs ys ps qs : List A)
    → length xs ≡ length ys
    → xs ++ ps ≡ ys ++ qs
    → (xs ≡ ys) × (ps ≡ qs)
append-split [] [] ps qs same e = (refl, e)
append-split [] (y ∷ ys) ps qs same e = cc same
append-split (x ∷ xs) [] ps qs same e = cc same
append-split (x ∷ xs) (y ∷ ys) ps qs same e =
    let (first, rest) = cons-injective x y (xs ++ ps) (ys ++ qs) e in
    let (more, left) = append-split xs ys ps qs (omega (arith, same)) rest in
    (ap₂ ◌∷◌ first more, left)

two_bytes :
    (m n : ℕ)
    → ltb 65535 m ≡ false
    → ltb 65535 n ≡ false
    → m / 256 % 256 ≡ n / 256 % 256
    → m % 256 ≡ n % 256
    → m ≡ n
two_bytes m n a b h k =
    let below = ltb-false 65535 m a in
    let below2 = ltb-false 65535 n b in omega (arith, below, below2, h, k)

last-true : (a b c d : Bool) → (a && (b && (c && not d))) ≡ true → d ≡ false
last-true a b c d h = ground arith

domain_ok-short : (d : String) → domain_ok d ≡ true → ltb 65535 (length (utf8 (codes d))) ≡ false
unfolding domain_ok
domain_ok-short d h =
    last-true (is_nonempty d) (not (any (λ c. c == 0) (codes d))) (text_encodes d)
      (ltb 65535 (length (utf8 (codes d)))) h

-- A frame is made only under a domain that passes the checks.
framed :
    (d : String) (p f : List ℕ)
    → domain_frame d p ≡ some f
    → (frame_bytes d p ≡ f) × (ltb 65535 (length (utf8 (codes d))) ≡ false)
unfolding domain_frame
framed d p f h = elim (Bool-cases (domain_ok d)) [
  | inl good ↦ (some-injective _ _ (rw good at h), domain_ok-short d good)
  | inr bad ↦ cc (rw bad at h)
]

json_bytes-some : (v : Json) → encodes v ≡ true → canonical_json_bytes v ≡ some (json_bytes v)
unfolding canonical_json_bytes
json_bytes-some v h = rw h refl

frame_bytes-some :
    (d : String) (p : List ℕ) → domain_ok d ≡ true → domain_frame d p ≡ some (frame_bytes d p)
unfolding domain_frame
frame_bytes-some d p h = rw h refl

-- Where nothing is raised, the hash is that of the bytes in their frame.
pub canonical_hash-some :
    (crypto : Crypto) (domain : String) (v : Json)
    → domain_ok domain ≡ true
    → encodes v ≡ true
    → canonical_hash crypto domain v ≡ some (json_hash crypto domain v)
unfolding canonical_hash domain_sha256 json_hash frame_sha256
canonical_hash-some crypto domain v good h =
    rw
      (
        canonical_hash,
        json_bytes-some v h,
        domain_sha256,
        frame_bytes-some domain (json_bytes v) good,
      )
      refl

-- Two calls of `domain_frame` that raise nothing give equal frames only if the bytes of their domains are
-- equal and their payloads are, so that what is hashed for one domain is never what is hashed for another.
pub domain_frame-injective :
    (d e : String) (p q f : List ℕ)
    → domain_frame d p ≡ some f
    → domain_frame e q ≡ some f
    → (utf8 (codes d) ≡ utf8 (codes e)) × (p ≡ q)
unfolding frame_bytes
domain_frame-injective d e p q f g h =
    let (made, short) = framed d p f g in
    let (made2, short2) = framed e q f h in
    let after = append-cancel domain_prefix _ _ (made ∙ sym made2) in
    let (high, more) = cons-injective _ _ _ _ after in
    let (low, rest) = cons-injective _ _ _ _ more in
    append-split (utf8 (codes d)) (utf8 (codes e)) p q
      (two_bytes (length (utf8 (codes d))) (length (utf8 (codes e))) short short2 high low) rest
