-- ===== src/Adapter/Encoding.antt =====
-- Which values of src/popperpad/core/adapter_protocol.py encode, so that hashing them raises nothing.
use popper_pad.Prelude.{
  ℕ, ◌≡◌, refl, ap, sym, ◌∙◌, ==→eq, not, ◌&&◌, ◌==◌, all, Bool, true, Bool-cases, inl, inr,
  and-true, and-intro, some, Option-cases, List, [], ◌∷◌, String, codes, drop_prefix, arith,
}
use mathlib.Core.Option.{some-injective}
use popper_pad.Values.{Json, dict, text_or_null, tuple, texts}
use popper_pad.Codec.{is_surrogate, text_encodes, encodes}
use popper_pad.Market.Types.{hex_code, valid_ref}
use popper_pad.Adapter.Types.{
  AdapterRequest, InvalidInput, InvalidInputCode, input_code_value, invalid_json, operation_value,
  request_json, json_or_null, context_json,
}
use popper_pad.Adapter.Response.{body_json, invalid_outcome}

hex-plain : (c : ℕ) → hex_code c ≡ true → not (is_surrogate c) ≡ true
unfolding hex_code
hex-plain c h = ground arith

all-plain : (cs : List ℕ) → all hex_code cs ≡ true → all (λ c. not (is_surrogate c)) cs ≡ true
all-plain [] h = refl
all-plain (c ∷ cs) h =
    let (first, rest) = and-true (hex_code c) (all hex_code cs) h in
    and-intro _ _ (hex-plain c first) (all-plain cs rest)

prefix-plain :
    (ps cs rest : List ℕ)
    → drop_prefix ps cs ≡ some rest
    → all (λ c. not (is_surrogate c)) ps ≡ true
    → all (λ c. not (is_surrogate c)) rest ≡ true
    → all (λ c. not (is_surrogate c)) cs ≡ true
prefix-plain [] cs rest h p q = rw (some-injective _ _ h) q
prefix-plain (x ∷ xs) [] rest h p q = refl
prefix-plain (x ∷ xs) (y ∷ ys) rest h p q = elim (Bool-cases (x == y)) [
  | inl same ↦
      let (first, others) = and-true (not (is_surrogate x)) _ p in
      let this : not (is_surrogate y) ≡ true =
        ap (λ c. not (is_surrogate c)) (sym (==→eq x y same)) ∙ first in
      and-intro _ _ this (prefix-plain xs ys rest (rw same at h) others q)
  | inr other ↦ cc (rw other at h)
]

-- A well-formed ref encodes.
pub valid_ref-encodes : (s : String) → valid_ref s ≡ true → text_encodes s ≡ true
unfolding valid_ref text_encodes
valid_ref-encodes s h = elim (Option-cases (drop_prefix (codes "sha256:") (codes s))) [
  | inl missing ↦ cc (rw (valid_ref, missing) at h)
  | inr (cs, found) ↦
      let (long, hex) = and-true _ (all hex_code cs) (rw (valid_ref, found) at h) in
      prefix-plain (codes "sha256:") (codes s) cs found refl (all-plain cs hex)
]

pub code-encodes : (code : InvalidInputCode) → text_encodes (input_code_value code) ≡ true
unfolding text_encodes
code-encodes InvalidInputCode.non_canonical_json = refl
code-encodes InvalidInputCode.invalid_utf8 = refl
code-encodes InvalidInputCode.duplicate_json_key = refl
code-encodes InvalidInputCode.float_not_allowed = refl
code-encodes InvalidInputCode.unknown_field = refl
code-encodes InvalidInputCode.schema_mismatch = refl
code-encodes InvalidInputCode.profile_mismatch = refl
code-encodes InvalidInputCode.binding_mismatch = refl
code-encodes InvalidInputCode.source_manifest_mismatch = refl
code-encodes InvalidInputCode.model_hash_mismatch = refl
code-encodes InvalidInputCode.pre_state_hash_mismatch = refl
code-encodes InvalidInputCode.input_too_large = refl
code-encodes InvalidInputCode.abstract_state_out_of_domain = refl
code-encodes InvalidInputCode.abstract_command_out_of_domain = refl

pick :
    (binding case_id command context expected operation request_id state : Bool)
    → (binding
        && (case_id
            && (command
                && (context && (expected && (operation && (request_id && (state && true))))))))
      ≡ true
    → (request_id ≡ true) × (case_id ≡ true)
pick binding case_id command context expected operation request_id state h = ground arith

pub request-encodes :
    (r : AdapterRequest)
    → encodes (request_json r) ≡ true
    → (text_encodes r.request_id ≡ true) × (text_encodes r.case_id ≡ true)
unfolding encodes request_json dict text_encodes
request-encodes r h =
    pick (text_encodes r.binding_hash) (text_encodes r.case_id) (encodes (json_or_null r.command))
      (encodes (context_json r.execution_context)) (text_encodes r.expected_pre_state_hash)
      (text_encodes (operation_value r.operation)) (text_encodes r.request_id) (encodes r.state) h

pub invalid-encodes :
    (i : InvalidInput)
    → encodes (invalid_json i) ≡ true
    → (text_encodes i.field_path ≡ true) × (text_encodes i.detail ≡ true)
unfolding encodes invalid_json dict text_encodes
invalid-encodes i h =
    let (code, h1) =
      and-true (text_encodes (input_code_value i.code))
        (text_encodes i.detail && (text_encodes i.field_path && true)) h in
    let (detail, h2) = and-true (text_encodes i.detail) (text_encodes i.field_path && true) h1 in
    ((and-true (text_encodes i.field_path) true h2).0, detail)

pub body-encodes :
    (request_id case_id binding_hash request_hash : String) (i : InvalidInput) (pre_state : Json)
    (pre_state_hash : String)
    → text_encodes request_id ≡ true
    → text_encodes case_id ≡ true
    → text_encodes binding_hash ≡ true
    → text_encodes request_hash ≡ true
    → text_encodes (input_code_value i.code) ≡ true
    → text_encodes i.field_path ≡ true
    → text_encodes i.detail ≡ true
    → encodes pre_state ≡ true
    → text_encodes pre_state_hash ≡ true
    → encodes (
        dict (
          body_json request_id case_id binding_hash request_hash
            (invalid_outcome i pre_state pre_state_hash)))
      ≡ true
unfolding encodes body_json dict text_encodes invalid_json text_or_null tuple texts
body-encodes request_id case_id binding_hash request_hash i pre_state pre_state_hash a b c d e f g h
      k =
    rw (a, b, c, d, e, f, g, h, k) refl
