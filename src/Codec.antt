-- ===== src/Codec.antt =====
-- src/popperpad/core/codec.py: canonical JSON bytes and domain-separated hashes.
pub mod Frame
mod Examples
use popper_pad.Prelude.{
  ℕ, suc, ◌+◌, ◌&&◌, not, all, any, is_nonempty, Option, none, some, ℤ, pos, str_nat, ◌/◌, ◌%◌, ◌≡◌,
  refl, ltb, ◌==◌, Bool, true, false, List, [], ◌∷◌, ◌++◌, String, ◌⊕◌, codes, str_int, negsuc,
  length, if◌then◌else◌,
}
use popper_pad.Values.{
  Json, null, bool, int, str, arr, obj, Items, nil, cons, Fields, end, field, dict, tuple,
}

hex_digit : ℕ → ℕ
hex_digit d = if ltb d 10 then 48 + d else 87 + d

-- One character of a JSON string, as `json.dumps` writes it with `ensure_ascii=False`.
escape : ℕ → List ℕ
unfolding hex_digit
escape c =
    if c == b'"'
    then b'\\' ∷ b'"' ∷ []
    else if c == b'\\'
    then b'\\' ∷ b'\\' ∷ []
    else if c == 10
    then b'\\' ∷ b'n' ∷ []
    else if c == 13
    then b'\\' ∷ b'r' ∷ []
    else if c == 9
    then b'\\' ∷ b't' ∷ []
    else if c == 8
    then b'\\' ∷ b'b' ∷ []
    else if c == 12
    then b'\\' ∷ b'f' ∷ []
    else if ltb c 32
    then b'\\' ∷ b'u' ∷ b'0' ∷ b'0' ∷ hex_digit (c / 16) ∷ hex_digit (c % 16) ∷ []
    else c ∷ []

escape_all : List ℕ → List ℕ
unfolding escape
escape_all [] = []
escape_all (c ∷ cs) = escape c ++ escape_all cs

unfoldable pub quote : String → List ℕ
unfolding escape_all
quote s = b'"' ∷ (escape_all (codes s) ++ b'"' ∷ [])

-- `json.dumps(plain, sort_keys=True, separators=(",", ":"))`, as code points.
unfoldable mutual
  pub dumps : Json → List ℕ
  dumps null = codes "null"
  dumps (bool true) = codes "true"
  dumps (bool false) = codes "false"
  dumps (int n) = codes (str_int n)
  dumps (str s) = quote s
  dumps (arr xs) = b'[' ∷ (dump_items xs ++ b']' ∷ [])
  dumps (obj fs) = b'{' ∷ (dump_fields fs ++ b'}' ∷ [])

  pub dump_items : Items → List ℕ
  dump_items nil = []
  dump_items (cons x nil) = dumps x
  dump_items (cons x xs) = dumps x ++ (b',' ∷ dump_items xs)

  pub dump_fields : Fields → List ℕ
  dump_fields end = []
  dump_fields (field k v end) = quote k ++ (b':' ∷ dumps v)
  dump_fields (field k v fs) = quote k ++ (b':' ∷ (dumps v ++ (b',' ∷ dump_fields fs)))

-- One code point in UTF-8.
utf8_char : ℕ → List ℕ
utf8_char c =
    if ltb c 128
    then c ∷ []
    else if ltb c 2048
    then (192 + c / 64) ∷ (128 + c % 64) ∷ []
    else if ltb c 65536
    then (224 + c / 4096) ∷ (128 + c / 64 % 64) ∷ (128 + c % 64) ∷ []
    else (240 + c / 262144) ∷ (128 + c / 4096 % 64) ∷ (128 + c / 64 % 64) ∷ (128 + c % 64) ∷ []

unfoldable pub utf8 : List ℕ → List ℕ
unfolding utf8_char
utf8 [] = []
utf8 (c ∷ cs) = utf8_char c ++ utf8 cs

-- The bytes of `canonical_json_bytes`, for a value that encodes.
unfoldable pub json_bytes : Json → List ℕ
unfolding dumps utf8 quote str_int
json_bytes v = utf8 (dumps v ++ 10 ∷ [])

-- A code point that `str.encode` refuses: a lone surrogate.
abbrev pub is_surrogate : ℕ → Bool
is_surrogate c = not (ltb c 55296) && ltb c 57344

unfoldable pub text_encodes : String → Bool
text_encodes s = all (λ c. not (is_surrogate c)) (codes s)

-- The decimal digits of the absolute value.
digits : ℤ → ℕ
digits (pos n) = length (codes (str_nat n))
digits (negsuc n) = length (codes (str_nat (suc n)))

-- `json.dumps` refuses integers of more than 4300 digits.
unfoldable pub int_encodes : ℤ → Bool
unfolding digits
int_encodes n = not (ltb 4300 (digits n))

-- `canonical_json_bytes` raises nothing: neither the ValueError nor the UnicodeEncodeError.
unfoldable mutual
  pub encodes : Json → Bool
  encodes null = true
  encodes (bool b) = true
  encodes (int n) = int_encodes n
  encodes (str s) = text_encodes s
  encodes (arr xs) = items_encode xs
  encodes (obj fs) = fields_encode fs

  pub items_encode : Items → Bool
  items_encode nil = true
  items_encode (cons x xs) = encodes x && items_encode xs

  pub fields_encode : Fields → Bool
  fields_encode end = true
  fields_encode (field k v fs) = text_encodes k && (encodes v && fields_encode fs)

-- `none` is an exception.
unfoldable pub canonical_json_bytes : Json → Option (List ℕ)
canonical_json_bytes v = if encodes v then some (json_bytes v) else none

-- `_DOMAIN_PREFIX`
abbrev pub domain_prefix : List ℕ
domain_prefix = codes "PopperPad" ++ 0 ∷ []

-- The frame of a domain that passes the checks: its length in two bytes.
unfoldable pub frame_bytes : String → List ℕ → List ℕ
unfolding utf8
frame_bytes domain payload =
    let domain_bytes = utf8 (codes domain) in
    let n = length domain_bytes in
    domain_prefix ++ ((n / 256 % 256) ∷ (n % 256) ∷ (domain_bytes ++ payload))

-- The checks of `domain_frame`: not empty, no NUL, no lone surrogate, at most 65535 bytes.
unfoldable pub domain_ok : String → Bool
unfolding utf8
domain_ok domain =
    is_nonempty domain
    && (not (any (λ c. c == 0) (codes domain))
        && (text_encodes domain && not (ltb 65535 (length (utf8 (codes domain))))))

-- `none` is an exception.
unfoldable pub domain_frame : String → List ℕ → Option (List ℕ)
domain_frame domain payload = if domain_ok domain then some (frame_bytes domain payload) else none

-- The digest of `hashlib.sha256` in hexadecimal, and the check of one Ed25519 signature by the
-- `cryptography` package: public key, signature, message; false where it raises.
pub record Crypto : Type 0 where
  pub sha256_hex : List ℕ → String
  pub ed25519_verify : List ℕ → List ℕ → List ℕ → Bool

module _ (crypto : Crypto) where
  unfoldable pub sha256_bytes : List ℕ → String
  sha256_bytes bytes = "sha256:" ⊕ crypto.sha256_hex bytes

  -- `none` is an exception.
  unfoldable pub domain_sha256 : String → List ℕ → Option String
  domain_sha256 domain bytes = elim (domain_frame domain bytes) [
    | none ↦ none
    | some framed ↦ some (sha256_bytes framed)
  ]

  unfoldable pub canonical_hash : String → Json → Option String
  canonical_hash domain value = elim (canonical_json_bytes value) [
    | none ↦ none
    | some bytes ↦ domain_sha256 domain bytes
  ]

  -- The same for bytes under a domain that passes the checks, and for a value that encodes: the other
  -- parts hash under constant domains, and their values are taken to encode unless they say otherwise.
  unfoldable pub frame_sha256 : String → List ℕ → String
  frame_sha256 domain bytes = sha256_bytes (frame_bytes domain bytes)

  unfoldable pub json_hash : String → Json → String
  json_hash domain value = frame_sha256 domain (json_bytes value)

dumps_sorted :
    json_bytes
      (dict (("b", int (negsuc 6)) ∷ ("a", arr (tuple (null ∷ str "x\ny" ∷ bool true ∷ []))) ∷ []))
    ≡ codes "{\"a\":[null,\"x\\ny\",true],\"b\":-7}\n"
unfolding json_bytes dict tuple
dumps_sorted = refl
