-- ===== src/Commit/Parse.antt =====
-- The parsing of the rows of a commit record in src/popperpad/core/commit.py. Every ValueError, TypeError
-- and KeyError there becomes the rejection INVALID_COMMIT_RECORD with its message.
use popper_pad.Prelude.{
  ℕ, suc, ◌&&◌, all, contains, is_nonempty, not, Bool, true, false, List, [], ◌∷◌, String, ◌⊕◌,
  str_eq, str_nat, ltb_ℤ, pos, Option, none, some,
}
use popper_pad.Values.{Json, int, str, arr, obj, Items, nil, cons, Fields, end, field}
use popper_pad.Result.{Checked, refuse_when, ◌>>=◌, ◌>>◌, reason}
use popper_pad.Market.Types.{valid_ref}

abbrev pub invalid {ℓ} : {A : Type ℓ} → String → Checked A
invalid message = Checked.refused "INVALID_COMMIT_RECORD" (reason message)

-- `if test: raise ValueError(message)`
abbrev pub raise_when : Bool → String → Checked (Unit {0})
raise_when test message = refuse_when test "INVALID_COMMIT_RECORD" (reason message)

abbrev pub keys_of : Fields → List String
keys_of end = []
keys_of (field k v fs) = k ∷ keys_of fs

unfoldable pub get : Fields → String → Option Json
get end key = none
get (field k v fs) key = elim (str_eq k key) [ true ↦ some v | false ↦ get fs key ]

-- `fs[key]`
unfoldable pub entry : Fields → String → Checked Json
unfolding get
entry fs key = elim (get fs key) [ some v ↦ Checked.ok v | none ↦ invalid ("'" ⊕ (key ⊕ "'")) ]

-- The frozen set of the keys is `expected`; the keys of an object are distinct.
unfoldable pub exact_keys : Fields → List String → Bool
exact_keys fs expected =
    all (contains expected) (keys_of fs) && all (contains (keys_of fs)) expected

-- `_require_exact_keys`
unfoldable pub require_exact_keys : Json → List String → String → Checked Fields
require_exact_keys (obj fs) expected name =
    raise_when (not (exact_keys fs expected)) (name ⊕ " has missing or unknown fields")
    >> Checked.ok fs
require_exact_keys _ expected name = invalid (name ⊕ " must be an object")

-- `_require_string`
unfoldable pub require_string : String → Json → Checked String
require_string name (str s) =
    raise_when (not (is_nonempty s)) (name ⊕ " must be a non-empty string") >> Checked.ok s
require_string name _ = invalid (name ⊕ " must be a non-empty string")

-- `_require_ref`
unfoldable pub require_ref : String → Json → Checked String
require_ref name (str s) =
    raise_when (not (valid_ref s)) (name ⊕ " must be a sha256 ref") >> Checked.ok s
require_ref name _ = invalid (name ⊕ " must be a sha256 ref")

-- `type(value) is not int or value < 0`
unfoldable pub require_size : String → Json → Checked (Unit {0})
require_size name (int n) = raise_when (ltb_ℤ n (pos 0)) (name ⊕ " must be a non-negative integer")
require_size name _ = invalid (name ⊕ " must be a non-negative integer")

-- The prefix of the messages on one row.
abbrev pub at_index : String → ℕ → String
at_index name index = name ⊕ ("[" ⊕ (str_nat index ⊕ "]"))

-- One row of `_parse_object_rows` or `_parse_blob_rows`, where `label` is "schema" or "media_type"; its ref.
unfoldable pub parse_write : String → String → ℕ → Json → Checked String
parse_write name label index raw = do
  fs ← require_exact_keys raw ("ref" ∷ label ∷ "bytes" ∷ []) (at_index name index)
  raw_ref ← entry fs "ref"
  ref ← require_ref (at_index name index ⊕ ".ref") raw_ref
  raw_label ← entry fs label
  _ ← require_string (at_index name index ⊕ ("." ⊕ label)) raw_label
  bytes ← entry fs "bytes"
  require_size (at_index name index ⊕ ".bytes") bytes
  Checked.ok ref

-- A row with its ref.
abbrev pub Row : Type 0
Row = String × Json

unfoldable pub parse_writes : String → String → ℕ → Items → Checked (List Row)
parse_writes name label index nil = Checked.ok []
parse_writes name label index (cons raw raws) = do
  ref ← parse_write name label index raw
  rest ← parse_writes name label (suc index) raws
  Checked.ok ((ref, raw) ∷ rest)

-- `_parse_object_rows`
unfoldable pub parse_object_rows : Json → Checked (List Row)
parse_object_rows (arr xs) = parse_writes "objects" "schema" 0 xs
parse_object_rows _ = invalid "objects must be an array"

-- `_parse_blob_rows`
unfoldable pub parse_blob_rows : Json → Checked (List Row)
parse_blob_rows (arr xs) = parse_writes "blobs" "media_type" 0 xs
parse_blob_rows _ = invalid "blobs must be an array"

abbrev pub is_object : Json → Bool
is_object (obj fs) = true
is_object _ = false

unfoldable pub parse_intent : ℕ → Json → Checked (String × Json)
parse_intent index raw = do
  fs ← require_exact_keys raw ("effect_id" ∷ "kind" ∷ "payload" ∷ []) (at_index "outbox" index)
  raw_id ← entry fs "effect_id"
  _ ← require_ref (at_index "outbox" index ⊕ ".effect_id") raw_id
  raw_kind ← entry fs "kind"
  kind ← require_string (at_index "outbox" index ⊕ ".kind") raw_kind
  payload ← entry fs "payload"
  raise_when (not (is_object payload))
      (at_index "outbox" index ⊕ ".payload must be an integer-only object")
  Checked.ok (kind, payload)

unfoldable pub parse_intents : ℕ → Items → Checked (List (String × Json))
parse_intents index nil = Checked.ok []
parse_intents index (cons raw raws) = do
  intent ← parse_intent index raw
  rest ← parse_intents (suc index) raws
  Checked.ok (intent ∷ rest)

-- `_parse_outbox_rows`
unfoldable pub parse_outbox_rows : Json → Checked (List (String × Json))
parse_outbox_rows (arr xs) = parse_intents 0 xs
parse_outbox_rows _ = invalid "outbox must be an array"
