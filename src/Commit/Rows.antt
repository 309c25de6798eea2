-- ===== src/Commit/Rows.antt =====
-- The rows that a plan writes are the rows that the validation reads.
use popper_pad.Prelude.{
  ℕ, suc, ◌≡◌, refl, ap, ◌∙◌, true, false, is_nonempty, length, map, List, [], ◌∷◌, String, str_eq,
  All, arith, pos, ltb_ℤ,
}
use popper_pad.Values.{Json, tuple, dict}
use popper_pad.Result.{Checked, refuse_when, ◌>>=◌, ◌>>◌, bind-pass}
use popper_pad.Market.Types.{valid_ref}
use popper_pad.Commit.Types.{ObjectWrite, BlobWrite, OutboxEffect, object_row, blob_row, effect_row}
use popper_pad.Commit.Parse.{
  get, entry, exact_keys, require_exact_keys, require_string, require_ref, require_size,
  parse_write, parse_writes, parse_intent, parse_intents, Row, is_object,
}

size-natural : (n : ℕ) → ltb_ℤ (pos n) (pos 0) ≡ false
size-natural n = ground arith

-- What the constructor of a write and the plan have tested.
pub record IsObjectWrite (w : ObjectWrite) : Type 0 where
  pub hashed : valid_ref w.ref ≡ true
  pub named : is_nonempty w.schema ≡ true

pub record IsBlobWrite (w : BlobWrite) : Type 0 where
  pub hashed : valid_ref w.ref ≡ true
  pub named : is_nonempty w.media_type ≡ true

pub record IsEffect (e : OutboxEffect) : Type 0 where
  pub hashed : valid_ref e.effect_id ≡ true
  pub named : is_nonempty e.kind ≡ true
  pub mapping : is_object e.payload ≡ true

parse_write-object_row :
    (index : ℕ) (w : ObjectWrite)
    → IsObjectWrite w
    → parse_write "objects" "schema" index (object_row w) ≡ Checked.ok w.ref
unfolding parse_write require_exact_keys exact_keys entry get require_ref require_string
    require_size object_row dict str_eq refuse_when ◌>>=◌ ◌>>◌
parse_write-object_row index w h = rw (h.hashed, h.named, size-natural (length w.payload)) refl

parse_write-blob_row :
    (index : ℕ) (w : BlobWrite)
    → IsBlobWrite w
    → parse_write "blobs" "media_type" index (blob_row w) ≡ Checked.ok w.ref
unfolding parse_write require_exact_keys exact_keys entry get require_ref require_string
    require_size blob_row dict str_eq refuse_when ◌>>=◌ ◌>>◌
parse_write-blob_row index w h = rw (h.hashed, h.named, size-natural (length w.payload)) refl

parse_intent-effect_row :
    (index : ℕ) (e : OutboxEffect)
    → IsEffect e
    → parse_intent index (effect_row e) ≡ Checked.ok (e.kind, e.payload)
unfolding parse_intent require_exact_keys exact_keys entry get require_ref require_string effect_row
    dict str_eq refuse_when ◌>>=◌ ◌>>◌
parse_intent-effect_row index e h = rw (h.hashed, h.named, h.mapping) refl

abbrev pub object_entry : ObjectWrite → Row
object_entry w = (w.ref, object_row w)

abbrev pub blob_entry : BlobWrite → Row
blob_entry w = (w.ref, blob_row w)

pub parse_writes-object_row :
    (index : ℕ) (ws : List ObjectWrite)
    → All IsObjectWrite ws
    → parse_writes "objects" "schema" index (tuple (map object_row ws))
      ≡ Checked.ok (map object_entry ws)
unfolding parse_writes tuple
parse_writes-object_row index [] h = refl
parse_writes-object_row index (w ∷ ws) h =
    bind-pass _ _ _ (parse_write-object_row index w h.0)
    ∙ bind-pass _ _ _ (parse_writes-object_row (suc index) ws h.1)

pub parse_writes-blob_row :
    (index : ℕ) (ws : List BlobWrite)
    → All IsBlobWrite ws
    → parse_writes "blobs" "media_type" index (tuple (map blob_row ws))
      ≡ Checked.ok (map blob_entry ws)
unfolding parse_writes tuple
parse_writes-blob_row index [] h = refl
parse_writes-blob_row index (w ∷ ws) h =
    bind-pass _ _ _ (parse_write-blob_row index w h.0)
    ∙ bind-pass _ _ _ (parse_writes-blob_row (suc index) ws h.1)

pub parse_intents-effect_row :
    (index : ℕ) (es : List OutboxEffect)
    → All IsEffect es
    → parse_intents index (tuple (map effect_row es))
      ≡ Checked.ok (map (λ e. (e.kind, e.payload)) es)
unfolding parse_intents tuple
parse_intents-effect_row index [] h = refl
parse_intents-effect_row index (e ∷ es) h =
    bind-pass _ _ _ (parse_intent-effect_row index e h.0)
    ∙ bind-pass _ _ _ (parse_intents-effect_row (suc index) es h.1)

-- The refs and the rows of what was parsed.
pub refs-entries {ℓ} :
    {A : Type ℓ} (ref : A → String) (row : A → Json) (xs : List A)
    → (map (λ r. r.0) (map {B = Row} (λ x. (ref x, row x)) xs) ≡ map ref xs)
      × (map (λ r. r.1) (map {B = Row} (λ x. (ref x, row x)) xs) ≡ map row xs)
refs-entries ref row [] = (refl, refl)
refs-entries ref row (x ∷ xs) =
    let (refs, rest) = refs-entries ref row xs in (ap (◌∷◌ (ref x)) refs, ap (◌∷◌ (row x)) rest)
