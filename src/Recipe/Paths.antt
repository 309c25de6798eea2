-- ===== src/Recipe/Paths.antt =====
-- `normalize_relative_path` of src/popperpad/core/recipe.py.
use popper_pad.Prelude.{
  ℕ, ◌==◌, ◌&&◌, ◌||◌, any, is_empty, leb, map, Bool, true, false, List, [], ◌∷◌, String, codes,
  if◌then◌else◌,
}
use popper_pad.Values.{Json, str, dict}
use popper_pad.Result.{Checked, refuse_when, ◌>>◌}
use popper_pad.Adapter.Profile.{segments, codes_eq, starts_with_slash}

-- `_reject("INVALID_RECIPE", field=field, reason=reason)`
unfoldable pub field_details : String → String → Json
field_details field why = dict (("field", str field) ∷ ("reason", str why) ∷ [])

abbrev pub refused_field {ℓ} : {A : Type ℓ} → String → String → Checked A
refused_field field why = Checked.refused "INVALID_RECIPE" (field_details field why)

abbrev pub refuse_if_field : Bool → String → String → Checked (Unit {0})
refuse_if_field test field why = refuse_when test "INVALID_RECIPE" (field_details field why)

-- The code points that `str.strip` removes.
unfoldable pub is_space : ℕ → Bool
is_space c =
    (leb 9 c && leb c 13)
    || ((leb 28 c && leb c 32)
        || ((c == 133)
            || ((c == 160)
                || ((c == 5760)
                    || ((leb 8192 c && leb c 8202)
                        || ((c == 8232)
                            || ((c == 8233) || ((c == 8239) || ((c == 8287) || (c == 12288))))))))))

unfoldable pub strip_start : List ℕ → List ℕ
strip_start [] = []
strip_start (c ∷ cs) = elim (is_space c) [ true ↦ strip_start cs | false ↦ c ∷ cs ]

unfoldable pub strip_end : List ℕ → List ℕ
strip_end [] = []
strip_end (c ∷ cs) = elim (strip_end cs) [
  | [] ↦ if is_space c then [] else c ∷ []
  | x ∷ xs ↦ c ∷ x ∷ xs
]

-- `.replace("\\", "/")`
abbrev pub forward : List ℕ → List ℕ
forward cs = map (λ c. if c == 92 then 47 else c) cs

-- `value.strip().replace("\\", "/")`
unfoldable pub clean : String → List ℕ
clean s = forward (strip_start (strip_end (codes s)))

abbrev pub climbs : List ℕ → Bool
climbs cs = any (codes_eq (46 ∷ 46 ∷ [])) (segments cs)

unfoldable pub normalize_relative_path : Json → String → Checked (List ℕ)
normalize_relative_path (str s) field = do
  refuse_if_field (is_empty (clean s)) field "must be a non-empty relative path"
  refuse_if_field (starts_with_slash (clean s) || climbs (clean s)) field
      "must not be absolute or contain '..'"
  Checked.ok (clean s)
normalize_relative_path _ field = refused_field field "must be a non-empty relative path"
