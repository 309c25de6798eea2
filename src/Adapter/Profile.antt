-- ===== src/Adapter/Profile.antt =====
-- The acyclic bindings of src/popperpad/core/adapter_protocol.py: a profile, the manifest of the sources that
-- implement it, their binding, and the response for bytes that are no request.
use popper_pad.Prelude.{
  ℕ, ◌≡◌, refl, if◌then◌else◌, ◌==◌, ◌&&◌, ◌||◌, all, any, is_empty, is_nonempty, map, not, Bool,
  true, false, Option, none, some, List, [], ◌∷◌, String, codes, length, sort_texts, str_eq,
  texts_eq,
}
use popper_pad.Values.{Json, str, obj, arr, tuple, dict, texts, text_or_null}
use popper_pad.Codec.{Crypto, json_hash}
use popper_pad.Market.Types.{valid_ref, valid_ref_or_none, hex_code}
use popper_pad.Market.Invariants.Relations.{is_unique}
use popper_pad.Commit.Parse.{exact_keys}
use popper_pad.Adapter.Types.{
  InvalidInput, invalid_json, input_code_value, is_dict, AdapterDecisionKind, decision_value,
}
use popper_pad.Adapter.Response.{invalid_details}

pub record SourceFileBinding : Type 0 where
  pub path : String
  pub sha256 : String

-- `path.split("/")`, as code points.
unfoldable pub segments : List ℕ → List (List ℕ)
segments [] = [] ∷ []
segments (c ∷ cs) = elim (segments cs) [
  | [] ↦ (c ∷ []) ∷ []
  | s ∷ ss ↦ if c == 47 then [] ∷ s ∷ ss else (c ∷ s) ∷ ss
]

unfoldable pub codes_eq : List ℕ → List ℕ → Bool
codes_eq [] [] = true
codes_eq (x ∷ xs) (y ∷ ys) = (x == y) && codes_eq xs ys
codes_eq _ _ = false

-- An empty segment before the last: two slashes in a row, where the path does not begin with one.
double_slash : List ℕ → Bool
double_slash (c ∷ d ∷ cs) = ((c == 47) && (d == 47)) || double_slash (d ∷ cs)
double_slash _ = false

abbrev pub starts_with_slash : List ℕ → Bool
starts_with_slash [] = false
starts_with_slash (c ∷ cs) = c == 47

-- `_validate_source_path` raises nothing.
unfoldable pub valid_source_path : String → Bool
unfolding codes_eq double_slash
valid_source_path path =
    let cs = codes path in
    is_nonempty path
    && (not (starts_with_slash cs)
        && (not (any (codes_eq (46 ∷ 46 ∷ [])) (segments cs))
            && (not (any (codes_eq (46 ∷ [])) (segments cs))
                && (not (any (λ c. c == 92) cs) && not (double_slash cs)))))

-- `SourceFileBinding.__post_init__` raises nothing.
unfoldable pub file_built : SourceFileBinding → Bool
file_built f = valid_source_path f.path && valid_ref f.sha256

-- The schema and the version of the codec are constants.
pub record SourceManifest : Type 0 where
  pub repository : String
  pub commit : String
  pub files : List SourceFileBinding
  pub profile_hash : String

-- `_GIT_COMMIT_RE`
unfoldable pub valid_commit : String → Bool
valid_commit s = (length (codes s) == 40) && all hex_code (codes s)

abbrev pub paths_of : List SourceFileBinding → List String
paths_of files = map (λ f. f.path) files

-- `SourceManifest.__post_init__` raises nothing.
unfoldable pub manifest_built : SourceManifest → Bool
manifest_built m =
    is_nonempty m.repository
    && (valid_commit m.commit
        && (not (is_empty m.files)
            && (all file_built m.files
                && (is_unique (paths_of m.files)
                    && (texts_eq (paths_of m.files) (sort_texts (paths_of m.files))
                        && valid_ref m.profile_hash)))))

unfoldable pub file_json : SourceFileBinding → Json
file_json f = dict (("path", str f.path) ∷ ("sha256", str f.sha256) ∷ [])

unfoldable pub manifest_json : SourceManifest → Json
manifest_json m = dict (
    ("schema", str "popperpad/data-adapter-source-manifest/v1")
    ∷ ("repository", str m.repository)
    ∷ ("commit", str m.commit)
    ∷ ("files", arr (tuple (map file_json m.files)))
    ∷ ("profile_hash", str m.profile_hash)
    ∷ ("codec_version", str "popperpad-json-int-v2")
    ∷ [])

pub record DataAdapterProfile : Type 0 where
  pub profile_id : String
  pub profile_version : String
  pub abstraction_id : String
  pub semantic_profile : Json
  pub explicit_nonclaims : List String

-- `DataAdapterProfile.__post_init__` raises nothing.
unfoldable pub profile_built : DataAdapterProfile → Bool
profile_built p =
    is_nonempty p.profile_id
    && (is_nonempty p.profile_version
        && (is_nonempty p.abstraction_id
            && (is_dict p.semantic_profile
                && (all is_nonempty p.explicit_nonclaims
                    && (texts_eq p.explicit_nonclaims (sort_texts p.explicit_nonclaims)
                        && is_unique p.explicit_nonclaims)))))

unfoldable pub profile_json : DataAdapterProfile → Json
profile_json p = dict (
    ("schema", str "popperpad/data-adapter-profile/v1")
    ∷ ("profile_id", str p.profile_id)
    ∷ ("profile_version", str p.profile_version)
    ∷ ("protocol_version", str "v1")
    ∷ ("abstraction_id", str p.abstraction_id)
    ∷ ("codec_version", str "popperpad-json-int-v2")
    ∷ ("semantic_profile", p.semantic_profile)
    ∷ ("explicit_nonclaims", arr (texts p.explicit_nonclaims))
    ∷ [])

pub record AdapterBinding : Type 0 where
  pub profile_hash : String
  pub source_manifest_hash : String
  pub model_ir_hash : Option String
  pub adapter_implementation_id : String

-- `AdapterBinding.__post_init__` raises nothing.
unfoldable pub binding_built : AdapterBinding → Bool
binding_built b =
    valid_ref b.profile_hash
    && (valid_ref b.source_manifest_hash
        && (valid_ref_or_none b.model_ir_hash && is_nonempty b.adapter_implementation_id))

unfoldable pub binding_json : AdapterBinding → Json
binding_json b = dict (
    ("schema", str "popperpad/data-adapter-binding/v1")
    ∷ ("profile_hash", str b.profile_hash)
    ∷ ("source_manifest_hash", str b.source_manifest_hash)
    ∷ ("model_ir_hash", text_or_null b.model_ir_hash)
    ∷ ("protocol_version", str "v1")
    ∷ ("adapter_implementation_id", str b.adapter_implementation_id)
    ∷ [])

-- The decision kind is always an invalid input.
pub record BoundaryFailureResponse : Type 0 where
  pub binding_hash : String
  pub input_bytes_hash : String
  pub reason_code : String
  pub reason_details : Json
  pub response_commitment : String

-- `BoundaryFailureResponse._body_json`
unfoldable pub boundary_body : String → String → String → Json → List (String × Json)
boundary_body binding_hash input_bytes_hash reason_code reason_details =
    ("schema", str "popperpad/data-adapter-boundary-response/v1")
    ∷ ("protocol_version", str "v1")
    ∷ ("binding_hash", str binding_hash)
    ∷ ("input_bytes_hash", str input_bytes_hash)
    ∷ ("decision_kind", str (decision_value AdapterDecisionKind.invalid_input))
    ∷ ("reason_code", str reason_code)
    ∷ ("reason_details", reason_details)
    ∷ []

unfoldable pub boundary_details : Json → String → Bool
boundary_details (obj fs) code =
    exact_keys fs ("code" ∷ "field_path" ∷ "detail" ∷ []) && invalid_details (obj fs) code
boundary_details _ code = false

module _ (crypto : Crypto) where
  unfoldable pub manifest_hash : SourceManifest → String
  manifest_hash m = json_hash crypto "popperpad-data-adapter-source-manifest/v1" (manifest_json m)

  unfoldable pub profile_hash_of : DataAdapterProfile → String
  profile_hash_of p = json_hash crypto "popperpad-data-adapter-profile/v1" (profile_json p)

  unfoldable pub binding_hash_of : AdapterBinding → String
  binding_hash_of b = json_hash crypto "popperpad-data-adapter-binding/v1" (binding_json b)

  unfoldable pub boundary_commitment : String → String → String → Json → String
  boundary_commitment binding_hash input_bytes_hash reason_code reason_details =
      json_hash crypto "popperpad-data-adapter-boundary-response/v1"
        (dict (boundary_body binding_hash input_bytes_hash reason_code reason_details))

  -- `BoundaryFailureResponse.__post_init__` raises nothing.
  unfoldable pub boundary_built : BoundaryFailureResponse → Bool
  boundary_built r =
      valid_ref r.binding_hash
      && (valid_ref r.input_bytes_hash
          && (valid_ref r.response_commitment
              && (boundary_details r.reason_details r.reason_code
                  && str_eq r.response_commitment (
                      boundary_commitment r.binding_hash r.input_bytes_hash r.reason_code
                        r.reason_details))))

  abbrev pub boundary_response : String → String → InvalidInput → BoundaryFailureResponse
  boundary_response binding_hash input_bytes_hash invalid = record {
    binding_hash = binding_hash;
    input_bytes_hash = input_bytes_hash;
    reason_code = input_code_value invalid.code;
    reason_details = invalid_json invalid;
    response_commitment =
        boundary_commitment binding_hash input_bytes_hash (input_code_value invalid.code)
          (invalid_json invalid);
  }

  -- `none` is an exception of the constructor.
  unfoldable pub build_boundary_failure_response :
      String → String → InvalidInput → Option BoundaryFailureResponse
  build_boundary_failure_response binding_hash input_bytes_hash invalid =
      if boundary_built (boundary_response binding_hash input_bytes_hash invalid)
      then some (boundary_response binding_hash input_bytes_hash invalid)
      else none

traversal_refused : valid_source_path "core/../market.py" ≡ false
unfolding valid_source_path segments
traversal_refused = refl

plain_path : valid_source_path "core/market.py" ≡ true
unfolding valid_source_path segments
plain_path = refl
