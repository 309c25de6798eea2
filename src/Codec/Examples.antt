-- ===== src/Codec/Examples.antt =====
-- The theorem on frames at one frame, the domains under which the other parts hash, and an encoding.
use popper_pad.Prelude.{ℕ, true, all, List, String, ◌≡◌, refl, str_nat, none, some, [], ◌∷◌, codes}
use popper_pad.Values.{nat}
use popper_pad.Codec.{
  utf8, domain_ok, domain_frame, frame_bytes, json_bytes, canonical_json_bytes, encodes,
  int_encodes, text_encodes,
}
use popper_pad.Codec.Frame.{domain_frame-injective}

abbrev payload : List ℕ
payload = 1 ∷ 2 ∷ []

made : domain_frame "effect-plan/v2" payload ≡ some (frame_bytes "effect-plan/v2" payload)
unfolding domain_frame domain_ok text_encodes utf8
made = refl

domain_frame-injective_example :
    (utf8 (codes "effect-plan/v2") ≡ utf8 (codes "effect-plan/v2")) × (payload ≡ payload)
domain_frame-injective_example =
    domain_frame-injective "effect-plan/v2" "effect-plan/v2" payload payload
      (frame_bytes "effect-plan/v2" payload) made made

empty_domain : domain_frame "" payload ≡ none
unfolding domain_frame domain_ok
empty_domain = refl

-- The domains under which the other parts hash.
abbrev domains : List String
domains =
    "bundle-import-policy/v1" ∷ "bundle-import-signature/v1" ∷ "bundle-import-signer-key/v1"
    ∷ "commit-bundle/v1" ∷ "commit-bundle/v2" ∷ "commit-command/v1" ∷ "commit-command/v2"
    ∷ "effect-plan/v1" ∷ "effect-plan/v2" ∷ "log-record/v2" ∷ "market-command/v1"
    ∷ "market-effects/v1" ∷ "market-policy/v1" ∷ "market-state/v1" ∷ "market-verifier-key/v1"
    ∷ "market-verifier-statement/v1" ∷ "outbox-ack/v1" ∷ "outbox-effect-id/v1"
    ∷ "outbox-effect-id/v2" ∷ "popperpad-data-adapter-binding/v1"
    ∷ "popperpad-data-adapter-boundary-response/v1" ∷ "popperpad-data-adapter-profile/v1"
    ∷ "popperpad-data-adapter-request/v1" ∷ "popperpad-data-adapter-response/v1"
    ∷ "popperpad-data-adapter-source-manifest/v1" ∷ "replay-id/v1" ∷ "replay-id/v2"
    ∷ "verifier-receipt/v1" ∷ "verifier-signer-key/v1" ∷ "verifier-statement/v1" ∷ []

domains-ok : all domain_ok domains ≡ true
unfolding domain_ok text_encodes utf8
domains-ok = refl

small : canonical_json_bytes (nat 7) ≡ some (json_bytes (nat 7))
unfolding canonical_json_bytes encodes int_encodes str_nat
small = refl
