-- ===== src/Verifier.antt =====
-- src/popperpad/core/verifier.py: identities of Ed25519 keys, and signatures.
use popper_pad.Prelude.{
  ℕ, ◌/◌, ◌%◌, ltb, ◌==◌, Bool, ◌&&◌, Option, none, some, List, [], ◌∷◌, String, ◌⊕◌, length,
  if◌then◌else◌,
}
use popper_pad.Values.{str, dict}
use popper_pad.Codec.{Crypto, json_hash}

-- A hexadecimal digit of `bytes.hex()`.
hex_char : ℕ → String
hex_char d =
    if ltb d 10
    then (if ltb d 5
        then (if d == 0
            then "0"
            else if d == 1
            then "1"
            else if d == 2
            then "2"
            else if d == 3
            then "3"
            else "4")
        else (if d == 5
            then "5"
            else if d == 6
            then "6"
            else if d == 7
            then "7"
            else if d == 8
            then "8"
            else "9"))
    else if d == 10
    then "a"
    else if d == 11
    then "b"
    else if d == 12
    then "c"
    else if d == 13
    then "d"
    else if d == 14
    then "e"
    else "f"

-- `bytes.hex()`
unfoldable pub hex : List ℕ → String
unfolding hex_char
hex [] = ""
hex (b ∷ bs) = hex_char (b / 16) ⊕ (hex_char (b % 16) ⊕ hex bs)

module _ (crypto : Crypto) where
  -- `none` is the ValueError for a key that has not 32 bytes.
  unfoldable pub ed25519_verifier_ref : List ℕ → Option String
  ed25519_verifier_ref public_key =
      if length public_key == 32
      then some (
          json_hash crypto "market-verifier-key/v1"
            (dict (("algorithm", str "ed25519") ∷ ("public_key_hex", str (hex public_key)) ∷ [])))
      else none

  unfoldable pub verify_ed25519_signature : List ℕ → List ℕ → List ℕ → Bool
  verify_ed25519_signature public_key signature message =
      (length public_key == 32)
      && ((length signature == 64) && crypto.ed25519_verify public_key signature message)
