-- ===== src/Codec/Base64.antt =====
-- packages/stores/src/codec.ts: `bytesToBase64` and `base64ToBytes`.
use anyonce.Prelude.{
  ℕ, zero, suc, ◌≤◌, Text, codes, Bytes, [], ◌∷◌, ◌++◌, length, take, drop, take-drop, length-drop,
  ◌≡◌, ◌≢◌, refl, sym, ap, ◌∙◌, arith,
}

-- The platform's `btoa` and `atob` on texts of byte values: decoding gives back what was encoded, and no encoding
-- is the one character that stands for no body.
pub record Base64 : Type 0 where
  pub btoa : Text → Text
  pub atob : Text → Text
  pub atob-btoa : (b : Text) → atob (btoa b) ≡ b
  pub btoa-dash : (b : Text) → btoa b ≢ codes "-"

-- The loop over chunks of `chunk` bytes; a body has no more chunks than bytes.
unfoldable binary_of : ℕ → ℕ → Bytes → Text
binary_of chunk zero bytes = []
binary_of chunk (suc left) bytes = take chunk bytes ++ binary_of chunk left (drop chunk bytes)

unfoldable pub bytes_to_base64 : Base64 → Bytes → Text
unfolding binary_of
bytes_to_base64 base64 bytes = base64.btoa (binary_of 32768 (length bytes) bytes)

-- The loop that copies the character codes.
unfoldable bytes_of : Text → Bytes
bytes_of [] = []
bytes_of (c ∷ binary) = c ∷ bytes_of binary

unfoldable pub base64_to_bytes : Base64 → Text → Bytes
unfolding bytes_of
base64_to_bytes base64 text = bytes_of (base64.atob text)

binary_of_lem :
    (chunk left : ℕ) (bytes : Bytes)
    → length bytes ≤ left
    → binary_of (suc chunk) left bytes ≡ bytes
unfolding binary_of
binary_of_lem chunk zero [] h = refl
binary_of_lem chunk zero (b ∷ bytes) h = absurd (omega arith)
binary_of_lem chunk (suc left) [] h = binary_of_lem chunk left [] (omega arith)
binary_of_lem chunk (suc left) (b ∷ bytes) h =
    let rest =
      binary_of_lem chunk left (drop chunk bytes) (omega (arith, length-drop chunk bytes, h)) in
    ap (λ binary. b ∷ (take chunk bytes ++ binary)) rest
    ∙ ap (λ rest. b ∷ rest) (take-drop chunk bytes)

pub bytes_to_base64_lem :
    (base64 : Base64) (bytes : Bytes) → bytes_to_base64 base64 bytes ≡ base64.btoa bytes
unfolding bytes_to_base64
bytes_to_base64_lem base64 bytes =
    ap base64.btoa (binary_of_lem 32767 (length bytes) bytes (omega arith))

bytes_of_lem : (binary : Text) → bytes_of binary ≡ binary
unfolding bytes_of
bytes_of_lem [] = refl
bytes_of_lem (c ∷ binary) = ap (λ rest. c ∷ rest) (bytes_of_lem binary)

-- Decoding a body gives back the bytes that were encoded.
pub base64_to_bytes-bytes_to_base64 :
    (base64 : Base64) (bytes : Bytes)
    → base64_to_bytes base64 (bytes_to_base64 base64 bytes) ≡ bytes
unfolding base64_to_bytes
base64_to_bytes-bytes_to_base64 base64 bytes =
    bytes_of_lem _ ∙ ap base64.atob (bytes_to_base64_lem base64 bytes) ∙ base64.atob-btoa bytes

pub bytes_to_base64-dash :
    (base64 : Base64) (bytes : Bytes) → bytes_to_base64 base64 bytes ≢ codes "-"
bytes_to_base64-dash base64 bytes e =
    base64.btoa-dash bytes (sym (bytes_to_base64_lem base64 bytes) ∙ e)
