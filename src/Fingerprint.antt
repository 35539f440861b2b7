-- ===== src/Fingerprint.antt =====
-- packages/core/src/fingerprint.ts and `requestFingerprint` of packages/core/src/http/request.ts. SHA-256, the
-- UTF-8 encoder and what decoding, parsing and canonicalizing make of a body (`none` when one of them throws) are
-- parameters.
pub mod Laws
pub mod Canonical
pub mod Json
pub mod Tests
use anyonce.Prelude.{
  ℕ, ◌+◌, ◌/◌, ◌%◌, Text, Bytes, Option, none, some, [], ◌∷◌, ◌++◌, ltb, if◌then◌else◌, M, pure,
}
use anyonce.Http.Options.{Fingerprint}

-- A digit of `toString(16)`.
unfoldable pub hex_digit : ℕ → ℕ
hex_digit d = if ltb d 10 then 48 + d else 87 + d

-- `toHex`; a byte is less than 256.
unfoldable pub to_hex : Bytes → Text
unfolding hex_digit
to_hex [] = []
to_hex (byte ∷ bytes) = hex_digit (byte / 16) ∷ hex_digit (byte % 16) ∷ to_hex bytes

module _ (encode : Text → Bytes) (sha256 : Bytes → Bytes) where
  unfoldable pub sha256_hex : Bytes → Text
  unfolding to_hex
  sha256_hex bytes = to_hex (sha256 bytes)

  -- The bytes that `httpFingerprint` hashes.
  unfoldable pub joined : Text → Text → Bytes → Bytes
  joined method path body = encode (method ++ (10 ∷ (path ++ (10 ∷ [])))) ++ body

  unfoldable pub http_fingerprint : Text → Text → Bytes → Text
  unfolding sha256_hex joined
  http_fingerprint method path body = sha256_hex (joined method path body)

  -- The bytes that the mode `jcs` hashes.
  unfoldable pub joined_text : Text → Text → Text → Bytes
  joined_text method path text = encode (method ++ (10 ∷ (path ++ (10 ∷ text))))

  module _ (canonical : Bytes → Option Text) where
    unfoldable pub canonical_fingerprint : Text → Text → Bytes → Text
    unfolding sha256_hex http_fingerprint joined_text
    canonical_fingerprint method path body = elim (canonical body) [
      | none ↦ http_fingerprint method path body
      | some text ↦ sha256_hex (joined_text method path text)
    ]

    module _ {W E R : Type 0} (method_of path_of : R → Text) where
      unfoldable pub request_fingerprint : R → Bytes → Fingerprint W E R → M W E Text
      unfolding http_fingerprint canonical_fingerprint
      request_fingerprint req body (Fingerprint.by f) = f req body
      request_fingerprint req body Fingerprint.jcs =
          pure (canonical_fingerprint (method_of req) (path_of req) body)
      request_fingerprint req body Fingerprint.body =
          pure (http_fingerprint (method_of req) (path_of req) body)
