-- ===== src/Fingerprint/Canonical.antt =====
-- packages/core/src/fingerprint.ts and packages/core/src/http/request.ts: `jcsFingerprint`, and what the mode `jcs`
-- makes of a body. `parse` is the decoder and `JSON.parse`, `none` when one of them throws.
use anyonce.Prelude.{Text, Bytes, Bool, Option, none, some, Result, ok, err}
use anyonce.Jcs.{Value, JcsError, canonicalize, and_then}
use anyonce.Fingerprint.{sha256_hex}

module _ {N : Type 0} (is_finite : N → Bool) (number_text : N → Text) (quote : Text → Text) where
  unfoldable pub jcs_fingerprint : (Text → Bytes) → (Bytes → Bytes) → Value N → Result JcsError Text
  unfolding canonicalize sha256_hex
  jcs_fingerprint encode sha256 json =
      and_then (canonicalize is_finite number_text quote json)
        λ text. ok (sha256_hex encode sha256 (encode text))

  -- `catch` makes an error `undefined`.
  abbrev pub unless_thrown : Result JcsError Text → Option Text
  unless_thrown (ok text) = some text
  unless_thrown (err e) = none

  unfoldable pub canonical_body : (Bytes → Option (Value N)) → Bytes → Option Text
  unfolding canonicalize
  canonical_body parse body = elim (parse body) [
    | none ↦ none
    | some json ↦ unless_thrown (canonicalize is_finite number_text quote json)
  ]
