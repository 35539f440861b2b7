-- ===== src/Fingerprint/Json.antt =====
-- Fingerprints of requests with JSON bodies.
use anyonce.Prelude.{Text, Bytes, Bool, Option, some, ◌∷◌, ◌++◌, ok, ◌≡◌, ◌↔◌, refl, sym, ap, ◌∙◌}
use anyonce.Jcs.{Value, canonicalize}
use anyonce.Jcs.Normal.{normal}
use anyonce.Jcs.Heads.{Prints}
use anyonce.Jcs.Canonical.{canonicalize_iff}
use anyonce.Fingerprint.{sha256_hex, joined_text, canonical_fingerprint}
use anyonce.Fingerprint.Canonical.{canonical_body}
use anyonce.Fingerprint.Laws.{IsLine, IsBytes, line_injective, to_hex_injective}

module _ {N : Type 0} (is_finite : N → Bool) (number_text : N → Text) (quote : Text → Text)
    (parse : Bytes → Option (Value N)) where
  canonical_body-some :
      (body : Bytes) (v : Value N) (s : Text)
      → parse body ≡ some v
      → canonicalize is_finite number_text quote v ≡ ok s
      → canonical_body is_finite number_text quote parse body ≡ some s
  unfolding canonical_body
  canonical_body-some body v s e e' = rw (canonical_body, e, e') refl

  module _ (encode : Text → Bytes) (sha256 : Bytes → Bytes)
      (encode-line : (s t : Text) → encode (s ++ 10 ∷ t) ≡ encode s ++ 10 ∷ encode t) where
    joined_text_lem :
        (method path text : Text)
        → joined_text encode sha256 method path text
          ≡ encode method ++ (10 ∷ (encode path ++ (10 ∷ encode text)))
    unfolding joined_text
    joined_text_lem method path text =
        encode-line method (path ++ (10 ∷ text))
        ∙ ap (λ rest. encode method ++ (10 ∷ rest)) (encode-line path text)

    fingerprint_lem :
        (method path : Text) (body : Bytes) (s : Text)
        → canonical_body is_finite number_text quote parse body ≡ some s
        → canonical_fingerprint encode sha256
            (canonical_body is_finite number_text quote parse)
            method
            path
            body
          ≡ sha256_hex encode sha256 (joined_text encode sha256 method path s)
    unfolding canonical_fingerprint
    fingerprint_lem method path body s e = rw (canonical_fingerprint, e) refl

    module _ (platform : Prints is_finite number_text quote)
        (lines : (s : Text) → IsLine s → IsLine (encode s))
        (bytes : (b : Bytes) → IsBytes (sha256 b)) where
      -- In the mode `jcs` two requests with JSON bodies have one fingerprint exactly if they have the same method
      -- and path, as bytes, and the bodies have the same normal form. Methods and paths hold no line feed; the
      -- encoder writes a line feed as itself and nothing else as one, and tells the two canonical texts apart;
      -- SHA-256 gives bytes and does not collide on what is hashed.
      pub jcs_iff :
          (method path method' path' : Text) (body body' : Bytes) (v w : Value N) (s t : Text)
          → IsLine method
          → IsLine path
          → IsLine method'
          → IsLine path'
          → parse body ≡ some v
          → parse body' ≡ some w
          → canonicalize is_finite number_text quote v ≡ ok s
          → canonicalize is_finite number_text quote w ≡ ok t
          → (encode s ≡ encode t → s ≡ t)
          → (sha256 (joined_text encode sha256 method path s)
                ≡ sha256 (joined_text encode sha256 method' path' t)
              → joined_text encode sha256 method path s ≡ joined_text encode sha256 method' path' t)
          → (canonical_fingerprint encode sha256
                (canonical_body is_finite number_text quote parse)
                method
                path
                body
              ≡ canonical_fingerprint encode sha256
                  (canonical_body is_finite number_text quote parse)
                  method'
                  path'
                  body')
            ↔ ((encode method ≡ encode method')
                × (encode path ≡ encode path')
                × (normal v ≡ normal w))
      unfolding sha256_hex
      jcs_iff method path method' path' body body' v w s t m p m' p' e e' c c' texts apart =
          let here = fingerprint_lem method path body s (canonical_body-some body v s e c) in
          let there = fingerprint_lem method' path' body' t (canonical_body-some body' w t e' c') in
          let same_form = canonicalize_iff is_finite number_text quote platform v w s t c c' in
          (
            (λ q.
                let hash =
                  apart (to_hex_injective _ _ (bytes _) (bytes _) (sym here ∙ q ∙ there)) in
                let (same_method, rest) =
                  line_injective _ _ _ _ (lines method m) (lines method' m') (
                    sym (joined_text_lem method path s) ∙ hash ∙ joined_text_lem method' path' t) in
                let (same_path, text) =
                  line_injective _ _ _ _ (lines path p) (lines path' p') rest in
                (same_method, same_path, same_form.0 (texts text))),
            (λ (a, b, n).
                here
                ∙ ap (sha256_hex encode sha256) (
                    joined_text_lem method path s
                    ∙ rw (a, b, same_form.1 n) refl
                    ∙ sym (joined_text_lem method' path' t))
                ∙ sym there),
          )
