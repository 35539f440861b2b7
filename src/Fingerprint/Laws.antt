-- ===== src/Fingerprint/Laws.antt =====
-- The fingerprints against what they hash.
use anyonce.Prelude.{
  ℕ, ◌/◌, ◌%◌, ◌<◌, Text, Bytes, [], ◌∷◌, ◌++◌, append_assoc, ◌≡◌, ◌≢◌, refl, sym, ap, ◌∙◌, arith,
  All,
}
use anyonce.Fingerprint.{hex_digit, to_hex, sha256_hex, joined, http_fingerprint}

-- Free of line feeds.
abbrev pub IsLine : Text → Type 0
IsLine = All (λ c. c ≢ 10)

-- What precedes a first line feed is determined.
pub line_injective :
    (xs ys : Text) (r r' : Text)
    → IsLine xs
    → IsLine ys
    → xs ++ 10 ∷ r ≡ ys ++ 10 ∷ r'
    → (xs ≡ ys) × (r ≡ r')
line_injective [] [] r r' h h' e = (refl, cc e)
line_injective [] (y ∷ ys) r r' h (ne, h') e = absurd (ne (cc e))
line_injective (x ∷ xs) [] r r' (ne, h) h' e = absurd (ne (cc e))
line_injective (x ∷ xs) (y ∷ ys) r r' (_, h) (_, h') e =
    let (l, same) = line_injective xs ys r r' h h' (cc e) in (cc (e, l), same)

hex_digit_injective : (d d' : ℕ) → d < 16 → d' < 16 → hex_digit d ≡ hex_digit d' → d ≡ d'
unfolding hex_digit
hex_digit_injective d d' h h' e = ground arith

abbrev pub IsBytes : Bytes → Type 0
IsBytes = All (λ b. b < 256)

pub to_hex_injective : (xs ys : Bytes) → IsBytes xs → IsBytes ys → to_hex xs ≡ to_hex ys → xs ≡ ys
unfolding to_hex
to_hex_injective [] [] h h' e = refl
to_hex_injective [] (y ∷ ys) h h' e = cc e
to_hex_injective (x ∷ xs) [] h h' e = cc e
to_hex_injective (x ∷ xs) (y ∷ ys) (b, h) (b', h') e =
    let high = hex_digit_injective (x / 16) (y / 16) (omega arith) (omega arith) (cc e) in
    let low = hex_digit_injective (x % 16) (y % 16) (omega arith) (omega arith) (cc e) in
    let same : x ≡ y = omega arith in cc (same, to_hex_injective xs ys h h' (cc e))

module _ (encode : Text → Bytes) (sha256 : Bytes → Bytes) where
  module _ (encode-nil : encode [] ≡ [])
      (encode-line : (s t : Text) → encode (s ++ 10 ∷ t) ≡ encode s ++ 10 ∷ encode t) where
    joined_lem :
        (method path : Text) (body : Bytes)
        → joined encode sha256 method path body
          ≡ encode method ++ (10 ∷ (encode path ++ (10 ∷ body)))
    unfolding joined
    joined_lem method path body =
        ap (λ text. text ++ body)
          (encode-line method (path ++ (10 ∷ []))
            ∙ ap (λ rest. encode method ++ (10 ∷ rest))
                (encode-line path [] ∙ ap (λ rest. encode path ++ (10 ∷ rest)) encode-nil))
        ∙ append_assoc (encode method) (10 ∷ (encode path ++ (10 ∷ []))) body
        ∙ ap (λ rest. encode method ++ (10 ∷ rest)) (append_assoc (encode path) (10 ∷ []) body)

    -- Two requests with one fingerprint have the same method, path and body, as bytes, if SHA-256 gives bytes and
    -- does not collide on the two texts hashed. Methods and paths hold no line feed; the encoder writes a line feed
    -- as itself, nothing else as one, and the empty text as no bytes.
    pub http_fingerprint_injective :
        ((s : Text) → IsLine s → IsLine (encode s))
        → ((bytes : Bytes) → IsBytes (sha256 bytes))
        → (method path method' path' : Text) (body body' : Bytes) → IsLine method
        → IsLine path
        → IsLine method'
        → IsLine path'
        → (sha256 (joined encode sha256 method path body)
              ≡ sha256 (joined encode sha256 method' path' body')
            → joined encode sha256 method path body ≡ joined encode sha256 method' path' body')
        → http_fingerprint encode sha256 method path body
          ≡ http_fingerprint encode sha256 method' path' body'
        → (encode method ≡ encode method') × (encode path ≡ encode path') × (body ≡ body')
    unfolding http_fingerprint sha256_hex
    http_fingerprint_injective lines bytes method path method' path' body body' m p m' p' apart e =
        let hashed = apart (to_hex_injective _ _ (bytes _) (bytes _) e) in
        let text = sym (joined_lem method path body) ∙ hashed ∙ joined_lem method' path' body' in
        let (same_method, rest) = line_injective _ _ _ _ (lines method m) (lines method' m') text in
        let (same_path, same_body) = line_injective _ _ _ _ (lines path p) (lines path' p') rest in
        (same_method, same_path, same_body)
