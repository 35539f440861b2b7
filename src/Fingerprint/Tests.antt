-- ===== src/Fingerprint/Tests.antt =====
-- Runs of the fingerprints, and a witness.
use anyonce.Prelude.{ℕ, some, Option, ◌↔◌, ◌%◌, codes, Bytes, none, [], ◌∷◌, ◌≡◌, refl, arith, ok}
use anyonce.Http.Options.{Fingerprint}
use anyonce.Jcs.{Value}
use anyonce.Jcs.Normal.{normal}
use anyonce.Jcs.Plain.{any_number, ones, plain_quote, plain_platform}
use anyonce.Jcs.Tests.{first, second, their_text, first_text, second_text}
use anyonce.Fingerprint.Canonical.{canonical_body}
use anyonce.Fingerprint.Json.{jcs_iff}
use anyonce.Fingerprint.{canonical_fingerprint, to_hex, http_fingerprint, request_fingerprint}
use anyonce.Fingerprint.Laws.{IsBytes, http_fingerprint_injective}

-- A digest for tests: each unit as one byte.
abbrev as_bytes : Bytes → Bytes
as_bytes [] = []
as_bytes (b ∷ bytes) = (b % 256) ∷ as_bytes bytes

abbrev one_byte : Bytes
one_byte = 1 ∷ []

as_bytes-IsBytes : (bytes : Bytes) → IsBytes (as_bytes bytes)
as_bytes-IsBytes [] = tt
as_bytes-IsBytes (b ∷ bytes) = (omega arith, as_bytes-IsBytes bytes)

padded : to_hex (255 ∷ 9 ∷ []) ≡ codes "ff09"
unfolding to_hex
padded = refl

hashed_as_given :
    http_fingerprint (λ t. t) as_bytes (codes "P") (codes "/a") one_byte ≡ codes "500a2f610a01"
unfolding http_fingerprint
hashed_as_given = refl

-- A body that is not JSON is hashed as bytes.
falls_back :
    request_fingerprint
      (λ t. t)
      as_bytes
      (λ bytes. none)
      {W = Unit}
      {E = Unit}
      {R = Unit}
      (λ req. codes "P")
      (λ req. codes "/a")
      tt
      one_byte
      Fingerprint.jcs
      tt
    ≡ (ok (codes "500a2f610a01"), tt)
unfolding request_fingerprint
falls_back = refl

http_fingerprint_injective_example :
    (codes "P" ≡ codes "P") × (codes "/a" ≡ codes "/a") × (one_byte ≡ one_byte)
http_fingerprint_injective_example =
    http_fingerprint_injective (λ t. t) as_bytes refl (λ s t. refl) (λ s h. h) as_bytes-IsBytes
      (codes "P") (codes "/a") (codes "P") (codes "/a") one_byte one_byte ((λ e. ground arith), tt)
      ((λ e. ground arith), ((λ e. ground arith), tt)) ((λ e. ground arith), tt)
      ((λ e. ground arith), ((λ e. ground arith), tt)) (λ same. refl) refl

-- Two bodies of the same members in another order.
abbrev parsed : Bytes → Option (Value ℕ)
parsed [] = some first
parsed (b ∷ bytes) = some second

jcs_iff_example :
    (canonical_fingerprint
        (λ t. t)
        as_bytes
        (canonical_body any_number ones plain_quote parsed)
        (codes "P")
        (codes "/a")
        []
      ≡ canonical_fingerprint
          (λ t. t)
          as_bytes
          (canonical_body any_number ones plain_quote parsed)
          (codes "P")
          (codes "/a")
          one_byte)
    ↔ ((codes "P" ≡ codes "P") × (codes "/a" ≡ codes "/a") × (normal first ≡ normal second))
jcs_iff_example =
    jcs_iff any_number ones plain_quote parsed (λ t. t) as_bytes (λ s t. refl) plain_platform
      (λ s h. h) as_bytes-IsBytes (codes "P") (codes "/a") (codes "P") (codes "/a") [] one_byte
      first second their_text their_text ((λ e. ground arith), tt)
      ((λ e. ground arith), ((λ e. ground arith), tt)) ((λ e. ground arith), tt)
      ((λ e. ground arith), ((λ e. ground arith), tt)) refl refl first_text second_text (λ e. e)
      (λ e. refl)
