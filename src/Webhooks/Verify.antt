-- ===== src/Webhooks/Verify.antt =====
-- packages/webhooks/src/verify.ts and marker.ts: Standard Webhooks signatures, and the marker of an upstream
-- verifier. The platform's base64, HMAC-SHA-256, text encoding, `Number` and `String` are parameters.
pub mod Equal
pub mod Signatures
pub mod Laws
pub mod Tests
use Prim.Native.Nat.{bit_or, bit_xor}
use anyonce.Prelude.{
  ℕ, zero, suc, ◌+◌, ◌-◌, ◌*◌, Text, codes, text_eq, Bytes, Bool, true, false, not, ◌&&◌, ◌||◌,
  Option, none, some, List, [], ◌∷◌, ◌++◌, length, ltb, Result, err, ◌==◌, or_else, if◌then◌else◌,
}

-- A whole number, as `Math.trunc` gives it.
pub data ℤ : Type 0 where
  pos negsuc : ℕ → ℤ

pub record Crypto : Type 0 where
  -- `none` is a text that is not base64.
  pub base64_to_bytes : Text → Option Bytes
  pub sign : Bytes → Bytes → Bytes
  pub encode : Text → Bytes
  -- `Math.trunc(Number(text))`, if it is finite
  pub whole_number : Text → Option ℤ
  pub decimal : ℤ → Text

abbrev pub secret_prefix : Text
secret_prefix = codes "whsec_"

abbrev pub default_tolerance_seconds : ℕ
default_tolerance_seconds = 300

-- What follows a prefix, if the text starts with it.
unfoldable pub after_prefix : Text → Text → Option Text
after_prefix [] t = some t
after_prefix (p ∷ ps) [] = none
after_prefix (p ∷ ps) (c ∷ t) = let rest = after_prefix ps t in if p == c then rest else none

pub data SecretError : Type 0 where
  not_base64 empty_secret no_secret : SecretError

pub data Secret : Type 0 where
  ok : Bytes → Secret
  bad : SecretError → Secret

abbrev not_empty : Bytes → Secret
not_empty [] = bad empty_secret
not_empty (b ∷ bytes) = ok (b ∷ bytes)

-- `parseSecret`; `bad` is a TypeError.
unfoldable pub parse_secret : Crypto → Text → Secret
unfolding after_prefix
parse_secret crypto secret =
    let raw = or_else (after_prefix secret_prefix secret) secret in
    elim (crypto.base64_to_bytes raw) [ none ↦ bad not_base64 | some bytes ↦ not_empty bytes ]

-- The loop of `equalBytes`.
unfoldable pub difference : ℕ → Bytes → Bytes → ℕ
difference diff [] b = diff
difference diff (x ∷ a) [] = diff
difference diff (x ∷ a) (y ∷ b) = difference (bit_or diff (bit_xor x y)) a b

unfoldable pub equal_bytes : Bytes → Bytes → Bool
unfolding difference
equal_bytes a b = if not (length a == length b) then false else difference 0 a b == 0

-- `signature.split(' ')`
unfoldable pub split_spaces : Text → Text → List Text
split_spaces word [] = word ∷ []
split_spaces word (c ∷ t) =
    let next = split_spaces [] t in
    let longer = split_spaces (word ++ c ∷ []) t in if c == 32 then word ∷ next else longer

-- The milliseconds between the clock and a time in seconds.
unfoldable pub distance : ℕ → ℤ → ℕ
distance now (pos seconds) = (now - seconds * 1000) + (seconds * 1000 - now)
distance now (negsuc seconds) = now + (seconds + 1) * 1000

-- `secrets.map(parseSecret)`: the first bad one is thrown.
unfoldable pub parse_secrets : Crypto → List Text → Result SecretError (List Bytes)
unfolding parse_secret
parse_secrets crypto [] = Result.ok []
parse_secrets crypto (secret ∷ secrets) =
    let rest = parse_secrets crypto secrets in
    elim (parse_secret crypto secret) [
      | bad error ↦ err error
      | ok bytes ↦ elim rest [ err error ↦ err error | Result.ok keys ↦ Result.ok (bytes ∷ keys) ]
    ]

-- The secrets that `standardWebhooksVerify` keeps; `err` is a TypeError.
unfoldable pub verify_keys : Crypto → List Text → Result SecretError (List Bytes)
unfolding parse_secrets
verify_keys crypto [] = err no_secret
verify_keys crypto (secret ∷ secrets) = parse_secrets crypto (secret ∷ secrets)

abbrev pub is_empty : List Bytes → Bool
is_empty [] = true
is_empty (b ∷ bs) = false

module _ (crypto : Crypto) where
  -- The signature of one entry, if it is of version 1 and base64.
  unfoldable pub candidate : Text → Option Bytes
  unfolding after_prefix
  candidate entry = elim (after_prefix (codes "v1,") entry) [
    | none ↦ none
    | some text ↦ crypto.base64_to_bytes text
  ]

  unfoldable pub candidates : List Text → List Bytes
  unfolding candidate
  candidates [] = []
  candidates (entry ∷ entries) =
      let rest = candidates entries in
      elim (candidate entry) [ none ↦ rest | some bytes ↦ bytes ∷ rest ]

  -- The inner loop: `matched` stays true once it is.
  unfoldable pub match_any : Bytes → List Bytes → Bool → Bool
  unfolding equal_bytes
  match_any mac [] matched = matched
  match_any mac (c ∷ presented) matched =
      let next = if equal_bytes mac c then true else matched in match_any mac presented next

  unfoldable pub match_keys : List Bytes → Bytes → List Bytes → Bool → Bool
  unfolding match_any
  match_keys [] content presented matched = matched
  match_keys (key ∷ keys) content presented matched =
      match_keys keys content presented (match_any (crypto.sign key content) presented matched)

  abbrev pub signed_content : Text → ℤ → Bytes → Bytes
  signed_content id seconds body =
      crypto.encode (id ++ codes "." ++ crypto.decimal seconds ++ codes ".") ++ body

  -- The check once all three headers are there.
  unfoldable pub check_headers : List Bytes → ℕ → ℕ → Text → Text → Text → Bytes → Bool
  unfolding distance candidates split_spaces match_keys
  check_headers keys tolerance now id timestamp signature body =
      elim (crypto.whole_number timestamp) [
        | none ↦ false
        | some seconds ↦
            let presented = candidates (split_spaces [] signature) in
            if ltb tolerance (distance now seconds)
            then false
            else if is_empty presented
            then false
            else match_keys keys (signed_content id seconds body) presented false
      ]

  -- The function that `standardWebhooksVerify` returns, on what `headers.get` gives.
  unfoldable pub standard_webhooks_verify :
      List Bytes → ℕ → ℕ → Option Text → Option Text → Option Text → Bytes → Bool
  unfolding check_headers
  standard_webhooks_verify keys tolerance_seconds now (some id) (some timestamp) (some signature)
        body =
      check_headers keys (tolerance_seconds * 1000) now id timestamp signature body
  standard_webhooks_verify keys tolerance_seconds now id timestamp signature body = false

-- The markers of each request, in the order in which they were set.
unfoldable pub is_verified : List Text → Text → Bool
is_verified [] marker = false
is_verified (m ∷ markers) marker =
    let rest = is_verified markers marker in if text_eq m marker then true else rest

unfoldable pub mark_verified : List Text → Text → List Text
mark_verified markers marker = markers ++ marker ∷ []
