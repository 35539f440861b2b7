-- ===== src/Key.antt =====
-- packages/core/src/key.ts: which keys are valid, and how a header value is read as a key.
pub mod Valid
pub mod Parse
pub mod Redact
pub mod Tests
use anyonce.Prelude.{
  ℕ, suc, Text, Bool, true, false, ◌||◌, ◌&&◌, [], ◌∷◌, length, ltb, ◌==◌, if◌then◌else◌,
}
use anyonce.SfString
use anyonce.SfString.{trim, parse_sf_string}

abbrev pub max_key_bytes : ℕ
max_key_bytes = 255

pub data KeySyntax : Type 0 where
  lenient strict : KeySyntax

-- The reasons of the source; the one about a character carries its index.
pub data KeyReason : Type 0 where
  empty : KeyReason
  character : ℕ → KeyReason
  too_long : KeyReason
  sf_string : SfString.SfStringReason → KeyReason

pub data KeyValidation : Type 0 where
  ok : KeyValidation
  bad : KeyReason → KeyValidation

pub data ParseKeyResult : Type 0 where
  ok : Text → ParseKeyResult
  invalid : KeyReason → ParseKeyResult

-- The `for` loop, from index `i`.
unfoldable validate_from : ℕ → Text → Bool → KeyValidation
validate_from i [] allow_space = KeyValidation.ok
validate_from i (code ∷ key) allow_space =
    let rest = validate_from (suc i) key allow_space in
    if (code == 0x20) && allow_space
    then rest
    else if ltb code 0x21 || ltb 0x7e code
    then bad (character i)
    else rest

-- The test behind the loop.
unfoldable within_limit : Text → KeyValidation → KeyValidation
within_limit key (bad r) = bad r
within_limit key KeyValidation.ok =
    if ltb max_key_bytes (length key) then bad too_long else KeyValidation.ok

unfoldable pub validate_key : Text → Bool → KeyValidation
unfolding validate_from within_limit
validate_key [] allow_space = bad empty
validate_key (c ∷ key) allow_space = within_limit (c ∷ key) (validate_from 0 (c ∷ key) allow_space)

abbrev is_ows : ℕ → Bool
is_ows c = c == 0x20 || c == 0x09

unfoldable pub trim_ows : Text → Text
unfolding trim
trim_ows = trim is_ows

unfoldable is_strict : KeySyntax → Bool
is_strict strict = true
is_strict lenient = false

-- `charCodeAt(0) === 0x22`, false on the empty text.
unfoldable is_quoted : Text → Bool
is_quoted [] = false
is_quoted (c ∷ s) = c == 0x22

unfoldable validated : Text → KeyValidation → ParseKeyResult
validated key KeyValidation.ok = ParseKeyResult.ok key
validated key (bad r) = invalid r

unfoldable from_sf_string : SfString.SfStringResult → ParseKeyResult
unfolding validated
from_sf_string (SfString.ok value) = validated value (validate_key value true)
from_sf_string (SfString.fail reason) = invalid (sf_string reason)

unfoldable parse_trimmed : Text → KeySyntax → ParseKeyResult
unfolding from_sf_string validated is_strict is_quoted validate_key parse_sf_string
parse_trimmed trimmed syntax =
    if is_strict syntax || is_quoted trimmed
    then from_sf_string (parse_sf_string trimmed)
    else validated trimmed (validate_key trimmed false)

unfoldable pub parse_key : Text → KeySyntax → ParseKeyResult
unfolding parse_trimmed trim_ows
parse_key header_value syntax = parse_trimmed (trim_ows header_value) syntax
