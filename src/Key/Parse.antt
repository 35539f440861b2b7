-- ===== src/Key/Parse.antt =====
-- What `parseKey` accepts, and how a key is written so that it is read back.
use anyonce.Prelude.{
  ℕ, Text, true, false, [], ◌∷◌, ◌++◌, ◌≡◌, ◌≢◌, ◌↔◌, inl, inr, refl, ap, sym, ◌∙◌, arith, All,
  append-nil, Bool-cases,
}
use anyonce.SfString
use anyonce.SfString.{drop_while, trim, is_space, trim_spaces, parse_sf_string}
use anyonce.SfString.Parse.{parse_sf_string_iff}
use anyonce.SfString.Scan.{IsPrintable, escape, quote}
use anyonce.SfString.Trim.{trim_ends, trim_token, StartsClean, trim-StartsClean, trim-head}
use anyonce.Key.{
  KeySyntax, lenient, strict, KeyValidation, ParseKeyResult, validate_key, trim_ows, is_ows,
  validated, is_quoted, from_sf_string, parse_trimmed, parse_key,
}
use anyonce.Key.Valid.{IsAllowed, IsValid, validate_key_iff}

abbrev pub IsOws : ℕ → Type 0
IsOws c = is_ows c ≡ true

IsPrintable-of_IsAllowed : (c : ℕ) → IsAllowed true c → IsPrintable c
IsPrintable-of_IsAllowed c h = ground arith

All-IsPrintable : (key : Text) → All (IsAllowed true) key → All IsPrintable key
All-IsPrintable [] h = tt
All-IsPrintable (c ∷ key) (p, h) = (IsPrintable-of_IsAllowed c p, All-IsPrintable key h)

validated_iff :
    (s key : Text) (v : KeyValidation)
    → (validated s v ≡ ParseKeyResult.ok key) ↔ ((s ≡ key) × (v ≡ KeyValidation.ok))
unfolding validated
validated_iff s key v = ground arith

from_sf_string_iff :
    (r : SfString.SfStringResult) (key : Text)
    → (from_sf_string r ≡ ParseKeyResult.ok key) ↔ ((r ≡ SfString.ok key) × IsValid true key)
unfolding from_sf_string
from_sf_string_iff (SfString.fail reason) key = (λ e. cc e, λ h. cc (h.0))
from_sf_string_iff (SfString.ok v) key =
    let checked = validated_iff v key (validate_key v true) in
    (
      λ e. (
        ap SfString.ok (checked.0 e).0,
        rw (← (checked.0 e).0) ((validate_key_iff v true).0 (checked.0 e).1),
      ),
      λ h.
          let same : v ≡ key = cc (h.0) in
          checked.1 (same, (validate_key_iff v true).1 (rw same h.1)),
    )

-- The branches of `parse_trimmed`.
strict_lem : (s : Text) → parse_trimmed s strict ≡ from_sf_string (parse_sf_string s)
unfolding parse_trimmed
strict_lem s = refl

quoted_lem :
    (s : Text) (syntax : KeySyntax)
    → is_quoted s ≡ true
    → parse_trimmed s syntax ≡ from_sf_string (parse_sf_string s)
unfolding parse_trimmed
quoted_lem s syntax e = ground arith

token_lem :
    (s : Text) → is_quoted s ≡ false → parse_trimmed s lenient ≡ validated s (validate_key s false)
unfolding parse_trimmed
token_lem s e = ground arith

All-IsAllowed : (key : Text) → All (IsAllowed false) key → All (IsAllowed true) key
All-IsAllowed [] h = tt
All-IsAllowed (c ∷ key) (p, h) = (ground arith, All-IsAllowed key h)

parse_trimmed-IsValid :
    (s : Text) (syntax : KeySyntax) (key : Text)
    → parse_trimmed s syntax ≡ ParseKeyResult.ok key
    → IsValid true key
parse_trimmed-IsValid s strict key e =
    ((from_sf_string_iff (parse_sf_string s) key).0 (rw strict_lem at e)).1
parse_trimmed-IsValid s lenient key e = elim (Bool-cases (is_quoted s)) [
  | inl quoted ↦
      ((from_sf_string_iff (parse_sf_string s) key).0 (sym (quoted_lem s lenient quoted) ∙ e)).1
  | inr plain ↦
      let (same, good) = (validated_iff s key _).0 (sym (token_lem s plain) ∙ e) in
      let v = (validate_key_iff s false).0 good in
      rw (← same)
        (record { nonempty = v.nonempty; allowed = All-IsAllowed s v.allowed; short = v.short })
]

-- Whatever the header value and the syntax, a parsed key has 1 to 255 code units, each printable
-- ASCII or a space.
pub parse_key-IsValid :
    (header_value : Text) (syntax : KeySyntax) (key : Text)
    → parse_key header_value syntax ≡ ParseKeyResult.ok key
    → IsValid true key
unfolding parse_key
parse_key-IsValid header_value syntax key = parse_trimmed-IsValid (trim_ows header_value) syntax key

trim_quote : (key : Text) → trim_spaces (quote key) ≡ quote key
unfolding quote trim_spaces
trim_quote key =
    ap (λ s. trim is_space s) {x = quote key} (sym (append-nil (quote key)))
    ∙ trim_ends is_space [] [] tt tt 0x22 0x22 (escape key) refl refl

not_ows : (key : Text) → All (IsAllowed false) key → All (λ c. is_ows c ≡ false) key
not_ows [] h = tt
not_ows (c ∷ key) (p, h) = (ground arith, not_ows key h)

-- A valid key, written as an sf-string with any optional whitespace round it, is read back as
-- itself under either syntax.
pub parse_key-quote :
    (before after key : Text) (syntax : KeySyntax)
    → All IsOws before
    → All IsOws after
    → IsValid true key
    → parse_key (before ++ (quote key ++ after)) syntax ≡ ParseKeyResult.ok key
unfolding parse_key quote
parse_key-quote before after key syntax hb ha v =
    ap (λ s. parse_trimmed s syntax)
      (trim_ends is_ows before after hb ha 0x22 0x22 (escape key) refl refl)
    ∙ (quoted_lem (quote key) syntax refl
        ∙ (from_sf_string_iff (parse_sf_string (quote key)) key).1 (
          (parse_sf_string_iff (quote key) key).1 (trim_quote key, All-IsPrintable key v.allowed),
          v,
        ))

-- A valid key without spaces that does not begin with a double quote may be sent bare: under the
-- lenient syntax it is read as itself, with any optional whitespace round it.
pub parse_key-token :
    (before after : Text) (c : ℕ) (key : Text)
    → All IsOws before
    → All IsOws after
    → IsValid false (c ∷ key)
    → c ≢ 0x22
    → parse_key (before ++ ((c ∷ key) ++ after)) lenient ≡ ParseKeyResult.ok (c ∷ key)
unfolding parse_key
parse_key-token before after c key hb ha v h =
    let bare : is_quoted (c ∷ key) ≡ false = unfold is_quoted in ground arith in
    ap (λ s. parse_trimmed s lenient)
      (trim_token is_ows before after hb ha c key (not_ows (c ∷ key) v.allowed))
    ∙ (token_lem (c ∷ key) bare
        ∙ (validated_iff (c ∷ key) (c ∷ key) _).1 (refl, (validate_key_iff (c ∷ key) false).1 v))

-- A serialisation behind trimmed whitespace begins with a quote.
trim_ows-StartsClean : (s : Text) → StartsClean is_ows (trim_ows s)
unfolding trim_ows
trim_ows-StartsClean s = trim-StartsClean is_ows s

trim_ows-is_quoted :
    (s key : Text) → StartsClean is_ows s → trim_spaces s ≡ quote key → is_quoted s ≡ true
unfolding is_quoted trim_spaces quote
trim_ows-is_quoted [] key h e = unfold trim drop_while in cc e
trim_ows-is_quoted (c ∷ s) key h e =
    let (t, same) = trim-head is_space c s (ground (arith, h)) in
    let first : c ≡ 0x22 = cc (sym same ∙ e) in ground (arith, first)

-- Under the strict syntax a key is read exactly from the serialisation of a valid key, and the
-- lenient syntax reads the same key from it.
pub parse_key-strict_iff :
    (header_value key : Text)
    → ((parse_key header_value strict ≡ ParseKeyResult.ok key)
        ↔ ((trim_spaces (trim_ows header_value) ≡ quote key) × IsValid true key))
      × (parse_key header_value strict ≡ ParseKeyResult.ok key
          → parse_key header_value lenient ≡ ParseKeyResult.ok key)
unfolding parse_key
parse_key-strict_iff header_value key =
    let sf = parse_sf_string_iff (trim_ows header_value) key in
    let valid = from_sf_string_iff (parse_sf_string (trim_ows header_value)) key in
    (
      (
        λ e. ((sf.0 (valid.0 (sym (strict_lem (trim_ows header_value)) ∙ e)).0).0, (valid.0 e).1),
        λ h. valid.1 (sf.1 (h.0, All-IsPrintable key h.1.allowed), h.1),
      ),
      λ e.
          let serial = sf.0 (valid.0 (sym (strict_lem (trim_ows header_value)) ∙ e)).0 in
          quoted_lem (trim_ows header_value) lenient (
            trim_ows-is_quoted (trim_ows header_value) key (trim_ows-StartsClean header_value)
              serial.0)
          ∙ sym (strict_lem (trim_ows header_value))
          ∙ e,
    )
