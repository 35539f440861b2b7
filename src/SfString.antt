-- ===== src/SfString.antt =====
-- packages/core/src/sfstring.ts: the parser of one RFC 9651 sf-string.
pub mod Scan
pub mod Trim
pub mod Parse
use anyonce.Prelude.{ℕ, ◌+◌, Text, Bool, ◌||◌, ◌&&◌, not, [], ◌∷◌, ◌++◌, ltb, ◌==◌, if◌then◌else◌}

-- The reasons of the source; the one about an escape carries its index.
pub data SfStringReason : Type 0 where
  missing_quote : SfStringReason
  unterminated_escape : SfStringReason
  invalid_escape : ℕ → SfStringReason
  trailing_characters : SfStringReason
  non_printable : SfStringReason
  unterminated_quote : SfStringReason

pub data SfStringResult : Type 0 where
  ok : Text → SfStringResult
  fail : SfStringReason → SfStringResult

-- The `while` loops that move `start` and `end`: drop while the test holds, at one end, at both.
unfoldable pub drop_while : (ℕ → Bool) → Text → Text
drop_while p [] = []
drop_while p (c ∷ s) = let rest = drop_while p s in if p c then rest else c ∷ s

-- One character in front of what is kept behind it.
unfoldable keep : (ℕ → Bool) → ℕ → Text → Text
keep p c [] = if p c then [] else c ∷ []
keep p c (d ∷ t) = c ∷ d ∷ t

unfoldable keep_to_last : (ℕ → Bool) → Text → Text
unfolding keep
keep_to_last p [] = []
keep_to_last p (c ∷ s) = keep p c (keep_to_last p s)

unfoldable pub trim : (ℕ → Bool) → Text → Text
unfolding drop_while keep_to_last
trim p s = keep_to_last p (drop_while p s)

abbrev pub is_space : ℕ → Bool
is_space c = c == 0x20

unfoldable pub trim_spaces : Text → Text
unfolding trim
trim_spaces = trim is_space

-- The loop from index `i`, over the characters that are left; `out` is what has been read so far.
unfoldable pub scan : ℕ → Text → Text → SfStringResult
scan i out [] = fail unterminated_quote
scan i out (code ∷ []) =
    if code == 0x5c
    then fail unterminated_escape
    else if code == 0x22
    then ok out
    else if ltb code 0x20 || ltb 0x7e code
    then fail non_printable
    else fail unterminated_quote
scan i out (code ∷ next ∷ s) =
    let escaped = scan (i + 2) (out ++ next ∷ []) s in
    let plain = scan (i + 1) (out ++ code ∷ []) (next ∷ s) in
    if code == 0x5c
    then if not (next == 0x22) && not (next == 0x5c) then fail (invalid_escape (i + 1)) else escaped
    else if code == 0x22
    then fail trailing_characters
    else if ltb code 0x20 || ltb 0x7e code
    then fail non_printable
    else plain

unfoldable opened : Text → SfStringResult
opened [] = fail missing_quote
opened (code ∷ s) = if code == 0x22 then scan 1 [] s else fail missing_quote

unfoldable pub parse_sf_string : Text → SfStringResult
unfolding trim_spaces opened scan
parse_sf_string input = opened (trim_spaces input)
