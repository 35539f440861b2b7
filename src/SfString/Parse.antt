-- ===== src/SfString/Parse.antt =====
-- `parseSfString` against the serialisation of RFC 9651.
use anyonce.Prelude.{Text, [], ◌∷◌, ◌++◌, ◌≡◌, ◌↔◌, ap, sym, arith, All}
use anyonce.SfString.{ok, trim_spaces, parse_sf_string, opened}
use anyonce.SfString.Scan.{IsPrintable, escape, quote, scan-escape, scan-IsScanned}

opened_sound : (s value : Text) → opened s ≡ ok value → (s ≡ quote value) × All IsPrintable value
unfolding opened quote
opened_sound [] value e = cc e
opened_sound (c ∷ s) value e =
    let opening : c ≡ 0x22 = ground arith in
    let r = scan-IsScanned 1 [] s value (ground arith) in
    (
      rw (opening, r.rest) (ap (λ v. 0x22 ∷ (escape v ++ 0x22 ∷ [])) (sym r.value)),
      rw r.value r.printable,
    )

opened-quote : (value : Text) → All IsPrintable value → opened (quote value) ≡ ok value
unfolding opened quote
opened-quote value h = scan-escape 1 [] value h

-- A header value is accepted exactly when, trimmed of spaces, it is the serialisation of a printable
-- text, and that text is the value.
pub parse_sf_string_iff :
    (input value : Text)
    → (parse_sf_string input ≡ ok value)
      ↔ ((trim_spaces input ≡ quote value) × All IsPrintable value)
unfolding parse_sf_string
parse_sf_string_iff input value =
    (opened_sound (trim_spaces input) value, λ h. rw h.0 (opened-quote value h.1))
