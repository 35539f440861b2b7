-- ===== src/Key/Tests.antt =====
-- Keys read from concrete header values.
use anyonce.Prelude.{codes, true, [], ◌++◌, ◌≡◌, ◌↔◌, refl, inr, arith, All}
use anyonce.SfString
use anyonce.SfString.{trim_spaces, parse_sf_string}
use anyonce.SfString.Scan.{IsPrintable, quote}
use anyonce.SfString.Parse.{parse_sf_string_iff}
use anyonce.Key.{
  lenient, strict, ParseKeyResult, invalid, character, sf_string, trim_ows, parse_key,
}
use anyonce.Key.Valid.{IsValid}
use anyonce.Key.Parse.{parse_key-quote, parse_key-strict_iff}

reads :
    (parse_key (codes "  abc-1 ") lenient ≡ ParseKeyResult.ok (codes "abc-1"))
    × (parse_key (codes "\"a b\"") lenient ≡ ParseKeyResult.ok (codes "a b"))
    × (parse_key (codes "a b") lenient ≡ invalid (character 1))
    × (parse_key (codes "abc") strict ≡ invalid (sf_string SfString.missing_quote))
unfolding parse_key
reads = (refl, refl, refl, refl)

parse_key-quote_example :
    parse_key (codes " " ++ (quote (codes "a\"b") ++ [])) strict ≡ ParseKeyResult.ok (codes "a\"b")
parse_key-quote_example =
    parse_key-quote (codes " ") [] (codes "a\"b") strict (refl, tt) tt
      (record {
        nonempty = cc;
        allowed = (inr (omega arith), (inr (omega arith), (inr (omega arith), tt)));
        short = omega arith;
      })

parse_key-strict_iff_example :
    ((parse_key (codes " \"a b\"") strict ≡ ParseKeyResult.ok (codes "a b")) ↔ (
      (trim_spaces (trim_ows (codes " \"a b\"")) ≡ quote (codes "a b"))
      × IsValid true (codes "a b")))
    × (parse_key (codes " \"a b\"") strict ≡ ParseKeyResult.ok (codes "a b")
        → parse_key (codes " \"a b\"") lenient ≡ ParseKeyResult.ok (codes "a b"))
parse_key-strict_iff_example = parse_key-strict_iff (codes " \"a b\"") (codes "a b")

parse_sf_string_iff_example :
    (parse_sf_string (codes "\"x\"") ≡ SfString.ok (codes "x"))
    ↔ ((trim_spaces (codes "\"x\"") ≡ quote (codes "x")) × All IsPrintable (codes "x"))
parse_sf_string_iff_example = parse_sf_string_iff (codes "\"x\"") (codes "x")
