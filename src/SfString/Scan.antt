-- ===== src/SfString/Scan.antt =====
-- What the loop of `parseSfString` accepts: the RFC 9651 serialisation of a printable text.
use anyonce.Prelude.{
  ℕ, ◌+◌, ◌≤◌, Text, Bool, true, false, ◌||◌, [], ◌∷◌, ◌++◌, ◌≡◌, ◌≢◌, refl, ap, sym, ◌∙◌, ◌⊎◌, inl,
  inr, append_assoc, append-nil, arith, All, Bool-cases, ◌==◌, if◌then◌else◌,
}
use anyonce.SfString.{ok, scan}

abbrev pub IsPrintable : ℕ → Type 0
IsPrintable c = (0x20 ≤ c) × (c ≤ 0x7e)

-- The two characters that are written with a backslash.
abbrev pub is_special : ℕ → Bool
is_special c = c == 0x22 || c == 0x5c

unfoldable pub escape : Text → Text
escape [] = []
escape (c ∷ s) = let rest = escape s in if is_special c then 0x5c ∷ c ∷ rest else c ∷ rest

unfoldable pub quote : Text → Text
unfolding escape
quote s = 0x22 ∷ (escape s ++ 0x22 ∷ [])

scan-plain :
    (i : ℕ) (out : Text) (c : ℕ) (t : Text)
    → t ≢ []
    → IsPrintable c
    → is_special c ≡ false
    → scan i out (c ∷ t) ≡ scan (i + 1) (out ++ c ∷ []) t
unfolding scan
scan-plain i out c [] ne p n = absurd (ne refl)
scan-plain i out c (d ∷ t) ne p n = ground arith

scan-special :
    (i : ℕ) (out : Text) (c : ℕ) (t : Text)
    → is_special c ≡ true
    → scan i out (0x5c ∷ c ∷ t) ≡ scan (i + 2) (out ++ c ∷ []) t
unfolding scan
scan-special i out c t n = ground arith

append_cons-ne-nil : (s : Text) (c : ℕ) (t : Text) → (s ++ c ∷ t) ≢ []
append_cons-ne-nil [] c t = cc
append_cons-ne-nil (d ∷ s) c t = cc

-- The loop reads back what `escape` wrote, up to the closing quote.
pub scan-escape :
    (i : ℕ) (out w : Text) → All IsPrintable w → scan i out (escape w ++ 0x22 ∷ []) ≡ ok (out ++ w)
unfolding escape
scan-escape i out [] h = unfold scan in ap ok (sym (append-nil out))
scan-escape i out (c ∷ w) (p, h) = elim (Bool-cases (is_special c)) [
  | inl special ↦
      rw (special, scan-special i out c (escape w ++ 0x22 ∷ []) special)
        (scan-escape (i + 2) (out ++ c ∷ []) w h ∙ ap ok (append_assoc out (c ∷ []) w))
  | inr plain ↦
      rw (plain, scan-plain i out c _ (append_cons-ne-nil (escape w) 0x22 []) p plain)
        (scan-escape (i + 1) (out ++ c ∷ []) w h ∙ ap ok (append_assoc out (c ∷ []) w))
]

-- What has been read when the loop accepts.
pub record IsScanned (out s v : Text) : Type 0 where
  pub read : Text
  pub value : v ≡ out ++ read
  pub rest : s ≡ escape read ++ 0x22 ∷ []
  pub printable : All IsPrintable read

IsScanned-plain :
    {out t v : Text} (c : ℕ)
    → IsPrintable c
    → is_special c ≡ false
    → IsScanned (out ++ c ∷ []) t v
    → IsScanned out (c ∷ t) v
unfolding escape
IsScanned-plain {out} c p plain r = record {
  read = c ∷ r.read;
  value = r.value ∙ append_assoc out (c ∷ []) r.read;
  rest = rw plain (ap (λ x. c ∷ x) r.rest);
  printable = (p, r.printable);
}

IsScanned-special :
    {out t v : Text} (c : ℕ)
    → is_special c ≡ true
    → IsScanned (out ++ c ∷ []) t v
    → IsScanned out (0x5c ∷ c ∷ t) v
unfolding escape
IsScanned-special {out} c special r = record {
  read = c ∷ r.read;
  value = r.value ∙ append_assoc out (c ∷ []) r.read;
  rest = rw special (ap (λ x. 0x5c ∷ c ∷ x) r.rest);
  printable = (ground arith, r.printable);
}

-- The three ways a character is read: the closing quote, an escape, a plain character.
step_last :
    (i : ℕ) (out : Text) (c : ℕ) (v : Text) → scan i out (c ∷ []) ≡ ok v → (c ≡ 0x22) × (v ≡ out)
unfolding scan
step_last i out c v e = ground arith

step_more :
    (i : ℕ) (out : Text) (c d : ℕ) (s v : Text)
    → scan i out (c ∷ d ∷ s) ≡ ok v
    → ((c ≡ 0x5c) × (is_special d ≡ true) × (scan (i + 2) (out ++ d ∷ []) s ≡ ok v))
      ⊎ (IsPrintable c × (is_special c ≡ false) × (scan (i + 1) (out ++ c ∷ []) (d ∷ s) ≡ ok v))
unfolding scan
step_more i out c d s v e = ground arith

-- Whatever the loop accepts is the serialisation of what it returns.
pub scan-IsScanned : (i : ℕ) (out s v : Text) → scan i out s ≡ ok v → IsScanned out s v
scan-IsScanned i out [] v e = unfold scan in cc e
scan-IsScanned i out (c ∷ []) v e =
    let (q, same) = step_last i out c v e in
    record {
      read = [];
      value = same ∙ sym (append-nil out);
      rest = unfold escape in ap (λ x. x ∷ []) q;
      printable = tt;
    }
scan-IsScanned i out (c ∷ d ∷ s) v e = elim (step_more i out c d s v e) [
  | inl (slash, special, e') ↦
      rw slash (IsScanned-special d special (scan-IsScanned (i + 2) (out ++ d ∷ []) s v e'))
  | inr (p, plain, e') ↦
      IsScanned-plain c p plain (scan-IsScanned (i + 1) (out ++ c ∷ []) (d ∷ s) v e')
]
