-- ===== src/Jcs/Plain.antt =====
-- A concrete platform for the tests: the numbers are ℕ, written in unary, and a quoted text has a mark before each
-- of its characters.
use anyonce.Prelude.{ℕ, zero, suc, Text, Bool, true, [], ◌∷◌, ◌++◌, ◌≡◌, refl, ap, arith}
use anyonce.Jcs.Heads.{IsNumeral, Prints, differ}

abbrev pub any_number : ℕ → Bool
any_number n = true

abbrev pub ones : ℕ → Text
ones zero = 49 ∷ []
ones (suc n) = 49 ∷ ones n

abbrev marked : Text → Text
marked [] = 34 ∷ []
marked (c ∷ s) = 92 ∷ c ∷ marked s

abbrev pub plain_quote : Text → Text
plain_quote s = 34 ∷ marked s

ones-IsNumeral : (n : ℕ) → IsNumeral (ones n)
ones-IsNumeral zero = ((λ e. cc e), (refl, tt))
ones-IsNumeral (suc n) = ((λ e. cc e), (refl, (ones-IsNumeral n).1))

ones_injective : (n m : ℕ) → ones n ≡ ones m → n ≡ m
ones_injective zero zero e = refl
ones_injective zero (suc zero) e = cc e
ones_injective zero (suc (suc m)) e = cc e
ones_injective (suc zero) zero e = cc e
ones_injective (suc (suc n)) zero e = cc e
ones_injective (suc n) (suc m) e = ap suc (ones_injective n m (cc e))

marked_injective : (s s' r r' : Text) → marked s ++ r ≡ marked s' ++ r' → (s ≡ s') × (r ≡ r')
marked_injective [] [] r r' e = (refl, cc e)
marked_injective [] (c ∷ s') r r' e = absurd (differ 34 92 _ _ (λ q. omega arith) e)
marked_injective (c ∷ s) [] r r' e = absurd (differ 92 34 _ _ (λ q. omega arith) e)
marked_injective (c ∷ s) (d ∷ s') r r' e =
    let (same, rest) = marked_injective s s' r r' (cc e) in (cc (e, same), rest)

pub plain_platform : Prints any_number ones plain_quote
plain_platform = record {
  numeral = λ n finite. ones-IsNumeral n;
  number_injective = λ n m f g e. ones_injective n m e;
  quoted = λ s. (marked s, refl);
  quote_injective = λ s s' r r' e. marked_injective s s' r r' (cc e);
}
