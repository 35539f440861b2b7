-- ===== src/Jcs/Heads.antt =====
-- What the first character of a printed value tells.
use anyonce.Prelude.{
  ℕ, Text, codes, Bool, true, false, ◌&&◌, ◌||◌, [], ◌∷◌, ◌++◌, leb, ◌==◌, if◌then◌else◌, Result,
  ok, err, ◌≡◌, ◌≢◌, refl, sym, ap, ◌∙◌, Bool-cases, inl, inr, All,
}
use anyonce.Jcs.{
  Value, undefined, null, boolean, number, string, array, object, with_to_json, other, Items,
  Members, JcsError, and_then,
}
use anyonce.Jcs.Normal.{print, print_items, print_members}

-- The characters of a JSON number: digits, `-`, `+`, `.`, `e`.
abbrev pub is_numeral : ℕ → Bool
is_numeral c = (leb 48 c && leb c 57) || (c == 43 || (c == 45 || (c == 46 || c == 101)))

abbrev pub IsNumeral : Text → Type 0
IsNumeral t = (t ≢ []) × All (λ c. is_numeral c ≡ true) t

-- What the platform promises of the texts of numbers and texts: a finite number is written with the characters of
-- numerals and can be read back, and a quoted text begins with a quote and can be read back with anything behind
-- it.
pub record Prints {N : Type 0} (is_finite : N → Bool) (number_text : N → Text) (quote : Text → Text)
    : Type 0 where
  pub numeral : (n : N) → is_finite n ≡ true → IsNumeral (number_text n)
  pub number_injective :
      (n n' : N)
      → is_finite n ≡ true
      → is_finite n' ≡ true
      → number_text n ≡ number_text n'
      → n ≡ n'
  pub quoted : (s : Text) → (t : Text) × (quote s ≡ 34 ∷ t)
  pub quote_injective : (s s' r r' : Text) → quote s ++ r ≡ quote s' ++ r' → (s ≡ s') × (r ≡ r')

-- Nothing that would go on a number.
abbrev pub IsEnd : Text → Type 0
IsEnd [] = Unit
IsEnd (c ∷ r) = is_numeral c ≡ false

pub numeral_injective :
    (s s' r r' : Text)
    → All (λ c. is_numeral c ≡ true) s
    → All (λ c. is_numeral c ≡ true) s'
    → IsEnd r
    → IsEnd r'
    → s ++ r ≡ s' ++ r'
    → (s ≡ s') × (r ≡ r')
numeral_injective [] [] r r' h h' e e' q = (refl, q)
numeral_injective [] (c ∷ s') [] r' h (n, h') e e' q = cc q
numeral_injective [] (c ∷ s') (d ∷ r) r' h (n, h') e e' q =
    let same : d ≡ c = cc q in absurd (cc (same, n, e))
numeral_injective (c ∷ s) [] r [] (n, h) h' e e' q = cc q
numeral_injective (c ∷ s) [] r (d ∷ r') (n, h) h' e e' q =
    let same : c ≡ d = cc q in absurd (cc (same, n, e'))
numeral_injective (c ∷ s) (d ∷ s') r r' (n, h) (n', h') e e' q =
    let (l, same) = numeral_injective s s' r r' h h' e e' (cc q) in (cc (q, l), same)

-- What the first character of a text tells of a value.
pub data Shape : Type 0 where
  a_null a_true a_false a_number a_string an_array an_object nothing : Shape

unfoldable pub kind : ℕ → Shape
kind c =
    if is_numeral c
    then a_number
    else if c == 110
    then a_null
    else if c == 116
    then a_true
    else if c == 102
    then a_false
    else if c == 34
    then a_string
    else if c == 91
    then an_array
    else if c == 123
    then an_object
    else nothing

unfoldable pub shape : {N : Type 0} → Value N → Shape
shape null = a_null
shape (boolean b) = if b then a_true else a_false
shape (number n) = a_number
shape (string s) = a_string
shape (array xs) = an_array
shape (object ms) = an_object
shape _ = nothing

pub differ : (c d : ℕ) (r r' : Text) → c ≢ d → c ∷ r ≢ d ∷ r'
differ c d r r' ne q = ne (cc q)

pub and_then-ok :
    {A B : Type 0} (r : Result JcsError A) (f : A → Result JcsError B) (b : B)
    → and_then r f ≡ ok b
    → (a : A) × (r ≡ ok a) × (f a ≡ ok b)
and_then-ok (ok a) f b e = (a, refl, e)
and_then-ok (err x) f b e = cc e

-- The same for two steps, whose results a third puts together.
pub two_parts :
    (r r' : Result JcsError Text) (f : Text → Text → Text) (s : Text)
    → and_then r (λ t. and_then r' λ u. ok (f t u)) ≡ ok s
    → (t u : Text) × (r ≡ ok t) × (r' ≡ ok u) × (s ≡ f t u)
two_parts (ok t) (ok u) f s e = (t, u, refl, refl, cc e)
two_parts (ok t) (err x) f s e = cc e
two_parts (err x) r' f s e = cc e

number_head : (s : Text) → IsNumeral s → (c : ℕ) × (t : Text) × (s ≡ c ∷ t) × (kind c ≡ a_number)
unfolding kind
number_head [] (ne, h) = absurd (ne refl)
number_head (c ∷ s) (ne, (n, h)) = (c, s, refl, rw n refl)

module _ {N : Type 0} where
  pub of_null : (w : Value N) → shape w ≡ a_null → w ≡ null
  unfolding shape
  of_null null e = refl
  of_null (boolean true) e = cc e
  of_null (boolean false) e = cc e
  of_null _ e = cc e

  pub of_true : (w : Value N) → shape w ≡ a_true → w ≡ boolean true
  unfolding shape
  of_true (boolean true) e = refl
  of_true (boolean false) e = cc e
  of_true _ e = cc e

  pub of_false : (w : Value N) → shape w ≡ a_false → w ≡ boolean false
  unfolding shape
  of_false (boolean true) e = cc e
  of_false (boolean false) e = refl
  of_false _ e = cc e

  pub of_number : (w : Value N) → shape w ≡ a_number → (n : N) × (w ≡ number n)
  unfolding shape
  of_number (number n) e = (n, refl)
  of_number (boolean true) e = cc e
  of_number (boolean false) e = cc e
  of_number _ e = cc e

  pub of_string : (w : Value N) → shape w ≡ a_string → (s : Text) × (w ≡ string s)
  unfolding shape
  of_string (string s) e = (s, refl)
  of_string (boolean true) e = cc e
  of_string (boolean false) e = cc e
  of_string _ e = cc e

  pub of_array : (w : Value N) → shape w ≡ an_array → (xs : Items N) × (w ≡ array xs)
  unfolding shape
  of_array (array xs) e = (xs, refl)
  of_array (boolean true) e = cc e
  of_array (boolean false) e = cc e
  of_array _ e = cc e

  pub of_object : (w : Value N) → shape w ≡ an_object → (ms : Members N) × (w ≡ object ms)
  unfolding shape
  of_object (object ms) e = (ms, refl)
  of_object (boolean true) e = cc e
  of_object (boolean false) e = cc e
  of_object _ e = cc e

module _ {N : Type 0} {is_finite : N → Bool} {number_text : N → Text} {quote : Text → Text}
    (platform : Prints is_finite number_text quote) where
  abbrev pub text : Value N → Result JcsError Text
  text v = print is_finite number_text quote v

  pub number_print :
      (n : N) (s : Text) → text (number n) ≡ ok s → (is_finite n ≡ true) × (number_text n ≡ s)
  unfolding print
  number_print n s e = elim (Bool-cases (is_finite n)) [
    | inl finite ↦ (finite, cc (rw finite at e))
    | inr not_finite ↦ absurd (cc (rw not_finite at e))
  ]

  -- The text of a value begins as its shape says.
  print_head :
      (v : Value N) (s : Text)
      → print is_finite number_text quote v ≡ ok s
      → (c : ℕ) × (t : Text) × (s ≡ c ∷ t) × (kind c ≡ shape v)
  unfolding print shape kind
  print_head undefined s e = cc e
  print_head null s e = (110, codes "ull", cc e, refl)
  print_head (boolean true) s e = (116, codes "rue", cc e, refl)
  print_head (boolean false) s e = (102, codes "alse", cc e, refl)
  print_head (number n) s e =
      let (finite, q) = number_print n s e in
      let (c, t, q', k) = number_head (number_text n) (platform.numeral n finite) in
      (c, t, sym q ∙ q', k)
  print_head (string x) s e = let (t, q) = platform.quoted x in (34, t, cc (e, q), refl)
  print_head (array xs) s e =
      let (t, _, q) = and_then-ok (print_items is_finite number_text quote xs) _ s e in
      (91, t, cc q, refl)
  print_head (object ms) s e =
      let (t, _, q) = and_then-ok (print_members is_finite number_text quote ms) _ s e in
      (123, t, cc q, refl)
  print_head (with_to_json v) s e = cc e
  print_head (other name) s e = cc e

  pub same_shape :
      (v w : Value N) (s s' r r' : Text)
      → text v ≡ ok s
      → text w ≡ ok s'
      → s ++ r ≡ s' ++ r'
      → shape v ≡ shape w
  same_shape v w s s' r r' e e' q =
      let (c, t, h, k) = print_head v s e in
      let (c', t', h', k') = print_head w s' e' in
      let whole : c ∷ (t ++ r) ≡ c' ∷ (t' ++ r') =
        ap (λ x. x ++ r) (sym h) ∙ q ∙ ap (λ x. x ++ r') h' in
      let first : c ≡ c' = cc whole in sym k ∙ ap kind first ∙ k'

  shape-something : (v : Value N) (s : Text) → text v ≡ ok s → shape v ≢ nothing
  unfolding print shape
  shape-something undefined s e h = cc e
  shape-something (with_to_json v) s e h = cc e
  shape-something (other name) s e h = cc e
  shape-something (boolean true) s e h = cc h
  shape-something (boolean false) s e h = cc h
  shape-something _ s e h = cc h

  -- No value begins as a list ends.
  pub not_closed :
      (v : Value N) (s r r' : Text) (c : ℕ) → kind c ≡ nothing → text v ≡ ok s → s ++ r ≢ c ∷ r'
  not_closed v s r r' c k e q =
      let (d, t, h, k') = print_head v s e in
      let whole : d ∷ (t ++ r) ≡ c ∷ r' = ap (λ x. x ++ r) (sym h) ∙ q in
      let first : d ≡ c = cc whole in shape-something v s e (sym k' ∙ ap kind first ∙ k)
