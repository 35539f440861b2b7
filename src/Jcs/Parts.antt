-- ===== src/Jcs/Parts.antt =====
-- The pieces of a printed list, each with anything behind it.
use anyonce.Prelude.{
  Text, Bool, [], ◌∷◌, ◌++◌, append_assoc, Result, ok, ◌≡◌, ◌≢◌, refl, sym, ap, ◌∙◌, arith,
}
use anyonce.Jcs.{Items, nil, item, hole, Members, end, member, JcsError}
use anyonce.Jcs.Normal.{print, print_after, print_more}
use anyonce.Jcs.Heads.{Prints, IsEnd, differ, and_then-ok, text}

module _ {N : Type 0} {is_finite : N → Bool} {number_text : N → Text} {quote : Text → Text}
    (platform : Prints is_finite number_text quote) where
  pub print_after-IsEnd :
      (xs : Items N) (s r : Text)
      → print_after is_finite number_text quote xs ≡ ok s
      → IsEnd (s ++ r)
  unfolding print
  print_after-IsEnd nil s r e = let same : 93 ∷ [] ≡ s = cc e in rw (sym same) refl
  print_after-IsEnd (item v xs) s r e =
      let (t, _, e') = and_then-ok (text platform v) _ s e in
      let (u, _, e'') = and_then-ok (print_after is_finite number_text quote xs) _ s e' in
      let same : 44 ∷ (t ++ u) ≡ s = cc e'' in rw (sym same) refl
  print_after-IsEnd (hole xs) s r e = cc e

  pub print_more-IsEnd :
      (ms : Members N) (s r : Text)
      → print_more is_finite number_text quote ms ≡ ok s
      → IsEnd (s ++ r)
  unfolding print
  print_more-IsEnd end s r e = let same : 125 ∷ [] ≡ s = cc e in rw (sym same) refl
  print_more-IsEnd (member k v ms) s r e =
      let (t, _, e') = and_then-ok (text platform v) _ s e in
      let (u, _, e'') = and_then-ok (print_more is_finite number_text quote ms) _ s e' in
      let same : 44 ∷ (quote k ++ (58 ∷ (t ++ u))) ≡ s = cc e'' in rw (sym same) refl

  append_cancel : (t r r' : Text) → t ++ r ≡ t ++ r' → r ≡ r'
  append_cancel [] r r' q = q
  append_cancel (c ∷ t) r r' q = append_cancel t r r' (cc q)

  abbrev pub written : Text → Result JcsError Text
  written t = ok t

  pub constant_lem :
      (t s s' r r' : Text) → written t ≡ ok s → written t ≡ ok s' → s ++ r ≡ s' ++ r' → r ≡ r'
  constant_lem t s s' r r' e e' q =
      let here : t ≡ s = cc e in
      let there : t ≡ s' = cc e' in
      append_cancel t r r' (ap (λ x. x ++ r) here ∙ q ∙ ap (λ x. x ++ r') (sym there))

  -- A key with its value and what follows, reassociated.
  open_member :
      (k t u r : Text) → (quote k ++ (58 ∷ (t ++ u))) ++ r ≡ quote k ++ (58 ∷ (t ++ (u ++ r)))
  open_member k t u r =
      append_assoc (quote k) (58 ∷ (t ++ u)) r ∙ ap (λ x. quote k ++ (58 ∷ x)) (append_assoc t u r)

  pub member_split :
      (k k' t t' u u' r r' : Text)
      → (quote k ++ (58 ∷ (t ++ u))) ++ r ≡ (quote k' ++ (58 ∷ (t' ++ u'))) ++ r'
      → (k ≡ k') × (t ++ (u ++ r) ≡ t' ++ (u' ++ r'))
  member_split k k' t t' u u' r r' q =
      let (same, rest) =
        platform.quote_injective k k' _ _
          (sym (open_member k t u r) ∙ q ∙ open_member k' t' u' r') in
      (same, cc rest)

  pub item_split :
      (t t' u u' r r' : Text) → (t ++ u) ++ r ≡ (t' ++ u') ++ r' → t ++ (u ++ r) ≡ t' ++ (u' ++ r')
  item_split t t' u u' r r' q = sym (append_assoc t u r) ∙ q ∙ append_assoc t' u' r'

  pub quoted_not_closed : (k x r r' : Text) → (quote k ++ x) ++ r ≢ 125 ∷ r'
  quoted_not_closed k x r r' q =
      let (t, h) = platform.quoted k in
      let whole : 34 ∷ ((t ++ x) ++ r) ≡ 125 ∷ r' = ap (λ y. (y ++ x) ++ r) (sym h) ∙ q in
      differ 34 125 _ _ (λ e. omega arith) whole
