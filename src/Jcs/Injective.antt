-- ===== src/Jcs/Injective.antt =====
-- Values with the same plain JSON text.
use anyonce.Prelude.{
  Text, codes, Bool, true, false, [], ◌∷◌, ◌++◌, append_assoc, ok, ◌≡◌, refl, sym, ap, ap₂, ◌∙◌,
  arith,
}
use anyonce.Jcs.{
  Value, undefined, null, boolean, number, string, array, object, with_to_json, other, Items, nil,
  item, hole, Members, end, member,
}
use anyonce.Jcs.Normal.{print, print_items, print_after, print_members, print_more}
use anyonce.Jcs.Heads.{
  Prints, IsEnd, numeral_injective, kind, shape, differ, and_then-ok, of_null, of_true, of_false,
  of_number, of_string, of_array, of_object, text, number_print, same_shape, not_closed, two_parts,
}
use anyonce.Jcs.Parts.{
  print_after-IsEnd, print_more-IsEnd, constant_lem, written, member_split, item_split,
  quoted_not_closed,
}

module _ {N : Type 0} {is_finite : N → Bool} {number_text : N → Text} {quote : Text → Text}
    (platform : Prints is_finite number_text quote) where
  mutual
    unfolding print shape kind

    pub value_injective :
        (v w : Value N) (s s' r r' : Text)
        → text platform v ≡ ok s
        → text platform w ≡ ok s'
        → IsEnd r
        → IsEnd r'
        → s ++ r ≡ s' ++ r'
        → (v ≡ w) × (r ≡ r')
    value_injective undefined w s s' r r' e e' d d' q = cc e
    value_injective null w s s' r r' e e' d d' q =
        let p = of_null w (sym (same_shape platform null w s s' r r' e e' q)) in
        (sym p, constant_lem platform (codes "null") s s' r r' e (rw p at e') q)
    value_injective (boolean true) w s s' r r' e e' d d' q =
        let p = of_true w (sym (same_shape platform (boolean true) w s s' r r' e e' q)) in
        (sym p, constant_lem platform (codes "true") s s' r r' e (rw p at e') q)
    value_injective (boolean false) w s s' r r' e e' d d' q =
        let p = of_false w (sym (same_shape platform (boolean false) w s s' r r' e e' q)) in
        (sym p, constant_lem platform (codes "false") s s' r r' e (rw p at e') q)
    value_injective (number n) w s s' r r' e e' d d' q =
        let (n', p) = of_number w (sym (same_shape platform (number n) w s s' r r' e e' q)) in
        let (finite, t) = number_print platform n s e in
        let (finite', t') = number_print platform n' s' (rw p at e') in
        let (same, rest) =
          numeral_injective s s' r r' (rw t at (platform.numeral n finite).1)
            (rw t' at (platform.numeral n' finite').1) d d' q in
        (
          ap number (platform.number_injective n n' finite finite' (t ∙ same ∙ sym t')) ∙ sym p,
          rest,
        )
    value_injective (string x) w s s' r r' e e' d d' q =
        let (x', p) = of_string w (sym (same_shape platform (string x) w s s' r r' e e' q)) in
        let e'' : written platform (quote x') ≡ ok s' = rw p at e' in
        let here : quote x ≡ s = cc e in
        let there : quote x' ≡ s' = cc e'' in
        let (same, rest) =
          platform.quote_injective x x' r r'
            (ap (λ y. y ++ r) here ∙ q ∙ ap (λ y. y ++ r') (sym there)) in
        (ap string same ∙ sym p, rest)
    value_injective (array xs) w s s' r r' e e' d d' q =
        let (ys, p) = of_array w (sym (same_shape platform (array xs) w s s' r r' e e' q)) in
        let (t, et, h) = and_then-ok (print_items is_finite number_text quote xs) _ s e in
        let (t', et', h') =
          and_then-ok (print_items is_finite number_text quote ys) _ s' (rw p at e') in
        let here : 91 ∷ t ≡ s = cc h in
        let there : 91 ∷ t' ≡ s' = cc h' in
        let (same, rest) =
          items_injective xs ys t t' r r' et et'
            (cc (ap (λ y. y ++ r) here ∙ q ∙ ap (λ y. y ++ r') (sym there))) in
        (ap array same ∙ sym p, rest)
    value_injective (object ms) w s s' r r' e e' d d' q =
        let (ns, p) = of_object w (sym (same_shape platform (object ms) w s s' r r' e e' q)) in
        let (t, et, h) = and_then-ok (print_members is_finite number_text quote ms) _ s e in
        let (t', et', h') =
          and_then-ok (print_members is_finite number_text quote ns) _ s' (rw p at e') in
        let here : 123 ∷ t ≡ s = cc h in
        let there : 123 ∷ t' ≡ s' = cc h' in
        let (same, rest) =
          members_injective ms ns t t' r r' et et'
            (cc (ap (λ y. y ++ r) here ∙ q ∙ ap (λ y. y ++ r') (sym there))) in
        (ap object same ∙ sym p, rest)
    value_injective (with_to_json v) w s s' r r' e e' d d' q = cc e
    value_injective (other name) w s s' r r' e e' d d' q = cc e

    items_injective :
        (xs ys : Items N) (s s' r r' : Text)
        → print_items is_finite number_text quote xs ≡ ok s
        → print_items is_finite number_text quote ys ≡ ok s'
        → s ++ r ≡ s' ++ r'
        → (xs ≡ ys) × (r ≡ r')
    items_injective nil nil s s' r r' e e' q =
        (refl, constant_lem platform (93 ∷ []) s s' r r' e e' q)
    items_injective nil (item w ys) s s' r r' e e' q =
        let (t, u, et, eu, h) = two_parts _ _ _ s' e' in
        let here : 93 ∷ [] ≡ s = cc e in
        absurd (
          not_closed platform w t (u ++ r') r 93 refl et (
            sym (append_assoc t u r')
            ∙ ap (λ y. y ++ r') (sym h)
            ∙ sym q
            ∙ ap (λ y. y ++ r) (sym here)))
    items_injective (item v xs) nil s s' r r' e e' q =
        let (t, u, et, eu, h) = two_parts _ _ _ s e in
        let there : 93 ∷ [] ≡ s' = cc e' in
        absurd (
          not_closed platform v t (u ++ r) r' 93 refl et (
            sym (append_assoc t u r)
            ∙ ap (λ y. y ++ r) (sym h)
            ∙ q
            ∙ ap (λ y. y ++ r') (sym there)))
    items_injective (item v xs) (item w ys) s s' r r' e e' q =
        let (t, u, et, eu, h) = two_parts _ _ _ s e in
        let (t', u', et', eu', h') = two_parts _ _ _ s' e' in
        let (same, rest) =
          value_injective v w t t' (u ++ r) (u' ++ r') et et' (print_after-IsEnd platform xs u r eu)
            (print_after-IsEnd platform ys u' r' eu')
            (item_split platform t t' u u' r r'
              (ap (λ y. y ++ r) (sym h) ∙ q ∙ ap (λ y. y ++ r') h')) in
        let (same', rest') = after_injective xs ys u u' r r' eu eu' rest in
        (ap₂ item same same', rest')
    items_injective (hole xs) ys s s' r r' e e' q = cc e
    items_injective nil (hole ys) s s' r r' e e' q = cc e'
    items_injective (item v xs) (hole ys) s s' r r' e e' q = cc e'

    after_injective :
        (xs ys : Items N) (s s' r r' : Text)
        → print_after is_finite number_text quote xs ≡ ok s
        → print_after is_finite number_text quote ys ≡ ok s'
        → s ++ r ≡ s' ++ r'
        → (xs ≡ ys) × (r ≡ r')
    after_injective nil nil s s' r r' e e' q =
        (refl, constant_lem platform (93 ∷ []) s s' r r' e e' q)
    after_injective nil (item w ys) s s' r r' e e' q =
        let (t, u, et, eu, h) = two_parts _ _ _ s' e' in
        let here : 93 ∷ [] ≡ s = cc e in
        absurd (
          differ 93 44 r ((t ++ u) ++ r') (λ x. omega arith)
            (ap (λ y. y ++ r) here ∙ q ∙ ap (λ y. y ++ r') h))
    after_injective (item v xs) nil s s' r r' e e' q =
        let (t, u, et, eu, h) = two_parts _ _ _ s e in
        let there : 93 ∷ [] ≡ s' = cc e' in
        absurd (
          differ 44 93 ((t ++ u) ++ r) r' (λ x. omega arith)
            (ap (λ y. y ++ r) (sym h) ∙ q ∙ ap (λ y. y ++ r') (sym there)))
    after_injective (item v xs) (item w ys) s s' r r' e e' q =
        let (t, u, et, eu, h) = two_parts _ _ _ s e in
        let (t', u', et', eu', h') = two_parts _ _ _ s' e' in
        let whole : 44 ∷ ((t ++ u) ++ r) ≡ 44 ∷ ((t' ++ u') ++ r') =
          ap (λ y. y ++ r) (sym h) ∙ q ∙ ap (λ y. y ++ r') h' in
        let (same, rest) =
          value_injective v w t t' (u ++ r) (u' ++ r') et et' (print_after-IsEnd platform xs u r eu)
            (print_after-IsEnd platform ys u' r' eu')
            (item_split platform t t' u u' r r' (cc whole)) in
        let (same', rest') = after_injective xs ys u u' r r' eu eu' rest in
        (ap₂ item same same', rest')
    after_injective (hole xs) ys s s' r r' e e' q = cc e
    after_injective nil (hole ys) s s' r r' e e' q = cc e'
    after_injective (item v xs) (hole ys) s s' r r' e e' q = cc e'

    members_injective :
        (ms ns : Members N) (s s' r r' : Text)
        → print_members is_finite number_text quote ms ≡ ok s
        → print_members is_finite number_text quote ns ≡ ok s'
        → s ++ r ≡ s' ++ r'
        → (ms ≡ ns) × (r ≡ r')
    members_injective end end s s' r r' e e' q =
        (refl, constant_lem platform (125 ∷ []) s s' r r' e e' q)
    members_injective end (member k w ns) s s' r r' e e' q =
        let (t, u, et, eu, h) = two_parts _ _ _ s' e' in
        let here : 125 ∷ [] ≡ s = cc e in
        absurd (
          quoted_not_closed platform k (58 ∷ (t ++ u)) r' r
            (ap (λ y. y ++ r') (sym h) ∙ sym q ∙ ap (λ y. y ++ r) (sym here)))
    members_injective (member k v ms) end s s' r r' e e' q =
        let (t, u, et, eu, h) = two_parts _ _ _ s e in
        let there : 125 ∷ [] ≡ s' = cc e' in
        absurd (
          quoted_not_closed platform k (58 ∷ (t ++ u)) r r'
            (ap (λ y. y ++ r) (sym h) ∙ q ∙ ap (λ y. y ++ r') (sym there)))
    members_injective (member k v ms) (member j w ns) s s' r r' e e' q =
        let (t, u, et, eu, h) = two_parts _ _ _ s e in
        let (t', u', et', eu', h') = two_parts _ _ _ s' e' in
        let (key, tail) =
          member_split platform k j t t' u u' r r'
            (ap (λ y. y ++ r) (sym h) ∙ q ∙ ap (λ y. y ++ r') h') in
        let (same, rest) =
          value_injective v w t t' (u ++ r) (u' ++ r') et et' (print_more-IsEnd platform ms u r eu)
            (print_more-IsEnd platform ns u' r' eu') tail in
        let (same', rest') = more_injective ms ns u u' r r' eu eu' rest in
        (rw (key, same, same') refl, rest')

    more_injective :
        (ms ns : Members N) (s s' r r' : Text)
        → print_more is_finite number_text quote ms ≡ ok s
        → print_more is_finite number_text quote ns ≡ ok s'
        → s ++ r ≡ s' ++ r'
        → (ms ≡ ns) × (r ≡ r')
    more_injective end end s s' r r' e e' q =
        (refl, constant_lem platform (125 ∷ []) s s' r r' e e' q)
    more_injective end (member k w ns) s s' r r' e e' q =
        let (t, u, et, eu, h) = two_parts _ _ _ s' e' in
        let here : 125 ∷ [] ≡ s = cc e in
        absurd (
          differ 125 44 r ((quote k ++ (58 ∷ (t ++ u))) ++ r') (λ x. omega arith)
            (ap (λ y. y ++ r) here ∙ q ∙ ap (λ y. y ++ r') h))
    more_injective (member k v ms) end s s' r r' e e' q =
        let (t, u, et, eu, h) = two_parts _ _ _ s e in
        let there : 125 ∷ [] ≡ s' = cc e' in
        absurd (
          differ 44 125 ((quote k ++ (58 ∷ (t ++ u))) ++ r) r' (λ x. omega arith)
            (ap (λ y. y ++ r) (sym h) ∙ q ∙ ap (λ y. y ++ r') (sym there)))
    more_injective (member k v ms) (member j w ns) s s' r r' e e' q =
        let (t, u, et, eu, h) = two_parts _ _ _ s e in
        let (t', u', et', eu', h') = two_parts _ _ _ s' e' in
        let whole : 44 ∷ ((quote k ++ (58 ∷ (t ++ u))) ++ r)
            ≡ 44 ∷ ((quote j ++ (58 ∷ (t' ++ u'))) ++ r') =
          ap (λ y. y ++ r) (sym h) ∙ q ∙ ap (λ y. y ++ r') h' in
        let (key, tail) = member_split platform k j t t' u u' r r' (cc whole) in
        let (same, rest) =
          value_injective v w t t' (u ++ r) (u' ++ r') et et' (print_more-IsEnd platform ms u r eu)
            (print_more-IsEnd platform ns u' r' eu') tail in
        let (same', rest') = more_injective ms ns u u' r r' eu eu' rest in
        (rw (key, same, same') refl, rest')
