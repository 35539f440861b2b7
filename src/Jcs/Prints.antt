-- ===== src/Jcs/Prints.antt =====
-- `canonicalize` against the print of the normal form.
use anyonce.Prelude.{
  ℕ, Text, Bool, List, [], ◌∷◌, ◌++◌, append_assoc, Result, ok, err, ◌≡◌, refl, sym, codes, ap, ◌∙◌,
  Bool-cases, inl, inr,
}
use anyonce.Jcs.{
  Value, undefined, null, boolean, number, string, array, object, with_to_json, other, Items, nil,
  item, hole, Members, end, member, JcsError, is_undefined, text_ltb, insert_by_key, sort_by_key,
  join_commas, and_then, member_texts, serialize, serialize_items, serialize_members, canonicalize,
}
use anyonce.Jcs.Normal.{
  insert_member, normal, normal_items, normal_members, print, print_items, print_after,
  print_members, print_more,
}

-- The texts of a list, each after a comma, then a bracket.
tail_of : ℕ → List Text → Text
tail_of close [] = close ∷ []
tail_of close (t ∷ ts) = 44 ∷ (t ++ tail_of close ts)

join-tail_of :
    (close : ℕ) (t : Text) (ts : List Text)
    → t ++ tail_of close ts ≡ join_commas (t ∷ ts) ++ (close ∷ [])
unfolding join_commas tail_of
join-tail_of close t [] = refl
join-tail_of close t (u ∷ ts) =
    ap (λ r. t ++ (44 ∷ r)) (join-tail_of close u ts)
    ∙ sym (append_assoc t (44 ∷ join_commas (u ∷ ts)) (close ∷ []))

abbrev Texts : Type 0 → Type 0
Texts A = Result JcsError A

and_then_assoc :
    {A B C : Type 0} (r : Texts A) (f : A → Texts B) (g : B → Texts C)
    → and_then (and_then r f) g ≡ and_then r λ a. and_then (f a) g
and_then_assoc (ok a) f g = refl
and_then_assoc (err e) f g = refl

-- An item and those after it, in one text or as a list that is joined.
after_lem :
    (close : ℕ) (r : Texts Text) (rs : Texts (List Text))
    → and_then r
        (λ t. and_then (and_then rs (λ ts. ok (tail_of close ts))) (λ u. ok (44 ∷ (t ++ u))))
      ≡ and_then (and_then r (λ t. and_then rs (λ ts. ok (t ∷ ts)))) (λ ts. ok (tail_of close ts))
unfolding tail_of
after_lem close (ok t) (ok ts) = refl
after_lem close (ok t) (err e) = refl
after_lem close (err e) rs = refl

first_lem :
    (close : ℕ) (r : Texts Text) (rs : Texts (List Text))
    → and_then r (λ t. and_then (and_then rs (λ ts. ok (tail_of close ts))) (λ u. ok (t ++ u)))
      ≡ and_then
          (and_then r (λ t. and_then rs (λ ts. ok (t ∷ ts))))
          (λ ts. ok (join_commas ts ++ (close ∷ [])))
first_lem close (ok t) (ok ts) = ap ok (join-tail_of close t ts)
first_lem close (ok t) (err e) = refl
first_lem close (err e) rs = refl

module _ {N : Type 0} (is_finite : N → Bool) (number_text : N → Text) (quote : Text → Text) where
  -- The printed texts of items and of members.
  each : Items N → Texts (List Text)
  each nil = ok []
  each (item v xs) =
      and_then (print is_finite number_text quote v) λ t. and_then (each xs) λ ts. ok (t ∷ ts)
  each (hole xs) = err (JcsError.unsupported (codes "undefined"))

  each_member : Members N → List (Text × Texts Text)
  each_member end = []
  each_member (member k v ms) = (k, print is_finite number_text quote v) ∷ each_member ms

  print_after-each :
      (xs : Items N)
      → print_after is_finite number_text quote xs ≡ and_then (each xs) λ ts. ok (tail_of 93 ts)
  unfolding print each tail_of
  print_after-each nil = refl
  print_after-each (item v xs) =
      rw (print_after-each xs) (after_lem 93 (print is_finite number_text quote v) (each xs))
  print_after-each (hole xs) = refl

  print_items-each :
      (xs : Items N)
      → print_items is_finite number_text quote xs
        ≡ and_then (each xs) λ ts. ok (join_commas ts ++ (93 ∷ []))
  unfolding print each join_commas
  print_items-each nil = refl
  print_items-each (item v xs) =
      rw (print_after-each xs) (first_lem 93 (print is_finite number_text quote v) (each xs))
  print_items-each (hole xs) = refl

  named : Text → Texts Text → Texts Text
  named k r = and_then r λ t. ok (quote k ++ (58 ∷ t))

  texts : List (Text × Texts Text) → Texts (List Text)
  texts = member_texts is_finite number_text quote

  texts-cons :
      (k : Text) (r : Texts Text) (m : List (Text × Texts Text))
      → texts ((k, r) ∷ m) ≡ and_then (named k r) λ t. and_then (texts m) λ ts. ok (t ∷ ts)
  unfolding texts member_texts named
  texts-cons k (ok t) m = refl
  texts-cons k (err e) m = refl

  shift_lem :
      (k : Text) (r u : Texts Text)
      → and_then r (λ t. and_then u (λ x. ok (44 ∷ (quote k ++ (58 ∷ (t ++ x))))))
        ≡ and_then (named k r) (λ t. and_then u (λ x. ok (44 ∷ (t ++ x))))
  unfolding named
  shift_lem k (ok t) (ok x) = ap (λ r. ok (44 ∷ r)) (sym (append_assoc (quote k) (58 ∷ t) x))
  shift_lem k (ok t) (err e) = refl
  shift_lem k (err e) u = refl

  shift_first :
      (k : Text) (r u : Texts Text)
      → and_then r (λ t. and_then u (λ x. ok (quote k ++ (58 ∷ (t ++ x)))))
        ≡ and_then (named k r) (λ t. and_then u (λ x. ok (t ++ x)))
  unfolding named
  shift_first k (ok t) (ok x) = ap ok (sym (append_assoc (quote k) (58 ∷ t) x))
  shift_first k (ok t) (err e) = refl
  shift_first k (err e) u = refl

  print_more-each :
      (ms : Members N)
      → print_more is_finite number_text quote ms
        ≡ and_then (texts (each_member ms)) λ ts. ok (tail_of 125 ts)
  unfolding print each_member tail_of texts member_texts
  print_more-each end = refl
  print_more-each (member k v ms) =
      let one = print is_finite number_text quote v in
      shift_lem k one _
      ∙ ap (λ u. and_then (named k one) λ t. and_then u λ x. ok (44 ∷ (t ++ x)))
          (print_more-each ms)
      ∙ after_lem 125 (named k one) (texts (each_member ms))
      ∙ ap (λ r. and_then r λ ts. ok (tail_of 125 ts)) (sym (texts-cons k one (each_member ms)))

  print_members-each :
      (ms : Members N)
      → print_members is_finite number_text quote ms
        ≡ and_then (texts (each_member ms)) λ ts. ok (join_commas ts ++ (125 ∷ []))
  unfolding print each_member texts member_texts join_commas
  print_members-each end = refl
  print_members-each (member k v ms) =
      let one = print is_finite number_text quote v in
      shift_first k one _
      ∙ ap (λ u. and_then (named k one) λ t. and_then u λ x. ok (t ++ x)) (print_more-each ms)
      ∙ first_lem 125 (named k one) (texts (each_member ms))
      ∙ ap (λ r. and_then r λ ts. ok (join_commas ts ++ (125 ∷ [])))
          (sym (texts-cons k one (each_member ms)))

  each_member-insert_member :
      (k : Text) (v : Value N) (ms : Members N)
      → each_member (insert_member k v ms)
        ≡ insert_by_key k (print is_finite number_text quote v) (each_member ms)
  unfolding each_member insert_member insert_by_key
  each_member-insert_member k v end = refl
  each_member-insert_member k v (member j w ms) = elim (Bool-cases (text_ltb j k)) [
    | inl after ↦ rw (after, each_member-insert_member k v ms) refl
    | inr before ↦ rw before refl
  ]

  mutual
    unfolding serialize normal each each_member sort_by_key print texts

    serialize_lem :
        (v : Value N)
        → serialize is_finite number_text quote v ≡ print is_finite number_text quote (normal v)
    serialize_lem undefined = refl
    serialize_lem null = refl
    serialize_lem (boolean b) = refl
    serialize_lem (number n) = refl
    serialize_lem (string s) = refl
    serialize_lem (array xs) =
        rw (serialize_items_lem xs, print_items-each (normal_items xs))
          (sym (and_then_assoc (each (normal_items xs)) _ _))
    serialize_lem (object ms) =
        rw (serialize_members_lem ms, print_members-each (normal_members ms))
          (sym (and_then_assoc (texts (each_member (normal_members ms))) _ _))
    serialize_lem (with_to_json v) = serialize_lem v
    serialize_lem (other name) = refl

    serialize_items_lem :
        (xs : Items N) → serialize_items is_finite number_text quote xs ≡ each (normal_items xs)
    serialize_items_lem nil = refl
    serialize_items_lem (item v xs) = rw (serialize_lem v, serialize_items_lem xs) refl
    serialize_items_lem (hole xs) = rw (serialize_items_lem xs) refl

    serialize_members_lem :
        (ms : Members N)
        → sort_by_key (serialize_members is_finite number_text quote ms)
          ≡ each_member (normal_members ms)
    serialize_members_lem end = refl
    serialize_members_lem (member k v ms) = elim (Bool-cases (is_undefined v)) [
      | inl gone ↦ rw gone (serialize_members_lem ms)
      | inr kept ↦ rw kept (
          rw (serialize_lem v, serialize_members_lem ms)
            (sym (each_member-insert_member k (normal v) (normal_members ms))))
    ]

  -- `canonicalize` gives the plain JSON text of the normal form of a value, and throws what printing it throws.
  pub canonicalize_lem :
      (v : Value N)
      → canonicalize is_finite number_text quote v ≡ print is_finite number_text quote (normal v)
  unfolding canonicalize
  canonicalize_lem v = serialize_lem v
