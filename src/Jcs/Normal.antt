-- ===== src/Jcs/Normal.antt =====
-- The value that a JavaScript value stands for, and its canonical text as the print of that value.
use anyonce.Prelude.{Text, codes, Bool, [], ◌∷◌, ◌++◌, if◌then◌else◌, Result, ok, err}
use anyonce.Jcs.{
  Value, undefined, null, boolean, number, string, array, object, with_to_json, other, Items, nil,
  item, hole, Members, end, member, JcsError, non_finite, unsupported, is_undefined, text_ltb,
  and_then,
}

module _ {N : Type 0} where
  -- A member at its place among those with greater keys.
  unfoldable pub insert_member : Text → Value N → Members N → Members N
  insert_member k v end = member k v end
  insert_member k v (member j w ms) =
      let rest = insert_member k v ms in
      if text_ltb j k then member j w rest else member k v (member j w ms)

  -- `toJSON` called, holes as null, no member `undefined`, and the members in the order of their keys.
  unfoldable mutual
    unfolding insert_member

    pub normal : Value N → Value N
    normal undefined = undefined
    normal null = null
    normal (boolean b) = boolean b
    normal (number n) = number n
    normal (string s) = string s
    normal (array xs) = array (normal_items xs)
    normal (object ms) = object (normal_members ms)
    normal (with_to_json v) = normal v
    normal (other name) = other name

    pub normal_items : Items N → Items N
    normal_items nil = nil
    normal_items (item v xs) = item (normal v) (normal_items xs)
    normal_items (hole xs) = item null (normal_items xs)

    pub normal_members : Members N → Members N
    normal_members end = end
    normal_members (member k v ms) =
        let rest = normal_members ms in
        let one = normal v in if is_undefined v then rest else insert_member k one rest

module _ {N : Type 0} (is_finite : N → Bool) (number_text : N → Text) (quote : Text → Text) where
  -- The plain JSON text of a value, its members in the order in which they stand.
  unfoldable mutual
    pub print : Value N → Result JcsError Text
    print undefined = err (unsupported (codes "undefined"))
    print null = ok (codes "null")
    print (boolean b) = ok (if b then codes "true" else codes "false")
    print (number n) = if is_finite n then ok (number_text n) else err non_finite
    print (string s) = ok (quote s)
    print (array xs) = and_then (print_items xs) λ t. ok (91 ∷ t)
    print (object ms) = and_then (print_members ms) λ t. ok (123 ∷ t)
    print (with_to_json v) = err (unsupported (codes "object"))
    print (other name) = err (unsupported name)

    pub print_items : Items N → Result JcsError Text
    print_items nil = ok (93 ∷ [])
    print_items (item v xs) = and_then (print v) λ t. and_then (print_after xs) λ u. ok (t ++ u)
    print_items (hole xs) = err (unsupported (codes "undefined"))

    -- The items that follow one.
    pub print_after : Items N → Result JcsError Text
    print_after nil = ok (93 ∷ [])
    print_after (item v xs) =
        and_then (print v) λ t. and_then (print_after xs) λ u. ok (44 ∷ (t ++ u))
    print_after (hole xs) = err (unsupported (codes "undefined"))

    pub print_members : Members N → Result JcsError Text
    print_members end = ok (125 ∷ [])
    print_members (member k v ms) =
        and_then (print v) λ t. and_then (print_more ms) λ u. ok (quote k ++ (58 ∷ (t ++ u)))

    pub print_more : Members N → Result JcsError Text
    print_more end = ok (125 ∷ [])
    print_more (member k v ms) =
        and_then (print v) λ t. and_then (print_more ms) λ u. ok (44 ∷ (quote k ++ (58 ∷ (t ++ u))))
