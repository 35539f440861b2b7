-- ===== src/Jcs.antt =====
-- packages/core/src/jcs.ts: `canonicalize`, over JavaScript values. `N` stands for the numbers and what the
-- platform says of them, 0 and -0 as one; `quote` is `JSON.stringify` on texts. The keys of an object are
-- distinct, as the language promises.
pub mod Normal
pub mod Prints
pub mod Heads
pub mod Parts
pub mod Injective
pub mod Order
pub mod Canonical
pub mod Plain
pub mod Tests
use anyonce.Prelude.{
  ℕ, Text, codes, Bool, true, false, ◌&&◌, ◌||◌, not, List, [], ◌∷◌, ◌++◌, ltb, ◌==◌, if◌then◌else◌,
  Result, ok, err,
}

-- `with_to_json v` is an object whose method `toJSON` returns `v`; `other` is a value of any type that JSON does
-- not have, by the name that `typeof` gives it. An array may have holes.
mutual
  pub data Value (N : Type 0) : Type 0 where
    undefined : Value N
    null : Value N
    boolean : Bool → Value N
    number : N → Value N
    string : Text → Value N
    array : Items N → Value N
    object : Members N → Value N
    with_to_json : Value N → Value N
    other : Text → Value N

  pub data Items (N : Type 0) : Type 0 where
    nil : Items N
    item : Value N → Items N → Items N
    hole : Items N → Items N

  pub data Members (N : Type 0) : Type 0 where
    end : Members N
    member : Text → Value N → Members N → Members N

pub data JcsError : Type 0 where
  non_finite : JcsError
  unsupported : Text → JcsError

abbrev pub is_undefined : {N : Type 0} → Value N → Bool
is_undefined undefined = true
is_undefined _ = false

-- The order of texts by their code units.
unfoldable pub text_ltb : Text → Text → Bool
text_ltb s [] = false
text_ltb [] (d ∷ t) = true
text_ltb (c ∷ s) (d ∷ t) = let rest = text_ltb s t in ltb c d || ((c == d) && rest)

module _ {ℓ} {V : Type ℓ} where
  unfoldable pub insert_by_key : Text → V → List (Text × V) → List (Text × V)
  insert_by_key k v [] = (k, v) ∷ []
  insert_by_key k v ((j, w) ∷ m) =
      let rest = insert_by_key k v m in if text_ltb j k then (j, w) ∷ rest else (k, v) ∷ (j, w) ∷ m

  -- `sort` on keys, which are distinct.
  unfoldable pub sort_by_key : List (Text × V) → List (Text × V)
  unfolding insert_by_key
  sort_by_key [] = []
  sort_by_key ((k, v) ∷ m) = insert_by_key k v (sort_by_key m)

-- `join(',')`
unfoldable pub join_commas : List Text → Text
join_commas [] = []
join_commas (t ∷ []) = t
join_commas (t ∷ u ∷ ts) = t ++ (44 ∷ join_commas (u ∷ ts))

-- What follows a step that may throw.
abbrev pub and_then : {E A B : Type 0} → Result E A → (A → Result E B) → Result E B
and_then (ok a) f = f a
and_then (err e) f = err e

module _ {N : Type 0} (is_finite : N → Bool) (number_text : N → Text) (quote : Text → Text) where
  -- The members in their order, until one throws.
  unfoldable pub member_texts : List (Text × Result JcsError Text) → Result JcsError (List Text)
  member_texts [] = ok []
  member_texts ((k, r) ∷ m) =
      and_then r λ t. and_then (member_texts m) λ ts. ok ((quote k ++ (58 ∷ t)) ∷ ts)

  unfoldable mutual
    unfolding member_texts sort_by_key join_commas

    pub serialize : Value N → Result JcsError Text
    serialize undefined = err (unsupported (codes "undefined"))
    serialize null = ok (codes "null")
    serialize (boolean b) = ok (if b then codes "true" else codes "false")
    serialize (number n) = if is_finite n then ok (number_text n) else err non_finite
    serialize (string s) = ok (quote s)
    serialize (array xs) =
        and_then (serialize_items xs) λ ts. ok (91 ∷ (join_commas ts ++ (93 ∷ [])))
    serialize (object ms) =
        and_then (member_texts (sort_by_key (serialize_members ms)))
          λ ts. ok (123 ∷ (join_commas ts ++ (125 ∷ [])))
    serialize (with_to_json v) = serialize v
    serialize (other name) = err (unsupported name)

    pub serialize_items : Items N → Result JcsError (List Text)
    serialize_items nil = ok []
    serialize_items (item v xs) =
        and_then (serialize v) λ t. and_then (serialize_items xs) λ ts. ok (t ∷ ts)
    serialize_items (hole xs) = and_then (serialize_items xs) λ ts. ok (codes "null" ∷ ts)

    -- What each member that is not `undefined` is written as.
    pub serialize_members : Members N → List (Text × Result JcsError Text)
    serialize_members end = []
    serialize_members (member k v ms) =
        let rest = serialize_members ms in
        let text = serialize v in if is_undefined v then rest else (k, text) ∷ rest

  unfoldable pub canonicalize : Value N → Result JcsError Text
  unfolding serialize
  canonicalize v = serialize v
