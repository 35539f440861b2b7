-- ===== src/Jcs/Order.antt =====
-- The order in which members stand.
use anyonce.Prelude.{
  Text, true, false, [], ◌∷◌, ◌≡◌, ◌≢◌, refl, sym, ap, ap₂, ◌∙◌, arith, Bool-cases, inl, inr,
}
use anyonce.Jcs.{
  Value, undefined, null, array, object, Items, nil, item, hole, Members, end, member, is_undefined,
  text_ltb,
}
use anyonce.Jcs.Normal.{insert_member, normal, normal_items, normal_members}

-- The order of texts is a strict total order.
text_ltb_trans : (s t u : Text) → text_ltb s t ≡ true → text_ltb t u ≡ true → text_ltb s u ≡ true
unfolding text_ltb
text_ltb_trans s [] u h h' = cc h
text_ltb_trans s (d ∷ t) [] h h' = cc h'
text_ltb_trans [] (d ∷ t) (e ∷ u) h h' = refl
text_ltb_trans (c ∷ s) (d ∷ t) (e ∷ u) h h' = ground (arith, text_ltb_trans s t u)

text_ltb-total : (s t : Text) → s ≢ t → text_ltb s t ≡ false → text_ltb t s ≡ true
unfolding text_ltb
text_ltb-total [] [] ne h = absurd (ne refl)
text_ltb-total [] (d ∷ t) ne h = cc h
text_ltb-total (c ∷ s) [] ne h = refl
text_ltb-total (c ∷ s) (d ∷ t) ne h =
    let rest : c ≡ d → text_ltb s t ≡ false → text_ltb t s ≡ true =
      λ e. text_ltb-total s t (λ f. ne (cc (e, f))) in
    ground (arith, rest)

text_ltb-asym : (s t : Text) → text_ltb s t ≡ true → text_ltb t s ≡ false
unfolding text_ltb
text_ltb-asym s [] h = cc h
text_ltb-asym [] (d ∷ t) h = refl
text_ltb-asym (c ∷ s) (d ∷ t) h = ground (arith, text_ltb-asym s t)

module _ {N : Type 0} where
  past :
      (k i : Text) (v x : Value N) (ms : Members N)
      → text_ltb i k ≡ true
      → insert_member k v (member i x ms) ≡ member i x (insert_member k v ms)
  unfolding insert_member
  past k i v x ms h = rw h refl

  here :
      (k i : Text) (v x : Value N) (ms : Members N)
      → text_ltb i k ≡ false
      → insert_member k v (member i x ms) ≡ member k v (member i x ms)
  unfolding insert_member
  here k i v x ms h = rw h refl

  -- Two members of which one goes past a third and the other does not.
  apart_comm :
      (k j i : Text) (v w x : Value N) (ms : Members N)
      → k ≢ j
      → text_ltb i k ≡ true
      → text_ltb i j ≡ false
      → insert_member k v (insert_member j w (member i x ms))
        ≡ insert_member j w (insert_member k v (member i x ms))
  apart_comm k j i v w x ms ne ik ji =
      let jk : text_ltb j k ≡ true = elim (Bool-cases (text_ltb j k)) [
        | inl before ↦ before
        | inr after ↦
            let kj = text_ltb-total j k (λ e. ne (sym e)) after in
            absurd (cc (text_ltb_trans i k j ik kj, ji))
      ] in
      ap (insert_member k v) (here j i w x ms ji)
      ∙ past k j v w (member i x ms) jk
      ∙ ap (member j w) (past k i v x ms ik)
      ∙ sym (here j i w x (insert_member k v ms) ji)
      ∙ ap (insert_member j w) (sym (past k i v x ms ik))

  -- Two members that go before a third.
  before_comm :
      (k j i : Text) (v w x : Value N) (ms : Members N)
      → text_ltb i k ≡ false
      → text_ltb i j ≡ false
      → text_ltb j k ≡ true
      → insert_member k v (insert_member j w (member i x ms))
        ≡ insert_member j w (insert_member k v (member i x ms))
  before_comm k j i v w x ms ki ji jk =
      ap (insert_member k v) (here j i w x ms ji)
      ∙ past k j v w (member i x ms) jk
      ∙ ap (member j w) (here k i v x ms ki)
      ∙ sym (here j k w v (member i x ms) (text_ltb-asym j k jk))
      ∙ ap (insert_member j w) (sym (here k i v x ms ki))

  -- Members with different keys find their places whichever comes first.
  insert_member_comm :
      (k j : Text) (v w : Value N) (ms : Members N)
      → k ≢ j
      → insert_member k v (insert_member j w ms) ≡ insert_member j w (insert_member k v ms)
  unfolding insert_member
  insert_member_comm k j v w end ne = elim (Bool-cases (text_ltb j k)) [
    | inl after ↦ rw (after, text_ltb-asym j k after) refl
    | inr before ↦ rw (before, text_ltb-total j k (λ e. ne (sym e)) before) refl
  ]
  insert_member_comm k j v w (member i x ms) ne = elim (Bool-cases (text_ltb i k)) [
    | inl ik ↦ elim (Bool-cases (text_ltb i j)) [
      | inl ij ↦
          ap (insert_member k v) (past j i w x ms ij)
          ∙ past k i v x (insert_member j w ms) ik
          ∙ ap (member i x) (insert_member_comm k j v w ms ne)
          ∙ sym (past j i w x (insert_member k v ms) ij)
          ∙ ap (insert_member j w) (sym (past k i v x ms ik))
      | inr ji ↦ apart_comm k j i v w x ms ne ik ji
    ]
    | inr ki ↦ elim (Bool-cases (text_ltb i j)) [
      | inl ij ↦ sym (apart_comm j k i w v x ms (λ e. ne (sym e)) ij ki)
      | inr ji ↦ elim (Bool-cases (text_ltb j k)) [
        | inl jk ↦ before_comm k j i v w x ms ki ji jk
        | inr kj ↦ sym (before_comm j k i w v x ms ji ki (text_ltb-total j k (λ e. ne (sym e)) kj))
      ]
    ]
  ]

-- The same JSON value: items in place, members in any order, and a member that is `undefined` as none at all.
mutual
  pub data SameValue (N : Type 0) : Value N → Value N → Type 0 where
    equal : {v w : Value N} → v ≡ w → SameValue N v w
    arrays : {xs ys : Items N} → SameItems N xs ys → SameValue N (array xs) (array ys)
    objects : {ms ns : Members N} → SameMembers N ms ns → SameValue N (object ms) (object ns)

  pub data SameItems (N : Type 0) : Items N → Items N → Type 0 where
    no_items : SameItems N nil nil
    one_item :
        {v w : Value N} {xs ys : Items N}
        → SameValue N v w
        → SameItems N xs ys
        → SameItems N (item v xs) (item w ys)
    filled : {xs ys : Items N} → SameItems N xs ys → SameItems N (hole xs) (item null ys)

  pub data SameMembers (N : Type 0) : Members N → Members N → Type 0 where
    no_members : SameMembers N end end
    one_member :
        {k : Text} {v w : Value N} {ms ns : Members N}
        → SameValue N v w
        → SameMembers N ms ns
        → SameMembers N (member k v ms) (member k w ns)
    swapped :
        {k j : Text} {v w : Value N} {ms : Members N}
        → k ≢ j
        → SameMembers N (member k v (member j w ms)) (member j w (member k v ms))
    dropped :
        {k : Text} {ms ns : Members N}
        → SameMembers N ms ns
        → SameMembers N (member k undefined ms) ns
    through :
        {ms between ns : Members N}
        → SameMembers N ms between
        → SameMembers N between ns
        → SameMembers N ms ns

is_undefined-SameValue :
    {N : Type 0} {v w : Value N} → SameValue N v w → is_undefined v ≡ is_undefined w
is_undefined-SameValue (equal e) = ap is_undefined e
is_undefined-SameValue (arrays h) = refl
is_undefined-SameValue (objects h) = refl

normal_members-swapped :
    {N : Type 0} (k j : Text) (v w : Value N) (ms : Members N)
    → k ≢ j
    → normal_members (member k v (member j w ms)) ≡ normal_members (member j w (member k v ms))
unfolding normal
normal_members-swapped k j v w ms ne = elim (Bool-cases (is_undefined v)) [
  | inl a ↦ elim (Bool-cases (is_undefined w)) [ inl b ↦ rw (a, b) refl | inr b ↦ rw (a, b) refl ]
  | inr a ↦ elim (Bool-cases (is_undefined w)) [
    | inl b ↦ rw (a, b) refl
    | inr b ↦ rw (a, b) (insert_member_comm k j (normal v) (normal w) (normal_members ms) ne)
  ]
]

mutual
  unfolding normal

  normal-SameValue : {N : Type 0} {v w : Value N} → SameValue N v w → normal v ≡ normal w
  normal-SameValue (equal e) = ap normal e
  normal-SameValue (arrays h) = ap array (normal_items-SameItems h)
  normal-SameValue (objects h) = ap object (normal_members-SameMembers h)

  normal_items-SameItems :
      {N : Type 0} {xs ys : Items N} → SameItems N xs ys → normal_items xs ≡ normal_items ys
  normal_items-SameItems no_items = refl
  normal_items-SameItems (one_item h hs) = ap₂ item (normal-SameValue h) (normal_items-SameItems hs)
  normal_items-SameItems (filled hs) = ap (item null) (normal_items-SameItems hs)

  normal_members-SameMembers :
      {N : Type 0} {ms ns : Members N} → SameMembers N ms ns → normal_members ms ≡ normal_members ns
  normal_members-SameMembers no_members = refl
  normal_members-SameMembers (one_member {k} {v} {w} h hs) =
      rw (is_undefined-SameValue h, normal-SameValue h, normal_members-SameMembers hs) refl
  normal_members-SameMembers (swapped {k} {j} {v} {w} {ms} ne) =
      normal_members-swapped k j v w ms ne
  normal_members-SameMembers (dropped hs) = normal_members-SameMembers hs
  normal_members-SameMembers (through h h') =
      normal_members-SameMembers h ∙ normal_members-SameMembers h'

-- Values that are the same JSON value have one normal form.
pub SameValue-normal : {N : Type 0} {v w : Value N} → SameValue N v w → normal v ≡ normal w
SameValue-normal h = normal-SameValue h
