-- ===== src/Jcs/Tests.antt =====
-- Runs of `canonicalize`, and witnesses.
use anyonce.Prelude.{ℕ, Text, codes, true, ◌≡◌, ◌↔◌, refl, arith, ok, err, []}
use anyonce.Jcs.{
  Value, undefined, null, boolean, number, array, object, nil, item, hole, end, member, JcsError,
  text_ltb, canonicalize,
}
use anyonce.Jcs.Normal.{normal}
use anyonce.Jcs.Order.{SameValue, SameMembers, SameItems}
use anyonce.Jcs.Canonical.{canonicalize_iff, canonicalize-SameValue}
use anyonce.Jcs.Heads.{differ}
use anyonce.Jcs.Plain.{any_number, ones, plain_quote, plain_platform}

-- `{b: [1, , true], a: null, c: undefined}` and `{a: null, b: [1, null, true]}`
abbrev pub first : Value ℕ
first = object (
    member (codes "b") (array (item (number 0) (hole (item (boolean true) nil))))
      (member (codes "a") null (member (codes "c") undefined end)))

abbrev pub second : Value ℕ
second = object (
    member (codes "a") null
      (member (codes "b") (array (item (number 0) (item null (item (boolean true) nil)))) end))

abbrev pub their_text : Text
their_text = codes "{\"\\a\":null,\"\\b\":[1,null,true]}"

pub first_text : canonicalize any_number ones plain_quote first ≡ ok their_text
unfolding canonicalize text_ltb
first_text = refl

pub second_text : canonicalize any_number ones plain_quote second ≡ ok their_text
unfolding canonicalize text_ltb
second_text = refl

-- A value of another type is refused where it is not a member that is `undefined`.
refused :
    canonicalize any_number ones plain_quote (array (item undefined nil))
    ≡ err (JcsError.unsupported (codes "undefined"))
unfolding canonicalize text_ltb
refused = refl

same : SameValue ℕ first second
same = SameValue.objects (
    SameMembers.through (SameMembers.swapped (differ 98 97 [] [] (λ e. omega arith))) (
      SameMembers.one_member (SameValue.equal refl) (
        SameMembers.one_member
          (SameValue.arrays (
            SameItems.one_item (SameValue.equal refl)
              (SameItems.filled (SameItems.one_item (SameValue.equal refl) SameItems.no_items))))
          (SameMembers.dropped SameMembers.no_members))))

canonicalize-SameValue_example :
    canonicalize any_number ones plain_quote first ≡ canonicalize any_number ones plain_quote second
canonicalize-SameValue_example =
    canonicalize-SameValue any_number ones plain_quote first second same

canonicalize_iff_example : (their_text ≡ their_text) ↔ (normal first ≡ normal second)
canonicalize_iff_example =
    canonicalize_iff any_number ones plain_quote plain_platform first second their_text their_text
      first_text second_text
