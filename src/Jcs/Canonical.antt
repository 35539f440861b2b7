-- ===== src/Jcs/Canonical.antt =====
-- The texts of `canonicalize` against the values.
use anyonce.Prelude.{Text, Bool, [], ◌++◌, ok, ◌≡◌, ◌↔◌, sym, ap, ◌∙◌}
use anyonce.Jcs.{Value, canonicalize}
use anyonce.Jcs.Normal.{normal, print}
use anyonce.Jcs.Prints.{canonicalize_lem}
use anyonce.Jcs.Heads.{Prints}
use anyonce.Jcs.Injective.{value_injective}
use anyonce.Jcs.Order.{SameValue, SameValue-normal}

module _ {N : Type 0} (is_finite : N → Bool) (number_text : N → Text) (quote : Text → Text) where
  -- Two values that have canonical texts have the same one exactly if they have the same normal form: `toJSON`
  -- called, holes as null, members sorted by their keys and none `undefined`. The texts of numbers and of quoted
  -- texts can be read back.
  pub canonicalize_iff :
      Prints is_finite number_text quote
      → (v w : Value N) (s t : Text) → canonicalize is_finite number_text quote v ≡ ok s
      → canonicalize is_finite number_text quote w ≡ ok t
      → (s ≡ t) ↔ (normal v ≡ normal w)
  canonicalize_iff platform v w s t e e' =
      let here = sym (canonicalize_lem is_finite number_text quote v) ∙ e in
      let there = sym (canonicalize_lem is_finite number_text quote w) ∙ e' in
      (
        λ same.
            (value_injective platform (normal v) (normal w) s t [] [] here there tt tt
              (ap (λ x. x ++ []) same)).0,
        λ same. cc (sym here ∙ ap (print is_finite number_text quote) same ∙ there),
      )

  -- Values that differ in the order of members, in members that are `undefined` and in holes for null, at any
  -- depth, have one canonical text, or throw one error.
  pub canonicalize-SameValue :
      (v w : Value N)
      → SameValue N v w
      → canonicalize is_finite number_text quote v ≡ canonicalize is_finite number_text quote w
  canonicalize-SameValue v w h =
      canonicalize_lem is_finite number_text quote v
      ∙ ap (print is_finite number_text quote) (SameValue-normal h)
      ∙ sym (canonicalize_lem is_finite number_text quote w)
