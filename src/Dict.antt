-- ===== src/Dict.antt =====
-- A `Map` with text keys, in insertion order: `get`, `set`, `delete` and a sweep.
pub mod Laws
use anyonce.Prelude.{ℕ, suc, Text, text_eq, Bool, Option, none, some, List, [], ◌∷◌, if◌then◌else◌}

module _ {ℓ} {V : Type ℓ} where
  unfoldable pub get : Text → List (Text × V) → Option V
  get k [] = none
  get k ((j, v) ∷ m) = let rest = get k m in if text_eq j k then some v else rest

  -- An entry that is there keeps its place.
  unfoldable pub put : Text → V → List (Text × V) → List (Text × V)
  put k v [] = (k, v) ∷ []
  put k v ((j, w) ∷ m) = let rest = put k v m in if text_eq j k then (j, v) ∷ m else (j, w) ∷ rest

  unfoldable pub delete : Text → List (Text × V) → List (Text × V)
  delete k [] = []
  delete k ((j, w) ∷ m) = let rest = delete k m in if text_eq j k then rest else (j, w) ∷ rest

  -- What is left when every entry whose value fails the test is deleted, and how many were.
  unfoldable pub keep_only : (V → Bool) → List (Text × V) → List (Text × V)
  keep_only p [] = []
  keep_only p ((j, w) ∷ m) = let rest = keep_only p m in if p w then (j, w) ∷ rest else rest

  unfoldable pub count_not : (V → Bool) → List (Text × V) → ℕ
  count_not p [] = 0
  count_not p ((j, w) ∷ m) = let rest = count_not p m in if p w then rest else suc rest
