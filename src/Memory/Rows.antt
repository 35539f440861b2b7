-- ===== src/Memory/Rows.antt =====
-- The row of a scope and key in a memory store, and the name it is filed under.
use anyonce.Prelude.{Text, [], ◌∷◌, ◌++◌, ◌≡◌, ◌≢◌, refl, All}
use anyonce.Types.{Operation}
use anyonce.Contract.{Row}
use anyonce.Dict.{get}
use anyonce.Memory.{map_key, MemoryStore}

abbrev pub row : MemoryStore → Text → Row
row s name = get name s.records

abbrev pub name : Operation → Text
name op = map_key op.scope op.key

-- Free of the separator.
abbrev pub IsSeparable : Text → Type 0
IsSeparable = All (λ c. c ≢ 0)

not_cons : (s : Text) (t : Text) → IsSeparable (s ++ 0 ∷ t) → ⊥
not_cons [] t (h, _) = h refl
not_cons (c ∷ s) t (_, h) = not_cons s t h

-- Two scopes and keys that are filed under one name are the same, if the keys hold no NUL.
pub map_key_injective :
    (scope key scope' key' : Text)
    → IsSeparable key
    → IsSeparable key'
    → map_key scope key ≡ map_key scope' key'
    → (scope ≡ scope') × (key ≡ key')
unfolding map_key
map_key_injective [] key [] key' h h' e = (refl, cc e)
map_key_injective [] key (c ∷ scope') key' h h' e =
    let same : key ≡ scope' ++ 0 ∷ key' = cc e in absurd (not_cons scope' key' (rw same at h))
map_key_injective (c ∷ scope) key [] key' h h' e =
    let same : key' ≡ scope ++ 0 ∷ key = cc e in absurd (not_cons scope key (rw same at h'))
map_key_injective (c ∷ scope) key (d ∷ scope') key' h h' e =
    let (s, k) = map_key_injective scope key scope' key' h h' (cc e) in (cc (e, s), k)
