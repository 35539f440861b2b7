-- ===== src/Key/Redact.antt =====
-- packages/core/src/keygen.ts: `redactKey`.
use anyonce.Prelude.{
  ◌≤◌, Text, codes, [], ◌∷◌, ◌++◌, length, take, drop, take-drop, length-take, ◌≡◌, refl, sym,
}

-- `slice(0, 8)` and an ellipsis.
unfoldable redact_key : Text → Text
redact_key key = take 8 key ++ (8230 ∷ [])

-- A log line shows no more of a key than its first eight code units.
redact_key_lem :
    (key : Text)
    → (shown hidden : Text) × (redact_key key ≡ shown ++ (8230 ∷ []))
      × (key ≡ shown ++ hidden)
      × (length shown ≤ 8)
unfolding redact_key
redact_key_lem key = (take 8 key, drop 8 key, refl, sym (take-drop 8 key), length-take 8 key)

redacted : redact_key (codes "0123456789") ≡ codes "01234567…"
unfolding redact_key
redacted = refl
