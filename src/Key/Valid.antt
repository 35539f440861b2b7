-- ===== src/Key/Valid.antt =====
-- Which keys `validateKey` accepts, stated without its loop.
use anyonce.Prelude.{ℕ, suc, ◌≤◌, Text, Bool, true, [], ◌∷◌, ◌≡◌, ◌≢◌, ◌↔◌, ◌⊎◌, length, arith, All}
use anyonce.Key.{KeyValidation, validate_from, within_limit, validate_key}

-- Printable ASCII, with the space only where it is allowed.
abbrev pub IsAllowed : Bool → ℕ → Type 0
IsAllowed allow_space c = ((c ≡ 0x20) × (allow_space ≡ true)) ⊎ ((0x21 ≤ c) × (c ≤ 0x7e))

pub record IsValid (allow_space : Bool) (key : Text) : Type 0 where
  pub nonempty : key ≢ []
  pub allowed : All (IsAllowed allow_space) key
  pub short : length key ≤ 255

validate_from_iff :
    (i : ℕ) (key : Text) (allow_space : Bool)
    → (validate_from i key allow_space ≡ KeyValidation.ok) ↔ All (IsAllowed allow_space) key
unfolding validate_from
validate_from_iff i [] allow_space = ground arith
validate_from_iff i (c ∷ key) allow_space =
    ground (arith, validate_from_iff (suc i) key allow_space)

within_limit_iff :
    (key : Text) (v : KeyValidation)
    → (within_limit key v ≡ KeyValidation.ok) ↔ ((v ≡ KeyValidation.ok) × (length key ≤ 255))
unfolding within_limit
within_limit_iff key v = ground arith

-- A key is accepted exactly when it has 1 to 255 code units, each printable ASCII; a space counts
-- only where spaces are allowed.
pub validate_key_iff :
    (key : Text) (allow_space : Bool)
    → (validate_key key allow_space ≡ KeyValidation.ok) ↔ IsValid allow_space key
unfolding validate_key
validate_key_iff [] allow_space = (λ e. cc e, λ v. absurd (v.nonempty (cc)))
validate_key_iff (c ∷ key) allow_space =
    let limit = within_limit_iff (c ∷ key) (validate_from 0 (c ∷ key) allow_space) in
    let loop = validate_from_iff 0 (c ∷ key) allow_space in
    (
      λ e. record { nonempty = cc; allowed = loop.0 (limit.0 e).0; short = (limit.0 e).1 },
      λ v. limit.1 (loop.1 v.allowed, v.short),
    )
