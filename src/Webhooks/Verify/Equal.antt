-- ===== src/Webhooks/Verify/Equal.antt =====
-- `equalBytes` against equality.
use Prim.Native.Nat.{bit_or, bit_xor, bit_or-bitwise, bit_xor-bitwise, digits, differ}
use anyonce.Prelude.{
  ℕ, zero, suc, ◌≤◌, Bytes, true, false, [], ◌∷◌, ◌/◌, ◌%◌, ==_iff, Bool-cases, inl, inr, false,
  length, ◌==◌, max, ◌≡◌, ◌↔◌, refl, ap, sym, arith,
}
use anyonce.Webhooks.Verify.{difference, equal_bytes}

or_zero : (n a b : ℕ) → a ≤ n → digits (λ b. b) max n a b ≡ 0 → (a ≡ 0) × (b ≡ 0)
or_zero zero a b le e = (omega (arith, le), e)
or_zero (suc n) zero b le e = (refl, e)
or_zero (suc n) (suc a) b le e =
    let high : digits (λ b. b) max n (suc a / 2) (b / 2) ≡ 0 = omega (arith, e) in
    let (a_high, b_high) = or_zero n (suc a / 2) (b / 2) (omega (arith, le)) high in
    let low : max (suc a % 2) (b % 2) ≡ 0 = omega (arith, e) in
    (omega (arith, a_high, low), omega (arith, b_high, low))

differ_zero : (x y : ℕ) → differ x y ≡ 0 → x ≡ y
differ_zero zero y e = sym e
differ_zero (suc x) zero e = omega (arith, e)
differ_zero (suc x) (suc y) e = ap suc (differ_zero x y e)

differ_self : (x : ℕ) → differ x x ≡ 0
differ_self zero = refl
differ_self (suc x) = differ_self x

xor_zero : (n a b : ℕ) → a ≤ n → digits (λ b. b) differ n a b ≡ 0 → a ≡ b
xor_zero zero a b le e = omega (arith, le, e)
xor_zero (suc n) zero b le e = sym e
xor_zero (suc n) (suc a) b le e =
    let high : digits (λ b. b) differ n (suc a / 2) (b / 2) ≡ 0 = omega (arith, e) in
    let same = xor_zero n (suc a / 2) (b / 2) (omega (arith, le)) high in
    let low : differ (suc a % 2) (b % 2) ≡ 0 = omega (arith, e) in
    let same_low = differ_zero (suc a % 2) (b % 2) low in omega (arith, same, same_low)

xor_self : (n a : ℕ) → a ≤ n → digits (λ b. b) differ n a a ≡ 0
xor_self zero a le = omega (arith, le)
xor_self (suc n) zero le = refl
xor_self (suc n) (suc a) le =
    let high = xor_self n (suc a / 2) (omega (arith, le)) in
    let low = differ_self (suc a % 2) in omega (arith, high, low)

bit_xor_lem : (x y : ℕ) → bit_xor x y ≡ digits (λ b. b) differ x x y
bit_xor_lem x y = λ i. bit_xor-bitwise x y i

bit_or_lem : (x y : ℕ) → bit_or x y ≡ digits (λ b. b) max x x y
bit_or_lem x y = λ i. bit_or-bitwise x y i

bit_xor_iff : (x y : ℕ) → (bit_xor x y ≡ 0) ↔ (x ≡ y)
bit_xor_iff x y =
    rw (bit_xor_lem x y)
      (xor_zero x x y (omega arith), λ e. rw (sym e) (xor_self x x (omega arith)))

bit_or_iff : (x y : ℕ) → (bit_or x y ≡ 0) ↔ ((x ≡ 0) × (y ≡ 0))
bit_or_iff x y = rw (bit_or_lem x y) (or_zero x x y (omega arith), λ (zx, zy). rw (zx, zy) refl)

difference_iff :
    (diff : ℕ) (a b : Bytes)
    → length a ≡ length b
    → (difference diff a b ≡ 0) ↔ ((diff ≡ 0) × (a ≡ b))
unfolding difference
difference_iff diff [] [] h = ground arith
difference_iff diff [] (y ∷ b) h = absurd (omega (arith, h))
difference_iff diff (x ∷ a) [] h = absurd (omega (arith, h))
difference_iff diff (x ∷ a) (y ∷ b) h =
    let (there, back) = difference_iff (bit_or diff (bit_xor x y)) a b (omega (arith, h)) in
    (
      λ e.
          let (none_yet, rest) = there e in
          let (zero_diff, zero_xor) = (bit_or_iff diff (bit_xor x y)).0 none_yet in
          let same = (bit_xor_iff x y).0 zero_xor in (zero_diff, cc (same, rest)),
      λ (zero_diff, same).
          back
            ((bit_or_iff diff (bit_xor x y)).1 (zero_diff, (bit_xor_iff x y).1 (cc same)), cc same),
    )

unequal : {m n : ℕ} → (m == n) ≡ false → m ≡ n → ⊥
unequal {m} {n} other same = ground arith

-- Two byte strings compare as equal exactly if they are.
pub equal_bytes_iff : (a b : Bytes) → (equal_bytes a b ≡ true) ↔ (a ≡ b)
unfolding equal_bytes
equal_bytes_iff a b = elim (Bool-cases (length a == length b)) [
  | inr other ↦ rw other ((λ e. cc e), λ e. absurd (unequal other (ap length e)))
  | inl same ↦
      let lengths : length a ≡ length b = ground arith in
      let (there, back) = difference_iff 0 a b lengths in
      rw same (
        λ e. (there ((==_iff (difference 0 a b) 0).0 e)).1,
        λ e. (==_iff (difference 0 a b) 0).1 (back (refl, e)),
      )
]
