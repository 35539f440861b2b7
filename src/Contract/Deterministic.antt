-- ===== src/Contract/Deterministic.antt =====
-- Uniqueness of the answer and of the row that the contract allows for a call.
use anyonce.Prelude.{ℕ, Option, ◌≡◌, arith}
use anyonce.Types.{
  Operation, Payload, BeginOptions, BeginOutcome, CompleteStatus, IdempotencyRecord,
}
use anyonce.Contract.{
  Row, Begins, claims_new, claims_expired, takes_over, mismatches, replays, conflicts, Completes,
  Abandons, Gets,
}

module _ {op : Operation} {opts : BeginOptions} {row : Row} {out out' : BeginOutcome}
    {r r' : Row} where
  pub Begins-unique :
      Begins op opts row out r → Begins op opts row out' r' → (out ≡ out') × (r ≡ r')
  Begins-unique (claims_new a b c) h = ground arith
  Begins-unique (claims_expired x a b c d) h = ground arith
  Begins-unique (takes_over x a b c d e f g) h = ground arith
  Begins-unique (mismatches x a b c d e) h = ground arith
  Begins-unique (replays x a b c d e f) h = ground arith
  Begins-unique (conflicts x a b c d e f g) h = ground arith

module _ {fence now : ℕ} {payload : Payload} {row : Row} {out out' : CompleteStatus}
    {r r' : Row} where
  pub Completes-unique :
      Completes fence payload now row out r
      → Completes fence payload now row out' r'
      → (out ≡ out') × (r ≡ r')
  Completes-unique (Completes.misses a b c) h = ground arith
  Completes-unique (Completes.expires x a b c d) h = ground arith
  Completes-unique (Completes.is_stale x a b c d e) h = ground arith
  Completes-unique (Completes.repeats x a b c d e f) h = ground arith
  Completes-unique (Completes.finishes x a b c d e f) h = ground arith

module _ {fence : ℕ} {row : Row} {out out' : CompleteStatus} {r r' : Row} where
  pub Abandons-unique :
      Abandons fence row out r → Abandons fence row out' r' → (out ≡ out') × (r ≡ r')
  Abandons-unique (Abandons.misses a b c) h = ground arith
  Abandons-unique (Abandons.too_late x a b c d) h = ground arith
  Abandons-unique (Abandons.is_stale x a b c d e) h = ground arith
  Abandons-unique (Abandons.releases x a b c d e) h = ground arith

module _ {now : ℕ} {row : Row} {out out' : Option IdempotencyRecord} where
  pub Gets-unique : Gets now row out → Gets now row out' → out ≡ out'
  Gets-unique (Gets.misses a b) h = ground arith
  Gets-unique (Gets.expires x a b c) h = ground arith
  Gets-unique (Gets.finds x a b c) h = ground arith
