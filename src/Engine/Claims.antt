-- ===== src/Engine/Claims.antt =====
-- What the contract says of a claim that the engine took, and of one that it did not get.
use anyonce.Prelude.{
  ℕ, ◌<◌, ◌≤◌, ltb, Bool-cases, Option, true, none, some, ◌≡◌, ◌≢◌, Result, ok, inl, inr, arith,
}
use anyonce.Types.{
  Operation, RecordState, StoredResult, Payload, IdempotencyRecord, BeginOptions, BeginOutcome,
  CompleteStatus,
}
use anyonce.Contract.{
  Row, Store, Holds, payload_size, claim, finished, Begins, claims_new, claims_expired, takes_over,
  mismatches, replays, conflicts, Completes, Abandons,
}
use anyonce.Engine.{ExecutePolicy, is_ok, payload_of, result_size}

-- What a claim wrote, if it was one.
pub claimed_row :
    {op : Operation} {opts : BeginOptions} {row row' : Row} {out : BeginOutcome} (fence : ℕ)
    → Begins op opts row out row'
    → out ≡ BeginOutcome.acquired fence
    → row' ≡ some (claim op opts fence)
claimed_row fence (claims_new a b c) e = ground arith
claimed_row fence (claims_expired r a b c d) e = ground arith
claimed_row fence (takes_over r a b c d e' f g) e = ground arith
claimed_row fence (mismatches r a b c d e') e = cc
claimed_row fence (replays r a b c d e' f) e = cc
claimed_row fence (conflicts r a b c d e' f g) e = cc

-- What a completion and a release of it leave.
pub finished_claim :
    {fence now : ℕ} {payload : Payload} {row row' : Row} {out : CompleteStatus}
    {r : IdempotencyRecord}
    → Completes fence payload now row out row'
    → row ≡ some r
    → r.state ≡ RecordState.in_flight
    → r.fence ≡ fence
    → now < r.expires_at
    → (is_ok out ≡ true) × (row' ≡ some (finished r payload))
finished_claim (Completes.misses a b c) h s f l = cc
finished_claim (Completes.expires x a b c d) h s f l = ground arith
finished_claim (Completes.is_stale x a b c d e) h s f l = ground arith
finished_claim (Completes.repeats x a b c d e g) h s f l = ground arith
finished_claim (Completes.finishes x a b c d e g) h s f l = ground arith

pub released_claim :
    {fence : ℕ} {row row' : Row} {out : CompleteStatus} {r : IdempotencyRecord}
    → Abandons fence row out row'
    → row ≡ some r
    → r.state ≡ RecordState.in_flight
    → r.fence ≡ fence
    → row' ≡ none
released_claim (Abandons.misses a b c) h s f = cc
released_claim (Abandons.too_late x a b c d) h s f = ground arith
released_claim (Abandons.is_stale x a b c d e) h s f = ground arith
released_claim (Abandons.releases x a b c d e) h s f = e

pub ok_injective : {E A : Type 0} {a b : A} → ◌≡◌ {A = Result E A} (ok a) (ok b) → a ≡ b
ok_injective e = cc e

-- What a claim is answered on a live row that is not free.
abbrev pub Duplicate : Operation → ℕ → IdempotencyRecord → BeginOutcome → Type 0
Duplicate op now r out =
    (r.fingerprint ≢ op.fingerprint → out ≡ BeginOutcome.mismatch r)
    × (r.fingerprint ≡ op.fingerprint
        → r.state ≡ RecordState.completed
        → out ≡ BeginOutcome.completed r)
    × (r.fingerprint ≡ op.fingerprint
        → r.state ≡ RecordState.in_flight
        → now < r.lease_until
        → out ≡ BeginOutcome.in_flight r.lease_until)

pub Begins-Duplicate :
    (op : Operation) (opts : BeginOptions) {row row' : Row} {out : BeginOutcome}
    (r : IdempotencyRecord)
    → Begins op opts row out row'
    → row ≡ some r
    → opts.now < r.expires_at
    → Duplicate op opts.now r out
Begins-Duplicate op opts r (claims_new a b c) h live = cc
Begins-Duplicate op opts r (claims_expired x a b c d) h live = ground arith
Begins-Duplicate op opts r (takes_over x a b c d e f g) h live = ground arith
Begins-Duplicate op opts r (mismatches x a b c d e) h live = ground arith
Begins-Duplicate op opts r (replays x a b c d e f) h live = ground arith
Begins-Duplicate op opts r (conflicts x a b c d e f g) h live = ground arith

-- The options of a claim at the time `now`.
abbrev pub options : {W E : Type 0} → ExecutePolicy W E → ℕ → BeginOptions
options policy now = record { lease_ms = policy.lease_ms; ttl_ms = policy.ttl_ms; now = now }

Holds-le : (m n : ℕ) (most : Option ℕ) → m ≤ n → Holds n most → Holds m most
Holds-le m n none le h = tt
Holds-le m n (some most) le h = omega arith

-- What the engine hands to the store is within what the store declares, if the policy's limit is.
pub payload_of-Holds :
    {W E : Type 0} (policy : ExecutePolicy W E) (store : Store W E) (op : Operation)
    → Holds policy.max_result_bytes store.max_result_bytes
    → (result : StoredResult)
    → Holds (payload_size (payload_of policy store op result)) store.max_result_bytes
unfolding payload_of result_size
payload_of-Holds policy store op capped result =
    elim (Bool-cases (ltb policy.max_result_bytes (result_size result))) [
      | inl over ↦
          rw over (Holds-le 0 policy.max_result_bytes store.max_result_bytes (omega arith) capped)
      | inr under ↦ rw under (
          Holds-le (result_size result) policy.max_result_bytes store.max_result_bytes
            (ground arith) capped)
    ]
