-- ===== src/Contract.antt =====
-- The contract of a claim store, as the comment on `Store` in packages/core/src/types.ts states it:
-- what each operation answers, and what it leaves of the one row that the operation is about.
pub mod Deterministic
pub mod Interchange
pub mod Invariant
pub mod Trace
pub mod Tests
use anyonce.Prelude.{
  ℕ, ◌+◌, ◌≤◌, ◌<◌, Text, Bool, true, false, Option, none, some, ◌≡◌, ◌≢◌, ◌⊎◌, M, Result, length,
}
use anyonce.Types.{
  Operation, RecordState, StoredResult, OmittedResult, Payload, IdempotencyRecord, BeginOptions,
  BeginOutcome, CompleteStatus, stored, omitted,
}

-- The row of one scope and key; `none` when it is not physically there.
abbrev pub Row : Type 0
Row = Option IdempotencyRecord

-- The row that a successful claim writes.
abbrev pub claim : Operation → BeginOptions → ℕ → IdempotencyRecord
claim op opts fence = record {
  scope = op.scope;
  key = op.key;
  fingerprint = op.fingerprint;
  state = RecordState.in_flight;
  fence = fence;
  lease_until = opts.now + opts.lease_ms;
  created_at = opts.now;
  expires_at = opts.now + opts.ttl_ms;
  result = none;
  result_omitted = none;
}

-- What a record keeps of a payload: the omitted form has no body, outcome or error.
abbrev pub kept_result : Payload → StoredResult
kept_result (stored r) = r
kept_result (omitted r) = record {
  kind = r.kind;
  status = r.status;
  headers = r.headers;
  body = none;
  outcome = none;
  error = none;
}

abbrev pub omission : Payload → Option Bool
omission (stored r) = none
omission (omitted r) = some true

-- The row once its result is stored.
abbrev pub finished : IdempotencyRecord → Payload → IdempotencyRecord
finished r payload = record r {
  state = RecordState.completed;
  result = some (kept_result payload);
  result_omitted = omission payload;
}

-- A row is live only while it expires later than now.
abbrev pub IsLive : IdempotencyRecord → ℕ → Type 0
IsLive r now = now < r.expires_at

-- Expiry comes first, then the fingerprint, then the state and the lease.
pub data Begins (op : Operation) (opts : BeginOptions) (row : Row) (out : BeginOutcome) (row' : Row)
    : Type 0 where
  claims_new :
      row ≡ none
      → out ≡ BeginOutcome.acquired 1
      → row' ≡ some (claim op opts 1)
      → Begins op opts row out row'
  claims_expired :
      (r : IdempotencyRecord)
      → row ≡ some r
      → r.expires_at ≤ opts.now
      → out ≡ BeginOutcome.acquired (r.fence + 1)
      → row' ≡ some (claim op opts (r.fence + 1))
      → Begins op opts row out row'
  takes_over :
      (r : IdempotencyRecord)
      → row ≡ some r
      → IsLive r opts.now
      → r.fingerprint ≡ op.fingerprint
      → r.state ≡ RecordState.in_flight
      → r.lease_until ≤ opts.now
      → out ≡ BeginOutcome.acquired (r.fence + 1)
      → row' ≡ some (claim op opts (r.fence + 1))
      → Begins op opts row out row'
  mismatches :
      (r : IdempotencyRecord)
      → row ≡ some r
      → IsLive r opts.now
      → r.fingerprint ≢ op.fingerprint
      → out ≡ BeginOutcome.mismatch r
      → row' ≡ row
      → Begins op opts row out row'
  replays :
      (r : IdempotencyRecord)
      → row ≡ some r
      → IsLive r opts.now
      → r.fingerprint ≡ op.fingerprint
      → r.state ≡ RecordState.completed
      → out ≡ BeginOutcome.completed r
      → row' ≡ row
      → Begins op opts row out row'
  conflicts :
      (r : IdempotencyRecord)
      → row ≡ some r
      → IsLive r opts.now
      → r.fingerprint ≡ op.fingerprint
      → r.state ≡ RecordState.in_flight
      → opts.now < r.lease_until
      → out ≡ BeginOutcome.in_flight r.lease_until
      → row' ≡ row
      → Begins op opts row out row'

-- Only the fence of the last claim stores a result, once, and only while the row is live. The cases are those of
-- `MemoryStore` in packages/core/src/memory.ts.
pub data Completes (fence : ℕ) (payload : Payload) (now : ℕ) (row : Row) (out : CompleteStatus)
    (row' : Row) : Type 0 where
  misses :
      row ≡ none
      → out ≡ CompleteStatus.not_found
      → row' ≡ row
      → Completes fence payload now row out row'
  expires :
      (r : IdempotencyRecord)
      → row ≡ some r
      → r.expires_at ≤ now
      → out ≡ CompleteStatus.not_found
      → row' ≡ row
      → Completes fence payload now row out row'
  is_stale :
      (r : IdempotencyRecord)
      → row ≡ some r
      → IsLive r now
      → r.fence ≢ fence
      → out ≡ CompleteStatus.stale_fence
      → row' ≡ row
      → Completes fence payload now row out row'
  repeats :
      (r : IdempotencyRecord)
      → row ≡ some r
      → IsLive r now
      → r.fence ≡ fence
      → r.state ≡ RecordState.completed
      → out ≡ CompleteStatus.ok
      → row' ≡ row
      → Completes fence payload now row out row'
  finishes :
      (r : IdempotencyRecord)
      → row ≡ some r
      → IsLive r now
      → r.fence ≡ fence
      → r.state ≡ RecordState.in_flight
      → out ≡ CompleteStatus.ok
      → row' ≡ some (finished r payload)
      → Completes fence payload now row out row'

-- Abandoning looks at the fence and the state alone, and removes the row physically; the cases are those of
-- `MemoryStore`.
pub data Abandons (fence : ℕ) (row : Row) (out : CompleteStatus) (row' : Row) : Type 0 where
  misses : row ≡ none → out ≡ CompleteStatus.not_found → row' ≡ row → Abandons fence row out row'
  too_late :
      (r : IdempotencyRecord)
      → row ≡ some r
      → r.state ≡ RecordState.completed
      → out ≡ CompleteStatus.not_found
      → row' ≡ row
      → Abandons fence row out row'
  is_stale :
      (r : IdempotencyRecord)
      → row ≡ some r
      → r.state ≡ RecordState.in_flight
      → r.fence ≢ fence
      → out ≡ CompleteStatus.stale_fence
      → row' ≡ row
      → Abandons fence row out row'
  releases :
      (r : IdempotencyRecord)
      → row ≡ some r
      → r.state ≡ RecordState.in_flight
      → r.fence ≡ fence
      → out ≡ CompleteStatus.ok
      → row' ≡ none
      → Abandons fence row out row'

-- A read sees the row while it is live.
pub data Gets (now : ℕ) (row : Row) (out : Option IdempotencyRecord) : Type 0 where
  misses : row ≡ none → out ≡ none → Gets now row out
  expires :
      (r : IdempotencyRecord) → row ≡ some r → r.expires_at ≤ now → out ≡ none → Gets now row out
  finds : (r : IdempotencyRecord) → row ≡ some r → IsLive r now → out ≡ some r → Gets now row out

-- The interface `Store`: each operation acts on the world and may throw.
pub record Store (W E : Type 0) : Type 0 where
  pub begin : Operation → BeginOptions → M W E BeginOutcome
  pub complete : Operation → ℕ → Payload → ℕ → M W E CompleteStatus
  pub abandon : Operation → ℕ → M W E CompleteStatus
  pub get : Text → Text → ℕ → M W E (Option IdempotencyRecord)
  pub purge : ℕ → M W E ℕ
  pub max_result_bytes : Option ℕ

-- A number within a limit that may be absent.
abbrev pub Holds : ℕ → Option ℕ → Type 0
Holds n none = Unit
Holds n (some most) = n ≤ most

-- The number of bytes of a body to store.
abbrev pub payload_size : Payload → ℕ
payload_size (stored r) = elim r.body [ none ↦ 0 | some b ↦ length b ]
payload_size (omitted r) = 0

-- A store whose operations on `op` keep the contract on the row that `row` reads off the world, in
-- every world where `Inv` holds, and keep `Inv`. None of them throws, if no body is larger than what the
-- store declares, and a read changes nothing.
pub record KeepsContract {W E : Type 0} (store : Store W E) (op : Operation) (row : W → Row)
    (Inv : W → Type 0) : Type 0 where
  pub begins :
      (opts : BeginOptions) (w : W)
      → Inv w
      → (out : BeginOutcome) × ((store.begin op opts w).0 ≡ Result.ok out)
        × Begins op opts (row w) out (row (store.begin op opts w).1)
        × Inv (store.begin op opts w).1
  pub completes :
      (fence : ℕ) (payload : Payload) (now : ℕ) (w : W)
      → Holds (payload_size payload) store.max_result_bytes
      → Inv w
      → (out : CompleteStatus) × ((store.complete op fence payload now w).0 ≡ Result.ok out)
        × Completes fence payload now (row w) out (row (store.complete op fence payload now w).1)
        × Inv (store.complete op fence payload now w).1
  pub abandons :
      (fence : ℕ) (w : W)
      → Inv w
      → (out : CompleteStatus) × ((store.abandon op fence w).0 ≡ Result.ok out)
        × Abandons fence (row w) out (row (store.abandon op fence w).1)
        × Inv (store.abandon op fence w).1
  pub gets :
      (now : ℕ) (w : W)
      → Inv w
      → (out : Option IdempotencyRecord) × (store.get op.scope op.key now w ≡ (Result.ok out, w))
        × Gets now (row w) out

-- What the operations on `op` do to a world stands in `Rest`, which says what they leave alone.
pub record Spares {W E : Type 0} (store : Store W E) (op : Operation) (Rest : W → W → Type 0)
    : Type 0 where
  pub begins : (opts : BeginOptions) (w : W) → Rest w (store.begin op opts w).1
  pub completes :
      (fence : ℕ) (payload : Payload) (now : ℕ) (w : W)
      → Rest w (store.complete op fence payload now w).1
  pub abandons : (fence : ℕ) (w : W) → Rest w (store.abandon op fence w).1

-- A store that implements the contract: on the rows of `op`, and leaving the rest alone.
abbrev pub Implements :
    {W E : Type 0} → Store W E → Operation → (W → Row) → (W → Type 0) → (W → W → Type 0) → Type 0
Implements store op row Inv Rest = KeepsContract store op row Inv × Spares store op Rest
