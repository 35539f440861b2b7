-- ===== src/Memory.antt =====
-- packages/core/src/memory.ts: `MemoryStore`. A promise that settles at once is its value, and no
-- method throws. Records are values here, so a copy is the record rebuilt field by field.
pub mod Copies
pub mod Rows
pub mod Refines
pub mod Invariant
pub mod Reachable
pub mod Tests
use mathlib.Core.List.{map}
use mathlib.Core.Option
use anyonce.Prelude.{
  ℕ, ◌+◌, Text, text_eq, Bool, true, false, not, Option, none, some, List, [], ◌∷◌, ◌++◌, ltb, leb,
  ◌==◌, if◌then◌else◌, total,
}
use anyonce.Types.{
  Operation, RecordState, StoredResult, OmittedResult, Payload, stored, omitted, IdempotencyRecord,
  ErrorInfo, BeginOptions, BeginOutcome, CompleteStatus, is_omitted,
}
use anyonce.Contract.{Store}
use anyonce.Dict.{get, put, delete, keep_only, count_not}

-- `${scope}\x00${key}`
unfoldable pub map_key : Text → Text → Text
map_key scope key = scope ++ 0 ∷ key

unfoldable copy_headers : List (Text × Text) → List (Text × Text)
copy_headers = map (λ h. (h.0, h.1))

unfoldable copy_error : ErrorInfo → ErrorInfo
copy_error e = record { name = e.name; message = e.message }

pub copy_result : StoredResult → StoredResult
unfolding copy_headers copy_error
copy_result r = record {
  kind = r.kind;
  status = r.status;
  headers = Option.map copy_headers r.headers;
  body = Option.map (map (λ b. b)) r.body;
  outcome = r.outcome;
  error = Option.map copy_error r.error;
}

pub omitted_to_stored : OmittedResult → StoredResult
unfolding copy_headers
omitted_to_stored r = record {
  kind = r.kind;
  status = r.status;
  headers = Option.map copy_headers r.headers;
  body = none;
  outcome = none;
  error = none;
}

pub copy_record : IdempotencyRecord → IdempotencyRecord
unfolding copy_result
copy_record r = record {
  scope = r.scope;
  key = r.key;
  fingerprint = r.fingerprint;
  state = r.state;
  fence = r.fence;
  lease_until = r.lease_until;
  created_at = r.created_at;
  expires_at = r.expires_at;
  result = Option.map copy_result r.result;
  result_omitted = r.result_omitted;
}

pub record MemoryStore : Type 0 where
  pub records : List (Text × IdempotencyRecord)

abbrev pub empty : MemoryStore
empty = record { records = [] }

unfoldable is_completed : RecordState → Bool
is_completed RecordState.completed = true
is_completed RecordState.in_flight = false

-- The fence of the claim that is written: one more than that of the row, if there is one.
unfoldable next_fence : Option IdempotencyRecord → ℕ
next_fence none = 1
next_fence (some existing) = existing.fence + 1

unfoldable acquire :
    Operation → BeginOptions → Option IdempotencyRecord → MemoryStore → BeginOutcome × MemoryStore
unfolding next_fence
acquire op opts existing s =
    let fence = next_fence existing in
    (
      BeginOutcome.acquired fence,
      record {
        records =
            put (map_key op.scope op.key)
              (record {
                scope = op.scope;
                key = op.key;
                fingerprint = op.fingerprint;
                state = RecordState.in_flight;
                fence = fence;
                lease_until = opts.now + opts.lease_ms;
                created_at = opts.now;
                expires_at = opts.now + opts.ttl_ms;
                result = none;
                result_omitted = none;
              })
              s.records;
      },
    )

unfoldable begin_at :
    Operation → BeginOptions → Option IdempotencyRecord → MemoryStore → BeginOutcome × MemoryStore
begin_at op opts none s = acquire op opts none s
begin_at op opts (some existing) s =
    if ltb opts.now existing.expires_at
    then if not (text_eq existing.fingerprint op.fingerprint)
      then (BeginOutcome.mismatch (copy_record existing), s)
      else if is_completed existing.state
      then (BeginOutcome.completed (copy_record existing), s)
      else if ltb opts.now existing.lease_until
      then (BeginOutcome.in_flight existing.lease_until, s)
      else acquire op opts (some existing) s
    else acquire op opts (some existing) s

unfoldable pub begin : Operation → BeginOptions → MemoryStore → BeginOutcome × MemoryStore
unfolding begin_at acquire copy_record is_completed
begin op opts s = begin_at op opts (get (map_key op.scope op.key) s.records) s

-- The assignments to the record that the map holds.
pub settle : IdempotencyRecord → Payload → IdempotencyRecord
unfolding copy_result omitted_to_stored
settle existing (omitted r) = record existing {
  state = RecordState.completed;
  result = some (omitted_to_stored r);
  result_omitted = some true;
}
settle existing (stored r) = record existing {
  state = RecordState.completed;
  result = some (copy_result r);
}

unfoldable complete_at :
    Operation
    → ℕ
    → Payload
    → ℕ
    → Option IdempotencyRecord
    → MemoryStore
    → CompleteStatus × MemoryStore
complete_at op fence result now none s = (CompleteStatus.not_found, s)
complete_at op fence result now (some existing) s =
    if leb existing.expires_at now
    then (CompleteStatus.not_found, s)
    else if not (existing.fence == fence)
    then (CompleteStatus.stale_fence, s)
    else if is_completed existing.state
    then (CompleteStatus.ok, s)
    else (
      CompleteStatus.ok,
      record { records = put (map_key op.scope op.key) (settle existing result) s.records },
    )

unfoldable pub complete : Operation → ℕ → Payload → ℕ → MemoryStore → CompleteStatus × MemoryStore
unfolding complete_at settle is_completed
complete op fence result now s =
    complete_at op fence result now (get (map_key op.scope op.key) s.records) s

unfoldable abandon_at :
    Operation → ℕ → Option IdempotencyRecord → MemoryStore → CompleteStatus × MemoryStore
abandon_at op fence none s = (CompleteStatus.not_found, s)
abandon_at op fence (some existing) s =
    if is_completed existing.state
    then (CompleteStatus.not_found, s)
    else if not (existing.fence == fence)
    then (CompleteStatus.stale_fence, s)
    else (CompleteStatus.ok, record { records = delete (map_key op.scope op.key) s.records })

unfoldable pub abandon : Operation → ℕ → MemoryStore → CompleteStatus × MemoryStore
unfolding abandon_at is_completed
abandon op fence s = abandon_at op fence (get (map_key op.scope op.key) s.records) s

unfoldable read_at : ℕ → Option IdempotencyRecord → Option IdempotencyRecord
read_at now none = none
read_at now (some existing) =
    if leb existing.expires_at now then none else some (copy_record existing)

unfoldable pub read : Text → Text → ℕ → MemoryStore → Option IdempotencyRecord
unfolding read_at copy_record
read scope key now s = read_at now (get (map_key scope key) s.records)

pub is_unexpired : ℕ → IdempotencyRecord → Bool
is_unexpired now r = not (leb r.expires_at now)

unfoldable pub purge : ℕ → MemoryStore → ℕ × MemoryStore
unfolding is_unexpired
purge now s = (
  count_not (is_unexpired now) s.records,
  record { records = keep_only (is_unexpired now) s.records },
)

unfoldable pub physically_remove : Text → Text → MemoryStore → MemoryStore
physically_remove scope key s = record { records = delete (map_key scope key) s.records }

-- `MemoryStore` as a `Store` over a world that is the store itself.
abbrev pub memory_store : (E : Type 0) → Store MemoryStore E
memory_store E = record {
  begin = λ op opts. total (begin op opts);
  complete = λ op fence result now. total (complete op fence result now);
  abandon = λ op fence. total (abandon op fence);
  get = λ scope key now. total (λ s. (read scope key now s, s));
  purge = λ now. total (purge now);
  max_result_bytes = none;
}
