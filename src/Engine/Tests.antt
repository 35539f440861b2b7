-- ===== src/Engine/Tests.antt =====
-- The engine over the memory store, at concrete inputs.
use anyonce.Prelude.{
  ℕ, ◌<◌, codes, true, none, some, [], ◌∷◌, ◌≡◌, ◌≢◌, refl, ◌&&◌, text_eq, M, ok, err, pure, throw,
  arith,
}
use anyonce.Types.{
  Operation, http, StoredResult, Payload, IdempotencyRecord, BeginOutcome, RecordState,
}
use anyonce.Contract.{Row, KeepsContract, claim, finished}
use anyonce.Dict.{get, put}
use anyonce.Memory.{MemoryStore, memory_store, empty, begin, map_key}
use anyonce.Memory.Rows.{row, name}
use anyonce.Memory.Invariant.{IsWellFormed, empty-IsWellFormed, memory_store-KeepsContract}
use anyonce.Engine.{
  ExecutePolicy, ExecuteResult, fail_closed, executed, replayed, begin_now, execute, payload_of,
}
use anyonce.Engine.Outcomes.{
  AnswersAlone, execute-refusal, execute-returned, is_recorded, complete_now, claimed_world,
}
use anyonce.Engine.Hooks.{without_hooks}
use anyonce.Engine.Claims.{options}
use anyonce.Engine.Once.{IsCalm, execute-stores, execute-duplicate, execute-releases, execute-once}

abbrev pub op : Operation
op = record { scope = codes "POST /orders"; key = codes "k1"; fingerprint = codes "f1" }

abbrev pub created : StoredResult
created = record {
  kind = http;
  status = some 201;
  headers = some [];
  body = some (1 ∷ 2 ∷ []);
  outcome = none;
  error = none;
}

abbrev pub policy : ExecutePolicy MemoryStore ℕ
policy = record {
  lease_ms = 30;
  ttl_ms = 1000;
  max_result_bytes = 10;
  store_result = λ r. pure true;
  on_store_error = fail_closed;
  clock = pure 100;
  hooks = without_hooks;
  hook_errors = none;
}

abbrev pub creates : ℕ → M MemoryStore ℕ StoredResult
creates fence = pure created

abbrev rows : MemoryStore → Row
rows s = row s (name op)

abbrev keeps : KeepsContract (memory_store ℕ) op rows IsWellFormed
keeps = memory_store-KeepsContract ℕ op

-- Nothing in this policy touches the store, and neither handler does.
abbrev calm : IsCalm policy (memory_store ℕ) op rows IsWellFormed keeps tt creates
calm = record {
  clock = λ w inv. (refl, inv);
  acquired = λ w inv. (refl, inv);
  counter = λ w inv. (refl, inv);
  store_result = λ r w inv. (refl, inv);
  handler = λ fence w inv. (refl, inv);
}

abbrev failing : ℕ → M MemoryStore ℕ StoredResult
failing fence = throw 7

abbrev calm_failing : IsCalm policy (memory_store ℕ) op rows IsWellFormed keeps tt failing
calm_failing = record {
  clock = λ w inv. (refl, inv);
  acquired = λ w inv. (refl, inv);
  counter = λ w inv. (refl, inv);
  store_result = λ r w inv. (refl, inv);
  handler = λ fence w inv. (refl, inv);
}

-- The first claim on an empty store gets fence 1.
first_claim : (begin_now policy (memory_store ℕ) op empty).0 ≡ ok (BeginOutcome.acquired 1)
unfolding begin_now begin get
first_claim = refl

abbrev first_row : IdempotencyRecord
first_row = claim op (options policy 100) 1

abbrev after_first : MemoryStore
after_first = (execute policy (memory_store ℕ) op creates empty).1

abbrev kept_payload : Payload
kept_payload = payload_of policy (memory_store ℕ) op created

execute-stores_example :
    ((execute policy (memory_store ℕ) op creates empty).0 ≡ ok (executed created true))
    × (row after_first (name op) ≡ some (finished first_row kept_payload))
    × IsWellFormed after_first
execute-stores_example =
    execute-stores policy (memory_store ℕ) op rows IsWellFormed keeps tt creates calm empty 100 1
      empty-IsWellFormed refl first_claim created 100 refl refl refl (omega arith)

execute-once_example :
    ((execute policy (memory_store ℕ) op creates empty).0 ≡ ok (executed created true))
    × ((execute policy (memory_store ℕ) op failing after_first).0
        ≡ ok (replayed (finished first_row kept_payload)))
    × ((run'' : ℕ → M MemoryStore ℕ StoredResult)
        → execute policy (memory_store ℕ) op run'' after_first
          ≡ execute policy (memory_store ℕ) op failing after_first)
execute-once_example =
    execute-once policy (memory_store ℕ) op rows IsWellFormed keeps tt creates calm empty 100 1
      empty-IsWellFormed refl first_claim created 100 refl refl refl (omega arith) failing
      after_first 100 execute-stores_example.2 refl refl (omega arith)

execute-releases_example :
    ((execute policy (memory_store ℕ) op failing empty).0 ≡ err 7)
    × (row (execute policy (memory_store ℕ) op failing empty).1 (name op) ≡ none)
    × IsWellFormed (execute policy (memory_store ℕ) op failing empty).1
execute-releases_example =
    execute-releases policy (memory_store ℕ) op rows IsWellFormed keeps tt failing calm_failing
      empty 100 1 empty-IsWellFormed refl first_claim 7 refl

-- The same key with another payload, after the first execution.
abbrev changed : Operation
changed = record op { fingerprint = codes "f2" }

execute-duplicate_example :
    ((finished first_row kept_payload).fingerprint ≢ changed.fingerprint
      → AnswersAlone policy
          (memory_store ℕ)
          changed
          creates
          after_first
          (ExecuteResult.mismatch (finished first_row kept_payload)))
    × ((finished first_row kept_payload).fingerprint ≡ changed.fingerprint
        → (finished first_row kept_payload).state ≡ RecordState.completed
        → AnswersAlone policy
            (memory_store ℕ)
            changed
            creates
            after_first
            (replayed (finished first_row kept_payload)))
    × ((finished first_row kept_payload).fingerprint ≡ changed.fingerprint
        → (finished first_row kept_payload).state ≡ RecordState.in_flight
        → 100 < 130
        → AnswersAlone policy
            (memory_store ℕ)
            changed
            creates
            after_first
            (ExecuteResult.conflict 130))
execute-duplicate_example =
    execute-duplicate policy (memory_store ℕ) changed rows IsWellFormed
      (memory_store-KeepsContract ℕ changed) tt (λ w inv. (refl, inv)) creates after_first 100
      (finished first_row kept_payload) execute-stores_example.2 refl execute-stores_example.1
      (omega arith)

-- The store while the first claim is held.
abbrev held : MemoryStore
held = (begin_now policy (memory_store ℕ) op empty).1

execute-refusal_example :
    ((execute policy (memory_store ℕ) op failing held).0 ≡ ok (ExecuteResult.conflict 130))
    × ((run' : ℕ → M MemoryStore ℕ StoredResult)
        → execute policy (memory_store ℕ) op run' held
          ≡ execute policy (memory_store ℕ) op failing held)
unfolding begin_now begin get put text_eq map_key
execute-refusal_example =
    execute-refusal policy (memory_store ℕ) op failing held (ExecuteResult.conflict 130) refl

execute-returned_example :
    (execute policy (memory_store ℕ) op creates empty).0
    ≡ ok (
        executed created (
          true
          && is_recorded
              (complete_now policy
                (memory_store ℕ)
                op
                1
                created
                (claimed_world policy (memory_store ℕ) op creates empty)).0))
execute-returned_example =
    execute-returned policy (memory_store ℕ) op creates empty 1 first_claim created true refl refl
