-- ===== src/Engine.antt =====
-- packages/core/src/engine.ts: `execute`, the one state machine behind the three doors. The world `W`
-- holds all that the store, the handler, the hooks and the clock can see and change; `E` is what can
-- be thrown.
pub mod Outcomes
pub mod Hooks
pub mod Claims
pub mod Once
pub mod Tests
pub mod HookTests
use anyonce.Prelude.{
  ℕ, ◌+◌, Bool, true, false, not, Option, none, some, length, ltb, or_else, if◌then◌else◌, M,
  Result, ok, err, pure, throw, catch, ◌>>=◌, ◌>>◌, try_then,
}
use anyonce.Types.{
  Operation, ResultKind, http, message, StoredResult, OmittedResult, Payload, stored, omitted,
  IdempotencyRecord, BeginOutcome, CompleteStatus,
}
use anyonce.Contract.{Store}

abbrev pub default_lease_ms : ℕ
default_lease_ms = 30000

abbrev pub default_ttl_ms : ℕ
default_ttl_ms = 86400000

abbrev pub default_max_result_bytes : ℕ
default_max_result_bytes = 1048576

pub data OnStoreError : Type 0 where
  fail_closed fail_open : OnStoreError

-- A hook that is not given is `none`.
pub record ExecuteHooks (W E : Type 0) : Type 0 where
  pub on_acquired : Option (Operation → M W E (Unit {0}))
  pub on_replayed : Option (Operation → IdempotencyRecord → M W E (Unit {0}))
  pub on_conflict : Option (Operation → ℕ → M W E (Unit {0}))
  pub on_mismatch : Option (Operation → IdempotencyRecord → M W E (Unit {0}))
  pub on_store_error : Option (Operation → E → M W E (Unit {0}))

-- The object `{ count }` that the caller shares with the engine.
pub record Counter (W : Type 0) : Type 0 where
  pub count : W → ℕ
  pub set_count : ℕ → W → W

pub record ExecutePolicy (W E : Type 0) : Type 0 where
  pub lease_ms : ℕ
  pub ttl_ms : ℕ
  pub max_result_bytes : ℕ
  pub store_result : StoredResult → M W E Bool
  pub on_store_error : OnStoreError
  pub clock : M W E ℕ
  pub hooks : ExecuteHooks W E
  pub hook_errors : Option (Counter W)

pub data ExecuteResult (E : Type 0) : Type 0 where
  executed : StoredResult → Bool → ExecuteResult E
  replayed : IdempotencyRecord → ExecuteResult E
  conflict : ℕ → ExecuteResult E
  mismatch : IdempotencyRecord → ExecuteResult E
  store_error : E → ExecuteResult E

is_message : ResultKind → Bool
is_message message = true
is_message http = false

unfoldable pub default_store_result : StoredResult → Bool
unfolding is_message
default_store_result r = if is_message r.kind then true else ltb (or_else r.status 500) 500

unfoldable pub result_size : StoredResult → ℕ
result_size r = elim r.body [ none ↦ 0 | some b ↦ length b ]

unfoldable pub omit_body : StoredResult → OmittedResult
omit_body r = record { kind = r.kind; status = r.status; headers = r.headers }

abbrev pub is_ok : CompleteStatus → Bool
is_ok CompleteStatus.ok = true
is_ok _ = false

abbrev pub increment : {W : Type 0} → Option (Counter W) → W → W
increment none w = w
increment (some c) w = c.set_count (c.count w + 1) w

module _ {W E : Type 0} where
  -- A hook that is not given does nothing.
  abbrev pub call : {A : Type 0} → Option (A → M W E (Unit {0})) → A → M W E (Unit {0})
  call none a = pure tt
  call (some hook) a = hook a

  abbrev pub call_on :
      {A : Type 0} → Option (Operation → A → M W E (Unit {0})) → Operation → A → M W E (Unit {0})
  call_on none op a = pure tt
  call_on (some hook) op a = hook op a

  module _ (policy : ExecutePolicy W E) where
    -- What a hook throws is counted and dropped.
    pub safely : M W E (Unit {0}) → M W E (Unit {0})
    safely hook = catch hook (λ _ w. (ok tt, increment policy.hook_errors w))

    module _ (store : Store W E) (op : Operation) where
      pub abandon_quietly : ℕ → M W E (Unit {0})
      abandon_quietly fence =
          try_then (store.abandon op fence)
            (λ error. safely (call_on policy.hooks.on_store_error op error)) (λ _. pure tt)

      pub payload_of : StoredResult → Payload
      payload_of result =
          if ltb policy.max_result_bytes (result_size result)
          then omitted (omit_body result)
          else stored result

      -- From `store.complete` on.
      pub record_result : ℕ → StoredResult → M W E (ExecuteResult E)
      unfolding payload_of
      record_result fence result =
          try_then (do now ← policy.clock; store.complete op fence (payload_of result) now)
            (λ error. do
              safely (call_on policy.hooks.on_store_error op error)
              pure (executed result false))
            (λ status. pure (executed result (is_ok status)))

      -- What is done with the handler's result.
      pub settle : ℕ → StoredResult → M W E (ExecuteResult E)
      settle fence result = do
        wanted ← policy.store_result result
        if wanted
            then record_result fence result
            else do abandon_quietly fence; pure (executed result false)

      pub begin_now : M W E BeginOutcome
      begin_now = do
        now ← policy.clock
        store.begin op (record { lease_ms = policy.lease_ms; ttl_ms = policy.ttl_ms; now = now })

      module _ (run : ℕ → M W E StoredResult) where
        -- The claim is held: the handler runs.
        pub run_claimed : ℕ → M W E (ExecuteResult E)
        run_claimed fence =
            try_then (run fence) (λ error. do abandon_quietly fence; throw error)
              (λ result. settle fence result)

        pub answer : BeginOutcome → M W E (ExecuteResult E)
        answer (BeginOutcome.completed record') = do
          safely (call_on policy.hooks.on_replayed op record')
          pure (replayed record')
        answer (BeginOutcome.in_flight lease_until) = do
          safely (call_on policy.hooks.on_conflict op lease_until)
          pure (conflict lease_until)
        answer (BeginOutcome.mismatch record') = do
          safely (call_on policy.hooks.on_mismatch op record')
          pure (mismatch record')
        answer (BeginOutcome.acquired fence) = do
          safely (call policy.hooks.on_acquired op)
          run_claimed fence

        -- `begin` threw.
        pub without_store : OnStoreError → E → M W E (ExecuteResult E)
        without_store fail_closed error = do
          safely (call_on policy.hooks.on_store_error op error)
          pure (store_error error)
        without_store fail_open error = do
          safely (call_on policy.hooks.on_store_error op error)
          result ← run 0
          pure (executed result false)

        pub execute : M W E (ExecuteResult E)
        execute = try_then begin_now (without_store policy.on_store_error) answer
