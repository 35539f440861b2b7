-- ===== src/Engine/Once.antt =====
-- The engine over a store that keeps the contract.
use anyonce.Prelude.{
  ℕ, ◌+◌, ◌<◌, true, none, some, ◌≡◌, ◌≢◌, refl, sym, ◌∙◌, M, ok, err, Result-cases, inl, inr,
}
use anyonce.Types.{
  Operation, RecordState, StoredResult, IdempotencyRecord, BeginOutcome, CompleteStatus,
}
use anyonce.Contract.{Row, Store, Holds, KeepsContract, claim, finished, Begins, Completes}
use anyonce.Engine.{
  ExecutePolicy, ExecuteResult, executed, replayed, is_ok, call, safely, abandon_quietly,
  payload_of, begin_now, record_result, settle, run_claimed, execute, increment,
}
use anyonce.Engine.Outcomes.{
  AnswersAlone, execute-refusal, execute-acquired, complete_now, claimed_world, handled_world,
}
use anyonce.Engine.Claims.{
  claimed_row, finished_claim, released_claim, ok_injective, Begins-Duplicate, options,
  payload_of-Holds,
}

module _ {W E : Type 0} (policy : ExecutePolicy W E) (store : Store W E) (op : Operation)
    (row : W → Row) (Inv : W → Type 0) (impl : KeepsContract store op row Inv)
    (capped : Holds policy.max_result_bytes store.max_result_bytes) where
  -- `m` leaves the row of the operation alone.
  abbrev pub Keeps : {A : Type 0} → M W E A → Type 0
  Keeps m = (w : W) → Inv w → (row (m w).1 ≡ row w) × Inv (m w).1

  module _ (calm_clock : Keeps policy.clock) where
    -- The claim, taken at the time of the clock.
    begin_now-Begins :
        (w : W) (now : ℕ)
        → Inv w
        → (policy.clock w).0 ≡ ok now
        → (out : BeginOutcome) × ((begin_now policy store op w).0 ≡ ok out)
          × Begins op (options policy now) (row w) out (row (begin_now policy store op w).1)
          × Inv (begin_now policy store op w).1
    unfolding begin_now
    begin_now-Begins w now inv time =
        let (same, inv') = calm_clock w inv in
        rw (time, ← same) (impl.begins (options policy now) (policy.clock w).1 inv')

    -- On a live row that is not free, `execute` does not run the handler: another payload is a mismatch, a
    -- stored result is replayed, and a claim whose lease is live is a conflict; and with any other handler
    -- the whole execution is the same. The store keeps the contract, and the clock leaves the row alone.
    pub execute-duplicate :
        (run : ℕ → M W E StoredResult) (w : W) (now : ℕ) (r : IdempotencyRecord)
        → Inv w
        → (policy.clock w).0 ≡ ok now
        → row w ≡ some r
        → now < r.expires_at
        → (r.fingerprint ≢ op.fingerprint
            → AnswersAlone policy store op run w (ExecuteResult.mismatch r))
          × (r.fingerprint ≡ op.fingerprint
              → r.state ≡ RecordState.completed
              → AnswersAlone policy store op run w (replayed r))
          × (r.fingerprint ≡ op.fingerprint
              → r.state ≡ RecordState.in_flight
              → now < r.lease_until
              → AnswersAlone policy store op run w (ExecuteResult.conflict r.lease_until))
    execute-duplicate run w now r inv time here live =
        let (out, e, b, _) = begin_now-Begins w now inv time in
        let (other, done, held) = Begins-Duplicate op (options policy now) r b here live in
        (
          λ ne. execute-refusal policy store op run w _ (rw (e, other ne)),
          λ same state. execute-refusal policy store op run w _ (rw (e, done same state)),
          λ same state lease.
              execute-refusal policy store op run w _ (rw (e, held same state lease)),
        )

    record_result-Completes :
        (fence : ℕ) (result : StoredResult) (w : W) (now : ℕ)
        → Inv w
        → (policy.clock w).0 ≡ ok now
        → (out : CompleteStatus) × (record_result policy store op fence result w
            ≡ (ok (executed result (is_ok out)), (complete_now policy store op fence result w).1))
          × Completes fence
              (payload_of policy store op result)
              now
              (row w)
              out
              (row (complete_now policy store op fence result w).1)
          × Inv (complete_now policy store op fence result w).1
    unfolding record_result
    record_result-Completes fence result w now inv time =
        let (same, inv') = calm_clock w inv in
        let (out, e, c, inv'') =
          impl.completes fence (payload_of policy store op result) now (policy.clock w).1
            (payload_of-Holds policy store op capped result) inv' in
        (out, rw (time, e), rw (time, ← same) c, rw time inv'')

  -- The hook, the counter, the clock, the storing rule and the handler leave the row alone: the row is
  -- the claim's until the claim is completed or released.
  pub record IsCalm (run : ℕ → M W E StoredResult) : Type 0 where
    pub clock : Keeps policy.clock
    pub acquired : Keeps (call policy.hooks.on_acquired op)
    pub counter :
        (w : W)
        → Inv w
        → (row (increment policy.hook_errors w) ≡ row w) × Inv (increment policy.hook_errors w)
    pub store_result : (r : StoredResult) → Keeps (policy.store_result r)
    pub handler : (fence : ℕ) → Keeps (run fence)

  module _ (run : ℕ → M W E StoredResult) (calm : IsCalm run) where
    safely-Keeps : Keeps (safely policy (call policy.hooks.on_acquired op))
    unfolding safely
    safely-Keeps w inv = elim (Result-cases (call policy.hooks.on_acquired op w).0) [
      | inl (u, e) ↦ rw e (calm.acquired w inv)
      | inr (x, e) ↦
          let (same, inv') = calm.acquired w inv in
          let (same', inv'') = calm.counter (call policy.hooks.on_acquired op w).1 inv' in
          rw e (same' ∙ same, inv'')
    ]

    module _ (w : W) (start fence : ℕ) (inv : Inv w) (time : (policy.clock w).0 ≡ ok start)
        (acquired : (begin_now policy store op w).0 ≡ ok (BeginOutcome.acquired fence)) where
      -- While the handler runs, and when it has ended, the row is the claim's.
      claimed-row :
          (row (claimed_world policy store op run w) ≡ some (claim op (options policy start) fence))
          × Inv (claimed_world policy store op run w)
      claimed-row =
          let (out, e, b, inv') = begin_now-Begins calm.clock w start inv time in
          let (same, inv'') = safely-Keeps (begin_now policy store op w).1 inv' in
          (same ∙ claimed_row fence b (ok_injective (sym e ∙ acquired)), inv'')

      handled-row :
          (row (handled_world policy store op run w fence)
            ≡ some (claim op (options policy start) fence))
          × Inv (handled_world policy store op run w fence)
      handled-row =
          let (same, inv') =
            calm.handler fence (claimed_world policy store op run w) claimed-row.1 in
          (same ∙ claimed-row.0, inv')

      -- If the handler returns, the policy wants its result and the clock is still before the expiry of the
      -- row, then `execute` reports the result as stored, and the row holds it under the claim's fence: as
      -- it is if its body is within the policy's limit, in the omitted form if not.
      pub execute-stores :
          (result : StoredResult) (finish : ℕ)
          → (run fence (claimed_world policy store op run w)).0 ≡ ok result
          → (policy.store_result result (handled_world policy store op run w fence)).0 ≡ ok true
          → (policy.clock
              (policy.store_result result (handled_world policy store op run w fence)).1).0
            ≡ ok finish
          → finish < start + policy.ttl_ms
          → ((execute policy store op run w).0 ≡ ok (executed result true))
            × (row (execute policy store op run w).1
                ≡ some (
                    finished
                      (claim op (options policy start) fence)
                      (payload_of policy store op result)))
            × Inv (execute policy store op run w).1
      execute-stores result finish returned wanted time_later live =
          let (same, inv') =
            calm.store_result result (handled_world policy store op run w fence) handled-row.1 in
          let (out, e, c, inv'') =
            record_result-Completes calm.clock fence result _ finish inv' time_later in
          let (good, row_done) = finished_claim c (same ∙ handled-row.0) refl refl live in
          rw (execute-acquired policy store op run w fence acquired)
            (unfold run_claimed settle in rw (returned, wanted, e) (rw good refl, row_done, inv''))

      -- If the handler throws, `execute` throws the same error and the row is gone: the key is free again.
      pub execute-releases :
          (error : E)
          → (run fence (claimed_world policy store op run w)).0 ≡ err error
          → ((execute policy store op run w).0 ≡ err error)
            × (row (execute policy store op run w).1 ≡ none)
            × Inv (execute policy store op run w).1
      execute-releases error thrown =
          let (out, e, a, inv') =
            impl.abandons fence (handled_world policy store op run w fence) handled-row.1 in
          rw (execute-acquired policy store op run w fence acquired) (
            unfold run_claimed abandon_quietly in
            rw (thrown, e) (refl, released_claim a handled-row.0 refl refl, inv'))

      -- The whole promise: the handler ran under a claim and its result was stored; then every later
      -- execution of the same operation that finds the row as it was left, before the row expires,
      -- answers with that stored result and does not run its own handler.
      pub execute-once :
          (result : StoredResult) (finish : ℕ)
          → (run fence (claimed_world policy store op run w)).0 ≡ ok result
          → (policy.store_result result (handled_world policy store op run w fence)).0 ≡ ok true
          → (policy.clock
              (policy.store_result result (handled_world policy store op run w fence)).1).0
            ≡ ok finish
          → finish < start + policy.ttl_ms
          → (run' : ℕ → M W E StoredResult) (w' : W) (now : ℕ) → Inv w'
          → row w' ≡ row (execute policy store op run w).1
          → (policy.clock w').0 ≡ ok now
          → now < start + policy.ttl_ms
          → ((execute policy store op run w).0 ≡ ok (executed result true))
            × ((execute policy store op run' w').0
                ≡ ok (
                    replayed (
                      finished
                        (claim op (options policy start) fence)
                        (payload_of policy store op result))))
            × ((run'' : ℕ → M W E StoredResult)
                → execute policy store op run'' w' ≡ execute policy store op run' w')
      execute-once result finish returned wanted time_later live run' w' now inv' same time' live' =
          let (first, here, _) = execute-stores result finish returned wanted time_later live in
          let r =
            finished (claim op (options policy start) fence) (payload_of policy store op result) in
          let (out, e, b, _) = begin_now-Begins calm.clock w' now inv' time' in
          let (other, done, held) =
            Begins-Duplicate op (options policy now) r b (same ∙ here) live' in
          let (second, independent) =
            execute-refusal policy store op run' w' (replayed r) (rw (e, done refl refl)) in
          (first, second, independent)
