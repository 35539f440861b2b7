-- ===== src/Engine/Outcomes.antt =====
-- What `execute` answers on each path, whatever the hooks do.
use anyonce.Prelude.{
  ℕ, Bool, true, false, Option, none, some, ◌≡◌, refl, M, Result, ok, err, Result-cases, inl, inr,
  ◌>>=◌, attempt, ◌&&◌, arith,
}
use anyonce.Types.{Operation, StoredResult, BeginOutcome, CompleteStatus}
use anyonce.Contract.{Store}
use anyonce.Engine.{
  OnStoreError, fail_closed, fail_open, ExecutePolicy, ExecuteResult, executed, replayed, conflict,
  mismatch, store_error, is_ok, call, safely, abandon_quietly, payload_of, record_result, settle,
  begin_now, run_claimed, answer, without_store, execute,
}

abbrev pub is_recorded : {E : Type 0} → Result E CompleteStatus → Bool
is_recorded (ok status) = is_ok status
is_recorded (err error) = false

module _ {W E : Type 0} (policy : ExecutePolicy W E) where
  -- A hook can never make the engine throw.
  pub safely-ok : (hook : M W E (Unit {0})) (w : W) → (safely policy hook w).0 ≡ ok tt
  unfolding safely
  safely-ok hook w = ground arith

  module _ (store : Store W E) (op : Operation) where
    pub abandon_quietly-ok :
        (fence : ℕ) (w : W) → (abandon_quietly policy store op fence w).0 ≡ ok tt
    unfolding abandon_quietly
    abandon_quietly-ok fence w = elim (Result-cases (store.abandon op fence w).0) [
      | inl (status, e) ↦ rw e
      | inr (error, e) ↦ rw e (safely-ok _ _)
    ]

    -- The answer that needs no handler, if there is one.
    abbrev pub refusal : OnStoreError → Result E BeginOutcome → Option (ExecuteResult E)
    refusal mode (ok (BeginOutcome.completed r)) = some (replayed r)
    refusal mode (ok (BeginOutcome.in_flight lease_until)) = some (conflict lease_until)
    refusal mode (ok (BeginOutcome.mismatch r)) = some (mismatch r)
    refusal mode (ok (BeginOutcome.acquired fence)) = none
    refusal fail_closed (err error) = some (store_error error)
    refusal fail_open (err error) = none

    -- The call of `complete` at the time of the clock.
    abbrev pub complete_now : ℕ → StoredResult → M W E CompleteStatus
    complete_now fence result = do
      now ← policy.clock
      store.complete op fence (payload_of policy store op result) now

    -- `execute` behind the answer of `begin`.
    abbrev after_begin :
        (ℕ → M W E StoredResult) → OnStoreError → Result E BeginOutcome → M W E (ExecuteResult E)
    after_begin run mode began =
        attempt began (without_store policy store op run mode) (answer policy store op run)

    after_begin-refusal :
        (run : ℕ → M W E StoredResult) (mode : OnStoreError) (began : Result E BeginOutcome) (w : W)
        (out : ExecuteResult E)
        → refusal mode began ≡ some out
        → ((after_begin run mode began w).0 ≡ ok out)
          × ((run' : ℕ → M W E StoredResult)
              → after_begin run' mode began w ≡ after_begin run mode began w)
    unfolding answer without_store
    after_begin-refusal run mode (ok (BeginOutcome.completed r)) w out h =
        (rw safely-ok (cc), λ run'. refl)
    after_begin-refusal run mode (ok (BeginOutcome.in_flight l)) w out h =
        (rw safely-ok (cc), λ run'. refl)
    after_begin-refusal run mode (ok (BeginOutcome.mismatch r)) w out h =
        (rw safely-ok (cc), λ run'. refl)
    after_begin-refusal run mode (ok (BeginOutcome.acquired f)) w out h = cc
    after_begin-refusal run fail_closed (err e) w out h = (rw safely-ok (cc), λ run'. refl)
    after_begin-refusal run fail_open (err e) w out h = cc

    -- What a handler that returns leads to: its result, and whether it has been stored.
    pub record_result_lem :
        (fence : ℕ) (result : StoredResult) (w : W)
        → (record_result policy store op fence result w).0
          ≡ ok (executed result (is_recorded (complete_now fence result w).0))
    unfolding record_result
    record_result_lem fence result w = elim (Result-cases (complete_now fence result w).0) [
      | inl (status, e) ↦ rw e
      | inr (error, e) ↦ rw e (rw safely-ok)
    ]

    -- `execute` returns `out` without its handler: with any other handler the whole execution is the same.
    abbrev pub AnswersAlone : (ℕ → M W E StoredResult) → W → ExecuteResult E → Type 0
    AnswersAlone run w out =
        ((execute policy store op run w).0 ≡ ok out)
        × ((run' : ℕ → M W E StoredResult)
            → execute policy store op run' w ≡ execute policy store op run w)

    module _ (run : ℕ → M W E StoredResult) (w : W) where
      -- A completed, an in-flight and a mismatched claim, and under fail-closed a store that throws, are
      -- answered without the handler: the answer is fixed, and with any other handler the whole
      -- execution is the same.
      pub execute-refusal :
          (out : ExecuteResult E)
          → refusal policy.on_store_error (begin_now policy store op w).0 ≡ some out
          → ((execute policy store op run w).0 ≡ ok out)
            × ((run' : ℕ → M W E StoredResult)
                → execute policy store op run' w ≡ execute policy store op run w)
      unfolding execute
      execute-refusal out h = after_begin-refusal run policy.on_store_error _ _ out h

      -- The world when the handler starts under a claim, and when it has ended.
      abbrev pub claimed_world : W
      claimed_world =
          (safely policy (call policy.hooks.on_acquired op) (begin_now policy store op w).1).1

      abbrev pub handled_world : ℕ → W
      handled_world fence = (run fence claimed_world).1

      module _ (fence : ℕ)
          (acquired : (begin_now policy store op w).0 ≡ ok (BeginOutcome.acquired fence)) where
        pub execute-acquired :
            execute policy store op run w ≡ run_claimed policy store op run fence claimed_world
        unfolding execute answer
        execute-acquired = rw acquired (rw safely-ok)

        -- Under a claim, what the handler throws is what `execute` throws, whatever the release of the
        -- claim does.
        pub execute-thrown :
            (error : E)
            → (run fence claimed_world).0 ≡ err error
            → (execute policy store op run w).0 ≡ err error
        execute-thrown error h =
            rw execute-acquired (unfold run_claimed in rw h (rw abandon_quietly-ok))

        -- Under a claim, a handler's result is what `execute` returns, whatever the store does with it;
        -- and it is reported as stored exactly when the policy wanted it and `complete` answered `ok`.
        pub execute-returned :
            (result : StoredResult) (wanted : Bool)
            → (run fence claimed_world).0 ≡ ok result
            → (policy.store_result result (handled_world fence)).0 ≡ ok wanted
            → (execute policy store op run w).0
              ≡ ok (
                  executed result (
                    wanted
                    && is_recorded
                        (complete_now fence result
                          (policy.store_result result (handled_world fence)).1).0))
        execute-returned result true h k =
            rw execute-acquired
              (unfold run_claimed settle in rw (h, k) (record_result_lem fence result _))
        execute-returned result false h k =
            rw execute-acquired (unfold run_claimed settle in rw (h, k) (rw abandon_quietly-ok))
