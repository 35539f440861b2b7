-- ===== src/Engine/Hooks.antt =====
-- An engine with hooks that leave the rest of the world alone, beside the engine without hooks.
use anyonce.Prelude.{
  ℕ, Bool, true, false, none, ◌≡◌, refl, ◌∙◌, M, Result, ok, err, pure, throw, continue, attempt,
  ◌>>=◌, try_then, if◌then◌else◌, Result-cases, inl, inr,
}
use anyonce.Types.{Operation, Payload, StoredResult, IdempotencyRecord, BeginOptions, BeginOutcome}
use anyonce.Contract.{Store}
use anyonce.Engine.{
  OnStoreError, fail_closed, fail_open, ExecutePolicy, ExecuteHooks, executed, call, call_on,
  safely, abandon_quietly, record_result, settle, begin_now, run_claimed, answer, without_store,
  execute, increment,
}
use anyonce.Engine.Outcomes.{safely-ok}

abbrev pub without_hooks : {B E : Type 0} → ExecuteHooks B E
without_hooks = record {
  on_acquired = none;
  on_replayed = none;
  on_conflict = none;
  on_mismatch = none;
  on_store_error = none;
}

-- The policy of the same numbers with no hooks and no counter.
abbrev pub unhooked :
    {W B E : Type 0} → ExecutePolicy W E → M B E ℕ → (StoredResult → M B E Bool) → ExecutePolicy B E
unhooked policy clock store_result = record {
  lease_ms = policy.lease_ms;
  ttl_ms = policy.ttl_ms;
  max_result_bytes = policy.max_result_bytes;
  store_result = store_result;
  on_store_error = policy.on_store_error;
  clock = clock;
  hooks = without_hooks;
  hook_errors = none;
}

-- `view` is the part of the world that the hooks leave alone.
module _ {W B E : Type 0} (view : W → B) where
  -- `m` does to the view what `m'` does to it alone.
  pub record Sim {A : Type 0} (m : M W E A) (m' : M B E A) : Type 0 where
    pub at : (w : W) → ((m w).0 ≡ (m' (view w)).0) × (view (m w).1 ≡ (m' (view w)).1)

  module _ {A : Type 0} where
    Sim-pure : (a : A) → Sim (pure a) (pure a)
    Sim-pure a = record { at = λ w. (refl, refl) }

    Sim-throw : (e : E) → Sim {A = A} (throw e) (throw e)
    Sim-throw e = record { at = λ w. (refl, refl) }

  module _ {A C : Type 0} where
    continue-Sim :
        (r : Result E A) (f : A → M W E C) (f' : A → M B E C)
        → ((a : A) → Sim (f a) (f' a))
        → Sim (continue r f) (continue r f')
    continue-Sim (ok a) f f' s = record { at = λ w. (s a).at w }
    continue-Sim (err e) f f' s = record { at = λ w. (refl, refl) }

    attempt-Sim :
        (r : Result E A) (h : E → M W E C) (h' : E → M B E C) (f : A → M W E C) (f' : A → M B E C)
        → ((e : E) → Sim (h e) (h' e))
        → ((a : A) → Sim (f a) (f' a))
        → Sim (attempt r h f) (attempt r h' f')
    attempt-Sim (ok a) h h' f f' sh sf = record { at = λ w. (sf a).at w }
    attempt-Sim (err e) h h' f f' sh sf = record { at = λ w. (sh e).at w }

    Sim-bind :
        (m : M W E A) (m' : M B E A) (f : A → M W E C) (f' : A → M B E C)
        → Sim m m'
        → ((a : A) → Sim (f a) (f' a))
        → Sim (m >>= f) (m' >>= f')
    Sim-bind m m' f f' sm sf = record {
      at = λ w. rw (← (sm.at w).0, ← (sm.at w).1) ((continue-Sim (m w).0 f f' sf).at (m w).1);
    }

    Sim-try_then :
        (m : M W E A) (m' : M B E A) (h : E → M W E C) (h' : E → M B E C) (f : A → M W E C)
        (f' : A → M B E C)
        → Sim m m'
        → ((e : E) → Sim (h e) (h' e))
        → ((a : A) → Sim (f a) (f' a))
        → Sim (try_then m h f) (try_then m' h' f')
    Sim-try_then m m' h h' f f' sm sh sf = record {
      at =
          λ w. rw (← (sm.at w).0, ← (sm.at w).1) ((attempt-Sim (m w).0 h h' f f' sh sf).at (m w).1);
    }

  abbrev pub IsQuiet : {A : Type 0} → M W E A → Type 0
  IsQuiet m = (w : W) → view (m w).1 ≡ view w

  -- Hooks and the counter that touch nothing of the view.
  pub record IsObserver (policy : ExecutePolicy W E) : Type 0 where
    pub acquired : (op : Operation) → IsQuiet (call policy.hooks.on_acquired op)
    pub replayed :
        (op : Operation) (r : IdempotencyRecord) → IsQuiet (call_on policy.hooks.on_replayed op r)
    pub conflict : (op : Operation) (l : ℕ) → IsQuiet (call_on policy.hooks.on_conflict op l)
    pub mismatch :
        (op : Operation) (r : IdempotencyRecord) → IsQuiet (call_on policy.hooks.on_mismatch op r)
    pub store_error : (op : Operation) (e : E) → IsQuiet (call_on policy.hooks.on_store_error op e)
    pub counter : (w : W) → view (increment policy.hook_errors w) ≡ view w

  pub safely-IsQuiet :
      (policy : ExecutePolicy W E) (hook : M W E (Unit {0}))
      → IsQuiet hook
      → ((w : W) → view (increment policy.hook_errors w) ≡ view w)
      → IsQuiet (safely policy hook)
  unfolding safely
  safely-IsQuiet policy hook quiet counter w = elim (Result-cases (hook w).0) [
    | inl (u, e) ↦ rw e (quiet w)
    | inr (x, e) ↦ rw e (counter (hook w).1 ∙ quiet w)
  ]

  module _ (policy : ExecutePolicy W E) (clock : M B E ℕ) (store_result : StoredResult → M B E Bool)
      (observer : IsObserver policy) where
    Sim-safely :
        (hook : M W E (Unit {0}))
        → IsQuiet hook
        → Sim (safely policy hook) (safely (unhooked policy clock store_result) (pure tt))
    unfolding safely
    Sim-safely hook quiet = record {
      at = λ w. (safely-ok policy hook w, safely-IsQuiet policy hook quiet observer.counter w);
    }

    module _ (sim_clock : Sim policy.clock clock)
        (sim_result : (r : StoredResult) → Sim (policy.store_result r) (store_result r))
        (store : Store W E) (store' : Store B E) (op : Operation)
        (sim_begin : (opts : BeginOptions) → Sim (store.begin op opts) (store'.begin op opts))
        (sim_complete : (fence : ℕ) (p : Payload) (now : ℕ)
          → Sim (store.complete op fence p now) (store'.complete op fence p now))
        (sim_abandon : (fence : ℕ) → Sim (store.abandon op fence) (store'.abandon op fence))
        (run : ℕ → M W E StoredResult) (run' : ℕ → M B E StoredResult)
        (sim_run : (fence : ℕ) → Sim (run fence) (run' fence)) where
      abandon-Sim :
          (fence : ℕ)
          → Sim
              (abandon_quietly policy store op fence)
              (abandon_quietly (unhooked policy clock store_result) store' op fence)
      unfolding abandon_quietly
      abandon-Sim fence =
          Sim-try_then _ _ _ _ _ _ (sim_abandon fence)
            (λ e. Sim-safely _ (observer.store_error op e)) (λ s. Sim-pure tt)

      record_result-Sim :
          (fence : ℕ) (r : StoredResult)
          → Sim
              (record_result policy store op fence r)
              (record_result (unhooked policy clock store_result) store' op fence r)
      unfolding record_result
      record_result-Sim fence r =
          Sim-try_then _ _ _ _ _ _ (Sim-bind _ _ _ _ sim_clock (λ now. sim_complete fence _ now))
            (λ e.
              Sim-bind _ _ _ _ (Sim-safely _ (observer.store_error op e))
                (λ u. Sim-pure (executed r false)))
            (λ s. Sim-pure _)

      if-Sim :
          {A : Type 0} (b : Bool) (m n : M W E A) (m' n' : M B E A)
          → Sim m m'
          → Sim n n'
          → Sim (if b then m else n) (if b then m' else n')
      if-Sim true m n m' n' s t = s
      if-Sim false m n m' n' s t = t

      settle-Sim :
          (fence : ℕ) (r : StoredResult)
          → Sim
              (settle policy store op fence r)
              (settle (unhooked policy clock store_result) store' op fence r)
      unfolding settle
      settle-Sim fence r = Sim-bind _ _ _ _ (sim_result r) λ wanted.
          if-Sim wanted _ _ _ _ (record_result-Sim fence r)
            (Sim-bind _ _ _ _ (abandon-Sim fence) (λ u. Sim-pure (executed r false)))

      run_claimed-Sim :
          (fence : ℕ)
          → Sim
              (run_claimed policy store op run fence)
              (run_claimed (unhooked policy clock store_result) store' op run' fence)
      unfolding run_claimed
      run_claimed-Sim fence =
          Sim-try_then _ _ _ _ _ _ (sim_run fence)
            (λ e. Sim-bind _ _ _ _ (abandon-Sim fence) (λ u. Sim-throw e)) (settle-Sim fence)

      answer-Sim :
          (out : BeginOutcome)
          → Sim
              (answer policy store op run out)
              (answer (unhooked policy clock store_result) store' op run' out)
      unfolding answer
      answer-Sim (BeginOutcome.completed r) =
          Sim-bind _ _ _ _ (Sim-safely _ (observer.replayed op r)) (λ u. Sim-pure _)
      answer-Sim (BeginOutcome.in_flight l) =
          Sim-bind _ _ _ _ (Sim-safely _ (observer.conflict op l)) (λ u. Sim-pure _)
      answer-Sim (BeginOutcome.mismatch r) =
          Sim-bind _ _ _ _ (Sim-safely _ (observer.mismatch op r)) (λ u. Sim-pure _)
      answer-Sim (BeginOutcome.acquired f) =
          Sim-bind _ _ _ _ (Sim-safely _ (observer.acquired op)) (λ u. run_claimed-Sim f)

      without_store-Sim :
          (mode : OnStoreError) (e : E)
          → Sim
              (without_store policy store op run mode e)
              (without_store (unhooked policy clock store_result) store' op run' mode e)
      unfolding without_store
      without_store-Sim fail_closed e =
          Sim-bind _ _ _ _ (Sim-safely _ (observer.store_error op e)) (λ u. Sim-pure _)
      without_store-Sim fail_open e =
          Sim-bind _ _ _ _ (Sim-safely _ (observer.store_error op e))
            λ u. Sim-bind _ _ _ _ (sim_run 0) (λ r. Sim-pure _)

      begin_now-Sim :
          Sim (begin_now policy store op) (begin_now (unhooked policy clock store_result) store' op)
      unfolding begin_now
      begin_now-Sim = Sim-bind _ _ _ _ sim_clock (λ now. sim_begin _)

      -- If the hooks and the error counter leave alone the part of the world that the store, the handler,
      -- the clock and the storing rule act on, the execution returns or throws what the one without any
      -- hook does and leaves that part as that one does, whether hooks throw or not.
      pub execute-unhooked :
          (w : W)
          → ((execute policy store op run w).0
              ≡ (execute (unhooked policy clock store_result) store' op run' (view w)).0)
            × (view (execute policy store op run w).1
                ≡ (execute (unhooked policy clock store_result) store' op run' (view w)).1)
      unfolding execute
      execute-unhooked w =
          (Sim-try_then _ _ _ _ _ _ begin_now-Sim (without_store-Sim policy.on_store_error)
              answer-Sim).at
            w
