-- ===== src/Http/Run/Answers.antt =====
-- What a client is sent for a duplicate.
use anyonce.Prelude.{
  ℕ, ◌<◌, Text, codes, Bytes, Bool, false, Option, none, some, List, [], ◌∷◌, ok, M, ◌≡◌, ◌≢◌, refl,
}
use anyonce.Types.{Operation, IdempotencyRecord, RecordState, StoredResult}
use anyonce.Contract.{Row, KeepsContract, Holds}
use anyonce.Engine.{execute, ExecutePolicy, ExecuteResult}
use anyonce.Engine.Outcomes.{AnswersAlone}
use anyonce.Engine.Once.{execute-duplicate, Keeps}
use anyonce.Http.Replay.{Response, replay_response}
use anyonce.Http.Problems.{ProblemCode, fingerprint_mismatch, Problem, problem, problem_response}
use anyonce.Http.Run.{
  Cell, Requests, Captured, BridgeOptions, IdempotencyInfo, RunContext, retry_after_seconds, fail,
  marked_policy, handler, respond, claim, body_for,
}
use anyonce.Http.Run.Laws.{MakesClaim, bridge, run_idempotent-claim}

module _ {W E R : Type 0} (requests : Requests R) (degraded : Cell W Bool)
    (capture : Cell W (Option (Captured W E))) (note_info : R → IdempotencyInfo → W → W)
    (capture_response : Response → List Text → ℕ → List (Text × Text) → Captured W E)
    (request_fingerprint : R → Bytes → M W E Text) (decimal : ℕ → Text) (json : Problem → Bytes)
    (copies : Response → Bool) (no_capture : E) (options : BridgeOptions W E R)
    (run : R → Option IdempotencyInfo → M W E Response) (req : R) where
  abbrev policy_here : ExecutePolicy W E
  policy_here =
      marked_policy requests degraded capture note_info capture_response request_fingerprint decimal
        json copies no_capture options run req

  abbrev handler_here : Operation → ℕ → M W E StoredResult
  handler_here =
      handler requests degraded capture note_info capture_response request_fingerprint decimal json
        copies no_capture options run req

  abbrev respond_here : ExecuteResult E → M W E Response
  respond_here =
      respond requests degraded capture note_info capture_response request_fingerprint decimal json
        copies no_capture options run req

  abbrev claim_here : Text → Text → Bytes → M W E Response
  claim_here =
      claim requests degraded capture note_info capture_response request_fingerprint decimal json
        copies no_capture options run req

  -- The same with another handler.
  abbrev Runs : Type 0
  Runs = R → Option IdempotencyInfo → M W E Response

  abbrev respond_by : Runs → ExecuteResult E → M W E Response
  respond_by run' =
      respond requests degraded capture note_info capture_response request_fingerprint decimal json
        copies no_capture options run' req

  abbrev claim_by : Runs → Text → Text → Bytes → M W E Response
  claim_by run' =
      claim requests degraded capture note_info capture_response request_fingerprint decimal json
        copies no_capture options run' req

  -- The bridge with another handler.
  abbrev pub bridge_by : Runs → RunContext → M W E Response
  bridge_by run' =
      bridge requests degraded capture note_info capture_response request_fingerprint decimal json
        copies no_capture options run' req

  -- The world when `execute` is called.
  abbrev pub fingerprinted : Bytes → W → W
  fingerprinted body w = capture.set none (degraded.set false (request_fingerprint req body w).1)

  abbrev problem_of : ProblemCode → List (Text × Text) → Response
  problem_of code headers =
      problem_response json
        (problem code options.resolved.problem_base_uri none (options.problem_titles code)) headers

  -- The response is made of what `execute` returns.
  claim-returned :
      (scope key fingerprint : Text) (body : Bytes) (w : W) (out : ExecuteResult E)
      → (request_fingerprint req body w).0 ≡ ok fingerprint
      → let op : Operation = record { scope = scope; key = key; fingerprint = fingerprint } in
        let after =
          execute policy_here options.resolved.store op (handler_here op) (fingerprinted body w) in
        after.0 ≡ ok out → claim_here scope key body w ≡ respond_here out after.1
  unfolding claim
  claim-returned scope key fingerprint body w out hashed came = rw (hashed, came) refl

  -- Which handler the bridge has does not matter to what it makes of a result.
  respond-alone :
      (run' : Runs) (out : ExecuteResult E) (w : W) → respond_by run' out w ≡ respond_here out w
  unfolding respond fail
  respond-alone run' (ExecuteResult.executed result is_stored) w = refl
  respond-alone run' (ExecuteResult.replayed r) w = refl
  respond-alone run' (ExecuteResult.conflict lease_until) w = refl
  respond-alone run' (ExecuteResult.mismatch r) w = refl
  respond-alone run' (ExecuteResult.store_error error) w = refl

  claim-alone :
      (run' : Runs) (scope key fingerprint : Text) (body : Bytes) (w : W) (out : ExecuteResult E)
      → (request_fingerprint req body w).0 ≡ ok fingerprint
      → let op : Operation = record { scope = scope; key = key; fingerprint = fingerprint } in
        AnswersAlone policy_here options.resolved.store op
          (handler_here op)
          (fingerprinted body w)
          out
        → claim_by run' scope key body w ≡ claim_here scope key body w
  unfolding claim marked_policy
  claim-alone run' scope key fingerprint body w out hashed (came, alone) =
      rw (hashed, alone, came) (respond-alone run' out _)

  module _ (unhandled : options.on_error ≡ none) where
    respond-mismatch :
        (r : IdempotencyRecord) (w : W)
        → (respond_here (ExecuteResult.mismatch r) w).0 ≡ ok (problem_of fingerprint_mismatch [])
    unfolding respond fail
    respond-mismatch r w = rw (fail, unhandled) refl

    respond-conflict :
        (lease_until later : ℕ) (w : W)
        → (options.resolved.policy.clock w).0 ≡ ok later
        → (respond_here (ExecuteResult.conflict lease_until) w).0
          ≡ ok (
              problem_of ProblemCode.conflict
                ((codes "retry-after", decimal (retry_after_seconds lease_until later)) ∷ []))
    unfolding respond fail
    respond-conflict lease_until later w time = rw (time, fail, unhandled) refl

  -- The bridge answers `res` without its handler: with any other handler the whole call is the same.
  abbrev pub SendsAlone : RunContext → W → Response → Type 0
  SendsAlone ctx w res =
      ((bridge_by run ctx w).0 ≡ ok res)
      × ((run' : Runs) → bridge_by run' ctx w ≡ bridge_by run ctx w)

  -- The world when the response to a duplicate is made.
  abbrev pub executed_world : Operation → Bytes → W → W
  executed_world op body w =
      (execute policy_here options.resolved.store op (handler_here op) (fingerprinted body w)).1

  sends :
      (ctx : RunContext) (scope key fingerprint : Text) (body : Bytes) (w : W)
      (out : ExecuteResult E) (res : Response)
      → MakesClaim requests degraded capture note_info capture_response request_fingerprint decimal
          json copies no_capture options run req ctx scope key body
      → (request_fingerprint req body w).0 ≡ ok fingerprint
      → let op : Operation = record { scope = scope; key = key; fingerprint = fingerprint } in
        AnswersAlone policy_here options.resolved.store op
          (handler_here op)
          (fingerprinted body w)
          out
        → (respond_here out (executed_world op body w)).0 ≡ ok res
        → SendsAlone ctx w res
  unfolding body_for
  sends ctx scope key fingerprint body w out res makes hashed answers sent =
      let by : (run' : Runs) → bridge_by run' ctx ≡ claim_by run' scope key body = λ run'.
        run_idempotent-claim requests degraded capture note_info capture_response
          request_fingerprint decimal json copies no_capture options run' req ctx scope key body
          makes in
      (
        rw (by run, claim-returned scope key fingerprint body w out hashed answers.0) sent,
        λ run'.
            rw (by run, by run') (claim-alone run' scope key fingerprint body w out hashed answers),
      )

  -- On a live row that is not free, a request that makes a claim is answered without its handler: another payload
  -- gets the problem `fingerprint-mismatch`, a stored result is replayed, and a claim whose lease is live gets the
  -- problem `conflict`, with the seconds to the end of the lease after which to retry, by the clock when `execute`
  -- has returned; and with any other handler the whole call is the same. The store keeps the contract on the row,
  -- the clock leaves the row alone and never throws, and problems are not rendered by a handler of the application.
  pub run_idempotent-duplicate :
      (ctx : RunContext) (scope key fingerprint : Text) (body : Bytes) (w : W) (now : ℕ)
      (r : IdempotencyRecord) (row : W → Row) (Inv : W → Type 0)
      → MakesClaim requests degraded capture note_info capture_response request_fingerprint decimal
          json copies no_capture options run req ctx scope key body
      → let op : Operation = record { scope = scope; key = key; fingerprint = fingerprint } in
        (impl : KeepsContract options.resolved.store op row Inv)
        → (capped : Holds policy_here.max_result_bytes options.resolved.store.max_result_bytes)
        → Keeps policy_here options.resolved.store op row Inv impl capped
            options.resolved.policy.clock
        → ((w' : W) → (later : ℕ) × ((options.resolved.policy.clock w').0 ≡ ok later))
        → options.on_error ≡ none
        → (request_fingerprint req body w).0 ≡ ok fingerprint
        → Inv (fingerprinted body w)
        → (options.resolved.policy.clock (fingerprinted body w)).0 ≡ ok now
        → row (fingerprinted body w) ≡ some r
        → now < r.expires_at
        → (r.fingerprint ≢ fingerprint → SendsAlone ctx w (problem_of fingerprint_mismatch []))
          × (r.fingerprint ≡ fingerprint
              → r.state ≡ RecordState.completed
              → SendsAlone ctx w (replay_response r))
          × (r.fingerprint ≡ fingerprint
              → r.state ≡ RecordState.in_flight
              → now < r.lease_until
              → (later : ℕ) × ((options.resolved.policy.clock (executed_world op body w)).0
                  ≡ ok later)
                × SendsAlone ctx w (
                    problem_of ProblemCode.conflict (
                      (codes "retry-after", decimal (retry_after_seconds r.lease_until later))
                      ∷ [])))
  unfolding marked_policy
  run_idempotent-duplicate ctx scope key fingerprint body w now r row Inv makes impl capped calm
        timed unhandled hashed inv time here live =
      let op : Operation = record { scope = scope; key = key; fingerprint = fingerprint } in
      let (other, done, held) =
        execute-duplicate policy_here options.resolved.store op row Inv impl capped calm
          (handler_here op) (fingerprinted body w) now r inv time here live in
      let send = sends ctx scope key fingerprint body w in
      (
        λ ne. send _ _ makes hashed (other ne) (respond-mismatch unhandled r _),
        λ same state. send _ _ makes hashed (done same state) (unfold respond in refl),
        λ same state lease.
            let (later, at) = timed (executed_world op body w) in
            (
              later,
              at,
              send _ _ makes hashed (held same state lease)
                  (respond-conflict unhandled r.lease_until later (executed_world op body w) at),
            ),
      )
