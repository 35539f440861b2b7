-- ===== src/Http/Run.antt =====
-- packages/core/src/http/run.ts: the bridge `runIdempotent` from a request to the engine and back. A request is of
-- any type `R`, read through `Requests`; variables that the callbacks share are cells of the world. What
-- `captureResponse` gives for a response is a parameter here, since Http/Capture is about it, and so are the
-- fingerprint of a request, `String` of a number and `JSON.stringify` of a problem. A streamed response is handed
-- to the client before its record is settled; the world after a call is the one once both are done.
pub mod Laws
pub mod Answers
pub mod Tests
use anyonce.Prelude.{
  ℕ, ◌+◌, ◌-◌, ◌/◌, max, Text, codes, text_eq, Bytes, Bool, true, false, not, ◌||◌, Option, none,
  some, List, [], ◌∷◌, ◌++◌, ltb, or_else, if◌then◌else◌, M, Result, ok, err, pure, throw, ◌>>=◌,
  ◌>>◌, try_then,
}
use anyonce.Types.{Operation, StoredResult}
use anyonce.Contract.{Store}
use anyonce.Engine.{
  ExecutePolicy, ExecuteHooks, ExecuteResult, executed, replayed, store_error, execute, call_on,
}
use anyonce.Http.Options.{ResolvedHttpOptions}
use anyonce.Http.Replay.{Response, allows, replay_response, set_header}
use anyonce.Http.Request.{
  KeyLookup, lookup_key, ScopeResult, ScopeOptions, resolve_scope, BodyRead, read_body,
}
use anyonce.Http.Problems.{
  Detail, key_reason, ProblemCode, missing_key, invalid_key, fingerprint_mismatch,
  store_unavailable, Problem, problem, problem_response, set_headers,
}

-- A variable in the world.
pub record Cell (W A : Type 0) : Type 0 where
  pub get : W → A
  pub set : A → W → W

pub record IdempotencyInfo : Type 0 where
  pub key : Text
  pub fence : ℕ

-- What the bridge reads off a request.
pub record Requests (R : Type 0) : Type 0 where
  pub method : R → Text
  pub pathname : R → Text
  pub header : R → Text → Option Text
  pub content_length : R → Option ℕ
  pub chunks : R → List Bytes

-- `Capture`
pub record Captured (W E : Type 0) : Type 0 where
  pub response : Response
  pub stored : M W E StoredResult
  pub close : W → W
  pub fail : E → W → W

pub record RunContext : Type 0 where
  pub route_scope : Option Text
  pub key_lookup : Option KeyLookup
  pub body : Option Bytes

-- The resolved options that the bridge reads, with those that are passed on unread.
pub record BridgeOptions (W E R : Type 0) : Type 0 where
  pub resolved : ResolvedHttpOptions W E R
  pub skip : Option (R → Bool)
  pub on_error : Option (Problem → R → M W E Response)
  pub problem_titles : ProblemCode → Option Text

-- `retryAfterSeconds`, as a number
unfoldable pub retry_after_seconds : ℕ → ℕ → ℕ
retry_after_seconds lease_until now = max 1 ((lease_until - now + 999) / 1000)

-- `res.headers.has(name)`
abbrev pub has_header : List (Text × Text) → Text → Bool
has_header [] name = false
has_header (h ∷ headers) name = text_eq h.0 name || has_header headers name

unfoldable pub missing_headers : List (Text × Text) → List (Text × Text) → List (Text × Text)
missing_headers present [] = []
missing_headers present (h ∷ headers) =
    let rest = missing_headers present headers in if has_header present h.0 then rest else h ∷ rest

-- `withProtocolHeaders`; a response that is used, or that the platform does not copy, is left as it is.
unfoldable pub with_protocol_headers : (Response → Bool) → Response → List (Text × Text) → Response
unfolding missing_headers
with_protocol_headers copies res headers = elim (missing_headers res.headers headers) [
  | [] ↦ res
  | h ∷ missing ↦
      if copies res then record res { headers = set_headers res.headers (h ∷ missing) } else res
]

-- `options.methods.has(req.method)`
abbrev pub handles : List Text → Text → Bool
handles methods method = allows methods method

abbrev pub skips : {R : Type 0} → Option (R → Bool) → R → Bool
skips none req = false
skips (some skip) req = skip req

module _ {W E : Type 0} where
  abbrev pub modify : (W → W) → M W E (Unit {0})
  modify f w = (ok tt, f w)

  abbrev pub read_cell : {A : Type 0} → Cell W A → M W E A
  read_cell cell w = (ok (cell.get w), w)

module _ {W E R : Type 0} where
  module _ (requests : Requests R) (degraded : Cell W Bool)
      (capture : Cell W (Option (Captured W E))) (note_info : R → IdempotencyInfo → W → W)
      (capture_response : Response → List Text → ℕ → List (Text × Text) → Captured W E)
      (request_fingerprint : R → Bytes → M W E Text) (decimal : ℕ → Text) (json : Problem → Bytes)
      (copies : Response → Bool) (no_capture : E) (options : BridgeOptions W E R)
      (run : R → Option IdempotencyInfo → M W E Response) (req : R) where
    abbrev pub problem_for : ProblemCode → Option Detail → Problem
    problem_for code detail =
        problem code options.resolved.problem_base_uri detail (options.problem_titles code)

    unfoldable pub fail : ProblemCode → Option Detail → List (Text × Text) → M W E Response
    fail code detail headers = elim options.on_error [
      | none ↦ pure (problem_response json (problem_for code detail) headers)
      | some on_error ↦ do
        res ← on_error (problem_for code detail) req
        pure (
            with_protocol_headers copies res
              (headers ++ (codes "cache-control", codes "no-store") ∷ []))
    ]

    -- The policy whose `onStoreError` also marks the call as degraded.
    unfoldable pub marked_policy : ExecutePolicy W E
    marked_policy =
        let user_hooks = options.resolved.policy.hooks in
        record options.resolved.policy {
          hooks = record user_hooks {
            on_store_error = some (λ op error. do
              modify (degraded.set true)
              call_on user_hooks.on_store_error op error);
          };
        }

    abbrev pub degraded_headers : Bool → List (Text × Text)
    degraded_headers true = (codes "idempotency-degraded", codes "true") ∷ []
    degraded_headers false = []

    -- What `execute` runs under the claim.
    unfoldable pub handler : Operation → ℕ → M W E StoredResult
    handler op fence = do
      let info : IdempotencyInfo = record { key = op.key; fence = fence }
      modify (note_info req info)
      res ← run req (some info)
      is_degraded ← read_cell degraded
      let captured : Captured W E =
          capture_response res options.resolved.store_headers
            options.resolved.policy.max_result_bytes (degraded_headers is_degraded)
      modify (capture.set (some captured))
      captured.stored

    -- The response once `execute` has returned.
    unfoldable pub respond : ExecuteResult E → M W E Response
    unfolding fail
    respond (executed result is_stored) = do
      captured ← read_cell capture
      elim captured [ none ↦ throw no_capture | some c ↦ do modify c.close; pure c.response ]
    respond (replayed record') = pure (replay_response record')
    respond (ExecuteResult.conflict lease_until) = do
      now ← options.resolved.policy.clock
      fail ProblemCode.conflict none
          ((codes "retry-after", decimal (retry_after_seconds lease_until now)) ∷ [])
    respond (ExecuteResult.mismatch record') = fail fingerprint_mismatch none []
    respond (store_error error) =
        fail store_unavailable none ((codes "retry-after", codes "1") ∷ [])

    -- The response when `execute` has thrown.
    unfoldable pub respond_thrown : E → M W E Response
    respond_thrown error = do
      captured ← read_cell capture
      elim captured [ none ↦ throw error | some c ↦ do modify (c.fail error); pure c.response ]

    -- From the fingerprint on.
    unfoldable pub claim : Text → Text → Bytes → M W E Response
    unfolding marked_policy handler respond respond_thrown
    claim scope key body = do
      fingerprint ← request_fingerprint req body
      let op : Operation = record { scope = scope; key = key; fingerprint = fingerprint }
      modify (λ w. capture.set none (degraded.set false w))
      try_then (execute marked_policy options.resolved.store op (handler op)) respond_thrown respond

    abbrev pub scope_options : ScopeOptions R
    scope_options = record {
      scope = options.resolved.scope;
      principal = options.resolved.principal;
      require_principal = options.resolved.require_principal;
    }

    -- The body that the caller read, or that is read here.
    unfoldable pub body_for : Option Bytes → BodyRead
    unfolding read_body
    body_for (some body) = BodyRead.ok body
    body_for none =
        read_body (requests.content_length req) (requests.chunks req)
          options.resolved.max_request_bytes

    -- With a valid key: the scope, then the body.
    unfoldable pub with_key : Text → RunContext → M W E Response
    unfolding resolve_scope body_for fail claim
    with_key key ctx =
        elim (resolve_scope requests.method requests.pathname req scope_options ctx.route_scope) [
          | ScopeResult.missing_principal ↦ fail ProblemCode.missing_principal none []
          | ScopeResult.ok scope ↦ elim (body_for ctx.body) [
            | BodyRead.payload_too_large ↦ fail ProblemCode.payload_too_large none []
            | BodyRead.ok body ↦ claim scope key body
          ]
        ]

    abbrev pub docs_link : Text
    docs_link = codes "<" ++ options.resolved.docs_url ++ codes ">; rel=\"describedby\""

    -- What follows from the lookup of the key.
    unfoldable pub with_lookup : KeyLookup → RunContext → M W E Response
    unfolding with_key
    with_lookup KeyLookup.missing ctx =
        if not options.resolved.required
        then run req none
        else fail missing_key none ((codes "link", docs_link) ∷ [])
    with_lookup (KeyLookup.invalid reason) ctx = fail invalid_key (some (key_reason reason)) []
    with_lookup (KeyLookup.found key) ctx = with_key key ctx

    abbrev pub lookup_for : Option KeyLookup → KeyLookup
    lookup_for (some lookup) = lookup
    lookup_for none =
        lookup_key (requests.header req options.resolved.header_name) options.resolved.key_syntax

    unfoldable pub run_idempotent : RunContext → M W E Response
    unfolding with_lookup
    run_idempotent ctx =
        if not (handles options.resolved.methods (requests.method req))
        then run req none
        else if skips options.skip req
        then run req none
        else with_lookup (lookup_for ctx.key_lookup) ctx
