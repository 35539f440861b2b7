-- ===== src/Http/Run/Laws.antt =====
-- What the bridge guarantees: which requests reach the engine, and how its answers come back.
use anyonce.Prelude.{
  ℕ, ◌+◌, ◌*◌, ◌≤◌, ◌<◌, Text, codes, Bytes, Bool, true, false, Option, none, some, List, [], ◌∷◌,
  M, ◌≡◌, refl, ◌∙◌, arith, Bool-cases, inl, inr, ◌⊎◌,
}
use anyonce.Key.{KeyReason}
use anyonce.Http.Replay.{Response}
use anyonce.Http.Request.{KeyLookup, ScopeResult, resolve_scope, BodyRead}
use anyonce.Http.Problems.{Detail, key_reason, ProblemCode, Problem}
use anyonce.Http.Run.{
  Cell, Requests, Captured, BridgeOptions, IdempotencyInfo, RunContext, retry_after_seconds,
  handles, skips, fail, claim, scope_options, body_for, with_key, with_lookup, lookup_for,
  run_idempotent, docs_link,
}

-- The seconds of `Retry-After`: at least one, enough for the lease to end, and no more than a second longer.
pub retry_after_lem :
    (lease_until now : ℕ)
    → (1 ≤ retry_after_seconds lease_until now)
      × (lease_until ≤ now + 1000 * retry_after_seconds lease_until now)
      × (1 < retry_after_seconds lease_until now
          → now + 1000 * retry_after_seconds lease_until now < lease_until + 1000)
unfolding retry_after_seconds
retry_after_lem lease_until now = omega arith

module _ {W E R : Type 0} (requests : Requests R) (degraded : Cell W Bool)
    (capture : Cell W (Option (Captured W E))) (note_info : R → IdempotencyInfo → W → W)
    (capture_response : Response → List Text → ℕ → List (Text × Text) → Captured W E)
    (request_fingerprint : R → Bytes → M W E Text) (decimal : ℕ → Text) (json : Problem → Bytes)
    (copies : Response → Bool) (no_capture : E) (options : BridgeOptions W E R)
    (run : R → Option IdempotencyInfo → M W E Response) (req : R) where
  -- The bridge with these parameters.
  abbrev pub bridge : RunContext → M W E Response
  bridge =
      run_idempotent requests degraded capture note_info capture_response request_fingerprint
        decimal json copies no_capture options run req

  abbrev pub claims : Text → Text → Bytes → M W E Response
  claims =
      claim requests degraded capture note_info capture_response request_fingerprint decimal json
        copies no_capture options run req

  abbrev pub fails : ProblemCode → Option Detail → List (Text × Text) → M W E Response
  fails =
      fail requests degraded capture note_info capture_response request_fingerprint decimal json
        copies no_capture options run req

  abbrev pub looked_up : RunContext → KeyLookup
  looked_up ctx =
      lookup_for requests degraded capture note_info capture_response request_fingerprint decimal
        json copies no_capture options run req ctx.key_lookup

  abbrev pub scoped : RunContext → ScopeResult
  scoped ctx =
      resolve_scope requests.method requests.pathname req
        (scope_options requests degraded capture note_info capture_response request_fingerprint
          decimal json copies no_capture options run req)
        ctx.route_scope

  abbrev pub body_read : RunContext → BodyRead
  body_read ctx =
      body_for requests degraded capture note_info capture_response request_fingerprint decimal json
        copies no_capture options run req ctx.body

  -- The method is handled and the request is not skipped.
  abbrev pub IsOurs : Type 0
  IsOurs =
      (handles options.resolved.methods (requests.method req) ≡ true)
      × (skips options.skip req ≡ false)

  -- The request is none of the layer's business.
  abbrev pub IsOutside : RunContext → Type 0
  IsOutside ctx =
      (handles options.resolved.methods (requests.method req) ≡ false)
      ⊎ (skips options.skip req ≡ true)
      ⊎ ((looked_up ctx ≡ KeyLookup.missing) × (options.resolved.required ≡ false))

  abbrev pub link : Text
  link =
      docs_link requests degraded capture note_info capture_response request_fingerprint decimal
        json copies no_capture options run req

  -- Why a request of the layer is refused before a claim, and with what: the first reason there is.
  pub data Refuses (ctx : RunContext) (code : ProblemCode) (detail : Option Detail)
      (headers : List (Text × Text)) : Type 0 where
    no_key :
        looked_up ctx ≡ KeyLookup.missing
        → options.resolved.required ≡ true
        → code ≡ ProblemCode.missing_key
        → detail ≡ none
        → headers ≡ (codes "link", link) ∷ []
        → Refuses ctx code detail headers
    bad_key :
        (reason : KeyReason)
        → looked_up ctx ≡ KeyLookup.invalid reason
        → code ≡ ProblemCode.invalid_key
        → detail ≡ some (key_reason reason)
        → headers ≡ []
        → Refuses ctx code detail headers
    no_principal :
        (key : Text)
        → looked_up ctx ≡ KeyLookup.found key
        → scoped ctx ≡ ScopeResult.missing_principal
        → code ≡ ProblemCode.missing_principal
        → detail ≡ none
        → headers ≡ []
        → Refuses ctx code detail headers
    too_large :
        (key scope : Text)
        → looked_up ctx ≡ KeyLookup.found key
        → scoped ctx ≡ ScopeResult.ok scope
        → body_read ctx ≡ BodyRead.payload_too_large
        → code ≡ ProblemCode.payload_too_large
        → detail ≡ none
        → headers ≡ []
        → Refuses ctx code detail headers

  -- The claim that a request makes.
  abbrev pub MakesClaim : RunContext → Text → Text → Bytes → Type 0
  MakesClaim ctx scope key body =
      (handles options.resolved.methods (requests.method req) ≡ true)
      × (skips options.skip req ≡ false)
      × (looked_up ctx ≡ KeyLookup.found key)
      × (scoped ctx ≡ ScopeResult.ok scope)
      × (body_read ctx ≡ BodyRead.ok body)

  pub run_idempotent-claim :
      (ctx : RunContext) (scope key : Text) (body : Bytes)
      → MakesClaim ctx scope key body
      → bridge ctx ≡ claims scope key body
  unfolding run_idempotent with_lookup with_key
  run_idempotent-claim ctx scope key body (handled, wanted, found, ok_scope, ok_body) =
      rw (handled, wanted, found, with_lookup, with_key, ok_scope, ok_body) refl

  -- The three ways that a request goes: past the layer, to a problem without a claim, or to a claim.
  pub data Goes (ctx : RunContext) : Type 0 where
    outside : IsOutside ctx → bridge ctx ≡ run req none → Goes ctx
    refused :
        (code : ProblemCode) (detail : Option Detail) (headers : List (Text × Text))
        → IsOurs
        → Refuses ctx code detail headers
        → bridge ctx ≡ fails code detail headers
        → Goes ctx
    claimed :
        (scope key : Text) (body : Bytes)
        → MakesClaim ctx scope key body
        → bridge ctx ≡ claims scope key body
        → Goes ctx

  abbrev after_lookup : KeyLookup → RunContext → M W E Response
  after_lookup =
      with_lookup requests degraded capture note_info capture_response request_fingerprint decimal
        json copies no_capture options run req

  bridge-lookup :
      (ctx : RunContext) (lookup : KeyLookup)
      → handles options.resolved.methods (requests.method req) ≡ true
      → skips options.skip req ≡ false
      → looked_up ctx ≡ lookup
      → bridge ctx ≡ after_lookup lookup ctx
  unfolding run_idempotent
  bridge-lookup ctx lookup handled wanted same = rw (handled, wanted, same) refl

  scope_cases :
      (s : ScopeResult)
      → (s ≡ ScopeResult.missing_principal) ⊎ ((t : Text) × (s ≡ ScopeResult.ok t))
  scope_cases ScopeResult.missing_principal = inl refl
  scope_cases (ScopeResult.ok t) = inr (t, refl)

  body_cases :
      (b : BodyRead) → (b ≡ BodyRead.payload_too_large) ⊎ ((t : Bytes) × (b ≡ BodyRead.ok t))
  body_cases BodyRead.payload_too_large = inl refl
  body_cases (BodyRead.ok t) = inr (t, refl)

  Goes-of_key :
      (ctx : RunContext) (key : Text)
      → handles options.resolved.methods (requests.method req) ≡ true
      → skips options.skip req ≡ false
      → looked_up ctx ≡ KeyLookup.found key
      → Goes ctx
  Goes-of_key ctx key handled wanted found =
      let there = bridge-lookup ctx (KeyLookup.found key) handled wanted found in
      elim (scope_cases (scoped ctx)) [
        | inl nobody ↦
            refused ProblemCode.missing_principal none [] (handled, wanted)
              (no_principal key found nobody refl refl refl)
              (there ∙ unfold with_lookup with_key in rw (with_lookup, with_key, nobody) refl)
        | inr (scope, ok_scope) ↦ elim (body_cases (body_read ctx)) [
          | inl large ↦
              refused ProblemCode.payload_too_large none [] (handled, wanted)
                (too_large key scope found ok_scope large refl refl refl)
                (there
                  ∙ unfold with_lookup with_key in rw (with_lookup, with_key, ok_scope, large) refl)
          | inr (body, ok_body) ↦
              let makes : MakesClaim ctx scope key body =
                (handled, wanted, found, ok_scope, ok_body) in
              claimed scope key body makes (run_idempotent-claim ctx scope key body makes)
        ]
      ]

  Goes-of_lookup :
      (ctx : RunContext) (lookup : KeyLookup)
      → handles options.resolved.methods (requests.method req) ≡ true
      → skips options.skip req ≡ false
      → looked_up ctx ≡ lookup
      → Goes ctx
  Goes-of_lookup ctx (KeyLookup.found key) handled wanted found =
      Goes-of_key ctx key handled wanted found
  Goes-of_lookup ctx (KeyLookup.invalid reason) handled wanted found =
      refused ProblemCode.invalid_key (some (key_reason reason)) [] (handled, wanted)
        (bad_key reason found refl refl refl)
        (bridge-lookup ctx (KeyLookup.invalid reason) handled wanted found
          ∙ unfold with_lookup in refl)
  Goes-of_lookup ctx KeyLookup.missing handled wanted found =
      let there = bridge-lookup ctx KeyLookup.missing handled wanted found in
      elim (Bool-cases options.resolved.required) [
        | inl required ↦
            refused ProblemCode.missing_key none ((codes "link", link) ∷ []) (handled, wanted)
              (no_key found required refl refl refl)
              (there ∙ unfold with_lookup in rw required refl)
        | inr free ↦ outside (inr (inr (found, free))) (there ∙ unfold with_lookup in rw free refl)
      ]

  -- A request goes past the layer only if its method is not handled, it is skipped, or it has no key and needs
  -- none. It is answered by a problem without a claim only if its method is handled, it is not skipped, and it has no
  -- key though it needs one, an invalid key, a valid key without the principal that it needs, or a valid key and a
  -- scope but too large a body; code, detail and headers are those of the reason. Any other request claims the key
  -- that was looked up, in the resolved scope, with the body read.
  pub run_idempotent-Goes : (ctx : RunContext) → Goes ctx
  run_idempotent-Goes ctx =
      elim (Bool-cases (handles options.resolved.methods (requests.method req))) [
        | inr other ↦ outside (inl other) (unfold run_idempotent in rw other refl)
        | inl handled ↦ elim (Bool-cases (skips options.skip req)) [
          | inl skipped ↦
              outside (inr (inl skipped)) (unfold run_idempotent in rw (handled, skipped) refl)
          | inr wanted ↦ Goes-of_lookup ctx (looked_up ctx) handled wanted refl
        ]
      ]
