-- ===== src/Webhooks/Receiver/Laws.antt =====
-- What passes the gates of the webhook door.
use anyonce.Prelude.{
  ℕ, Text, Bytes, Bool, true, false, Option, none, some, List, [], ◌∷◌, M, ok, err, Result-cases,
  Bool-cases, inl, inr, ◌≡◌, ◌≢◌, ◌⊎◌, sym, ap, refl, ◌∙◌,
}
use anyonce.Http.Replay.{Response}
use anyonce.Http.Request.{BodyRead, read_body}
use anyonce.Http.Options.{ResolvedHttpOptions}
use anyonce.Http.Problems.{
  ProblemCode, configuration_error, signature_invalid, Problem, Detail, verifier_failed,
  unconfigured,
}
use anyonce.Http.Run.{
  Cell, Requests, Captured, IdempotencyInfo, handles, fail, BridgeOptions, RunContext, body_for,
}
use anyonce.Http.Run.Laws.{
  bridge, claims, fails, IsOurs, IsOutside, Refuses, MakesClaim, Goes, outside, run_idempotent-Goes,
}
use anyonce.Webhooks.Receiver.{
  WebhookReceiverOptions, signature_challenge, verifier_failed_message, configuration_message,
  log_once, run_options, context, verification, refuse, deliver, verify_then_deliver,
  is_unconfigured, refuse_unconfigured, receive,
}

body_cases : (b : BodyRead) → (b ≡ BodyRead.payload_too_large) ⊎ ((t : Bytes) × (b ≡ BodyRead.ok t))
body_cases BodyRead.payload_too_large = inl refl
body_cases (BodyRead.ok t) = inr (t, refl)

module _ {W E R : Type 0} (requests : Requests R) (degraded : Cell W Bool)
    (capture : Cell W (Option (Captured W E))) (note_info : R → IdempotencyInfo → W → W)
    (capture_response : Response → List Text → ℕ → List (Text × Text) → Captured W E)
    (request_fingerprint : R → Bytes → M W E Text) (decimal : ℕ → Text) (json : Problem → Bytes)
    (copies : Response → Bool) (no_capture : E)
    (logged_unconfigured logged_verifier_failed : Cell W Bool) (log : Text → W → W)
    (markers : R → W → List Text) (options : WebhookReceiverOptions W E R)
    (resolved : ResolvedHttpOptions W E R) (req : R) where
  -- The door with these parameters.
  abbrev pub door : (R → M W E Response) → M W E Response
  door handler =
      receive requests degraded capture note_info capture_response request_fingerprint decimal json
        copies no_capture logged_unconfigured logged_verifier_failed log markers options resolved
        handler req

  abbrev pub checked : Bytes → M W E Bool
  checked body =
      verification requests degraded capture note_info capture_response request_fingerprint decimal
        json copies no_capture logged_unconfigured logged_verifier_failed log markers options
        resolved req body

  abbrev pub delivered : (R → M W E Response) → Bytes → M W E Response
  delivered handler body =
      deliver requests degraded capture note_info capture_response request_fingerprint decimal json
        copies no_capture logged_unconfigured logged_verifier_failed log markers options resolved
        handler req body

  abbrev pub refused :
      (R → M W E Response) → ProblemCode → Option Detail → List (Text × Text) → M W E Response
  refused handler =
      refuse requests degraded capture note_info capture_response request_fingerprint decimal json
        copies no_capture logged_unconfigured logged_verifier_failed log markers options resolved
        handler req

  abbrev pub then_delivered : (R → M W E Response) → Bytes → M W E Response
  then_delivered handler body =
      verify_then_deliver requests degraded capture note_info capture_response request_fingerprint
        decimal json copies no_capture logged_unconfigured logged_verifier_failed log markers
        options resolved handler req body

  abbrev pub refused_unconfigured : (R → M W E Response) → M W E Response
  refused_unconfigured handler =
      refuse_unconfigured requests degraded capture note_info capture_response request_fingerprint
        decimal json copies no_capture logged_unconfigured logged_verifier_failed log markers
        options resolved handler req

  abbrev pub lacks_verifier : (R → M W E Response) → Bool
  lacks_verifier handler =
      is_unconfigured requests degraded capture note_info capture_response request_fingerprint
        decimal json copies no_capture logged_unconfigured logged_verifier_failed log markers
        options resolved handler req

  -- The world once a message is logged, if it was not before.
  abbrev pub told : Cell W Bool → Text → W → W
  told =
      log_once requests degraded capture note_info capture_response request_fingerprint decimal json
        copies no_capture logged_unconfigured logged_verifier_failed log markers options resolved

  abbrev pub read : BodyRead
  read = read_body (requests.content_length req) (requests.chunks req) resolved.max_request_bytes

  abbrev pub handled : Bool
  handled = handles resolved.methods (requests.method req)

  -- The options of the bridge, and what the bridge is told of a request with this body.
  abbrev pub its_options : BridgeOptions W E R
  its_options =
      run_options requests degraded capture note_info capture_response request_fingerprint decimal
        json copies no_capture logged_unconfigured logged_verifier_failed log markers options
        resolved req

  abbrev pub told_of : Bytes → RunContext
  told_of body =
      context requests degraded capture note_info capture_response request_fingerprint decimal json
        copies no_capture logged_unconfigured logged_verifier_failed log markers options resolved
        req body

  -- The door has a verifier, the method is handled, the body is within the limit and the verifier said yes to it.
  abbrev pub Verifies : (R → M W E Response) → W → Bytes → Type 0
  Verifies handler w body =
      (lacks_verifier handler ≡ false)
      × (handled ≡ true)
      × (read ≡ BodyRead.ok body)
      × ((checked body w).0 ≡ ok true)

  -- The ways that a request goes through the door.
  pub data Receives (handler : R → M W E Response) (w : W) : Type 0 where
    not_configured :
        lacks_verifier handler ≡ true
        → door handler w
          ≡ refused handler configuration_error
              (some unconfigured)
              []
              (told logged_unconfigured configuration_message w)
        → Receives handler w
    not_handled :
        lacks_verifier handler ≡ false
        → handled ≡ false
        → door handler w ≡ handler req w
        → Receives handler w
    too_large :
        lacks_verifier handler ≡ false
        → handled ≡ true
        → read ≡ BodyRead.payload_too_large
        → door handler w ≡ refused handler ProblemCode.payload_too_large none [] w
        → Receives handler w
    broken :
        (body : Bytes) (error : E)
        → lacks_verifier handler ≡ false
        → handled ≡ true
        → read ≡ BodyRead.ok body
        → (checked body w).0 ≡ err error
        → door handler w
          ≡ refused handler configuration_error
              (some verifier_failed)
              []
              (told logged_verifier_failed verifier_failed_message (checked body w).1)
        → Receives handler w
    unsigned :
        (body : Bytes)
        → lacks_verifier handler ≡ false
        → handled ≡ true
        → read ≡ BodyRead.ok body
        → (checked body w).0 ≡ ok false
        → door handler w
          ≡ refused handler signature_invalid none (signature_challenge ∷ []) (checked body w).1
        → Receives handler w
    passed :
        (body : Bytes)
        → Verifies handler w body
        → IsOutside requests degraded capture note_info capture_response request_fingerprint decimal
            json copies no_capture its_options
            (λ r info. handler r)
            req
            (told_of body)
        → door handler w ≡ handler req (checked body w).1
        → Receives handler w
    keyless :
        (body : Bytes) (code : ProblemCode) (detail : Option Detail) (headers : List (Text × Text))
        → Verifies handler w body
        → IsOurs requests degraded capture note_info capture_response request_fingerprint decimal
            json copies no_capture its_options
            (λ r info. handler r)
            req
        → Refuses requests degraded capture note_info capture_response request_fingerprint decimal
            json copies no_capture its_options
            (λ r info. handler r)
            req
            (told_of body)
            code
            detail
            headers
        → door handler w
          ≡ fails requests degraded capture note_info capture_response request_fingerprint decimal
              json copies no_capture its_options
              (λ r info. handler r)
              req
              code
              detail
              headers
              (checked body w).1
        → Receives handler w
    claimed :
        (body : Bytes) (scope key : Text)
        → Verifies handler w body
        → MakesClaim requests degraded capture note_info capture_response request_fingerprint
            decimal json copies no_capture its_options
            (λ r info. handler r)
            req
            (told_of body)
            scope
            key
            body
        → door handler w
          ≡ claims requests degraded capture note_info capture_response request_fingerprint decimal
              json copies no_capture its_options
              (λ r info. handler r)
              req
              scope
              key
              body
              (checked body w).1
        → Receives handler w

  module _ (handler : R → M W E Response) (w : W) where
    door-read :
        (body : Bytes)
        → lacks_verifier handler ≡ false
        → handled ≡ true
        → read ≡ BodyRead.ok body
        → door handler w ≡ then_delivered handler body w
    unfolding receive
    door-read body configured ours same = rw (receive, configured, ours, same) refl

    -- A verified delivery, by the way that it goes through the bridge.
    Receives-of_Goes :
        (body : Bytes)
        → Verifies handler w body
        → door handler w
          ≡ bridge requests degraded capture note_info capture_response request_fingerprint decimal
              json copies no_capture its_options
              (λ r info. handler r)
              req
              (told_of body)
              (checked body w).1
        → Goes requests degraded capture note_info capture_response request_fingerprint decimal json
            copies no_capture its_options
            (λ r info. handler r)
            req
            (told_of body)
        → Receives handler w
    unfolding body_for
    Receives-of_Goes body genuine there (outside why same) =
        passed body genuine why (there ∙ ap (λ m. m (checked body w).1) same)
    Receives-of_Goes body genuine there (Goes.refused code detail headers ours why same) =
        keyless body code detail headers genuine ours why
          (there ∙ ap (λ m. m (checked body w).1) same)
    Receives-of_Goes body genuine there (Goes.claimed scope key body' makes same) =
        let (handled', wanted, found, ok_scope, taken) = makes in
        let given : body' ≡ body = cc taken in
        claimed body scope key genuine (handled', wanted, found, ok_scope, refl)
          (there ∙ ap (λ m. m (checked body w).1) (rw given at same))

    Receives-of_body :
        (body : Bytes)
        → lacks_verifier handler ≡ false
        → handled ≡ true
        → read ≡ BodyRead.ok body
        → Receives handler w
    Receives-of_body body configured ours same =
        let there = door-read body configured ours same in
        elim (Result-cases (checked body w).0) [
          | inr (error, failed) ↦
              broken body error configured ours same failed
                (there ∙ unfold verify_then_deliver in rw failed refl)
          | inl (true, yes') ↦
              Receives-of_Goes body (configured, ours, same, yes')
                (there ∙ unfold verify_then_deliver deliver in rw yes' refl)
                (run_idempotent-Goes requests degraded capture note_info capture_response
                  request_fingerprint decimal json copies no_capture its_options
                  (λ r info. handler r) req (told_of body))
          | inl (false, no') ↦
              unsigned body configured ours same no'
                (there ∙ unfold verify_then_deliver in rw no' refl)
        ]

    -- The first of these that holds says what becomes of a request: the door has no verifier and answers with the
    -- problem `configuration-error`, its method is not handled and its handler alone answers, its body is too large,
    -- the verifier fails, or the verifier says no to the body, each with its problem. Otherwise the verifier said
    -- yes: the request then passes to its handler if the bridge has nothing to do with it, is refused for the first
    -- reason that the bridge has, or claims the key that was resolved, with the body that was verified.
    pub receive-Receives : Receives handler w
    receive-Receives = elim (Bool-cases (lacks_verifier handler)) [
      | inl lacking ↦ not_configured lacking (unfold receive refuse_unconfigured in rw lacking refl)
      | inr configured ↦ elim (Bool-cases handled) [
        | inr theirs ↦
            not_handled configured theirs (unfold receive in rw (receive, configured, theirs) refl)
        | inl ours ↦ elim (body_cases read) [
          | inl large ↦
              too_large configured ours large
                (unfold receive in rw (receive, configured, ours, large) refl)
          | inr (body, same) ↦ Receives-of_body body configured ours same
        ]
      ]
    ]

  unverified-same :
      (handler handler' : R → M W E Response) (w : W) (body : Bytes)
      → (checked body w).0 ≢ ok true
      → then_delivered handler body w ≡ then_delivered handler' body w
  unfolding verify_then_deliver fail
  unverified-same handler handler' w body unverified = elim (Result-cases (checked body w).0) [
    | inr (error, failed) ↦ rw (verify_then_deliver, failed) refl
    | inl (true, yes') ↦ absurd (unverified yes')
    | inl (false, no') ↦ rw (verify_then_deliver, no') refl
  ]

  -- Without a verified body, nothing that a door does with a request of a handled method depends on its handler.
  pub receive-unverified :
      (handler handler' : R → M W E Response) (w : W)
      → handled ≡ true
      → ((body : Bytes) → read ≡ BodyRead.ok body → (checked body w).0 ≢ ok true)
      → door handler w ≡ door handler' w
  receive-unverified handler handler' w ours unverified =
      elim (Bool-cases (lacks_verifier handler)) [
        | inl lacking ↦ unfold receive refuse_unconfigured fail in rw (receive, lacking) refl
        | inr configured ↦ elim (body_cases read) [
          | inl large ↦ unfold receive fail in rw (receive, configured, ours, large) refl
          | inr (body, same) ↦
              door-read handler w body configured ours same
              ∙ unverified-same handler handler' w body (unverified body same)
              ∙ sym (door-read handler' w body configured ours same)
        ]
      ]
