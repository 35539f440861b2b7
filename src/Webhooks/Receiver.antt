-- ===== src/Webhooks/Receiver.antt =====
-- packages/webhooks/src/receiver.ts: the gates of the webhook door and what it hands to the bridge. Requests, cells
-- and the parameters of the bridge are those of Http/Run; `log` is the logger, `markers` what `markVerified` has set
-- on a request, `sha256_hex` the hash of a body.
pub mod Laws
use anyonce.Prelude.{
  ℕ, Text, codes, Bytes, Bool, true, false, not, ◌&&◌, Option, none, some, List, [], ◌∷◌, ◌++◌,
  or_else, if◌then◌else◌, M, Result, ok, err, pure, catch, ◌>>=◌, ◌>>◌, try_then,
}
use anyonce.Types.{Operation, StoredResult, IdempotencyRecord}
use anyonce.Engine.{ExecutePolicy, ExecuteHooks, call_on, increment}
use anyonce.Key.{ParseKeyResult, parse_key, lenient}
use anyonce.Http.Replay.{Response}
use anyonce.Http.Request.{KeyLookup, BodyRead, read_body}
use anyonce.Http.Options.{is_some, HttpIdempotencyOptions, ResolvedHttpOptions, Fingerprint, by}
use anyonce.Http.Problems.{
  ProblemCode, missing_key, invalid_key, conflict, fingerprint_mismatch, configuration_error,
  signature_invalid, Problem, Detail, unconfigured, verifier_failed,
}
use anyonce.Http.Run.{
  Cell, Requests, Captured, BridgeOptions, IdempotencyInfo, RunContext, modify, handles, fail,
  run_idempotent,
}
use anyonce.Webhooks.Verify.{is_verified}

abbrev pub default_id_header : Text
default_id_header = codes "webhook-id"

pub data RoutePattern (R : Type 0) : Type 0 where
  fixed : Text → RoutePattern R
  computed : (R → Text) → RoutePattern R

pub record WebhookReceiverOptions (W E R : Type 0) : Type 0 where
  -- The options shared with the HTTP door.
  pub http : HttpIdempotencyOptions W E R
  pub skip : Option (R → Bool)
  pub on_error : Option (Problem → R → M W E Response)
  pub problem_titles : ProblemCode → Option Text
  pub id_header : Option Text
  pub key : Option (R → Bytes → Option Text)
  pub verify : Option (R → Bytes → M W E Bool)
  pub verified_marker : Option Text
  pub on_suspicious : Option (R → IdempotencyRecord → M W E (Unit {0}))
  pub route_pattern : Option (RoutePattern R)
  pub source_id : Option (R → Bytes → Option Text)
  pub scope : Option (R → Bytes → Text)

abbrev pub configuration_message : Text
configuration_message =
    codes
      "anyonce: webhookReceiver was built with neither verify nor verifiedMarker, so no delivery can be accepted (REQ-WH-2)"

abbrev pub verifier_failed_message : Text
verifier_failed_message =
    codes "anyonce: the webhook verify callback failed, so no delivery can be accepted (REQ-WH-2)"

abbrev pub signature_challenge : Text × Text
signature_challenge = (codes "www-authenticate", codes "Signature")

-- `webhookTitles` without the overrides.
unfoldable pub webhook_title : Text → ProblemCode → Option Text
webhook_title id_header missing_key =
    some (codes "The " ++ id_header ++ codes " header is required for this request")
webhook_title id_header invalid_key =
    some (codes "The " ++ id_header ++ codes " header value is not a valid key")
webhook_title id_header conflict =
    some (codes "A delivery with this " ++ id_header ++ codes " is still in progress")
webhook_title id_header fingerprint_mismatch =
    some (codes "This " ++ id_header ++ codes " was already delivered with a different payload")
webhook_title id_header configuration_error =
    some (codes "The webhook endpoint could not establish that this delivery is genuine")
webhook_title id_header signature_invalid =
    some (codes "The webhook signature could not be verified")
webhook_title id_header code = none

unfoldable pub webhook_titles : Text → (ProblemCode → Option Text) → ProblemCode → Option Text
unfolding webhook_title
webhook_titles id_header overrides code = elim (overrides code) [
  | some title ↦ some title
  | none ↦ webhook_title id_header code
]

-- `resolveKey`, on what the key function or the header gives.
unfoldable pub resolve_key : Option Text → KeyLookup
resolve_key none = KeyLookup.missing
resolve_key (some []) = KeyLookup.missing
resolve_key (some (c ∷ raw)) = elim (parse_key (c ∷ raw) lenient) [
  | ParseKeyResult.ok key ↦ KeyLookup.found key
  | ParseKeyResult.invalid reason ↦ KeyLookup.invalid reason
]

abbrev route_of : {R : Type 0} → (R → Text) → R → Option (RoutePattern R) → Text
route_of pathname req none = pathname req
route_of pathname req (some (fixed pattern)) = pattern
route_of pathname req (some (computed pattern)) = pattern req

abbrev with_source : Text → Option Text → Text
with_source route none = route
with_source route (some []) = route
with_source route (some (c ∷ source)) = route ++ codes "/" ++ c ∷ source

abbrev call_option : {R A : Type 0} → Option (R → Bytes → Option A) → R → Bytes → Option A
call_option none req body = none
call_option (some f) req body = f req body

abbrev is_nameless : Option Text → Bool
is_nameless (some []) = true
is_nameless marker = false

module _ {W E R : Type 0} where
  unfoldable pub webhook_scope : (R → Text) → R → Bytes → WebhookReceiverOptions W E R → Text
  webhook_scope pathname req body options = elim options.scope [
    | some scope ↦ scope req body
    | none ↦
        with_source (route_of pathname req options.route_pattern)
          (call_option options.source_id req body)
  ]

  -- The options handed to `resolveHttpOptions`: the webhook scope is not the bridge's.
  unfoldable pub webhook_http_options :
      (Bytes → Text) → WebhookReceiverOptions W E R → HttpIdempotencyOptions W E R
  webhook_http_options sha256_hex options = record options.http {
    header_name = some (or_else options.id_header default_id_header);
    required = some (or_else options.http.required true);
    methods = some (or_else options.http.methods (codes "POST" ∷ []));
    fingerprint = some (or_else options.http.fingerprint (by (λ req body. pure (sha256_hex body))));
    scope = none;
    principal = none;
    require_principal = none;
    key_syntax = none;
  }

  -- The two TypeErrors of `webhookReceiver`.
  unfoldable pub is_constructible : WebhookReceiverOptions W E R → Bool
  is_constructible options =
      not (is_some options.scope && is_some options.source_id)
      && not (is_nameless options.verified_marker)

  module _ (requests : Requests R) (degraded : Cell W Bool)
      (capture : Cell W (Option (Captured W E))) (note_info : R → IdempotencyInfo → W → W)
      (capture_response : Response → List Text → ℕ → List (Text × Text) → Captured W E)
      (request_fingerprint : R → Bytes → M W E Text) (decimal : ℕ → Text) (json : Problem → Bytes)
      (copies : Response → Bool) (no_capture : E)
      (logged_unconfigured logged_verifier_failed : Cell W Bool) (log : Text → W → W)
      (markers : R → W → List Text) (options : WebhookReceiverOptions W E R)
      (resolved : ResolvedHttpOptions W E R) where
    abbrev pub id_header : Text
    id_header = or_else options.id_header default_id_header

    abbrev pub bridge_options : BridgeOptions W E R
    bridge_options = record {
      resolved = resolved;
      skip = options.skip;
      on_error = options.on_error;
      problem_titles = webhook_titles id_header options.problem_titles;
    }

    -- A line that is logged once.
    abbrev pub log_once : Cell W Bool → Text → W → W
    log_once latch message w = if latch.get w then w else log message (latch.set true w)

    -- What `verify` answers, or whether the marker is set.
    unfoldable pub verification : R → Bytes → M W E Bool
    unfolding is_verified
    verification req body w = elim options.verify [
      | some verify ↦ verify req body w
      | none ↦ elim options.verified_marker [
        | some marker ↦ (ok (is_verified (markers req w) marker), w)
        | none ↦ (ok false, w)
      ]
    ]

    -- `onMismatch` tells `onSuspicious` first, and neither can keep the other from being called.
    unfoldable pub suspicious_policy :
        R → (R → IdempotencyRecord → M W E (Unit {0})) → ExecutePolicy W E
    suspicious_policy req on_suspicious =
        let user_hooks = resolved.policy.hooks in
        record resolved.policy {
          hooks = record user_hooks {
            on_mismatch = some (λ op record'. do
              catch (on_suspicious req record') (λ _. pure tt)
              catch (call_on user_hooks.on_mismatch op record')
                  (λ _. modify (increment resolved.policy.hook_errors)));
          };
        }

    unfoldable pub run_options : R → BridgeOptions W E R
    unfolding suspicious_policy
    run_options req = elim options.on_suspicious [
      | none ↦ bridge_options
      | some on_suspicious ↦ record bridge_options {
        resolved = record resolved { policy = suspicious_policy req on_suspicious };
      }
    ]

    -- What the key function or the header gives.
    abbrev pub raw_key : R → Bytes → Option Text
    raw_key req body = elim options.key [
      | some key ↦ key req body
      | none ↦ requests.header req id_header
    ]

    abbrev pub context : R → Bytes → RunContext
    context req body = record {
      route_scope = some (webhook_scope requests.pathname req body options);
      key_lookup = some (resolve_key (raw_key req body));
      body = some body;
    }

    module _ (handler : R → M W E Response) (req : R) where
      abbrev pub refuse : ProblemCode → Option Detail → List (Text × Text) → M W E Response
      refuse =
          fail requests degraded capture note_info capture_response request_fingerprint decimal json
            copies no_capture bridge_options (λ r info. handler r) req

      -- A verified delivery goes to the bridge.
      unfoldable pub deliver : Bytes → M W E Response
      unfolding run_idempotent run_options
      deliver body =
          run_idempotent requests degraded capture note_info capture_response request_fingerprint
            decimal json copies no_capture (run_options req) (λ r info. handler r) req
            (context req body)

      unfoldable pub verify_then_deliver : Bytes → M W E Response
      unfolding verification deliver fail
      verify_then_deliver body =
          try_then (verification req body)
            (λ error. do
              modify (log_once logged_verifier_failed verifier_failed_message)
              refuse configuration_error (some verifier_failed) [])
            (λ verified.
              if not verified
              then refuse signature_invalid none (signature_challenge ∷ [])
              else deliver body)

      abbrev pub is_unconfigured : Bool
      is_unconfigured = not (is_some options.verify) && not (is_some options.verified_marker)

      unfoldable pub refuse_unconfigured : M W E Response
      unfolding fail
      refuse_unconfigured = do
        modify (log_once logged_unconfigured configuration_message)
        refuse configuration_error (some unconfigured) []

      unfoldable pub receive : M W E Response
      unfolding refuse_unconfigured verify_then_deliver read_body fail
      receive =
          if is_unconfigured
          then refuse_unconfigured
          else if not (handles resolved.methods (requests.method req))
          then handler req
          else elim (read_body (requests.content_length req) (requests.chunks req)
              resolved.max_request_bytes) [
                | BodyRead.payload_too_large ↦ refuse ProblemCode.payload_too_large none []
                | BodyRead.ok body ↦ verify_then_deliver body
              ]
