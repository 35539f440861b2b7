-- ===== src/Webhooks/Tests.antt =====
-- Webhook deliveries at concrete inputs.
use anyonce.Prelude.{
  ℕ, Text, codes, Bytes, true, false, none, some, [], ◌≡◌, ◌≢◌, refl, text_eq, M, ok, pure,
}
use anyonce.Memory.{MemoryStore, memory_store, empty}
use anyonce.Http.Options.{HttpIdempotencyOptions}
use anyonce.Http.Replay.{Response}
use anyonce.Http.Run.Tests.{requests, no_cell, resolved, captures, a_request, decimal, json, hashed}
use anyonce.Webhooks.Receiver.{WebhookReceiverOptions, verification, is_constructible}
use anyonce.Webhooks.Receiver.Laws.{Receives, receive-Receives, receive-unverified, door, handled}

abbrev http_options : HttpIdempotencyOptions MemoryStore ℕ (Text × Text)
http_options = record {
  store = memory_store ℕ;
  methods = none;
  header_name = none;
  required = none;
  key_syntax = none;
  scope = none;
  principal = none;
  require_principal = none;
  fingerprint = none;
  max_request_bytes = none;
  store_headers = none;
  policy = record {
    lease_ms = none;
    ttl_ms = none;
    max_result_bytes = none;
    store_result = none;
    on_store_error = none;
    clock = none;
    hooks = none;
    hook_errors = none;
  };
  problem_base_uri = none;
  docs_url = none;
}

-- A receiver that wants a marker, which no request has.
abbrev marked : WebhookReceiverOptions MemoryStore ℕ (Text × Text)
marked = record {
  http = http_options;
  skip = none;
  on_error = none;
  problem_titles = λ code. none;
  id_header = none;
  key = none;
  verify = none;
  verified_marker = some (codes "upstream");
  on_suspicious = none;
  route_pattern = none;
  source_id = none;
  scope = none;
}

constructible : is_constructible marked ≡ true
unfolding is_constructible
constructible = refl

abbrev accepting : Text × Text → M MemoryStore ℕ Response
accepting req = pure (record { status = 200; headers = []; body = none })

abbrev teapot : Text × Text → M MemoryStore ℕ Response
teapot req = pure (record { status = 418; headers = []; body = none })

receive-Receives_example :
    Receives requests
      (no_cell false)
      (no_cell none)
      (λ req info w. w)
      captures
      hashed
      decimal
      json
      (λ res. true)
      9
      (no_cell false)
      (no_cell false)
      (λ message w. w)
      (λ req w. [])
      marked
      resolved
      a_request
      accepting
      empty
receive-Receives_example =
    receive-Receives requests (no_cell false) (no_cell none) (λ req info w. w) captures hashed
      decimal json (λ res. true) 9 (no_cell false) (no_cell false) (λ message w. w) (λ req w. [])
      marked resolved a_request accepting empty

no_marker :
    (verification requests
      (no_cell false)
      (no_cell none)
      (λ req info w. w)
      captures
      hashed
      decimal
      json
      (λ res. true)
      9
      (no_cell false)
      (no_cell false)
      (λ message w. w)
      (λ req w. [])
      marked
      resolved
      a_request
      []
      empty).0
    ≡ ok false
unfolding verification
no_marker = refl

unmarked :
    (body : Bytes)
    → (verification requests
        (no_cell false)
        (no_cell none)
        (λ req info w. w)
        captures
        hashed
        decimal
        json
        (λ res. true)
        9
        (no_cell false)
        (no_cell false)
        (λ message w. w)
        (λ req w. [])
        marked
        resolved
        a_request
        body
        empty).0
      ≢ ok true
unfolding verification
unmarked body e = cc e

posted :
    handled requests
      (no_cell false)
      (no_cell none)
      (λ req info w. w)
      captures
      hashed
      decimal
      json
      (λ res. true)
      9
      (no_cell false)
      (no_cell false)
      (λ message w. w)
      (λ req w. [])
      marked
      resolved
      a_request
    ≡ true
unfolding text_eq
posted = refl

receive-unverified_example :
    door requests
      (no_cell false)
      (no_cell none)
      (λ req info w. w)
      captures
      hashed
      decimal
      json
      (λ res. true)
      9
      (no_cell false)
      (no_cell false)
      (λ message w. w)
      (λ req w. [])
      marked
      resolved
      a_request
      accepting
      empty
    ≡ door requests
        (no_cell false)
        (no_cell none)
        (λ req info w. w)
        captures
        hashed
        decimal
        json
        (λ res. true)
        9
        (no_cell false)
        (no_cell false)
        (λ message w. w)
        (λ req w. [])
        marked
        resolved
        a_request
        teapot
        empty
receive-unverified_example =
    receive-unverified requests (no_cell false) (no_cell none) (λ req info w. w) captures hashed
      decimal json (λ res. true) 9 (no_cell false) (no_cell false) (λ message w. w) (λ req w. [])
      marked resolved a_request accepting teapot empty posted (λ body came. unmarked body)
