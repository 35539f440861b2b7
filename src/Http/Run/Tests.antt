-- ===== src/Http/Run/Tests.antt =====
-- The bridge over the memory store, at a concrete request.
use anyonce.Prelude.{
  ℕ, ◌<◌, Text, codes, Bytes, true, false, none, some, Option, [], ◌∷◌, List, ◌≡◌, ◌≢◌, refl, ok, M,
  pure, arith, text_eq,
}
use anyonce.Types.{IdempotencyRecord, RecordState}
use anyonce.Dict.{get, put}
use anyonce.Memory.{MemoryStore, memory_store, empty, begin, map_key}
use anyonce.Memory.Rows.{row, name}
use anyonce.Memory.Invariant.{
  IsWellFormed, empty-IsWellFormed, begin-IsWellFormed, memory_store-KeepsContract,
}
use anyonce.Engine.Tests.{policy, created, op}
use anyonce.Key.{lenient, parse_key}
use anyonce.Http.Options.{ResolvedHttpOptions, body}
use anyonce.Http.Request.{lookup_key, resolve_scope}
use anyonce.Http.Replay.{Response, replay_response}
use anyonce.Http.Problems.{fingerprint_mismatch, conflict, Problem, problem, problem_response}
use anyonce.Http.Run.{
  Cell, Requests, Captured, BridgeOptions, IdempotencyInfo, RunContext, retry_after_seconds,
  body_for,
}
use anyonce.Http.Run.Laws.{Goes, run_idempotent-Goes, bridge, MakesClaim}
use anyonce.Http.Run.Answers.{run_idempotent-duplicate, executed_world}

-- A request that is a method and the value of its key header.
abbrev pub requests : Requests (Text × Text)
requests = record {
  method = λ req. req.0;
  pathname = λ req. codes "/orders";
  header = λ req header_name. some req.1;
  content_length = λ req. some 0;
  chunks = λ req. [];
}

abbrev pub no_cell : {A : Type 0} → A → Cell MemoryStore A
no_cell a = record { get = λ w. a; set = λ b w. w }

abbrev pub resolved : ResolvedHttpOptions MemoryStore ℕ (Text × Text)
resolved = record {
  store = memory_store ℕ;
  methods = codes "POST" ∷ [];
  header_name = codes "Idempotency-Key";
  required = true;
  key_syntax = lenient;
  scope = none;
  principal = none;
  require_principal = false;
  fingerprint = body;
  max_request_bytes = 100;
  store_headers = [];
  policy = policy;
  problem_base_uri = codes "https://p/";
  docs_url = codes "https://p/missing-key";
}

abbrev bridge_options : BridgeOptions MemoryStore ℕ (Text × Text)
bridge_options = record {
  resolved = resolved;
  skip = none;
  on_error = none;
  problem_titles = λ code. none;
}

abbrev an_answer : Response
an_answer = record { status = 201; headers = []; body = some (1 ∷ []) }

abbrev pub captures : Response → List Text → ℕ → List (Text × Text) → Captured MemoryStore ℕ
captures res allow limit extra = record {
  response = res;
  stored = pure created;
  close = λ w. w;
  fail = λ e w. w;
}

abbrev pub a_request : Text × Text
a_request = (codes "POST", codes "k1")

abbrev context : RunContext
context = record { route_scope = none; key_lookup = none; body = none }

abbrev pub decimal : ℕ → Text
decimal n = n ∷ []

abbrev pub json : Problem → Bytes
json p = p.type_uri

-- The row of the request is claimed at time 100, with another fingerprint and a live lease.
abbrev pub claimed : MemoryStore
claimed = (begin op (record { lease_ms = 30; ttl_ms = 1000; now = 100 }) empty).1

abbrev pub hashed : Text × Text → Bytes → M MemoryStore ℕ Text
hashed req bytes = pure (codes "f1")

abbrev handle : Text × Text → Option IdempotencyInfo → M MemoryStore ℕ Response
handle req info = pure an_answer

run_idempotent-Goes_example :
    Goes requests
      (no_cell false)
      (no_cell none)
      (λ req info w. w)
      captures
      hashed
      decimal
      json
      (λ res. true)
      9
      bridge_options
      handle
      a_request
      context
run_idempotent-Goes_example =
    run_idempotent-Goes requests (no_cell false) (no_cell none) (λ req info w. w) captures hashed
      decimal json (λ res. true) 9 bridge_options handle a_request context

makes_claim :
    MakesClaim requests
      (no_cell false)
      (no_cell none)
      (λ req info w. w)
      captures
      hashed
      decimal
      json
      (λ res. true)
      9
      bridge_options
      handle
      a_request
      context
      (codes "POST /orders")
      (codes "k1")
      []
unfolding text_eq lookup_key resolve_scope body_for parse_key
makes_claim = (refl, refl, refl, refl, refl)

abbrev pub the_claim : IdempotencyRecord
the_claim = record {
  scope = codes "POST /orders";
  key = codes "k1";
  fingerprint = codes "f1";
  state = RecordState.in_flight;
  fence = 1;
  lease_until = 130;
  created_at = 100;
  expires_at = 1100;
  result = none;
  result_omitted = none;
}

pub held : row claimed (name op) ≡ some the_claim
unfolding begin get put map_key text_eq
held = refl

-- The call with any handler, the world when `execute` has returned, and a response that no handler makes.
abbrev calls :
    (Text × Text → Option IdempotencyInfo → M MemoryStore ℕ Response) → M MemoryStore ℕ Response
calls run' =
    bridge requests (no_cell false) (no_cell none) (λ req info w. w) captures hashed decimal json
      (λ res. true) 9 bridge_options run' a_request context

abbrev at_response : MemoryStore
at_response =
    executed_world requests (no_cell false) (no_cell none) (λ req info w. w) captures hashed decimal
      json (λ res. true) 9 bridge_options handle a_request op [] claimed

abbrev IsSentAlone : Response → Type 0
IsSentAlone res =
    ((calls handle claimed).0 ≡ ok res)
    × ((run' : Text × Text → Option IdempotencyInfo → M MemoryStore ℕ Response)
        → calls run' claimed ≡ calls handle claimed)

run_idempotent-duplicate_example :
    (codes "f1" ≢ codes "f1"
      → IsSentAlone
          (problem_response json (problem fingerprint_mismatch (codes "https://p/") none none) []))
    × (codes "f1" ≡ codes "f1"
        → RecordState.in_flight ≡ RecordState.completed
        → IsSentAlone (replay_response the_claim))
    × (codes "f1" ≡ codes "f1"
        → RecordState.in_flight ≡ RecordState.in_flight
        → 100 < 130
        → (later : ℕ) × ((policy.clock at_response).0 ≡ ok later)
          × IsSentAlone (
              problem_response json
                (problem conflict (codes "https://p/") none none)
                ((codes "retry-after", decimal (retry_after_seconds 130 later)) ∷ [])))
run_idempotent-duplicate_example =
    run_idempotent-duplicate requests (no_cell false) (no_cell none) (λ req info w. w) captures
      hashed decimal json (λ res. true) 9 bridge_options handle a_request context
      (codes "POST /orders") (codes "k1") (codes "f1") [] claimed 100 the_claim
      (λ s. row s (name op)) IsWellFormed makes_claim (memory_store-KeepsContract ℕ op) tt
      (λ w inv. (refl, inv)) (λ w'. (100, refl)) refl refl
      (begin-IsWellFormed op (record { lease_ms = 30; ttl_ms = 1000; now = 100 }) empty
        empty-IsWellFormed)
      refl held (omega arith)
