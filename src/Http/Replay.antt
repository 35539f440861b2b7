-- ===== src/Http/Replay.antt =====
-- packages/core/src/http/capture.ts: which headers are stored, and the response that replays a record. A header
-- list holds lower-case names, as the platform's `Headers` gives and compares them.
pub mod Laws
use anyonce.Prelude.{
  ℕ, Text, codes, text_eq, Bytes, Bool, true, false, not, ◌&&◌, ◌||◌, Option, none, some, List, [],
  ◌∷◌, length, ltb, or_else, ◌==◌, if◌then◌else◌,
}
use anyonce.Types.{StoredResult, IdempotencyRecord}

pub record Response : Type 0 where
  pub status : ℕ
  pub headers : List (Text × Text)
  pub body : Option Bytes

-- `NULL_BODY_STATUS`
pub is_null_body : ℕ → Bool
is_null_body status = status == 204 || (status == 205 || status == 304)

-- `allow.has(name)`
abbrev pub allows : List Text → Text → Bool
allows [] name = false
allows (a ∷ allow) name = text_eq a name || allows allow name

pub is_stored : List Text → Text → Bool
is_stored allow name = not (text_eq name (codes "set-cookie")) && allows allow name

unfoldable pub stored_headers : List (Text × Text) → List Text → List (Text × Text)
unfolding is_stored
stored_headers [] allow = []
stored_headers (h ∷ headers) allow =
    let rest = stored_headers headers allow in if is_stored allow h.0 then h ∷ rest else rest

-- `headers.delete(name)`, as a part of `set`.
pub remove_header : Text → List (Text × Text) → List (Text × Text)
remove_header name [] = []
remove_header name (h ∷ headers) =
    let rest = remove_header name headers in if text_eq h.0 name then rest else h ∷ rest

-- `headers.set(name, value)`
pub set_header : Text → Text → List (Text × Text) → List (Text × Text)
unfolding remove_header
set_header name value [] = (name, value) ∷ []
set_header name value (h ∷ headers) =
    let rest = set_header name value headers in
    if text_eq h.0 name then (name, value) ∷ remove_header name headers else h ∷ rest

abbrev pub is_true : Option Bool → Bool
is_true none = false
is_true (some b) = b

-- The status, headers and body of a record's result, with what `?.` and `??` give when there is none.
abbrev pub status_of : Option StoredResult → ℕ
status_of none = 200
status_of (some r) = or_else r.status 200

abbrev pub headers_of : Option StoredResult → List (Text × Text)
headers_of none = []
headers_of (some r) = or_else r.headers []

abbrev pub stored_body : Option StoredResult → Option Bytes
stored_body none = none
stored_body (some r) = r.body

-- `body` is used when it is there and not empty.
unfoldable use_body : Option Bytes → Bool → Option Bytes
use_body none wanted = none
use_body (some []) wanted = none
use_body (some (b ∷ bytes)) wanted = if wanted then some (b ∷ bytes) else none

unfoldable replay_headers : IdempotencyRecord → List (Text × Text)
unfolding set_header
replay_headers r =
    let headers = set_header (codes "idempotency-replayed") (codes "true") (headers_of r.result) in
    if is_true r.result_omitted
    then set_header (codes "idempotency-replay") (codes "omitted") headers
    else headers

unfoldable pub replay_response : IdempotencyRecord → Response
unfolding replay_headers use_body is_null_body
replay_response r = record {
  status = status_of r.result;
  headers = replay_headers r;
  body =
      use_body (stored_body r.result)
        (not (is_true r.result_omitted) && not (is_null_body (status_of r.result)));
}
