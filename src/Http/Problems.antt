-- ===== src/Http/Problems.antt =====
-- packages/core/src/http/problems.ts: problem codes and the responses that carry them. `JSON.stringify` of a
-- problem, as bytes, is a parameter.
pub mod Laws
use anyonce.Prelude.{ℕ, Text, codes, Bytes, Option, none, some, List, [], ◌∷◌, ◌++◌, or_else}
use anyonce.Key.{KeyReason}
use anyonce.Http.Replay.{Response, set_header}

pub data ProblemCode : Type 0 where
  missing_key invalid_key conflict fingerprint_mismatch payload_too_large store_unavailable
        missing_principal configuration_error signature_invalid :
      ProblemCode

-- The text of a code.
unfoldable pub code_text : ProblemCode → Text
code_text missing_key = codes "missing-key"
code_text invalid_key = codes "invalid-key"
code_text conflict = codes "conflict"
code_text fingerprint_mismatch = codes "fingerprint-mismatch"
code_text payload_too_large = codes "payload-too-large"
code_text store_unavailable = codes "store-unavailable"
code_text missing_principal = codes "missing-principal"
code_text configuration_error = codes "configuration-error"
code_text signature_invalid = codes "signature-invalid"

-- `PROBLEM_STATUS`
unfoldable pub problem_status : ProblemCode → ℕ
problem_status missing_key = 400
problem_status invalid_key = 400
problem_status conflict = 409
problem_status fingerprint_mismatch = 422
problem_status payload_too_large = 413
problem_status store_unavailable = 503
problem_status missing_principal = 500
problem_status configuration_error = 500
problem_status signature_invalid = 401

-- `PROBLEM_TITLE`
unfoldable pub problem_title : ProblemCode → Text
problem_title missing_key = codes "The Idempotency-Key header is required for this request"
problem_title invalid_key = codes "The Idempotency-Key header value is not a valid key"
problem_title conflict = codes "A request with this Idempotency-Key is still in progress"
problem_title fingerprint_mismatch =
    codes "This Idempotency-Key was already used with a different request payload"
problem_title payload_too_large =
    codes "The request body exceeds the size this idempotent endpoint accepts"
problem_title store_unavailable = codes "The idempotency store is unavailable"
problem_title missing_principal =
    codes "The idempotency scope requires a principal and none was found"
problem_title configuration_error =
    codes "This endpoint is not configured correctly and cannot accept the request"
problem_title signature_invalid = codes "The request signature could not be verified"

-- What the doors give as details: why a key is invalid, and which of two ways the webhook door is broken.
pub data Detail : Type 0 where
  key_reason : KeyReason → Detail
  unconfigured verifier_failed : Detail

pub record Problem : Type 0 where
  pub type_uri : Text
  pub title : Text
  pub status : ℕ
  pub detail : Option Detail
  pub code : ProblemCode

unfoldable pub problem : ProblemCode → Text → Option Detail → Option Text → Problem
unfolding code_text problem_status problem_title
problem code base_uri detail title = record {
  type_uri = base_uri ++ code_text code;
  title = or_else title (problem_title code);
  status = problem_status code;
  detail = detail;
  code = code;
}

-- `headers.set` for each extra header.
pub set_headers : List (Text × Text) → List (Text × Text) → List (Text × Text)
set_headers headers [] = headers
set_headers headers ((name, value) ∷ rest) = set_headers (set_header name value headers) rest

unfoldable pub problem_response : (Problem → Bytes) → Problem → List (Text × Text) → Response
unfolding set_headers
problem_response json p extra_headers = record {
  status = p.status;
  headers =
      set_headers
        ((codes "content-type", codes "application/problem+json")
          ∷ (codes "cache-control", codes "no-store")
          ∷ [])
        extra_headers;
  body = some (json p);
}
