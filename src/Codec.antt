-- ===== src/Codec.antt =====
-- packages/stores/src/codec.ts: the flat row that the SQL, Redis and DynamoDB stores persist. Columns
-- are typed here, so the conversions of driver values (`num`, `Number`, `String`, `new Uint8Array`) are
-- identities; JSON text goes through the platform's `JSON`, a parameter.
pub mod Base64
pub mod Laws
pub mod Plain
use anyonce.Prelude.{
  ℕ, ◌+◌, Text, Bytes, Bool, true, false, Option, none, some, List, ◌≡◌, ◌==◌, if◌then◌else◌,
}
use anyonce.Types.{
  Operation, RecordState, ResultKind, MessageOutcome, ErrorInfo, StoredResult, OmittedResult,
  Payload, stored, omitted, IdempotencyRecord, BeginOptions,
}

pub record RecordRow : Type 0 where
  pub scope : Text
  pub key : Text
  pub fingerprint : Text
  pub state : RecordState
  pub fence : ℕ
  pub lease_until : ℕ
  pub created_at : ℕ
  pub expires_at : ℕ
  pub result_meta : Option Text
  pub result_body : Option Bytes
  pub result_omitted : ℕ

-- The object that `encodeResultMeta` builds: everything in a result except the body.
pub record ResultMeta : Type 0 where
  pub kind : ResultKind
  pub status : Option ℕ
  pub headers : Option (List (Text × Text))
  pub outcome : Option MessageOutcome
  pub error : Option ErrorInfo

-- `JSON.stringify` and `JSON.parse` on such objects: what is parsed back is what was written.
pub record Json : Type 0 where
  pub stringify : ResultMeta → Text
  pub parse : Text → ResultMeta
  pub parse-stringify : (m : ResultMeta) → parse (stringify m) ≡ m

unfoldable pub meta_of : Payload → ResultMeta
meta_of (stored r) = record {
  kind = r.kind;
  status = r.status;
  headers = r.headers;
  outcome = r.outcome;
  error = r.error;
}
meta_of (omitted r) = record {
  kind = r.kind;
  status = r.status;
  headers = r.headers;
  outcome = none;
  error = none;
}

-- The body and the flag that a store writes beside the encoded result.
abbrev pub body_of : Payload → Option Bytes
body_of (stored r) = r.body
body_of (omitted r) = none

abbrev pub flag_of : Payload → ℕ
flag_of (stored r) = 0
flag_of (omitted r) = 1

unfoldable pub new_row : Operation → BeginOptions → ℕ → RecordRow
new_row op opts fence = record {
  scope = op.scope;
  key = op.key;
  fingerprint = op.fingerprint;
  state = RecordState.in_flight;
  fence = fence;
  lease_until = opts.now + opts.lease_ms;
  created_at = opts.now;
  expires_at = opts.now + opts.ttl_ms;
  result_meta = none;
  result_body = none;
  result_omitted = 0;
}

module _ (json : Json) where
  unfoldable pub encode_result_meta : Payload → Text
  unfolding meta_of
  encode_result_meta result = json.stringify (meta_of result)

  unfoldable pub decode_result_meta : Text → StoredResult
  decode_result_meta text =
      let meta = json.parse text in
      record {
        kind = meta.kind;
        status = meta.status;
        headers = meta.headers;
        body = none;
        outcome = meta.outcome;
        error = meta.error;
      }

  -- The result of a row, if it has one: its decoded text with the body of the row.
  unfoldable pub row_result : RecordRow → Option StoredResult
  unfolding decode_result_meta
  row_result row = elim row.result_meta [
    | none ↦ none
    | some text ↦ some (record (decode_result_meta text) { body = row.result_body })
  ]

  unfoldable pub row_to_record : RecordRow → IdempotencyRecord
  unfolding row_result
  row_to_record row = record {
    scope = row.scope;
    key = row.key;
    fingerprint = row.fingerprint;
    state = row.state;
    fence = row.fence;
    lease_until = row.lease_until;
    created_at = row.created_at;
    expires_at = row.expires_at;
    result = row_result row;
    result_omitted = if row.result_omitted == 1 then some true else none;
  }
