-- ===== src/Types.antt =====
-- packages/core/src/types.ts: operations, results, records and what a store answers.
use anyonce.Prelude.{ℕ, Text, Bytes, Bool, true, false, Option, List}

pub record Operation : Type 0 where
  pub scope : Text
  pub key : Text
  pub fingerprint : Text

pub data RecordState : Type 0 where
  in_flight completed : RecordState

pub data ResultKind : Type 0 where
  http message : ResultKind

pub data MessageOutcome : Type 0 where
  ok error : MessageOutcome

pub record ErrorInfo : Type 0 where
  pub name : Text
  pub message : Text

-- An optional field that is absent is `none`.
pub record StoredResult : Type 0 where
  pub kind : ResultKind
  pub status : Option ℕ
  pub headers : Option (List (Text × Text))
  pub body : Option Bytes
  pub outcome : Option MessageOutcome
  pub error : Option ErrorInfo

pub record OmittedResult : Type 0 where
  pub kind : ResultKind
  pub status : Option ℕ
  pub headers : Option (List (Text × Text))

-- `StoredResult | OmittedResult`
pub data Payload : Type 0 where
  stored : StoredResult → Payload
  omitted : OmittedResult → Payload

pub record IdempotencyRecord : Type 0 where
  pub scope : Text
  pub key : Text
  pub fingerprint : Text
  pub state : RecordState
  pub fence : ℕ
  pub lease_until : ℕ
  pub created_at : ℕ
  pub expires_at : ℕ
  pub result : Option StoredResult
  pub result_omitted : Option Bool

pub data BeginOutcome : Type 0 where
  acquired : ℕ → BeginOutcome
  in_flight : ℕ → BeginOutcome
  completed : IdempotencyRecord → BeginOutcome
  mismatch : IdempotencyRecord → BeginOutcome

pub record BeginOptions : Type 0 where
  pub lease_ms : ℕ
  pub ttl_ms : ℕ
  pub now : ℕ

pub data CompleteStatus : Type 0 where
  ok stale_fence not_found : CompleteStatus

unfoldable pub is_omitted : Payload → Bool
is_omitted (stored r) = false
is_omitted (omitted r) = true
