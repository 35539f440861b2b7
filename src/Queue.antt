-- ===== src/Queue.antt =====
-- packages/anyq/src: the options, errors, keys, scopes and fingerprints of the queue door. Lower-casing, decoding,
-- UTF-8, SHA-256 and canonical JSON are parameters; a body is a text, bytes or a value of any type `V`.
pub mod Deliver
pub mod Laws
pub mod Tests
use anyonce.Prelude.{
  ℕ, Text, codes, text_eq, Bytes, Bool, true, false, not, ◌&&◌, Option, none, some, List, [], ◌∷◌,
  ◌++◌, or_else, if◌then◌else◌, M, Result, ok, err, pure, throw, ◌>>=◌,
}
use anyonce.Types.{IdempotencyRecord}
use anyonce.Contract.{Store}
use anyonce.Engine.{ExecutePolicy, ExecuteHooks, OnStoreError}
use anyonce.Http.Options.{PolicyOverrides, default_policy}
use anyonce.Key.{KeyReason, KeyValidation, bad, validate_key}

abbrev pub default_key_header : Text
default_key_header = codes "idempotency-key"

-- `translated` is a property of the error object that `number` names.
pub record InFlightError : Type 0 where
  pub lease_until : ℕ
  pub delay_ms : ℕ
  pub number : ℕ

pub data ConfigurationError : Type 0 where
  no_header : Text → ConfigurationError
  unusable_key : KeyReason → ConfigurationError
  no_queue : ConfigurationError

-- What the queue door throws, and what anything else that it calls throws.
pub data QueueError (E : Type 0) : Type 0 where
  in_flight_error : InFlightError → QueueError E
  mismatch_error : IdempotencyRecord → QueueError E
  fingerprint_error : QueueError E
  configuration_error : ConfigurationError → QueueError E
  other : E → QueueError E

unfoldable pub is_retryable : {E : Type 0} → (E → Bool) → QueueError E → Bool
is_retryable others (in_flight_error e) = true
is_retryable others (mismatch_error r) = false
is_retryable others fingerprint_error = false
is_retryable others (configuration_error e) = false
is_retryable others (other e) = others e

pub data HeaderValue : Type 0 where
  text : Text → HeaderValue
  bytes : Bytes → HeaderValue
  undefined : HeaderValue

-- The provider of a message with what its metadata names; `some_other` is any provider that the door does not know.
pub data ProviderMetadata : Type 0 where
  memory sqs kafka pgmq nats google_pubsub cloudflare_queues : Option Text → ProviderMetadata
  redis_streams : Option Text → Option Text → ProviderMetadata
  some_other : ProviderMetadata

pub data Body (V : Type 0) : Type 0 where
  text_body : Text → Body V
  byte_body : Bytes → Body V
  value_body : V → Body V

pub record Message (V : Type 0) : Type 0 where
  pub id : Text
  pub headers : List (Text × HeaderValue)
  pub body : Body V
  pub metadata : ProviderMetadata

pub data OnInFlight : Type 0 where
  retry ack : OnInFlight

pub data KeySource (W E V : Type 0) : Type 0 where
  id header body : KeySource W E V
  by : (Message V → M W (QueueError E) Text) → KeySource W E V

pub data Scope (V : Type 0) : Type 0 where
  fixed : Text → Scope V
  computed : (Message V → Text) → Scope V

pub record IdempotentOptions (W E V : Type 0) : Type 0 where
  pub store : Store W (QueueError E)
  pub key : Option (KeySource W E V)
  pub key_header : Option Text
  pub scope : Option (Scope V)
  pub consumer_group : Option Text
  pub fingerprint : Option (Message V → M W (QueueError E) Text)
  pub lease_ms : Option ℕ
  pub ttl_ms : Option ℕ
  pub on_in_flight : Option OnInFlight
  pub on_store_error : Option OnStoreError
  pub hooks : Option (ExecuteHooks W (QueueError E))
  pub clock : Option (M W (QueueError E) ℕ)
  pub warn : Text → W → W

pub record ResolvedOptions (W E V : Type 0) : Type 0 where
  pub store : Store W (QueueError E)
  pub key : KeySource W E V
  pub key_header : Text
  pub scope : Option (Scope V)
  pub consumer_group : Option Text
  pub fingerprint : Message V → M W (QueueError E) Text
  pub lease_ms : Option ℕ
  pub ttl_ms : Option ℕ
  pub on_in_flight : OnInFlight
  pub on_store_error : Option OnStoreError
  pub hooks : Option (ExecuteHooks W (QueueError E))
  pub clock : M W (QueueError E) ℕ
  pub warn : Text → W → W

-- The queue and the group that a message names.
unfoldable pub queue_name : ProviderMetadata → Option Text × Option Text
queue_name (memory queue) = (queue, none)
queue_name (redis_streams stream group) = (stream, group)
queue_name (sqs url) = (url, none)
queue_name (kafka topic) = (topic, none)
queue_name (pgmq queue) = (queue, none)
queue_name (nats stream) = (stream, none)
queue_name (google_pubsub subscription) = (subscription, none)
queue_name (cloudflare_queues queue) = (queue, none)
queue_name some_other = (none, none)

abbrev with_group : Text → Option Text → Text
with_group queue none = queue
with_group queue (some []) = queue
with_group queue (some (c ∷ group)) = queue ++ codes "/" ++ c ∷ group

abbrev first_group : Option Text → Option Text → Option Text
first_group (some group) found = some group
first_group none found = found

module _ (lower : Text → Text) (decode : Bytes → Text) where
  -- `headerValue`: the first header of the name that has a value.
  unfoldable pub header_value : List (Text × HeaderValue) → Text → Option Text
  header_value [] wanted = none
  header_value ((field, value) ∷ headers) wanted =
      let rest = header_value headers wanted in
      if text_eq (lower field) (lower wanted)
      then elim value [ undefined ↦ rest | text t ↦ some t | bytes b ↦ some (decode b) ]
      else rest

module _ {E : Type 0} where
  -- `validateKey` without spaces.
  abbrev usable : Text → Result (QueueError E) Text
  usable key = elim (validate_key key false) [
    | KeyValidation.ok ↦ ok key
    | bad reason ↦ err (configuration_error (unusable_key reason))
  ]

module _ {E V : Type 0} (utf8 : Text → Bytes) (sha256_hex : Bytes → Text)
    (canonicalize : V → Option Text) where
  unfoldable pub message_fingerprint : Body V → Result (QueueError E) Text
  message_fingerprint (text_body t) = ok (sha256_hex (utf8 t))
  message_fingerprint (byte_body b) = ok (sha256_hex b)
  message_fingerprint (value_body v) = elim (canonicalize v) [
    | none ↦ err fingerprint_error
    | some t ↦ ok (sha256_hex (utf8 t))
  ]

module _ {W E V : Type 0} where
  abbrev scope_from : Option Text × Option Text → ResolvedOptions W E V → Result (QueueError E) Text
  scope_from (none, group) options = err (configuration_error no_queue)
  scope_from (some [], group) options = err (configuration_error no_queue)
  scope_from (some (c ∷ queue), group) options =
      ok (with_group (c ∷ queue) (first_group options.consumer_group group))

  unfoldable pub resolve_scope : Message V → ResolvedOptions W E V → Result (QueueError E) Text
  unfolding queue_name
  resolve_scope message options = elim options.scope [
    | some (fixed scope) ↦ ok scope
    | some (computed scope) ↦ ok (scope message)
    | none ↦ scope_from (queue_name message.metadata) options
  ]

  module _ (lower : Text → Text) (decode : Bytes → Text) (utf8 : Text → Bytes)
      (sha256_hex : Bytes → Text) (canonicalize : V → Option Text) where
    -- The key before it is validated.
    unfoldable pub raw_key : Message V → ResolvedOptions W E V → M W (QueueError E) Text
    unfolding message_fingerprint header_value
    raw_key message options w = elim options.key [
      | by source ↦ source message w
      | id ↦ (ok message.id, w)
      | body ↦ (message_fingerprint utf8 sha256_hex canonicalize message.body, w)
      | header ↦ elim (header_value lower decode message.headers options.key_header) [
        | none ↦ (err (configuration_error (no_header options.key_header)), w)
        | some found ↦ (ok found, w)
      ]
    ]

    unfoldable pub resolve_key : Message V → ResolvedOptions W E V → M W (QueueError E) Text
    unfolding raw_key
    resolve_key message options = raw_key message options >>= λ key w. (usable key, w)

    unfoldable pub resolve_options :
        M W (QueueError E) ℕ → IdempotentOptions W E V → ResolvedOptions W E V
    unfolding message_fingerprint
    resolve_options date_now options = record {
      store = options.store;
      key = or_else options.key id;
      key_header = or_else options.key_header default_key_header;
      scope = options.scope;
      consumer_group = options.consumer_group;
      fingerprint =
          or_else options.fingerprint
            (λ message w. (message_fingerprint utf8 sha256_hex canonicalize message.body, w));
      lease_ms = options.lease_ms;
      ttl_ms = options.ttl_ms;
      on_in_flight = or_else options.on_in_flight retry;
      on_store_error = options.on_store_error;
      hooks = options.hooks;
      clock = or_else options.clock date_now;
      warn = options.warn;
    }

  unfoldable pub policy_for : ResolvedOptions W E V → ExecutePolicy W (QueueError E)
  unfolding default_policy
  policy_for options = default_policy options.clock (record {
    lease_ms = options.lease_ms;
    ttl_ms = options.ttl_ms;
    max_result_bytes = none;
    store_result = none;
    on_store_error = options.on_store_error;
    clock = some options.clock;
    hooks = options.hooks;
    hook_errors = none;
  })
