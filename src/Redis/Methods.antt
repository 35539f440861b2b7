-- ===== src/Redis/Methods.antt =====
-- packages/stores/src/redis.ts: the methods of `RedisStore`. The world is the server: its hashes and which scripts
-- it has cached. A script that `EVALSHA` does not find reads and changes nothing, so what other clients do between
-- that and `EVAL` counts as done before the call.
use anyonce.Prelude.{
  ℕ, Text, codes, Bool, true, false, ◌||◌, Option, none, some, List, ltb, if◌then◌else◌, M, ok, err,
  Result, catch, throw, ◌>>=◌, pure, Bytes,
}
use anyonce.Types.{
  Operation, Payload, IdempotencyRecord, BeginOptions, BeginOutcome, CompleteStatus,
}
use anyonce.Contract.{Store}
use anyonce.Codec.{Json, encode_result_meta, row_to_record, body_of, flag_of}
use anyonce.Dict
use anyonce.Redis.{
  Hash, Error, noscript, script_failed, key_for, hash_to_row, BeginReply, replies_acquired,
  replies_in_flight, replies_completed, replies_mismatch, begin_lua, complete_lua, abandon_lua,
}
use anyonce.Codec.Base64.{Base64, bytes_to_base64}

pub data Script : Type 0 where
  begin_script complete_script abandon_script : Script

abbrev same_script : Script → Script → Bool
same_script begin_script begin_script = true
same_script complete_script complete_script = true
same_script abandon_script abandon_script = true
same_script s s' = false

abbrev pub Hashes : Type 0
Hashes = List (Text × Hash)

pub record Server : Type 0 where
  pub hashes : Hashes
  pub is_cached : Script → Bool

-- The hashes with one that a script leaves at its key.
abbrev pub set_hash : Text → Option Hash → Hashes → Hashes
set_hash key none hs = Dict.delete key hs
set_hash key (some h) hs = Dict.put key h hs

module _ {A : Type 0} where
  -- A script at one key, run by the server.
  abbrev pub call_script : Text → (Option Hash → Result Error A × Option Hash) → M Server Error A
  call_script key body w =
      let replied = body (Dict.get key w.hashes) in
      (replied.0, record w { hashes = set_hash key replied.1 w.hashes })

  abbrev pub evalsha :
      Script → Text → (Option Hash → Result Error A × Option Hash) → M Server Error A
  evalsha script key body w =
      if w.is_cached script then call_script key body w else (err noscript, w)

  abbrev pub eval : Script → Text → (Option Hash → Result Error A × Option Hash) → M Server Error A
  eval script key body w =
      call_script key body (record w { is_cached = λ s. same_script script s || w.is_cached s })

  abbrev unless_noscript : M Server Error A → Error → M Server Error A
  unless_noscript again noscript = again
  unless_noscript again script_failed = throw script_failed

  unfoldable pub run :
      Script → Text → (Option Hash → Result Error A × Option Hash) → M Server Error A
  run script key body = catch (evalsha script key body) (unless_noscript (eval script key body))

module _ (json : Json) (base64 : Base64) (prefix : Text) where
  unfoldable pub outcome_of : Operation → BeginReply → BeginOutcome
  outcome_of op (replies_acquired fence) = BeginOutcome.acquired fence
  outcome_of op (replies_in_flight until) = BeginOutcome.in_flight until
  outcome_of op (replies_completed h) =
      BeginOutcome.completed (row_to_record json (hash_to_row base64 op.scope op.key h))
  outcome_of op (replies_mismatch h) =
      BeginOutcome.mismatch (row_to_record json (hash_to_row base64 op.scope op.key h))

  unfoldable pub begin : Operation → BeginOptions → M Server Error BeginOutcome
  unfolding run begin_lua outcome_of hash_to_row row_to_record key_for
  begin op opts =
      run begin_script (key_for prefix op.scope op.key)
        (begin_lua op.fingerprint opts.now opts.lease_ms opts.ttl_ms)
      >>= λ reply. pure (outcome_of op reply)

  -- The body as an argument of the script.
  abbrev pub body_argument : Option Bytes → Text
  body_argument none = codes "-"
  body_argument (some body) = bytes_to_base64 base64 body

  unfoldable pub complete : Operation → ℕ → Payload → ℕ → M Server Error CompleteStatus
  unfolding run complete_lua encode_result_meta key_for
  complete op fence result now = run complete_script (key_for prefix op.scope op.key) (
      complete_lua fence now (encode_result_meta json result) (body_argument (body_of result))
        (flag_of result))

  unfoldable pub abandon : Operation → ℕ → M Server Error CompleteStatus
  unfolding run abandon_lua key_for
  abandon op fence = run abandon_script (key_for prefix op.scope op.key) (abandon_lua fence)

  -- What `get` makes of the fields that HGETALL gives.
  unfoldable pub live_fields : Text → Text → ℕ → Option Hash → Option IdempotencyRecord
  live_fields scope key now none = none
  live_fields scope key now (some h) = elim h.fingerprint [
    | none ↦ none
    | some _ ↦
        if ltb now (hash_to_row base64 scope key h).expires_at
        then some (row_to_record json (hash_to_row base64 scope key h))
        else none
  ]

  unfoldable pub get : Text → Text → ℕ → M Server Error (Option IdempotencyRecord)
  unfolding live_fields hash_to_row row_to_record key_for
  get scope key now w =
      (ok (live_fields scope key now (Dict.get (key_for prefix scope key) w.hashes)), w)

  -- The native expiry sweeps.
  unfoldable pub purge : ℕ → M Server Error ℕ
  purge now w = (ok 0, w)

  unfoldable pub physically_remove : Text → Text → Server → Server
  unfolding key_for
  physically_remove scope key w = record w {
    hashes = Dict.delete (key_for prefix scope key) w.hashes;
  }

  unfoldable pub redis_store : Store Server Error
  unfolding begin complete abandon get purge
  redis_store = record {
    begin = begin;
    complete = complete;
    abandon = abandon;
    get = get;
    purge = purge;
    max_result_bytes = none;
  }
