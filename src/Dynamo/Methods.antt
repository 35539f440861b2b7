-- ===== src/Dynamo/Methods.antt =====
-- packages/stores/src/dynamodb.ts: the methods of `DynamoDbStore`. Each is one conditional write and what is made
-- of its refusal.
use anyonce.Prelude.{
  ℕ, zero, suc, ◌+◌, ◌/◌, Text, text_eq, Bool, not, Option, none, some, ltb, leb, ◌==◌,
  if◌then◌else◌, M, ok, err, Result,
}
use anyonce.Types.{
  Operation, in_flight, completed, Payload, IdempotencyRecord, BeginOptions, BeginOutcome,
  CompleteStatus,
}
use anyonce.Contract.{Store, payload_size}
use anyonce.Codec.{Json, RecordRow, encode_result_meta, row_to_record, body_of, flag_of}
use anyonce.Dict
use anyonce.Dynamo.{
  Item, Items, Error, unclassified, unsettled, too_large, item_key, item_to_row, begin_condition,
  begin_update, complete_condition, complete_update, abandon_condition, old_fence,
  dynamodb_max_result_bytes,
}

module _ (json : Json) where
  -- How a refused claim is answered from the old item; `none` tries again.
  unfoldable pub refused_begin : RecordRow → Operation → BeginOptions → Option BeginOutcome
  unfolding row_to_record
  refused_begin row op opts =
      if leb row.expires_at opts.now
      then none
      else if not (text_eq row.fingerprint op.fingerprint)
      then some (BeginOutcome.mismatch (row_to_record json row))
      else elim row.state [
        | completed ↦ some (BeginOutcome.completed (row_to_record json row))
        | in_flight ↦
            if ltb opts.now row.lease_until
            then some (BeginOutcome.in_flight row.lease_until)
            else none
      ]

unfoldable pub refused_complete : RecordRow → ℕ → ℕ → CompleteStatus
refused_complete row fence now =
    if leb row.expires_at now
    then CompleteStatus.not_found
    else if not (row.fence == fence)
    then CompleteStatus.stale_fence
    else CompleteStatus.ok

unfoldable pub refused_abandon : RecordRow → ℕ → CompleteStatus
refused_abandon row fence = elim row.state [
  | completed ↦ CompleteStatus.not_found
  | in_flight ↦ if row.fence == fence then CompleteStatus.not_found else CompleteStatus.stale_fence
]

module _ (json : Json) (grace : ℕ) (honours : Bool) (others : ℕ → Items → Items)
    (wall : ℕ → ℕ) where
  abbrev ttl_seconds : BeginOptions → ℕ → ℕ
  ttl_seconds opts n = (wall n + opts.ttl_ms + grace) / 1000

  -- One conditional write of the loop, on the item that it finds; the answer is `none` to try again.
  unfoldable pub begin_write :
      Operation
      → BeginOptions
      → ℕ
      → Option Item
      → Items
      → Result Error (Option BeginOutcome) × Items
  unfolding begin_condition begin_update item_to_row refused_begin
  begin_write op opts n none t = (
    ok (some (BeginOutcome.acquired 1)),
    Dict.put (item_key op.scope op.key)
        (begin_update (item_key op.scope op.key) op.fingerprint opts.now (opts.now + opts.lease_ms)
          (opts.now + opts.ttl_ms) (ttl_seconds opts n) none)
        t,
  )
  begin_write op opts n (some item) t =
      if begin_condition op.fingerprint opts.now (some item)
      then (
        ok (some (BeginOutcome.acquired (old_fence (some item) + 1))),
        Dict.put (item_key op.scope op.key)
            (begin_update (item_key op.scope op.key) op.fingerprint opts.now
              (opts.now + opts.lease_ms) (opts.now + opts.ttl_ms) (ttl_seconds opts n) (some item))
            t,
      )
      else if honours
      then (ok (refused_begin json (item_to_row item) op opts), t)
      else (err unclassified, t)

  unfoldable pub begin_loop : Operation → BeginOptions → ℕ → ℕ → M Items Error BeginOutcome
  unfolding begin_write
  begin_loop op opts zero n t = (err unsettled, t)
  begin_loop op opts (suc left) n t =
      let turn =
        begin_write op opts n (Dict.get (item_key op.scope op.key) (others n t)) (others n t) in
      elim turn.0 [
        | err e ↦ (err e, turn.1)
        | ok (some out) ↦ (ok out, turn.1)
        | ok none ↦ begin_loop op opts left (suc n) turn.1
      ]

  unfoldable pub begin : Operation → BeginOptions → M Items Error BeginOutcome
  unfolding begin_loop
  begin op opts = begin_loop op opts 3 0

  unfoldable pub complete_write :
      Operation → ℕ → Payload → ℕ → Option Item → Items → CompleteStatus × Items
  unfolding complete_condition complete_update item_to_row refused_complete encode_result_meta
  complete_write op fence result now none t = (CompleteStatus.not_found, t)
  complete_write op fence result now (some item) t =
      if complete_condition fence now item
      then (
        CompleteStatus.ok,
        Dict.put (item_key op.scope op.key)
            (complete_update (encode_result_meta json result) (flag_of result) (body_of result)
              item)
            t,
      )
      else if honours
      then (refused_complete (item_to_row item) fence now, t)
      else (CompleteStatus.not_found, t)

  unfoldable pub complete : Operation → ℕ → Payload → ℕ → M Items Error CompleteStatus
  unfolding complete_write
  complete op fence result now t =
      if ltb dynamodb_max_result_bytes (payload_size result)
      then (err (too_large (payload_size result)), t)
      else let (status, t') =
          complete_write op fence result now (Dict.get (item_key op.scope op.key) (others 0 t))
            (others 0 t) in
        (ok status, t')

  unfoldable pub abandon_write : Operation → ℕ → Option Item → Items → CompleteStatus × Items
  unfolding abandon_condition item_to_row refused_abandon
  abandon_write op fence none t = (CompleteStatus.not_found, t)
  abandon_write op fence (some item) t =
      if abandon_condition fence item
      then (CompleteStatus.ok, Dict.delete (item_key op.scope op.key) t)
      else if honours
      then (refused_abandon (item_to_row item) fence, t)
      else (CompleteStatus.not_found, t)

  unfoldable pub abandon : Operation → ℕ → M Items Error CompleteStatus
  unfolding abandon_write
  abandon op fence t =
      let (status, t') =
        abandon_write op fence (Dict.get (item_key op.scope op.key) (others 0 t)) (others 0 t) in
      (ok status, t')

  -- What `get` makes of the item that a consistent read finds.
  unfoldable pub live_record : ℕ → Option Item → Option IdempotencyRecord
  unfolding item_to_row row_to_record
  live_record now none = none
  live_record now (some item) =
      if ltb now (item_to_row item).expires_at
      then some (row_to_record json (item_to_row item))
      else none

  unfoldable pub get : Text → Text → ℕ → M Items Error (Option IdempotencyRecord)
  unfolding live_record
  get scope key now t =
      (ok (live_record now (Dict.get (item_key scope key) (others 0 t))), others 0 t)

  -- The native TTL sweeps.
  unfoldable pub purge : ℕ → M Items Error ℕ
  purge now t = (ok 0, t)

  unfoldable pub physically_remove : Text → Text → Items → Items
  physically_remove scope key t = Dict.delete (item_key scope key) (others 0 t)

  unfoldable pub dynamo_store : Store Items Error
  unfolding begin complete abandon get purge
  dynamo_store = record {
    begin = begin;
    complete = complete;
    abandon = abandon;
    get = get;
    purge = purge;
    max_result_bytes = some dynamodb_max_result_bytes;
  }
