-- ===== src/Postgres.antt =====
-- packages/stores/src/postgres.ts: the Postgres store, over a query function that runs one statement. The world
-- is the table, and `others n` is what other connections do to it before the n-th statement of the call; a
-- driver that fails is not modelled. `asRow` copies the columns, which are typed here. The adapters for `pg`
-- and postgres.js are not modelled.
pub mod Equal
pub mod Refines
use anyonce.Prelude.{
  ℕ, zero, suc, ◌+◌, Text, codes, text_eq, Bytes, Bool, true, false, not, Option, none, some, ltb,
  leb, ◌==◌, if◌then◌else◌, M, ok, err, Result, pure,
}
use anyonce.Types.{
  Operation, RecordState, Payload, IdempotencyRecord, BeginOptions, BeginOutcome, CompleteStatus,
}
use anyonce.Contract.{Store}
use anyonce.Codec.{Json, RecordRow, encode_result_meta, row_to_record, body_of, flag_of}
use anyonce.Sql.{
  Table, select_sql, begin_sql, complete_sql, abandon_sql, get_sql, purge_sql, purged, remove_sql,
}

abbrev pub unsettled : Text
unsettled = codes "anyonce: postgres begin could not settle after three attempts"

module _ (json : Json) (others : ℕ → Table → Table) where
  -- The answer to a refused claim, or what the next attempt does.
  unfoldable classify :
      Option RecordRow
      → Operation
      → BeginOptions
      → M Table Text BeginOutcome
      → M Table Text BeginOutcome
  unfolding row_to_record
  classify none op opts retry = retry
  classify (some row) op opts retry =
      if leb row.expires_at opts.now
      then retry
      else if not (text_eq row.fingerprint op.fingerprint)
      then pure (BeginOutcome.mismatch (row_to_record json row))
      else elim row.state [
        | RecordState.completed ↦ pure (BeginOutcome.completed (row_to_record json row))
        | RecordState.in_flight ↦
            if leb row.lease_until opts.now
            then retry
            else pure (BeginOutcome.in_flight row.lease_until)
      ]

  unfoldable begin_loop : Operation → BeginOptions → ℕ → ℕ → M Table Text BeginOutcome
  unfolding begin_sql select_sql classify
  begin_loop op opts zero n t = (err unsettled, t)
  begin_loop op opts (suc left) n t =
      let claimed =
        begin_sql op.scope op.key op.fingerprint opts.now (opts.now + opts.lease_ms)
          (opts.now + opts.ttl_ms) (others n t) in
      let t' = others (suc n) claimed.1 in
      elim claimed.0 [
        | some fence ↦ (ok (BeginOutcome.acquired fence), claimed.1)
        | none ↦
            classify (select_sql op.scope op.key t') op opts (begin_loop op opts left (suc (suc n)))
              t'
      ]

  unfoldable pub begin : Operation → BeginOptions → M Table Text BeginOutcome
  unfolding begin_loop
  begin op opts = begin_loop op opts 3 0

  unfoldable classify_completion : Option RecordRow → ℕ → ℕ → CompleteStatus
  classify_completion none fence now = CompleteStatus.not_found
  classify_completion (some row) fence now =
      if leb row.expires_at now
      then CompleteStatus.not_found
      else if not (row.fence == fence)
      then CompleteStatus.stale_fence
      else CompleteStatus.ok

  unfoldable pub complete : Operation → ℕ → Payload → ℕ → M Table Text CompleteStatus
  unfolding complete_sql select_sql encode_result_meta classify_completion
  complete op fence result now t =
      let updated =
        complete_sql op.scope op.key fence now (encode_result_meta json result) (body_of result)
          (flag_of result) (others 0 t) in
      let t' = others 1 updated.1 in
      elim updated.0 [
        | some _ ↦ (ok CompleteStatus.ok, updated.1)
        | none ↦ (ok (classify_completion (select_sql op.scope op.key t') fence now), t')
      ]

  unfoldable classify_release : Option RecordRow → ℕ → CompleteStatus
  classify_release none fence = CompleteStatus.not_found
  classify_release (some row) fence = elim row.state [
    | RecordState.completed ↦ CompleteStatus.not_found
    | RecordState.in_flight ↦
        if row.fence == fence then CompleteStatus.not_found else CompleteStatus.stale_fence
  ]

  unfoldable pub abandon : Operation → ℕ → M Table Text CompleteStatus
  unfolding abandon_sql select_sql classify_release
  abandon op fence t =
      let deleted = abandon_sql op.scope op.key fence (others 0 t) in
      let t' = others 1 deleted.1 in
      elim deleted.0 [
        | some _ ↦ (ok CompleteStatus.ok, deleted.1)
        | none ↦ (ok (classify_release (select_sql op.scope op.key t') fence), t')
      ]

  unfoldable pub get : Text → Text → ℕ → M Table Text (Option IdempotencyRecord)
  unfolding get_sql row_to_record
  get scope key now t = elim (get_sql scope key now (others 0 t)) [
    | none ↦ (ok none, others 0 t)
    | some row ↦ (ok (some (row_to_record json row)), others 0 t)
  ]

  -- The driver's count of deleted rows.
  unfoldable pub purge : ℕ → M Table Text ℕ
  unfolding purge_sql purged
  purge now t = (ok (purged now (others 0 t)), purge_sql now (others 0 t))

  unfoldable pub physically_remove : Text → Text → Table → Table
  unfolding remove_sql
  physically_remove scope key t = remove_sql scope key (others 0 t)

  unfoldable pub postgres_store : Store Table Text
  unfolding begin complete abandon get purge
  postgres_store = record {
    begin = begin;
    complete = complete;
    abandon = abandon;
    get = get;
    purge = purge;
    max_result_bytes = none;
  }
