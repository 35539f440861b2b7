-- ===== src/D1.antt =====
-- packages/stores/src/d1.ts: the D1 store. The world is the table. `others n` is what other connections do
-- to it before the n-th statement of the call; a driver that fails is not modelled.
pub mod Tests
pub mod Alike
pub mod Refusals
pub mod Races
pub mod Refines
pub mod Spares
use anyonce.Prelude.{
  ℕ, zero, suc, ◌+◌, Text, codes, text_eq, Bytes, Bool, true, false, not, Option, none, some, ltb,
  leb, ◌==◌, if◌then◌else◌, M, ok, err, Result, pure,
}
use anyonce.Types.{
  Operation, RecordState, Payload, IdempotencyRecord, BeginOptions, BeginOutcome, CompleteStatus,
}
use anyonce.Contract.{Store}
use anyonce.Codec.{Json, RecordRow, encode_result_meta, row_to_record, body_of, flag_of}
use anyonce.Sql.{
  Table, select_sql, begin_sql, complete_sql, abandon_sql, get_sql, purge_sql, purged, remove_sql,
}

abbrev unsettled : Text
unsettled = codes "anyonce: d1 begin could not settle after three attempts"

module _ (json : Json) where
  -- How a refused claim is answered from the row that is selected next; `none` tries again.
  unfoldable pub refused_by : Option RecordRow → Operation → BeginOptions → Option BeginOutcome
  unfolding row_to_record
  refused_by none op opts = none
  refused_by (some row) op opts =
      if leb row.expires_at opts.now
      then none
      else if not (text_eq row.fingerprint op.fingerprint)
      then some (BeginOutcome.mismatch (row_to_record json row))
      else elim row.state [
        | RecordState.completed ↦ some (BeginOutcome.completed (row_to_record json row))
        | RecordState.in_flight ↦
            if ltb opts.now row.lease_until
            then some (BeginOutcome.in_flight row.lease_until)
            else none
      ]

  -- The status that classifies a refused completion.
  unfoldable pub missed_by : Option RecordRow → ℕ → ℕ → CompleteStatus
  missed_by none fence now = CompleteStatus.not_found
  missed_by (some row) fence now =
      if leb row.expires_at now
      then CompleteStatus.not_found
      else if not (row.fence == fence)
      then CompleteStatus.stale_fence
      else CompleteStatus.ok

  -- The status that classifies a refused abandonment.
  unfoldable pub kept_by : Option RecordRow → ℕ → CompleteStatus
  kept_by none fence = CompleteStatus.not_found
  kept_by (some row) fence = elim row.state [
    | RecordState.completed ↦ CompleteStatus.not_found
    | RecordState.in_flight ↦
        if row.fence == fence then CompleteStatus.not_found else CompleteStatus.stale_fence
  ]

  module _ (others : ℕ → Table → Table) where
    -- One turn of the loop: the upsert, then the row that refused it.
    unfoldable pub begin_turn : Operation → BeginOptions → ℕ → Table → Option BeginOutcome × Table
    unfolding begin_sql select_sql refused_by
    begin_turn op opts n t =
        let claimed =
          begin_sql op.scope op.key op.fingerprint opts.now (opts.now + opts.lease_ms)
            (opts.now + opts.ttl_ms) (others n t) in
        elim claimed.0 [
          | some fence ↦ (some (BeginOutcome.acquired fence), claimed.1)
          | none ↦
              let t' = others (suc n) claimed.1 in
              (refused_by (select_sql op.scope op.key t') op opts, t')
        ]

    -- The loop over the attempts that are left.
    unfoldable pub begin_loop : Operation → BeginOptions → ℕ → ℕ → M Table Text BeginOutcome
    unfolding begin_turn
    begin_loop op opts zero n t = (err unsettled, t)
    begin_loop op opts (suc left) n t =
        let turn = begin_turn op opts n t in
        elim turn.0 [
          | some out ↦ (ok out, turn.1)
          | none ↦ begin_loop op opts left (suc (suc n)) turn.1
        ]

    unfoldable pub begin : Operation → BeginOptions → M Table Text BeginOutcome
    unfolding begin_loop
    begin op opts = begin_loop op opts 3 0

    unfoldable pub complete : Operation → ℕ → Payload → ℕ → M Table Text CompleteStatus
    unfolding complete_sql select_sql encode_result_meta missed_by
    complete op fence result now t =
        let updated =
          complete_sql op.scope op.key fence now (encode_result_meta json result) (body_of result)
            (flag_of result) (others 0 t) in
        elim updated.0 [
          | some _ ↦ (ok CompleteStatus.ok, updated.1)
          | none ↦
              let t' = others 1 updated.1 in
              (ok (missed_by (select_sql op.scope op.key t') fence now), t')
        ]

    unfoldable pub abandon : Operation → ℕ → M Table Text CompleteStatus
    unfolding abandon_sql select_sql kept_by
    abandon op fence t =
        let deleted = abandon_sql op.scope op.key fence (others 0 t) in
        elim deleted.0 [
          | some _ ↦ (ok CompleteStatus.ok, deleted.1)
          | none ↦
              let t' = others 1 deleted.1 in
              (ok (kept_by (select_sql op.scope op.key t') fence), t')
        ]

    unfoldable pub get : Text → Text → ℕ → M Table Text (Option IdempotencyRecord)
    unfolding get_sql row_to_record
    get scope key now t = elim (get_sql scope key now (others 0 t)) [
      | none ↦ (ok none, others 0 t)
      | some row ↦ (ok (some (row_to_record json row)), others 0 t)
    ]

    unfoldable pub purge : ℕ → M Table Text ℕ
    unfolding purge_sql purged
    purge now t = (ok (purged now (others 0 t)), purge_sql now (others 0 t))

    unfoldable pub physically_remove : Text → Text → Table → Table
    unfolding remove_sql
    physically_remove scope key t = remove_sql scope key (others 0 t)

    unfoldable pub d1_store : Store Table Text
    unfolding begin complete abandon get purge
    d1_store = record {
      begin = begin;
      complete = complete;
      abandon = abandon;
      get = get;
      purge = purge;
      max_result_bytes = none;
    }
