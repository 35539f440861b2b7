-- ===== src/DurableObjects.antt =====
-- packages/stores/src/durable-objects.ts: the object that keeps one table with a sweep table and an alarm, and
-- in DurableObjects/Methods the store on the Worker's side. `wall` is what `Date.now()` reads. An object is one
-- writer, so no other call stands between the statements of one.
pub mod Methods
pub mod Same
pub mod Refines
pub mod Sweeps
pub mod Listed
pub mod Swept
pub mod Tests
use anyonce.Prelude.{
  ℕ, zero, suc, ◌+◌, ◌-◌, Text, codes, text_eq, Bool, true, false, not, ◌&&◌, Option, none, some,
  List, [], ◌∷◌, leb, ltb, if◌then◌else◌, ok, err, Result, M,
}
use anyonce.Types.{
  Operation, Payload, IdempotencyRecord, BeginOptions, BeginOutcome, CompleteStatus,
}
use anyonce.Codec.{Json, encode_result_meta, row_to_record, body_of, flag_of}
use anyonce.Sql.{
  Table, select_sql, begin_sql, complete_sql, abandon_sql, get_sql, purge_sql, purged, remove_sql,
}
use anyonce.D1.{refused_by, missed_by, kept_by}

-- A row of anyonce_sweep.
pub record SweepRow : Type 0 where
  pub scope : Text
  pub key : Text
  pub expires_wall : ℕ

pub record DurableObject : Type 0 where
  pub records : Table
  pub sweep : List SweepRow
  pub alarm : Option ℕ

-- An object before its first call.
abbrev pub empty_object : DurableObject
empty_object = record { records = []; sweep = []; alarm = none }

-- SWEEP_UPSERT_SQL
unfoldable pub sweep_upsert : Text → Text → ℕ → List SweepRow → List SweepRow
sweep_upsert scope key wall [] = (record { scope = scope; key = key; expires_wall = wall }) ∷ []
sweep_upsert scope key wall (s ∷ ss) =
    let rest = sweep_upsert scope key wall ss in
    if text_eq s.scope scope && text_eq s.key key
    then (record s { expires_wall = wall }) ∷ ss
    else s ∷ rest

-- SWEEP_REMOVE_SQL
unfoldable pub sweep_remove : Text → Text → List SweepRow → List SweepRow
sweep_remove scope key [] = []
sweep_remove scope key (s ∷ ss) =
    let rest = sweep_remove scope key ss in
    if text_eq s.scope scope && text_eq s.key key then rest else s ∷ rest

abbrev is_there : {A : Type 0} → Option A → Bool
is_there none = false
is_there (some x) = true

-- SWEEP_PRUNE_SQL
unfoldable pub sweep_prune : Table → List SweepRow → List SweepRow
sweep_prune t [] = []
sweep_prune t (s ∷ ss) =
    let rest = sweep_prune t ss in if is_there (select_sql s.scope s.key t) then s ∷ rest else rest

-- SWEEP_DUE_SQL
unfoldable pub sweep_due : ℕ → List SweepRow → List SweepRow
sweep_due wall [] = []
sweep_due wall (s ∷ ss) =
    let rest = sweep_due wall ss in if leb s.expires_wall wall then s ∷ rest else rest

abbrev pub sooner : ℕ → Option ℕ → Option ℕ
sooner n none = some n
sooner n (some m) = if leb n m then some n else some m

-- SWEEP_NEXT_SQL
unfoldable pub sweep_next : List SweepRow → Option ℕ
sweep_next [] = none
sweep_next (s ∷ ss) = sooner s.expires_wall (sweep_next ss)

-- The alarm after one is wanted at `wall`.
unfoldable pub alarm_by : ℕ → Option ℕ → Option ℕ
alarm_by wall none = some wall
alarm_by wall (some current) = if ltb wall current then some wall else some current

unfoldable pub schedule_sweep : ℕ → Text → Text → ℕ → ℕ → ℕ → DurableObject → DurableObject
unfolding sweep_upsert alarm_by
schedule_sweep date_now scope key expires_at now grace o =
    let wall = date_now + (expires_at - now) + grace in
    record o { sweep = sweep_upsert scope key wall o.sweep; alarm = alarm_by wall o.alarm }

abbrev unsettled : Text
unsettled = codes "anyonce: durable object begin could not settle after three attempts"

unfoldable pub physically_remove : Text → Text → DurableObject → DurableObject
unfolding remove_sql sweep_remove
physically_remove scope key o = record o {
  records = remove_sql scope key o.records;
  sweep = sweep_remove scope key o.sweep;
}

-- What the alarm deletes.
unfoldable pub remove_due : List SweepRow → DurableObject → DurableObject
unfolding physically_remove
remove_due [] o = o
remove_due (s ∷ ss) o = remove_due ss (physically_remove s.scope s.key o)

-- The alarm handler. The platform has cleared the alarm that runs.
unfoldable pub alarm : ℕ → DurableObject → DurableObject
unfolding remove_due sweep_due sweep_next
alarm wall o =
    let swept = remove_due (sweep_due wall o.sweep) (record o { alarm = none }) in
    elim (sweep_next swept.sweep) [ none ↦ swept | some at ↦ record swept { alarm = some at } ]

unfoldable pub purge : ℕ → M DurableObject Text ℕ
unfolding purged purge_sql sweep_prune
purge now o =
    let removed = purged now o.records in
    let left = purge_sql now o.records in
    let pruned = if ltb 0 removed then sweep_prune left o.sweep else o.sweep in
    (ok removed, record o { records = left; sweep = pruned })

module _ (json : Json) where
  module _ (date_now : ℕ) (op : Operation) (opts : BeginOptions) (grace : ℕ) where
    -- One turn of the loop: the upsert and its sweep time, or the row that refused it.
    unfoldable pub begin_attempt : DurableObject → Option BeginOutcome × DurableObject
    unfolding begin_sql schedule_sweep select_sql refused_by
    begin_attempt o =
        let claimed =
          begin_sql op.scope op.key op.fingerprint opts.now (opts.now + opts.lease_ms)
            (opts.now + opts.ttl_ms) o.records in
        let o' = record o { records = claimed.1 } in
        elim claimed.0 [
          | some fence ↦ (
            some (BeginOutcome.acquired fence),
            schedule_sweep date_now op.scope op.key (opts.now + opts.ttl_ms) opts.now grace o',
          )
          | none ↦ (refused_by json (select_sql op.scope op.key claimed.1) op opts, o')
        ]

    unfoldable pub begin_loop : ℕ → M DurableObject Text BeginOutcome
    unfolding begin_attempt
    begin_loop zero o = (err unsettled, o)
    begin_loop (suc left) o =
        let turn = begin_attempt o in
        elim turn.0 [ some out ↦ (ok out, turn.1) | none ↦ begin_loop left turn.1 ]

    unfoldable pub begin : M DurableObject Text BeginOutcome
    unfolding begin_loop
    begin = begin_loop 3

  unfoldable pub complete : Operation → ℕ → Payload → ℕ → M DurableObject Text CompleteStatus
  unfolding complete_sql select_sql encode_result_meta missed_by
  complete op fence result now o =
      let updated =
        complete_sql op.scope op.key fence now (encode_result_meta json result) (body_of result)
          (flag_of result) o.records in
      let o' = record o { records = updated.1 } in
      elim updated.0 [
        | some _ ↦ (ok CompleteStatus.ok, o')
        | none ↦ (ok (missed_by json (select_sql op.scope op.key updated.1) fence now), o')
      ]

  unfoldable pub get : Text → Text → ℕ → M DurableObject Text (Option IdempotencyRecord)
  unfolding get_sql row_to_record
  get scope key now o = elim (get_sql scope key now o.records) [
    | none ↦ (ok none, o)
    | some row ↦ (ok (some (row_to_record json row)), o)
  ]

  unfoldable pub abandon : Operation → ℕ → M DurableObject Text CompleteStatus
  unfolding abandon_sql sweep_remove select_sql kept_by
  abandon op fence o =
      let deleted = abandon_sql op.scope op.key fence o.records in
      let o' = record o { records = deleted.1 } in
      elim deleted.0 [
        | some _ ↦
            (ok CompleteStatus.ok, record o' { sweep = sweep_remove op.scope op.key o.sweep })
        | none ↦ (ok (kept_by json (select_sql op.scope op.key deleted.1) fence), o')
      ]
