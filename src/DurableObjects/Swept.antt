-- ===== src/DurableObjects/Swept.antt =====
-- The invariant of the sweep table and the alarm.
use anyonce.Prelude.{
  ℕ, zero, suc, ◌+◌, ◌-◌, Text, none, Option-cases, List, [], ◌∷◌, sym, ◌∙◌, inl, inr, All, ◌<◌,
}
use anyonce.Types.{Operation, BeginOptions, Payload}
use anyonce.Codec.{Json, encode_result_meta, body_of, flag_of}
use anyonce.Sql.{Table, select_sql, abandon_sql}
use anyonce.Sql.Others.{
  SameOthers, begin_sql-SameOthers, complete_sql-SameOthers, abandon_sql-SameOthers,
  complete_sql-missing, abandon_sql-removed,
}
use anyonce.Sql.Rows.{claim_sql, store_sql, begin_sql-none, abandon_sql-none}
use anyonce.DurableObjects.{
  DurableObject, empty_object, SweepRow, begin_attempt, begin_loop, begin, complete, abandon, purge,
  physically_remove, alarm, remove_due, sweep_due, sweep_next, schedule_sweep, alarm_by,
}
use anyonce.DurableObjects.Sweeps.{
  same_or_Apart, is_listed-upsert_self, is_listed-upsert, is_listed-remove, AllCovered-remove,
  AllCovered-upsert, AllCovered-alarm_by, alarm_by-Covers, AllDue, AllDue-remove, AllDue-none,
  sweep_due-AllDue,
}
use anyonce.DurableObjects.Listed.{
  AllListed, IsSwept, physically_remove-IsSwept, alarm-IsSwept, purge-IsSwept,
}

-- A row is scheduled when its claim is written.
schedule_sweep-IsSwept :
    (date_now : ℕ) (scope key : Text) (expires_at now grace : ℕ) (t : Table) (o : DurableObject)
    → SameOthers scope key o.records t
    → IsSwept o
    → IsSwept (schedule_sweep date_now scope key expires_at now grace (record o { records = t }))
unfolding schedule_sweep
schedule_sweep-IsSwept date_now scope key expires_at now grace t o others (listed, covered) =
    let wall = date_now + (expires_at - now) + grace in
    (
      (λ scope' key' r at. elim (same_or_Apart scope key scope' key') [
        | inl (hs, hk) ↦ rw (sym hs, sym hk) (is_listed-upsert_self scope key wall o.sweep)
        | inr apart ↦
            is_listed-upsert scope key scope' key' wall o.sweep
              (listed scope' key' r (sym (others scope' key' apart) ∙ at))
      ]),
      AllCovered-upsert scope key (alarm_by wall o.alarm) wall o.sweep
          (alarm_by-Covers wall o.alarm) (AllCovered-alarm_by wall o.alarm o.sweep covered),
    )

module _ (json : Json) (op : Operation) where
  begin_attempt-IsSwept :
      (date_now : ℕ) (opts : BeginOptions) (grace : ℕ) (o : DurableObject)
      → IsSwept o
      → IsSwept (begin_attempt json date_now op opts grace o).1
  unfolding begin_attempt
  begin_attempt-IsSwept date_now opts grace o h =
      elim (Option-cases (claim_sql json op opts o.records).0) [
        | inl lost ↦
            let same = (begin_sql-none json op opts o.records lost).0 in
            rw (begin_attempt, lost, same) h
        | inr (fence, won) ↦
            rw (begin_attempt, won)
              (schedule_sweep-IsSwept date_now op.scope op.key (opts.now + opts.ttl_ms) opts.now
                grace _ o
                (begin_sql-SameOthers op.scope op.key op.fingerprint opts.now _ _ o.records) h)
      ]

  begin_loop-IsSwept :
      (date_now : ℕ) (opts : BeginOptions) (grace left : ℕ) (o : DurableObject)
      → IsSwept o
      → IsSwept (begin_loop json date_now op opts grace left o).1
  unfolding begin_loop
  begin_loop-IsSwept date_now opts grace zero o h = h
  begin_loop-IsSwept date_now opts grace (suc left) o h =
      let turn = begin_attempt json date_now op opts grace o in
      let h' = begin_attempt-IsSwept date_now opts grace o h in
      elim (Option-cases turn.0) [
        | inl again ↦ rw (begin_loop, again) (begin_loop-IsSwept date_now opts grace left turn.1 h')
        | inr (out, settled) ↦ rw (begin_loop, settled) h'
      ]

  complete-IsSwept :
      (fence : ℕ) (result : Payload) (now : ℕ) (o : DurableObject)
      → IsSwept o
      → IsSwept (complete json op fence result now o).1
  unfolding complete
  complete-IsSwept fence result now o (listed, covered) =
      let t = (store_sql json op fence result now o.records).1 in
      let listed' : AllListed t o.sweep = λ scope key r at.
        elim (same_or_Apart op.scope op.key scope key) [
          | inl (hs, hk) ↦ elim (Option-cases (select_sql op.scope op.key o.records)) [
            | inl e ↦
                let same =
                  complete_sql-missing op.scope op.key fence now (encode_result_meta json result)
                    (body_of result) (flag_of result) o.records e in
                absurd (cc (rw (sym hs, sym hk, same) at at))
            | inr (r', e) ↦ rw (sym hs, sym hk) (listed op.scope op.key r' e)
          ]
          | inr apart ↦ listed scope key r (
              sym
                (complete_sql-SameOthers op.scope op.key fence now _ _ _ o.records scope key apart)
              ∙ at)
        ] in
      elim (Option-cases (store_sql json op fence result now o.records).0) [
        | inl lost ↦ rw (complete, lost) (listed', covered)
        | inr (written, won) ↦ rw (complete, won) (listed', covered)
      ]

  abandon-IsSwept :
      (fence : ℕ) (o : DurableObject) → IsSwept o → IsSwept (abandon json op fence o).1
  unfolding abandon
  abandon-IsSwept fence o (listed, covered) =
      elim (Option-cases (abandon_sql op.scope op.key fence o.records).0) [
        | inl lost ↦
            let same = (abandon_sql-none json op fence o.records lost).0 in
            rw (abandon, lost, same) (listed, covered)
        | inr (deleted, won) ↦
            let gone = abandon_sql-removed op.scope op.key fence deleted o.records won in
            rw (abandon, won)
              (
                (λ scope key r at. elim (same_or_Apart op.scope op.key scope key) [
                  | inl (hs, hk) ↦ absurd (cc (rw (sym hs, sym hk, gone) at at))
                  | inr apart ↦ is_listed-remove op.scope op.key scope key o.sweep apart (
                      listed scope key r (
                        sym (abandon_sql-SameOthers op.scope op.key fence o.records scope key apart)
                        ∙ at))
                ]),
                AllCovered-remove op.scope op.key o.alarm o.sweep covered,
              )
      ]

-- One call of an object, or its alarm.
pub data Runs (json : Json) (o : DurableObject) : DurableObject → Type 0 where
  begins :
      (date_now : ℕ) (op : Operation) (opts : BeginOptions) (grace : ℕ)
      → Runs json o (begin json date_now op opts grace o).1
  completes :
      (op : Operation) (fence : ℕ) (result : Payload) (now : ℕ)
      → Runs json o (complete json op fence result now o).1
  abandons : (op : Operation) (fence : ℕ) → Runs json o (abandon json op fence o).1
  purges : (now : ℕ) → Runs json o (purge now o).1
  removes : (scope key : Text) → Runs json o (physically_remove scope key o)
  rings : (date_now : ℕ) → Runs json o (alarm date_now o)

-- What an object can become, from the empty one.
pub data Reaches (json : Json) : DurableObject → Type 0 where
  starts : Reaches json empty_object
  runs : {o o' : DurableObject} → Reaches json o → Runs json o o' → Reaches json o'

Runs-IsSwept : {json : Json} {o o' : DurableObject} → Runs json o o' → IsSwept o → IsSwept o'
unfolding begin
Runs-IsSwept {json} {o} (begins date_now op opts grace) h =
    begin_loop-IsSwept json op date_now opts grace 3 o h
Runs-IsSwept {json} {o} (completes op fence result now) h =
    complete-IsSwept json op fence result now o h
Runs-IsSwept {json} {o} (abandons op fence) h = abandon-IsSwept json op fence o h
Runs-IsSwept {o = o} (purges now) h = purge-IsSwept now o h
Runs-IsSwept {o = o} (removes scope key) h = physically_remove-IsSwept scope key o h
Runs-IsSwept {o = o} (rings date_now) h = alarm-IsSwept date_now o h.0

-- Whatever calls reach an object, in whatever order, and whenever its alarm runs: each record that it holds is
-- listed in the sweep table, and while any is listed the alarm is set, no later than any listed time.
pub Reaches-IsSwept : {json : Json} {o : DurableObject} → Reaches json o → IsSwept o
unfolding select_sql
Reaches-IsSwept starts = ((λ scope key r at. absurd (cc at)), tt)
Reaches-IsSwept (runs before call) = Runs-IsSwept call (Reaches-IsSwept before)

-- What is due is gone once it is removed.
remove_due-late :
    (wall : ℕ) (due : List SweepRow) (o : DurableObject)
    → AllDue wall due o.sweep
    → All (λ (s : SweepRow). wall < s.expires_wall) (remove_due due o).sweep
unfolding remove_due physically_remove
remove_due-late wall [] o h = AllDue-none wall o.sweep h
remove_due-late wall (s ∷ due) o h =
    remove_due-late wall due (physically_remove s.scope s.key o)
      (AllDue-remove wall s due o.sweep h)

-- When the alarm of an object runs, in whatever state calls have brought it to, then of the records that remain each
-- is listed for a time still to come, and while any is listed the alarm is set again, no later than any listed
-- time.
pub alarm-progress :
    {json : Json} {o : DurableObject}
    → Reaches json o
    → (wall : ℕ)
    → IsSwept (alarm wall o) × All (λ (s : SweepRow). wall < s.expires_wall) (alarm wall o).sweep
unfolding alarm
alarm-progress {o = o} reached wall =
    let o' = record o { alarm = none } in
    let due = sweep_due wall o.sweep in
    let late = remove_due-late wall due o' (sweep_due-AllDue wall o.sweep) in
    (
      alarm-IsSwept wall o (Reaches-IsSwept reached).0,
      elim (Option-cases (sweep_next (remove_due due o').sweep)) [
        | inl e ↦ rw (alarm, e) late
        | inr (at, e) ↦ rw (alarm, e) late
      ],
    )
