-- ===== src/Sql/Completions.antt =====
-- The statement of `complete` as the stores bind it, as what it does to the row of an operation.
use anyonce.Prelude.{
  ℕ, Text, Bytes, false, none, some, ◌≡◌, refl, sym, ap, ◌∙◌, arith, Bool-cases, Option, inl, inr,
}
use anyonce.Types.{Operation, CompleteStatus, Payload}
use anyonce.Contract.{Completes}
use anyonce.Codec.{Json, RecordRow, encode_result_meta, body_of, flag_of}
use anyonce.Codec.Laws.{complete_row, row_to_record-complete_row}
use anyonce.Sql.{Table, select_sql, complete_sql, complete_sql_at, may_complete}
use anyonce.Sql.Laws.{select-eq-some}
use anyonce.Sql.Rows.{record_of, row, row-write, store_sql, Completes-of_may_complete}

module _ (json : Json) where
  complete_at-Completes :
      (op : Operation) (fence : ℕ) (result : Payload) (now : ℕ) (o : Option RecordRow) (t : Table)
      (written : ℕ)
      → ((r : RecordRow) → o ≡ some r → (r.scope ≡ op.scope) × (r.key ≡ op.key))
      → (complete_sql_at o fence now
          (encode_result_meta json result)
          (body_of result)
          (flag_of result)
          t).0
        ≡ some written
      → Completes fence result now (record_of json o) CompleteStatus.ok (
          row json op
            (complete_sql_at o fence now
              (encode_result_meta json result)
              (body_of result)
              (flag_of result)
              t).1)
  unfolding complete_sql_at
  complete_at-Completes op fence result now none t written found h = cc
  complete_at-Completes op fence result now (some r) t written found h =
      elim (Bool-cases (may_complete fence now r)) [
        | inl won ↦
            let (hs, hk) = found r refl in
            rw won (
              Completes-of_may_complete json r fence result now won (
                row-write json op (complete_row json r result) t hs hk
                ∙ ap some (row_to_record-complete_row json r result)))
        | inr lost ↦ absurd (ground arith)
      ]

  -- A statement of `complete` that wrote a row did what the contract says.
  pub complete_sql-Completes :
      (op : Operation) (fence : ℕ) (result : Payload) (now : ℕ) (t : Table) (written : ℕ)
      → (store_sql json op fence result now t).0 ≡ some written
      → Completes fence result now
          (row json op t)
          CompleteStatus.ok
          (row json op (store_sql json op fence result now t).1)
  unfolding complete_sql
  complete_sql-Completes op fence result now t written h =
      complete_at-Completes op fence result now (select_sql op.scope op.key t) t written
        (select-eq-some op.scope op.key t) h

  complete_at-none :
      (fence now : ℕ) (meta : Text) (body : Option Bytes) (flag : ℕ) (o : Option RecordRow)
      (t : Table)
      → (complete_sql_at o fence now meta body flag t).0 ≡ none
      → ((complete_sql_at o fence now meta body flag t).1 ≡ t)
        × ((r : RecordRow) → o ≡ some r → may_complete fence now r ≡ false)
  unfolding complete_sql_at
  complete_at-none fence now meta body flag none t h = (refl, λ r e. cc e)
  complete_at-none fence now meta body flag (some r) t h =
      elim (Bool-cases (may_complete fence now r)) [
        | inl won ↦ absurd (ground arith)
        | inr lost ↦ (rw lost refl, λ r' e. let same : r ≡ r' = cc e in rw (sym same) lost)
      ]

  -- One that wrote none left the table as it was.
  pub complete_sql-none :
      (op : Operation) (fence : ℕ) (result : Payload) (now : ℕ) (t : Table)
      → (store_sql json op fence result now t).0 ≡ none
      → ((store_sql json op fence result now t).1 ≡ t)
        × ((r : RecordRow)
            → select_sql op.scope op.key t ≡ some r
            → may_complete fence now r ≡ false)
  unfolding complete_sql
  complete_sql-none op fence result now t h =
      complete_at-none fence now _ _ _ (select_sql op.scope op.key t) t h
