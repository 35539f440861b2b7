-- ===== src/Sql/Rows.antt =====
-- The statements as the stores bind them, as what each does to the row of an operation.
use anyonce.Prelude.{
  ℕ, ◌+◌, text_eq_iff, true, false, none, some, ◌≡◌, refl, sym, arith, Bool-cases, ltb, leb, Option,
  inl, inr,
}
use anyonce.Types.{Operation, BeginOptions, BeginOutcome, CompleteStatus, Payload}
use anyonce.Contract.{
  Row, claim, Begins, claims_new, claims_expired, takes_over, Completes, Abandons, Gets, finished,
}
use anyonce.Codec.{Json, RecordRow, row_to_record, encode_result_meta, body_of, flag_of}
use anyonce.Sql.{
  Table, select_sql, write, begin_row, begin_sql, begin_sql_at, may_claim, complete_sql,
  may_complete, abandon_sql, abandon_sql_at, may_abandon, get_sql, get_sql_at,
}
use anyonce.Sql.Laws.{select-write_self, select-remove_self}

module _ (json : Json) where
  abbrev pub record_of : Option RecordRow → Row
  record_of none = none
  record_of (some row) = some (row_to_record json row)

  -- The row of an operation in the table, as a record.
  abbrev pub row : Operation → Table → Row
  row op t = record_of (select_sql op.scope op.key t)

  abbrev pub claim_sql : Operation → BeginOptions → Table → Option ℕ × Table
  claim_sql op opts t =
      begin_sql op.scope op.key op.fingerprint opts.now (opts.now + opts.lease_ms)
        (opts.now + opts.ttl_ms) t

  claim_at : Operation → BeginOptions → Option RecordRow → Table → Option ℕ × Table
  unfolding begin_sql_at
  claim_at op opts o t =
      begin_sql_at o op.scope op.key op.fingerprint opts.now (opts.now + opts.lease_ms)
        (opts.now + opts.ttl_ms) t

  pub row-write :
      (op : Operation) (r : RecordRow) (t : Table)
      → r.scope ≡ op.scope
      → r.key ≡ op.key
      → row op (write r t) ≡ some (row_to_record json r)
  row-write op r t hs hk = rw (select-write_self op.scope op.key r t hs hk)

  row-claim :
      (op : Operation) (opts : BeginOptions) (fence : ℕ) (t : Table)
      → row op (
          write
            (begin_row op.scope op.key op.fingerprint fence opts.now
              (opts.now + opts.lease_ms)
              (opts.now + opts.ttl_ms))
            t)
        ≡ some (claim op opts fence)
  unfolding row_to_record
  row-claim op opts fence t = row-write op _ t refl refl

  pub Begins-of_may_claim :
      (op : Operation) (opts : BeginOptions) (r : RecordRow) (row' : Row)
      → may_claim op.fingerprint opts.now r ≡ true
      → row' ≡ some (claim op opts (r.fence + 1))
      → Begins op opts (some (row_to_record json r)) (BeginOutcome.acquired (r.fence + 1)) row'
  unfolding may_claim row_to_record
  Begins-of_may_claim op opts r row' h e = elim (Bool-cases (leb r.expires_at opts.now)) [
    | inl gone ↦ claims_expired (row_to_record json r) refl (ground arith) refl e
    | inr live ↦
        takes_over (row_to_record json r) refl (ground arith)
          (ground (arith, text_eq_iff r.fingerprint op.fingerprint)) (ground arith) (ground arith)
          refl e
  ]

  claim_at-Begins :
      (op : Operation) (opts : BeginOptions) (o : Option RecordRow) (t : Table) (fence : ℕ)
      → (claim_at op opts o t).0 ≡ some fence
      → Begins op opts (record_of o) (BeginOutcome.acquired fence) (row op (claim_at op opts o t).1)
  unfolding claim_at begin_sql_at
  claim_at-Begins op opts none t fence h =
      let one : 1 ≡ fence = cc h in rw (sym one) (claims_new refl refl (row-claim op opts 1 t))
  claim_at-Begins op opts (some r) t fence h =
      elim (Bool-cases (may_claim op.fingerprint opts.now r)) [
        | inl won ↦
            let same : r.fence + 1 ≡ fence = ground arith in
            rw (sym same, won)
              (Begins-of_may_claim op opts r _ won (row-claim op opts (r.fence + 1) t))
        | inr lost ↦ absurd (ground arith)
      ]

  claim_at-none :
      (op : Operation) (opts : BeginOptions) (o : Option RecordRow) (t : Table)
      → (claim_at op opts o t).0 ≡ none
      → ((claim_at op opts o t).1 ≡ t)
        × (r : RecordRow) × (o ≡ some r)
        × (may_claim op.fingerprint opts.now r ≡ false)
  unfolding claim_at begin_sql_at
  claim_at-none op opts none t h = cc
  claim_at-none op opts (some r) t h = elim (Bool-cases (may_claim op.fingerprint opts.now r)) [
    | inl won ↦ absurd (ground arith)
    | inr lost ↦ (rw lost refl, r, refl, lost)
  ]

  pub Completes-of_may_complete :
      (r : RecordRow) (fence : ℕ) (result : Payload) (now : ℕ) {row' : Row}
      → may_complete fence now r ≡ true
      → row' ≡ some (finished (row_to_record json r) result)
      → Completes fence result now (some (row_to_record json r)) CompleteStatus.ok row'
  unfolding may_complete row_to_record
  Completes-of_may_complete r fence result now h e =
      Completes.finishes (row_to_record json r) refl (ground arith) (ground arith) (ground arith)
        refl e

  abbrev pub store_sql : Operation → ℕ → Payload → ℕ → Table → Option ℕ × Table
  store_sql op fence result now t =
      complete_sql op.scope op.key fence now (encode_result_meta json result) (body_of result)
        (flag_of result) t

  abandon_at-Abandons :
      (op : Operation) (fence : ℕ) (o : Option RecordRow) (t : Table) (deleted : ℕ)
      → (abandon_sql_at o op.scope op.key fence t).0 ≡ some deleted
      → Abandons fence
          (record_of o)
          CompleteStatus.ok
          (row op (abandon_sql_at o op.scope op.key fence t).1)
  unfolding abandon_sql_at may_abandon row_to_record
  abandon_at-Abandons op fence none t deleted h = cc
  abandon_at-Abandons op fence (some r) t deleted h = elim (Bool-cases (may_abandon fence r)) [
    | inl won ↦
        rw (won, select-remove_self op.scope op.key t)
          (Abandons.releases (row_to_record json r) refl (ground arith) (ground arith) refl refl)
    | inr lost ↦ absurd (ground arith)
  ]

  pub abandon_sql-Abandons :
      (op : Operation) (fence : ℕ) (t : Table) (deleted : ℕ)
      → (abandon_sql op.scope op.key fence t).0 ≡ some deleted
      → Abandons fence (row op t) CompleteStatus.ok (row op (abandon_sql op.scope op.key fence t).1)
  unfolding abandon_sql
  abandon_sql-Abandons op fence t deleted h =
      abandon_at-Abandons op fence (select_sql op.scope op.key t) t deleted h

  abandon_at-none :
      (op : Operation) (fence : ℕ) (o : Option RecordRow) (t : Table)
      → (abandon_sql_at o op.scope op.key fence t).0 ≡ none
      → ((abandon_sql_at o op.scope op.key fence t).1 ≡ t)
        × ((r : RecordRow) → o ≡ some r → may_abandon fence r ≡ false)
  unfolding abandon_sql_at
  abandon_at-none op fence none t h = (refl, λ r e. cc e)
  abandon_at-none op fence (some r) t h = elim (Bool-cases (may_abandon fence r)) [
    | inl won ↦ absurd (ground arith)
    | inr lost ↦ (rw lost refl, λ r' e. let same : r ≡ r' = cc e in rw (sym same) lost)
  ]

  pub abandon_sql-none :
      (op : Operation) (fence : ℕ) (t : Table)
      → (abandon_sql op.scope op.key fence t).0 ≡ none
      → ((abandon_sql op.scope op.key fence t).1 ≡ t)
        × ((r : RecordRow) → select_sql op.scope op.key t ≡ some r → may_abandon fence r ≡ false)
  unfolding abandon_sql
  abandon_sql-none op fence t h = abandon_at-none op fence (select_sql op.scope op.key t) t h

  pub begin_sql-Begins :
      (op : Operation) (opts : BeginOptions) (t : Table) (fence : ℕ)
      → (claim_sql op opts t).0 ≡ some fence
      → Begins op opts (row op t) (BeginOutcome.acquired fence) (row op (claim_sql op opts t).1)
  unfolding begin_sql
  begin_sql-Begins op opts t fence h =
      unfold claim_at in claim_at-Begins op opts (select_sql op.scope op.key t) t fence h

  pub begin_sql-none :
      (op : Operation) (opts : BeginOptions) (t : Table)
      → (claim_sql op opts t).0 ≡ none
      → ((claim_sql op opts t).1 ≡ t)
        × (r : RecordRow) × (select_sql op.scope op.key t ≡ some r)
        × (may_claim op.fingerprint opts.now r ≡ false)
  unfolding begin_sql
  begin_sql-none op opts t h =
      unfold claim_at in claim_at-none op opts (select_sql op.scope op.key t) t h

  get_at-Gets :
      (now : ℕ) (o : Option RecordRow) → Gets now (record_of o) (record_of (get_sql_at now o))
  unfolding get_sql_at row_to_record
  get_at-Gets now none = Gets.misses refl refl
  get_at-Gets now (some r) = elim (Bool-cases (ltb now r.expires_at)) [
    | inl live ↦ rw live (Gets.finds (row_to_record json r) refl (ground arith) refl)
    | inr gone ↦ rw gone (Gets.expires (row_to_record json r) refl (ground arith) refl)
  ]

  pub get_sql-Gets :
      (op : Operation) (now : ℕ) (t : Table)
      → Gets now (row op t) (record_of (get_sql op.scope op.key now t))
  unfolding get_sql
  get_sql-Gets op now t = get_at-Gets now (select_sql op.scope op.key t)
