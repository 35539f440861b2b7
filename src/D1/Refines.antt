-- ===== src/D1/Refines.antt =====
-- The D1 store while no other connection writes between the statements of a call.
use anyonce.Prelude.{ℕ, none, some, Option-cases, ◌≡◌, refl, Option, ok, inl, inr}
use anyonce.Types.{
  Operation, BeginOptions, BeginOutcome, CompleteStatus, Payload, IdempotencyRecord,
}
use anyonce.Contract.{Begins, Completes, Abandons, Gets, KeepsContract}
use anyonce.Codec.{Json}
use anyonce.Sql.{Table, select_sql, abandon_sql, get_sql}
use anyonce.Sql.Rows.{
  row, record_of, claim_sql, store_sql, begin_sql-Begins, begin_sql-none, abandon_sql-Abandons,
  abandon_sql-none, get_sql-Gets,
}
use anyonce.Sql.Completions.{complete_sql-Completes, complete_sql-none}
use anyonce.D1.{
  begin, begin_loop, begin_turn, complete, abandon, get, d1_store, refused_by, missed_by, kept_by,
}
use anyonce.D1.Refusals.{refused_by-Begins, refused_by-some, missed_by-Completes, kept_by-Abandons}

abbrev pub nobody : ℕ → Table → Table
nobody n t = t

module _ (json : Json) (op : Operation) where
  -- The first turn of `begin` settles it.
  pub begin_turn-some :
      (opts : BeginOptions) (t : Table)
      → (out : BeginOutcome) × ((begin_turn json nobody op opts 0 t).0 ≡ some out)
        × Begins op opts (row json op t) out (row json op (begin_turn json nobody op opts 0 t).1)
  unfolding begin_turn
  begin_turn-some opts t = elim (Option-cases (claim_sql json op opts t).0) [
    | inl lost ↦
        let (same, r, at, denied) = begin_sql-none json op opts t lost in
        let (out, e) = refused_by-some json op opts r denied in
        let answer : refused_by json (select_sql op.scope op.key t) op opts ≡ some out = rw at e in
        (
          out,
          rw (begin_turn, lost, same) answer,
          rw (begin_turn, lost, same) (refused_by-Begins json op opts _ out answer),
        )
    | inr (fence, won) ↦ (
      BeginOutcome.acquired fence,
      rw (begin_turn, won) refl,
      rw (begin_turn, won) (begin_sql-Begins json op opts t fence won),
    )
  ]

  begin-Begins :
      (opts : BeginOptions) (t : Table)
      → (out : BeginOutcome) × ((begin json nobody op opts t).0 ≡ ok out)
        × Begins op opts (row json op t) out (row json op (begin json nobody op opts t).1)
  unfolding begin begin_loop
  begin-Begins opts t =
      let (out, e, b) = begin_turn-some opts t in
      (out, rw (begin_loop, e) refl, rw (begin_loop, e) b)

  complete-Completes :
      (fence : ℕ) (result : Payload) (now : ℕ) (t : Table)
      → (out : CompleteStatus) × ((complete json nobody op fence result now t).0 ≡ ok out)
        × Completes fence result now
            (row json op t)
            out
            (row json op (complete json nobody op fence result now t).1)
  unfolding complete
  complete-Completes fence result now t =
      elim (Option-cases (store_sql json op fence result now t).0) [
        | inl lost ↦
            let (same, denied) = complete_sql-none json op fence result now t lost in
            (
              missed_by json (select_sql op.scope op.key t) fence now,
              rw (complete, lost, same) refl,
              rw (complete, lost, same) (missed_by-Completes json fence result now _ denied),
            )
        | inr (written, won) ↦ (
          CompleteStatus.ok,
          rw (complete, won) refl,
          rw (complete, won) (complete_sql-Completes json op fence result now t written won),
        )
      ]

  abandon-Abandons :
      (fence : ℕ) (t : Table)
      → (out : CompleteStatus) × ((abandon json nobody op fence t).0 ≡ ok out)
        × Abandons fence (row json op t) out (row json op (abandon json nobody op fence t).1)
  unfolding abandon
  abandon-Abandons fence t = elim (Option-cases (abandon_sql op.scope op.key fence t).0) [
    | inl lost ↦
        let (same, denied) = abandon_sql-none json op fence t lost in
        (
          kept_by json (select_sql op.scope op.key t) fence,
          rw (abandon, lost, same) refl,
          rw (abandon, lost, same) (kept_by-Abandons json fence _ denied),
        )
    | inr (deleted, won) ↦ (
      CompleteStatus.ok,
      rw (abandon, won) refl,
      rw (abandon, won) (abandon_sql-Abandons json op fence t deleted won),
    )
  ]

  -- While no other connection writes, `D1Store.get` answers what the contract says and changes nothing.
  pub get-Gets :
      (now : ℕ) (t : Table)
      → (out : Option IdempotencyRecord) × (get json nobody op.scope op.key now t ≡ (ok out, t))
        × Gets now (row json op t) out
  unfolding get
  get-Gets now t = elim (Option-cases (get_sql op.scope op.key now t)) [
    | inl e ↦ let gets = get_sql-Gets json op now t in (none, rw (get, e) refl, rw e at gets)
    | inr (r, e) ↦
        let gets = get_sql-Gets json op now t in
        (record_of json (some r), rw (get, e) refl, rw e at gets)
  ]

  -- While no other connection writes between its statements, `D1Store` keeps the contract: every call answers,
  -- none throws, and each does to the row of the operation what the contract says. JSON text parses back to what
  -- was written.
  pub d1_store-KeepsContract : KeepsContract (d1_store json nobody) op (row json op) (λ _. Unit)
  unfolding d1_store
  d1_store-KeepsContract = record {
    begins = λ opts t _. let (out, e, b) = begin-Begins opts t in (out, e, b, tt);
    completes = λ fence result now t _ _.
        let (out, e, c) = complete-Completes fence result now t in (out, e, c, tt);
    abandons = λ fence t _. let (out, e, a) = abandon-Abandons fence t in (out, e, a, tt);
    gets = λ now t _. get-Gets now t;
  }
