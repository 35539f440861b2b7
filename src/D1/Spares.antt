-- ===== src/D1/Spares.antt =====
-- A call of the D1 store and the rows of all other operations, while no other connection writes.
use anyonce.Prelude.{ℕ, Option-cases, inl, inr}
use anyonce.Types.{Operation, BeginOptions, Payload}
use anyonce.Contract.{Spares, Implements}
use anyonce.Codec.{Json, encode_result_meta, body_of, flag_of}
use anyonce.Sql.{Table, abandon_sql}
use anyonce.Sql.Rows.{row, claim_sql, store_sql}
use anyonce.Sql.Others.{
  SameOthers, begin_sql-SameOthers, complete_sql-SameOthers, abandon_sql-SameOthers,
}
use anyonce.D1.{begin, begin_loop, begin_turn, complete, abandon, d1_store}
use anyonce.D1.Refines.{nobody, begin_turn-some, d1_store-KeepsContract}

module _ (json : Json) (op : Operation) where
  begin_turn-SameOthers :
      (opts : BeginOptions) (t : Table)
      → SameOthers op.scope op.key t (begin_turn json nobody op opts 0 t).1
  unfolding begin_turn
  begin_turn-SameOthers opts t scope' key' apart =
      let same =
        begin_sql-SameOthers op.scope op.key op.fingerprint opts.now _ _ t scope' key' apart in
      elim (Option-cases (claim_sql json op opts t).0) [
        | inl lost ↦ rw (begin_turn, lost) same
        | inr (fence, won) ↦ rw (begin_turn, won) same
      ]

  begin-SameOthers :
      (opts : BeginOptions) (t : Table)
      → SameOthers op.scope op.key t (begin json nobody op opts t).1
  unfolding begin begin_loop
  begin-SameOthers opts t scope' key' apart =
      let (out, settled, _) = begin_turn-some json op opts t in
      rw (begin_loop, settled) (begin_turn-SameOthers opts t scope' key' apart)

  complete-SameOthers :
      (fence : ℕ) (result : Payload) (now : ℕ) (t : Table)
      → SameOthers op.scope op.key t (complete json nobody op fence result now t).1
  unfolding complete
  complete-SameOthers fence result now t scope' key' apart =
      let same =
        complete_sql-SameOthers op.scope op.key fence now (encode_result_meta json result)
          (body_of result) (flag_of result) t scope' key' apart in
      elim (Option-cases (store_sql json op fence result now t).0) [
        | inl lost ↦ rw (complete, lost) same
        | inr (written, won) ↦ rw (complete, won) same
      ]

  abandon-SameOthers :
      (fence : ℕ) (t : Table) → SameOthers op.scope op.key t (abandon json nobody op fence t).1
  unfolding abandon
  abandon-SameOthers fence t scope' key' apart =
      let same = abandon_sql-SameOthers op.scope op.key fence t scope' key' apart in
      elim (Option-cases (abandon_sql op.scope op.key fence t).0) [
        | inl lost ↦ rw (abandon, lost) same
        | inr (deleted, won) ↦ rw (abandon, won) same
      ]

  pub d1_store-Spares : Spares (d1_store json nobody) op (SameOthers op.scope op.key)
  unfolding d1_store
  d1_store-Spares = record {
    begins = begin-SameOthers;
    completes = complete-SameOthers;
    abandons = abandon-SameOthers;
  }

  -- While no other connection writes between its statements, `D1Store` implements the contract: every call
  -- answers, none throws, each does to the row of the operation what the contract says and leaves the rows of
  -- all other scopes and keys alone. JSON text parses back to what was written.
  pub d1_store-Implements :
      Implements (d1_store json nobody) op (row json op) (λ _. Unit) (SameOthers op.scope op.key)
  d1_store-Implements = (d1_store-KeepsContract json op, d1_store-Spares)
