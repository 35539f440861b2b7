-- ===== src/D1/Races.antt =====
-- A claim on D1 while other connections write between its statements.
use anyonce.Prelude.{
  ℕ, zero, suc, ◌<◌, none, some, Option-cases, ◌≡◌, refl, sym, ◌∙◌, ◌*◌, arith, ok, inl, inr,
}
use anyonce.Types.{Operation, BeginOptions, BeginOutcome}
use anyonce.Contract.{Begins}
use anyonce.Codec.{Json}
use anyonce.Sql.{Table, select_sql}
use anyonce.Sql.Rows.{row, claim_sql, begin_sql-Begins, begin_sql-none}
use anyonce.D1.{begin, begin_loop, begin_turn, refused_by}
use anyonce.D1.Refusals.{refused_by-Begins}

-- The table that a statement finds, `k` statements after the n-th, if none of the earlier ones writes.
abbrev pub found : (ℕ → Table → Table) → ℕ → ℕ → Table → Table
found others n zero t = others n t
found others n (suc k) t = found others (suc n) k (others n t)

module _ (json : Json) (others : ℕ → Table → Table) (op : Operation) (opts : BeginOptions) where
  -- A turn that settles does so on what one of its two statements found.
  begin_turn-Begins :
      (n : ℕ) (t : Table) (out : BeginOutcome)
      → (begin_turn json others op opts n t).0 ≡ some out
      → (k : ℕ) × (k < 2)
        × Begins op opts
            (row json op (found others n k t))
            out
            (row json op (begin_turn json others op opts n t).1)
  unfolding begin_turn
  begin_turn-Begins n t out h = elim (Option-cases (claim_sql json op opts (others n t)).0) [
    | inl lost ↦
        let same = (begin_sql-none json op opts (others n t) lost).0 in
        let answer : refused_by json (select_sql op.scope op.key (others (suc n) (others n t))) op
              opts
            ≡ some out =
          sym (rw (begin_turn, lost, same) refl) ∙ h in
        (1, ground arith, rw (begin_turn, lost, same) (refused_by-Begins json op opts _ out answer))
    | inr (fence, won) ↦
        let same : BeginOutcome.acquired fence ≡ out = cc (rw (begin_turn, won) at h) in
        (
          0,
          ground arith,
          rw (sym same, begin_turn, won) (begin_sql-Begins json op opts (others n t) fence won),
        )
  ]

  -- One that does not writes nothing.
  begin_turn-none :
      (n : ℕ) (t : Table)
      → (begin_turn json others op opts n t).0 ≡ none
      → (begin_turn json others op opts n t).1 ≡ found others n 1 t
  unfolding begin_turn
  begin_turn-none n t h = elim (Option-cases (claim_sql json op opts (others n t)).0) [
    | inl lost ↦
        let same = (begin_sql-none json op opts (others n t) lost).0 in
        rw (begin_turn, lost, same) refl
    | inr (fence, won) ↦ cc (rw (begin_turn, won) at h)
  ]

  begin_loop-Begins :
      (left n : ℕ) (t : Table) (out : BeginOutcome)
      → (begin_loop json others op opts left n t).0 ≡ ok out
      → (k : ℕ) × (k < 2 * left)
        × Begins op opts
            (row json op (found others n k t))
            out
            (row json op (begin_loop json others op opts left n t).1)
  unfolding begin_loop
  begin_loop-Begins zero n t out h = cc
  begin_loop-Begins (suc left) n t out h =
      elim (Option-cases (begin_turn json others op opts n t).0) [
        | inl again ↦
            let same = begin_turn-none n t again in
            let rest : (begin_loop json others op opts left (suc (suc n)) (found others n 1 t)).0
                ≡ ok out =
              sym (rw (begin_loop, again, same) refl) ∙ h in
            let (k, bound, begins) =
              begin_loop-Begins left (suc (suc n)) (found others n 1 t) out rest in
            (suc (suc k), omega arith, rw (begin_loop, again, same) begins)
        | inr (out', settled) ↦
            let same : out' ≡ out = cc (rw (begin_loop, settled) at h) in
            let (k, bound, begins) = begin_turn-Begins n t out' settled in
            (k, omega arith, rw (sym same, begin_loop, settled) begins)
      ]

  -- Whatever the other connections do, an answer of `begin` is what the contract allows for the row that one of
  -- its at most six statements found, and the row it leaves is the one the contract then wants.
  pub begin-Begins_at_once :
      (t : Table) (out : BeginOutcome)
      → (begin json others op opts t).0 ≡ ok out
      → (k : ℕ) × (k < 6)
        × Begins op opts
            (row json op (found others 0 k t))
            out
            (row json op (begin json others op opts t).1)
  unfolding begin
  begin-Begins_at_once t out h = begin_loop-Begins 3 0 t out h
