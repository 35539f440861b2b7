-- ===== src/Dynamo/Completions.antt =====
-- A completion in DynamoDB against the contract, on items that the store wrote.
use anyonce.Prelude.{
  ℕ, true, false, Option, some, ◌≡◌, refl, sym, ap, ◌∙◌, arith, Bool-cases, inl, inr, ltb, ◌≤◌, ok,
}
use anyonce.Types.{Operation, CompleteStatus, Payload}
use anyonce.Contract.{Row, Completes, payload_size}
use anyonce.Codec.{Json, RecordRow}
use anyonce.Codec.Laws.{complete_row, row_to_record-complete_row}
use anyonce.Sql.{may_complete}
use anyonce.Sql.Rows.{Completes-of_may_complete}
use anyonce.D1.Refusals.{missed_by-Completes}
use anyonce.Dict
use anyonce.Dynamo.{Item, Items}
use anyonce.Dynamo.Items.{
  IsPlain, item_of, item_to_row-item_of, complete_condition-item_of, refused_complete_lem,
  complete_update-item_of,
}
use anyonce.Dynamo.Methods.{complete, complete_write}
use anyonce.Dynamo.Claims.{
  nobody, name, entry, IsWritten, row_of, row, row_of-item_of, get-put_self,
}

module _ (json : Json) (op : Operation) (plain : IsPlain op.scope) (grace : ℕ) (wall : ℕ → ℕ) where
  -- What a conditional write of `complete` answers, does to the row and leaves written.
  abbrev Finishes : ℕ → Payload → ℕ → Row → CompleteStatus × Items → Type 0
  Finishes fence result now before turn =
      Completes fence result now before turn.0 (row json op turn.1) × IsWritten op (entry op turn.1)

  complete_write-old :
      (fence : ℕ) (result : Payload) (now : ℕ) (r : RecordRow) (ttl : ℕ) (t : Items)
      → entry op t ≡ some (item_of r ttl)
      → r.scope ≡ op.scope
      → r.key ≡ op.key
      → Finishes fence result now
          (row_of json (some (item_of r ttl)))
          (complete_write json grace true nobody wall op fence result now (some (item_of r ttl)) t)
  unfolding complete_write
  complete_write-old fence result now r ttl t e hs hk =
      elim (Bool-cases (may_complete fence now r)) [
        | inl won ↦
            let stands : entry op (Dict.put (name op) (item_of (complete_row json r result) ttl) t)
                ≡ some (item_of (complete_row json r result) ttl) =
              get-put_self json op plain _ t in
            rw
              (
                complete_condition-item_of fence now ttl r,
                won,
                complete_update-item_of json r ttl result,
                row_of-item_of json op plain r ttl hs,
              )
              (
                Completes-of_may_complete json r fence result now won (
                    ap (row_of json) stands
                    ∙ row_of-item_of json op plain (complete_row json r result) ttl hs
                    ∙ ap some (row_to_record-complete_row json r result)),
                inr (complete_row json r result, ttl, stands, hs, hk),
              )
        | inr lost ↦
            let missed =
              missed_by-Completes json fence result now (some r)
                (λ r' e'. let same : r ≡ r' = cc e' in rw (sym same) lost) in
            rw
              (
                complete_condition-item_of fence now ttl r,
                lost,
                item_to_row-item_of r ttl (rw hs plain),
                refused_complete_lem json r fence now,
              )
              (
                rw (e, row_of-item_of json op plain r ttl hs) missed,
                rw e (inr (r, ttl, refl, hs, hk)),
              )
      ]

  complete_write-Finishes :
      (fence : ℕ) (result : Payload) (now : ℕ) (o : Option Item) (t : Items)
      → entry op t ≡ o
      → IsWritten op o
      → Finishes fence result now
          (row_of json o)
          (complete_write json grace true nobody wall op fence result now o t)
  unfolding complete_write
  complete_write-Finishes fence result now o t e (inl absent) =
      rw absent (Completes.misses refl refl (ap (row_of json) (e ∙ absent)), inl (e ∙ absent))
  complete_write-Finishes fence result now o t e (inr (r, ttl, same, hs, hk)) =
      rw same (complete_write-old fence result now r ttl t (e ∙ same) hs hk)

  pub complete-fits :
      (fence : ℕ) (result : Payload) (now : ℕ) (t : Items)
      → payload_size result ≤ 307200
      → complete json grace true nobody wall op fence result now t ≡ (
        ok (complete_write json grace true nobody wall op fence result now (entry op t) t).0,
        (complete_write json grace true nobody wall op fence result now (entry op t) t).1,
      )
  unfolding complete
  complete-fits fence result now t small =
      let fits : ltb 307200 (payload_size result) ≡ false = ground arith in rw fits refl

  pub complete-Completes :
      (fence : ℕ) (result : Payload) (now : ℕ) (t : Items)
      → payload_size result ≤ 307200
      → IsWritten op (entry op t)
      → (out : CompleteStatus) × ((complete json grace true nobody wall op fence result now t).0
          ≡ ok out)
        × Completes fence result now
            (row json op t)
            out
            (row json op (complete json grace true nobody wall op fence result now t).1)
        × IsWritten op (entry op (complete json grace true nobody wall op fence result now t).1)
  complete-Completes fence result now t small h =
      let (fits, written) = complete_write-Finishes fence result now (entry op t) t refl h in
      rw (complete-fits fence result now t small) (_, refl, fits, written)
