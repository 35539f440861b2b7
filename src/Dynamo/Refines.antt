-- ===== src/Dynamo/Refines.antt =====
-- The DynamoDB store against the contract, while no other client writes and the endpoint returns the old item.
use anyonce.Prelude.{
  ℕ, zero, suc, Result-cases, true, Option, none, some, ◌≡◌, refl, sym, ap, ◌∙◌, arith, Bool-cases,
  Option-cases, inl, inr, ltb,
}
use anyonce.Types.{Operation, BeginOptions, CompleteStatus, Payload}
use anyonce.Contract.{Row, Abandons, Gets, KeepsContract, Implements, payload_size, Store}
use anyonce.Codec.{Json, RecordRow, row_to_record}
use anyonce.Sql.{may_abandon}
use anyonce.D1.Refusals.{kept_by-Abandons}
use anyonce.Dict
use anyonce.Dict.Laws.{get-delete_self, get-put_ne, get-delete_ne}
use anyonce.Dynamo.{
  Item, Items, Error, item_to_row, begin_condition, complete_condition, abandon_condition,
}
use anyonce.Dynamo.Items.{
  IsPlain, item_of, item_to_row-item_of, abandon_condition-item_of, refused_abandon_lem,
}
use anyonce.Dynamo.Methods.{
  begin, begin_loop, begin_write, complete, complete_write, abandon, abandon_write, live_record,
  get, dynamo_store,
}
use anyonce.Dynamo.Claims.{
  nobody, name, entry, IsWritten, SameOthers, row_of, row, row_of-item_of, begin-Begins,
}
use anyonce.Dynamo.Completions.{complete-Completes}

module _ (json : Json) (op : Operation) (plain : IsPlain op.scope) (grace : ℕ) (wall : ℕ → ℕ) where
  -- What a conditional delete answers, does to the row and leaves written.
  abbrev Releases : ℕ → Row → CompleteStatus × Items → Type 0
  Releases fence before turn =
      Abandons fence before turn.0 (row json op turn.1) × IsWritten op (entry op turn.1)

  abandon_write-old :
      (fence : ℕ) (r : RecordRow) (ttl : ℕ) (t : Items)
      → entry op t ≡ some (item_of r ttl)
      → r.scope ≡ op.scope
      → r.key ≡ op.key
      → Releases fence
          (row_of json (some (item_of r ttl)))
          (abandon_write json grace true nobody wall op fence (some (item_of r ttl)) t)
  unfolding abandon_write
  abandon_write-old fence r ttl t e hs hk = elim (Bool-cases (may_abandon fence r)) [
    | inl won ↦
        let stands : entry op (Dict.delete (name op) t) ≡ none = get-delete_self (name op) t in
        rw (abandon_condition-item_of fence ttl r, won, row_of-item_of json op plain r ttl hs)
          (
            unfold may_abandon row_to_record in
                Abandons.releases (row_to_record json r) refl (ground arith) (ground arith) refl
                  (ap (row_of json) stands),
            inl stands,
          )
    | inr lost ↦
        let kept =
          kept_by-Abandons json fence (some r)
            (λ r' e'. let same : r ≡ r' = cc e' in rw (sym same) lost) in
        rw
          (
            abandon_condition-item_of fence ttl r,
            lost,
            item_to_row-item_of r ttl (rw hs plain),
            refused_abandon_lem json r fence,
          )
          (rw (e, row_of-item_of json op plain r ttl hs) kept, rw e (inr (r, ttl, refl, hs, hk)))
  ]

  abandon_write-Releases :
      (fence : ℕ) (o : Option Item) (t : Items)
      → entry op t ≡ o
      → IsWritten op o
      → Releases fence (row_of json o) (abandon_write json grace true nobody wall op fence o t)
  unfolding abandon_write
  abandon_write-Releases fence o t e (inl absent) =
      rw absent (Abandons.misses refl refl (ap (row_of json) (e ∙ absent)), inl (e ∙ absent))
  abandon_write-Releases fence o t e (inr (r, ttl, same, hs, hk)) =
      rw same (abandon_write-old fence r ttl t (e ∙ same) hs hk)

  live_record-Gets :
      (now : ℕ) (o : Option Item)
      → IsWritten op o
      → Gets now (row_of json o) (live_record json grace true nobody wall now o)
  unfolding live_record
  live_record-Gets now none h = Gets.misses refl refl
  live_record-Gets now (some item) h = elim (Bool-cases (ltb now (item_to_row item).expires_at)) [
    | inl live ↦ rw live (
        Gets.finds (row_to_record json (item_to_row item)) refl
          (unfold row_to_record in ground arith) refl)
    | inr gone ↦ rw gone (
        Gets.expires (row_to_record json (item_to_row item)) refl
          (unfold row_to_record in ground arith) refl)
  ]

  -- The store without other clients.
  abbrev quiet : Store Items Error
  quiet = dynamo_store json grace true nobody wall

  dynamo_store-KeepsContract : KeepsContract quiet op (row json op) (λ t. IsWritten op (entry op t))
  unfolding dynamo_store abandon get
  dynamo_store-KeepsContract = record {
    begins = begin-Begins json op plain grace wall;
    completes = (complete-Completes json op plain grace wall);
    abandons = λ fence t h.
        let (fits, written) = abandon_write-Releases fence (entry op t) t refl h in
        (_, refl, fits, written);
    gets = λ now t h. (_, refl, live_record-Gets now (entry op t) h);
  }

  -- No call touches the item of another key, whatever the items are.
  begin_write-SameOthers :
      (opts : BeginOptions) (n : ℕ) (o : Option Item) (t : Items)
      → SameOthers op t (begin_write json grace true nobody wall op opts n o t).1
  unfolding begin_write
  begin_write-SameOthers opts n none t other ne = get-put_ne (name op) t other _ ne
  begin_write-SameOthers opts n (some item) t other ne =
      elim (Bool-cases (begin_condition op.fingerprint opts.now (some item))) [
        | inl won ↦ rw won (get-put_ne (name op) t other _ ne)
        | inr lost ↦ rw lost refl
      ]

  begin_loop-SameOthers :
      (opts : BeginOptions) (left n : ℕ) (t : Items)
      → SameOthers op t (begin_loop json grace true nobody wall op opts left n t).1
  unfolding begin_loop
  begin_loop-SameOthers opts zero n t other ne = refl
  begin_loop-SameOthers opts (suc left) n t other ne =
      let turn = begin_write json grace true nobody wall op opts n (entry op t) t in
      let same = begin_write-SameOthers opts n (entry op t) t other ne in
      elim (Result-cases turn.0) [
        | inr (e, failed) ↦ rw (begin_loop, failed) same
        | inl (answer, came) ↦ elim (Option-cases answer) [
          | inl again ↦
              rw (begin_loop, came, again)
                (begin_loop-SameOthers opts left (suc n) turn.1 other ne ∙ same)
          | inr (out, settled) ↦ rw (begin_loop, came, settled) same
        ]
      ]

  complete_write-SameOthers :
      (fence : ℕ) (result : Payload) (now : ℕ) (o : Option Item) (t : Items)
      → SameOthers op t (complete_write json grace true nobody wall op fence result now o t).1
  unfolding complete_write
  complete_write-SameOthers fence result now none t other ne = refl
  complete_write-SameOthers fence result now (some item) t other ne =
      elim (Bool-cases (complete_condition fence now item)) [
        | inl won ↦ rw won (get-put_ne (name op) t other _ ne)
        | inr lost ↦ rw lost refl
      ]

  complete-SameOthers :
      (fence : ℕ) (result : Payload) (now : ℕ) (t : Items)
      → SameOthers op t (complete json grace true nobody wall op fence result now t).1
  unfolding complete
  complete-SameOthers fence result now t other ne =
      elim (Bool-cases (ltb 307200 (payload_size result))) [
        | inl large ↦ rw large refl
        | inr small ↦ rw small (complete_write-SameOthers fence result now (entry op t) t other ne)
      ]

  abandon_write-SameOthers :
      (fence : ℕ) (o : Option Item) (t : Items)
      → SameOthers op t (abandon_write json grace true nobody wall op fence o t).1
  unfolding abandon_write
  abandon_write-SameOthers fence none t other ne = refl
  abandon_write-SameOthers fence (some item) t other ne =
      elim (Bool-cases (abandon_condition fence item)) [
        | inl won ↦ rw won (get-delete_ne (name op) t other ne)
        | inr lost ↦ rw lost refl
      ]

  -- While no other client writes and the endpoint returns the old item of a refused write, `DynamoDbStore`
  -- implements the contract for an operation whose scope is free of the key separator, on items that the store
  -- wrote: every call answers, none throws if the body is within the limit that the store declares, each does to
  -- the row of the operation what the contract says and leaves the items of all other keys alone.
  pub dynamo_store-Implements :
      Implements
        (dynamo_store json grace true nobody wall)
        op
        (row json op)
        (λ t. IsWritten op (entry op t))
        (SameOthers op)
  unfolding dynamo_store begin abandon
  dynamo_store-Implements = (
    dynamo_store-KeepsContract,
    record {
      begins = λ opts t. begin_loop-SameOthers opts 3 0 t;
      completes = complete-SameOthers;
      abandons = λ fence t. abandon_write-SameOthers fence (entry op t) t;
    },
  )
