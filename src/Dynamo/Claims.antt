-- ===== src/Dynamo/Claims.antt =====
-- A claim in the DynamoDB store against the contract, while no other client writes and the endpoint returns the
-- old item of a refused write.
use anyonce.Prelude.{
  ℕ, ◌+◌, ◌/◌, Text, text_eq_refl, true, false, Option, none, some, ◌≡◌, ◌≢◌, refl, ap, ◌∙◌,
  Bool-cases, inl, inr, ok, Result, ◌⊎◌,
}
use anyonce.Types.{Operation, BeginOptions, BeginOutcome}
use anyonce.Contract.{Row, claim, Begins, claims_new}
use anyonce.Codec.{Json, RecordRow, row_to_record}
use anyonce.Sql.{begin_row, may_claim}
use anyonce.Sql.Rows.{Begins-of_may_claim}
use anyonce.D1.Refusals.{refused_by-Begins, refused_by-some}
use anyonce.Dict
use anyonce.Dict.Laws.{get-put}
use anyonce.Dynamo.{
  Item, Items, Error, item_key, item_to_row, old_fence, begin_update, begin_condition,
}
use anyonce.Dynamo.Items.{
  IsPlain, item_of, item_to_row-item_of, begin_condition-item_of, refused_begin_lem,
  begin_update-item_of,
}
use anyonce.Dynamo.Methods.{refused_begin, begin, begin_loop, begin_write}

abbrev pub nobody : ℕ → Items → Items
nobody n t = t

abbrev pub name : Operation → Text
name op = item_key op.scope op.key

abbrev pub entry : Operation → Items → Option Item
entry op t = Dict.get (name op) t

-- The item of an operation is the one that was written for some row of it, or there is none.
abbrev pub IsWritten : Operation → Option Item → Type 0
IsWritten op o =
    (o ≡ none)
    ⊎ ((r : RecordRow) × (ttl : ℕ) × (o ≡ some (item_of r ttl))
        × (r.scope ≡ op.scope)
        × (r.key ≡ op.key))

-- All other items are the same.
abbrev pub SameOthers : Operation → Items → Items → Type 0
SameOthers op t t' = (other : Text) → name op ≢ other → Dict.get other t' ≡ Dict.get other t

module _ (json : Json) where
  abbrev pub row_of : Option Item → Row
  row_of none = none
  row_of (some item) = some (row_to_record json (item_to_row item))

  -- The item of an operation, as a record.
  abbrev pub row : Operation → Items → Row
  row op t = row_of (entry op t)

  module _ (op : Operation) (plain : IsPlain op.scope) where
    pub row_of-item_of :
        (r : RecordRow) (ttl : ℕ)
        → r.scope ≡ op.scope
        → row_of (some (item_of r ttl)) ≡ some (row_to_record json r)
    row_of-item_of r ttl h =
        ap (λ x. some (row_to_record json x)) (item_to_row-item_of r ttl (rw h plain))

    pub get-put_self : (item : Item) (t : Items) → entry op (Dict.put (name op) item t) ≡ some item
    get-put_self item t = rw (get-put (name op) (name op) item t, text_eq_refl) refl

    module _ (opts : BeginOptions) where
      abbrev claim_row : ℕ → RecordRow
      claim_row fence =
          begin_row op.scope op.key op.fingerprint fence opts.now (opts.now + opts.lease_ms)
            (opts.now + opts.ttl_ms)

      -- The items after a claim.
      abbrev claimed : ℕ → Option Item → Items → Items
      claimed ttl old t =
          Dict.put (name op)
            (begin_update (name op) op.fingerprint opts.now (opts.now + opts.lease_ms)
              (opts.now + opts.ttl_ms) ttl old)
            t

      entry-claimed :
          (ttl fence : ℕ) (old : Option Item) (t : Items)
          → old_fence old + 1 ≡ fence
          → entry op (claimed ttl old t) ≡ some (item_of (claim_row fence) ttl)
      entry-claimed ttl fence old t h =
          get-put_self _ t ∙ ap some (begin_update-item_of op opts.now _ _ ttl fence old h)

      row-claimed :
          (ttl fence : ℕ) (old : Option Item) (t : Items)
          → old_fence old + 1 ≡ fence
          → row op (claimed ttl old t) ≡ some (claim op opts fence)
      unfolding row_to_record
      row-claimed ttl fence old t h =
          ap row_of (entry-claimed ttl fence old t h) ∙ row_of-item_of (claim_row fence) ttl refl

      IsWritten-claimed :
          (ttl fence : ℕ) (old : Option Item) (t : Items)
          → old_fence old + 1 ≡ fence
          → IsWritten op (entry op (claimed ttl old t))
      IsWritten-claimed ttl fence old t h =
          inr (claim_row fence, ttl, entry-claimed ttl fence old t h, refl, refl)

      -- A write that a claim refused is answered from the old item.
      refused-Begins :
          (r : RecordRow) (ttl : ℕ)
          → r.scope ≡ op.scope
          → may_claim op.fingerprint opts.now r ≡ false
          → (out : BeginOutcome) × (refused_begin json (item_to_row (item_of r ttl)) op opts
              ≡ some out)
            × Begins op opts (row_of (some (item_of r ttl))) out (row_of (some (item_of r ttl)))
      refused-Begins r ttl hs lost =
          let (out, e) = refused_by-some json op opts r lost in
          (
            out,
            rw (item_to_row-item_of r ttl (rw hs plain), refused_begin_lem json r op opts) e,
            rw (row_of-item_of r ttl hs) (refused_by-Begins json op opts (some r) out e),
          )

    module _ (grace : ℕ) (wall : ℕ → ℕ) where
      begin_write-won :
          (opts : BeginOptions) (item : Item) (t : Items)
          → begin_condition op.fingerprint opts.now (some item) ≡ true
          → begin_write json grace true nobody wall op opts 0 (some item) t ≡ (
            ok (some (BeginOutcome.acquired (old_fence (some item) + 1))),
            claimed opts ((wall 0 + opts.ttl_ms + grace) / 1000) (some item) t,
          )
      unfolding begin_write
      begin_write-won opts item t won = rw won refl

      begin_write-lost :
          (opts : BeginOptions) (item : Item) (t : Items)
          → begin_condition op.fingerprint opts.now (some item) ≡ false
          → begin_write json grace true nobody wall op opts 0 (some item) t
            ≡ (ok (refused_begin json (item_to_row item) op opts), t)
      unfolding begin_write
      begin_write-lost opts item t lost = rw lost refl

      -- The answer that a conditional write gives, what it does to the row, and what it leaves written.
      abbrev Settles : BeginOptions → Row → Result Error (Option BeginOutcome) × Items → Type 0
      Settles opts before turn =
          (out : BeginOutcome) × (turn.0 ≡ ok (some out))
          × Begins op opts before out (row op turn.1)
          × IsWritten op (entry op turn.1)

      begin_write-new :
          (opts : BeginOptions) (t : Items)
          → Settles opts none (begin_write json grace true nobody wall op opts 0 none t)
      unfolding begin_write
      begin_write-new opts t = (
        BeginOutcome.acquired 1,
        refl,
        claims_new refl refl (row-claimed opts _ 1 none t refl),
        IsWritten-claimed opts _ 1 none t refl,
      )

      begin_write-old :
          (opts : BeginOptions) (r : RecordRow) (ttl : ℕ) (t : Items)
          → entry op t ≡ some (item_of r ttl)
          → r.scope ≡ op.scope
          → r.key ≡ op.key
          → Settles opts
              (row_of (some (item_of r ttl)))
              (begin_write json grace true nobody wall op opts 0 (some (item_of r ttl)) t)
      begin_write-old opts r ttl t e hs hk =
          elim (Bool-cases (may_claim op.fingerprint opts.now r)) [
            | inl won ↦
                rw
                  (begin_write-won opts (item_of r ttl) t
                    (begin_condition-item_of op.fingerprint opts.now ttl r ∙ won))
                  (
                    BeginOutcome.acquired (r.fence + 1),
                    refl,
                    rw (row_of-item_of r ttl hs) (
                        Begins-of_may_claim json op opts r _ won
                          (row-claimed opts _ (r.fence + 1) (some (item_of r ttl)) t refl)),
                    IsWritten-claimed opts _ (r.fence + 1) (some (item_of r ttl)) t refl,
                  )
            | inr lost ↦
                let (out, settled, fits) = refused-Begins opts r ttl hs lost in
                rw
                  (begin_write-lost opts (item_of r ttl) t
                    (begin_condition-item_of op.fingerprint opts.now ttl r ∙ lost))
                  (out, ap ok settled, rw e fits, rw e (inr (r, ttl, refl, hs, hk)))
          ]

      begin_write-Settles :
          (opts : BeginOptions) (o : Option Item) (t : Items)
          → entry op t ≡ o
          → IsWritten op o
          → Settles opts (row_of o) (begin_write json grace true nobody wall op opts 0 o t)
      begin_write-Settles opts o t e (inl absent) = rw absent (begin_write-new opts t)
      begin_write-Settles opts o t e (inr (r, ttl, same, hs, hk)) =
          rw same (begin_write-old opts r ttl t (e ∙ same) hs hk)

      pub begin-Begins :
          (opts : BeginOptions) (t : Items)
          → IsWritten op (entry op t)
          → (out : BeginOutcome) × ((begin json grace true nobody wall op opts t).0 ≡ ok out)
            × Begins op opts (row op t) out (row op (begin json grace true nobody wall op opts t).1)
            × IsWritten op (entry op (begin json grace true nobody wall op opts t).1)
      unfolding begin begin_loop
      begin-Begins opts t h =
          let (out, settled, fits, written) = begin_write-Settles opts (entry op t) t refl h in
          rw (begin_loop, settled) (out, refl, fits, written)
