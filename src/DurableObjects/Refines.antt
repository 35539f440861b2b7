-- ===== src/DurableObjects/Refines.antt =====
-- `DurableObjectsStore` against the contract.
use anyonce.Prelude.{
  ℕ, Text, text_eq, text_eq_refl, text_eq_iff, false, Bool-cases, ◌≡◌, refl, ap, ◌∙◌, fun_ext, ap₂,
  Option, Result, inl, inr, M,
}
use anyonce.Types.{Operation, BeginOutcome, CompleteStatus, IdempotencyRecord}
use anyonce.Contract.{Row, Begins, Completes, Abandons, Gets, KeepsContract, Spares, Implements}
use anyonce.Codec.{Json}
use anyonce.Sql.{Table, select_sql}
use anyonce.Sql.Laws.{Apart}
use anyonce.Sql.Rows.{row}
use anyonce.Sql.Others.{SameOthers}
use anyonce.D1
use anyonce.D1.Refines.{nobody, d1_store-KeepsContract}
use anyonce.D1.Spares.{d1_store-Spares}
use anyonce.DurableObjects
use anyonce.DurableObjects.{DurableObject}
use anyonce.DurableObjects.Same.{on_records, begin_lem, complete_lem, abandon_lem, get_lem}
use anyonce.DurableObjects.Methods.{
  DurableObjectsStoreOptions, Shard, Worker, by_name, stub, object_name, begin, complete, abandon,
  get, durable_objects_store,
}

module _ (shard : Shard) where
  -- The table of the object that owns a scope and key.
  abbrev pub records_of : Text → Text → Worker → Table
  records_of scope key w = (w.objects (object_name shard scope key)).records

  -- Every other scope and key has the same row, in whichever object.
  abbrev pub SameRows : Operation → Worker → Worker → Type 0
  SameRows op w w' =
      (scope key : Text)
      → Apart op.scope op.key scope key
      → select_sql scope key (records_of scope key w')
        ≡ select_sql scope key (records_of scope key w)

  module _ (op : Operation) {A : Type 0} (f : M DurableObject Text A) (w : Worker) where
    abbrev owner : DurableObject
    owner = w.objects (object_name shard op.scope op.key)

    abbrev called : Result Text A × Worker
    called = by_name (object_name shard op.scope op.key) f w

    called_lem :
        (called.0 ≡ (f owner).0) × (records_of op.scope op.key called.1 ≡ (f owner).1.records)
    unfolding by_name
    called_lem = (refl, rw (records_of, text_eq_refl (object_name shard op.scope op.key)) refl)

    called-SameRows :
        SameOthers op.scope op.key owner.records (f owner).1.records → SameRows op w called.1
    unfolding by_name
    called-SameRows others scope key apart =
        elim (Bool-cases
          (text_eq (object_name shard op.scope op.key) (object_name shard scope key))) [
            | inl same ↦
                let name = (text_eq_iff _ _).0 same in
                rw (records_of, same)
                  (others scope key apart
                    ∙ ap (λ n. select_sql scope key (w.objects n).records) name)
            | inr other ↦ rw (records_of, other) refl
          ]

    -- A call that leaves its object as it was leaves the worker as it was.
    called_same : (f owner).1 ≡ owner → called.1 ≡ w
    unfolding by_name
    called_same same =
        ap (λ objects. record w { objects = objects })
          (fun_ext (λ name. elim (Bool-cases (text_eq (object_name shard op.scope op.key) name)) [
            | inl here ↦ rw here (same ∙ ap w.objects ((text_eq_iff _ _).0 here))
            | inr other ↦ rw other refl
          ]))

module _ (json : Json) (date_now : ℕ) (options : DurableObjectsStoreOptions)
    (off : options.track_for_purge ≡ false) where
  -- Without tracking a call is one RPC.
  stub_lem :
      (scope key : Text) {A : Type 0} (f : M DurableObject Text A) (w : Worker)
      → stub json date_now options scope key f w ≡ by_name (object_name options.shard scope key) f w
  unfolding stub
  stub_lem scope key f w = simp (stub, off)

  module _ (op : Operation) where
    -- The record of the operation, in the object that owns it.
    abbrev pub object_row : Worker → Row
    object_row w = row json op (records_of options.shard op.scope op.key w)

    module _ {A : Type 0} (f : M DurableObject Text A) (d : M Table Text A)
        (same : (o : DurableObject) → on_records (f o) ≡ d o.records) (w : Worker) where
      -- What holds of a call on a table holds of the call on the object that does the same to its records.
      stub-holds :
          (P : Result Text A → Table → Type 0)
          → P
              (d (records_of options.shard op.scope op.key w)).0
              (d (records_of options.shard op.scope op.key w)).1
          → P (stub json date_now options op.scope op.key f w).0 (
              records_of options.shard op.scope op.key
                (stub json date_now options op.scope op.key f w).1)
      stub-holds P h =
          let there = same (owner options.shard op f w) in
          let (answer, left) = called_lem options.shard op f w in
          rw (stub_lem op.scope op.key f w, answer, left, ap (λ x. x.0) there, ap (λ x. x.1) there)
            h

      stub-SameRows :
          SameOthers op.scope op.key
            (records_of options.shard op.scope op.key w)
            (d (records_of options.shard op.scope op.key w)).1
          → SameRows options.shard op w (stub json date_now options op.scope op.key f w).1
      stub-SameRows h =
          let there = same (owner options.shard op f w) in
          rw (stub_lem op.scope op.key f w)
            (called-SameRows options.shard op f w (rw (ap (λ x. x.1) there) h))

    abbrev d1 : KeepsContract (D1.d1_store json nobody) op (row json op) (λ _. Unit)
    d1 = d1_store-KeepsContract json op

    get-Gets :
        (now : ℕ) (w : Worker)
        → (out : Option IdempotencyRecord) × (get json date_now options op.scope op.key now w
            ≡ (Result.ok out, w))
          × Gets now (object_row w) out
    unfolding get D1.d1_store
    get-Gets now w =
        let o = w.objects (object_name options.shard op.scope op.key) in
        let f = DurableObjects.get json op.scope op.key now in
        let (out, e, g) = d1.gets now o.records tt in
        let there = get_lem json op now o in
        let (answer, _) = called_lem options.shard op f w in
        (
          out,
          stub_lem op.scope op.key f w
              ∙ ap₂ (λ r v. (r, v)) (answer ∙ ap (λ x. x.0) there ∙ ap (λ x. x.0) e)
                  (called_same options.shard op f w (ap (λ x. x.1) there)),
          g,
        )

    store-KeepsContract :
        KeepsContract (durable_objects_store json date_now options) op object_row (λ _. Unit)
    unfolding durable_objects_store D1.d1_store begin complete abandon get
    store-KeepsContract = record {
      begins = λ opts w _.
          stub-holds (DurableObjects.begin json date_now op opts options.native_ttl_grace_ms) _
            (begin_lem json op date_now opts options.native_ttl_grace_ms) w
            (λ r t.
              (out : BeginOutcome) × (r ≡ Result.ok out)
              × Begins op opts (object_row w) out (row json op t)
              × Unit)
            (d1.begins opts (records_of options.shard op.scope op.key w) tt);
      completes = λ fence payload now w _ _.
          stub-holds (DurableObjects.complete json op fence payload now) _
            (complete_lem json op fence payload now) w
            (λ r t.
              (out : CompleteStatus) × (r ≡ Result.ok out)
              × Completes fence payload now (object_row w) out (row json op t)
              × Unit)
            (d1.completes fence payload now (records_of options.shard op.scope op.key w) tt tt);
      abandons = λ fence w _.
          stub-holds (DurableObjects.abandon json op fence) _ (abandon_lem json op fence) w
            (λ r t.
              (out : CompleteStatus) × (r ≡ Result.ok out)
              × Abandons fence (object_row w) out (row json op t)
              × Unit)
            (d1.abandons fence (records_of options.shard op.scope op.key w) tt);
      gets = λ now w _. get-Gets now w;
    }

    store-Spares :
        Spares (durable_objects_store json date_now options) op (SameRows options.shard op)
    unfolding durable_objects_store D1.d1_store begin complete abandon
    store-Spares =
        let rest = d1_store-Spares json op in
        record {
          begins = λ opts w.
              stub-SameRows (DurableObjects.begin json date_now op opts options.native_ttl_grace_ms)
                _ (begin_lem json op date_now opts options.native_ttl_grace_ms) w
                (rest.begins opts (records_of options.shard op.scope op.key w));
          completes = λ fence payload now w.
              stub-SameRows (DurableObjects.complete json op fence payload now) _
                (complete_lem json op fence payload now) w
                (rest.completes fence payload now (records_of options.shard op.scope op.key w));
          abandons = λ fence w.
              stub-SameRows (DurableObjects.abandon json op fence) _ (abandon_lem json op fence) w
                (rest.abandons fence (records_of options.shard op.scope op.key w));
        }

    -- Without tracking for purges, `DurableObjectsStore` implements the contract, with one object for each scope
    -- or for each scope and key: every call answers, none throws, each does to the row of the operation what the
    -- contract says and leaves the rows of all other scopes and keys alone, in every object. JSON text parses
    -- back to what was written.
    pub durable_objects_store-Implements :
        Implements
          (durable_objects_store json date_now options)
          op
          object_row
          (λ _. Unit)
          (SameRows options.shard op)
    durable_objects_store-Implements = (store-KeepsContract, store-Spares)
