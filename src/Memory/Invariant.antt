-- ===== src/Memory/Invariant.antt =====
-- The invariant of `MemoryStore`.
use anyonce.Prelude.{
  ℕ, ◌+◌, ◌<◌, ◌↔◌, Text, text_eq, text_eq_iff, Bool-cases, length, none, some, ◌≡◌, ◌≢◌, refl, inl,
  inr, arith,
}
use anyonce.Types.{Operation, BeginOptions, Payload, IdempotencyRecord}
use anyonce.Contract.{Row, claim, KeepsContract, Spares, Implements}
use anyonce.Contract.Invariant.{
  RowIsSound, Begins-RowIsSound, Completes-RowIsSound, Abandons-RowIsSound,
}
use anyonce.Dict.{get}
use anyonce.Dict.Laws.{
  get-delete_self, get-delete_ne, DistinctKeys, DistinctKeys-put, DistinctKeys-delete,
  DistinctKeys-keep_only, get-keep_only, kept, length-keep_only,
}
use anyonce.Memory.{
  MemoryStore, memory_store, empty, map_key, begin, begin_at, complete, complete_at, settle,
  abandon, abandon_at, purge, physically_remove, is_unexpired, read,
}
use anyonce.Memory.Rows.{row, name}
use anyonce.Memory.Refines.{
  begin-Begins, complete-Completes, abandon-Abandons, read-Gets, complete-other,
}

-- Names are distinct, and every record is filed under its own scope and key, has a fence from 1 on,
-- and has a result exactly once it is completed.
pub record IsWellFormed (s : MemoryStore) : Type 0 where
  pub distinct : DistinctKeys s.records
  pub sound : (k : Text) → RowIsSound map_key k (row s k)

pub empty-IsWellFormed : IsWellFormed empty
empty-IsWellFormed = record { distinct = tt; sound = λ k. unfold get in tt }

-- A change of one row.
sound_after :
    (s s' : MemoryStore) (k : Text)
    → IsWellFormed s
    → RowIsSound map_key k (row s' k)
    → ((other : Text) → k ≢ other → row s' other ≡ row s other)
    → (j : Text) → RowIsSound map_key j (row s' j)
sound_after s s' k w here others j = elim (Bool-cases (text_eq k j)) [
  | inl same ↦ rw ((text_eq_iff k j).0 same) at here
  | inr other ↦ rw (others j (ground (arith, text_eq_iff k j))) (w.sound j)
]

distinct-begin :
    (op : Operation) (opts : BeginOptions) (s : MemoryStore)
    → DistinctKeys s.records
    → DistinctKeys (begin op opts s).1.records
unfolding begin
distinct-begin op opts s h = go (get (name op) s.records)
  where
    go : (o : Row) → DistinctKeys (begin_at op opts o s).1.records
    go none = DistinctKeys-put (name op) _ s.records h
    go (some r) =
        ground (arith, DistinctKeys-put (name op) (claim op opts (r.fence + 1)) s.records h)

distinct-complete :
    (op : Operation) (fence : ℕ) (result : Payload) (now : ℕ) (s : MemoryStore)
    → DistinctKeys s.records
    → DistinctKeys (complete op fence result now s).1.records
unfolding complete_at complete
distinct-complete op fence result now s h = go (get (name op) s.records)
  where
    go : (o : Row) → DistinctKeys (complete_at op fence result now o s).1.records
    go none = h
    go (some r) = ground (arith, DistinctKeys-put (name op) (settle r result) s.records h)

distinct-abandon :
    (op : Operation) (fence : ℕ) (s : MemoryStore)
    → DistinctKeys s.records
    → DistinctKeys (abandon op fence s).1.records
unfolding abandon
distinct-abandon op fence s h = go (get (name op) s.records)
  where
    go : (o : Row) → DistinctKeys (abandon_at op fence o s).1.records
    go none = h
    go (some r) = ground (arith, DistinctKeys-delete (name op) s.records h)

kept-RowIsSound :
    (k : Text) (now : ℕ) (o : Row)
    → RowIsSound map_key k o
    → RowIsSound map_key k (kept (is_unexpired now) o)
kept-RowIsSound k now none h = tt
kept-RowIsSound k now (some r) h = elim (Bool-cases (is_unexpired now r)) [
  | inl live ↦ rw live h
  | inr gone ↦ rw gone tt
]

-- Every method keeps the invariant, whatever its arguments.
pub begin-IsWellFormed :
    (op : Operation) (opts : BeginOptions) (s : MemoryStore)
    → IsWellFormed s
    → IsWellFormed (begin op opts s).1
begin-IsWellFormed op opts s w =
    let (here, others) = begin-Begins op opts s in
    record {
      distinct = distinct-begin op opts s w.distinct;
      sound =
          sound_after s (begin op opts s).1 (name op) w
            (Begins-RowIsSound map_key here (w.sound (name op))) others;
    }

pub complete-IsWellFormed :
    (op : Operation) (fence : ℕ) (result : Payload) (now : ℕ) (s : MemoryStore)
    → IsWellFormed s
    → IsWellFormed (complete op fence result now s).1
complete-IsWellFormed op fence result now s w =
    let (here, others) = complete-Completes op fence result now s (w.sound (name op)) in
    record {
      distinct = distinct-complete op fence result now s w.distinct;
      sound =
          sound_after s (complete op fence result now s).1 (name op) w
            (Completes-RowIsSound map_key (name op) here (w.sound (name op))) others;
    }

pub abandon-IsWellFormed :
    (op : Operation) (fence : ℕ) (s : MemoryStore)
    → IsWellFormed s
    → IsWellFormed (abandon op fence s).1
abandon-IsWellFormed op fence s w =
    let (here, others) = abandon-Abandons op fence s in
    record {
      distinct = distinct-abandon op fence s w.distinct;
      sound =
          sound_after s (abandon op fence s).1 (name op) w
            (Abandons-RowIsSound map_key (name op) here (w.sound (name op))) others;
    }

kept_iff :
    (now : ℕ) (o : Row) (r : IdempotencyRecord)
    → (kept (is_unexpired now) o ≡ some r) ↔ ((o ≡ some r) × (now < r.expires_at))
unfolding is_unexpired
kept_iff now none r = ground arith
kept_iff now (some q) r = ground arith

-- On a well-formed store a purge leaves exactly the rows that expire later than now, reports how many
-- it removed, and keeps the invariant.
pub purge_lem :
    (now : ℕ) (s : MemoryStore)
    → IsWellFormed s
    → ((k : Text) (r : IdempotencyRecord)
        → (row (purge now s).1 k ≡ some r) ↔ ((row s k ≡ some r) × (now < r.expires_at)))
      × (length (purge now s).1.records + (purge now s).0 ≡ length s.records)
      × IsWellFormed (purge now s).1
unfolding purge
purge_lem now s w =
    let rows = λ (k : Text). get-keep_only (is_unexpired now) k s.records w.distinct in
    (
      λ k r. rw (rows k) (kept_iff now (row s k) r),
      length-keep_only (is_unexpired now) s.records,
      record {
        distinct = DistinctKeys-keep_only (is_unexpired now) s.records w.distinct;
        sound = λ k. rw (rows k) (kept-RowIsSound k now (row s k) (w.sound k));
      },
    )

pub physically_remove-IsWellFormed :
    (scope key : Text) (s : MemoryStore)
    → IsWellFormed s
    → IsWellFormed (physically_remove scope key s)
unfolding physically_remove
physically_remove-IsWellFormed scope key s w = record {
  distinct = DistinctKeys-delete (map_key scope key) s.records w.distinct;
  sound =
      sound_after s (physically_remove scope key s) (map_key scope key) w (rw get-delete_self tt)
        (λ other ne. get-delete_ne (map_key scope key) s.records other ne);
}

-- `MemoryStore` as an implementation of the contract.
pub memory_store-KeepsContract :
    (E : Type 0) (op : Operation)
    → KeepsContract (memory_store E) op (λ s. row s (name op)) IsWellFormed
memory_store-KeepsContract E op = record {
  begins = λ opts s w.
      ((begin op opts s).0, refl, (begin-Begins op opts s).0, begin-IsWellFormed op opts s w);
  completes = λ fence payload now s _ w. (
    (complete op fence payload now s).0,
    refl,
    (complete-Completes op fence payload now s (w.sound (name op))).0,
    complete-IsWellFormed op fence payload now s w,
  );
  abandons = λ fence s w. (
    (abandon op fence s).0,
    refl,
    (abandon-Abandons op fence s).0,
    abandon-IsWellFormed op fence s w,
  );
  gets = λ now s w. (read op.scope op.key now s, refl, read-Gets op.scope op.key now s);
}

-- An operation of `MemoryStore` touches no other name.
pub memory_store-Spares :
    (E : Type 0) (op : Operation)
    → Spares
        (memory_store E)
        op
        (λ s s'. (other : Text) → name op ≢ other → row s' other ≡ row s other)
memory_store-Spares E op = record {
  begins = λ opts s. (begin-Begins op opts s).1;
  completes = λ fence payload now s. complete-other op fence payload now s;
  abandons = λ fence s. (abandon-Abandons op fence s).1;
}

-- `MemoryStore` implements the contract on every well-formed store: every call answers, none throws, each does
-- to the row of the operation what the contract says, touches no other name and keeps the store well formed.
pub memory_store-Implements :
    (E : Type 0) (op : Operation)
    → Implements
        (memory_store E)
        op
        (λ s. row s (name op))
        IsWellFormed
        (λ s s'. (other : Text) → name op ≢ other → row s' other ≡ row s other)
memory_store-Implements E op = (memory_store-KeepsContract E op, memory_store-Spares E op)
