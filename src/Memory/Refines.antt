-- ===== src/Memory/Refines.antt =====
-- The operations of `MemoryStore` against the contract, and the rows that they are not about.
use anyonce.Prelude.{
  ℕ, Text, text_eq, text_eq_iff, true, false, none, some, ◌≤◌, ◌≡◌, ◌≢◌, ◌⊎◌, inl, inr, refl, arith,
  Bool-cases, ltb, leb, ◌==◌, ◌+◌,
}
use anyonce.Types.{Operation, BeginOptions, Payload, RecordState, IdempotencyRecord}
use anyonce.Contract.{
  Row, IsLive, claim, Begins, claims_new, claims_expired, takes_over, mismatches, replays,
  conflicts, Completes, Abandons, Gets,
}
use anyonce.Contract.Invariant.{RowIsSound}
use anyonce.Memory.{
  MemoryStore, map_key, settle, begin, begin_at, acquire, complete, complete_at, abandon,
  abandon_at, read, read_at, is_completed,
}
use anyonce.Memory.Copies.{copy_record_id, settle-eq-finished}
use anyonce.Memory.Rows.{row, name}
use anyonce.Dict.Laws.{get-put_self, get-put_ne, get-delete_self, get-delete_ne}

-- Where the row is not claimed.
acquire-Begins-some :
    (op : Operation) (opts : BeginOptions) (r : IdempotencyRecord) (s : MemoryStore)
    → (r.expires_at ≤ opts.now)
      ⊎ (IsLive r opts.now
          × (r.fingerprint ≡ op.fingerprint)
          × (r.state ≡ RecordState.in_flight)
          × (r.lease_until ≤ opts.now))
    → Begins op opts
        (some r)
        (acquire op opts (some r) s).0
        (row (acquire op opts (some r) s).1 (name op))
unfolding acquire
acquire-Begins-some op opts r s (inl gone) =
    claims_expired r refl gone refl (get-put_self (name op) s.records _)
acquire-Begins-some op opts r s (inr (live, same, flying, late)) =
    takes_over r refl live same flying late refl (get-put_self (name op) s.records _)

-- An in-flight row carries no omission flag.
abbrev pub NoEarlyFlag : Row → Type 0
NoEarlyFlag none = Unit
NoEarlyFlag (some r) = r.state ≡ RecordState.in_flight → r.result_omitted ≡ none

no_early_flag : (k : Text) (o : Row) → RowIsSound map_key k o → NoEarlyFlag o
no_early_flag k none h = tt
no_early_flag k (some r) h = λ e. (h.unfinished e).1

begin_at_other :
    (op : Operation) (opts : BeginOptions) (o : Row) (s : MemoryStore) (other : Text)
    → name op ≢ other
    → row (begin_at op opts o s).1 other ≡ row s other
unfolding begin_at acquire
begin_at_other op opts none s other ne = get-put_ne (name op) s.records other _ ne
begin_at_other op opts (some r) s other ne =
    ground (arith, get-put_ne (name op) s.records other (claim op opts (r.fence + 1)) ne)

completed_of : {x : RecordState} → is_completed x ≡ true → x ≡ RecordState.completed
unfolding is_completed
completed_of h = ground arith

in_flight_of : {x : RecordState} → is_completed x ≡ false → x ≡ RecordState.in_flight
unfolding is_completed
in_flight_of h = ground arith

begin_at-Begins :
    (op : Operation) (opts : BeginOptions) (o : Row) (s : MemoryStore)
    → row s (name op) ≡ o
    → Begins op opts o (begin_at op opts o s).0 (row (begin_at op opts o s).1 (name op))
unfolding begin_at acquire
begin_at-Begins op opts none s e =
    claims_new refl refl (unfold acquire in get-put_self (name op) s.records _)
begin_at-Begins op opts (some r) s e = elim (Bool-cases (ltb opts.now r.expires_at)) [
  | inr gone ↦ rw gone (acquire-Begins-some op opts r s (inl (ground arith)))
  | inl live ↦ elim (Bool-cases (text_eq r.fingerprint op.fingerprint)) [
    | inr other ↦
        rw (live, other, copy_record_id)
          (mismatches r refl (ground arith)
            (ground (arith, text_eq_iff r.fingerprint op.fingerprint)) refl e)
    | inl same ↦ elim (Bool-cases (is_completed r.state)) [
      | inl done ↦
          rw (live, same, done, copy_record_id)
            (replays r refl (ground arith) ((text_eq_iff _ _).0 same) (completed_of done) refl e)
      | inr flying ↦ elim (Bool-cases (ltb opts.now r.lease_until)) [
        | inl held ↦
            rw (live, same, flying, held)
              (conflicts r refl (ground arith) ((text_eq_iff _ _).0 same) (in_flight_of flying)
                (ground arith) refl e)
        | inr late ↦
            rw (live, same, flying, late)
              (acquire-Begins-some op opts r s
                (inr (ground arith, (text_eq_iff _ _).0 same, in_flight_of flying, ground arith)))
      ]
    ]
  ]
]

complete_at-Completes :
    (op : Operation) (fence : ℕ) (result : Payload) (now : ℕ) (o : Row) (s : MemoryStore)
    → row s (name op) ≡ o
    → NoEarlyFlag o
    → Completes fence result now o
        (complete_at op fence result now o s).0
        (row (complete_at op fence result now o s).1 (name op))
unfolding complete_at
complete_at-Completes op fence result now none s e flag = Completes.misses refl refl e
complete_at-Completes op fence result now (some r) s e flag =
    elim (Bool-cases (leb r.expires_at now)) [
      | inl gone ↦ rw gone (Completes.expires r refl (ground arith) refl e)
      | inr live ↦ elim (Bool-cases (r.fence == fence)) [
        | inr other ↦
            rw (live, other) (Completes.is_stale r refl (ground arith) (ground arith) refl e)
        | inl same ↦ elim (Bool-cases (is_completed r.state)) [
          | inl done ↦
              rw (live, same, done)
                (Completes.repeats r refl (ground arith) (ground arith) (completed_of done) refl e)
          | inr flying ↦
              rw (live, same, flying)
                (Completes.finishes r refl (ground arith) (ground arith) (in_flight_of flying) refl
                  (rw (settle-eq-finished r result (flag (in_flight_of flying)))
                    (get-put_self (name op) s.records _)))
        ]
      ]
    ]

abandon_at-Abandons :
    (op : Operation) (fence : ℕ) (o : Row) (s : MemoryStore)
    → row s (name op) ≡ o
    → Abandons fence o (abandon_at op fence o s).0 (row (abandon_at op fence o s).1 (name op))
unfolding abandon_at
abandon_at-Abandons op fence none s e = Abandons.misses refl refl e
abandon_at-Abandons op fence (some r) s e = elim (Bool-cases (is_completed r.state)) [
  | inl done ↦ rw done (Abandons.too_late r refl (completed_of done) refl e)
  | inr flying ↦ elim (Bool-cases (r.fence == fence)) [
    | inr other ↦
        rw (flying, other) (Abandons.is_stale r refl (in_flight_of flying) (ground arith) refl e)
    | inl same ↦
        rw (flying, same)
          (Abandons.releases r refl (in_flight_of flying) (ground arith) refl
            (get-delete_self (name op) s.records))
  ]
]

read_at-Gets : (now : ℕ) (o : Row) → Gets now o (read_at now o)
unfolding read_at
read_at-Gets now none = Gets.misses refl refl
read_at-Gets now (some r) = elim (Bool-cases (leb r.expires_at now)) [
  | inl gone ↦ rw gone (Gets.expires r refl (ground arith) refl)
  | inr live ↦ rw (live, copy_record_id) (Gets.finds r refl (ground arith) refl)
]

complete_at_other :
    (op : Operation) (fence : ℕ) (result : Payload) (now : ℕ) (o : Row) (s : MemoryStore)
    (other : Text)
    → name op ≢ other
    → row (complete_at op fence result now o s).1 other ≡ row s other
unfolding complete_at
complete_at_other op fence result now none s other ne = refl
complete_at_other op fence result now (some r) s other ne =
    ground (arith, get-put_ne (name op) s.records other (settle r result) ne)

abandon_at_other :
    (op : Operation) (fence : ℕ) (o : Row) (s : MemoryStore) (other : Text)
    → name op ≢ other
    → row (abandon_at op fence o s).1 other ≡ row s other
unfolding abandon_at
abandon_at_other op fence none s other ne = refl
abandon_at_other op fence (some r) s other ne =
    ground (arith, get-delete_ne (name op) s.records other ne)

-- `begin` answers and writes what the contract says, and touches no other name.
pub begin-Begins :
    (op : Operation) (opts : BeginOptions) (s : MemoryStore)
    → Begins op opts (row s (name op)) (begin op opts s).0 (row (begin op opts s).1 (name op))
      × ((other : Text) → name op ≢ other → row (begin op opts s).1 other ≡ row s other)
unfolding begin
begin-Begins op opts s = (
  begin_at-Begins op opts (row s (name op)) s refl,
  λ other ne. begin_at_other op opts (row s (name op)) s other ne,
)

pub complete-other :
    (op : Operation) (fence : ℕ) (result : Payload) (now : ℕ) (s : MemoryStore) (other : Text)
    → name op ≢ other
    → row (complete op fence result now s).1 other ≡ row s other
unfolding complete
complete-other op fence result now s other ne =
    complete_at_other op fence result now (row s (name op)) s other ne

-- On a sound row, `complete` answers and writes what the contract says, and touches no other name.
pub complete-Completes :
    (op : Operation) (fence : ℕ) (result : Payload) (now : ℕ) (s : MemoryStore)
    → RowIsSound map_key (name op) (row s (name op))
    → Completes fence result now
        (row s (name op))
        (complete op fence result now s).0
        (row (complete op fence result now s).1 (name op))
      × ((other : Text)
          → name op ≢ other
          → row (complete op fence result now s).1 other ≡ row s other)
unfolding complete
complete-Completes op fence result now s sound = (
  complete_at-Completes op fence result now (row s (name op)) s refl (no_early_flag _ _ sound),
  λ other ne. complete_at_other op fence result now (row s (name op)) s other ne,
)

-- `abandon` answers and writes what the contract says, and touches no other name.
pub abandon-Abandons :
    (op : Operation) (fence : ℕ) (s : MemoryStore)
    → Abandons fence (row s (name op)) (abandon op fence s).0 (row (abandon op fence s).1 (name op))
      × ((other : Text) → name op ≢ other → row (abandon op fence s).1 other ≡ row s other)
unfolding abandon
abandon-Abandons op fence s = (
  abandon_at-Abandons op fence (row s (name op)) s refl,
  λ other ne. abandon_at_other op fence (row s (name op)) s other ne,
)

-- The `get` of the memory store answers what the contract says.
pub read-Gets :
    (scope key : Text) (now : ℕ) (s : MemoryStore)
    → Gets now (row s (map_key scope key)) (read scope key now s)
unfolding read
read-Gets scope key now s = read_at-Gets now (row s (map_key scope key))
