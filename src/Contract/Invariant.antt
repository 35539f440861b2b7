-- ===== src/Contract/Invariant.antt =====
-- What holds of every row that the operations of the contract can leave.
use anyonce.Prelude.{ℕ, ◌≤◌, Text, none, some, ◌≡◌, ◌≢◌, refl, arith}
use anyonce.Types.{
  Operation, RecordState, IdempotencyRecord, Payload, BeginOptions, BeginOutcome, CompleteStatus,
}
use anyonce.Contract.{
  Row, Begins, claims_new, claims_expired, takes_over, mismatches, replays, conflicts, Completes,
  Abandons,
}

-- `file` is how the store makes one name out of a scope and a key.
module _ (file : Text → Text → Text) where
  pub record IsSound (name : Text) (r : IdempotencyRecord) : Type 0 where
    pub filed : name ≡ file r.scope r.key
    pub claimed : 1 ≤ r.fence
    pub unfinished : r.state ≡ RecordState.in_flight → (r.result ≡ none) × (r.result_omitted ≡ none)
    pub has_result : r.state ≡ RecordState.completed → r.result ≢ none

  abbrev pub RowIsSound : Text → Row → Type 0
  RowIsSound name none = Unit
  RowIsSound name (some r) = IsSound name r

  pub Begins-RowIsSound :
      {op : Operation} {opts : BeginOptions} {row row' : Row} {out : BeginOutcome}
      → Begins op opts row out row'
      → RowIsSound (file op.scope op.key) row
      → RowIsSound (file op.scope op.key) row'
  Begins-RowIsSound (claims_new a b c) h = rw c (record {
    filed = refl;
    claimed = omega arith;
    unfinished = λ e. (refl, refl);
    has_result = λ e. cc e;
  })
  Begins-RowIsSound (claims_expired r a b c d) h = rw d (record {
    filed = refl;
    claimed = omega arith;
    unfinished = λ e. (refl, refl);
    has_result = λ e. cc e;
  })
  Begins-RowIsSound (takes_over r a b c d e f g) h = rw g (record {
    filed = refl;
    claimed = omega arith;
    unfinished = λ e. (refl, refl);
    has_result = λ e. cc e;
  })
  Begins-RowIsSound (mismatches r a b c d e) h = rw e h
  Begins-RowIsSound (replays r a b c d e f) h = rw f h
  Begins-RowIsSound (conflicts r a b c d e f g) h = rw g h

  pub Completes-RowIsSound :
      (name : Text) {fence now : ℕ} {payload : Payload} {row row' : Row} {out : CompleteStatus}
      → Completes fence payload now row out row'
      → RowIsSound name row
      → RowIsSound name row'
  Completes-RowIsSound name (Completes.misses a b c) h = rw c h
  Completes-RowIsSound name (Completes.expires r a b c d) h = rw d h
  Completes-RowIsSound name (Completes.is_stale r a b c d e) h = rw e h
  Completes-RowIsSound name (Completes.repeats r a b c d e f) h = rw f h
  Completes-RowIsSound name (Completes.finishes r a b c d e f) h =
      let sound : IsSound name r = rw a at h in
      rw f (record {
        filed = sound.filed;
        claimed = sound.claimed;
        unfinished = λ e. cc e;
        has_result = λ e. cc;
      })

  pub Abandons-RowIsSound :
      (name : Text) {fence : ℕ} {row row' : Row} {out : CompleteStatus}
      → Abandons fence row out row'
      → RowIsSound name row
      → RowIsSound name row'
  Abandons-RowIsSound name (Abandons.misses a b c) h = rw c h
  Abandons-RowIsSound name (Abandons.too_late r a b c d) h = rw d h
  Abandons-RowIsSound name (Abandons.is_stale r a b c d e) h = rw e h
  Abandons-RowIsSound name (Abandons.releases r a b c d e) h = rw e tt
