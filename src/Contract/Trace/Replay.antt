-- ===== src/Contract/Trace/Replay.antt =====
-- A stored result until its row expires.
use anyonce.Prelude.{ℕ, ◌<◌, List, [], ◌∷◌, ◌≡◌, ◌≢◌, arith, some, All}
use anyonce.Types.{
  Operation, BeginOptions, Payload, RecordState, BeginOutcome, CompleteStatus, IdempotencyRecord,
}
use anyonce.Contract.{
  Row, Begins, claims_new, claims_expired, takes_over, mismatches, replays, conflicts, Completes,
  Abandons,
}
use anyonce.Contract.Trace.{StoreEvent, begin, complete, abandon, vanish, Step, Steps}

-- Nothing removes the row, and every claim comes before it expires.
abbrev pub IsInTime : IdempotencyRecord → StoreEvent → Type 0
IsInTime r (begin op opts out) = opts.now < r.expires_at
IsInTime r vanish = ⊥
IsInTime r _ = Unit

-- A claim is answered with the record: as a replay for the same payload, as a mismatch for another.
abbrev pub IsAnswered : IdempotencyRecord → StoreEvent → Type 0
IsAnswered r (begin op opts out) =
    (r.fingerprint ≡ op.fingerprint → out ≡ BeginOutcome.completed r)
    × (r.fingerprint ≢ op.fingerprint → out ≡ BeginOutcome.mismatch r)
IsAnswered r (abandon fence out) = out ≡ CompleteStatus.not_found
IsAnswered r _ = Unit

module _ (r : IdempotencyRecord) (done : r.state ≡ RecordState.completed) where
  Begins-IsAnswered :
      (op : Operation) (opts : BeginOptions) {out : BeginOutcome} {row row' : Row}
      → row ≡ some r
      → Begins op opts row out row'
      → opts.now < r.expires_at
      → IsAnswered r (begin op opts out) × (row' ≡ some r)
  Begins-IsAnswered op opts here (claims_new a b c) h = cc
  Begins-IsAnswered op opts here (claims_expired x a b c d) h = ground arith
  Begins-IsAnswered op opts here (takes_over x a b c d e f g) h = ground arith
  Begins-IsAnswered op opts here (mismatches x a b c d e) h = ground arith
  Begins-IsAnswered op opts here (replays x a b c d e f) h = ground arith
  Begins-IsAnswered op opts here (conflicts x a b c d e f g) h = ground arith

  Completes-keeps :
      {fence now : ℕ} {payload : Payload} {out : CompleteStatus} {row row' : Row}
      → row ≡ some r
      → Completes fence payload now row out row'
      → row' ≡ some r
  Completes-keeps here (Completes.misses a b c) = cc
  Completes-keeps here (Completes.expires x a b c d) = cc
  Completes-keeps here (Completes.is_stale x a b c d e) = cc
  Completes-keeps here (Completes.repeats x a b c d e f) = cc
  Completes-keeps here (Completes.finishes x a b c d e f) = ground arith

  Abandons-IsAnswered :
      (fence : ℕ) {out : CompleteStatus} {row row' : Row}
      → row ≡ some r
      → Abandons fence row out row'
      → IsAnswered r (abandon fence out) × (row' ≡ some r)
  Abandons-IsAnswered fence here (Abandons.misses a b c) = cc
  Abandons-IsAnswered fence here (Abandons.too_late x a b c d) = ground arith
  Abandons-IsAnswered fence here (Abandons.is_stale x a b c d e) = ground arith
  Abandons-IsAnswered fence here (Abandons.releases x a b c d e) = ground arith

  Step-IsAnswered :
      (e : StoreEvent) (row row' : Row)
      → row ≡ some r
      → Step e row row'
      → IsInTime r e
      → IsAnswered r e × (row' ≡ some r)
  Step-IsAnswered (begin op opts out) row row' here st h = Begins-IsAnswered op opts here st h
  Step-IsAnswered (complete fence payload now out) row row' here st h =
      (tt, Completes-keeps here st)
  Step-IsAnswered (abandon fence out) row row' here st h = Abandons-IsAnswered fence here st
  Step-IsAnswered vanish row row' here st h = absurd h

  -- Once a result is stored, then until the row expires or is removed, whatever is tried, by any
  -- caller and with any fence, the row does not change, every claim with the same fingerprint is
  -- answered by that record, and every claim with another fingerprint is a mismatch.
  pub completed_is_final :
      (es : List StoreEvent) (row row' : Row)
      → row ≡ some r
      → Steps es row row'
      → All (IsInTime r) es
      → All (IsAnswered r) es × (row' ≡ some r)
  completed_is_final [] row row' here same h = (tt, cc)
  completed_is_final (e ∷ es) row row' here (mid, st, rest) (h, hs) =
      let (answered, kept) = Step-IsAnswered e row mid here st h in
      let (others, last) = completed_is_final es mid row' kept rest hs in ((answered, others), last)
