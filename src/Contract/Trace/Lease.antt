-- ===== src/Contract/Trace/Lease.antt =====
-- A live lease and the other claims.
use anyonce.Prelude.{ℕ, ◌<◌, List, [], ◌∷◌, ◌≡◌, ◌≢◌, ◌⊎◌, arith, some, All}
use anyonce.Types.{
  Operation, BeginOptions, Payload, RecordState, BeginOutcome, CompleteStatus, IdempotencyRecord,
}
use anyonce.Contract.{
  Row, Begins, claims_new, claims_expired, takes_over, mismatches, replays, conflicts, Completes,
  Abandons,
}
use anyonce.Contract.Trace.{StoreEvent, begin, complete, abandon, vanish, Step, Steps}

-- An operation of somebody else: a claim while the lease and the row are live, or a completion or
-- release with another fence.
abbrev pub IsForeign : IdempotencyRecord → StoreEvent → Type 0
IsForeign r (begin op opts out) = (opts.now < r.expires_at) × (opts.now < r.lease_until)
IsForeign r (complete fence payload now out) = fence ≢ r.fence
IsForeign r (abandon fence out) = fence ≢ r.fence
IsForeign r vanish = ⊥

-- Its answer: no claim, and no completion.
abbrev pub IsRefused : IdempotencyRecord → StoreEvent → Type 0
IsRefused r (begin op opts out) =
    (out ≡ BeginOutcome.in_flight r.lease_until) ⊎ (out ≡ BeginOutcome.mismatch r)
IsRefused r (complete fence payload now out) =
    (out ≡ CompleteStatus.stale_fence) ⊎ (out ≡ CompleteStatus.not_found)
IsRefused r (abandon fence out) = out ≡ CompleteStatus.stale_fence
IsRefused r vanish = ⊥

module _ (r : IdempotencyRecord) (flying : r.state ≡ RecordState.in_flight) where
  Begins-IsRefused :
      (op : Operation) (opts : BeginOptions) {out : BeginOutcome} {row row' : Row}
      → row ≡ some r
      → Begins op opts row out row'
      → opts.now < r.expires_at
      → opts.now < r.lease_until
      → IsRefused r (begin op opts out) × (row' ≡ some r)
  Begins-IsRefused op opts here (claims_new a b c) h k = cc
  Begins-IsRefused op opts here (claims_expired x a b c d) h k = ground arith
  Begins-IsRefused op opts here (takes_over x a b c d e f g) h k = ground arith
  Begins-IsRefused op opts here (mismatches x a b c d e) h k = ground arith
  Begins-IsRefused op opts here (replays x a b c d e f) h k = ground arith
  Begins-IsRefused op opts here (conflicts x a b c d e f g) h k = ground arith

  Completes-IsRefused :
      (fence : ℕ) (payload : Payload) (now : ℕ) {out : CompleteStatus} {row row' : Row}
      → row ≡ some r
      → Completes fence payload now row out row'
      → fence ≢ r.fence
      → IsRefused r (complete fence payload now out) × (row' ≡ some r)
  Completes-IsRefused fence payload now here (Completes.misses a b c) h = cc
  Completes-IsRefused fence payload now here (Completes.expires x a b c d) h = ground arith
  Completes-IsRefused fence payload now here (Completes.is_stale x a b c d e) h = ground arith
  Completes-IsRefused fence payload now here (Completes.repeats x a b c d e f) h = ground arith
  Completes-IsRefused fence payload now here (Completes.finishes x a b c d e f) h = ground arith

  Abandons-IsRefused :
      (fence : ℕ) {out : CompleteStatus} {row row' : Row}
      → row ≡ some r
      → Abandons fence row out row'
      → fence ≢ r.fence
      → IsRefused r (abandon fence out) × (row' ≡ some r)
  Abandons-IsRefused fence here (Abandons.misses a b c) h = cc
  Abandons-IsRefused fence here (Abandons.too_late x a b c d) h = ground arith
  Abandons-IsRefused fence here (Abandons.is_stale x a b c d e) h = ground arith
  Abandons-IsRefused fence here (Abandons.releases x a b c d e) h = ground arith

  Step-IsRefused :
      (e : StoreEvent) (row row' : Row)
      → row ≡ some r
      → Step e row row'
      → IsForeign r e
      → IsRefused r e × (row' ≡ some r)
  Step-IsRefused (begin op opts out) row row' here st (h, k) = Begins-IsRefused op opts here st h k
  Step-IsRefused (complete fence payload now out) row row' here st h =
      Completes-IsRefused fence payload now here st h
  Step-IsRefused (abandon fence out) row row' here st h = Abandons-IsRefused fence here st h
  Step-IsRefused vanish row row' here st h = absurd h

  -- While a claim is in flight and neither its lease nor its row has run out, every operation of
  -- others is refused, in whatever order they come, and the row stays as the claim wrote it: no other
  -- caller acquires the key and none completes or releases it.
  pub lease_excludes :
      (es : List StoreEvent) (row row' : Row)
      → row ≡ some r
      → Steps es row row'
      → All (IsForeign r) es
      → All (IsRefused r) es × (row' ≡ some r)
  lease_excludes [] row row' here same h = (tt, cc)
  lease_excludes (e ∷ es) row row' here (mid, st, rest) (h, hs) =
      let (refused, kept) = Step-IsRefused e row mid here st h in
      let (others, last) = lease_excludes es mid row' kept rest hs in ((refused, others), last)
