-- ===== src/Contract/Trace/Fences.antt =====
-- The fences of successive claims of one row.
use anyonce.Prelude.{ℕ, ◌≤◌, ◌<◌, List, [], ◌∷◌, ◌++◌, ◌≡◌, ◌≢◌, arith, none, some, All}
use anyonce.Types.{Operation, BeginOptions, Payload, BeginOutcome, acquired, CompleteStatus}
use anyonce.Contract.{
  Row, Begins, claims_new, claims_expired, takes_over, mismatches, replays, conflicts, Completes,
  Abandons,
}
use anyonce.Contract.Trace.{StoreEvent, begin, complete, abandon, vanish, Step, Steps}

abbrev pub fence_of : Row → ℕ
fence_of none = 0
fence_of (some r) = r.fence

-- An operation that does not remove the row.
abbrev pub LeavesRow : StoreEvent → Type 0
LeavesRow (abandon fence out) = out ≢ CompleteStatus.ok
LeavesRow vanish = ⊥
LeavesRow _ = Unit

-- The fences that the claims among the events were given, in order.
abbrev pub claimed_by : StoreEvent → List ℕ
claimed_by (begin op opts (acquired fence)) = fence ∷ []
claimed_by _ = []

abbrev pub fences : List StoreEvent → List ℕ
fences [] = []
fences (e ∷ es) = claimed_by e ++ fences es

-- Strictly increasing, from above `n`, and at most `m`.
abbrev pub Ascends : ℕ → List ℕ → ℕ → Type 0
Ascends n [] m = n ≤ m
Ascends n (f ∷ fs) m = (n < f) × Ascends f fs m

Begins-Ascends :
    (op : Operation) (opts : BeginOptions) (out : BeginOutcome) {row row' : Row} (fs : List ℕ)
    (m : ℕ)
    → Begins op opts row out row'
    → Ascends (fence_of row') fs m
    → Ascends (fence_of row) (claimed_by (begin op opts out) ++ fs) m
Begins-Ascends op opts out fs m (claims_new a b c) h = rw (b, a) (omega arith, (rw c at h))
Begins-Ascends op opts out fs m (claims_expired x a b c d) h = rw (c, a) (omega arith, (rw d at h))
Begins-Ascends op opts out fs m (takes_over x a b c d e f g) h =
    rw (f, a) (omega arith, (rw g at h))
Begins-Ascends op opts out fs m (mismatches x a b c d e) h = rw d (rw e at h)
Begins-Ascends op opts out fs m (replays x a b c d e f) h = rw e (rw f at h)
Begins-Ascends op opts out fs m (conflicts x a b c d e f g) h = rw f (rw g at h)

Completes-fence :
    {fence now : ℕ} {payload : Payload} {out : CompleteStatus} {row row' : Row}
    → Completes fence payload now row out row'
    → fence_of row' ≡ fence_of row
Completes-fence (Completes.misses a b c) = rw c
Completes-fence (Completes.expires x a b c d) = rw d
Completes-fence (Completes.is_stale x a b c d e) = rw e
Completes-fence (Completes.repeats x a b c d e f) = rw f
Completes-fence (Completes.finishes x a b c d e f) = rw (f, a)

Abandons-fence :
    {fence : ℕ} {out : CompleteStatus} {row row' : Row}
    → Abandons fence row out row'
    → out ≢ CompleteStatus.ok
    → fence_of row' ≡ fence_of row
Abandons-fence (Abandons.misses a b c) h = rw c
Abandons-fence (Abandons.too_late x a b c d) h = rw d
Abandons-fence (Abandons.is_stale x a b c d e) h = rw e
Abandons-fence (Abandons.releases x a b c d e) h = absurd (h d)

Step-Ascends :
    (e : StoreEvent) (row row' : Row) (fs : List ℕ) (m : ℕ)
    → Step e row row'
    → LeavesRow e
    → Ascends (fence_of row') fs m
    → Ascends (fence_of row) (claimed_by e ++ fs) m
Step-Ascends (begin op opts out) row row' fs m st leaves h = Begins-Ascends op opts out fs m st h
Step-Ascends (complete fence payload now out) row row' fs m st leaves h =
    rw (← Completes-fence st) h
Step-Ascends (abandon fence out) row row' fs m st leaves h = rw (← Abandons-fence st leaves) h
Step-Ascends vanish row row' fs m st leaves h = absurd leaves

-- Over any operations that do not remove the row, the fences of successive claims are strictly
-- increasing, each above the fence that the row had before and none above the one it has at the end.
pub fences-Ascends :
    (es : List StoreEvent) (row row' : Row)
    → Steps es row row'
    → All LeavesRow es
    → Ascends (fence_of row) (fences es) (fence_of row')
fences-Ascends [] row row' same leaves = rw same (omega arith)
fences-Ascends (e ∷ es) row row' (mid, st, rest) (leaves, more) =
    Step-Ascends e row mid (fences es) (fence_of row') st leaves
      (fences-Ascends es mid row' rest more)
