-- ===== src/Contract/Tests.antt =====
-- Concrete rows and event sequences for the guarantees over traces.
use anyonce.Prelude.{ℕ, codes, none, some, List, [], ◌∷◌, ◌≡◌, ◌≢◌, refl, arith, All}
use anyonce.Types.{
  Operation, BeginOptions, BeginOutcome, CompleteStatus, http, StoredResult, stored,
  IdempotencyRecord,
}
use anyonce.Contract.{Row, claim, finished, Begins, Completes, Abandons}
use anyonce.Contract.Trace.{StoreEvent, begin, complete, abandon, Steps}
use anyonce.Contract.Trace.Lease.{IsRefused, lease_excludes}
use anyonce.Contract.Trace.Fences.{Ascends, fences-Ascends}
use anyonce.Contract.Trace.Replay.{IsAnswered, completed_is_final}

abbrev op : Operation
op = record { scope = codes "s"; key = codes "k"; fingerprint = codes "a" }

abbrev other : Operation
other = record op { fingerprint = codes "b" }

abbrev at_time : ℕ → BeginOptions
at_time now = record { lease_ms = 10; ttl_ms = 100; now = now }

abbrev nothing : StoredResult
nothing = record {
  kind = http;
  status = some 204;
  headers = none;
  body = none;
  outcome = none;
  error = none;
}

abbrev held : IdempotencyRecord
held = claim op (at_time 0) 2

differ : held.fingerprint ≢ other.fingerprint
differ = ground arith

-- A duplicate, another payload and a stale holder, while the lease is live.
abbrev duplicates : List StoreEvent
duplicates =
    begin op (at_time 5) (BeginOutcome.in_flight 10)
    ∷ begin other (at_time 6) (BeginOutcome.mismatch held)
    ∷ complete 1 (stored nothing) 7 CompleteStatus.stale_fence
    ∷ []

duplicates-Steps : Steps duplicates (some held) (some held)
duplicates-Steps = (
  some held,
  Begins.conflicts held refl (omega arith) refl refl (omega arith) refl refl,
  (
    some held,
    Begins.mismatches held refl (omega arith) differ refl refl,
    (some held, Completes.is_stale held refl (omega arith) (omega arith) refl refl, refl),
  ),
)

lease_excludes_example : All (IsRefused held) duplicates × (◌≡◌ {A = Row} (some held) (some held))
lease_excludes_example =
    lease_excludes held refl duplicates (some held) (some held) refl duplicates-Steps
      ((omega arith, omega arith), ((omega arith, omega arith), ((omega arith), tt)))

-- The lease runs out, the key is taken over, and the old holder is refused.
abbrev taken : IdempotencyRecord
taken = claim op (at_time 20) 3

abbrev takeover : List StoreEvent
takeover =
    begin op (at_time 20) (BeginOutcome.acquired 3)
    ∷ complete 2 (stored nothing) 21 CompleteStatus.stale_fence
    ∷ begin op (at_time 40) (BeginOutcome.acquired 4)
    ∷ []

takeover-Steps : Steps takeover (some held) (some (claim op (at_time 40) 4))
takeover-Steps = (
  some taken,
  Begins.takes_over held refl (omega arith) refl refl (omega arith) refl refl,
  (
    some taken,
    Completes.is_stale taken refl (omega arith) (omega arith) refl refl,
    (
      some (claim op (at_time 40) 4),
      Begins.takes_over taken refl (omega arith) refl refl (omega arith) refl refl,
      refl,
    ),
  ),
)

fences-Ascends_example : Ascends 2 (3 ∷ 4 ∷ []) 4
fences-Ascends_example =
    fences-Ascends takeover (some held) (some (claim op (at_time 40) 4)) takeover-Steps
      (tt, (tt, (tt, tt)))

abbrev done : IdempotencyRecord
done = finished held (stored nothing)

abbrev late_comers : List StoreEvent
late_comers =
    begin op (at_time 50) (BeginOutcome.completed done) ∷ abandon 2 CompleteStatus.not_found ∷ []

completed_is_final_example :
    All (IsAnswered done) late_comers × (◌≡◌ {A = Row} (some done) (some done))
completed_is_final_example =
    completed_is_final done refl late_comers (some done) (some done) refl
      (
        some done,
        Begins.replays done refl (omega arith) refl refl refl refl,
        (some done, Abandons.too_late done refl refl refl refl, refl),
      )
      ((omega arith), (tt, tt))
