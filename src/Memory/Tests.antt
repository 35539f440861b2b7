-- ===== src/Memory/Tests.antt =====
-- The memory store at concrete inputs.
use anyonce.Prelude.{
  ◌<◌, ◌+◌, ◌↔◌, Text, codes, text_eq, length, none, some, [], ◌∷◌, ◌≡◌, ◌≢◌, refl,
}
use anyonce.Types.{
  Operation, BeginOptions, BeginOutcome, CompleteStatus, http, StoredResult, stored,
  IdempotencyRecord,
}
use anyonce.Contract.{Implements}
use anyonce.Dict.{get, put, delete, count_not}
use anyonce.Memory.{MemoryStore, empty, map_key, begin, complete, abandon, purge, memory_store}
use anyonce.Memory.Rows.{row, name}
use anyonce.Memory.Invariant.{
  IsWellFormed, empty-IsWellFormed, begin-IsWellFormed, purge_lem, memory_store-Implements,
}

abbrev op : Operation
op = record { scope = codes "POST /a"; key = codes "k"; fingerprint = codes "f" }

abbrev opts : BeginOptions
opts = record { lease_ms = 10; ttl_ms = 100; now = 5 }

abbrev body : StoredResult
body = record {
  kind = http;
  status = some 200;
  headers = some ((codes "etag", codes "x") ∷ []);
  body = some (7 ∷ []);
  outcome = none;
  error = none;
}

abbrev claimed : MemoryStore
claimed = (begin op opts empty).1

runs :
    ((begin op opts empty).0 ≡ BeginOutcome.acquired 1)
    × ((begin op opts claimed).0 ≡ BeginOutcome.in_flight 15)
    × ((complete op 1 (stored body) 6 claimed).0 ≡ CompleteStatus.ok)
    × ((complete op 2 (stored body) 6 claimed).0 ≡ CompleteStatus.stale_fence)
    × ((abandon op 1 claimed).0 ≡ CompleteStatus.ok)
    × ((purge 105 claimed).0 ≡ 1)
    × ((purge 104 claimed).0 ≡ 0)
unfolding begin complete abandon purge get put delete count_not text_eq map_key
runs = (refl, refl, refl, refl, refl, refl, refl)

claimed-IsWellFormed : IsWellFormed claimed
claimed-IsWellFormed = begin-IsWellFormed op opts empty empty-IsWellFormed

memory_store-Implements_example :
    Implements
      (memory_store Text)
      op
      (λ s. row s (name op))
      IsWellFormed
      (λ s s'. (other : Text) → name op ≢ other → row s' other ≡ row s other)
memory_store-Implements_example = memory_store-Implements Text op

purge_lem_example :
    ((k : Text) (r : IdempotencyRecord)
      → (row (purge 105 claimed).1 k ≡ some r) ↔ ((row claimed k ≡ some r) × (105 < r.expires_at)))
    × (length (purge 105 claimed).1.records + (purge 105 claimed).0 ≡ length claimed.records)
    × IsWellFormed (purge 105 claimed).1
purge_lem_example = purge_lem 105 claimed claimed-IsWellFormed
