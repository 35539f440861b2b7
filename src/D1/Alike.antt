-- ===== src/D1/Alike.antt =====
-- One sequence of calls, of the memory store and of the D1 store.
use anyonce.Prelude.{ℕ, codes, none, some, List, [], ◌∷◌, ◌≡◌, refl}
use anyonce.Types.{Operation, BeginOptions, StoredResult, stored, http}
use anyonce.Contract.Interchange.{
  Call, begins, completes, abandons, gets, all_calls, all_calls-alike,
}
use anyonce.Memory.{memory_store, empty}
use anyonce.Memory.Rows.{name}
use anyonce.Memory.Rows
use anyonce.Memory.Invariant.{IsWellFormed, empty-IsWellFormed, memory_store-KeepsContract}
use anyonce.Codec.Plain.{plain_json}
use anyonce.Dict.{get}
use anyonce.Sql.{select_sql}
use anyonce.Sql.Rows as SqlRows
use anyonce.D1.{d1_store}
use anyonce.D1.Refines.{nobody, d1_store-KeepsContract}

abbrev op : Operation
op = record { scope = codes "POST /pay"; key = codes "k1"; fingerprint = codes "f1" }

abbrev at_time : ℕ → BeginOptions
at_time now = record { lease_ms = 10; ttl_ms = 100; now = now }

abbrev a_result : StoredResult
a_result = record {
  kind = http;
  status = some 201;
  headers = none;
  body = some (1 ∷ 2 ∷ []);
  outcome = none;
  error = none;
}

-- Claimed, claimed again while the lease is live, taken over, completed by the stale holder and by the new one, read.
abbrev calls : List Call
calls =
    begins (at_time 0)
    ∷ begins (at_time 5)
    ∷ begins (at_time 12)
    ∷ completes 1 (stored a_result) 13
    ∷ completes 2 (stored a_result) 14
    ∷ abandons 2
    ∷ gets 15
    ∷ []

all_calls-alike_example :
    ((all_calls (memory_store ℕ) op calls empty).0
      ≡ (all_calls (d1_store plain_json nobody) op calls []).0)
    × (Rows.row (all_calls (memory_store ℕ) op calls empty).1 (name op)
        ≡ SqlRows.row plain_json op (all_calls (d1_store plain_json nobody) op calls []).1)
unfolding select_sql get d1_store
all_calls-alike_example =
    all_calls-alike op (memory_store ℕ) (λ s. Rows.row s (name op)) IsWellFormed
      (memory_store-KeepsContract ℕ op) (d1_store plain_json nobody) (SqlRows.row plain_json op)
      (λ _. Unit) (d1_store-KeepsContract plain_json op) calls empty [] empty-IsWellFormed tt refl
      (tt, (tt, (tt, (tt, (tt, (tt, (tt, tt))))))) (tt, (tt, (tt, (tt, (tt, (tt, (tt, tt)))))))
