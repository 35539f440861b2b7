-- ===== src/D1/Tests.antt =====
-- Runs of the D1 store, and witnesses.
use anyonce.Prelude.{
  ℕ, zero, suc, Text, codes, none, some, [], ◌∷◌, ◌++◌, ◌≡◌, refl, ok, ◌<◌, All, length, false, ◌≢◌,
  text_eq,
}
use anyonce.Types.{
  Operation, BeginOptions, BeginOutcome, CompleteStatus, StoredResult, stored, http,
}
use anyonce.Contract.{Begins, Implements}
use anyonce.Codec.{new_row}
use anyonce.Codec.Plain.{plain_json}
use anyonce.Sql.{Table}
use anyonce.Sql.Rows.{row}
use anyonce.Sql.Dialect.{pg_sql, undo, has_placeholder, unit_for, pg_sql_lem}
use anyonce.D1.{begin, complete, get, d1_store}
use anyonce.D1.Races.{found, begin-Begins_at_once}
use anyonce.D1.Refines.{nobody}
use anyonce.D1.Spares.{d1_store-Implements}
use anyonce.Sql.Others.{SameOthers}
use anyonce.Postgres.{postgres_store}
use anyonce.Postgres
use anyonce.Postgres.Equal.{postgres_lem, as_postgres}
use anyonce.D1

abbrev an_op : Operation
an_op = record { scope = codes "POST /pay"; key = codes "k1"; fingerprint = codes "f1" }

abbrev another_op : Operation
another_op = record { scope = codes "POST /pay"; key = codes "k1"; fingerprint = codes "f2" }

abbrev at_time : ℕ → BeginOptions
at_time now = record { lease_ms = 10; ttl_ms = 100; now = now }

abbrev a_result : StoredResult
a_result = record {
  kind = http;
  status = some 201;
  headers = some ((codes "etag", codes "x") ∷ []);
  body = some (1 ∷ 2 ∷ 3 ∷ []);
  outcome = none;
  error = none;
}

-- The claim of `an_op` at time 5.
abbrev claimed : Table
claimed = new_row an_op (at_time 5) 1 ∷ []

-- Another connection removes the row between the first upsert and the select that classifies its refusal.
abbrev abandons_once : ℕ → Table → Table
abandons_once (suc zero) t = []
abandons_once n t = t

first_claim : (begin plain_json nobody an_op (at_time 5) []).0 ≡ ok (BeginOutcome.acquired 1)
unfolding begin
first_claim = refl

held : (begin plain_json nobody an_op (at_time 6) claimed).0 ≡ ok (BeginOutcome.in_flight 15)
unfolding begin new_row text_eq
held = refl

retried :
    (begin plain_json abandons_once another_op (at_time 6) claimed).0 ≡ ok (BeginOutcome.acquired 1)
unfolding begin new_row text_eq
retried = refl

-- Another connection claims the key anew between the update that finds no row and the select.
abbrev claims_anew : ℕ → Table → Table
claims_anew (suc zero) t = claimed
claims_anew n t = t

-- The completion of a first claim whose row was purged then reports `ok`, and the row holds no result.
mistaken :
    complete plain_json claims_anew an_op 1 (stored a_result) 7 [] ≡ (ok CompleteStatus.ok, claimed)
unfolding complete new_row text_eq
mistaken = refl

begin-Begins_at_once_example :
    (k : ℕ) × (k < 6)
    × Begins another_op
        (at_time 6)
        (row plain_json another_op (found abandons_once 0 k claimed))
        (BeginOutcome.acquired 1)
        (row plain_json another_op
          (begin plain_json abandons_once another_op (at_time 6) claimed).1)
begin-Begins_at_once_example =
    begin-Begins_at_once plain_json abandons_once another_op (at_time 6) claimed
      (BeginOutcome.acquired 1) retried

d1_store-Implements_example :
    Implements
      (d1_store plain_json nobody)
      an_op
      (row plain_json an_op)
      (λ _. Unit)
      (SameOthers an_op.scope an_op.key)
d1_store-Implements_example = d1_store-Implements plain_json an_op

abbrev statement : Text
statement = codes "WHERE a = ?1 AND b = '?2' AND c = ?"

dialect : pg_sql statement ≡ codes "WHERE a = $1 AND b = '?2' AND c = ?"
unfolding pg_sql
dialect = refl

pg_sql_lem_example :
    (has_placeholder false (pg_sql statement) ≡ false)
    × (length (pg_sql statement) ≡ length statement)
    × (All (λ c. c ≢ 36) statement → undo (pg_sql statement) ≡ statement)
    × ((before : Text) (c : ℕ) (after : Text)
        → statement ≡ before ++ c ∷ after
        → (before' : Text) × (after' : Text) × (pg_sql statement
            ≡ before' ++ unit_for before c after ∷ after')
          × (length before' ≡ length before))
pg_sql_lem_example = pg_sql_lem statement

postgres_lem_example :
    (Postgres.begin plain_json abandons_once an_op (at_time 6) claimed
      ≡ as_postgres (D1.begin plain_json abandons_once an_op (at_time 6) claimed))
    × (Postgres.complete plain_json abandons_once an_op 1 (stored a_result) 7 claimed
        ≡ D1.complete plain_json abandons_once an_op 1 (stored a_result) 7 claimed)
    × (Postgres.abandon plain_json abandons_once an_op 1 claimed
        ≡ D1.abandon plain_json abandons_once an_op 1 claimed)
    × (Postgres.get plain_json abandons_once an_op.scope an_op.key 7 claimed
        ≡ D1.get plain_json abandons_once an_op.scope an_op.key 7 claimed)
    × (Postgres.purge plain_json abandons_once 7 claimed
        ≡ D1.purge plain_json abandons_once 7 claimed)
postgres_lem_example =
    postgres_lem plain_json abandons_once an_op (at_time 6) 1 (stored a_result) 7 claimed
