-- ===== src/Postgres/Refines.antt =====
-- The Postgres store against the contract.
use anyonce.Prelude.{Text, Result, ok, err, ◌≡◌, refl, ◌∙◌}
use anyonce.Types.{Operation, BeginOptions, BeginOutcome}
use anyonce.Contract.{Implements}
use anyonce.Codec.{Json}
use anyonce.Sql.{Table}
use anyonce.Sql.Rows.{row}
use anyonce.Sql.Others.{SameOthers}
use anyonce.Postgres.{begin, postgres_store}
use anyonce.Postgres.Equal.{as_postgres, begin_lem, complete_lem, abandon_lem, get_lem}
use anyonce.D1
use anyonce.D1.Refines.{nobody, d1_store-KeepsContract}
use anyonce.D1.Spares.{d1_store-Spares}

as_postgres-ok :
    (x : Result Text BeginOutcome × Table) (out : BeginOutcome) → x.0 ≡ ok out → as_postgres x ≡ x
as_postgres-ok (ok out', t) out e = refl
as_postgres-ok (err x, t) out e = cc e

module _ (json : Json) (op : Operation) where
  -- No call of `begin` fails while nobody else writes.
  begin-same :
      (opts : BeginOptions) (t : Table)
      → begin json nobody op opts t ≡ D1.begin json nobody op opts t
  begin-same opts t =
      let (out, e, _, _) = (d1_store-KeepsContract json op).begins opts t tt in
      begin_lem json nobody op opts t
      ∙ as_postgres-ok (D1.begin json nobody op opts t) out (unfold D1.d1_store in e)

  -- While no other connection writes between its statements, `PostgresStore` implements the contract: every call
  -- answers, none throws, each does to the row of the operation what the contract says and leaves the rows of
  -- all other scopes and keys alone. JSON text parses back to what was written.
  pub postgres_store-Implements :
      Implements
        (postgres_store json nobody)
        op
        (row json op)
        (λ _. Unit)
        (SameOthers op.scope op.key)
  unfolding postgres_store D1.d1_store
  postgres_store-Implements =
      let d1 = d1_store-KeepsContract json op in
      let rest = d1_store-Spares json op in
      (
        record {
          begins = λ opts t _. rw (begin-same opts t) (d1.begins opts t tt);
          completes = λ fence payload now t _ _.
              rw (complete_lem json nobody op fence payload now t)
                (d1.completes fence payload now t tt tt);
          abandons = λ fence t _. rw (abandon_lem json nobody op fence t) (d1.abandons fence t tt);
          gets = λ now t _. rw (get_lem json nobody op now t) (d1.gets now t tt);
        },
        record {
          begins = λ opts t. rw (begin-same opts t) (rest.begins opts t);
          completes = λ fence payload now t.
              rw (complete_lem json nobody op fence payload now t)
                (rest.completes fence payload now t);
          abandons = λ fence t. rw (abandon_lem json nobody op fence t) (rest.abandons fence t);
        },
      )
