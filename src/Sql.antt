-- ===== src/Sql.antt =====
-- packages/stores/src/sql.ts: the statements that the D1, Durable Object and Postgres stores share, each
-- as what it does to the table and what it returns. The primary key is the pair of scope and key.
pub mod Laws
pub mod Rows
pub mod Completions
pub mod Others
pub mod Dialect
use anyonce.Prelude.{
  ℕ, suc, ◌+◌, Text, text_eq, Bytes, Bool, true, false, not, ◌&&◌, ◌||◌, Option, none, some, List,
  [], ◌∷◌, ltb, leb, ◌==◌, if◌then◌else◌,
}
use anyonce.Types.{RecordState}
use anyonce.Codec.{RecordRow}

abbrev pub Table : Type 0
Table = List RecordRow

-- `scope = ?1 AND key = ?2`
pub is_at : Text → Text → RecordRow → Bool
is_at scope key row = text_eq row.scope scope && text_eq row.key key

abbrev is_in_flight : RecordState → Bool
is_in_flight RecordState.in_flight = true
is_in_flight RecordState.completed = false

-- SELECT_SQL
unfoldable pub select_sql : Text → Text → Table → Option RecordRow
unfolding is_at
select_sql scope key [] = none
select_sql scope key (row ∷ t) =
    let rest = select_sql scope key t in if is_at scope key row then some row else rest

-- An insert, or the update of the row in conflict.
pub write : RecordRow → Table → Table
write row [] = row ∷ []
write row (old ∷ t) =
    let rest = write row t in if is_at row.scope row.key old then row ∷ t else old ∷ rest

-- REMOVE_SQL
unfoldable pub remove_sql : Text → Text → Table → Table
unfolding is_at
remove_sql scope key [] = []
remove_sql scope key (row ∷ t) =
    let rest = remove_sql scope key t in if is_at scope key row then rest else row ∷ rest

-- PURGE_SQL, with the number of rows that it deletes
unfoldable pub purge_sql : ℕ → Table → Table
purge_sql now [] = []
purge_sql now (row ∷ t) =
    let rest = purge_sql now t in if leb row.expires_at now then rest else row ∷ rest

unfoldable pub purged : ℕ → Table → ℕ
purged now [] = 0
purged now (row ∷ t) = let rest = purged now t in if leb row.expires_at now then suc rest else rest

-- The WHERE clause of the upsert in BEGIN_SQL.
unfoldable pub may_claim : Text → ℕ → RecordRow → Bool
may_claim fingerprint now row =
    leb row.expires_at now
    || (text_eq row.fingerprint fingerprint && (is_in_flight row.state && leb row.lease_until now))

-- The row that BEGIN_SQL writes.
abbrev pub begin_row : Text → Text → Text → ℕ → ℕ → ℕ → ℕ → RecordRow
begin_row scope key fingerprint fence now lease_until expires_at = record {
  scope = scope;
  key = key;
  fingerprint = fingerprint;
  state = RecordState.in_flight;
  fence = fence;
  lease_until = lease_until;
  created_at = now;
  expires_at = expires_at;
  result_meta = none;
  result_body = none;
  result_omitted = 0;
}

-- BEGIN_SQL: the fence that it returns, if it wrote a row.
unfoldable begin_sql_at :
    Option RecordRow → Text → Text → Text → ℕ → ℕ → ℕ → Table → Option ℕ × Table
begin_sql_at none scope key fingerprint now lease_until expires_at t =
    (some 1, write (begin_row scope key fingerprint 1 now lease_until expires_at) t)
begin_sql_at (some row) scope key fingerprint now lease_until expires_at t =
    if may_claim fingerprint now row
    then (
      some (row.fence + 1),
      write (begin_row scope key fingerprint (row.fence + 1) now lease_until expires_at) t,
    )
    else (none, t)

unfoldable pub begin_sql : Text → Text → Text → ℕ → ℕ → ℕ → Table → Option ℕ × Table
unfolding begin_sql_at may_claim write is_at
begin_sql scope key fingerprint now lease_until expires_at t =
    begin_sql_at (select_sql scope key t) scope key fingerprint now lease_until expires_at t

-- The WHERE clause of COMPLETE_SQL.
unfoldable pub may_complete : ℕ → ℕ → RecordRow → Bool
may_complete fence now row =
    row.fence == fence && (ltb now row.expires_at && is_in_flight row.state)

unfoldable complete_sql_at :
    Option RecordRow → ℕ → ℕ → Text → Option Bytes → ℕ → Table → Option ℕ × Table
complete_sql_at none fence now meta body omitted t = (none, t)
complete_sql_at (some row) fence now meta body omitted t =
    if may_complete fence now row
    then (
      some row.fence,
      write
          (record row {
            state = RecordState.completed;
            result_meta = some meta;
            result_body = body;
            result_omitted = omitted;
          })
          t,
    )
    else (none, t)

-- COMPLETE_SQL
unfoldable pub complete_sql :
    Text → Text → ℕ → ℕ → Text → Option Bytes → ℕ → Table → Option ℕ × Table
unfolding complete_sql_at may_complete write is_at
complete_sql scope key fence now meta body omitted t =
    complete_sql_at (select_sql scope key t) fence now meta body omitted t

-- The WHERE clause of ABANDON_SQL.
unfoldable pub may_abandon : ℕ → RecordRow → Bool
may_abandon fence row = row.fence == fence && is_in_flight row.state

unfoldable abandon_sql_at : Option RecordRow → Text → Text → ℕ → Table → Option ℕ × Table
abandon_sql_at none scope key fence t = (none, t)
abandon_sql_at (some row) scope key fence t =
    if may_abandon fence row then (some row.fence, remove_sql scope key t) else (none, t)

-- ABANDON_SQL
unfoldable pub abandon_sql : Text → Text → ℕ → Table → Option ℕ × Table
unfolding abandon_sql_at may_abandon
abandon_sql scope key fence t = abandon_sql_at (select_sql scope key t) scope key fence t

unfoldable get_sql_at : ℕ → Option RecordRow → Option RecordRow
get_sql_at now none = none
get_sql_at now (some row) = if ltb now row.expires_at then some row else none

-- GET_SQL
unfoldable pub get_sql : Text → Text → ℕ → Table → Option RecordRow
unfolding get_sql_at
get_sql scope key now t = get_sql_at now (select_sql scope key t)
