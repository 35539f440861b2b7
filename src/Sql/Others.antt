-- ===== src/Sql/Others.antt =====
-- The statements and the rows of other primary keys.
use anyonce.Prelude.{arith, ℕ, Text, Bytes, Option, none, some, Bool-cases, inl, inr, ◌≡◌, refl}
use anyonce.Codec.{RecordRow}
use anyonce.Sql.{
  Table, select_sql, begin_sql, begin_sql_at, may_claim, complete_sql, complete_sql_at,
  may_complete, abandon_sql, abandon_sql_at, may_abandon,
}
use anyonce.Sql.Laws.{Apart, select-write_ne, select-remove_self, select-remove_ne, select-eq-some}

-- Both tables have the same row at every other primary key.
abbrev pub SameOthers : Text → Text → Table → Table → Type 0
SameOthers scope key t t' =
    (scope' key' : Text)
    → Apart scope key scope' key'
    → select_sql scope' key' t' ≡ select_sql scope' key' t

module _ (scope key : Text) where
  begin_at-SameOthers :
      (fingerprint : Text) (now lease_until expires_at : ℕ) (o : Option RecordRow) (t : Table)
      → SameOthers scope key t (begin_sql_at o scope key fingerprint now lease_until expires_at t).1
  unfolding begin_sql_at
  begin_at-SameOthers fingerprint now lease_until expires_at none t scope' key' apart =
      select-write_ne scope key scope' key' apart _ t refl refl
  begin_at-SameOthers fingerprint now lease_until expires_at (some r) t scope' key' apart =
      elim (Bool-cases (may_claim fingerprint now r)) [
        | inl won ↦ rw won (select-write_ne scope key scope' key' apart _ t refl refl)
        | inr lost ↦ rw lost refl
      ]

  pub begin_sql-SameOthers :
      (fingerprint : Text) (now lease_until expires_at : ℕ) (t : Table)
      → SameOthers scope key t (begin_sql scope key fingerprint now lease_until expires_at t).1
  unfolding begin_sql
  begin_sql-SameOthers fingerprint now lease_until expires_at t =
      begin_at-SameOthers fingerprint now lease_until expires_at (select_sql scope key t) t

  complete_at-SameOthers :
      (fence now : ℕ) (meta : Text) (body : Option Bytes) (flag : ℕ) (o : Option RecordRow)
      (t : Table)
      → ((r : RecordRow) → o ≡ some r → (r.scope ≡ scope) × (r.key ≡ key))
      → SameOthers scope key t (complete_sql_at o fence now meta body flag t).1
  unfolding complete_sql_at
  complete_at-SameOthers fence now meta body flag none t found scope' key' apart = refl
  complete_at-SameOthers fence now meta body flag (some r) t found scope' key' apart =
      elim (Bool-cases (may_complete fence now r)) [
        | inl won ↦
            let (hs, hk) = found r refl in
            rw won (select-write_ne scope key scope' key' apart _ t hs hk)
        | inr lost ↦ rw lost refl
      ]

  pub complete_sql-SameOthers :
      (fence now : ℕ) (meta : Text) (body : Option Bytes) (flag : ℕ) (t : Table)
      → SameOthers scope key t (complete_sql scope key fence now meta body flag t).1
  unfolding complete_sql
  complete_sql-SameOthers fence now meta body flag t =
      complete_at-SameOthers fence now meta body flag (select_sql scope key t) t
        (select-eq-some scope key t)

  abandon_at-SameOthers :
      (fence : ℕ) (o : Option RecordRow) (t : Table)
      → SameOthers scope key t (abandon_sql_at o scope key fence t).1
  unfolding abandon_sql_at
  abandon_at-SameOthers fence none t scope' key' apart = refl
  abandon_at-SameOthers fence (some r) t scope' key' apart =
      elim (Bool-cases (may_abandon fence r)) [
        | inl won ↦ rw won (select-remove_ne scope key scope' key' apart t)
        | inr lost ↦ rw lost refl
      ]

  pub abandon_sql-SameOthers :
      (fence : ℕ) (t : Table) → SameOthers scope key t (abandon_sql scope key fence t).1
  unfolding abandon_sql
  abandon_sql-SameOthers fence t = abandon_at-SameOthers fence (select_sql scope key t) t

  -- A completion of a row that is not there writes none.
  pub complete_sql-missing :
      (fence now : ℕ) (meta : Text) (body : Option Bytes) (flag : ℕ) (t : Table)
      → select_sql scope key t ≡ none
      → (complete_sql scope key fence now meta body flag t).1 ≡ t
  unfolding complete_sql complete_sql_at
  complete_sql-missing fence now meta body flag t e = rw (complete_sql, e) refl

  abandon_at-removed :
      (fence deleted : ℕ) (o : Option RecordRow) (t : Table)
      → (abandon_sql_at o scope key fence t).0 ≡ some deleted
      → select_sql scope key (abandon_sql_at o scope key fence t).1 ≡ none
  unfolding abandon_sql_at
  abandon_at-removed fence deleted none t h = cc h
  abandon_at-removed fence deleted (some r) t h = elim (Bool-cases (may_abandon fence r)) [
    | inl won ↦ rw won (select-remove_self scope key t)
    | inr lost ↦ absurd (ground arith)
  ]

  -- An abandonment that returns a row removed it.
  pub abandon_sql-removed :
      (fence deleted : ℕ) (t : Table)
      → (abandon_sql scope key fence t).0 ≡ some deleted
      → select_sql scope key (abandon_sql scope key fence t).1 ≡ none
  unfolding abandon_sql
  abandon_sql-removed fence deleted t h =
      abandon_at-removed fence deleted (select_sql scope key t) t h
