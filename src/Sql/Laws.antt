-- ===== src/Sql/Laws.antt =====
-- The statements against lookups, and what each returns and writes.
use anyonce.Prelude.{
  ℕ, suc, ◌≤◌, ◌<◌, Text, text_eq_iff, none, some, [], ◌∷◌, ◌≡◌, ◌≢◌, ◌⊎◌, refl, ap, arith, length,
  All, Bool-cases, inl, inr, leb,
}
use anyonce.Codec.{RecordRow}
use anyonce.Sql.{Table, select_sql, write, remove_sql, purge_sql, purged}

-- Two primary keys that differ.
abbrev pub Apart : Text → Text → Text → Text → Type 0
Apart scope key scope' key' = (scope ≢ scope') ⊎ (key ≢ key')

module _ (scope key : Text) where
  pub select-write_self :
      (row : RecordRow) (t : Table)
      → row.scope ≡ scope
      → row.key ≡ key
      → select_sql scope key (write row t) ≡ some row
  unfolding select_sql write
  select-write_self row [] hs hk =
      ground (arith, text_eq_iff row.scope scope, text_eq_iff row.key key)
  select-write_self row (old ∷ t) hs hk = ground (
    arith,
    text_eq_iff row.scope scope,
    text_eq_iff row.key key,
    text_eq_iff old.scope scope,
    text_eq_iff old.key key,
    select-write_self row t hs hk,
  )

  pub select-remove_self : (t : Table) → select_sql scope key (remove_sql scope key t) ≡ none
  unfolding select_sql remove_sql
  select-remove_self [] = refl
  select-remove_self (row ∷ t) = ground (arith, select-remove_self t)

  -- The row that is found is at the key.
  pub select-eq-some :
      (t : Table) (row : RecordRow)
      → select_sql scope key t ≡ some row
      → (row.scope ≡ scope) × (row.key ≡ key)
  unfolding select_sql
  select-eq-some [] row h = cc
  select-eq-some (old ∷ t) row h =
      ground (arith, select-eq-some t row, text_eq_iff old.scope scope, text_eq_iff old.key key)

  module _ (scope' key' : Text) (apart : Apart scope key scope' key') where
    pub select-write_ne :
        (row : RecordRow) (t : Table)
        → row.scope ≡ scope
        → row.key ≡ key
        → select_sql scope' key' (write row t) ≡ select_sql scope' key' t
    unfolding select_sql write
    select-write_ne row [] hs hk =
        ground (arith, text_eq_iff row.scope scope', text_eq_iff row.key key')
    select-write_ne row (old ∷ t) hs hk = ground (
      arith,
      text_eq_iff row.scope scope',
      text_eq_iff row.key key',
      text_eq_iff old.scope row.scope,
      text_eq_iff old.key row.key,
      text_eq_iff old.scope scope',
      text_eq_iff old.key key',
      select-write_ne row t hs hk,
    )

    pub select-remove_ne :
        (t : Table) → select_sql scope' key' (remove_sql scope key t) ≡ select_sql scope' key' t
    unfolding select_sql remove_sql
    select-remove_ne [] = refl
    select-remove_ne (old ∷ t) = ground (
      arith,
      text_eq_iff old.scope scope,
      text_eq_iff old.key key,
      text_eq_iff old.scope scope',
      text_eq_iff old.key key',
      select-remove_ne t,
    )

-- `zs` is `xs` and `ys` merged, each in its order.
abbrev pub Interleaves : Table → Table → Table → Type 0
Interleaves xs ys [] = (xs ≡ []) × (ys ≡ [])
Interleaves xs ys (z ∷ zs) =
    ((xs' : Table) × (xs ≡ z ∷ xs') × Interleaves xs' ys zs)
    ⊎ ((ys' : Table) × (ys ≡ z ∷ ys') × Interleaves xs ys' zs)

-- A sweep divides the table into the rows that it keeps, all live and in their order, and rows that have all
-- expired, and it returns the number of these.
pub purge_sql_lem :
    (now : ℕ) (t : Table)
    → All (λ (row : RecordRow). now < row.expires_at) (purge_sql now t)
      × (gone : Table) × All (λ (row : RecordRow). row.expires_at ≤ now) gone
      × (purged now t ≡ length gone)
      × Interleaves (purge_sql now t) gone t
unfolding purge_sql purged
purge_sql_lem now [] = (tt, [], tt, refl, (refl, refl))
purge_sql_lem now (row ∷ t) =
    let (live, gone, dead, count, merged) = purge_sql_lem now t in
    elim (Bool-cases (leb row.expires_at now)) [
      | inl old ↦
          rw old (live, row ∷ gone, (ground arith, dead), ap suc count, inr (gone, refl, merged))
      | inr kept ↦
          rw kept ((ground arith, live), gone, dead, count, inl (purge_sql now t, refl, merged))
    ]
