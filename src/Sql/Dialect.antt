-- ===== src/Sql/Dialect.antt =====
-- packages/stores/src/sql.ts: `pgSql`, which turns the placeholders of SQLite into those of Postgres.
use anyonce.Prelude.{
  ℕ, suc, ap, ◌++◌, Text, Bool, true, false, not, ◌&&◌, [], ◌∷◌, leb, ◌==◌, if◌then◌else◌, ◌≡◌, ◌≢◌,
  arith, ◌∙◌, refl, length, All,
}

-- `/[0-9]/.test(text[i + 1] ?? '')`
unfoldable pub starts_with_digit : Text → Bool
starts_with_digit [] = false
starts_with_digit (c ∷ s) = leb 48 c && leb c 57

-- The loop, with the quote state after the unit before; 39 is ', 63 is ? and 36 is $.
unfoldable rewrite_from : Bool → Text → Text
unfolding starts_with_digit
rewrite_from quoted [] = []
rewrite_from quoted (c ∷ s) =
    let quoted' = if c == 39 then not quoted else quoted in
    let rest = rewrite_from quoted' s in
    if not quoted' && (c == 63 && starts_with_digit s) then 36 ∷ rest else c ∷ rest

unfoldable pub pg_sql : Text → Text
unfolding rewrite_from
pg_sql text = rewrite_from false text

-- No `?` before a digit stands outside quotes.
abbrev pub has_placeholder : Bool → Text → Bool
has_placeholder quoted [] = false
has_placeholder quoted (c ∷ s) =
    let quoted' = if c == 39 then not quoted else quoted in
    let rest = has_placeholder quoted' s in
    if not quoted' && (c == 63 && starts_with_digit s) then true else rest

-- Back to the placeholders of SQLite.
abbrev pub undo : Text → Text
undo [] = []
undo (c ∷ s) = (if c == 36 then 63 else c) ∷ undo s

starts_with_digit-rewrite_from :
    (quoted : Bool) (s : Text) → starts_with_digit (rewrite_from quoted s) ≡ starts_with_digit s
unfolding starts_with_digit rewrite_from
starts_with_digit-rewrite_from quoted [] = refl
starts_with_digit-rewrite_from quoted (c ∷ s) = ground arith

rewrite_from_lem :
    (quoted : Bool) (s : Text)
    → (has_placeholder quoted (rewrite_from quoted s) ≡ false)
      × (length (rewrite_from quoted s) ≡ length s)
      × (All (λ c. c ≢ 36) s → undo (rewrite_from quoted s) ≡ s)
unfolding rewrite_from
rewrite_from_lem quoted [] = (refl, refl, λ h. refl)
rewrite_from_lem quoted (c ∷ s) =
    let quoted' = if c == 39 then not quoted else quoted in
    let (clean, same, back) = rewrite_from_lem quoted' s in
    (
      ground (arith, clean, starts_with_digit-rewrite_from quoted' s),
      ground (arith, same),
      λ h. ground (arith, h.0, back h.1),
    )

-- Whether an odd number of quotes stands in a text, so that what follows it is quoted.
abbrev pub leaves_open : Text → Bool
leaves_open [] = false
leaves_open (c ∷ s) = if c == 39 then not (leaves_open s) else leaves_open s

-- What stands in the place of the unit `c`, between `before` and `after`.
abbrev pub unit_for : Text → ℕ → Text → ℕ
unit_for before c after =
    if not (leaves_open before) && (c == 63 && starts_with_digit after) then 36 else c

abbrev opens : Bool → Text → Bool
opens quoted s = if quoted then not (leaves_open s) else leaves_open s

-- What one turn of the loop writes, as a function of the quote state before it.
rewrite_from-cons :
    (quoted : Bool) (c : ℕ) (s : Text)
    → rewrite_from quoted (c ∷ s)
      ≡ (if not quoted && (c == 63 && starts_with_digit s) then 36 else c)
        ∷ rewrite_from (if c == 39 then not quoted else quoted) s
unfolding rewrite_from
rewrite_from-cons quoted c s = ground arith

opens-cons :
    (quoted : Bool) (d : ℕ) (s : Text)
    → opens (if d == 39 then not quoted else quoted) s ≡ opens quoted (d ∷ s)
opens-cons quoted d s = ground arith

rewrite_from-at :
    (quoted : Bool) (before : Text) (c : ℕ) (after : Text)
    → (before' : Text) × (after' : Text) × (rewrite_from quoted (before ++ c ∷ after)
        ≡ before'
          ++ (if not (opens quoted before) && (c == 63 && starts_with_digit after) then 36 else c)
            ∷ after')
      × (length before' ≡ length before)
rewrite_from-at true [] c after = ([], _, rewrite_from-cons true c after, refl)
rewrite_from-at false [] c after = ([], _, rewrite_from-cons false c after, refl)
rewrite_from-at quoted (d ∷ before) c after =
    let (before', after', same, long) =
      rewrite_from-at (if d == 39 then not quoted else quoted) before c after in
    let unit =
      if not quoted && (d == 63 && starts_with_digit (before ++ c ∷ after)) then 36 else d in
    (
      unit ∷ before',
      after',
      rewrite_from-cons quoted d (before ++ c ∷ after) ∙ ap (λ s. unit ∷ s) (rw opens-cons at same),
      ap suc long,
    )

-- What `pgSql` returns has no SQLite placeholder outside quotes and is as long as the statement, and turning `$`
-- back into `?` gives the statement again, if that has no `$`. Each unit of it is the unit in the same place of the
-- statement, but for a `?` with a digit behind it and an even number of quotes before it, where it is `$`.
pub pg_sql_lem :
    (text : Text)
    → (has_placeholder false (pg_sql text) ≡ false)
      × (length (pg_sql text) ≡ length text)
      × (All (λ c. c ≢ 36) text → undo (pg_sql text) ≡ text)
      × ((before : Text) (c : ℕ) (after : Text)
          → text ≡ before ++ c ∷ after
          → (before' : Text) × (after' : Text) × (pg_sql text
              ≡ before' ++ unit_for before c after ∷ after')
            × (length before' ≡ length before))
unfolding pg_sql
pg_sql_lem text =
    let (clean, same, back) = rewrite_from_lem false text in
    (clean, same, back, λ before c after e. rw e (rewrite_from-at false before c after))
