-- ===== src/DurableObjects/Listed.antt =====
-- Each record is listed in the sweep table: what removals, purges and the alarm do to that.
use anyonce.Prelude.{
  ℕ, subst, Text, true, none, some, Option-cases, List, [], ◌∷◌, ◌≡◌, refl, sym, ◌∙◌, arith,
  Bool-cases, inl, inr, ltb,
}
use anyonce.Codec.{RecordRow}
use anyonce.Sql.{Table, select_sql, purge_sql, purged}
use anyonce.Sql.Laws.{select-remove_self, select-remove_ne}
use anyonce.DurableObjects.{
  DurableObject, SweepRow, purge, physically_remove, alarm, remove_due, sweep_due, sweep_next,
}
use anyonce.DurableObjects.Sweeps.{
  is_listed, AllCovered, same_or_Apart, is_listed-remove, is_listed-prune, AllCovered-remove,
  AllCovered-prune, sweep_next-covers,
}

-- Each row of the table has one in the sweep table.
abbrev pub AllListed : Table → List SweepRow → Type 0
AllListed t ss =
    (scope key : Text) (r : RecordRow)
    → select_sql scope key t ≡ some r
    → is_listed scope key ss ≡ true

-- Each record is listed for the sweep, and the alarm is set no later than any listed time.
abbrev pub IsSwept : DurableObject → Type 0
IsSwept o = AllListed o.records o.sweep × AllCovered o.alarm o.sweep

AllListed-remove :
    (scope key : Text) (o : DurableObject)
    → AllListed o.records o.sweep
    → AllListed (physically_remove scope key o).records (physically_remove scope key o).sweep
unfolding physically_remove
AllListed-remove scope key o listed scope' key' r at = elim (same_or_Apart scope key scope' key') [
  | inl (hs, hk) ↦ absurd (cc (rw (sym hs, sym hk, select-remove_self scope key o.records) at at))
  | inr apart ↦
      is_listed-remove scope key scope' key' o.sweep apart
        (listed scope' key' r (sym (select-remove_ne scope key scope' key' apart o.records) ∙ at))
]

pub physically_remove-IsSwept :
    (scope key : Text) (o : DurableObject) → IsSwept o → IsSwept (physically_remove scope key o)
unfolding physically_remove
physically_remove-IsSwept scope key o (listed, covered) =
    (AllListed-remove scope key o listed, AllCovered-remove scope key o.alarm o.sweep covered)

AllListed-remove_due :
    (ss : List SweepRow) (o : DurableObject)
    → AllListed o.records o.sweep
    → AllListed (remove_due ss o).records (remove_due ss o).sweep
unfolding remove_due
AllListed-remove_due [] o h = h
AllListed-remove_due (s ∷ ss) o h =
    AllListed-remove_due ss (physically_remove s.scope s.key o) (AllListed-remove s.scope s.key o h)

remove_due-alarm : (ss : List SweepRow) (o : DurableObject) → (remove_due ss o).alarm ≡ o.alarm
unfolding remove_due physically_remove
remove_due-alarm [] o = refl
remove_due-alarm (s ∷ ss) o = remove_due-alarm ss (physically_remove s.scope s.key o)

-- After the alarm the invariant holds of whatever the alarm was.
pub alarm-IsSwept :
    (wall : ℕ) (o : DurableObject) → AllListed o.records o.sweep → IsSwept (alarm wall o)
unfolding alarm
alarm-IsSwept wall o listed =
    let o' = record o { alarm = none } in
    let due = sweep_due wall o.sweep in
    let left = AllListed-remove_due due o' listed in
    let swept = (remove_due due o').sweep in
    let covers = sweep_next-covers swept in
    elim (Option-cases (sweep_next (remove_due due o').sweep)) [
      | inl e ↦
          rw (alarm, e)
            (left, subst (λ a. AllCovered a swept) (e ∙ sym (remove_due-alarm due o')) covers)
      | inr (at, e) ↦ rw (alarm, e) (left, subst (λ a. AllCovered a swept) e covers)
    ]

select-purge :
    (now : ℕ) (scope key : Text) (t : Table)
    → select_sql scope key t ≡ none
    → select_sql scope key (purge_sql now t) ≡ none
unfolding select_sql purge_sql
select-purge now scope key [] e = refl
select-purge now scope key (row ∷ t) e = ground (arith, select-purge now scope key t)

AllListed-purge :
    (now : ℕ) (t : Table) (ss : List SweepRow) → AllListed t ss → AllListed (purge_sql now t) ss
AllListed-purge now t ss listed scope key r at = elim (Option-cases (select_sql scope key t)) [
  | inl e ↦ absurd (cc (rw (select-purge now scope key t e) at at))
  | inr (r', e) ↦ listed scope key r' e
]

pub purge-IsSwept : (now : ℕ) (o : DurableObject) → IsSwept o → IsSwept (purge now o).1
unfolding purge
purge-IsSwept now o (listed, covered) =
    let listed' = AllListed-purge now o.records o.sweep listed in
    elim (Bool-cases (ltb 0 (purged now o.records))) [
      | inl some_gone ↦
          rw (purge, some_gone)
            (
              (λ scope key r at.
                  is_listed-prune scope key (purge_sql now o.records) r o.sweep at
                    (listed' scope key r at)),
              AllCovered-prune o.alarm (purge_sql now o.records) o.sweep covered,
            )
      | inr none_gone ↦ rw (purge, none_gone) (listed', covered)
    ]
