-- ===== src/DurableObjects/Same.antt =====
-- One object, as far as its table of records goes, beside the D1 store while nobody else writes.
use anyonce.Prelude.{ℕ, some, Option-cases, ◌≡◌, refl, ap, ◌∙◌, inl, inr}
use anyonce.Types.{Operation, Payload, BeginOptions}
use anyonce.Codec.{Json}
use anyonce.Sql.{Table, abandon_sql, get_sql}
use anyonce.Sql.Rows.{claim_sql, store_sql}
use anyonce.D1
use anyonce.D1.Refines.{nobody, begin_turn-some}
use anyonce.DurableObjects.{
  DurableObject, begin_attempt, begin_loop, begin, complete, abandon, get, schedule_sweep,
}

-- What a call does to the records.
abbrev pub on_records : {A : Type 0} → A × DurableObject → A × Table
on_records x = (x.0, x.1.records)

module _ (json : Json) (op : Operation) where
  module _ (date_now : ℕ) (opts : BeginOptions) (grace : ℕ) where
    begin_turn_lem :
        (o : DurableObject)
        → on_records (begin_attempt json date_now op opts grace o)
          ≡ D1.begin_turn json nobody op opts 0 o.records
    unfolding begin_attempt D1.begin_turn schedule_sweep
    begin_turn_lem o = elim (Option-cases (claim_sql json op opts o.records).0) [
      | inl lost ↦ rw (begin_attempt, D1.begin_turn, lost) refl
      | inr (fence, won) ↦ rw (begin_attempt, D1.begin_turn, won) refl
    ]

    pub begin_lem :
        (o : DurableObject)
        → on_records (begin json date_now op opts grace o) ≡ D1.begin json nobody op opts o.records
    unfolding begin begin_loop D1.begin D1.begin_loop
    begin_lem o =
        let (out, settled, _) = begin_turn-some json op opts o.records in
        let same = begin_turn_lem o in
        let here : (begin_attempt json date_now op opts grace o).0 ≡ some out =
          ap (λ x. x.0) same ∙ settled in
        let records = ap (λ x. x.1) same in
        rw (begin_loop, D1.begin_loop, here, settled, records) refl

  pub complete_lem :
      (fence : ℕ) (result : Payload) (now : ℕ) (o : DurableObject)
      → on_records (complete json op fence result now o)
        ≡ D1.complete json nobody op fence result now o.records
  unfolding complete D1.complete
  complete_lem fence result now o =
      elim (Option-cases (store_sql json op fence result now o.records).0) [
        | inl lost ↦ rw (complete, D1.complete, lost) refl
        | inr (written, won) ↦ rw (complete, D1.complete, won) refl
      ]

  pub abandon_lem :
      (fence : ℕ) (o : DurableObject)
      → on_records (abandon json op fence o) ≡ D1.abandon json nobody op fence o.records
  unfolding abandon D1.abandon
  abandon_lem fence o = elim (Option-cases (abandon_sql op.scope op.key fence o.records).0) [
    | inl lost ↦ rw (abandon, D1.abandon, lost) refl
    | inr (deleted, won) ↦ rw (abandon, D1.abandon, won) refl
  ]

  pub get_lem :
      (now : ℕ) (o : DurableObject)
      → get json op.scope op.key now o ≡ ((D1.get json nobody op.scope op.key now o.records).0, o)
  unfolding get D1.get
  get_lem now o = elim (Option-cases (get_sql op.scope op.key now o.records)) [
    | inl e ↦ rw (get, D1.get, e) refl
    | inr (r, e) ↦ rw (get, D1.get, e) refl
  ]
