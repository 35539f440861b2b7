-- ===== src/Postgres/Equal.antt =====
-- The Postgres store against the D1 store, whatever other connections do.
use anyonce.Prelude.{
  ℕ, zero, suc, none, some, Option-cases, ◌≡◌, refl, sym, ◌∙◌, ap, arith, Option, ok, err, inl, inr,
  Text, M, Result,
}
use anyonce.Types.{Operation, BeginOptions, BeginOutcome, Payload}
use anyonce.Codec.{Json, RecordRow}
use anyonce.Sql.Rows.{claim_sql, store_sql}
use anyonce.Sql.{Table, select_sql, abandon_sql}
use anyonce.Postgres.{
  begin, begin_loop, classify, classify_completion, classify_release, complete, abandon, get, purge,
  unsettled,
}
use anyonce.D1.{refused_by, missed_by, kept_by}
use anyonce.D1

-- An answer of the one store as the other gives it: only the text of the error differs.
abbrev pub as_postgres : Result Text BeginOutcome × Table → Result Text BeginOutcome × Table
as_postgres (ok out, t) = (ok out, t)
as_postgres (err _, t) = (err unsettled, t)

abbrev answered : Option BeginOutcome → M Table Text BeginOutcome → M Table Text BeginOutcome
answered none retry t = retry t
answered (some out) retry t = (ok out, t)

module _ (json : Json) (others : ℕ → Table → Table) (op : Operation) where
  classify_lem :
      (opts : BeginOptions) (o : Option RecordRow) (retry : M Table Text BeginOutcome) (t : Table)
      → classify json others o op opts retry t ≡ answered (refused_by json o op opts) retry t
  unfolding classify refused_by
  classify_lem opts none retry t = refl
  classify_lem opts (some row) retry t = ground arith

  begin_loop_lem :
      (opts : BeginOptions) (left n : ℕ) (t : Table)
      → begin_loop json others op opts left n t
        ≡ as_postgres (D1.begin_loop json others op opts left n t)
  unfolding begin_loop D1.begin_loop D1.begin_turn
  begin_loop_lem opts zero n t = refl
  begin_loop_lem opts (suc left) n t = elim (Option-cases (claim_sql json op opts (others n t)).0) [
    | inr (fence, won) ↦
        let turn : D1.begin_turn json others op opts n t
            ≡ (some (BeginOutcome.acquired fence), (claim_sql json op opts (others n t)).1) =
          rw (D1.begin_turn, won) refl in
        rw (D1.begin_loop, ap (λ x. x.0) turn, begin_loop, won)
          (ap (λ x. (Result.ok (BeginOutcome.acquired fence), x.1)) (sym turn))
    | inl lost ↦
        let t' = others (suc n) (claim_sql json op opts (others n t)).1 in
        let turn : D1.begin_turn json others op opts n t
            ≡ (refused_by json (select_sql op.scope op.key t') op opts, t') =
          rw (D1.begin_turn, lost) refl in
        elim (Option-cases (refused_by json (select_sql op.scope op.key t') op opts)) [
          | inr (out, e) ↦
              rw (D1.begin_loop, ap (λ x. x.0) turn ∙ e, begin_loop, lost, classify_lem, e)
                (ap (λ x. (Result.ok out, x.1)) (sym turn))
          | inl e ↦
              let next : D1.begin_loop json others op opts (suc left) n t
                  ≡ D1.begin_loop json others op opts left (suc (suc n)) t' =
                rw (D1.begin_loop, ap (λ x. x.0) turn ∙ e)
                  (ap (λ x. D1.begin_loop json others op opts left (suc (suc n)) x.1) turn) in
              rw (begin_loop, lost, classify_lem, e)
                (begin_loop_lem opts left (suc (suc n)) t' ∙ ap as_postgres (sym next))
        ]
  ]

  missed_lem :
      (o : Option RecordRow) (fence now : ℕ)
      → classify_completion json others o fence now ≡ missed_by json o fence now
  unfolding classify_completion missed_by
  missed_lem none fence now = refl
  missed_lem (some row) fence now = refl

  kept_lem :
      (o : Option RecordRow) (fence : ℕ)
      → classify_release json others o fence ≡ kept_by json o fence
  unfolding classify_release kept_by
  kept_lem none fence = refl
  kept_lem (some row) fence = refl

  pub complete_lem :
      (fence : ℕ) (result : Payload) (now : ℕ) (t : Table)
      → complete json others op fence result now t ≡ D1.complete json others op fence result now t
  unfolding complete D1.complete
  complete_lem fence result now t =
      elim (Option-cases (store_sql json op fence result now (others 0 t)).0) [
        | inl lost ↦ rw (complete, D1.complete, lost, missed_lem) refl
        | inr (written, won) ↦ rw (complete, D1.complete, won) refl
      ]

  pub abandon_lem :
      (fence : ℕ) (t : Table) → abandon json others op fence t ≡ D1.abandon json others op fence t
  unfolding abandon D1.abandon
  abandon_lem fence t = elim (Option-cases (abandon_sql op.scope op.key fence (others 0 t)).0) [
    | inl lost ↦ rw (abandon, D1.abandon, lost, kept_lem) refl
    | inr (deleted, won) ↦ rw (abandon, D1.abandon, won) refl
  ]

  pub begin_lem :
      (opts : BeginOptions) (t : Table)
      → begin json others op opts t ≡ as_postgres (D1.begin json others op opts t)
  unfolding begin D1.begin
  begin_lem opts t = begin_loop_lem opts 3 0 t

  pub get_lem :
      (now : ℕ) (t : Table)
      → get json others op.scope op.key now t ≡ D1.get json others op.scope op.key now t
  unfolding get D1.get
  get_lem now t = refl

  -- Each operation of `PostgresStore` answers as the same operation of `D1Store` does and leaves the same table,
  -- whatever other connections do in between; only the text of the error differs that `begin` throws when three
  -- attempts do not settle it.
  pub postgres_lem :
      (opts : BeginOptions) (fence : ℕ) (result : Payload) (now : ℕ) (t : Table)
      → (begin json others op opts t ≡ as_postgres (D1.begin json others op opts t))
        × (complete json others op fence result now t
            ≡ D1.complete json others op fence result now t)
        × (abandon json others op fence t ≡ D1.abandon json others op fence t)
        × (get json others op.scope op.key now t ≡ D1.get json others op.scope op.key now t)
        × (purge json others now t ≡ D1.purge json others now t)
  unfolding begin D1.begin get D1.get purge D1.purge
  postgres_lem opts fence result now t =
      (begin_loop_lem opts 3 0 t, complete_lem fence result now t, abandon_lem fence t, refl, refl)
