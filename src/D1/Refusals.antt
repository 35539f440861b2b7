-- ===== src/D1/Refusals.antt =====
-- The answers that the D1 store reads off the row which refused a statement.
use anyonce.Prelude.{
  ℕ, text_eq, text_eq_iff, false, none, some, ◌≡◌, refl, arith, Bool-cases, leb, ◌==◌, Option, inl,
  inr, ◌⊎◌,
}
use anyonce.Types.{Operation, BeginOptions, BeginOutcome, Payload, RecordState}
use anyonce.Contract.{Begins, mismatches, replays, conflicts, Completes, Abandons}
use anyonce.Codec.{Json, RecordRow, row_to_record}
use anyonce.Sql.{may_claim, may_complete, may_abandon}
use anyonce.Sql.Rows.{record_of}
use anyonce.D1.{refused_by, missed_by, kept_by}

pub state_cases : (s : RecordState) → (s ≡ RecordState.in_flight) ⊎ (s ≡ RecordState.completed)
state_cases RecordState.in_flight = inl refl
state_cases RecordState.completed = inr refl

module _ (json : Json) where
  pub refused_by-Begins :
      (op : Operation) (opts : BeginOptions) (o : Option RecordRow) (out : BeginOutcome)
      → refused_by json o op opts ≡ some out
      → Begins op opts (record_of json o) out (record_of json o)
  unfolding refused_by row_to_record
  refused_by-Begins op opts none out h = cc
  refused_by-Begins op opts (some r) out h = elim (Bool-cases (leb r.expires_at opts.now)) [
    | inl gone ↦ absurd (ground arith)
    | inr live ↦ elim (Bool-cases (text_eq r.fingerprint op.fingerprint)) [
      | inr other ↦
          mismatches (row_to_record json r) refl (ground arith)
            (ground (arith, text_eq_iff r.fingerprint op.fingerprint)) (ground arith) refl
      | inl same ↦ elim (state_cases r.state) [
        | inr done ↦
            replays (row_to_record json r) refl (ground arith) ((text_eq_iff _ _).0 same) done
              (ground arith) refl
        | inl flying ↦
            conflicts (row_to_record json r) refl (ground arith) ((text_eq_iff _ _).0 same) flying
              (ground arith) (ground arith) refl
      ]
    ]
  ]

  -- A row that a claim could not take is not missed by the classification.
  pub refused_by-some :
      (op : Operation) (opts : BeginOptions) (r : RecordRow)
      → may_claim op.fingerprint opts.now r ≡ false
      → (out : BeginOutcome) × (refused_by json (some r) op opts ≡ some out)
  unfolding refused_by
  refused_by-some op opts r h = elim (Bool-cases (text_eq r.fingerprint op.fingerprint)) [
    | inr other ↦ (BeginOutcome.mismatch (row_to_record json r), unfold may_claim in ground arith)
    | inl same ↦ elim (state_cases r.state) [
      | inr done ↦ (BeginOutcome.completed (row_to_record json r), unfold may_claim in ground arith)
      | inl flying ↦ (BeginOutcome.in_flight r.lease_until, unfold may_claim in ground arith)
    ]
  ]

  pub missed_by-Completes :
      (fence : ℕ) (result : Payload) (now : ℕ) (o : Option RecordRow)
      → ((r : RecordRow) → o ≡ some r → may_complete fence now r ≡ false)
      → Completes fence result now
          (record_of json o)
          (missed_by json o fence now)
          (record_of json o)
  unfolding missed_by row_to_record
  missed_by-Completes fence result now none lost = Completes.misses refl refl refl
  missed_by-Completes fence result now (some r) lost =
      let refused : may_complete fence now r ≡ false = lost r refl in
      elim (Bool-cases (leb r.expires_at now)) [
        | inl gone ↦
            rw gone (Completes.expires (row_to_record json r) refl (ground arith) refl refl)
        | inr live ↦ elim (Bool-cases (r.fence == fence)) [
          | inr other ↦
              rw (live, other)
                (Completes.is_stale (row_to_record json r) refl (ground arith) (ground arith) refl
                  refl)
          | inl same ↦ elim (state_cases r.state) [
            | inr done ↦
                rw (live, same)
                  (Completes.repeats (row_to_record json r) refl (ground arith) (ground arith) done
                    refl refl)
            | inl flying ↦ absurd (unfold may_complete in ground arith)
          ]
        ]
      ]

  pub kept_by-Abandons :
      (fence : ℕ) (o : Option RecordRow)
      → ((r : RecordRow) → o ≡ some r → may_abandon fence r ≡ false)
      → Abandons fence (record_of json o) (kept_by json o fence) (record_of json o)
  unfolding kept_by row_to_record
  kept_by-Abandons fence none lost = Abandons.misses refl refl refl
  kept_by-Abandons fence (some r) lost =
      let refused : may_abandon fence r ≡ false = lost r refl in
      elim (state_cases r.state) [
        | inr done ↦ Abandons.too_late (row_to_record json r) refl done (ground arith) refl
        | inl flying ↦ elim (Bool-cases (r.fence == fence)) [
          | inr other ↦
              Abandons.is_stale (row_to_record json r) refl flying (ground arith) (ground arith)
                refl
          | inl same ↦ absurd (unfold may_abandon in ground arith)
        ]
      ]
