-- ===== src/Redis/Completions.antt =====
-- A completion in Redis against the contract, on hashes that the store wrote.
use anyonce.Prelude.{
  ℕ, Text, codes, text_eq, text_eq_iff, true, false, Option, none, some, ◌≡◌, refl, ap, ◌∙◌, arith,
  Bool-cases, Bytes, if◌then◌else◌, inl, inr, leb, ◌==◌, ok, Result,
}
use anyonce.Types.{Operation, CompleteStatus, Payload, in_flight, completed}
use anyonce.Contract.{Row, Completes}
use anyonce.Codec.{Json, RecordRow, row_to_record, encode_result_meta, body_of, flag_of}
use anyonce.Codec.Laws.{complete_row, row_to_record-complete_row}
use anyonce.D1.Refusals.{state_cases}
use anyonce.Dict
use anyonce.Redis.{Hash, Error, complete_lua, complete_found, completed_hash}
use anyonce.Codec.Base64.{Base64, bytes_to_base64, bytes_to_base64-dash}
use anyonce.Redis.Methods.{Server, Script, body_argument, complete}
use anyonce.Redis.Hashes.{
  encode_body, hash_of, IsWritten, run-ok, get-set_hash, name, row_of, row, row_of-hash_of,
}

module _ (json : Json) (base64 : Base64) (prefix : Text) (op : Operation) where
  module _ (fence : ℕ) (result : Payload) (now : ℕ) where
    abbrev pub finish_lua : Option Hash → Result Error CompleteStatus × Option Hash
    finish_lua =
        complete_lua fence now (encode_result_meta json result)
          (body_argument json base64 prefix (body_of result)) (flag_of result)

    -- What COMPLETE_LUA replies, does to the row and leaves written.
    abbrev Finishes : Row → Result Error CompleteStatus × Option Hash → Type 0
    Finishes before turn =
        (out : CompleteStatus) × (turn.0 ≡ ok out)
        × Completes fence result now before out ((row_of json base64 prefix op) turn.1)
        × IsWritten base64 op turn.1

    written_body :
        (o : Option Bytes)
        → (if text_eq (body_argument json base64 prefix o) (codes "-")
            then none
            else some (body_argument json base64 prefix o))
          ≡ encode_body base64 o
    unfolding text_eq
    written_body none = refl
    written_body (some body) =
        elim (Bool-cases (text_eq (bytes_to_base64 base64 body) (codes "-"))) [
          | inl dash ↦ absurd (bytes_to_base64-dash base64 body ((text_eq_iff _ _).0 dash))
          | inr text ↦ rw text refl
        ]

    completed_hash_lem :
        (r : RecordRow)
        → completed_hash
            (encode_result_meta json result)
            (body_argument json base64 prefix (body_of result))
            (flag_of result)
            (hash_of base64 r)
          ≡ hash_of base64 (complete_row json r result)
    unfolding completed_hash
    completed_hash_lem r = rw (written_body (body_of result)) refl

    complete_lua-finishes :
        (r : RecordRow)
        → leb r.expires_at now ≡ false
        → (r.fence == fence) ≡ true
        → r.state ≡ in_flight
        → finish_lua (some (hash_of base64 r))
          ≡ (ok CompleteStatus.ok, some (hash_of base64 (complete_row json r result)))
    unfolding complete_lua complete_found
    complete_lua-finishes r live same flying =
        rw (live, same, flying) (ap (λ h. (ok CompleteStatus.ok, some h)) (completed_hash_lem r))

    complete_lua-repeats :
        (r : RecordRow)
        → leb r.expires_at now ≡ false
        → (r.fence == fence) ≡ true
        → r.state ≡ completed
        → finish_lua (some (hash_of base64 r)) ≡ (ok CompleteStatus.ok, some (hash_of base64 r))
    unfolding complete_lua complete_found
    complete_lua-repeats r live same done = simp (live, same, done)

    Finishes-of_row :
        (r : RecordRow)
        → r.scope ≡ op.scope
        → r.key ≡ op.key
        → Finishes (some (row_to_record json r)) (finish_lua (some (hash_of base64 r)))
    unfolding complete_lua complete_found row_to_record
    Finishes-of_row r hs hk = elim (Bool-cases (leb r.expires_at now)) [
      | inl gone ↦ rw gone (
        CompleteStatus.not_found,
        refl,
        rw ((row_of-hash_of json base64 prefix op) r hs hk)
            (Completes.expires (row_to_record json r) refl (ground arith) refl refl),
        inr (r, refl, hs, hk),
      )
      | inr live ↦ elim (Bool-cases (r.fence == fence)) [
        | inr other ↦
            rw (live, other)
              (
                CompleteStatus.stale_fence,
                refl,
                rw ((row_of-hash_of json base64 prefix op) r hs hk) (
                    Completes.is_stale (row_to_record json r) refl (ground arith) (ground arith)
                      refl refl),
                inr (r, refl, hs, hk),
              )
        | inl same ↦ elim (state_cases r.state) [
          | inr done ↦ rw (complete_lua-repeats r live same done) (
            CompleteStatus.ok,
            refl,
            rw ((row_of-hash_of json base64 prefix op) r hs hk) (
                Completes.repeats (row_to_record json r) refl (ground arith) (ground arith) done
                  refl refl),
            inr (r, refl, hs, hk),
          )
          | inl flying ↦ rw (complete_lua-finishes r live same flying) (
            CompleteStatus.ok,
            refl,
            Completes.finishes (row_to_record json r) refl (ground arith) (ground arith) flying refl
                ((row_of-hash_of json base64 prefix op) (complete_row json r result) hs hk
                  ∙ ap some (row_to_record-complete_row json r result)),
            inr (complete_row json r result, refl, hs, hk),
          )
        ]
      ]
    ]

    finish_lua-Finishes :
        (o : Option Hash)
        → IsWritten base64 op o
        → Finishes ((row_of json base64 prefix op) o) (finish_lua o)
    unfolding complete_lua
    finish_lua-Finishes o (inl absent) =
        rw absent (CompleteStatus.not_found, refl, Completes.misses refl refl refl, inl refl)
    finish_lua-Finishes o (inr (r, same, hs, hk)) =
        rw (same, (row_of-hash_of json base64 prefix op) r hs hk) (Finishes-of_row r hs hk)

  pub complete-Completes :
      (fence : ℕ) (result : Payload) (now : ℕ) (w : Server)
      → IsWritten base64 op (Dict.get (name json base64 prefix op) w.hashes)
      → (out : CompleteStatus) × ((complete json base64 prefix op fence result now w).0 ≡ ok out)
        × Completes fence result now
            ((row json base64 prefix op) w)
            out
            ((row json base64 prefix op) (complete json base64 prefix op fence result now w).1)
        × IsWritten base64 op (
            Dict.get
              (name json base64 prefix op)
              (complete json base64 prefix op fence result now w).1.hashes)
  unfolding complete
  complete-Completes fence result now w h =
      let (out, came, fits, written) =
        finish_lua-Finishes fence result now (Dict.get (name json base64 prefix op) w.hashes) h in
      let (answered, left) =
        run-ok Script.complete_script (name json base64 prefix op) (finish_lua fence result now) w
          out came in
      rw (left, get-set_hash) (out, answered, fits, written)
