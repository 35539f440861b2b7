-- ===== src/Redis/Claims.antt =====
-- A claim in the Redis store against the contract, on hashes that the store wrote.
use anyonce.Prelude.{
  ℕ, ◌+◌, Text, text_eq, text_eq_iff, true, Option, none, some, ◌≡◌, ◌<◌, refl, ap, ◌∙◌, arith,
  Bool-cases, inl, inr, ltb, ok, Result,
}
use anyonce.Types.{Operation, BeginOptions, BeginOutcome, in_flight, completed}
use anyonce.Contract.{
  Row, claim, Begins, claims_new, claims_expired, takes_over, mismatches, replays, conflicts,
}
use anyonce.Codec.{Json, RecordRow, row_to_record}
use anyonce.Sql.{begin_row}
use anyonce.D1.Refusals.{state_cases}
use anyonce.Dict
use anyonce.Redis.{
  Hash, Error, BeginReply, replies_acquired, replies_in_flight, replies_completed, replies_mismatch,
  begin_lua, begin_found, begin_same, begin_leased, reclaim, claimed_hash,
}
use anyonce.Codec.Base64.{Base64}
use anyonce.Redis.Methods.{Server, Script, outcome_of, begin}
use anyonce.Redis.Hashes.{
  hash_of, IsWritten, run-ok, get-set_hash, name, row_of, row, hash_to_row-hash_of, row_of-hash_of,
}

module _ (json : Json) (base64 : Base64) (prefix : Text) (op : Operation) where
  module _ (opts : BeginOptions) where
    abbrev pub claim_lua : Option Hash → Result Error BeginReply × Option Hash
    claim_lua = begin_lua op.fingerprint opts.now opts.lease_ms opts.ttl_ms

    abbrev claim_row : ℕ → RecordRow
    claim_row fence =
        begin_row op.scope op.key op.fingerprint fence opts.now (opts.now + opts.lease_ms)
          (opts.now + opts.ttl_ms)

    claimed_hash_lem :
        (fence : ℕ)
        → claimed_hash op.fingerprint opts.now opts.lease_ms opts.ttl_ms fence
          ≡ hash_of base64 (claim_row fence)
    unfolding claimed_hash
    claimed_hash_lem fence = refl

    row_of-claimed_hash :
        (fence : ℕ)
        → (row_of json base64 prefix op)
            (some (claimed_hash op.fingerprint opts.now opts.lease_ms opts.ttl_ms fence))
          ≡ some (claim op opts fence)
    unfolding row_to_record
    row_of-claimed_hash fence =
        ap (λ h. (row_of json base64 prefix op) (some h)) (claimed_hash_lem fence)
        ∙ (row_of-hash_of json base64 prefix op) (claim_row fence) refl refl

    -- What BEGIN_LUA replies, does to the row and leaves written.
    abbrev Settles : Row → Result Error BeginReply × Option Hash → Type 0
    Settles before turn =
        (reply : BeginReply) × (turn.0 ≡ ok reply)
        × Begins op opts before (outcome_of json base64 prefix op reply)
            ((row_of json base64 prefix op) turn.1)
        × IsWritten base64 op turn.1

    Settles-claim :
        (before : Row) (fence : ℕ)
        → ((row' : Row)
            → row' ≡ some (claim op opts fence)
            → Begins op opts before (BeginOutcome.acquired fence) row')
        → Settles before (
          ok (replies_acquired fence),
          some (claimed_hash op.fingerprint opts.now opts.lease_ms opts.ttl_ms fence),
        )
    unfolding outcome_of
    Settles-claim before fence begins = (
      replies_acquired fence,
      refl,
      begins _ (row_of-claimed_hash fence),
      inr (claim_row fence, ap some (claimed_hash_lem fence), refl, refl),
    )

    -- A live row of the same operation that is in flight.
    Settles-leased :
        (r : RecordRow)
        → r.scope ≡ op.scope
        → r.key ≡ op.key
        → opts.now < r.expires_at
        → r.fingerprint ≡ op.fingerprint
        → r.state ≡ in_flight
        → Settles
            (some (row_to_record json r))
            (begin_leased op.fingerprint opts.now opts.lease_ms opts.ttl_ms (hash_of base64 r))
    unfolding begin_leased reclaim outcome_of row_to_record
    Settles-leased r hs hk live same flying = elim (Bool-cases (ltb opts.now r.lease_until)) [
      | inl held ↦ rw held (
        replies_in_flight r.lease_until,
        refl,
        rw ((row_of-hash_of json base64 prefix op) r hs hk)
            (conflicts (row_to_record json r) refl live same flying (ground arith) refl refl),
        inr (r, refl, hs, hk),
      )
      | inr over ↦ rw over (
          Settles-claim _ (r.fence + 1) (λ row' e.
            takes_over (row_to_record json r) refl live same flying (ground arith) refl e))
    ]

    claim_lua-leased :
        (r : RecordRow)
        → ltb opts.now r.expires_at ≡ true
        → text_eq r.fingerprint op.fingerprint ≡ true
        → r.state ≡ in_flight
        → claim_lua (some (hash_of base64 r))
          ≡ begin_leased op.fingerprint opts.now opts.lease_ms opts.ttl_ms (hash_of base64 r)
    unfolding begin_lua begin_found begin_same
    claim_lua-leased r live same flying = simp (live, same, flying)

    claim_lua-completed :
        (r : RecordRow)
        → ltb opts.now r.expires_at ≡ true
        → text_eq r.fingerprint op.fingerprint ≡ true
        → r.state ≡ completed
        → claim_lua (some (hash_of base64 r))
          ≡ (ok (replies_completed (hash_of base64 r)), some (hash_of base64 r))
    unfolding begin_lua begin_found begin_same
    claim_lua-completed r live same done = simp (live, same, done)

    Settles-completed :
        (r : RecordRow)
        → r.scope ≡ op.scope
        → r.key ≡ op.key
        → Begins op opts
            (some (row_to_record json r))
            (BeginOutcome.completed (row_to_record json r))
            (some (row_to_record json r))
        → Settles
            (some (row_to_record json r))
            (ok (replies_completed (hash_of base64 r)), some (hash_of base64 r))
    unfolding outcome_of
    Settles-completed r hs hk begins = (
      replies_completed (hash_of base64 r),
      refl,
      rw ((hash_to_row-hash_of json base64 prefix op) r hs hk) begins,
      inr (r, refl, hs, hk),
    )

    -- A live row of the scope and key.
    Settles-live :
        (r : RecordRow)
        → r.scope ≡ op.scope
        → r.key ≡ op.key
        → ltb opts.now r.expires_at ≡ true
        → Settles (some (row_to_record json r)) (claim_lua (some (hash_of base64 r)))
    unfolding begin_lua begin_found begin_same outcome_of row_to_record
    Settles-live r hs hk live = elim (Bool-cases (text_eq r.fingerprint op.fingerprint)) [
      | inr other ↦
          rw (live, other)
            (
              replies_mismatch (hash_of base64 r),
              refl,
              rw ((hash_to_row-hash_of json base64 prefix op) r hs hk) (
                  mismatches (row_to_record json r) refl (ground arith)
                    (ground (arith, text_eq_iff r.fingerprint op.fingerprint)) refl refl),
              inr (r, refl, hs, hk),
            )
      | inl same ↦ elim (state_cases r.state) [
        | inr done ↦ rw (claim_lua-completed r live same done) (
            Settles-completed r hs hk (
              replays (row_to_record json r) refl (ground arith) ((text_eq_iff _ _).0 same) done
                refl refl))
        | inl flying ↦
            rw (claim_lua-leased r live same flying)
              (Settles-leased r hs hk (ground arith) ((text_eq_iff _ _).0 same) flying)
      ]
    ]

    claim_lua-Settles :
        (o : Option Hash)
        → IsWritten base64 op o
        → Settles ((row_of json base64 prefix op) o) (claim_lua o)
    unfolding begin_lua begin_found reclaim row_to_record
    claim_lua-Settles o (inl absent) =
        rw absent (Settles-claim none 1 (λ row' e. claims_new refl refl e))
    claim_lua-Settles o (inr (r, same, hs, hk)) = elim (Bool-cases (ltb opts.now r.expires_at)) [
      | inl live ↦
          rw (same, (row_of-hash_of json base64 prefix op) r hs hk) (Settles-live r hs hk live)
      | inr gone ↦
          rw (same, (row_of-hash_of json base64 prefix op) r hs hk, gone)
            (Settles-claim _ (r.fence + 1)
              (λ row' e. claims_expired (row_to_record json r) refl (ground arith) refl e))
    ]

    pub begin-Begins :
        (w : Server)
        → IsWritten base64 op (Dict.get (name json base64 prefix op) w.hashes)
        → (out : BeginOutcome) × ((begin json base64 prefix op opts w).0 ≡ ok out)
          × Begins op opts
              ((row json base64 prefix op) w)
              out
              ((row json base64 prefix op) (begin json base64 prefix op opts w).1)
          × IsWritten base64 op
              (Dict.get (name json base64 prefix op) (begin json base64 prefix op opts w).1.hashes)
    unfolding begin
    begin-Begins w h =
        let (reply, came, fits, written) =
          claim_lua-Settles (Dict.get (name json base64 prefix op) w.hashes) h in
        let (answered, left) =
          run-ok Script.begin_script (name json base64 prefix op) claim_lua w reply came in
        rw (answered, left, get-set_hash)
          (outcome_of json base64 prefix op reply, refl, fits, written)
