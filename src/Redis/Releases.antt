-- ===== src/Redis/Releases.antt =====
-- An abandonment in Redis against the contract, on hashes that the store wrote.
use anyonce.Prelude.{
  ℕ, Text, Option, none, some, ◌≡◌, refl, arith, Bool-cases, if◌then◌else◌, inl, inr, ◌==◌, ok,
  Result,
}
use anyonce.Types.{Operation, CompleteStatus, in_flight, completed}
use anyonce.Contract.{Row, Abandons}
use anyonce.Codec.{Json, RecordRow, row_to_record}
use anyonce.D1.Refusals.{state_cases}
use anyonce.Dict
use anyonce.Redis.{Hash, Error, abandon_lua}
use anyonce.Codec.Base64.{Base64}
use anyonce.Redis.Methods.{Server, Script, abandon}
use anyonce.Redis.Hashes.{
  hash_of, IsWritten, run-ok, get-set_hash, name, row_of, row, row_of-hash_of,
}

module _ (json : Json) (base64 : Base64) (prefix : Text) (op : Operation) where
  -- What ABANDON_LUA replies, does to the row and leaves written.
  abbrev Releases : ℕ → Row → Result Error CompleteStatus × Option Hash → Type 0
  Releases fence before turn =
      (out : CompleteStatus) × (turn.0 ≡ ok out)
      × Abandons fence before out ((row_of json base64 prefix op) turn.1)
      × IsWritten base64 op turn.1

  abandon_lua-completed :
      (fence : ℕ) (r : RecordRow)
      → r.state ≡ completed
      → abandon_lua fence (some (hash_of base64 r))
        ≡ (ok CompleteStatus.not_found, some (hash_of base64 r))
  unfolding abandon_lua
  abandon_lua-completed fence r done = simp done

  abandon_lua-in_flight :
      (fence : ℕ) (r : RecordRow)
      → r.state ≡ in_flight
      → abandon_lua fence (some (hash_of base64 r)) ≡ (
          if r.fence == fence
          then (ok CompleteStatus.ok, none)
          else (ok CompleteStatus.stale_fence, some (hash_of base64 r)))
  unfolding abandon_lua
  abandon_lua-in_flight fence r flying = simp flying

  Releases-of_row :
      (fence : ℕ) (r : RecordRow)
      → r.scope ≡ op.scope
      → r.key ≡ op.key
      → Releases fence (some (row_to_record json r)) (abandon_lua fence (some (hash_of base64 r)))
  unfolding row_to_record
  Releases-of_row fence r hs hk = elim (state_cases r.state) [
    | inr done ↦ rw (abandon_lua-completed fence r done) (
      CompleteStatus.not_found,
      refl,
      rw ((row_of-hash_of json base64 prefix op) r hs hk)
          (Abandons.too_late (row_to_record json r) refl done refl refl),
      inr (r, refl, hs, hk),
    )
    | inl flying ↦ elim (Bool-cases (r.fence == fence)) [
      | inl same ↦
          rw (abandon_lua-in_flight fence r flying, same)
            (
              CompleteStatus.ok,
              refl,
              Abandons.releases (row_to_record json r) refl flying (ground arith) refl refl,
              inl refl,
            )
      | inr other ↦
          rw (abandon_lua-in_flight fence r flying, other)
            (
              CompleteStatus.stale_fence,
              refl,
              rw ((row_of-hash_of json base64 prefix op) r hs hk)
                  (Abandons.is_stale (row_to_record json r) refl flying (ground arith) refl refl),
              inr (r, refl, hs, hk),
            )
    ]
  ]

  abandon_lua-Releases :
      (fence : ℕ) (o : Option Hash)
      → IsWritten base64 op o
      → Releases fence ((row_of json base64 prefix op) o) (abandon_lua fence o)
  unfolding abandon_lua
  abandon_lua-Releases fence o (inl absent) =
      rw absent (CompleteStatus.not_found, refl, Abandons.misses refl refl refl, inl refl)
  abandon_lua-Releases fence o (inr (r, same, hs, hk)) =
      rw (same, (row_of-hash_of json base64 prefix op) r hs hk) (Releases-of_row fence r hs hk)

  pub abandon-Abandons :
      (fence : ℕ) (w : Server)
      → IsWritten base64 op (Dict.get (name json base64 prefix op) w.hashes)
      → (out : CompleteStatus) × ((abandon json base64 prefix op fence w).0 ≡ ok out)
        × Abandons fence
            ((row json base64 prefix op) w)
            out
            ((row json base64 prefix op) (abandon json base64 prefix op fence w).1)
        × IsWritten base64 op
            (Dict.get (name json base64 prefix op) (abandon json base64 prefix op fence w).1.hashes)
  unfolding abandon
  abandon-Abandons fence w h =
      let (out, came, fits, written) =
        abandon_lua-Releases fence (Dict.get (name json base64 prefix op) w.hashes) h in
      let (answered, left) =
        run-ok Script.abandon_script (name json base64 prefix op) (abandon_lua fence) w out came in
      rw (left, get-set_hash) (out, answered, fits, written)
