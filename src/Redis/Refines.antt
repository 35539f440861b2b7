-- ===== src/Redis/Refines.antt =====
-- The Redis store against the contract, on hashes that the store wrote.
use anyonce.Prelude.{
  ℕ, Text, Option, refl, ◌∙◌, arith, Bool-cases, Result-cases, inl, inr, ltb, Result,
}
use anyonce.Types.{Operation, BeginOptions}
use anyonce.Contract.{Gets, Implements}
use anyonce.Codec.{Json, row_to_record}
use anyonce.Dict
use anyonce.Redis.{Hash, Error, noscript, script_failed, abandon_lua}
use anyonce.Codec.Base64.{Base64}
use anyonce.Redis.Methods.{
  Server, Script, set_hash, run, begin, complete, abandon, live_fields, get, redis_store,
}
use anyonce.Redis.Hashes.{
  IsWritten, get-set_hash_ne, name, row_of, row, SameOthers, hash_to_row-hash_of,
}
use anyonce.Redis.Claims.{claim_lua, begin-Begins}
use anyonce.Redis.Completions.{finish_lua, complete-Completes}
use anyonce.Redis.Releases.{abandon-Abandons}

module _ (json : Json) (base64 : Base64) (prefix : Text) (op : Operation) where
  live_fields-Gets :
      (now : ℕ) (o : Option Hash)
      → IsWritten base64 op o
      → Gets now
          ((row_of json base64 prefix op) o)
          (live_fields json base64 prefix op.scope op.key now o)
  unfolding live_fields
  live_fields-Gets now o (inl absent) = rw absent (Gets.misses refl refl)
  live_fields-Gets now o (inr (r, same, hs, hk)) =
      let read = (hash_to_row-hash_of json base64 prefix op) r hs hk in
      elim (Bool-cases (ltb now r.expires_at)) [
        | inl live ↦
            rw (same, read, live)
              (Gets.finds (row_to_record json r) refl (unfold row_to_record in ground arith) refl)
        | inr gone ↦
            rw (same, read, gone)
              (Gets.expires (row_to_record json r) refl (unfold row_to_record in ground arith) refl)
      ]

  -- A script leaves the hashes at all other keys alone.
  run-SameOthers :
      {A : Type 0} (script : Script) (body : Option Hash → Result Error A × Option Hash)
      (w : Server)
      → (SameOthers json base64 prefix op) w (run script (name json base64 prefix op) body w).1
  unfolding run
  run-SameOthers script body w other ne =
      let once =
        get-set_hash_ne (name json base64 prefix op)
          (body (Dict.get (name json base64 prefix op) w.hashes)).1 w.hashes other ne in
      elim (Bool-cases (w.is_cached script)) [
        | inr sent ↦ rw sent once
        | inl cached ↦
            elim (Result-cases (body (Dict.get (name json base64 prefix op) w.hashes)).0) [
              | inl (a, came) ↦ rw (cached, came) once
              | inr (script_failed, failed) ↦ rw (cached, failed) once
              | inr (noscript, failed) ↦
                  let left =
                    set_hash (name json base64 prefix op)
                      (body (Dict.get (name json base64 prefix op) w.hashes)).1 w.hashes in
                  rw (cached, failed)
                    (get-set_hash_ne (name json base64 prefix op)
                        (body (Dict.get (name json base64 prefix op) left)).1 left other ne
                      ∙ once)
            ]
      ]

  begin-SameOthers :
      (opts : BeginOptions) (w : Server)
      → (SameOthers json base64 prefix op) w (begin json base64 prefix op opts w).1
  unfolding begin
  begin-SameOthers opts w other ne =
      let same =
        run-SameOthers Script.begin_script (claim_lua json base64 prefix op opts) w other ne in
      elim (Result-cases
        (run Script.begin_script (name json base64 prefix op) (claim_lua json base64 prefix op opts)
          w).0) [
            | inl (reply, came) ↦ rw (run, came) same
            | inr (e, failed) ↦ rw (run, failed) same
          ]

  -- On hashes that the store wrote, `RedisStore` implements the contract, whether the server has its scripts
  -- cached or not: every call answers, none throws, each does to the row of the operation what the contract says
  -- and leaves the hashes at all other keys alone.
  pub redis_store-Implements :
      Implements
        (redis_store json base64 prefix)
        op
        (row json base64 prefix op)
        (λ w. IsWritten base64 op (Dict.get (name json base64 prefix op) w.hashes))
        (SameOthers json base64 prefix op)
  unfolding redis_store begin complete abandon get
  redis_store-Implements = (
    record {
      begins = λ opts. begin-Begins json base64 prefix op opts;
      completes = λ fence payload now w _ h.
          (complete-Completes json base64 prefix op) fence payload now w h;
      abandons = (abandon-Abandons json base64 prefix op);
      gets = λ now w h.
          (_, refl, live_fields-Gets now (Dict.get (name json base64 prefix op) w.hashes) h);
    },
    record {
      begins = begin-SameOthers;
      completes = λ fence payload now w.
          run-SameOthers Script.complete_script
            ((finish_lua json base64 prefix op) fence payload now) w;
      abandons = λ fence w. run-SameOthers Script.abandon_script (abandon_lua fence) w;
    },
  )
