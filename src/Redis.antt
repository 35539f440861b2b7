-- ===== src/Redis.antt =====
-- packages/stores/src/redis.ts: the hash of a record and the three Lua scripts, each as what it does to the hash
-- at its one key. `redis.call` does what Redis documents: `HMGET` of what is missing is false, `HSET` overwrites,
-- `DEL` removes. Hash fields are typed and a reply is the array that a script returns, so `tonumber`, `Number` and
-- `pairsToFields` are identities; comparing a field that is missing is an error of the script. The time that
-- `PEXPIRE` gives the key to live is not kept.
pub mod Methods
pub mod Hashes
pub mod Claims
pub mod Completions
pub mod Releases
pub mod Refines
pub mod Tests
use anyonce.Prelude.{
  ℕ, ◌+◌, Text, codes, text_eq, Bytes, Bool, true, false, not, Option, none, some, List, [], ◌∷◌,
  ◌++◌, ltb, leb, or_else, ◌==◌, if◌then◌else◌, Result, ok, err, ◌≡◌, ◌≢◌,
}
use anyonce.Types.{RecordState, in_flight, completed, CompleteStatus}
use anyonce.Codec.{RecordRow}
use anyonce.Codec.Base64.{Base64, base64_to_bytes}

-- The fields of a hash; one that is absent is `none`.
pub record Hash : Type 0 where
  pub fingerprint : Option Text
  pub state : Option RecordState
  pub fence : Option ℕ
  pub lease_until : Option ℕ
  pub created_at : Option ℕ
  pub expires_at : Option ℕ
  pub result_meta : Option Text
  pub result_body : Option Text
  pub result_omitted : Option ℕ

pub data Error : Type 0 where
  noscript script_failed : Error

unfoldable pub key_for : Text → Text → Text → Text
key_for prefix scope key = prefix ++ scope ++ 31 ∷ key

abbrev pub decode_body : Base64 → Option Text → Option Bytes
decode_body base64 none = none
decode_body base64 (some text) = some (base64_to_bytes base64 text)

unfoldable pub hash_to_row : Base64 → Text → Text → Hash → RecordRow
hash_to_row base64 scope key fields = record {
  scope = scope;
  key = key;
  fingerprint = or_else fields.fingerprint [];
  state = or_else fields.state in_flight;
  fence = or_else fields.fence 0;
  lease_until = or_else fields.lease_until 0;
  created_at = or_else fields.created_at 0;
  expires_at = or_else fields.expires_at 0;
  result_meta = fields.result_meta;
  result_body = decode_body base64 fields.result_body;
  result_omitted = or_else fields.result_omitted 0;
}

-- What BEGIN_LUA returns.
pub data BeginReply : Type 0 where
  replies_acquired replies_in_flight : ℕ → BeginReply
  replies_completed replies_mismatch : Hash → BeginReply

-- The fields after the HSET and the HDEL of BEGIN_LUA.
unfoldable pub claimed_hash : Text → ℕ → ℕ → ℕ → ℕ → Hash
claimed_hash fp now lease ttl fence = record {
  fingerprint = some fp;
  state = some in_flight;
  fence = some fence;
  lease_until = some (now + lease);
  created_at = some now;
  expires_at = some (now + ttl);
  result_meta = none;
  result_body = none;
  result_omitted = some 0;
}

-- A claim with the next fence.
unfoldable pub reclaim : Text → ℕ → ℕ → ℕ → Hash → Result Error BeginReply × Option Hash
unfolding claimed_hash
reclaim fp now lease ttl h = elim h.fence [
  | none ↦ (err script_failed, some h)
  | some n ↦ (ok (replies_acquired (n + 1)), some (claimed_hash fp now lease ttl (n + 1)))
]

-- A live row with the same fingerprint that is not completed: its lease decides.
unfoldable pub begin_leased : Text → ℕ → ℕ → ℕ → Hash → Result Error BeginReply × Option Hash
unfolding reclaim
begin_leased fp now lease ttl h = elim h.lease_until [
  | none ↦ (err script_failed, some h)
  | some until ↦
      if ltb now until then (ok (replies_in_flight until), some h) else reclaim fp now lease ttl h
]

-- A live row with the same fingerprint.
unfoldable pub begin_same : Text → ℕ → ℕ → ℕ → Hash → Result Error BeginReply × Option Hash
unfolding begin_leased
begin_same fp now lease ttl h = elim h.state [
  | some completed ↦ (ok (replies_completed h), some h)
  | some in_flight ↦ begin_leased fp now lease ttl h
  | none ↦ begin_leased fp now lease ttl h
]

-- What BEGIN_LUA does to a hash with a fingerprint.
unfoldable pub begin_found : Text → Text → ℕ → ℕ → ℕ → Hash → Result Error BeginReply × Option Hash
unfolding begin_same reclaim
begin_found old fp now lease ttl h = elim h.expires_at [
  | none ↦ (err script_failed, some h)
  | some expires ↦
      if ltb now expires
      then if not (text_eq old fp)
        then (ok (replies_mismatch h), some h)
        else begin_same fp now lease ttl h
      else reclaim fp now lease ttl h
]

-- BEGIN_LUA
unfoldable pub begin_lua : Text → ℕ → ℕ → ℕ → Option Hash → Result Error BeginReply × Option Hash
unfolding begin_found claimed_hash
begin_lua fp now lease ttl none = (ok (replies_acquired 1), some (claimed_hash fp now lease ttl 1))
begin_lua fp now lease ttl (some h) = elim h.fingerprint [
  | none ↦ (ok (replies_acquired 1), some (claimed_hash fp now lease ttl 1))
  | some old ↦ begin_found old fp now lease ttl h
]

-- The HSET of COMPLETE_LUA, and its HDEL if there is no body.
unfoldable pub completed_hash : Text → Text → ℕ → Hash → Hash
completed_hash meta body omitted h = record h {
  state = some completed;
  result_meta = some meta;
  result_omitted = some omitted;
  result_body = if text_eq body (codes "-") then none else some body;
}

-- What COMPLETE_LUA does to a hash with a fence.
unfoldable pub complete_found :
    ℕ → ℕ → ℕ → Text → Text → ℕ → Hash → Result Error CompleteStatus × Option Hash
unfolding completed_hash
complete_found held fence now meta body omitted h = elim h.expires_at [
  | none ↦ (err script_failed, some h)
  | some expires ↦
      if leb expires now
      then (ok CompleteStatus.not_found, some h)
      else if not (held == fence)
      then (ok CompleteStatus.stale_fence, some h)
      else elim h.state [
        | some completed ↦ (ok CompleteStatus.ok, some h)
        | some in_flight ↦ (ok CompleteStatus.ok, some (completed_hash meta body omitted h))
        | none ↦ (ok CompleteStatus.ok, some (completed_hash meta body omitted h))
      ]
]

-- COMPLETE_LUA
unfoldable pub complete_lua :
    ℕ → ℕ → Text → Text → ℕ → Option Hash → Result Error CompleteStatus × Option Hash
unfolding complete_found
complete_lua fence now meta body omitted none = (ok CompleteStatus.not_found, none)
complete_lua fence now meta body omitted (some h) = elim h.fence [
  | none ↦ (ok CompleteStatus.not_found, some h)
  | some held ↦ complete_found held fence now meta body omitted h
]

-- ABANDON_LUA
unfoldable pub abandon_lua : ℕ → Option Hash → Result Error CompleteStatus × Option Hash
abandon_lua fence none = (ok CompleteStatus.not_found, none)
abandon_lua fence (some h) = elim h.fence [
  | none ↦ (ok CompleteStatus.not_found, some h)
  | some held ↦ elim h.state [
    | none ↦ (ok CompleteStatus.not_found, some h)
    | some completed ↦ (ok CompleteStatus.not_found, some h)
    | some in_flight ↦
        if held == fence
        then (ok CompleteStatus.ok, none)
        else (ok CompleteStatus.stale_fence, some h)
  ]
]
