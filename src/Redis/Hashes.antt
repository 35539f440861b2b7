-- ===== src/Redis/Hashes.antt =====
-- The hashes that the Redis store writes, and what a script does to them.
use anyonce.Prelude.{
  Text, Option, none, some, ◌≡◌, ◌≢◌, refl, sym, ap, Bool-cases, Bytes, inl, inr, ok, Result, ◌⊎◌,
}
use anyonce.Types.{Operation}
use anyonce.Contract.{Row}
use anyonce.Codec.{Json, RecordRow, row_to_record}
use anyonce.Dict
use anyonce.Dict.Laws.{get-put_self, get-delete_self, get-put_ne, get-delete_ne}
use anyonce.Redis.{Hash, Error, key_for, hash_to_row, decode_body}
use anyonce.Codec.Base64.{Base64, bytes_to_base64, base64_to_bytes-bytes_to_base64}
use anyonce.Redis.Methods.{Server, Hashes, Script, set_hash, run}

abbrev pub encode_body : Base64 → Option Bytes → Option Text
encode_body base64 none = none
encode_body base64 (some body) = some (bytes_to_base64 base64 body)

-- The hash for a row.
abbrev pub hash_of : Base64 → RecordRow → Hash
hash_of base64 r = record {
  fingerprint = some r.fingerprint;
  state = some r.state;
  fence = some r.fence;
  lease_until = some r.lease_until;
  created_at = some r.created_at;
  expires_at = some r.expires_at;
  result_meta = r.result_meta;
  result_body = encode_body base64 r.result_body;
  result_omitted = some r.result_omitted;
}

-- A hash that was written for some row of the scope and key, or none.
abbrev pub IsWritten : Base64 → Operation → Option Hash → Type 0
IsWritten base64 op o =
    (o ≡ none)
    ⊎ ((r : RecordRow) × (o ≡ some (hash_of base64 r)) × (r.scope ≡ op.scope) × (r.key ≡ op.key))

-- A cached script and one that is sent again do the same.
pub run-ok :
    {A : Type 0} (script : Script) (key : Text) (body : Option Hash → Result Error A × Option Hash)
    (w : Server) (a : A)
    → (body (Dict.get key w.hashes)).0 ≡ ok a
    → ((run script key body w).0 ≡ ok a)
      × ((run script key body w).1.hashes ≡ set_hash key (body (Dict.get key w.hashes)).1 w.hashes)
unfolding run
run-ok script key body w a h = elim (Bool-cases (w.is_cached script)) [
  | inl cached ↦ rw (cached, h) (refl, refl)
  | inr sent ↦ rw (sent, h) (refl, refl)
]

-- The entry that a script leaves, and all others.
pub get-set_hash :
    (key : Text) (o : Option Hash) (hs : Hashes) → Dict.get key (set_hash key o hs) ≡ o
get-set_hash key none hs = get-delete_self key hs
get-set_hash key (some h) hs = get-put_self key hs h

pub get-set_hash_ne :
    (key : Text) (o : Option Hash) (hs : Hashes) (other : Text)
    → key ≢ other
    → Dict.get other (set_hash key o hs) ≡ Dict.get other hs
get-set_hash_ne key none hs other ne = get-delete_ne key hs other ne
get-set_hash_ne key (some h) hs other ne = get-put_ne key hs other h ne

module _ (json : Json) (base64 : Base64) (prefix : Text) (op : Operation) where
  abbrev pub name : Text
  name = key_for prefix op.scope op.key

  abbrev pub row_of : Option Hash → Row
  row_of none = none
  row_of (some h) = some (row_to_record json (hash_to_row base64 op.scope op.key h))

  abbrev pub row : Server → Row
  row w = row_of (Dict.get name w.hashes)

  abbrev pub SameOthers : Server → Server → Type 0
  SameOthers w w' =
      (other : Text) → name ≢ other → Dict.get other w'.hashes ≡ Dict.get other w.hashes

  decode-encode_body : (o : Option Bytes) → decode_body base64 (encode_body base64 o) ≡ o
  decode-encode_body none = refl
  decode-encode_body (some body) = ap some (base64_to_bytes-bytes_to_base64 base64 body)

  pub hash_to_row-hash_of :
      (r : RecordRow)
      → r.scope ≡ op.scope
      → r.key ≡ op.key
      → hash_to_row base64 op.scope op.key (hash_of base64 r) ≡ r
  unfolding hash_to_row
  hash_to_row-hash_of r hs hk = rw (sym hs, sym hk, decode-encode_body r.result_body) refl

  pub row_of-hash_of :
      (r : RecordRow)
      → r.scope ≡ op.scope
      → r.key ≡ op.key
      → row_of (some (hash_of base64 r)) ≡ some (row_to_record json r)
  row_of-hash_of r hs hk = ap (λ x. some (row_to_record json x)) (hash_to_row-hash_of r hs hk)
