-- ===== src/Redis/Tests.antt =====
-- The Redis store at concrete inputs.
use anyonce.Prelude.{Text, Bytes, codes, false, [], ◌∷◌, ◌≡◌, refl, ok, text_eq}
use anyonce.Types.{Operation, BeginOptions, BeginOutcome, CompleteStatus}
use anyonce.Contract.{Implements}
use anyonce.Codec.Plain.{plain_json}
use anyonce.Dict
use anyonce.Redis.{key_for}
use anyonce.Codec.Base64.{Base64}
use anyonce.Redis.Hashes.{row, name, IsWritten, SameOthers}
use anyonce.Redis.Methods.{Server, begin, abandon, redis_store}
use anyonce.Redis.Refines.{redis_store-Implements}

abbrev tail : Text → Bytes
tail [] = []
tail (c ∷ s) = s

-- An encoding that puts one character in front.
abbrev marked : Base64
marked = record { btoa = λ b. 0 ∷ b; atob = tail; atob-btoa = λ b. refl; btoa-dash = λ b e. cc e }

abbrev an_op : Operation
an_op = record { scope = codes "POST /pay"; key = codes "k1"; fingerprint = codes "f1" }

abbrev opts : BeginOptions
opts = record { lease_ms = 10; ttl_ms = 100; now = 5 }

abbrev fresh : Server
fresh = record { hashes = []; is_cached = λ _. false }

abbrev claimed : Server
claimed = (begin plain_json marked (codes "anyonce:") an_op opts fresh).1

runs :
    ((begin plain_json marked (codes "anyonce:") an_op opts fresh).0 ≡ ok (BeginOutcome.acquired 1))
    × ((begin plain_json marked (codes "anyonce:") an_op opts claimed).0
        ≡ ok (BeginOutcome.in_flight 15))
    × ((abandon plain_json marked (codes "anyonce:") an_op 2 claimed).0
        ≡ ok CompleteStatus.stale_fence)
unfolding begin abandon Dict.get Dict.put Dict.delete text_eq key_for
runs = (refl, refl, refl)

redis_store-Implements_example :
    Implements
      (redis_store plain_json marked (codes "anyonce:"))
      an_op
      (row plain_json marked (codes "anyonce:") an_op)
      (λ w.
        IsWritten marked an_op
          (Dict.get (name plain_json marked (codes "anyonce:") an_op) w.hashes))
      (SameOthers plain_json marked (codes "anyonce:") an_op)
redis_store-Implements_example = redis_store-Implements plain_json marked (codes "anyonce:") an_op
