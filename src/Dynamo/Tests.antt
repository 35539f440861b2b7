-- ===== src/Dynamo/Tests.antt =====
-- The DynamoDB store at concrete inputs.
use anyonce.Prelude.{ℕ, codes, true, false, [], ◌≡◌, refl, ok, err, arith, text_eq}
use anyonce.Types.{Operation, BeginOptions, BeginOutcome, CompleteStatus}
use anyonce.Contract.{Implements}
use anyonce.Codec.Plain.{plain_json}
use anyonce.Dict
use anyonce.Dynamo.{Items, unclassified, item_key, item_to_row, split_key}
use anyonce.Dynamo.Items.{IsPlain}
use anyonce.Dynamo.Claims.{nobody, row, entry, IsWritten, SameOthers}
use anyonce.Dynamo.Methods.{begin, abandon, dynamo_store, refused_begin}
use anyonce.Dynamo.Refines.{dynamo_store-Implements}

abbrev an_op : Operation
an_op = record { scope = codes "POST /pay"; key = codes "k1"; fingerprint = codes "f1" }

abbrev opts : BeginOptions
opts = record { lease_ms = 10; ttl_ms = 100; now = 5 }

abbrev clock : ℕ → ℕ
clock n = 1000

abbrev claimed : Items
claimed = (begin plain_json 60000 true nobody clock an_op opts []).1

runs :
    ((begin plain_json 60000 true nobody clock an_op opts []).0 ≡ ok (BeginOutcome.acquired 1))
    × ((begin plain_json 60000 true nobody clock an_op opts claimed).0
        ≡ ok (BeginOutcome.in_flight 15))
    × ((begin plain_json 60000 false nobody clock an_op opts claimed).0 ≡ err unclassified)
    × ((abandon plain_json 60000 true nobody clock an_op 2 claimed).0
        ≡ ok CompleteStatus.stale_fence)
unfolding begin abandon Dict.get Dict.put Dict.delete text_eq item_key item_to_row split_key
    refused_begin
runs = (refl, refl, refl, refl)

an_op-IsPlain : IsPlain an_op.scope
an_op-IsPlain = omega arith

dynamo_store-Implements_example :
    Implements
      (dynamo_store plain_json 60000 true nobody clock)
      an_op
      (row plain_json an_op)
      (λ t. IsWritten an_op (entry an_op t))
      (SameOthers an_op)
dynamo_store-Implements_example = dynamo_store-Implements plain_json an_op an_op-IsPlain 60000 clock
