-- ===== src/Dynamo/Items.antt =====
-- The items that the DynamoDB store writes: each has every attribute, and reads as the row it was written for.
use anyonce.Prelude.{ℕ, ◌+◌, Text, Option, some, [], ◌∷◌, ◌≡◌, ◌≢◌, refl, arith, All}
use anyonce.Types.{Operation, in_flight, completed, BeginOptions, Payload}
use anyonce.Codec.{Json, RecordRow, encode_result_meta, body_of, flag_of}
use anyonce.Codec.Laws.{complete_row}
use anyonce.Sql.{begin_row, may_claim, may_complete, may_abandon}
use anyonce.D1.{refused_by, missed_by, kept_by}
use anyonce.Dynamo.{
  Item, item_key, split_key, key_separator, item_to_row, begin_condition, begin_update,
  complete_condition, complete_update, abandon_condition, old_fence,
}
use anyonce.Dynamo.Methods.{refused_begin, refused_complete, refused_abandon}

-- The item for a row.
abbrev pub item_of : RecordRow → ℕ → Item
item_of r ttl = record {
  pk = item_key r.scope r.key;
  fingerprint = some r.fingerprint;
  state = some r.state;
  fence = some r.fence;
  lease_until = some r.lease_until;
  created_at = some r.created_at;
  expires_at = some r.expires_at;
  ttl = some ttl;
  result_meta = r.result_meta;
  result_body = r.result_body;
  result_omitted = some r.result_omitted;
}

-- A scope without the separator.
abbrev pub IsPlain : Text → Type 0
IsPlain = All (λ c. c ≢ key_separator)

pub split-item_key :
    (scope key : Text) → IsPlain scope → split_key (item_key scope key) ≡ some (scope, key)
unfolding split_key item_key
split-item_key [] key h = refl
split-item_key (c ∷ scope) key (h, hs) =
    let rest = split-item_key scope key hs in ground (arith, rest)

pub item_to_row-item_of :
    (r : RecordRow) (ttl : ℕ) → IsPlain r.scope → item_to_row (item_of r ttl) ≡ r
unfolding item_to_row
item_to_row-item_of r ttl h = rw (split-item_key r.scope r.key h)

-- The conditions are those of the SQL statements.
pub begin_condition-item_of :
    (fp : Text) (now ttl : ℕ) (r : RecordRow)
    → begin_condition fp now (some (item_of r ttl)) ≡ may_claim fp now r
unfolding begin_condition may_claim
begin_condition-item_of fp now ttl r = elim r.state [ in_flight ↦ refl | completed ↦ refl ]

pub complete_condition-item_of :
    (fence now ttl : ℕ) (r : RecordRow)
    → complete_condition fence now (item_of r ttl) ≡ may_complete fence now r
unfolding complete_condition may_complete
complete_condition-item_of fence now ttl r = elim r.state [ in_flight ↦ refl | completed ↦ refl ]

pub abandon_condition-item_of :
    (fence ttl : ℕ) (r : RecordRow) → abandon_condition fence (item_of r ttl) ≡ may_abandon fence r
unfolding abandon_condition may_abandon
abandon_condition-item_of fence ttl r = elim r.state [ in_flight ↦ refl | completed ↦ refl ]

-- So are the classifications of what was refused.
pub refused_begin_lem :
    (json : Json) (r : RecordRow) (op : Operation) (opts : BeginOptions)
    → refused_begin json r op opts ≡ refused_by json (some r) op opts
unfolding refused_begin refused_by
refused_begin_lem json r op opts = elim r.state [ in_flight ↦ refl | completed ↦ refl ]

pub refused_complete_lem :
    (json : Json) (r : RecordRow) (fence now : ℕ)
    → refused_complete r fence now ≡ missed_by json (some r) fence now
unfolding refused_complete missed_by
refused_complete_lem json r fence now = refl

pub refused_abandon_lem :
    (json : Json) (r : RecordRow) (fence : ℕ)
    → refused_abandon r fence ≡ kept_by json (some r) fence
unfolding refused_abandon kept_by
refused_abandon_lem json r fence = elim r.state [ in_flight ↦ refl | completed ↦ refl ]

-- What a claim writes, and what a completion makes of it.
pub begin_update-item_of :
    (op : Operation) (now lease exp ttl fence : ℕ) (old : Option Item)
    → old_fence old + 1 ≡ fence
    → begin_update (item_key op.scope op.key) op.fingerprint now lease exp ttl old
      ≡ item_of (begin_row op.scope op.key op.fingerprint fence now lease exp) ttl
unfolding begin_update
begin_update-item_of op now lease exp ttl fence old h = rw h

pub complete_update-item_of :
    (json : Json) (r : RecordRow) (ttl : ℕ) (result : Payload)
    → complete_update
        (encode_result_meta json result)
        (flag_of result)
        (body_of result)
        (item_of r ttl)
      ≡ item_of (complete_row json r result) ttl
unfolding complete_update
complete_update-item_of json r ttl result = refl
