-- ===== src/Dynamo.antt =====
-- packages/stores/src/dynamodb.ts: the DynamoDB store. The world is the table, items by partition key.
-- `others n` is what other clients do to it before the n-th request of the call, `wall n` what `Date.now` gives
-- then, and `honours` whether the endpoint returns the old item with a refused write. A condition on an
-- attribute that an item lacks is false, and a number is written and read as itself. Requests that fail for
-- other reasons and `ensureTable` are not modelled.
pub mod Methods
pub mod Items
pub mod Claims
pub mod Completions
pub mod Refines
pub mod Tests
use anyonce.Prelude.{
  ℕ, zero, suc, ◌+◌, ◌/◌, Text, text_eq, Bytes, Bool, true, false, not, ◌&&◌, ◌||◌, Option, none,
  some, List, [], ◌∷◌, ◌++◌, length, ltb, leb, or_else, ◌==◌, if◌then◌else◌, M, ok, err, Result,
}
use anyonce.Types.{RecordState, in_flight, completed}
use anyonce.Codec.{RecordRow}

abbrev pub dynamodb_max_result_bytes : ℕ
dynamodb_max_result_bytes = 307200

-- KEY_SEPARATOR
abbrev pub key_separator : ℕ
key_separator = 31

unfoldable pub item_key : Text → Text → Text
item_key scope key = scope ++ key_separator ∷ key

-- An attribute that is absent is `none`.
pub record Item : Type 0 where
  pub pk : Text
  pub fingerprint : Option Text
  pub state : Option RecordState
  pub fence : Option ℕ
  pub lease_until : Option ℕ
  pub created_at : Option ℕ
  pub expires_at : Option ℕ
  pub ttl : Option ℕ
  pub result_meta : Option Text
  pub result_body : Option Bytes
  pub result_omitted : Option ℕ

abbrev pub Items : Type 0
Items = List (Text × Item)

pub data Error : Type 0 where
  unclassified unsettled : Error
  too_large : ℕ → Error

-- What stands before and after the first separator.
unfoldable pub split_key : Text → Option (Text × Text)
split_key [] = none
split_key (c ∷ s) =
    let rest = split_key s in
    if c == key_separator
    then some ([], s)
    else elim rest [ none ↦ none | some (scope, key) ↦ some (c ∷ scope, key) ]

abbrev pub scope_of : Text → Option (Text × Text) → Text
scope_of pk none = pk
scope_of pk (some (scope, key)) = scope

abbrev pub key_of : Option (Text × Text) → Text
key_of none = []
key_of (some (scope, key)) = key

unfoldable pub item_to_row : Item → RecordRow
unfolding split_key
item_to_row item = record {
  scope = scope_of item.pk (split_key item.pk);
  key = key_of (split_key item.pk);
  fingerprint = or_else item.fingerprint [];
  state = or_else item.state in_flight;
  fence = or_else item.fence 0;
  lease_until = or_else item.lease_until 0;
  created_at = or_else item.created_at 0;
  expires_at = or_else item.expires_at 0;
  result_meta = item.result_meta;
  result_body = item.result_body;
  result_omitted = or_else item.result_omitted 0;
}

-- `attribute <= value`, `attribute > value` and `attribute = value`
abbrev pub at_most : Option ℕ → ℕ → Bool
at_most none n = false
at_most (some m) n = leb m n

abbrev pub above : Option ℕ → ℕ → Bool
above none n = false
above (some m) n = ltb n m

abbrev pub is_number : Option ℕ → ℕ → Bool
is_number none n = false
is_number (some m) n = m == n

abbrev pub is_text : Option Text → Text → Bool
is_text none t = false
is_text (some s) t = text_eq s t

abbrev pub is_in_flight : Option RecordState → Bool
is_in_flight none = false
is_in_flight (some in_flight) = true
is_in_flight (some completed) = false

-- BEGIN_CONDITION
unfoldable pub begin_condition : Text → ℕ → Option Item → Bool
begin_condition fp now none = true
begin_condition fp now (some item) =
    at_most item.expires_at now
    || (is_text item.fingerprint fp && (is_in_flight item.state && at_most item.lease_until now))

-- `if_not_exists(fence, :zero)`
abbrev pub old_fence : Option Item → ℕ
old_fence none = 0
old_fence (some item) = or_else item.fence 0

-- BEGIN_UPDATE
unfoldable pub begin_update : Text → Text → ℕ → ℕ → ℕ → ℕ → Option Item → Item
begin_update pk fp now lease exp ttl old = record {
  pk = pk;
  fingerprint = some fp;
  state = some in_flight;
  fence = some (old_fence old + 1);
  lease_until = some lease;
  created_at = some now;
  expires_at = some exp;
  ttl = some ttl;
  result_meta = none;
  result_body = none;
  result_omitted = some 0;
}

-- COMPLETE_CONDITION
unfoldable pub complete_condition : ℕ → ℕ → Item → Bool
complete_condition fence now item =
    is_number item.fence fence && (above item.expires_at now && is_in_flight item.state)

-- The update of `complete`, with `SET result_body` or `REMOVE result_body`.
unfoldable pub complete_update : Text → ℕ → Option Bytes → Item → Item
complete_update meta omitted body item = record item {
  state = some completed;
  result_meta = some meta;
  result_omitted = some omitted;
  result_body = body;
}

-- ABANDON_CONDITION
unfoldable pub abandon_condition : ℕ → Item → Bool
abandon_condition fence item = is_number item.fence fence && is_in_flight item.state
