-- ===== src/Memory/Copies.antt =====
-- A copy beside the original.
use mathlib.Core.List.{map}
use mathlib.Core.Option
use anyonce.Prelude.{Text, Option, none, some, List, [], ◌∷◌, ◌≡◌, refl, ap}
use anyonce.Types.{StoredResult, IdempotencyRecord, OmittedResult, Payload, stored, omitted}
use anyonce.Contract.{kept_result, finished}
use anyonce.Memory.{copy_headers, copy_error, copy_result, copy_record, omitted_to_stored, settle}

map_id {ℓ} : {A : Type ℓ} (f : A → A) → ((a : A) → f a ≡ a) → (l : List A) → map f l ≡ l
map_id f h [] = refl
map_id f h (x ∷ l) = λ i. h x i ∷ map_id f h l i

Option-map_id {ℓ} :
    {A : Type ℓ} (f : A → A) → ((a : A) → f a ≡ a) → (o : Option A) → Option.map f o ≡ o
Option-map_id f h none = refl
Option-map_id f h (some a) = ap some (h a)

copy_headers_id : (l : List (Text × Text)) → copy_headers l ≡ l
unfolding copy_headers
copy_headers_id = map_id _ (λ h. refl)

pub copy_result_id : (r : StoredResult) → copy_result r ≡ r
unfolding copy_result copy_error
copy_result_id r = λ i. record {
  kind = r.kind;
  status = r.status;
  headers = Option-map_id copy_headers copy_headers_id r.headers i;
  body = Option-map_id _ (map_id (λ b. b) (λ b. refl)) r.body i;
  outcome = r.outcome;
  error = Option-map_id copy_error (λ e. refl) r.error i;
}

pub copy_record_id : (r : IdempotencyRecord) → copy_record r ≡ r
unfolding copy_record
copy_record_id r = λ i. record r { result = Option-map_id copy_result copy_result_id r.result i }

pub omitted_to_stored_lem : (r : OmittedResult) → omitted_to_stored r ≡ kept_result (omitted r)
unfolding omitted_to_stored
omitted_to_stored_lem r = λ i. record {
  kind = r.kind;
  status = r.status;
  headers = Option-map_id copy_headers copy_headers_id r.headers i;
  body = none;
  outcome = none;
  error = none;
}

-- The assignments write the contract's row, on a row that has no omission flag yet.
pub settle-eq-finished :
    (r : IdempotencyRecord) (payload : Payload)
    → r.result_omitted ≡ none
    → settle r payload ≡ finished r payload
unfolding settle
settle-eq-finished r (omitted p) h =
    λ i. record (finished r (omitted p)) { result = some (omitted_to_stored_lem p i) }
settle-eq-finished r (stored p) h =
    λ i. record (finished r (stored p)) { result = some (copy_result_id p i); result_omitted = h i }
