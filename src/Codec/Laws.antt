-- ===== src/Codec/Laws.antt =====
-- Decoding what was encoded.
use anyonce.Prelude.{ℕ, some, ◌≡◌, refl}
use anyonce.Types.{Operation, BeginOptions, Payload, stored, omitted, RecordState}
use anyonce.Contract.{claim, finished}
use anyonce.Codec.{Json, RecordRow, new_row, body_of, flag_of, encode_result_meta, row_to_record}

-- The row that holds a result.
abbrev pub complete_row : Json → RecordRow → Payload → RecordRow
complete_row json row result = record row {
  state = RecordState.completed;
  result_meta = some (encode_result_meta json result);
  result_body = body_of result;
  result_omitted = flag_of result;
}

module _ (json : Json) where
  -- The row of a new claim reads as the claim of the contract.
  pub row_to_record-new_row :
      (op : Operation) (opts : BeginOptions) (fence : ℕ)
      → row_to_record json (new_row op opts fence) ≡ claim op opts fence
  unfolding row_to_record new_row
  row_to_record-new_row op opts fence = refl

  -- What is read back from a completed row is the record with the result that was stored, body, status,
  -- headers, outcome and error included, or with the omitted form and its flag.
  pub row_to_record-complete_row :
      (row : RecordRow) (result : Payload)
      → row_to_record json (complete_row json row result) ≡ finished (row_to_record json row) result
  unfolding row_to_record encode_result_meta
  row_to_record-complete_row row (stored r) = rw json.parse-stringify
  row_to_record-complete_row row (omitted r) = rw json.parse-stringify
