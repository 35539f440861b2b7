-- ===== src/Http/Replay/Laws.antt =====
-- What is stored of the headers, and what a replay of a stored result gives back.
use anyonce.Prelude.{
  ℕ, Text, codes, text_eq, text_eq_iff, text_eq_refl, Bytes, true, false, Option, none, some, List,
  [], ◌∷◌, ◌≡◌, ◌≢◌, refl, sym, arith, Bool-cases, inl, inr, if◌then◌else◌,
}
use anyonce.Types.{IdempotencyRecord}
use anyonce.Http.Replay.{
  stored_headers, is_stored, allows, replay_response, replay_headers, status_of, headers_of,
  stored_body, is_true, use_body, is_null_body, set_header, remove_header,
}

-- Every value of a header, in order.
abbrev pub values : Text → List (Text × Text) → List Text
values name [] = []
values name (h ∷ headers) =
    let rest = values name headers in if text_eq h.0 name then h.1 ∷ rest else rest

-- What is stored of a response never has a cookie; each other header is stored with all its values if it is on
-- the list of the options, and else not at all.
pub stored_headers_lem :
    (headers : List (Text × Text)) (allow : List Text) (name : Text)
    → (values (codes "set-cookie") (stored_headers headers allow) ≡ [])
      × (name ≢ codes "set-cookie"
          → values name (stored_headers headers allow)
            ≡ (if allows allow name then values name headers else []))
unfolding stored_headers is_stored
stored_headers_lem [] allow name = (refl, λ ne. ground arith)
stored_headers_lem (h ∷ headers) allow name =
    let (clean, kept) = stored_headers_lem headers allow name in
    (
      ground (arith, clean),
      λ ne. ground (arith, kept ne, text_eq_iff h.0 name, text_eq_iff h.0 (codes "set-cookie")),
    )

values-remove_header :
    (name : Text) (headers : List (Text × Text)) → values name (remove_header name headers) ≡ []
unfolding remove_header
values-remove_header name [] = refl
values-remove_header name (h ∷ headers) = ground (arith, values-remove_header name headers)

values-set_header_self :
    (name value : Text) (headers : List (Text × Text))
    → values name (set_header name value headers) ≡ value ∷ []
unfolding set_header
values-set_header_self name value [] = rw (text_eq_refl name) refl
values-set_header_self name value (h ∷ headers) = ground (
  arith,
  values-set_header_self name value headers,
  values-remove_header name headers,
  text_eq_refl name,
)

values-remove_header_ne :
    (name other : Text) (headers : List (Text × Text))
    → name ≢ other
    → values other (remove_header name headers) ≡ values other headers
unfolding remove_header
values-remove_header_ne name other [] ne = refl
values-remove_header_ne name other (h ∷ headers) ne = ground (
  arith,
  values-remove_header_ne name other headers ne,
  text_eq_iff h.0 name,
  text_eq_iff h.0 other,
)

values-set_header_ne :
    (name value other : Text) (headers : List (Text × Text))
    → name ≢ other
    → values other (set_header name value headers) ≡ values other headers
unfolding set_header
values-set_header_ne name value other [] ne = ground (arith, text_eq_iff name other)
values-set_header_ne name value other (h ∷ headers) ne = ground (
  arith,
  values-set_header_ne name value other headers ne,
  values-remove_header_ne name other headers ne,
  text_eq_iff h.0 name,
  text_eq_iff h.0 other,
  text_eq_iff name other,
)

abbrev pub replayed : Text
replayed = codes "idempotency-replayed"

abbrev pub replay : Text
replay = codes "idempotency-replay"

replay-ne : replayed ≢ replay
replay-ne e = absurd (ground (arith, e))

use_body-false : (o : Option Bytes) → use_body o false ≡ none
unfolding use_body
use_body-false none = refl
use_body-false (some []) = refl
use_body-false (some (b ∷ bytes)) = refl

module _ (r : IdempotencyRecord) where
  replay_headers-replayed : values replayed (replay_headers r) ≡ codes "true" ∷ []
  unfolding replay_headers
  replay_headers-replayed = elim (Bool-cases (is_true r.result_omitted)) [
    | inl om ↦
        rw
          (
            om,
            values-set_header_ne replay (codes "omitted") replayed
                (set_header replayed (codes "true") (headers_of r.result)) (λ e. replay-ne (sym e)),
          )
          (values-set_header_self replayed (codes "true") (headers_of r.result))
    | inr whole ↦ rw whole (values-set_header_self replayed (codes "true") (headers_of r.result))
  ]

  replay_headers-other :
      (other : Text)
      → replayed ≢ other
      → replay ≢ other
      → values other (replay_headers r) ≡ values other (headers_of r.result)
  unfolding replay_headers
  replay_headers-other other ne ne' = elim (Bool-cases (is_true r.result_omitted)) [
    | inl om ↦
        rw
          (
            om,
            values-set_header_ne replay (codes "omitted") other
                (set_header replayed (codes "true") (headers_of r.result)) ne',
          )
          (values-set_header_ne replayed (codes "true") other (headers_of r.result) ne)
    | inr whole ↦
        rw whole (values-set_header_ne replayed (codes "true") other (headers_of r.result) ne)
  ]

  -- A replay has the status of the stored result, the header that marks it as a replay once, and every other
  -- header of the result. If the result was omitted, then it has no body and says so in a header; if not, then a
  -- stored body that is not empty is sent as it was stored, unless the status allows none.
  pub replay_response_lem :
      ((replay_response r).status ≡ status_of r.result)
      × (values replayed (replay_response r).headers ≡ codes "true" ∷ [])
      × ((other : Text)
          → replayed ≢ other
          → replay ≢ other
          → values other (replay_response r).headers ≡ values other (headers_of r.result))
      × (is_true r.result_omitted ≡ true
          → ((replay_response r).body ≡ none)
            × (values replay (replay_response r).headers ≡ codes "omitted" ∷ []))
      × (is_true r.result_omitted ≡ false
          → (b : ℕ) (bytes : Bytes) → stored_body r.result ≡ some (b ∷ bytes)
          → is_null_body (status_of r.result) ≡ false
          → (replay_response r).body ≡ some (b ∷ bytes))
  unfolding replay_response replay_headers use_body
  replay_response_lem = (
    refl,
    replay_headers-replayed,
    replay_headers-other,
    λ om. (
      rw om (use_body-false (stored_body r.result)),
      unfold replay_headers in
          rw om (
            values-set_header_self replay (codes "omitted")
              (set_header replayed (codes "true") (headers_of r.result))),
    ),
    λ whole b bytes stored allowed. rw (whole, allowed, stored) refl,
  )
