-- ===== src/Webhooks/Verify/Laws.antt =====
-- What a verified delivery is.
use anyonce.Prelude.{
  ℕ, ◌*◌, ◌≤◌, Text, Bytes, Bool, true, false, Option, none, some, List, [], ◌∷◌, ltb, Option-cases,
  Bool-cases, inl, inr, if◌then◌else◌, ◌≡◌, ◌↔◌, refl, sym, arith,
}
use anyonce.Webhooks.Verify.{
  ℤ, Crypto, distance, match_any, match_keys, check_headers, is_empty, standard_webhooks_verify,
}
use anyonce.Webhooks.Verify.Signatures.{IsSigned, presented_iff}

module _ (crypto : Crypto) where
  -- When a delivery with all three headers is accepted.
  abbrev pub IsGenuine : List Bytes → ℕ → ℕ → Text → Text → Text → Bytes → Type 0
  IsGenuine keys tolerance now id timestamp signature body =
      (seconds : ℤ) × (crypto.whole_number timestamp ≡ some seconds)
      × (distance now seconds ≤ tolerance)
      × IsSigned crypto keys id seconds signature body

  match_keys_none :
      (keys : List Bytes) (content : Bytes) (matched : Bool)
      → match_keys crypto keys content [] matched ≡ matched
  unfolding match_keys match_any
  match_keys_none [] content matched = refl
  match_keys_none (key ∷ keys) content matched = match_keys_none keys content matched

  -- The early return without candidates changes nothing.
  no_candidates :
      (keys : List Bytes) (content : Bytes) (presented : List Bytes)
      → (if is_empty presented then false else match_keys crypto keys content presented false)
        ≡ match_keys crypto keys content presented false
  no_candidates keys content [] = sym (match_keys_none keys content false)
  no_candidates keys content (c ∷ presented) = refl

  check_headers_iff :
      (keys : List Bytes) (tolerance now : ℕ) (id timestamp signature : Text) (body : Bytes)
      → (check_headers crypto keys tolerance now id timestamp signature body ≡ true)
        ↔ IsGenuine keys tolerance now id timestamp signature body
  unfolding check_headers
  check_headers_iff keys tolerance now id timestamp signature body =
      elim (Option-cases (crypto.whole_number timestamp)) [
        | inl strange ↦
            rw (check_headers, strange) (λ e. cc e, λ (seconds, number, _, _). cc number)
        | inr (seconds, number) ↦
            let (there, back) = presented_iff crypto keys id seconds signature body in
            elim (Bool-cases (ltb tolerance (distance now seconds))) [
              | inl far ↦
                  rw (check_headers, number, far)
                    (
                      λ e. cc e,
                      λ (s, same, near, _).
                          let eq : seconds ≡ s = cc same in absurd (too_far far (rw eq near)),
                    )
              | inr near ↦
                  rw (check_headers, number, near, no_candidates)
                    (
                      λ e. (seconds, refl, within near, there e),
                      λ (s, same, _, signed). let eq : seconds ≡ s = cc same in back (rw eq signed),
                    )
            ]
      ]
    where
      too_far : {m n : ℕ} → ltb m n ≡ true → n ≤ m → ⊥
      too_far {m} {n} far near = ground arith

      within : {m n : ℕ} → ltb m n ≡ false → n ≤ m
      within {m} {n} near = ground arith

  -- A delivery is accepted exactly if all three headers are there, its timestamp is a number within the tolerance
  -- of the clock, and some entry of the signature header carries, after `v1,`, the base64 of the signature of id,
  -- timestamp and body under one of the keys.
  pub standard_webhooks_verify_iff :
      (keys : List Bytes) (tolerance_seconds now : ℕ) (id timestamp signature : Option Text)
      (body : Bytes)
      → (standard_webhooks_verify crypto keys tolerance_seconds now id timestamp signature body
          ≡ true)
        ↔ ((i : Text) × (t : Text) × (s : Text) × (id ≡ some i)
            × (timestamp ≡ some t)
            × (signature ≡ some s)
            × IsGenuine keys (tolerance_seconds * 1000) now i t s body)
  unfolding standard_webhooks_verify
  standard_webhooks_verify_iff keys tolerance_seconds now (some i) (some t) (some s) body =
      let (there, back) = check_headers_iff keys (tolerance_seconds * 1000) now i t s body in
      (
        λ e. (i, t, s, refl, refl, refl, there e),
        λ (i', t', s', hi, ht, hs, genuine).
            let ei : i ≡ i' = cc hi in
            let et : t ≡ t' = cc ht in let es : s ≡ s' = cc hs in back (rw (ei, et, es) genuine),
      )
  standard_webhooks_verify_iff keys tolerance_seconds now none t s body =
      (λ e. cc e, λ (i', t', s', hi, _, _, _). cc hi)
  standard_webhooks_verify_iff keys tolerance_seconds now (some i) none s body =
      (λ e. cc e, λ (i', t', s', hi, ht, _, _). cc ht)
  standard_webhooks_verify_iff keys tolerance_seconds now (some i) (some t) none body =
      (λ e. cc e, λ (i', t', s', hi, ht, hs, _). cc hs)
