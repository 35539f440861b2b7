-- ===== src/Webhooks/Verify/Signatures.antt =====
-- A delivery that is signed: what the loops over entries and keys find.
use anyonce.Prelude.{
  ℕ, Text, codes, Bytes, Bool, true, false, some, List, [], ◌∷◌, ◌++◌, ◌==◌, Option-cases,
  Bool-cases, inl, inr, ◌≡◌, ◌↔◌, ◌⊎◌, refl, sym, ap, ◌∙◌, arith,
}
use anyonce.Webhooks.Verify.{
  ℤ, Crypto, after_prefix, equal_bytes, split_spaces, candidate, candidates, match_any, match_keys,
  signed_content,
}
use anyonce.Webhooks.Verify.Equal.{equal_bytes_iff}

-- Membership.
abbrev pub IsAmong : {A : Type 0} → A → List A → Type 0
IsAmong x [] = ⊥
IsAmong x (y ∷ ys) = (y ≡ x) ⊎ IsAmong x ys

after_prefix_iff : (p t rest : Text) → (after_prefix p t ≡ some rest) ↔ (t ≡ p ++ rest)
unfolding after_prefix
after_prefix_iff [] t rest = (λ e. cc e, λ e. ap some e)
after_prefix_iff (c ∷ p) [] rest = (λ e. cc e, λ e. cc e)
after_prefix_iff (c ∷ p) (d ∷ t) rest =
    let (there, back) = after_prefix_iff p t rest in
    elim (Bool-cases (c == d)) [
      | inr other ↦ rw other (λ e. cc e, λ e. absurd (apart other (cc e)))
      | inl same ↦
          let eq : c ≡ d = ground arith in rw same (λ e. cc (eq, there e), λ e. back (cc e))
    ]
  where
    apart : {m n : ℕ} → (m == n) ≡ false → n ≡ m → ⊥
    apart {m} {n} other same = ground arith

module _ (crypto : Crypto) where
  -- An entry of the signature header that carries these bytes.
  abbrev pub Carries : Text → Bytes → Type 0
  Carries entry bytes =
      (t : Text) × (entry ≡ codes "v1," ++ t) × (crypto.base64_to_bytes t ≡ some bytes)

  candidate_iff :
      (entry : Text) (bytes : Bytes) → (candidate crypto entry ≡ some bytes) ↔ Carries entry bytes
  unfolding candidate
  candidate_iff entry bytes = elim (Option-cases (after_prefix (codes "v1,") entry)) [
    | inl other ↦
        rw other (
          λ e. cc e,
          λ (t, starts, _). cc (other, (after_prefix_iff (codes "v1,") entry t).1 starts),
        )
    | inr (t, starts) ↦ rw starts (
      λ e. (t, (after_prefix_iff (codes "v1,") entry t).0 starts, e),
      λ (t', starts', e).
          let same : t ≡ t' = cc (starts, (after_prefix_iff (codes "v1,") entry t').1 starts') in
          rw same e,
    )
  ]

  -- Bytes are presented if some entry carries them.
  candidates_iff :
      (entries : List Text) (bytes : Bytes)
      → IsAmong bytes (candidates crypto entries)
        ↔ ((entry : Text) × IsAmong entry entries × Carries entry bytes)
  unfolding candidates
  candidates_iff [] bytes = (λ m. absurd m, λ (entry, m, _). absurd m)
  candidates_iff (entry ∷ entries) bytes =
      let (there, back) = candidates_iff entries bytes in
      elim (Option-cases (candidate crypto entry)) [
        | inl other ↦ rw other (
          λ m. let (e, at, carries) = there m in (e, inr at, carries),
          λ (e, at, carries). elim at [
            | inl same ↦ cc (other, (candidate_iff e bytes).1 carries, same)
            | inr later ↦ back (e, later, carries)
          ],
        )
        | inr (found, came) ↦ rw came (
          λ m. elim m [
            | inl same ↦ (entry, inl refl, (candidate_iff entry bytes).0 (came ∙ ap some same))
            | inr later ↦ let (e, at, carries) = there later in (e, inr at, carries)
          ],
          λ (e, at, carries). elim at [
            | inl same ↦ inl (cc (came, (candidate_iff e bytes).1 carries, same))
            | inr later ↦ inr (back (e, later, carries))
          ],
        )
      ]

  match_any_iff :
      (mac : Bytes) (presented : List Bytes) (matched : Bool)
      → (match_any crypto mac presented matched ≡ true) ↔ ((matched ≡ true) ⊎ IsAmong mac presented)
  unfolding match_any
  match_any_iff mac [] matched =
      (λ e. inl e, λ m. elim m [ inl e ↦ e | inr nowhere ↦ absurd nowhere ])
  match_any_iff mac (c ∷ presented) matched =
      let (eq, qe) = equal_bytes_iff mac c in
      elim (Bool-cases (equal_bytes mac c)) [
        | inl same ↦
            let (there, back) = match_any_iff mac presented true in
            rw same (λ e. inr (inl (sym (eq same))), λ m. back (inl refl))
        | inr other ↦
            let (there, back) = match_any_iff mac presented matched in
            rw other (
              λ e. elim (there e) [ inl before ↦ inl before | inr later ↦ inr (inr later) ],
              λ m. elim m [
                | inl before ↦ back (inl before)
                | inr (inl same) ↦ cc (other, qe (sym same))
                | inr (inr later) ↦ back (inr later)
              ],
            )
      ]

  match_keys_iff :
      (keys : List Bytes) (content : Bytes) (presented : List Bytes) (matched : Bool)
      → (match_keys crypto keys content presented matched ≡ true) ↔ (
          (matched ≡ true)
          ⊎ ((key : Bytes) × IsAmong key keys × IsAmong (crypto.sign key content) presented))
  unfolding match_keys
  match_keys_iff [] content presented matched =
      (λ e. inl e, λ m. elim m [ inl e ↦ e | inr (key, nowhere, _) ↦ absurd nowhere ])
  match_keys_iff (k ∷ keys) content presented matched =
      let (there, back) =
        match_keys_iff keys content presented
          (match_any crypto (crypto.sign k content) presented matched) in
      let (this, siht) = match_any_iff (crypto.sign k content) presented matched in
      (
        λ e. elim (there e) [
          | inl now ↦ elim (this now) [
            | inl before ↦ inl before
            | inr here ↦ inr (k, inl refl, here)
          ]
          | inr (key, at, here) ↦ inr (key, inr at, here)
        ],
        λ m. elim m [
          | inl before ↦ back (inl (siht (inl before)))
          | inr (key, inl same, here) ↦ back (inl (siht (inr (rw same here))))
          | inr (key, inr at, here) ↦ back (inr (key, at, here))
        ],
      )

  -- A signature of the delivery under one of the keys, in one of the entries.
  abbrev pub IsSigned : List Bytes → Text → ℤ → Text → Bytes → Type 0
  IsSigned keys id seconds signature body =
      (key : Bytes) × IsAmong key keys
      × (entry : Text) × IsAmong entry (split_spaces [] signature)
      × Carries entry (crypto.sign key (signed_content crypto id seconds body))

  pub presented_iff :
      (keys : List Bytes) (id : Text) (seconds : ℤ) (signature : Text) (body : Bytes)
      → (match_keys crypto keys
            (signed_content crypto id seconds body)
            (candidates crypto (split_spaces [] signature))
            false
          ≡ true)
        ↔ IsSigned keys id seconds signature body
  presented_iff keys id seconds signature body =
      let content = signed_content crypto id seconds body in
      let (there, back) =
        match_keys_iff keys content (candidates crypto (split_spaces [] signature)) false in
      (
        λ e. elim (there e) [
          | inl never ↦ cc never
          | inr (key, at, here) ↦
              let (entry, among, carries) =
                (candidates_iff (split_spaces [] signature) (crypto.sign key content)).0 here in
              (key, at, entry, among, carries)
        ],
        λ (key, at, entry, among, carries). back (
            inr (
              key,
              at,
              (candidates_iff (split_spaces [] signature) (crypto.sign key content)).1
                  (entry, among, carries),
            )),
      )
