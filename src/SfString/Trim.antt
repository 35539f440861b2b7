-- ===== src/SfString/Trim.antt =====
-- Trimming: what the two index loops leave.
use anyonce.Prelude.{
  ℕ, Text, Bool, true, false, [], ◌∷◌, ◌++◌, ◌≡◌, refl, ap, ◌∙◌, All, Bool-cases, inl, inr,
}
use anyonce.SfString.{drop_while, keep, keep_to_last, trim}

module _ (p : ℕ → Bool) where
  drop_while-append :
      (s t : Text) → All (λ c. p c ≡ true) s → drop_while p (s ++ t) ≡ drop_while p t
  unfolding drop_while
  drop_while-append [] t h = refl
  drop_while-append (c ∷ s) t (e, h) = rw e (drop_while-append s t h)

  keep_to_last-nil : (s : Text) → All (λ c. p c ≡ true) s → keep_to_last p s ≡ []
  unfolding keep_to_last
  keep_to_last-nil [] h = refl
  keep_to_last-nil (c ∷ s) (e, h) = rw (keep_to_last-nil s h) (rw e)

  keep_to_last-append :
      (s t : Text) → All (λ c. p c ≡ true) t → keep_to_last p (s ++ t) ≡ keep_to_last p s
  unfolding keep_to_last
  keep_to_last-append [] t h = keep_to_last-nil t h
  keep_to_last-append (c ∷ s) t h = ap (λ x. keep p c x) (keep_to_last-append s t h)

  keep_to_last_stop : (s : Text) (d : ℕ) → p d ≡ false → keep_to_last p (s ++ d ∷ []) ≡ s ++ d ∷ []
  unfolding keep_to_last
  keep_to_last_stop [] d e = rw e
  keep_to_last_stop (c ∷ []) d e = rw e
  keep_to_last_stop (c ∷ x ∷ s) d e = ap (λ t. keep p c t) (keep_to_last_stop (x ∷ s) d e)

  keep_to_last_id : (s : Text) → All (λ c. p c ≡ false) s → keep_to_last p s ≡ s
  unfolding keep_to_last
  keep_to_last_id [] h = refl
  keep_to_last_id (c ∷ []) (e, h) = rw e
  keep_to_last_id (c ∷ x ∷ s) (e, h) = ap (λ t. keep p c t) (keep_to_last_id (x ∷ s) h)

  drop_while_stop : (c : ℕ) (s : Text) → p c ≡ false → drop_while p (c ∷ s) ≡ c ∷ s
  unfolding drop_while
  drop_while_stop c s e = rw e

  -- What is trimmed does not begin with what is trimmed away.
  abbrev pub StartsClean : Text → Type 0
  StartsClean [] = Unit
  StartsClean (c ∷ s) = p c ≡ false

  keep-StartsClean : (c : ℕ) (s : Text) → p c ≡ false → StartsClean (keep p c s)
  unfolding keep
  keep-StartsClean c [] e = rw e e
  keep-StartsClean c (d ∷ s) e = e

  keep_to_last-StartsClean : (s : Text) → StartsClean s → StartsClean (keep_to_last p s)
  unfolding keep_to_last
  keep_to_last-StartsClean [] h = tt
  keep_to_last-StartsClean (c ∷ s) h = keep-StartsClean c (keep_to_last p s) h

  drop_while-StartsClean : (s : Text) → StartsClean (drop_while p s)
  unfolding drop_while
  drop_while-StartsClean [] = tt
  drop_while-StartsClean (c ∷ s) = elim (Bool-cases (p c)) [
    | inl yes' ↦ rw yes' (drop_while-StartsClean s)
    | inr no' ↦ rw no' no'
  ]

  pub trim-StartsClean : (s : Text) → StartsClean (trim p s)
  unfolding trim
  trim-StartsClean s = keep_to_last-StartsClean (drop_while p s) (drop_while-StartsClean s)

  keep-head : (c : ℕ) (s : Text) → p c ≡ false → (t : Text) × (keep p c s ≡ c ∷ t)
  unfolding keep
  keep-head c [] e = ([], rw e refl)
  keep-head c (d ∷ s) e = (d ∷ s, refl)

  pub trim-head : (c : ℕ) (s : Text) → p c ≡ false → (t : Text) × (trim p (c ∷ s) ≡ c ∷ t)
  unfolding trim keep_to_last
  trim-head c s e =
      let (t, kept) = keep-head c (keep_to_last p s) e in (t, rw (drop_while_stop c s e) kept)

  module _ (before after : Text) (hb : All (λ c. p c ≡ true) before)
      (ha : All (λ c. p c ≡ true) after) where
    -- Trimming removes what stands round a text whose first and last characters stay.
    pub trim_ends :
        (c d : ℕ) (s : Text)
        → p c ≡ false
        → p d ≡ false
        → trim p (before ++ ((c ∷ (s ++ d ∷ [])) ++ after)) ≡ c ∷ (s ++ d ∷ [])
    unfolding trim
    trim_ends c d s hc hd =
        rw
          (
            drop_while-append before ((c ∷ (s ++ d ∷ [])) ++ after) hb,
            drop_while_stop c ((s ++ d ∷ []) ++ after) hc,
          )
          (keep_to_last-append (c ∷ (s ++ d ∷ [])) after ha ∙ keep_to_last_stop (c ∷ s) d hd)

    pub trim_token :
        (c : ℕ) (s : Text)
        → All (λ c. p c ≡ false) (c ∷ s)
        → trim p (before ++ ((c ∷ s) ++ after)) ≡ c ∷ s
    unfolding trim
    trim_token c s h =
        rw (drop_while-append before ((c ∷ s) ++ after) hb, drop_while_stop c (s ++ after) h.0)
          (keep_to_last-append (c ∷ s) after ha ∙ keep_to_last_id (c ∷ s) h)
