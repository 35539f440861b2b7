-- ===== src/Http/Request/Laws.antt =====
-- What the reading of a request guarantees.
use anyonce.Prelude.{
  ℕ, ◌+◌, ◌≤◌, ◌<◌, Text, Bytes, true, Option, none, some, List, [], ◌∷◌, ◌++◌, length,
  length-append, ltb, append-nil, append_assoc, Bool-cases, ◌≡◌, ◌⊎◌, refl, sym, ap, ◌∙◌, arith,
  inl, inr,
}
use anyonce.Http.Capture.{concat}
use anyonce.Http.Capture.Invariant.{concat-append, concat-snoc}
use anyonce.Http.Request.{
  read_chunks, read_body, BodyRead, payload_too_large, ScopeResult, ScopeOptions, with_principal,
  resolve_scope, base_scope,
}

-- A content length that does not refuse the body at once.
abbrev pub Declares : Option ℕ → ℕ → Type 0
Declares none max_bytes = Unit
Declares (some declared) max_bytes = declared ≤ max_bytes

read_chunks_lem :
    (max_bytes : ℕ) (rest chunks : List Bytes) (size : ℕ)
    → size ≡ length (concat chunks)
    → size ≤ max_bytes
    → ((length (concat (chunks ++ rest)) ≤ max_bytes
          → read_chunks max_bytes chunks size rest ≡ BodyRead.ok (concat (chunks ++ rest)))
        × (max_bytes < length (concat (chunks ++ rest))
            → read_chunks max_bytes chunks size rest ≡ payload_too_large))
unfolding read_chunks
read_chunks_lem max_bytes [] chunks size count small =
    rw (append-nil chunks) (λ _. refl, λ big. absurd (omega (arith, count, small, big)))
read_chunks_lem max_bytes (value ∷ rest) chunks size count small =
    let count' : size + length value ≡ length (concat (chunks ++ (value ∷ []))) =
      omega (arith, count, concat-snoc chunks value) in
    let total =
      ap length (concat-append (chunks ++ (value ∷ [])) rest)
      ∙ length-append (concat (chunks ++ (value ∷ []))) (concat rest) in
    rw (sym (append_assoc chunks (value ∷ []) rest))
      (elim (Bool-cases (ltb max_bytes (size + length value))) [
        | inl over ↦ rw over (λ few. absurd (ground (arith, few, total, count', over)), λ _. refl)
        | inr under ↦ rw under (
            read_chunks_lem max_bytes rest (chunks ++ (value ∷ [])) (size + length value) count'
              (ground arith))
      ])

-- A body that does not declare too much is read as the bytes of its chunks in order if they are no more than the
-- limit, and refused if they are more; one that declares more is refused whatever it has.
pub read_body_lem :
    (declared : Option ℕ) (chunks : List Bytes) (max_bytes : ℕ)
    → (Declares declared max_bytes
        → length (concat chunks) ≤ max_bytes
        → read_body declared chunks max_bytes ≡ BodyRead.ok (concat chunks))
      × (max_bytes < length (concat chunks)
          → read_body declared chunks max_bytes ≡ payload_too_large)
      × ((Declares declared max_bytes → ⊥)
          → read_body declared chunks max_bytes ≡ payload_too_large)
unfolding read_body
read_body_lem none chunks max_bytes =
    let (fits, exceeds) = read_chunks_lem max_bytes chunks [] 0 refl (omega arith) in
    (λ _. fits, exceeds, λ h. absurd (h tt))
read_body_lem (some declared) chunks max_bytes =
    let (fits, exceeds) = read_chunks_lem max_bytes chunks [] 0 refl (omega arith) in
    elim (Bool-cases (ltb max_bytes declared)) [
      | inl over ↦ rw over (λ few. absurd (ground arith), λ _. refl, λ _. refl)
      | inr under ↦ rw under (λ _. fits, exceeds, λ h. absurd (h (ground arith)))
    ]

++_injective : (s t u : Text) → s ++ t ≡ s ++ u → t ≡ u
++_injective [] t u e = e
++_injective (c ∷ s) t u e = ++_injective s t u (cc e)

module _ {R : Type 0} (method pathname : R → Text) where
  module _ (options : ScopeOptions R) (principal : R → Option Text)
      (given : options.principal ≡ some principal) where
    abbrev answered : Option Text → R → Option (R → Option Text) → ScopeResult
    unfolding with_principal
    answered route_scope req none =
        ScopeResult.ok (base_scope method pathname req options route_scope)
    answered route_scope req (some principal) =
        with_principal method pathname (base_scope method pathname req options route_scope)
          (principal req) options.require_principal

    resolve_scope-some :
        (route_scope : Option Text) (req : R) (c : ℕ) (p : Text)
        → principal req ≡ some (c ∷ p)
        → resolve_scope method pathname req options route_scope
          ≡ ScopeResult.ok (base_scope method pathname req options route_scope ++ 35 ∷ c ∷ p)
    unfolding resolve_scope with_principal
    resolve_scope-some route_scope req c p e =
        ap (λ o. answered route_scope req o) given
        ∙ ap
            (λ o.
              with_principal method pathname (base_scope method pathname req options route_scope) o
                options.require_principal)
            e

    -- Two requests with the same base scope and each with a principal share a scope only if the principals are
    -- the same; and if a principal is required, a request without one gets no scope.
    pub resolve_scope_lem :
        (route_scope : Option Text) (req req' : R) (c d : ℕ) (p q : Text)
        → base_scope method pathname req options route_scope
          ≡ base_scope method pathname req' options route_scope
        → principal req ≡ some (c ∷ p)
        → (principal req' ≡ some (d ∷ q)
            → resolve_scope method pathname req options route_scope
              ≡ resolve_scope method pathname req' options route_scope
            → c ∷ p ≡ d ∷ q)
          × (options.require_principal ≡ true
              → (principal req' ≡ none) ⊎ (principal req' ≡ some [])
              → resolve_scope method pathname req' options route_scope
                ≡ ScopeResult.missing_principal)
    unfolding resolve_scope with_principal
    resolve_scope_lem route_scope req req' c d p q same first =
        let base = base_scope method pathname req options route_scope in
        let base' = base_scope method pathname req' options route_scope in
        (
          λ second e.
              let scopes =
                sym (resolve_scope-some route_scope req c p first)
                ∙ e
                ∙ resolve_scope-some route_scope req' d q second in
              let texts : base ++ 35 ∷ c ∷ p ≡ base' ++ 35 ∷ d ∷ q = cc scopes in
              cc (
                ++_injective base (35 ∷ c ∷ p) (35 ∷ d ∷ q)
                  (texts ∙ ap (λ b. b ++ 35 ∷ d ∷ q) (sym same))),
          λ needed absent.
              let refuses = λ (o : Option Text).
                with_principal method pathname base' o options.require_principal in
              ap (λ o. answered route_scope req' o) given ∙ (elim absent [
                | inl e ↦
                    ap refuses e ∙ ap (λ b. with_principal method pathname base' none b) needed
                | inr e ↦
                    ap refuses e ∙ ap (λ b. with_principal method pathname base' (some []) b) needed
              ]),
        )
