-- ===== src/Http/Options/Laws.antt =====
-- What holds of resolved options.
use anyonce.Prelude.{
  ℕ, Text, ◌≤◌, Bool, true, false, not, ◌&&◌, Option, none, some, or_else, M, ◌≡◌, ◌↔◌, refl, sym,
  ◌∙◌, arith, Bool-cases, inl, inr, if◌then◌else◌,
}
use anyonce.Contract.{Holds}
use anyonce.Engine.{default_max_result_bytes}
use anyonce.Http.Options.{
  HttpIdempotencyOptions, ResolvedHttpOptions, resolve_http_options, resolved_options, is_some,
  capped, default_policy,
}

capped-Holds : (cap : ℕ) (most : Option ℕ) → Holds (capped cap most) most × (capped cap most ≤ cap)
capped-Holds cap none = (tt, omega arith)
capped-Holds cap (some most) = (omega arith, omega arith)

abbrev is_refused : {A : Type 0} → Option Bool → Option A → Bool
is_refused require principal = or_else require false && not (is_some principal)

is_refused_iff :
    {A : Type 0} (require : Option Bool) (principal : Option A)
    → (is_refused require principal ≡ true) ↔ ((require ≡ some true) × (principal ≡ none))
is_refused_iff none principal = ground arith
is_refused_iff (some b) none = ground arith
is_refused_iff (some b) (some p) = ground arith

if-refused :
    {A : Type 0} (b : Bool) (a : A)
    → (b ≡ true → (if b then none else some a) ≡ none)
      × (b ≡ false → (if b then none else some a) ≡ some a)
if-refused true a = (λ _. refl, λ e. cc e)
if-refused false a = (λ e. cc e, λ _. refl)

needs_principal :
    {A : Type 0} (require : Option Bool) (principal : Option A)
    → is_refused require principal ≡ false
    → or_else require false ≡ true
    → is_some principal ≡ true
needs_principal require none fine needed = absurd (ground arith)
needs_principal require (some p) fine needed = refl

module _ {W E R : Type 0} (date_now : M W E ℕ) (upper lower : Text → Text) where
  -- Options are refused exactly if a principal is required and no function gives one. Accepted ones never ask a
  -- store for more than it declares, nor for more than the option or its default, and if they require a principal
  -- then they have a function for it.
  pub resolve_http_options_lem :
      (options : HttpIdempotencyOptions W E R)
      → ((resolve_http_options date_now upper lower options ≡ none)
          ↔ ((options.require_principal ≡ some true) × (options.principal ≡ none)))
        × ((resolved : ResolvedHttpOptions W E R)
            → resolve_http_options date_now upper lower options ≡ some resolved
            → Holds resolved.policy.max_result_bytes resolved.store.max_result_bytes
              × (resolved.policy.max_result_bytes
                  ≤ or_else options.policy.max_result_bytes default_max_result_bytes)
              × (resolved.require_principal ≡ true → is_some resolved.principal ≡ true))
  unfolding resolve_http_options resolved_options default_policy
  resolve_http_options_lem options =
      let refused = is_refused options.require_principal options.principal in
      let result = if-refused refused (resolved_options date_now upper lower options) in
      let reason = is_refused_iff options.require_principal options.principal in
      elim (Bool-cases refused) [
        | inl gone ↦
            ((λ _. reason.0 gone, λ _. result.0 gone), λ resolved e. cc (sym (result.0 gone) ∙ e))
        | inr fine ↦ (
          (λ e. cc (sym (result.1 fine) ∙ e), λ h. cc (sym (reason.1 h) ∙ fine)),
          λ resolved e.
              let same : resolved_options date_now upper lower options ≡ resolved =
                cc (sym (result.1 fine) ∙ e) in
              let cap =
                capped-Holds (or_else options.policy.max_result_bytes default_max_result_bytes)
                  options.store.max_result_bytes in
              rw (sym same)
                (cap.0, cap.1, needs_principal options.require_principal options.principal fine),
        )
      ]
