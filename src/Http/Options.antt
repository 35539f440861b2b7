-- ===== src/Http/Options.antt =====
-- packages/core/src/http/options.ts and `defaultPolicy` of packages/core/src/engine.ts. A request is of any type
-- `R`, `date_now` is the platform's clock, `upper` and `lower` are its `toUpperCase` and `toLowerCase`. The
-- fields that are passed on unread (skip, onError, problemTitles) are left out.
pub mod Laws
use anyonce.Prelude.{
  ℕ, Text, codes, Bytes, Bool, true, false, not, ◌&&◌, Option, none, some, List, [], ◌∷◌, ◌++◌, min,
  or_else, if◌then◌else◌, M, Result, ok, err, pure,
}
use anyonce.Types.{StoredResult}
use anyonce.Contract.{Store}
use anyonce.Engine.{
  ExecutePolicy, ExecuteHooks, Counter, OnStoreError, fail_closed, default_lease_ms, default_ttl_ms,
  default_max_result_bytes, default_store_result,
}
use anyonce.Key.{KeySyntax, lenient}

-- `FingerprintMode | FingerprintFn`
pub data Fingerprint (W E R : Type 0) : Type 0 where
  body jcs : Fingerprint W E R
  by : (R → Bytes → M W E Text) → Fingerprint W E R

abbrev pub default_methods : List Text
default_methods = codes "POST" ∷ codes "PATCH" ∷ []

abbrev pub default_header_name : Text
default_header_name = codes "Idempotency-Key"

abbrev pub default_max_request_bytes : ℕ
default_max_request_bytes = 1048576

abbrev pub default_stored_headers : List Text
default_stored_headers =
    codes "Content-Type"
    ∷ codes "Content-Language"
    ∷ codes "Location"
    ∷ codes "ETag"
    ∷ codes "Link"
    ∷ []

abbrev pub default_problem_base_uri : Text
default_problem_base_uri = codes "https://in8.sh/anyonce/problems/"

-- `Partial<ExecutePolicy>`
pub record PolicyOverrides (W E : Type 0) : Type 0 where
  pub lease_ms : Option ℕ
  pub ttl_ms : Option ℕ
  pub max_result_bytes : Option ℕ
  pub store_result : Option (StoredResult → M W E Bool)
  pub on_store_error : Option OnStoreError
  pub clock : Option (M W E ℕ)
  pub hooks : Option (ExecuteHooks W E)
  pub hook_errors : Option (Counter W)

pub record HttpIdempotencyOptions (W E R : Type 0) : Type 0 where
  pub store : Store W E
  pub methods : Option (List Text)
  pub header_name : Option Text
  pub required : Option Bool
  pub key_syntax : Option KeySyntax
  pub scope : Option (R → Text)
  pub principal : Option (R → Option Text)
  pub require_principal : Option Bool
  pub fingerprint : Option (Fingerprint W E R)
  pub max_request_bytes : Option ℕ
  pub store_headers : Option (List Text)
  -- leaseMs, ttlMs, maxResultBytes, storeResult, onStoreError, clock, hooks and hookErrors
  pub policy : PolicyOverrides W E
  pub problem_base_uri : Option Text
  pub docs_url : Option Text

pub record ResolvedHttpOptions (W E R : Type 0) : Type 0 where
  pub store : Store W E
  pub methods : List Text
  pub header_name : Text
  pub required : Bool
  pub key_syntax : KeySyntax
  pub scope : Option (R → Text)
  pub principal : Option (R → Option Text)
  pub require_principal : Bool
  pub fingerprint : Fingerprint W E R
  pub max_request_bytes : ℕ
  pub store_headers : List Text
  pub policy : ExecutePolicy W E
  pub problem_base_uri : Text
  pub docs_url : Text

abbrev pub map : (Text → Text) → List Text → List Text
map f [] = []
map f (t ∷ ts) = f t ∷ map f ts

abbrev pub is_some : {A : Type 0} → Option A → Bool
is_some none = false
is_some (some a) = true

-- `Math.min(cap, store.maxResultBytes ?? Infinity)`
abbrev pub capped : ℕ → Option ℕ → ℕ
capped cap none = cap
capped cap (some most) = min cap most

module _ {W E : Type 0} (date_now : M W E ℕ) where
  abbrev pub no_hooks : ExecuteHooks W E
  no_hooks = record {
    on_acquired = none;
    on_replayed = none;
    on_conflict = none;
    on_mismatch = none;
    on_store_error = none;
  }

  unfoldable pub default_policy : PolicyOverrides W E → ExecutePolicy W E
  default_policy overrides = record {
    lease_ms = or_else overrides.lease_ms default_lease_ms;
    ttl_ms = or_else overrides.ttl_ms default_ttl_ms;
    max_result_bytes = or_else overrides.max_result_bytes default_max_result_bytes;
    store_result = or_else overrides.store_result (λ r. pure (default_store_result r));
    on_store_error = or_else overrides.on_store_error fail_closed;
    clock = or_else overrides.clock date_now;
    hooks = or_else overrides.hooks no_hooks;
    hook_errors = overrides.hook_errors;
  }

  module _ {R : Type 0} (upper lower : Text → Text) where
    unfoldable resolved_options : HttpIdempotencyOptions W E R → ResolvedHttpOptions W E R
    unfolding default_policy
    resolved_options options =
        let problem_base_uri = or_else options.problem_base_uri default_problem_base_uri in
        let cap = or_else options.policy.max_result_bytes default_max_result_bytes in
        record {
          store = options.store;
          methods = map upper (or_else options.methods default_methods);
          header_name = or_else options.header_name default_header_name;
          required = or_else options.required false;
          key_syntax = or_else options.key_syntax lenient;
          scope = options.scope;
          principal = options.principal;
          require_principal = or_else options.require_principal false;
          fingerprint = or_else options.fingerprint body;
          max_request_bytes = or_else options.max_request_bytes default_max_request_bytes;
          store_headers = map lower (or_else options.store_headers default_stored_headers);
          policy = default_policy (record options.policy {
            max_result_bytes = some (capped cap options.store.max_result_bytes);
          });
          problem_base_uri = problem_base_uri;
          docs_url = or_else options.docs_url (problem_base_uri ++ codes "missing-key");
        }

    -- `none` is the TypeError.
    unfoldable pub resolve_http_options :
        HttpIdempotencyOptions W E R → Option (ResolvedHttpOptions W E R)
    unfolding resolved_options
    resolve_http_options options =
        if or_else options.require_principal false && not (is_some options.principal)
        then none
        else some (resolved_options options)
