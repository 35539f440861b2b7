-- ===== src/Http/Request.antt =====
-- packages/core/src/http/request.ts: reading the key, the scope and the body of a request. A request is of any
-- type `R`; what the platform reads off it is a parameter. `requestFingerprint` stands in Fingerprint.
pub mod Laws
use anyonce.Prelude.{
  ℕ, ◌+◌, Text, codes, Bytes, Bool, true, false, Option, none, some, List, [], ◌∷◌, ◌++◌, length,
  ltb, or_else, if◌then◌else◌,
}
use anyonce.Key.{KeySyntax, KeyReason, ParseKeyResult, parse_key}
use anyonce.Http.Capture.{concat}

pub data KeyLookup : Type 0 where
  missing : KeyLookup
  invalid : KeyReason → KeyLookup
  found : Text → KeyLookup

-- `lookupKey`, on what `headers.get` returns.
unfoldable pub lookup_key : Option Text → KeySyntax → KeyLookup
lookup_key none syntax = missing
lookup_key (some raw) syntax = elim (parse_key raw syntax) [
  | ParseKeyResult.ok key ↦ found key
  | ParseKeyResult.invalid reason ↦ invalid reason
]

pub data ScopeResult : Type 0 where
  ok : Text → ScopeResult
  missing_principal : ScopeResult

-- The options that `resolveScope` reads.
pub record ScopeOptions (R : Type 0) : Type 0 where
  pub scope : Option (R → Text)
  pub principal : Option (R → Option Text)
  pub require_principal : Bool

module _ {R : Type 0} (method pathname : R → Text) where
  unfoldable pub default_scope : R → Text
  default_scope req = method req ++ codes " " ++ pathname req

  unfoldable pub base_scope : R → ScopeOptions R → Option Text → Text
  unfolding default_scope
  base_scope req options route_scope = elim options.scope [
    | some scope ↦ scope req
    | none ↦ or_else route_scope (default_scope req)
  ]

  -- `undefined` and the empty text are no principal.
  unfoldable with_principal : Text → Option Text → Bool → ScopeResult
  with_principal base none require = if require then missing_principal else ScopeResult.ok base
  with_principal base (some []) require = if require then missing_principal else ScopeResult.ok base
  with_principal base (some (c ∷ principal)) require = ScopeResult.ok (base ++ 35 ∷ c ∷ principal)

  unfoldable pub resolve_scope : R → ScopeOptions R → Option Text → ScopeResult
  unfolding base_scope with_principal
  resolve_scope req options route_scope = elim options.principal [
    | none ↦ ScopeResult.ok (base_scope req options route_scope)
    | some principal ↦
        with_principal (base_scope req options route_scope) (principal req)
          options.require_principal
  ]

pub data BodyRead : Type 0 where
  ok : Bytes → BodyRead
  payload_too_large : BodyRead

-- The loop, with the chunks kept so far and their size.
unfoldable read_chunks : ℕ → List Bytes → ℕ → List Bytes → BodyRead
read_chunks max_bytes chunks size [] = BodyRead.ok (concat chunks)
read_chunks max_bytes chunks size (value ∷ rest) =
    let read = read_chunks max_bytes (chunks ++ (value ∷ [])) (size + length value) rest in
    if ltb max_bytes (size + length value) then payload_too_large else read

-- `readBody`: `declared` is the content length if it is a finite number, 0 if the header is absent, and a
-- request without a body has no chunks.
unfoldable pub read_body : Option ℕ → List Bytes → ℕ → BodyRead
unfolding read_chunks
read_body none chunks max_bytes = read_chunks max_bytes [] 0 chunks
read_body (some declared) chunks max_bytes =
    let read = read_chunks max_bytes [] 0 chunks in
    if ltb max_bytes declared then payload_too_large else read
