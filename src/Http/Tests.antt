-- ===== src/Http/Tests.antt =====
-- Runs of the request reader and of a replay, and witnesses.
use anyonce.Prelude.{
  ◌<◌, ◌≤◌, Text, codes, Bytes, true, Option, none, some, List, [], ◌∷◌, length, ◌≡◌, refl,
}
use anyonce.Http.Capture.{concat}
use anyonce.Http.Request.{
  ScopeOptions, ScopeResult, resolve_scope, read_body, BodyRead, payload_too_large, lookup_key,
  KeyLookup,
}
use anyonce.Http.Request.Laws.{Declares, read_body_lem}
use anyonce.Http.Replay.{stored_headers}
use anyonce.Prelude.{text_eq}
use anyonce.Key

abbrev chunks : List Bytes
chunks = (1 ∷ 2 ∷ []) ∷ (3 ∷ []) ∷ []

looked_up : lookup_key (some (codes "\"k1\"")) Key.strict ≡ KeyLookup.found (codes "k1")
unfolding lookup_key Key.parse_key
looked_up = refl

read_body_lem_example :
    (Declares (some 3) 4
      → length (concat chunks) ≤ 4
      → read_body (some 3) chunks 4 ≡ BodyRead.ok (concat chunks))
    × (4 < length (concat chunks) → read_body (some 3) chunks 4 ≡ payload_too_large)
    × ((Declares (some 3) 4 → ⊥) → read_body (some 3) chunks 4 ≡ payload_too_large)
read_body_lem_example = read_body_lem (some 3) chunks 4

-- Requests are the names of their users.
abbrev method : Text → Text
method user = codes "POST"

abbrev pathname : Text → Text
pathname user = codes "/pay"

abbrev principal : Text → Option Text
principal [] = none
principal (c ∷ user) = some (c ∷ user)

abbrev options : ScopeOptions Text
options = record { scope = none; principal = some principal; require_principal = true }

scoped :
    resolve_scope method pathname (codes "ann") options none
    ≡ ScopeResult.ok (codes "POST /pay#ann")
unfolding resolve_scope
scoped = refl

abbrev headers : List (Text × Text)
headers = (codes "etag", codes "x") ∷ (codes "set-cookie", codes "s") ∷ []

abbrev allow : List Text
allow = codes "etag" ∷ codes "set-cookie" ∷ []

-- A cookie is not stored even if the list names it.
no_cookie : stored_headers headers allow ≡ (codes "etag", codes "x") ∷ []
unfolding stored_headers text_eq
no_cookie = refl
