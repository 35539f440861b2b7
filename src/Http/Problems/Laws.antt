-- ===== src/Http/Problems/Laws.antt =====
-- Problem codes and what a client sees of them.
use anyonce.Prelude.{
  ◌≤◌, ◌<◌, Text, codes, text_eq, Option, none, some, ◌++◌, [], ◌∷◌, ◌≡◌, refl, sym, ap, ◌∙◌, arith,
  if◌then◌else◌,
}
use anyonce.Http.Problems.{
  Detail, ProblemCode, missing_key, invalid_key, conflict, fingerprint_mismatch, payload_too_large,
  store_unavailable, missing_principal, configuration_error, signature_invalid, code_text,
  problem_status, problem,
}

-- The code that a text names.
code_of : Text → Option ProblemCode
unfolding text_eq
code_of t =
    if text_eq t (codes "missing-key")
    then some missing_key
    else if text_eq t (codes "invalid-key")
    then some invalid_key
    else if text_eq t (codes "conflict")
    then some conflict
    else if text_eq t (codes "fingerprint-mismatch")
    then some fingerprint_mismatch
    else if text_eq t (codes "payload-too-large")
    then some payload_too_large
    else if text_eq t (codes "store-unavailable")
    then some store_unavailable
    else if text_eq t (codes "missing-principal")
    then some missing_principal
    else if text_eq t (codes "configuration-error")
    then some configuration_error
    else if text_eq t (codes "signature-invalid")
    then some signature_invalid
    else none

code_of-code_text : (c : ProblemCode) → code_of (code_text c) ≡ some c
unfolding code_of code_text
code_of-code_text missing_key = refl
code_of-code_text invalid_key = refl
code_of-code_text conflict = refl
code_of-code_text fingerprint_mismatch = refl
code_of-code_text payload_too_large = refl
code_of-code_text store_unavailable = refl
code_of-code_text missing_principal = refl
code_of-code_text configuration_error = refl
code_of-code_text signature_invalid = refl

append_cancel : (base s t : Text) → base ++ s ≡ base ++ t → s ≡ t
append_cancel [] s t e = e
append_cancel (c ∷ base) s t e = append_cancel base s t (cc e)

problem_status-IsError : (c : ProblemCode) → (400 ≤ problem_status c) × (problem_status c < 600)
unfolding problem_status
problem_status-IsError missing_key = omega arith
problem_status-IsError invalid_key = omega arith
problem_status-IsError conflict = omega arith
problem_status-IsError fingerprint_mismatch = omega arith
problem_status-IsError payload_too_large = omega arith
problem_status-IsError store_unavailable = omega arith
problem_status-IsError missing_principal = omega arith
problem_status-IsError configuration_error = omega arith
problem_status-IsError signature_invalid = omega arith

-- Under one base, problems of different codes have different type URIs, whatever their details and titles; and
-- the status of every problem is a client or server error.
pub problem_lem :
    (base : Text) (c c' : ProblemCode) (detail detail' : Option Detail) (title title' : Option Text)
    → ((problem c base detail title).type_uri ≡ (problem c' base detail' title').type_uri → c ≡ c')
      × (400 ≤ (problem c base detail title).status)
      × ((problem c base detail title).status < 600)
unfolding problem
problem_lem base c c' detail detail' title title' = (
  λ e.
      let same : code_text c ≡ code_text c' = append_cancel base (code_text c) (code_text c') e in
      let codes_same : some c ≡ some c' =
        sym (code_of-code_text c) ∙ ap code_of same ∙ code_of-code_text c' in
      cc codes_same,
  (problem_status-IsError c).0,
  (problem_status-IsError c).1,
)
