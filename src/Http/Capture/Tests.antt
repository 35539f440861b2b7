-- ===== src/Http/Capture/Tests.antt =====
-- Runs of a capture, and witnesses.
use anyonce.Prelude.{
  ℕ, ◌+◌, ◌≤◌, ◌<◌, true, false, none, some, List, [], ◌∷◌, length, ok, ◌≡◌, refl, arith, Text,
}
use anyonce.Types.{StoredResult, http}
use anyonce.Engine.{result_size}
use anyonce.Http.Capture.{
  Read, chunk, nothing, done, Capture, concat, start, Event, pulls, cancels, drains, closes, steps,
}
use anyonce.Http.Capture.Invariant.{chunks_of}
use anyonce.Http.Capture.Whole.{capture-settled, capture-bounded}
use anyonce.Http.Capture.Settles.{drain_turns, drain-settles}

abbrev base : StoredResult
base = record {
  kind = http;
  status = some 200;
  headers = some [];
  body = none;
  outcome = none;
  error = none;
}

abbrev source : List (Read Text)
source = chunk (1 ∷ 2 ∷ []) ∷ nothing ∷ chunk (3 ∷ []) ∷ done ∷ []

-- The client reads a chunk and goes away.
abbrev calls : List (Event Text)
calls = pulls true ∷ cancels ∷ drains ∷ drains ∷ drains ∷ []

abbrev after : ℕ → Capture Text
after cap = steps base cap calls (start source)

abbrev kept : StoredResult
kept = record base { body = some (1 ∷ 2 ∷ 3 ∷ []) }

drained : (after 8).settled ≡ some (ok kept)
unfolding steps start
drained = refl

over_the_cap : (after 1).settled ≡ some (ok (record base { body = some (1 ∷ 2 ∷ []) }))
unfolding steps start
over_the_cap = refl

capture-settled_example :
    (length (concat (chunks_of source)) ≤ 8
      → kept ≡ record base { body = some (concat (chunks_of source)) })
    × (8 < length (concat (chunks_of source)) → 8 < result_size kept)
capture-settled_example = capture-settled base 8 source calls kept drained

capture-bounded_example : length (concat (after 1).chunks) ≤ 1 + 2
capture-bounded_example = capture-bounded base 1 source calls 2 (omega arith, (omega arith, tt))

-- The state that a capture of `source` starts in, written out.
abbrev opened_capture : Capture Text
opened_capture = record {
  source = source;
  chunks = [];
  size = 0;
  over_cap = false;
  client_open = true;
  settled = none;
  sent = [];
  ended = none;
  draining = false;
}

drain-settles_example :
    (r : StoredResult) × ((steps base 8
        (closes ∷ [])
        (steps base 8 (cancels ∷ drain_turns (length source)) opened_capture)).settled
      ≡ some (ok r))
drain-settles_example = drain-settles base 8 opened_capture (closes ∷ []) tt refl
