-- ===== src/Http/Capture.antt =====
-- packages/core/src/http/capture.ts: `captureResponse` on a streaming response, as a state machine. `source` is
-- what the reads of the handler's body will give, ended by `done` or `failed`; the steps are the calls of the
-- two streams and of the bridge, each read taken with what its continuation does.
pub mod Invariant
pub mod Ends
pub mod Whole
pub mod Settles
pub mod Tests
use anyonce.Prelude.{
  ℕ, ◌+◌, Bytes, Bool, true, false, Option, none, some, List, [], ◌∷◌, ◌++◌, length, ltb,
  if◌then◌else◌, Result, ok, err,
}
use anyonce.Types.{StoredResult}

pub data Read (E : Type 0) : Type 0 where
  chunk : Bytes → Read E
  nothing : Read E
  done : Read E
  failed : E → Read E

pub record Capture (E : Type 0) : Type 0 where
  pub source : List (Read E)
  pub chunks : List Bytes
  pub size : ℕ
  pub over_cap : Bool
  pub client_open : Bool
  pub settled : Option (Result E StoredResult)
  -- What the client stream was given, and how it ended.
  pub sent : List Bytes
  pub ended : Option (Result E (Unit {0}))
  -- A client cancel has started the drain.
  pub draining : Bool

-- A call of one of the streams or of the bridge; a pull carries whether the client stream accepts a chunk.
pub data Event (E : Type 0) : Type 0 where
  pulls : Bool → Event E
  cancels drains closes : Event E
  fails : E → Event E

-- `concat`: the copies side by side.
abbrev pub concat : List Bytes → Bytes
concat [] = []
concat (c ∷ cs) = c ++ concat cs

module _ {E : Type 0} where
  pub start : List (Read E) → Capture E
  start source = record {
    source = source;
    chunks = [];
    size = 0;
    over_cap = false;
    client_open = true;
    settled = none;
    sent = [];
    ended = none;
    draining = false;
  }

  module _ (base : StoredResult) (max_result_bytes : ℕ) where
    -- `record`
    pub record_chunk : Bytes → Capture E → Capture E
    record_chunk value s = if s.over_cap then s else record s {
      chunks = s.chunks ++ (value ∷ []);
      size = s.size + length value;
      over_cap = ltb max_result_bytes (s.size + length value);
    }

    unfoldable finish_at : Option (Result E StoredResult) → Option E → Capture E → Capture E
    finish_at (some _) reason s = s
    finish_at none (some reason) s = record s { settled = some (err reason) }
    finish_at none none s = record s {
      settled = some (ok (record base { body = some (concat s.chunks) }));
    }

    -- `finish`: the first call settles the record.
    pub finish : Option E → Capture E → Capture E
    unfolding finish_at
    finish reason s = finish_at s.settled reason s

    -- `c.enqueue(value)`, which throws when the client is gone.
    pub enqueue : Bool → Bytes → Capture E → Capture E
    enqueue accepts value s =
        if s.client_open
        then if accepts
          then record s { sent = s.sent ++ (value ∷ []) }
          else record s { client_open = false }
        else s

    -- The client stream is ended, if it is open.
    pub end_client : Result E (Unit {0}) → Capture E → Capture E
    end_client how s =
        if s.client_open then record s { client_open = false; ended = some how } else s

    unfoldable pull_at : Bool → List (Read E) → Capture E → Capture E
    unfolding record_chunk finish enqueue end_client
    pull_at accepts [] s = s
    pull_at accepts (failed error ∷ rest) s = finish (some error) (end_client (err error) s)
    pull_at accepts (done ∷ rest) s = finish none s
    pull_at accepts (nothing ∷ rest) s = record s { source = rest }
    pull_at accepts (chunk value ∷ rest) s =
        record_chunk value (enqueue accepts value (record s { source = rest }))

    abbrev pub unless_settled : Option (Result E StoredResult) → Capture E → Capture E → Capture E
    unless_settled none s s' = s'
    unless_settled (some _) s s' = s

    -- `pull`
    pub pull : Bool → Capture E → Capture E
    unfolding pull_at
    pull accepts s = unless_settled s.settled s (pull_at accepts s.source s)

    -- `cancel`
    pub cancel : Capture E → Capture E
    cancel s = record s { client_open = false; draining = true }

    unfoldable drain_at : List (Read E) → Capture E → Capture E
    unfolding record_chunk finish
    drain_at [] s = s
    drain_at (failed error ∷ rest) s = finish (some error) (record s { draining = false })
    drain_at (done ∷ rest) s = finish none (record s { draining = false })
    drain_at (nothing ∷ rest) s = record s { source = rest }
    drain_at (chunk value ∷ rest) s = record_chunk value (record s { source = rest })

    -- One turn of `drain`. Once the record is settled the reader is released, and the read that throws settles
    -- nothing.
    pub drain_turn : Capture E → Capture E
    unfolding drain_at
    drain_turn s =
        if s.draining
        then unless_settled s.settled (record s { draining = false }) (drain_at s.source s)
        else s

    -- `close`
    pub close : Capture E → Capture E
    unfolding end_client
    close s = end_client (ok tt) s

    -- `fail`. The source that it cancels is not read again, since the record is settled.
    pub fail : E → Capture E → Capture E
    unfolding finish end_client
    fail reason s = if s.client_open then finish (some reason) (end_client (err reason) s) else s

    unfoldable pub step : Event E → Capture E → Capture E
    unfolding pull cancel drain_turn close fail
    step (pulls accepts) s = pull accepts s
    step cancels s = cancel s
    step drains s = drain_turn s
    step closes s = close s
    step (fails reason) s = fail reason s

    unfoldable pub steps : List (Event E) → Capture E → Capture E
    unfolding step
    steps [] s = s
    steps (e ∷ es) s = steps es (step e s)
