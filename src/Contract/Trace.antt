-- ===== src/Contract/Trace.antt =====
-- What the contract guarantees over any sequence of operations on one row, by any callers in any
-- order.
pub mod Lease
pub mod Fences
pub mod Replay
use anyonce.Prelude.{ℕ, List, [], ◌∷◌, ◌≡◌, none}
use anyonce.Types.{Operation, Payload, BeginOptions, BeginOutcome, CompleteStatus}
use anyonce.Contract.{Row, Begins, Completes, Abandons}

-- One operation with its answer. The row may also vanish: a purge, or a sweep by the backend.
pub data StoreEvent : Type 0 where
  begin : Operation → BeginOptions → BeginOutcome → StoreEvent
  complete : ℕ → Payload → ℕ → CompleteStatus → StoreEvent
  abandon : ℕ → CompleteStatus → StoreEvent
  vanish : StoreEvent

abbrev pub Step : StoreEvent → Row → Row → Type 0
Step (begin op opts out) row row' = Begins op opts row out row'
Step (complete fence payload now out) row row' = Completes fence payload now row out row'
Step (abandon fence out) row row' = Abandons fence row out row'
Step vanish row row' = row' ≡ none

abbrev pub Steps : List StoreEvent → Row → Row → Type 0
Steps [] row row' = row' ≡ row
Steps (e ∷ es) row row' = (mid : Row) × Step e row mid × Steps es mid row'
