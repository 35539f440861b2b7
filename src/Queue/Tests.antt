-- ===== src/Queue/Tests.antt =====
-- A delivery over the memory store, at concrete inputs.
use anyonce.Prelude.{
  ℕ, ◌+◌, ◌-◌, ◌≤◌, ◌<◌, max, Text, codes, false, Option, none, some, [], ◌∷◌, M, Result, ok, err,
  pure, ◌≡◌, ◌≢◌, refl, ap, arith, text_eq,
}
use anyonce.Types.{Operation, BeginOptions, BeginOutcome, IdempotencyRecord, RecordState}
use anyonce.Contract.{Begins}
use anyonce.Memory.{MemoryStore, memory_store, empty}
use anyonce.Memory.Rows.{row, name}
use anyonce.Memory.Invariant.{
  IsWellFormed, empty-IsWellFormed, begin-IsWellFormed, memory_store-KeepsContract,
}
use anyonce.Engine.Tests.{op}
use anyonce.Http.Run.Tests.{no_cell, claimed, the_claim, held}
use anyonce.Queue.{
  QueueError, in_flight_error, mismatch_error, Message, ResolvedOptions, retry, ack, fixed, id,
  header_value, text, undefined, sqs, text_body,
}
use anyonce.Queue.Deliver.{Wrapper, park, decide, report_conflict, deliver, look_back, operation_of}
use anyonce.Queue.Laws.{deliver-duplicate, parked-acquires, executed_world}

abbrev fresh : Wrapper
fresh = record { pending = none; warned = false; made = 0; is_translated = λ n. false }

abbrev options : ResolvedOptions MemoryStore ℕ ℕ
options = record {
  store = memory_store (QueueError ℕ);
  key = id;
  key_header = codes "idempotency-key";
  scope = some (fixed (codes "POST /orders"));
  consumer_group = none;
  fingerprint = λ m. pure (codes "f1");
  lease_ms = none;
  ttl_ms = none;
  on_in_flight = retry;
  on_store_error = none;
  hooks = none;
  clock = pure 100;
  warn = λ text' w. w;
}

abbrev key_from : Message ℕ → M MemoryStore (QueueError ℕ) Text
key_from m = pure (codes "k1")

abbrev handle_message : Message ℕ → M MemoryStore (QueueError ℕ) (Unit {0})
handle_message m = pure tt

abbrev a_message : Message ℕ
a_message = record {
  id = codes "m1";
  headers = (codes "a", undefined) ∷ (codes "a", text (codes "x")) ∷ [];
  body = text_body (codes "hello");
  metadata = sqs (some (codes "q"));
}

reads : header_value (λ t. t) (λ b. b) a_message.headers (codes "a") ≡ some (codes "x")
unfolding header_value text_eq
reads = refl

identified :
    operation_of
      (no_cell fresh)
      options
      key_from
      handle_message
      a_message
      (look_back (no_cell fresh) options key_from handle_message claimed)
    ≡ (ok op, claimed)
unfolding operation_of look_back
identified = refl

-- The delivery with any handler, and the world when `execute` has returned.
abbrev delivery :
    (Message ℕ → M MemoryStore (QueueError ℕ) (Unit {0})) → M MemoryStore (QueueError ℕ) (Unit {0})
delivery handler' = deliver (no_cell fresh) options key_from handler' a_message

abbrev at_answer : MemoryStore
at_answer = executed_world (no_cell fresh) options key_from handle_message a_message op claimed

abbrev IsEndedAlone : Result (QueueError ℕ) (Unit {0}) → Type 0
IsEndedAlone out =
    ((delivery handle_message claimed).0 ≡ out)
    × ((handler' : Message ℕ → M MemoryStore (QueueError ℕ) (Unit {0}))
        → delivery handler' claimed ≡ delivery handle_message claimed)

deliver-duplicate_example :
    (codes "f1" ≢ codes "f1" → IsEndedAlone (err (mismatch_error the_claim)))
    × (codes "f1" ≡ codes "f1"
        → RecordState.in_flight ≡ RecordState.completed
        → IsEndedAlone (ok tt))
    × (codes "f1" ≡ codes "f1"
        → RecordState.in_flight ≡ RecordState.in_flight
        → 100 < 130
        → (retry ≡ ack → IsEndedAlone (ok tt))
          × (retry ≡ retry
              → (later : ℕ) × ((options.clock at_answer).0 ≡ ok later)
                × IsEndedAlone (
                    err (
                      in_flight_error (record {
                        lease_until = 130;
                        delay_ms = max 1 (130 - later);
                        number = 0;
                      })))))
deliver-duplicate_example =
    deliver-duplicate (no_cell fresh) options key_from handle_message a_message claimed op 100
      the_claim (λ s. row s (name op)) IsWellFormed (memory_store-KeepsContract (QueueError ℕ) op)
      tt (λ w inv. (refl, inv)) (λ w'. (100, refl)) (ap (λ x. x.0) identified)
      (rw identified (
        begin-IsWellFormed op (record { lease_ms = 30; ttl_ms = 1000; now = 100 }) empty
          empty-IsWellFormed))
      refl (rw identified held) (omega arith)

parked-acquires_example :
    (error : QueueError ℕ) × ((report_conflict
        (no_cell fresh)
        options
        key_from
        handle_message
        130
        claimed).0
      ≡ err error)
    × ((w' : MemoryStore)
        → (delay : ℕ) × ((decide (no_cell fresh) error w').0 ≡ park delay)
          × ((op' : Operation) (opts : BeginOptions) (out : BeginOutcome)
                (row' : Option IdempotencyRecord)
              → codes "f1" ≡ op'.fingerprint
              → RecordState.in_flight ≡ RecordState.in_flight
              → 100 + delay ≤ opts.now
              → Begins op' opts (some the_claim) out row'
              → out ≡ BeginOutcome.acquired 2))
parked-acquires_example =
    parked-acquires (no_cell fresh) options key_from handle_message the_claim claimed 100 refl refl
