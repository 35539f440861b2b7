-- ===== src/Queue/Laws.antt =====
-- What the queue door makes of duplicates.
use anyonce.Prelude.{
  ℕ, ◌+◌, ◌-◌, ◌≤◌, ◌<◌, max, Text, some, M, Result, ok, err, ◌≡◌, ◌≢◌, refl, arith,
}
use anyonce.Types.{Operation, BeginOptions, BeginOutcome, IdempotencyRecord, RecordState}
use anyonce.Contract.{
  Row, Begins, claims_new, claims_expired, takes_over, mismatches, replays, conflicts,
  KeepsContract, Holds,
}
use anyonce.Engine.{execute, ExecuteResult}
use anyonce.Engine.Outcomes.{AnswersAlone}
use anyonce.Engine.Once.{execute-duplicate, Keeps}
use anyonce.Http.Run.{Cell}
use anyonce.Queue.{
  QueueError, InFlightError, in_flight_error, mismatch_error, Message, ResolvedOptions, retry, ack,
  policy_for,
}
use anyonce.Queue.Deliver.{
  Wrapper, park, decide, look_back, operation_of, report_conflict, acknowledge, handle_once,
  deliver,
}

module _ {W E V : Type 0} (wrapper : Cell W Wrapper) (options : ResolvedOptions W E V)
    (key_of : Message V → M W (QueueError E) Text)
    (handler : Message V → M W (QueueError E) (Unit {0})) where
  abbrev delivered : Message V → M W (QueueError E) (Unit {0})
  delivered = deliver wrapper options key_of handler

  abbrev acknowledged : ExecuteResult (QueueError E) → M W (QueueError E) (Unit {0})
  acknowledged = acknowledge wrapper options key_of handler

  abbrev reported : ℕ → M W (QueueError E) (Unit {0})
  reported = report_conflict wrapper options key_of handler

  -- The operation of a message, found after the look at the delivery before, and the world then.
  abbrev pub identified : Message V → W → Result (QueueError E) Operation × W
  identified m w =
      operation_of wrapper options key_of handler m (look_back wrapper options key_of handler w)

  deliver-returned :
      (m : Message V) (w : W) (op : Operation) (out : ExecuteResult (QueueError E))
      → (identified m w).0 ≡ ok op
      → let after =
          execute
            (policy_for options)
            options.store
            op
            (handle_once wrapper options key_of handler m)
            (identified m w).1 in
        after.0 ≡ ok out → delivered m w ≡ acknowledged out after.1
  unfolding deliver
  deliver-returned m w op out named came = rw (named, came) refl

  -- The error of a claim in flight: its delay is the rest of the lease, at least one, and its number the next.
  abbrev pub parked : ℕ → ℕ → W → InFlightError
  parked lease_until later w = record {
    lease_until = lease_until;
    delay_ms = max 1 (lease_until - later);
    number = (wrapper.get (options.clock w).1).made;
  }

  report_conflict-retry :
      (lease_until later : ℕ) (w : W)
      → options.on_in_flight ≡ retry
      → (options.clock w).0 ≡ ok later
      → (reported lease_until w).0 ≡ err (in_flight_error (parked lease_until later w))
  unfolding report_conflict
  report_conflict-retry lease_until later w parks time = rw (report_conflict, parks, time) refl

  report_conflict-ack :
      (lease_until : ℕ) (w : W) → options.on_in_flight ≡ ack → (reported lease_until w).0 ≡ ok tt
  unfolding report_conflict
  report_conflict-ack lease_until w acks = rw (report_conflict, acks) refl

  -- Another handler.
  abbrev Handles : Type 0
  Handles = Message V → M W (QueueError E) (Unit {0})

  abbrev delivered_by : Handles → Message V → M W (QueueError E) (Unit {0})
  delivered_by handler' = deliver wrapper options key_of handler'

  -- A delivery ends in `out` without its handler: with any other handler the whole delivery is the same.
  abbrev pub DeliversAlone : Message V → W → Result (QueueError E) (Unit {0}) → Type 0
  DeliversAlone m w out =
      ((delivered_by handler m w).0 ≡ out)
      × ((handler' : Handles) → delivered_by handler' m w ≡ delivered_by handler m w)

  -- The world when `execute` has returned.
  abbrev pub executed_world : Message V → Operation → W → W
  executed_world m op w =
      (execute (policy_for options) options.store op (handle_once wrapper options key_of handler m)
        (identified m w).1).1

  -- Which handler the wrapper has does not matter to what it makes of a result.
  acknowledge-alone :
      (handler' : Handles) (out : ExecuteResult (QueueError E)) (w : W)
      → acknowledge wrapper options key_of handler' out w ≡ acknowledged out w
  unfolding acknowledge report_conflict
  acknowledge-alone handler' (ExecuteResult.executed result is_stored) w = refl
  acknowledge-alone handler' (ExecuteResult.replayed r) w = refl
  acknowledge-alone handler' (ExecuteResult.conflict lease_until) w = refl
  acknowledge-alone handler' (ExecuteResult.mismatch r) w = refl
  acknowledge-alone handler' (ExecuteResult.store_error error) w = refl

  deliver-alone :
      (handler' : Handles) (m : Message V) (w : W) (op : Operation)
      (out : ExecuteResult (QueueError E))
      → (identified m w).0 ≡ ok op
      → AnswersAlone
          (policy_for options)
          options.store
          op
          (handle_once wrapper options key_of handler m)
          (identified m w).1
          out
      → delivered_by handler' m w ≡ delivered_by handler m w
  unfolding deliver operation_of look_back
  deliver-alone handler' m w op out named (came, alone) =
      rw (named, alone (handle_once wrapper options key_of handler' m), came)
        (acknowledge-alone handler' out _)

  delivers :
      (m : Message V) (w : W) (op : Operation) (out : ExecuteResult (QueueError E))
      (end : Result (QueueError E) (Unit {0}))
      → (identified m w).0 ≡ ok op
      → AnswersAlone
          (policy_for options)
          options.store
          op
          (handle_once wrapper options key_of handler m)
          (identified m w).1
          out
      → (acknowledged out (executed_world m op w)).0 ≡ end
      → DeliversAlone m w end
  delivers m w op out end named answers done = (
    rw (deliver-returned m w op out named answers.0) done,
    λ handler'. deliver-alone handler' m w op out named answers,
  )

  -- On a live row that is not free, a delivery does not run its handler: one with another payload throws
  -- `FingerprintMismatchError`, one whose result is stored returns, and one whose claim is in flight returns if the
  -- option is to acknowledge it, and else throws an `InFlightError` whose delay is the rest of the lease, at least
  -- one, by the clock when `execute` has returned; and with any other handler the whole delivery is the same. The
  -- store keeps the contract on the row, and the clock leaves the row alone and never throws.
  pub deliver-duplicate :
      (m : Message V) (w : W) (op : Operation) (now : ℕ) (r : IdempotencyRecord) (row : W → Row)
      (Inv : W → Type 0) (impl : KeepsContract options.store op row Inv)
      (capped : Holds (policy_for options).max_result_bytes options.store.max_result_bytes)
      → Keeps (policy_for options) options.store op row Inv impl capped options.clock
      → ((w' : W) → (later : ℕ) × ((options.clock w').0 ≡ ok later))
      → (identified m w).0 ≡ ok op
      → Inv (identified m w).1
      → (options.clock (identified m w).1).0 ≡ ok now
      → row (identified m w).1 ≡ some r
      → now < r.expires_at
      → (r.fingerprint ≢ op.fingerprint → DeliversAlone m w (err (mismatch_error r)))
        × (r.fingerprint ≡ op.fingerprint
            → r.state ≡ RecordState.completed
            → DeliversAlone m w (ok tt))
        × (r.fingerprint ≡ op.fingerprint
            → r.state ≡ RecordState.in_flight
            → now < r.lease_until
            → (options.on_in_flight ≡ ack → DeliversAlone m w (ok tt))
              × (options.on_in_flight ≡ retry
                  → (later : ℕ) × ((options.clock (executed_world m op w)).0 ≡ ok later)
                    × DeliversAlone m w (
                        err
                          (in_flight_error (parked r.lease_until later (executed_world m op w))))))
  unfolding policy_for
  deliver-duplicate m w op now r row Inv impl capped calm timed named inv time here live =
      let run = handle_once wrapper options key_of handler m in
      let (other, done, held) =
        execute-duplicate (policy_for options) options.store op row Inv impl capped calm run
          (identified m w).1 now r inv time here live in
      let after = executed_world m op w in
      (
        λ ne. delivers m w op _ _ named (other ne) (unfold acknowledge in refl),
        λ same state. delivers m w op _ _ named (done same state) (unfold acknowledge in refl),
        λ same state lease.
            let there = held same state lease in
            (
              λ acks.
                  delivers m w op _ _ named there
                    (unfold acknowledge in report_conflict-ack r.lease_until after acks),
              λ parks.
                  let (later, at) = timed after in
                  (
                    later,
                    at,
                    delivers m w op _ _ named there (
                        unfold acknowledge in
                        report_conflict-retry r.lease_until later after parks at),
                  ),
            ),
      )

-- What a claim at a time after the lease answers on a row of the same payload that is in flight.
late_claim :
    {op : Operation} {opts : BeginOptions} {row' : Row} {out : BeginOutcome} (r : IdempotencyRecord)
    → Begins op opts (some r) out row'
    → r.fingerprint ≡ op.fingerprint
    → r.state ≡ RecordState.in_flight
    → r.lease_until ≤ opts.now
    → out ≡ BeginOutcome.acquired (r.fence + 1)
late_claim r (claims_new a b c) h s l = cc
late_claim r (claims_expired x a b c d) h s l = ground arith
late_claim r (takes_over x a b c d e f g) h s l = ground arith
late_claim r (mismatches x a b c d e) h s l = ground arith
late_claim r (replays x a b c d e f) h s l = ground arith
late_claim r (conflicts x a b c d e f g) h s l = ground arith

module _ {W E V : Type 0} (wrapper : Cell W Wrapper) (options : ResolvedOptions W E V)
    (key_of : Message V → M W (QueueError E) Text)
    (handler : Message V → M W (QueueError E) (Unit {0})) where
  -- A duplicate that is parked is not parked for ever: the error that the door throws for a claim in flight is parked
  -- by the strategy, and once the delay is over, a claim of the same operation acquires the row if it is still in
  -- flight, in any store that keeps the contract.
  pub parked-acquires :
      (r : IdempotencyRecord) (w : W) (later : ℕ)
      → options.on_in_flight ≡ retry
      → (options.clock w).0 ≡ ok later
      → (error : QueueError E) × ((report_conflict wrapper options key_of handler r.lease_until w).0
          ≡ err error)
        × ((w' : W)
            → (delay : ℕ) × ((decide wrapper error w').0 ≡ park delay)
              × ((op : Operation) (opts : BeginOptions) (out : BeginOutcome) (row' : Row)
                  → r.fingerprint ≡ op.fingerprint
                  → r.state ≡ RecordState.in_flight
                  → later + delay ≤ opts.now
                  → Begins op opts (some r) out row'
                  → out ≡ BeginOutcome.acquired (r.fence + 1)))
  unfolding decide
  parked-acquires r w later parks time = (
    _,
    report_conflict-retry wrapper options key_of handler r.lease_until later w parks time,
    λ w'. (
      max 1 (r.lease_until - later),
      refl,
      λ op opts out row' same state over b. late_claim r b same state (omega (arith, over)),
    ),
  )
