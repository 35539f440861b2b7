-- ===== src/Queue/Deliver.antt =====
-- packages/anyq/src/idempotent.ts and strategy.ts: a delivery, and what the strategy makes of what it throws. The
-- variables of the wrapper and the `translated` properties of the errors that it made are a cell of the world.
use anyonce.Prelude.{
  ℕ, suc, ◌-◌, max, Text, codes, Bool, true, false, not, ◌&&◌, Option, none, some, ◌==◌,
  if◌then◌else◌, M, Result, pure, throw, ◌>>=◌, ◌>>◌,
}
use anyonce.Types.{Operation, StoredResult, MessageOutcome, message}
use anyonce.Engine.{ExecuteResult, executed, replayed, store_error, execute}
use anyonce.Http.Run.{Cell, modify, read_cell}
use anyonce.Queue.{
  QueueError, in_flight_error, mismatch_error, Message, ResolvedOptions, retry, ack, resolve_scope,
  policy_for,
}

pub record Wrapper : Type 0 where
  -- The number of the last `InFlightError`, if the last delivery threw one.
  pub pending : Option ℕ
  pub warned : Bool
  pub made : ℕ
  pub is_translated : ℕ → Bool

abbrev pub untranslated_warning : Text
untranslated_warning =
    codes
      "anyonce: an in-flight duplicate was reported to anyq but no strategy translated it. Configure idempotencyStrategy() on the consumer so duplicates park instead of taking the legacy retry path."

-- `OK_RESULT`
abbrev pub ok_result : StoredResult
ok_result = record {
  kind = message;
  status = none;
  headers = none;
  body = none;
  outcome = some MessageOutcome.ok;
  error = none;
}

pub data RetryDecision : Type 0 where
  park : ℕ → RetryDecision
  dead_letter : Text → RetryDecision
  inner : RetryDecision

module _ {W E : Type 0} (wrapper : Cell W Wrapper) where
  -- `decide`; `inner` is left to the strategy inside.
  unfoldable pub decide : QueueError E → W → RetryDecision × W
  decide (in_flight_error error) w = (
    park error.delay_ms,
    wrapper.set
        (record (wrapper.get w) {
          is_translated = λ n. if n == error.number then true else (wrapper.get w).is_translated n;
        })
        w,
  )
  decide (mismatch_error record') w = (dead_letter (codes "fingerprint-mismatch"), w)
  decide error w = (inner, w)

module _ {W E V : Type 0} (wrapper : Cell W Wrapper) where
  module _ (options : ResolvedOptions W E V) (key_of : Message V → M W (QueueError E) Text)
      (handler : Message V → M W (QueueError E) (Unit {0})) where
    abbrev is_untranslated : Wrapper → Bool
    is_untranslated door = elim door.pending [
      | none ↦ false
      | some n ↦ not (door.is_translated n) && not door.warned
    ]

    -- What the wrapper does with the error of the delivery before.
    unfoldable pub look_back : W → W
    look_back w =
        let door = wrapper.get w in
        if is_untranslated door
        then options.warn untranslated_warning
            (wrapper.set (record door { pending = none; warned = true }) w)
        else wrapper.set (record door { pending = none }) w

    abbrev pub of_result : {A : Type 0} → Result (QueueError E) A → M W (QueueError E) A
    of_result r w = (r, w)

    unfoldable pub operation_of : Message V → M W (QueueError E) Operation
    unfolding resolve_scope
    operation_of m = do
      scope ← of_result (resolve_scope m options)
      key ← key_of m
      fingerprint ← options.fingerprint m
      pure (record { scope = scope; key = key; fingerprint = fingerprint })

    -- A duplicate of a claim in flight.
    unfoldable pub report_conflict : ℕ → M W (QueueError E) (Unit {0})
    report_conflict lease_until = elim options.on_in_flight [
      | ack ↦ pure tt
      | retry ↦ do
        now ← options.clock
        door ← read_cell wrapper
        modify (wrapper.set (record door { pending = some door.made; made = suc door.made }))
        throw (
            in_flight_error (record {
              lease_until = lease_until;
              delay_ms = max 1 (lease_until - now);
              number = door.made;
            }))
    ]

    unfoldable pub acknowledge : ExecuteResult (QueueError E) → M W (QueueError E) (Unit {0})
    unfolding report_conflict
    acknowledge (executed result is_stored) = pure tt
    acknowledge (replayed record') = pure tt
    acknowledge (ExecuteResult.conflict lease_until) = report_conflict lease_until
    acknowledge (ExecuteResult.mismatch record') = throw (mismatch_error record')
    acknowledge (store_error error) = throw error

    -- What `execute` runs.
    abbrev pub handle_once : Message V → ℕ → M W (QueueError E) StoredResult
    handle_once m fence = do handler m; pure ok_result

    -- The function that `idempotent` returns.
    unfoldable pub deliver : Message V → M W (QueueError E) (Unit {0})
    unfolding look_back operation_of acknowledge policy_for
    deliver m = do
      modify look_back
      op ← operation_of m
      outcome ← execute (policy_for options) options.store op (handle_once m)
      acknowledge outcome
