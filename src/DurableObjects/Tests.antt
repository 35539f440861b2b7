-- ===== src/DurableObjects/Tests.antt =====
-- Runs of the Durable Object store, and witnesses.
use anyonce.Prelude.{ℕ, codes, some, [], ◌∷◌, ◌≡◌, refl, ok, ◌<◌, All, text_eq, false}
use anyonce.Types.{Operation, BeginOptions}
use anyonce.Contract.{Implements}
use anyonce.Codec.{new_row}
use anyonce.Codec.Plain.{plain_json}
use anyonce.DurableObjects.{
  DurableObject, SweepRow, empty_object, begin, purge, alarm, schedule_sweep,
}
use anyonce.DurableObjects.Methods.{
  Worker, DurableObjectsStoreOptions, Shard, durable_objects_store, object_name,
}
use anyonce.DurableObjects.Methods as Methods
use anyonce.DurableObjects.Refines.{object_row, SameRows, durable_objects_store-Implements}
use anyonce.DurableObjects.Listed.{IsSwept}
use anyonce.DurableObjects.Swept.{Reaches, Runs, Reaches-IsSwept, alarm-progress}

abbrev an_op : Operation
an_op = record { scope = codes "POST /pay"; key = codes "k1"; fingerprint = codes "f1" }

abbrev other_op : Operation
other_op = record { scope = codes "POST /pay"; key = codes "k2"; fingerprint = codes "f1" }

abbrev for_ttl : ℕ → BeginOptions
for_ttl ttl = record { lease_ms = 10; ttl_ms = ttl; now = 5 }

-- The object after `an_op` is claimed for 100 ms, then `other_op` for 50, with a grace of 1000; the wall clock
-- reads 7000.
abbrev first : DurableObject
first = (begin plain_json 7000 an_op (for_ttl 100) 1000 empty_object).1

abbrev second : DurableObject
second = (begin plain_json 7000 other_op (for_ttl 50) 1000 first).1

earliest : second.alarm ≡ some 8050
unfolding begin text_eq schedule_sweep
earliest = refl

-- The alarm removes the row that is due and is set for the other.
alarm_once :
    ((alarm 8050 second).alarm ≡ some 8100)
    × ((alarm 8050 second).records ≡ (new_row an_op (for_ttl 100) 1 ∷ []))
unfolding begin text_eq schedule_sweep alarm new_row
alarm_once = (refl, refl)

alarm_twice : alarm 8100 (alarm 8050 second) ≡ empty_object
unfolding begin text_eq schedule_sweep alarm
alarm_twice = refl

-- A purge prunes the sweep table and leaves the alarm.
pruned : ((purge 60 second).0 ≡ ok 1) × ((purge 60 second).1.alarm ≡ some 8050)
unfolding begin text_eq schedule_sweep purge
pruned = (refl, refl)

reached : Reaches plain_json second
reached =
    Reaches.runs (Reaches.runs Reaches.starts (Runs.begins 7000 an_op (for_ttl 100) 1000))
      (Runs.begins 7000 other_op (for_ttl 50) 1000)

Reaches-IsSwept_example : IsSwept second
Reaches-IsSwept_example = Reaches-IsSwept reached

alarm-progress_example :
    IsSwept (alarm 8050 second)
    × All (λ (s : SweepRow). 8050 < s.expires_wall) (alarm 8050 second).sweep
alarm-progress_example = alarm-progress reached 8050

abbrev per_key : DurableObjectsStoreOptions
per_key = record { shard = Shard.by_scope_key; native_ttl_grace_ms = 1000; track_for_purge = false }

-- Two keys of one scope stand in two objects.
abbrev new_worker : Worker
new_worker = record { objects = λ name. empty_object; touched = [] }

two_claims :
    (((durable_objects_store plain_json 7000 per_key).begin other_op
        (for_ttl 50)
        ((durable_objects_store plain_json 7000 per_key).begin an_op
          (for_ttl 50)
          new_worker).1).1.objects
      (codes "POST /pay\u{1f}k2")).alarm
    ≡ some 8050
unfolding durable_objects_store Methods.begin begin text_eq schedule_sweep object_name
two_claims = refl

durable_objects_store-Implements_example :
    Implements
      (durable_objects_store plain_json 7000 per_key)
      an_op
      (object_row plain_json 7000 per_key refl an_op)
      (λ _. Unit)
      (SameRows Shard.by_scope_key an_op)
durable_objects_store-Implements_example =
    durable_objects_store-Implements plain_json 7000 per_key refl an_op
