-- ===== src/DurableObjects/Methods.antt =====
-- packages/stores/src/durable-objects.ts: `DurableObjectsStore`, on the Worker's side. The namespace, which is the
-- platform's, holds one object for each name.
use anyonce.Prelude.{
  ℕ, ◌+◌, Text, text_eq, ◌++◌, Bool, not, Option, none, List, [], ◌∷◌, if◌then◌else◌, M, ok, pure,
  ◌>>=◌,
}
use anyonce.Types.{
  Operation, Payload, IdempotencyRecord, BeginOptions, BeginOutcome, CompleteStatus,
}
use anyonce.Contract.{Store}
use anyonce.Codec.{Json}
use anyonce.DurableObjects
use anyonce.DurableObjects.{DurableObject}

pub data Shard : Type 0 where
  by_scope by_scope_key : Shard

pub record DurableObjectsStoreOptions : Type 0 where
  pub shard : Shard
  pub native_ttl_grace_ms : ℕ
  pub track_for_purge : Bool

pub record Worker : Type 0 where
  pub objects : Text → DurableObject
  pub touched : List Text

abbrev pub set_object : Text → DurableObject → (Text → DurableObject) → Text → DurableObject
set_object name o objects other = if text_eq name other then o else objects other

-- One RPC to the object of a name.
unfoldable pub by_name : {A : Type 0} → Text → M DurableObject Text A → M Worker Text A
by_name name f w =
    let r = f (w.objects name) in (r.0, record w { objects = set_object name r.1 w.objects })

-- `Set.add`
abbrev add_name : Text → List Text → List Text
add_name name [] = name ∷ []
add_name name (n ∷ ns) = let rest = add_name name ns in if text_eq n name then n ∷ ns else n ∷ rest

-- The name of the object that owns a scope, or a scope and key.
unfoldable pub object_name : Shard → Text → Text → Text
object_name by_scope scope key = scope
object_name by_scope_key scope key = scope ++ (31 ∷ key)

-- `purge` on each of the names.
unfoldable pub purge_names : ℕ → List Text → M Worker Text ℕ
unfolding by_name DurableObjects.purge
purge_names now [] = pure 0
purge_names now (n ∷ ns) = by_name n (DurableObjects.purge now) >>= λ removed.
    (purge_names now ns >>= λ rest. pure (removed + rest))

abbrev forget_names : {A : Type 0} → A → M Worker Text A
forget_names a w = (ok a, record w { touched = [] })

module _ (json : Json) (date_now : ℕ) (options : DurableObjectsStoreOptions) where
  unfoldable pub stub : {A : Type 0} → Text → Text → M DurableObject Text A → M Worker Text A
  unfolding by_name object_name
  stub scope key f w =
      let name = object_name options.shard scope key in
      by_name name f
        (if options.track_for_purge then record w { touched = add_name name w.touched } else w)

  unfoldable pub begin : Operation → BeginOptions → M Worker Text BeginOutcome
  unfolding stub DurableObjects.begin
  begin op opts =
      stub op.scope op.key (DurableObjects.begin json date_now op opts options.native_ttl_grace_ms)

  unfoldable pub complete : Operation → ℕ → Payload → ℕ → M Worker Text CompleteStatus
  unfolding stub DurableObjects.complete
  complete op fence result now =
      stub op.scope op.key (DurableObjects.complete json op fence result now)

  unfoldable pub abandon : Operation → ℕ → M Worker Text CompleteStatus
  unfolding stub DurableObjects.abandon
  abandon op fence = stub op.scope op.key (DurableObjects.abandon json op fence)

  unfoldable pub get : Text → Text → ℕ → M Worker Text (Option IdempotencyRecord)
  unfolding stub DurableObjects.get
  get scope key now = stub scope key (DurableObjects.get json scope key now)

  unfoldable pub purge : ℕ → M Worker Text ℕ
  unfolding purge_names
  purge now w =
      if not options.track_for_purge
      then (ok 0, w)
      else (purge_names now w.touched >>= forget_names) w

  unfoldable pub physically_remove : Text → Text → M Worker Text Unit
  unfolding stub DurableObjects.physically_remove
  physically_remove scope key =
      stub scope key (λ o. (ok tt, DurableObjects.physically_remove scope key o))

  unfoldable pub durable_objects_store : Store Worker Text
  unfolding begin complete abandon get purge
  durable_objects_store = record {
    begin = begin;
    complete = complete;
    abandon = abandon;
    get = get;
    purge = purge;
    max_result_bytes = none;
  }
