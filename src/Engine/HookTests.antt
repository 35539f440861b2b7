-- ===== src/Engine/HookTests.antt =====
-- Two hooks, one that writes a log and one that throws, over a world with the memory store and the log.
use anyonce.Prelude.{ℕ, ◌+◌, none, some, refl, ◌≡◌, M, ok, err, pure, true}
use anyonce.Contract.{Store}
use anyonce.Memory.{MemoryStore, memory_store, empty}
use anyonce.Engine.{ExecutePolicy, fail_closed, execute}
use anyonce.Engine.Hooks.{Sim, IsObserver, unhooked, execute-unhooked}
use anyonce.Engine.Tests.{op, creates}

-- The store, how many lines the log has, and the shared counter of hook errors.
record World : Type 0 where
  store : MemoryStore
  log : ℕ
  errors : ℕ

abbrev lift_store : {A : Type 0} → M MemoryStore ℕ A → M World ℕ A
lift_store m w = ((m w.store).0, record w { store = (m w.store).1 })

abbrev lift_store-Sim :
    {A : Type 0} (m : M MemoryStore ℕ A) → Sim (λ (w : World). w.store) (lift_store m) m
lift_store-Sim m = record { at = λ w. (refl, refl) }

abbrev world_store : Store World ℕ
world_store = record {
  begin = λ op opts. lift_store ((memory_store ℕ).begin op opts);
  complete = λ op fence p now. lift_store ((memory_store ℕ).complete op fence p now);
  abandon = λ op fence. lift_store ((memory_store ℕ).abandon op fence);
  get = λ scope key now. lift_store ((memory_store ℕ).get scope key now);
  purge = λ now. lift_store ((memory_store ℕ).purge now);
  max_result_bytes = none;
}

abbrev hooked : ExecutePolicy World ℕ
hooked = record {
  lease_ms = 30;
  ttl_ms = 1000;
  max_result_bytes = 10;
  store_result = λ r. pure true;
  on_store_error = fail_closed;
  clock = pure 100;
  hooks = record {
    on_acquired = some (λ op w. (ok tt, record w { log = w.log + 1 }));
    on_replayed = some (λ op r w. (err 9, record w { log = w.log + 1 }));
    on_conflict = none;
    on_mismatch = none;
    on_store_error = none;
  };
  hook_errors = some (record { count = λ w. w.errors; set_count = λ n w. record w { errors = n } });
}

abbrev observer : IsObserver (λ (w : World). w.store) hooked
observer = record {
  acquired = λ op w. refl;
  replayed = λ op r w. refl;
  conflict = λ op l w. refl;
  mismatch = λ op r w. refl;
  store_error = λ op e w. refl;
  counter = λ w. refl;
}

abbrev first_world : World
first_world = record { store = empty; log = 0; errors = 0 }

execute-unhooked_example :
    ((execute hooked world_store op (λ f. lift_store (creates f)) first_world).0
      ≡ (execute (unhooked hooked (pure 100) (λ r. pure true)) (memory_store ℕ) op creates empty).0)
    × ((execute hooked world_store op (λ f. lift_store (creates f)) first_world).1.store
        ≡ (execute
            (unhooked hooked (pure 100) (λ r. pure true))
            (memory_store ℕ)
            op
            creates
            empty).1)
execute-unhooked_example =
    execute-unhooked (λ (w : World). w.store) hooked (pure 100) (λ r. pure true) observer
      (record { at = λ w. (refl, refl) }) (λ r. record { at = λ w. (refl, refl) }) world_store
      (memory_store ℕ) op (λ opts. lift_store-Sim _) (λ fence p now. lift_store-Sim _)
      (λ fence. lift_store-Sim _) (λ f. lift_store (creates f)) creates (λ f. lift_store-Sim _)
      first_world
