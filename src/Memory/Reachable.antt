-- ===== src/Memory/Reachable.antt =====
-- The stores that a sequence of method calls can reach.
use anyonce.Prelude.{ℕ, Text, List, [], ◌∷◌}
use anyonce.Types.{Operation, BeginOptions, Payload}
use anyonce.Memory.{MemoryStore, empty, begin, complete, abandon, purge, physically_remove}
use anyonce.Memory.Invariant.{
  IsWellFormed, empty-IsWellFormed, begin-IsWellFormed, complete-IsWellFormed, abandon-IsWellFormed,
  purge_lem, physically_remove-IsWellFormed,
}

pub data Call : Type 0 where
  begin_call : Operation → BeginOptions → Call
  complete_call : Operation → ℕ → Payload → ℕ → Call
  abandon_call : Operation → ℕ → Call
  purge_call : ℕ → Call
  remove_call : Text → Text → Call

abbrev pub after : Call → MemoryStore → MemoryStore
after (begin_call op opts) s = (begin op opts s).1
after (complete_call op fence result now) s = (complete op fence result now s).1
after (abandon_call op fence) s = (abandon op fence s).1
after (purge_call now) s = (purge now s).1
after (remove_call scope key) s = physically_remove scope key s

abbrev pub after_all : List Call → MemoryStore → MemoryStore
after_all [] s = s
after_all (c ∷ cs) s = after_all cs (after c s)

after-IsWellFormed : (c : Call) (s : MemoryStore) → IsWellFormed s → IsWellFormed (after c s)
after-IsWellFormed (begin_call op opts) s w = begin-IsWellFormed op opts s w
after-IsWellFormed (complete_call op fence result now) s w =
    complete-IsWellFormed op fence result now s w
after-IsWellFormed (abandon_call op fence) s w = abandon-IsWellFormed op fence s w
after-IsWellFormed (purge_call now) s w = (purge_lem now s w).2
after-IsWellFormed (remove_call scope key) s w = physically_remove-IsWellFormed scope key s w

after_all-IsWellFormed :
    (cs : List Call) (s : MemoryStore) → IsWellFormed s → IsWellFormed (after_all cs s)
after_all-IsWellFormed [] s w = w
after_all-IsWellFormed (c ∷ cs) s w =
    after_all-IsWellFormed cs (after c s) (after-IsWellFormed c s w)

-- After any sequence of method calls on an empty store, the names are distinct and every record is
-- filed under its own scope and key, has a fence from 1 on, and has a result exactly if it is completed.
pub reachable-IsWellFormed : (cs : List Call) → IsWellFormed (after_all cs empty)
reachable-IsWellFormed cs = after_all-IsWellFormed cs empty empty-IsWellFormed
