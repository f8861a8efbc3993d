-- ===== src/Trackers/Idle.antt =====
-- A provider call of trackers/memory.py while no fault is armed.
use symphony_python.Prelude.{◌≡◌, refl, false, none, List, [], ◌∷◌, ◌++◌}
use symphony_python.Trackers.Faults.{fault_of, check}
use symphony_python.Trackers.Memory.{Operation, Memory, provider_call}

-- The adapter is open, and no fault is armed.
abbrev pub IsIdle : Memory → Type 0
IsIdle memory =
    (memory.closed ≡ false)
    × (fault_of memory.faults ≡ none)
    × (memory.faults.pagination_after_pages ≡ none)

abbrev pub with_calls : List Operation → Memory → Memory
with_calls ops memory = record memory { calls = memory.calls ++ ops }

pub provider_call_idle :
    (op : Operation) (memory : Memory)
    → IsIdle memory
    → provider_call op memory ≡ (with_calls (op ∷ []) memory, none)
unfolding provider_call check
provider_call_idle op memory (open_now, quiet, paging) = rw (open_now, quiet) refl
