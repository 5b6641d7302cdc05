-- ===== src/Mpmc.antt =====
-- The queue of src/benchmarks/sync/sync_mpmc.c. Refinement is about its operations as wholes, one after
-- the other; Race is about the loads and stores of two of them in turns.
pub mod Positions
pub mod Refinement
pub mod Race
use serv_mark.Base.{ℕ, ◌+◌, ◌%◌, Bool, List, ◌==◌, if◌then◌else◌, set, get_or, replicate}

abbrev pub queue_size : ℕ
queue_size = 1024

-- `mpmc_queue_t`
pub record Queue : Type 0 where
  pub items : List ℕ
  pub head : ℕ
  pub tail : ℕ

-- What `calloc` and `atomic_init` leave.
abbrev pub empty_queue : Queue
empty_queue = record { items = replicate queue_size 0; head = 0; tail = 0 }

-- `(t + 1) % QUEUE_SIZE`
abbrev pub next : ℕ → ℕ
next t = (t + 1) % queue_size

-- The result is 0 or 1.
unfoldable pub mpmc_enqueue : ℕ → Queue → ℕ × Queue
mpmc_enqueue item q =
    if next q.tail == q.head
    then (0, q)
    else (1, record q { items = set q.items q.tail item; tail = next q.tail })

-- The item, or 0.
unfoldable pub mpmc_dequeue : Queue → ℕ × Queue
mpmc_dequeue q =
    if q.head == q.tail then (0, q) else (get_or q.items q.head 0, record q { head = next q.head })
