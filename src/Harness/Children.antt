-- ===== src/Harness/Children.antt =====
-- The pipes and the children of `harness_run_parallel` in src/core/harness.c, as the system calls that
-- the parent makes, in their order. Which pipes can be made and whether the results can be allocated
-- are arguments; `fork` is not checked in the code, and is one event here.
pub mod Reaped
use serv_mark.Base.{ℕ, zero, suc, Bool, true, false, List, [], ◌∷◌, ◌++◌, if◌then◌else◌}

-- The number is that of the instance.
pub data Call : Type 0 where
  pipe fork close_read close_write waitpid read kill : ℕ → Call

-- `for (int j = 0; j < i; j++)` of the cleanup, at `j` with `n` to go.
unfoldable pub close_made : ℕ → ℕ → List Call
close_made j zero = []
close_made j (suc n) = close_read j ∷ close_write j ∷ close_made (suc j) n

-- The loop that starts the children, at `i` with `n` to go: the calls, and whether all pipes were
-- made.
unfoldable pub start : (ℕ → Bool) → ℕ → ℕ → List Call × Bool
unfolding close_made
start made i zero = ([], true)
start made i (suc n) =
    let (calls, ok) = start made (suc i) n in
    if made i then (pipe i ∷ fork i ∷ close_write i ∷ calls, ok) else (close_made 0 i, false)

-- The loop that collects the results.
unfoldable pub collect : ℕ → ℕ → List Call
collect i zero = []
collect i (suc n) = waitpid i ∷ read i ∷ close_read i ∷ collect (suc i) n

-- The loop that ends the children when there is no memory for their results.
unfoldable pub discard : ℕ → ℕ → List Call
discard i zero = []
discard i (suc n) = close_read i ∷ kill i ∷ waitpid i ∷ discard (suc i) n

abbrev pub started : List Call × Bool → List Call → List Call
started (calls, true) rest = calls ++ rest
started (calls, false) rest = calls

-- All calls of the parent for `n` instances.
unfoldable pub parent_calls : (ℕ → Bool) → Bool → ℕ → List Call
unfolding start collect discard
parent_calls made allocated n =
    started (start made 0 n) (if allocated then collect 0 n else discard 0 n)
