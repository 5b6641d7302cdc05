-- ===== src/Harness/Children/Reaped.antt =====
-- Which children the parent waits for.
use serv_mark.Base.Member.{Member, Member-append_left, Member-append_right}
use serv_mark.Base.{
  ℕ, zero, suc, ◌+◌, ◌≡◌, ◌≤◌, ◌<◌, ◌↔◌, Bool, true, false, List, [], ◌∷◌, ◌++◌, arith, refl,
  if◌then◌else◌,
}
use serv_mark.Harness.Children.{
  Call, fork, waitpid, close_made, start, collect, discard, started, parent_calls,
}

-- Every pipe from `i` on, `n` of them, can be made.
abbrev pub AllMade : (ℕ → Bool) → ℕ → ℕ → Type 0
AllMade made i zero = Unit
AllMade made i (suc n) = (made i ≡ true) × AllMade made (suc i) n

-- No call of the list waits for a child.
close_made-no_wait : (k j n : ℕ) → Member (waitpid k) (close_made j n) → ⊥
unfolding close_made
close_made-no_wait k j zero m = m
close_made-no_wait k j (suc n) m = ground (arith, close_made-no_wait k (suc j) n)

start-no_wait : (made : ℕ → Bool) (k i n : ℕ) → Member (waitpid k) (start made i n).0 → ⊥
unfolding start
start-no_wait made k i zero m = m
start-no_wait made k i (suc n) m =
    ground (arith, start-no_wait made k (suc i) n, close_made-no_wait k 0 i)

start_all : (made : ℕ → Bool) (i n : ℕ) → ((start made i n).1 ≡ true) ↔ AllMade made i n
unfolding start
start_all made i zero = ground arith
start_all made i (suc n) = ground (arith, start_all made (suc i) n)

close_made-no_fork : (k j n : ℕ) → Member (fork k) (close_made j n) → ⊥
unfolding close_made
close_made-no_fork k j zero m = m
close_made-no_fork k j (suc n) m = ground (arith, close_made-no_fork k (suc j) n)

collect-no_fork : (k i n : ℕ) → Member (fork k) (collect i n) → ⊥
unfolding collect
collect-no_fork k i zero m = m
collect-no_fork k i (suc n) m = ground (arith, collect-no_fork k (suc i) n)

discard-no_fork : (k i n : ℕ) → Member (fork k) (discard i n) → ⊥
unfolding discard
discard-no_fork k i zero m = m
discard-no_fork k i (suc n) m = ground (arith, discard-no_fork k (suc i) n)

start-above : (made : ℕ → Bool) (k i n : ℕ) → Member (fork k) (start made i n).0 → i ≤ k
unfolding start
start-above made k i zero m = absurd m
start-above made k i (suc n) m =
    ground (arith, start-above made k (suc i) n, close_made-no_fork k 0 i)

-- The child at distance `j` is forked exactly if its pipe and all before it can be made.
start-forks :
    (made : ℕ → Bool) (k i j n : ℕ)
    → k ≡ i + j
    → j < n
    → Member (fork k) (start made i n).0 ↔ AllMade made i (suc j)
unfolding start
start-forks made k i j zero at below = absurd (omega arith)
start-forks made k i zero (suc n) at below =
    ground (arith, start-above made k (suc i) n, close_made-no_fork k 0 i)
start-forks made k i (suc j) (suc n) at below =
    ground
      (arith, start-forks made k (suc i) j n (omega arith) (omega arith), close_made-no_fork k 0 i)

collect-waits : (k i n : ℕ) → i ≤ k → k < i + n → Member (waitpid k) (collect i n)
unfolding collect
collect-waits k i zero low high = absurd (omega arith)
collect-waits k i (suc n) low high = ground (arith, collect-waits k (suc i) n)

discard-waits : (k i n : ℕ) → i ≤ k → k < i + n → Member (waitpid k) (discard i n)
unfolding discard
discard-waits k i zero low high = absurd (omega arith)
discard-waits k i (suc n) low high = ground (arith, discard-waits k (suc i) n)

-- What follows the loop that starts the children.
abbrev ending : Bool → ℕ → List Call
ending allocated n = if allocated then collect 0 n else discard 0 n

ending-no_fork : (allocated : Bool) (k n : ℕ) → Member (fork k) (ending allocated n) → ⊥
ending-no_fork true k n m = collect-no_fork k 0 n m
ending-no_fork false k n m = discard-no_fork k 0 n m

ending-waits : (allocated : Bool) (k n : ℕ) → k < n → Member (waitpid k) (ending allocated n)
ending-waits true k n h = collect-waits k 0 n (omega arith) (omega arith)
ending-waits false k n h = discard-waits k 0 n (omega arith) (omega arith)

append-Member :
    (c : Call) (xs ys : List Call) → (Member c ys → ⊥) → Member c (xs ++ ys) → Member c xs
append-Member c [] ys out m = out m
append-Member c (x ∷ xs) ys out m = ground (arith, append-Member c xs ys out)

Member-started_fork :
    (s : List Call × Bool) (allocated : Bool) (k n : ℕ)
    → Member (fork k) (started s (ending allocated n)) ↔ Member (fork k) s.0
Member-started_fork (calls, true) allocated k n = (
  append-Member (fork k) calls (ending allocated n) (ending-no_fork allocated k n),
  Member-append_left (fork k) calls (ending allocated n),
)
Member-started_fork (calls, false) allocated k n = ground arith

Member-started_wait :
    (s : List Call × Bool) (allocated : Bool) (k n : ℕ)
    → (Member (waitpid k) s.0 → ⊥)
    → k < n
    → Member (waitpid k) (started s (ending allocated n)) ↔ (s.1 ≡ true)
Member-started_wait (calls, true) allocated k n none h = (
  (λ m. refl),
  (λ e. Member-append_right (waitpid k) calls (ending allocated n) (ending-waits allocated k n h)),
)
Member-started_wait (calls, false) allocated k n none h = ground arith

-- The child of an instance is forked exactly if its pipe and all before it can be made, and the parent
-- waits for it exactly if the pipes of all instances can be made: children that were forked before a
-- pipe fails are never waited for.
pub parent_calls-reaps :
    (made : ℕ → Bool) (allocated : Bool) (n k : ℕ)
    → k < n
    → (Member (fork k) (parent_calls made allocated n) ↔ AllMade made 0 (suc k))
      × (Member (waitpid k) (parent_calls made allocated n) ↔ AllMade made 0 n)
unfolding parent_calls
parent_calls-reaps made allocated n k h =
    let forks = start-forks made k 0 k n (omega arith) h in
    let same = Member-started_fork (start made 0 n) allocated k n in
    let waits = Member-started_wait (start made 0 n) allocated k n (start-no_wait made k 0 n) h in
    let all = start_all made 0 n in
    (
      ((λ m. forks.0 (same.0 m)), (λ a. same.1 (forks.1 a))),
      ((λ m. all.0 (waits.0 m)), (λ a. waits.1 (all.1 a))),
    )
