-- ===== src/Harness/Parallel.antt =====
-- `harness_run_parallel` of src/core/harness.c, as the parent sees it: the set-up of pipes and
-- children, the CPU that each child is pinned to, the results that come back and their statistics.
-- What a child sends is an argument: it is the result of `run_benchmark_instance` in a process of its
-- own, or whatever arrives if the child dies.
pub mod Pooling
pub mod Pinned
use serv_mark.Base.{
  ℕ, zero, suc, ◌+◌, ◌-◌, ◌*◌, ◌%◌, ◌≤◌, Bool, true, false, not, ◌&&◌, ◌||◌, Option, none, some,
  List, [], ◌∷◌, ◌++◌, ltb, leb, ◌==◌, if◌then◌else◌, ℤ, pos, negsuc, nonzero, pos_part, length,
  take, map, get_or,
}
use serv_mark.Benchmark.{Benchmark, Stats}
use serv_mark.Double.{Double, ◌⊕◌, ◌⊘◌, nought}
use serv_mark.Stats.{Computed, of_count, sum_from, stats_compute}

-- `child_result_t`, with whether it arrived whole and whether the child exited by itself. The first
-- `iter` places of the array are the list.
pub record ChildResult (D : Type 0) : Type 0 where
  pub whole : Bool
  pub exited : Bool
  pub ret : ℤ
  pub values : List D

-- What the function leaves behind: -1 with the statistics untouched, the result of `stats_compute`,
-- or statistics set to zero.
pub data Parallel (D : Type 0) : Type 0 where
  parallel_failed : Parallel D
  parallel_done : Computed D → Parallel D
  parallel_zero : Parallel D

-- `sizeof(all_values) / sizeof(all_values[0])`
abbrev pub max_pooled : ℕ
max_pooled = 992

-- The manual pins, the map from CPUs to cores, and the number of cores, as the parent set them.
pub record Placement : Type 0 where
  pub manual_pins : Option (List ℤ)
  pub phys_map : Option (List ℕ)
  pub num_phys : ℕ

-- The first CPU of a core, from CPU `c` on, or the instance's number.
unfoldable pub first_cpu_of : ℕ → List ℕ → ℕ → ℕ → ℕ
first_cpu_of core [] c other = other
first_cpu_of core (p ∷ ps) c other =
    let rest = first_cpu_of core ps (c + 1) other in if p == core then c else rest

abbrev pub auto_cpu : Option (List ℕ) → ℕ → ℕ → ℤ
auto_cpu none num_phys i = pos i
auto_cpu (some phys_map) num_phys i =
    if ltb 0 num_phys then pos (first_cpu_of (i % num_phys) phys_map 0 i) else pos i

-- Manual pins first, then a core for each instance, then the instance's number.
unfoldable pub pin_cpu : Placement → ℕ → ℤ
unfolding first_cpu_of
pin_cpu p i = elim p.manual_pins [
  | none ↦ auto_cpu p.phys_map p.num_phys i
  | some [] ↦ auto_cpu p.phys_map p.num_phys i
  | some (c ∷ cs) ↦ get_or (c ∷ cs) (i % length (c ∷ cs)) c
]

module _ {D : Type 0} where
  abbrev pub child_failed : ChildResult D → Bool
  child_failed r = not r.whole || nonzero r.ret || not r.exited

  -- The loop that waits for the children.
  unfoldable pub any_failed : List (ChildResult D) → Bool
  any_failed [] = false
  any_failed (r ∷ rs) = child_failed r || any_failed rs

  -- Latency: all values of all instances, as far as there is room for them.
  unfoldable pub pool : ℕ → List (ChildResult D) → List D
  pool room [] = []
  pool room (r ∷ rs) = take room r.values ++ pool (room - length (take room r.values)) rs

module _ {D : Type 0} ⦃d : Double D⦄ where
  abbrev pub instance_mean : List D → D
  instance_mean values = sum_from nought values ⊘ of_count (length values)

  -- Throughput: the mean of each instance that has values.
  unfoldable pub means_of : ℕ → List (ChildResult D) → List D
  means_of room [] = []
  means_of room (r ∷ rs) =
      if ltb 0 (length r.values)
      then (if ltb 0 room then instance_mean r.values ∷ [] else []) ++ means_of (room - 1) rs
      else means_of room rs

  unfoldable pub samples : Bool → List (ChildResult D) → List D
  samples higher_is_better results =
      if higher_is_better then means_of max_pooled results else pool max_pooled results

  -- The statistics, once no child has failed.
  abbrev pub summarize : Bool → (ℕ → ℕ) → List D → Parallel D
  summarize allocated rand [] = parallel_zero
  summarize allocated rand (v ∷ vs) = parallel_done (stats_compute allocated rand (v ∷ vs))

  -- `set_up` says that the allocations and all pipes succeed.
  unfoldable pub harness_run_parallel :
      Bool → Bool → (ℕ → ℕ) → Bool → List (ChildResult D) → Parallel D
  harness_run_parallel set_up allocated rand higher_is_better results =
      if not set_up
      then parallel_failed
      else if any_failed results
      then parallel_failed
      else summarize allocated rand (samples higher_is_better results)
