-- ===== src/Harness/Instance.antt =====
-- `run_benchmark_instance` and `harness_run_single` of src/core/harness.c. The hardware counters that
-- surround each measurement fill two fields that nothing here reads, and are left out.
pub mod Bounds
pub mod Calls
use serv_mark.Base.{
  ℕ, zero, suc, ◌+◌, ◌-◌, Bool, true, false, not, ◌&&◌, Option, none, some, List, [], ◌∷◌, ◌++◌,
  ltb, leb, if◌then◌else◌, ℤ, pos, pos_part, positive, nonzero, ◌-ℤ◌, ◌+ℤ◌, leb_ℤ, ltb_ℤ, length,
  take,
}
use serv_mark.Benchmark.{Measurement, Benchmark, Stats}
use serv_mark.Config.{RunConfig}
use serv_mark.Double.{Double, ◌⊕◌, ◌⊗◌, ◌⊘◌, ◌≺◌, ◌≼◌, nought}
use serv_mark.Stats.{Computed, max_iterations, of_count, relative, stats_mean_stddev, stats_compute}

-- `struct timespec`
pub record Timespec : Type 0 where
  pub tv_sec : ℤ
  pub tv_nsec : ℤ

-- The two clocks of `clock_gettime`: reading one may take time itself.
pub record Clocks (W : Type 0) : Type 0 where
  pub monotonic : W → Timespec × W
  pub thread_cpu : W → Timespec × W

-- A benchmark's limits, or the defaults for those that are not positive.
pub record Limits (D : Type 0) : Type 0 where
  pub max_iter : ℕ
  pub min_iter : ℕ
  pub target : D
  pub min_runtime : ℤ
  pub max_runtime : ℤ

-- What a run of an instance yields: the code of the call that failed, or the values.
pub data Outcome (D W : Type 0) : Type 0 where
  failed : ℤ → W → Outcome D W
  finished : List D → W → Outcome D W

-- What `harness_run_single` does: it returns the code of a failure, it takes statistics of values that
-- were never written, or it fills in the statistics.
pub data Single (D W : Type 0) : Type 0 where
  single_failed : ℤ → W → Single D W
  unwritten : W → Single D W
  single_done : Computed D → W → Single D W

-- One round of the measurement loop: it fails, it breaks off, or it goes on.
pub data Round (D W : Type 0) : Type 0 where
  aborted : ℤ → W → Round D W
  stopped : List D → W → Round D W
  goes_on : List D → W → Round D W

abbrev pub or_default : ℤ → ℤ → ℤ
or_default n default = if positive n then n else default

abbrev pub clamp_max : ℤ → ℤ → ℤ
clamp_max limit iter = if positive limit && ltb_ℤ limit iter then limit else iter

abbrev pub clamp_min : ℤ → ℤ → ℤ
clamp_min limit iter = if positive limit && ltb_ℤ iter limit then limit else iter

-- The count that the overrides make of the number of values; `none` is a null pointer.
abbrev pub clamped : {D : Type 0} → Option (RunConfig D) → ℤ → ℤ
clamped none iter = iter
clamped (some o) iter = clamp_min o.min_iterations (clamp_max o.max_iterations iter)

module _ {D : Type 0} ⦃d : Double D⦄ where
  open d use {lit, of_int, sqrt}

  -- `(now.tv_sec - start.tv_sec) + (now.tv_nsec - start.tv_nsec) / 1e9`
  unfoldable pub elapsed : Timespec → Timespec → D
  elapsed start now =
      of_int (now.tv_sec -ℤ start.tv_sec)
      ⊕ of_int (now.tv_nsec -ℤ start.tv_nsec) ⊘ lit 1_000_000_000 1

  -- `sem_rel <= target && wall_elapsed >= min_runtime`, once there are `min_iter` values.
  unfoldable pub has_converged : Limits D → List D → D → Bool
  has_converged limits values wall_elapsed =
      let (mean, stddev) = stats_mean_stddev values in
      let sem = stddev ⊘ sqrt (of_count (length values)) in
      leb limits.min_iter (length values)
      && (relative sem mean ≼ limits.target)
      && (of_int limits.min_runtime ≼ wall_elapsed)

module _ {D W : Type 0} ⦃d : Double D⦄ where
  open d use {lit, of_int}

  unfoldable pub limits_of : Benchmark D W → Limits D
  limits_of bench = record {
    max_iter = pos_part (or_default bench.max_iterations (pos 31));
    min_iter = pos_part (or_default bench.min_iterations (pos 5));
    target = if nought ≺ bench.convergence_target then bench.convergence_target else lit 2 100;
    min_runtime = or_default bench.min_runtime_sec (pos 10);
    max_runtime = or_default bench.max_runtime_sec (pos 180);
  }

  -- The end of a round, after the clock has been read: the guard on wall time, then that on
  -- processor time, whose clock is read only now.
  unfoldable pub check_time : Clocks W → Limits D → Timespec → D → List D → W → Round D W
  check_time clocks limits cpu_start wall_elapsed values w =
      if of_int limits.max_runtime ≼ wall_elapsed
      then stopped values w
      else let (cpu_now, w') = clocks.thread_cpu w in
        let cpu_elapsed : D = elapsed cpu_start cpu_now in
        if of_int (limits.max_runtime +ℤ limits.max_runtime) ≺ cpu_elapsed
        then stopped values w'
        else goes_on values w'

  -- The round from the successful measurement on.
  unfoldable pub after_measure : Clocks W → Limits D → Timespec → Timespec → List D → W → Round D W
  after_measure clocks limits wall_start cpu_start values w =
      let (wall_now, w') = clocks.monotonic w in
      let wall_elapsed : D = elapsed wall_start wall_now in
      if has_converged limits values wall_elapsed
      then stopped values w'
      else check_time clocks limits cpu_start wall_elapsed values w'

  unfoldable pub round :
      Clocks W → Benchmark D W → Limits D → Timespec → Timespec → List D → W → Round D W
  round clocks bench limits wall_start cpu_start values w =
      let ((ret, m), w') = bench.measure w in
      if nonzero ret
      then aborted ret (bench.cleanup w')
      else after_measure clocks limits wall_start cpu_start (values ++ (m.primary_metric ∷ [])) w'

  abbrev pub close : Benchmark D W → List D → W → Outcome D W
  close bench values w = finished values (bench.cleanup w)

  -- What follows a round; `again` is the rest of the loop.
  unfoldable pub after_round : Benchmark D W → (List D → W → Outcome D W) → Round D W → Outcome D W
  after_round bench again (aborted ret w) = failed ret w
  after_round bench again (stopped values w) = close bench values w
  after_round bench again (goes_on values w) = again values w

  -- `while (iter < max_iter)`, with `left` rounds to go.
  unfoldable pub measure_loop :
      Clocks W → Benchmark D W → Limits D → Timespec → Timespec → ℕ → List D → W → Outcome D W
  measure_loop clocks bench limits wall_start cpu_start zero values w = close bench values w
  measure_loop clocks bench limits wall_start cpu_start (suc left) values w =
      after_round bench (measure_loop clocks bench limits wall_start cpu_start left)
        (round clocks bench limits wall_start cpu_start values w)

  -- Both clocks are read, and the loop runs.
  unfoldable pub timed_loop : Clocks W → Benchmark D W → W → Outcome D W
  timed_loop clocks bench w =
      let limits = limits_of bench in
      let (wall_start, w1) = clocks.monotonic w in
      let (cpu_start, w2) = clocks.thread_cpu w1 in
      measure_loop clocks bench limits wall_start cpu_start limits.max_iter [] w2

  -- The two measurements that are thrown away, `n` of them left.
  unfoldable pub discard_loop : Clocks W → Benchmark D W → ℕ → W → Outcome D W
  discard_loop clocks bench zero w = timed_loop clocks bench w
  discard_loop clocks bench (suc n) w =
      let ((ret, m), w') = bench.measure w in
      let rest = discard_loop clocks bench n w' in
      if nonzero ret then failed ret (bench.cleanup w') else rest

  unfoldable pub warm_up : Clocks W → Benchmark D W → Option (W → ℤ × W) → W → Outcome D W
  warm_up clocks bench none w = discard_loop clocks bench 2 w
  warm_up clocks bench (some warmup) w =
      let (ret, w') = warmup w in
      if nonzero ret then failed ret (bench.cleanup w') else discard_loop clocks bench 2 w'

  unfoldable pub run_benchmark_instance : Clocks W → Benchmark D W → W → Outcome D W
  run_benchmark_instance clocks bench w =
      let (ret, w') = bench.init w in
      if nonzero ret then failed ret w' else warm_up clocks bench bench.warmup w'

  -- Statistics of the first `iter` places of an array of which `values` are written.
  abbrev pub compute_first : Bool → (ℕ → ℕ) → List D → ℤ → W → Single D W
  compute_first allocated rand values iter w =
      if ltb (length values) (pos_part iter)
      then unwritten w
      else single_done (stats_compute allocated rand (take (pos_part iter) values)) w

  unfoldable pub harness_run_single :
      Bool → (ℕ → ℕ) → Clocks W → Benchmark D W → Option (RunConfig D) → W → Single D W
  harness_run_single allocated rand clocks bench overrides w =
      elim (run_benchmark_instance clocks bench w) [
        | failed ret w' ↦ single_failed ret w'
        | finished values w' ↦
            compute_first allocated rand values (clamped overrides (pos (length values))) w'
      ]
