-- ===== src/Harness/Instance/Bounds.antt =====
-- How many values a run of an instance returns, and why it stops.
use serv_mark.Base.{
  ℕ, zero, suc, ◌+◌, ◌≡◌, ◌≤◌, Option, none, some, List, [], ◌∷◌, ◌++◌, arith, min, ℤ, pos,
  pos_part, length, length-append,
}
use serv_mark.Benchmark.{Benchmark}
use serv_mark.Double.{Double}
use serv_mark.Harness.Instance.{
  Timespec, Clocks, Limits, Outcome, failed, finished, Round, aborted, stopped, goes_on, or_default,
  limits_of, elapsed, check_time, after_measure, round, after_round, measure_loop, timed_loop,
  discard_loop, warm_up, run_benchmark_instance,
}

module _ {D W : Type 0} ⦃d : Double D⦄ where
  -- A round that does not fail adds one value.
  abbrev AddsOne : List D → Round D W → Type 0
  AddsOne values (aborted ret w) = Unit
  AddsOne values (stopped values' w) = length values' ≡ length values + 1
  AddsOne values (goes_on values' w) = length values' ≡ length values + 1

  check_time-AddsOne :
      (clocks : Clocks W) (limits : Limits D) (cpu_start : Timespec) (e : D) (old values : List D)
      (w : W)
      → length values ≡ length old + 1
      → AddsOne old (check_time clocks limits cpu_start e values w)
  unfolding check_time
  check_time-AddsOne clocks limits cpu_start e old values w h = ground arith

  after_measure-AddsOne :
      (clocks : Clocks W) (limits : Limits D) (wall_start cpu_start : Timespec)
      (old values : List D) (w : W)
      → length values ≡ length old + 1
      → AddsOne old (after_measure clocks limits wall_start cpu_start values w)
  unfolding after_measure
  after_measure-AddsOne clocks limits wall_start cpu_start old values w h = ground (
    arith,
    check_time-AddsOne clocks limits cpu_start (elapsed wall_start (clocks.monotonic w).0) old
        values (clocks.monotonic w).1 h,
  )

  round-AddsOne :
      (clocks : Clocks W) (bench : Benchmark D W) (limits : Limits D)
      (wall_start cpu_start : Timespec) (values : List D) (w : W)
      → AddsOne values (round clocks bench limits wall_start cpu_start values w)
  unfolding round
  round-AddsOne clocks bench limits wall_start cpu_start values w =
      let m = (bench.measure w).0.1 in
      let more : List D = values ++ (m.primary_metric ∷ []) in
      ground (
        arith,
        after_measure-AddsOne clocks limits wall_start cpu_start values more (bench.measure w).1
            (length-append values (m.primary_metric ∷ [])),
      )

  -- The number of values of a run that returns is at least `lo` and at most `hi`.
  abbrev pub Counts : ℕ → ℕ → Outcome D W → Type 0
  Counts lo hi (failed ret w) = Unit
  Counts lo hi (finished values w) = (lo ≤ length values) × (length values ≤ hi)

  weaken : {a b c e : ℕ} (o : Outcome D W) → c ≤ a → b ≤ e → Counts a b o → Counts c e o
  weaken (failed ret w) h k p = tt
  weaken (finished values w) h k p = omega arith

  after_round-Counts :
      (bench : Benchmark D W) (left : ℕ) (values : List D) (again : List D → W → Outcome D W)
      (r : Round D W)
      → AddsOne values r
      → ((values' : List D) (w : W)
          → Counts (length values' + min left 1) (length values' + left) (again values' w))
      → Counts (length values + 1) (length values + suc left) (after_round bench again r)
  unfolding after_round
  after_round-Counts bench left values again (aborted ret w) h k = tt
  after_round-Counts bench left values again (stopped values' w) h k = omega arith
  after_round-Counts bench left values again (goes_on values' w) h k =
      weaken (again values' w) (omega arith) (omega arith) (k values' w)

  measure_loop-Counts :
      (clocks : Clocks W) (bench : Benchmark D W) (limits : Limits D)
      (wall_start cpu_start : Timespec) (left : ℕ) (values : List D) (w : W)
      → Counts
          (length values + min left 1)
          (length values + left)
          (measure_loop clocks bench limits wall_start cpu_start left values w)
  unfolding measure_loop
  measure_loop-Counts clocks bench limits wall_start cpu_start zero values w = omega arith
  measure_loop-Counts clocks bench limits wall_start cpu_start (suc left) values w =
      weaken _ (omega arith) (omega arith) (
        after_round-Counts bench left values
          (measure_loop clocks bench limits wall_start cpu_start left)
          (round clocks bench limits wall_start cpu_start values w)
          (round-AddsOne clocks bench limits wall_start cpu_start values w)
          (measure_loop-Counts clocks bench limits wall_start cpu_start left))

  max_iter_pos : (bench : Benchmark D W) → 1 ≤ (limits_of bench).max_iter
  unfolding limits_of
  max_iter_pos bench = ground arith

  timed_loop-Counts :
      (clocks : Clocks W) (bench : Benchmark D W) (w : W)
      → Counts 1 (limits_of bench).max_iter (timed_loop clocks bench w)
  unfolding timed_loop
  timed_loop-Counts clocks bench w =
      let wall = clocks.monotonic w in
      let cpu = clocks.thread_cpu wall.1 in
      weaken _ (omega (arith, max_iter_pos bench)) (omega arith) (
        measure_loop-Counts clocks bench (limits_of bench) wall.0 cpu.0 (limits_of bench).max_iter
          [] cpu.1)

  discard_loop-Counts :
      (clocks : Clocks W) (bench : Benchmark D W) (n : ℕ) (w : W)
      → Counts 1 (limits_of bench).max_iter (discard_loop clocks bench n w)
  unfolding discard_loop
  discard_loop-Counts clocks bench zero w = timed_loop-Counts clocks bench w
  discard_loop-Counts clocks bench (suc n) w =
      ground (arith, discard_loop-Counts clocks bench n (bench.measure w).1)

  warm_up-Counts :
      (clocks : Clocks W) (bench : Benchmark D W) (warmup : Option (W → ℤ × W)) (w : W)
      → Counts 1 (limits_of bench).max_iter (warm_up clocks bench warmup w)
  unfolding warm_up
  warm_up-Counts clocks bench none w = discard_loop-Counts clocks bench 2 w
  warm_up-Counts clocks bench (some warmup) w =
      ground (arith, discard_loop-Counts clocks bench 2 (warmup w).1)

  -- A run that does not fail returns at least one value and at most as many as the benchmark's
  -- `max_iterations`, or 31 where that is not positive, whatever the clocks and the measurements do.
  pub run_benchmark_instance-Counts :
      (clocks : Clocks W) (bench : Benchmark D W) (w : W)
      → Counts 1
          (pos_part (or_default bench.max_iterations (pos 31)))
          (run_benchmark_instance clocks bench w)
  unfolding run_benchmark_instance limits_of
  run_benchmark_instance-Counts clocks bench w =
      ground (arith, warm_up-Counts clocks bench bench.warmup (bench.init w).1)
