-- ===== src/Harness/Instance/Calls.antt =====
-- The calls that a run makes of a benchmark's functions, recorded by a benchmark that does the same
-- and writes down each call.
use serv_mark.Base.{
  ℕ, zero, suc, ◌≡◌, inl, inr, ap, Option, none, some, List, [], ◌∷◌, ◌++◌, arith, refl,
  if◌then◌else◌, ℤ, nonzero, All, All-append, Bool-cases,
}
use serv_mark.Benchmark.{Benchmark}
use serv_mark.Double.{Double}
use serv_mark.Harness.Instance.{
  Timespec, Clocks, Limits, Outcome, failed, finished, Round, aborted, stopped, goes_on, limits_of,
  elapsed, check_time, after_measure, round, after_round, measure_loop, timed_loop, discard_loop,
  warm_up, run_benchmark_instance,
}

pub data Call : Type 0 where
  init_call warmup_call measure_call cleanup_call : Call

abbrev pub Log : Type 0
Log = List Call

abbrev noted : {A W : Type 0} → Call → (W → A × W) → W × Log → A × (W × Log)
noted c f (w, log) = let (a, w') = f w in (a, (w', log ++ (c ∷ [])))

-- A call that is neither the first nor the last.
abbrev IsInner : Call → Type 0
IsInner init_call = ⊥
IsInner cleanup_call = ⊥
IsInner _ = Unit

-- A log that begins with `init`, with only warm-ups and measurements behind it.
pub record IsOpen (log : Log) : Type 0 where
  pub inner : Log
  pub shape : log ≡ init_call ∷ inner
  pub all_inner : All IsInner inner

-- A log that begins with `init`, ends with `cleanup`, and has only warm-ups and measurements between.
pub record IsClosed (log : Log) : Type 0 where
  pub inner : Log
  pub shape : log ≡ init_call ∷ (inner ++ (cleanup_call ∷ []))
  pub all_inner : All IsInner inner

IsOpen-inner : (c : Call) (log : Log) → IsInner c → IsOpen log → IsOpen (log ++ (c ∷ []))
IsOpen-inner c log i o = record {
  inner = o.inner ++ (c ∷ []);
  shape = ap (λ (l : Log). l ++ (c ∷ [])) o.shape;
  all_inner = All-append IsInner o.inner (c ∷ []) o.all_inner (i, tt);
}

IsOpen-cleanup : (log : Log) → IsOpen log → IsClosed (log ++ (cleanup_call ∷ []))
IsOpen-cleanup log o = record {
  inner = o.inner;
  shape = ap (λ (l : Log). l ++ (cleanup_call ∷ [])) o.shape;
  all_inner = o.all_inner;
}

-- Reading a clock makes no call.
abbrev silent : {A W : Type 0} → (W → A × W) → W × Log → A × (W × Log)
silent f (w, log) = let (a, w') = f w in (a, (w', log))

abbrev pub recorded_clocks : {W : Type 0} → Clocks W → Clocks (W × Log)
recorded_clocks clocks = record {
  monotonic = silent clocks.monotonic;
  thread_cpu = silent clocks.thread_cpu;
}

module _ {D W : Type 0} where
  -- The benchmark that acts as `bench` does and appends each call to the log.
  abbrev pub recorded : Benchmark D W → Benchmark D (W × Log)
  recorded bench = record {
    name = bench.name;
    category = bench.category;
    description = bench.description;
    tier = bench.tier;
    primary_metric_name = bench.primary_metric_name;
    higher_is_better = bench.higher_is_better;
    min_iterations = bench.min_iterations;
    max_iterations = bench.max_iterations;
    convergence_target = bench.convergence_target;
    min_runtime_sec = bench.min_runtime_sec;
    max_runtime_sec = bench.max_runtime_sec;
    cooldown_required = bench.cooldown_required;
    init = noted init_call bench.init;
    warmup = elim bench.warmup [ none ↦ none | some f ↦ some (noted warmup_call f) ];
    measure = noted measure_call bench.measure;
    cleanup = λ s. (bench.cleanup s.0, s.1 ++ (cleanup_call ∷ []));
    num_threads = bench.num_threads;
  }

  abbrev pub log_of : Outcome D (W × Log) → Log
  log_of (failed ret s) = s.1
  log_of (finished values s) = s.1

  abbrev RoundLog : Round D (W × Log) → Type 0
  RoundLog (aborted ret s) = IsClosed s.1
  RoundLog (stopped values s) = IsOpen s.1
  RoundLog (goes_on values s) = IsOpen s.1

module _ {D W : Type 0} ⦃d : Double D⦄ (clocks : Clocks W) (bench : Benchmark D W) where
  check_time-RoundLog :
      (limits : Limits D) (cpu_start : Timespec) (e : D) (values : List D) (s : W × Log)
      → IsOpen s.1
      → RoundLog (check_time (recorded_clocks clocks) limits cpu_start e values s)
  unfolding check_time
  check_time-RoundLog limits cpu_start e values s o = ground arith

  after_measure-RoundLog :
      (limits : Limits D) (wall_start cpu_start : Timespec) (values : List D) (s : W × Log)
      → IsOpen s.1
      → RoundLog (after_measure (recorded_clocks clocks) limits wall_start cpu_start values s)
  unfolding after_measure
  after_measure-RoundLog limits wall_start cpu_start values s o =
      let now = clocks.monotonic s.0 in
      ground (
        arith,
        check_time-RoundLog limits cpu_start (elapsed wall_start now.0) values (now.1, s.1) o,
      )

  round-RoundLog :
      (limits : Limits D) (wall_start cpu_start : Timespec) (values : List D) (s : W × Log)
      → IsOpen s.1
      → RoundLog
          (round (recorded_clocks clocks) (recorded bench) limits wall_start cpu_start values s)
  unfolding round
  round-RoundLog limits wall_start cpu_start values s o =
      let ran = bench.measure s.0 in
      let log : Log = s.1 ++ (measure_call ∷ []) in
      let open_log : IsOpen log = IsOpen-inner measure_call s.1 tt o in
      let closed : IsClosed (log ++ (cleanup_call ∷ [])) = IsOpen-cleanup log open_log in
      elim (Bool-cases (nonzero ran.0.0)) [
        | inl bad ↦ rw bad closed
        | inr good ↦ rw good (
            after_measure-RoundLog limits wall_start cpu_start
              (values ++ (ran.0.1.primary_metric ∷ [])) (ran.1, log) open_log)
      ]

  after_round-IsClosed :
      (again : List D → W × Log → Outcome D (W × Log)) (r : Round D (W × Log))
      → RoundLog r
      → ((values : List D) (s : W × Log) → IsOpen s.1 → IsClosed (log_of (again values s)))
      → IsClosed (log_of (after_round (recorded bench) again r))
  unfolding after_round
  after_round-IsClosed again (aborted ret s) h k = h
  after_round-IsClosed again (stopped values s) h k = IsOpen-cleanup s.1 h
  after_round-IsClosed again (goes_on values s) h k = k values s h

  measure_loop-IsClosed :
      (limits : Limits D) (wall_start cpu_start : Timespec) (left : ℕ) (values : List D)
      (s : W × Log)
      → IsOpen s.1
      → IsClosed (
          log_of (
            measure_loop
              (recorded_clocks clocks)
              (recorded bench)
              limits
              wall_start
              cpu_start
              left
              values
              s))
  unfolding measure_loop
  measure_loop-IsClosed limits wall_start cpu_start zero values s o = IsOpen-cleanup s.1 o
  measure_loop-IsClosed limits wall_start cpu_start (suc left) values s o =
      after_round-IsClosed _ _ (round-RoundLog limits wall_start cpu_start values s o)
        (measure_loop-IsClosed limits wall_start cpu_start left)

  discard_loop-IsClosed :
      (n : ℕ) (s : W × Log)
      → IsOpen s.1
      → IsClosed (log_of (discard_loop (recorded_clocks clocks) (recorded bench) n s))
  unfolding discard_loop timed_loop
  discard_loop-IsClosed zero s o =
      let wall = clocks.monotonic s.0 in
      let cpu = clocks.thread_cpu wall.1 in
      measure_loop-IsClosed (limits_of (recorded bench)) wall.0 cpu.0
        (limits_of (recorded bench)).max_iter [] (cpu.1, s.1) o
  discard_loop-IsClosed (suc n) s o =
      let ran = bench.measure s.0 in
      let log : Log = s.1 ++ (measure_call ∷ []) in
      let open_log : IsOpen log = IsOpen-inner measure_call s.1 tt o in
      let closed : IsClosed (log ++ (cleanup_call ∷ [])) = IsOpen-cleanup log open_log in
      elim (Bool-cases (nonzero ran.0.0)) [
        | inl bad ↦ rw bad closed
        | inr good ↦ rw good (discard_loop-IsClosed n (ran.1, log) open_log)
      ]

  warm_up-IsClosed :
      (warmup : Option (W → ℤ × W)) (s : W × Log)
      → IsOpen s.1
      → IsClosed (
          log_of (
            warm_up
              (recorded_clocks clocks)
              (recorded bench)
              (elim warmup [ none ↦ none | some f ↦ some (noted warmup_call f) ])
              s))
  unfolding warm_up
  warm_up-IsClosed none s o = discard_loop-IsClosed 2 s o
  warm_up-IsClosed (some f) s o =
      let ran = f s.0 in
      let log : Log = s.1 ++ (warmup_call ∷ []) in
      let open_log : IsOpen log = IsOpen-inner warmup_call s.1 tt o in
      let closed : IsClosed (log ++ (cleanup_call ∷ [])) = IsOpen-cleanup log open_log in
      elim (Bool-cases (nonzero ran.0)) [
        | inl bad ↦ rw bad closed
        | inr good ↦ rw good (discard_loop-IsClosed 2 (ran.1, log) open_log)
      ]

  -- Of any benchmark, with any outcome of its functions and of the clocks, a run calls `init` first
  -- and once. If that fails the run calls nothing more, and otherwise it calls `cleanup` once and
  -- last, also when the warm-up or a measurement fails, with only warm-ups and measurements between.
  pub run_benchmark_instance-calls :
      (w : W)
      → let log =
          log_of (run_benchmark_instance (recorded_clocks clocks) (recorded bench) (w, [])) in
        if nonzero (bench.init w).0 then (log ≡ init_call ∷ []) else IsClosed log
  unfolding run_benchmark_instance
  run_benchmark_instance-calls w = elim (Bool-cases (nonzero (bench.init w).0)) [
    | inl bad ↦ rw bad refl
    | inr good ↦ rw good (
        warm_up-IsClosed bench.warmup ((bench.init w).1, init_call ∷ [])
          (record { inner = []; shape = refl; all_inner = tt }))
  ]
