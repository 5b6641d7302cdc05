-- ===== src/Tests/Samples.antt =====
-- Benchmarks and results over thousandths, on a machine whose state is the time in seconds.
use serv_mark.Base.{ℕ, ◌+◌, true, false, ◌∷◌, none, some, [], pos, Text, codes}
use serv_mark.Benchmark.{Measurement, Benchmark, Stats}
use serv_mark.Config.{RunConfig, peak}
use serv_mark.Double.{Milli}
use serv_mark.Harness.Instance.{Clocks}
use serv_mark.Result.{Subtest}

abbrev pub milli : ℕ → Milli
milli n = some (pos n)

abbrev pub took : ℕ → Measurement Milli
took n = record {
  primary_metric = milli n;
  wall_seconds = milli n;
  cpu_seconds = milli n;
  instructions = 0;
  cycles = 0;
  cache_misses = 0;
}

-- Every measurement takes five seconds and yields the same value.
abbrev pub steady : Text → Text → Benchmark Milli ℕ
steady name category = record {
  name = name;
  category = category;
  description = [];
  tier = 1;
  primary_metric_name = codes "ops/sec";
  higher_is_better = true;
  min_iterations = pos 3;
  max_iterations = pos 6;
  convergence_target = milli 20;
  min_runtime_sec = pos 2;
  max_runtime_sec = pos 60;
  cooldown_required = true;
  init = λ w. (pos 0, w);
  warmup = none;
  measure = λ w. ((pos 0, took 7000), w + 5);
  cleanup = λ w. w;
  num_threads = pos 1;
}

abbrev pub clocks : Clocks ℕ
clocks = record {
  monotonic = λ w. (record { tv_sec = pos w; tv_nsec = pos 0 }, w);
  thread_cpu = λ w. (record { tv_sec = pos w; tv_nsec = pos 0 }, w);
}

abbrev pub stats : ℕ → ℕ → ℕ → Stats Milli
stats mean cv n = record {
  mean = milli mean;
  stddev = milli 0;
  sem = milli 0;
  cv = milli cv;
  ci_lower = milli mean;
  ci_upper = milli mean;
  iterations = n;
  converged = true;
  reliability = some (codes "stable");
  raw_values = [];
}

abbrev pub subtest : Text → Text → ℕ → ℕ → ℕ → Subtest Milli ℕ
subtest name category mean cv n = record {
  bench = steady name category;
  stats = stats mean cv n;
  normalized_score = milli mean;
  status = codes "completed";
}

abbrev pub config : RunConfig Milli
config = record {
  mode = peak;
  mitigations_off = false;
  tier_mask = 2;
  output_dir = codes ".";
  reference_file = none;
  category_filter = none;
  dry_run = false;
  num_instances = pos 1;
  bench_filter = codes "int-sort" ∷ codes "vm-exit" ∷ codes "int-hash" ∷ [];
  min_iterations = pos 0;
  max_iterations = pos 0;
  convergence_target = milli 0;
  min_runtime_sec = pos 0;
  max_runtime_sec = pos 0;
  cooldown_sec = pos 0;
  reportable = true;
  require_validate = false;
  cpu_pin_spec = none;
  numa_topo_spec = none;
  membind_spec = none;
  generate_reference = false;
}
