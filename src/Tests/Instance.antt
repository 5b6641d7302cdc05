-- ===== src/Tests/Instance.antt =====
use serv_mark.Base.{ℕ, ◌≡◌, [], ◌∷◌, refl, negsuc, codes}
use serv_mark.Benchmark.{Benchmark}
use serv_mark.Double.{Milli, milli_double}
use serv_mark.Harness.Instance.Bounds.{Counts, run_benchmark_instance-Counts}
use serv_mark.Harness.Instance.Calls.{
  recorded, recorded_clocks, log_of, IsClosed, run_benchmark_instance-calls,
}
use serv_mark.Harness.Instance.{
  failed, finished, elapsed, limits_of, has_converged, check_time, after_measure, round,
  after_round, measure_loop, timed_loop, discard_loop, warm_up, run_benchmark_instance,
}
use serv_mark.Stats.{stats_mean_stddev}
use serv_mark.Tests.Samples.{milli, took, steady, clocks}

abbrev bench : Benchmark Milli ℕ
bench = steady (codes "int-hash") (codes "C1")

-- Two measurements are thrown away; three are enough to converge.
runs :
    run_benchmark_instance clocks bench 100
    ≡ finished (milli 7000 ∷ milli 7000 ∷ milli 7000 ∷ []) 125
unfolding run_benchmark_instance warm_up discard_loop timed_loop measure_loop after_round round
    after_measure check_time has_converged limits_of elapsed stats_mean_stddev
runs = refl

abbrev broken : Benchmark Milli ℕ
broken = record bench { measure = λ w. ((negsuc 0, took 0), w) }

fails : run_benchmark_instance clocks broken 100 ≡ failed (negsuc 0) 100
unfolding run_benchmark_instance warm_up discard_loop
fails = refl

run_benchmark_instance-Counts_example : Counts 1 6 (run_benchmark_instance clocks bench 100)
run_benchmark_instance-Counts_example = run_benchmark_instance-Counts clocks bench 100

run_benchmark_instance-calls_example :
    IsClosed (log_of (run_benchmark_instance (recorded_clocks clocks) (recorded broken) (100, [])))
run_benchmark_instance-calls_example = run_benchmark_instance-calls clocks broken 100
