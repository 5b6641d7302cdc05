-- ===== src/Tests/Run.antt =====
use serv_mark.Base.{
  ℕ, zero, suc, ◌≡◌, ◌≢◌, ◌+◌, ◌<◌, ◌↔◌, true, false, Option, none, some, List, [], ◌∷◌, refl,
  arith, pos, negsuc, codes, keep, inl, inr, replicate,
}
use serv_mark.Base.Member.{Member}
use serv_mark.Benchmark.{Benchmark}
use serv_mark.Double.{Milli, milli_double, Milli-IsOrdered, nought, one}
use serv_mark.Harness.Instance.{
  elapsed, limits_of, has_converged, check_time, after_measure, round, after_round, measure_loop,
  timed_loop, discard_loop, warm_up, run_benchmark_instance, harness_run_single,
}
use serv_mark.Harness.Parallel.Pinned.{automatic, pin_cpu_distinct}
use serv_mark.Harness.Parallel.Pooling.{total, harness_run_parallel-overrun}
use serv_mark.Harness.Parallel.{
  ChildResult, parallel_done, any_failed, pin_cpu, harness_run_parallel,
}
use serv_mark.Harness.Run.Failed.{with_score, harness_run-failed}
use serv_mark.Harness.Run.Selected.{benches, harness_run-selected}
use serv_mark.Harness.Run.{
  Machine, has_tier, is_named, in_filter, is_selected, cool_down, measure_one, after_measured,
  zero_stats, run_all, normalized_of, score_all, harness_run,
}
use serv_mark.Main.Listing.{dry_run_listing, passes_tier, harness_run-dry_run_listing}
use serv_mark.Result.{Subtest}
use serv_mark.Scoring.{nothing_collected, collect_one}
use serv_mark.Stats.{overrun, max_iterations, stats_mean_stddev, stats_compute}
use serv_mark.Tests.Samples.{milli, steady, clocks, config}

abbrev child : ℕ → ChildResult Milli
child n = record { whole = true; exited = true; ret = pos 0; values = replicate n (milli 5) }

harness_run_parallel-overrun_example :
    (harness_run_parallel true true (λ i. i) false (child 20 ∷ child 12 ∷ [])
      ≡ parallel_done overrun)
    ↔ (max_iterations < total (child 20 ∷ child 12 ∷ []))
unfolding any_failed
harness_run_parallel-overrun_example =
    harness_run_parallel-overrun true (λ i. i) (child 20 ∷ child 12 ∷ []) refl

abbrev dead : ChildResult Milli
dead = record (child 3) { exited = false }

-- Two cores with two threads each.
abbrev phys_map : List ℕ
phys_map = 0 ∷ 1 ∷ 0 ∷ 1 ∷ []

covered : (core : ℕ) → core < 2 → Member core phys_map
covered zero h = inl refl
covered (suc zero) h = inr (inl refl)
covered (suc (suc n)) h = absurd (omega arith)

pins : pin_cpu (automatic phys_map 2) 1 ≡ pos 1
unfolding pin_cpu
pins = refl

pin_cpu_distinct_example : pin_cpu (automatic phys_map 2) 0 ≢ pin_cpu (automatic phys_map 2) 1
pin_cpu_distinct_example =
    pin_cpu_distinct phys_map 2 0 1 covered (omega arith) (omega arith) (omega arith)

abbrev good : Benchmark Milli ℕ
good = record (steady (codes "int-hash") (codes "C1")) { min_iterations = pos 2 }

abbrev broken : Benchmark Milli ℕ
broken = record (steady (codes "int-sort") (codes "C1")) { init = λ w. (negsuc 0, w) }

-- Of another tier.
abbrev other : Benchmark Milli ℕ
other = record (steady (codes "vm-exit") (codes "C14")) { tier = 2 }

abbrev pub machine : Machine Milli ℕ
machine = record {
  clocks = clocks;
  allocated = false;
  rand = λ i. i;
  set_up = true;
  children = λ b n w. ([], w);
  sleep = λ t w. w + 30;
}

abbrev pub registered : List (Benchmark Milli ℕ)
registered = good ∷ other ∷ broken ∷ []

abbrev pub outcome : Option (List (Subtest Milli ℕ) × ℕ)
outcome = harness_run machine config registered 0

abbrev pub subtests_of : Option (List (Subtest Milli ℕ) × ℕ) → List (Subtest Milli ℕ)
subtests_of none = []
subtests_of (some (subtests, w)) = subtests

abbrev pub end_of : Option (List (Subtest Milli ℕ) × ℕ) → ℕ
end_of none = 0
end_of (some (subtests, w)) = w

-- Five measurements of five seconds, and twice the cooldown.
time : end_of outcome ≡ 80
unfolding harness_run run_all has_tier is_named in_filter is_selected cool_down measure_one
    after_measured normalized_of score_all run_benchmark_instance warm_up discard_loop timed_loop
    measure_loop after_round round after_measure check_time has_converged limits_of elapsed
    harness_run_single stats_mean_stddev stats_compute
time = refl

pub returned : outcome ≡ some (subtests_of outcome, end_of outcome)
unfolding harness_run run_all has_tier is_named in_filter is_selected cool_down measure_one
    after_measured normalized_of score_all run_benchmark_instance warm_up discard_loop timed_loop
    measure_loop after_round round after_measure check_time has_converged limits_of elapsed
    harness_run_single stats_mean_stddev stats_compute
returned = refl

-- Without the broken one.
abbrev pub healthy : List (Benchmark Milli ℕ)
healthy = good ∷ other ∷ []

abbrev pub healthy_outcome : Option (List (Subtest Milli ℕ) × ℕ)
healthy_outcome = harness_run machine config healthy 0

pub healthy_returned : healthy_outcome ≡ some (subtests_of healthy_outcome, end_of healthy_outcome)
unfolding harness_run run_all has_tier is_named in_filter is_selected cool_down measure_one
    after_measured normalized_of score_all run_benchmark_instance warm_up discard_loop timed_loop
    measure_loop after_round round after_measure check_time has_converged limits_of elapsed
    harness_run_single stats_mean_stddev stats_compute
healthy_returned = refl

harness_run-selected_example : benches (subtests_of outcome) ≡ keep (is_selected config) registered
harness_run-selected_example =
    harness_run-selected machine config registered 0 (end_of outcome) (subtests_of outcome) returned

-- The second of them failed.
abbrev pub failure : Subtest Milli ℕ
failure = record {
  bench = broken;
  stats = zero_stats;
  normalized_score = milli 0;
  status = codes "failed";
}

pub is_there : Member failure (subtests_of outcome)
unfolding harness_run run_all has_tier is_named in_filter is_selected cool_down measure_one
    after_measured normalized_of score_all run_benchmark_instance warm_up discard_loop timed_loop
    measure_loop after_round round after_measure check_time has_converged limits_of elapsed
    harness_run_single stats_mean_stddev stats_compute
is_there = inr (inl refl)

harness_run-failed_example :
    (failure.normalized_score ≡ nought)
    × (collect_one failure nothing_collected ≡ with_score (codes "C1") one nothing_collected)
harness_run-failed_example =
    harness_run-failed Milli-IsOrdered machine config registered 0 (end_of outcome)
      (subtests_of outcome) failure nothing_collected refl returned is_there refl

-- Two of them are measured; the listing has all three.
selected : keep (is_selected config) registered ≡ good ∷ broken ∷ []
unfolding is_selected has_tier in_filter is_named
selected = refl

harness_run-dry_run_listing_example :
    benches (subtests_of outcome)
    ≡ keep (passes_tier config) (dry_run_listing config.bench_filter registered)
harness_run-dry_run_listing_example =
    harness_run-dry_run_listing machine config registered 0 (end_of outcome) (subtests_of outcome)
      returned
