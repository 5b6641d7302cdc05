-- ===== src/Harness/Run.antt =====
-- `harness_run` of src/core/harness.c from the list of benchmarks on: which of them run, how, in what
-- order, and their scores. The identifier, the times, the probe of the system and the topology that
-- replaces the probed one are not part of it: the loop reads none of them. A tier is below 31.
pub mod Selected
pub mod Failed
use serv_mark.Base.{
  ℕ, zero, suc, ◌^◌, ◌/◌, ◌%◌, Bool, true, false, not, ◌&&◌, ◌==◌, ltb, Option, none, some, List,
  [], ◌∷◌, if◌then◌else◌, ℤ, pos, negsuc, nonzero, positive, pos_part, Text, codes, text_eq,
}
use serv_mark.Benchmark.{Benchmark, Stats}
use serv_mark.Config.{RunMode, validate, peak, sustained, RunConfig}
use serv_mark.Double.{Double, ◌⊘◌, ◌≺◌, ◌≼◌, nought, one}
use serv_mark.Harness.Instance.{
  Clocks, Single, single_failed, unwritten, single_done, harness_run_single,
}
use serv_mark.Harness.Parallel.{
  ChildResult, Parallel, parallel_failed, parallel_done, parallel_zero, harness_run_parallel,
}
use serv_mark.Result.{Subtest}
use serv_mark.Stats.{Computed, too_few, computed, overrun, cv_high}

-- What the loop takes from its surroundings. `children` is what the processes of a parallel run
-- send, and `sleep` waits for some seconds.
pub record Machine (D W : Type 0) : Type 0 where
  pub clocks : Clocks W
  pub allocated : Bool
  pub rand : ℕ → ℕ
  pub set_up : Bool
  pub children : Benchmark D W → ℕ → W → List (ChildResult D) × W
  pub sleep : ℤ → W → W

-- `SSB_COOLDOWN_SEC`
abbrev pub default_cooldown : ℤ
default_cooldown = pos 30

abbrev pub is_peak : RunMode → Bool
is_peak validate = false
is_peak peak = true
is_peak sustained = false

abbrev pub is_one : ℤ → Bool
is_one (pos n) = n == 1
is_one (negsuc n) = false

-- `config->tier_mask & (1 << b->tier)`
unfoldable pub has_tier : ℕ → ℕ → Bool
has_tier mask tier = (mask / 2 ^ tier) % 2 == 1

abbrev pub has_category : Option Text → Text → Bool
has_category none category = true
has_category (some wanted) category = text_eq category wanted

unfoldable pub is_named : List Text → Text → Bool
is_named [] name = false
is_named (n ∷ ns) name = let rest = is_named ns name in if text_eq name n then true else rest

-- `bench_filter_count > 0` asks for a name of the list.
unfoldable pub in_filter : List Text → Text → Bool
unfolding is_named
in_filter [] name = true
in_filter (n ∷ ns) name = is_named (n ∷ ns) name

abbrev pub instances : {D : Type 0} → RunConfig D → ℕ
instances config = if positive config.num_instances then pos_part config.num_instances else 1

abbrev pub cooldown_of : {D : Type 0} → RunConfig D → ℤ
cooldown_of config = if positive config.cooldown_sec then config.cooldown_sec else default_cooldown

module _ {D W : Type 0} where
  -- The three tests that let a benchmark through.
  unfoldable pub is_selected : RunConfig D → Benchmark D W → Bool
  is_selected config b =
      if not (has_tier config.tier_mask b.tier)
      then false
      else if not (has_category config.category_filter b.category)
      then false
      else in_filter config.bench_filter b.name

  unfoldable pub cool_down : Machine D W → RunConfig D → Benchmark D W → W → W
  cool_down machine config b w =
      if is_peak config.mode && b.cooldown_required then machine.sleep (cooldown_of config) w else w

-- What `calloc` leaves.
abbrev pub zero_stats : {D : Type 0} ⦃d : Double D⦄ → Stats D
zero_stats = record {
  mean = nought;
  stddev = nought;
  sem = nought;
  cv = nought;
  ci_lower = nought;
  ci_upper = nought;
  iterations = 0;
  converged = false;
  reliability = none;
  raw_values = [];
}

abbrev pub status_of : Bool → Text
status_of ok = if ok then codes "completed" else codes "failed"

-- What one benchmark leaves: a result code, statistics and the machine, or behaviour that C does not
-- define.
pub data Measured (D W : Type 0) : Type 0 where
  measured : Bool → Stats D → W → Measured D W
  undefined : Measured D W

module _ {D W : Type 0} ⦃d : Double D⦄ where
  -- Statistics that were computed or not, in place of zeros.
  abbrev pub over_zeros : Computed D → W → Measured D W
  over_zeros too_few w = measured true zero_stats w
  over_zeros (computed s) w = measured true s w
  over_zeros overrun w = undefined

  abbrev pub after_parallel : Parallel D → W → Measured D W
  after_parallel parallel_failed w = measured false zero_stats w
  after_parallel (parallel_done c) w = over_zeros c w
  after_parallel parallel_zero w = measured true zero_stats w

  abbrev pub after_single : Single D W → Measured D W
  after_single (single_failed ret w) = measured false zero_stats w
  after_single (unwritten w) = undefined
  after_single (single_done c w) = over_zeros c w

  unfoldable pub measure_one : Machine D W → RunConfig D → Benchmark D W → W → Measured D W
  measure_one machine config b w =
      if ltb 1 (instances config) && is_one b.num_threads
      then (let (results, w') = machine.children b (instances config) w in
          after_parallel
            (harness_run_parallel machine.set_up machine.allocated machine.rand b.higher_is_better
              results)
            w')
      else after_single
          (harness_run_single machine.allocated machine.rand machine.clocks b (some config) w)

  abbrev pub subtest_of : Benchmark D W → Bool → Stats D → Subtest D W
  subtest_of b ok s = record {
    bench = b;
    stats = s;
    normalized_score = nought;
    status = status_of ok;
  }

  abbrev pub followed_by :
      Subtest D W → Option (List (Subtest D W) × W) → Option (List (Subtest D W) × W)
  followed_by sr none = none
  followed_by sr (some (rest, w)) = some (sr ∷ rest, w)

  -- What comes after a measured benchmark; `again` is the rest of the loop.
  unfoldable pub after_measured :
      Machine D W
      → RunConfig D
      → Benchmark D W
      → (W → Option (List (Subtest D W) × W))
      → Measured D W
      → Option (List (Subtest D W) × W)
  after_measured machine config b again undefined = none
  after_measured machine config b again (measured ok s w) =
      followed_by (subtest_of b ok s) (again (cool_down machine config b w))

  -- The loop over the benchmarks; `none` is undefined behaviour on the way.
  unfoldable pub run_all :
      Machine D W → RunConfig D → List (Benchmark D W) → W → Option (List (Subtest D W) × W)
  run_all machine config [] w = some ([], w)
  run_all machine config (b ∷ bs) w = elim (is_selected config b) [
    | true ↦
        after_measured machine config b (run_all machine config bs) (measure_one machine config b w)
    | false ↦ run_all machine config bs w
  ]

  -- The score of a subtest, in the second loop.
  unfoldable pub normalized_of : RunConfig D → Subtest D W → D
  normalized_of config sr =
      if config.reportable && (cv_high ≼ sr.stats.cv)
      then nought
      else if not sr.bench.higher_is_better && (nought ≺ sr.stats.mean)
      then one ⊘ sr.stats.mean
      else sr.stats.mean

  unfoldable pub score_all : RunConfig D → List (Subtest D W) → List (Subtest D W)
  score_all config [] = []
  score_all config (sr ∷ rest) =
      record sr { normalized_score = normalized_of config sr } ∷ score_all config rest

  abbrev pub score_result :
      RunConfig D → Option (List (Subtest D W) × W) → Option (List (Subtest D W) × W)
  score_result config none = none
  score_result config (some (subtests, w)) = some (score_all config subtests, w)

  -- Both loops, on the registered benchmarks.
  unfoldable pub harness_run :
      Machine D W → RunConfig D → List (Benchmark D W) → W → Option (List (Subtest D W) × W)
  harness_run machine config benchmarks w =
      score_result config (run_all machine config benchmarks w)
