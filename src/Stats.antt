-- ===== src/Stats.antt =====
-- src/core/stats.c: the descriptive statistics, the reliability label and the bootstrap interval. An
-- array with its count is a list.
pub mod Sort
pub mod Labels
pub mod Bootstrap
pub mod Discovery
pub mod Quantile
pub mod Outliers
pub mod Compare
use serv_mark.Base.{
  ℕ, zero, suc, ◌+◌, ◌-◌, ◌*◌, ◌/◌, ◌%◌, ◌<◌, Bool, true, false, not, Option, none, some, List, [],
  ◌∷◌, ◌++◌, ltb, leb, ◌==◌, if◌then◌else◌, ℤ, pos, ◌-ℤ◌, Text, codes, length, get_or,
}
use serv_mark.Benchmark.{Stats}
use serv_mark.Double.{Double, ◌⊕◌, ◌⊖◌, ◌⊗◌, ◌⊘◌, ◌≺◌, ◌≼◌, nought, one}

abbrev pub max_iterations : ℕ
max_iterations = 31

abbrev pub bootstrap_resamples : ℕ
bootstrap_resamples = 10000

-- What `stats_compute` does with its output: -1 and nothing written, or the statistics written, or a
-- copy that runs past the end of `raw_values[31]`.
pub data Computed (D : Type 0) : Type 0 where
  too_few : Computed D
  computed : Stats D → Computed D
  overrun : Computed D

-- `(int)(0.025 * n)` and `(int)(0.975 * n)`: the nearest doubles to these literals are close
-- enough that the truncated products are the exact quotients for every `int` n.
abbrev pub lo_index : ℕ → ℕ
lo_index n = n / 40

abbrev pub hi_index : ℕ → ℕ
hi_index n = if leb n (39 * n / 40) then n - 1 else 39 * n / 40

-- A comparison as an `int`.
abbrev pub as_int : Bool → ℤ
as_int b = if b then pos 1 else pos 0

module _ {D : Type 0} ⦃d : Double D⦄ where
  open d use {lit, of_int, eq, sqrt, fabs, log, exp}

  abbrev pub of_count : ℕ → D
  of_count n = of_int (pos n)

  -- SSB_CV_STABLE, SSB_CV_MODERATE and SSB_CV_HIGH
  abbrev pub cv_stable : D
  cv_stable = lit 2 100

  abbrev pub cv_moderate : D
  cv_moderate = lit 5 100

  abbrev pub cv_high : D
  cv_high = lit 10 100

  -- `(da > db) - (da < db)`
  unfoldable pub compare_double : D → D → ℤ
  compare_double da db = as_int (db ≺ da) -ℤ as_int (da ≺ db)

  unfoldable pub stats_sort : List D → List D
  unfolding compare_double
  stats_sort values = d.qsort compare_double values

  unfoldable pub sum_from : D → List D → D
  sum_from acc [] = acc
  sum_from acc (x ∷ xs) = sum_from (acc ⊕ x) xs

  unfoldable pub squares_from : D → D → List D → D
  squares_from m acc [] = acc
  squares_from m acc (x ∷ xs) = squares_from m (acc ⊕ (x ⊖ m) ⊗ (x ⊖ m)) xs

  -- The pair is `*mean` and `*stddev`.
  unfoldable pub stats_mean_stddev : List D → D × D
  unfolding sum_from squares_from
  stats_mean_stddev [] = (nought, nought)
  stats_mean_stddev (x ∷ []) = (sum_from nought (x ∷ []) ⊘ of_count 1, nought)
  stats_mean_stddev (x ∷ y ∷ zs) =
      let values = x ∷ y ∷ zs in
      let m = sum_from nought values ⊘ of_count (length values) in
      (m, sqrt (squares_from m nought values ⊘ of_count (length values - 1)))

  abbrev finish_mean : ℕ → Option D → D
  finish_mean count none = nought
  finish_mean count (some log_sum) = exp (log_sum ⊘ of_count count)

  -- The loop of `stats_geometric_mean`; `none` is its early return.
  unfoldable pub log_sum_from : D → List D → Option D
  log_sum_from acc [] = some acc
  log_sum_from acc (x ∷ xs) =
      let rest = log_sum_from (acc ⊕ log x) xs in if x ≼ nought then none else rest

  unfoldable pub stats_geometric_mean : List D → D
  unfolding log_sum_from
  stats_geometric_mean values = finish_mean (length values) (log_sum_from nought values)

  unfoldable pub stats_reliability_label : D → Text
  stats_reliability_label cv =
      if cv ≺ cv_stable
      then codes "stable"
      else if cv ≺ cv_moderate
      then codes "moderate"
      else if cv ≺ cv_high
      then codes "high"
      else codes "unreliable"

  -- `n` draws with replacement, from the `k`th value of `rand()` on.
  unfoldable pub draw_sample : (ℕ → ℕ) → List D → ℕ → ℕ → List D
  draw_sample rand values k zero = []
  draw_sample rand values k (suc n) =
      get_or values (rand k % length values) nought ∷ draw_sample rand values (k + 1) n

  -- The means of `b` resamples.
  unfoldable pub resample_means : (ℕ → ℕ) → List D → ℕ → ℕ → List D
  unfolding draw_sample
  resample_means rand values k zero = []
  resample_means rand values k (suc b) =
      (stats_mean_stddev (draw_sample rand values k (length values))).0
      ∷ resample_means rand values (k + length values) b

  -- Both ends, read from the sorted means of `n` resamples.
  unfoldable pub percentile_interval : (ℕ → ℕ) → List D → ℕ → D × D
  unfolding resample_means stats_sort
  percentile_interval rand values n =
      let means = stats_sort (resample_means rand values 0 n) in
      (get_or means (lo_index n) nought, get_or means (hi_index n) nought)

  -- The pair is `*ci_lower` and `*ci_upper`; `none` is -1. `allocated` says that both calls of
  -- `malloc` succeed.
  unfoldable pub stats_bootstrap_percentile : Bool → (ℕ → ℕ) → List D → ℕ → Option (D × D)
  stats_bootstrap_percentile allocated rand values n =
      if ltb (length values) 2
      then none
      else if ltb n 100
      then none
      else if not allocated
      then none
      else some (percentile_interval rand values n)

  abbrev pub stats_bootstrap_bca : Bool → (ℕ → ℕ) → List D → ℕ → Option (D × D)
  stats_bootstrap_bca = stats_bootstrap_percentile

  -- `(mean != 0) ? s / fabs(mean) : 1.0`, for a standard deviation or error `s`.
  abbrev pub relative : D → D → D
  relative s mean = if not (eq mean nought) then s ⊘ fabs mean else one

  -- What `memset` leaves in the interval if the bootstrap fails.
  abbrev pub interval_or_zero : Option (D × D) → D × D
  interval_or_zero none = (nought, nought)
  interval_or_zero (some ci) = ci

  -- The statistics of values that fit the array.
  unfoldable pub fill_stats : Bool → (ℕ → ℕ) → List D → Stats D
  fill_stats allocated rand values =
      let (mean, stddev) = stats_mean_stddev values in
      let sem = stddev ⊘ sqrt (of_count (length values)) in
      let cv = relative stddev mean in
      let ci = interval_or_zero (stats_bootstrap_bca allocated rand values bootstrap_resamples) in
      record {
        mean = mean;
        stddev = stddev;
        sem = sem;
        cv = cv;
        ci_lower = ci.0;
        ci_upper = ci.1;
        iterations = length values;
        converged = relative sem mean ≼ lit 2 100;
        reliability = some (stats_reliability_label cv);
        raw_values = values;
      }

  unfoldable pub stats_compute : Bool → (ℕ → ℕ) → List D → Computed D
  stats_compute allocated rand values =
      if ltb (length values) 2
      then too_few
      else if ltb max_iterations (length values)
      then overrun
      else computed (fill_stats allocated rand values)
