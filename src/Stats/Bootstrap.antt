-- ===== src/Stats/Bootstrap.antt =====
-- `stats_bootstrap_percentile` and `stats_compute`: every branch, the indices in range, and an
-- interval whose ends are in order.
use serv_mark.Base.{
  ℕ, zero, suc, ◌+◌, ◌≡◌, ◌≤◌, ◌<◌, ◌⊎◌, ◌↔◌, Bool, true, false, none, some, List, arith, refl,
  length, get_or,
}
use serv_mark.Double.{Double, ◌≼◌, nought, IsOrdered}
use serv_mark.Stats.{
  too_few, overrun, stats_sort, resample_means, lo_index, hi_index, percentile_interval,
  max_iterations, stats_bootstrap_percentile, stats_compute,
}
use serv_mark.Stats.Sort.{
  AllNumbers, stats_sort-IsSorted, stats_sort-AllNumbers, length-stats_sort, get_or-le,
}

module _ {D : Type 0} ⦃d : Double D⦄ where
  length-resample_means :
      (rand : ℕ → ℕ) (values : List D) (k b : ℕ) → length (resample_means rand values k b) ≡ b
  unfolding resample_means
  length-resample_means rand values k zero = refl
  length-resample_means rand values k (suc b) =
      omega (arith, length-resample_means rand values (k + length values) b)

  -- With fewer than two values, fewer than a hundred resamples or no memory the bootstrap gives no
  -- interval, and it gives one in every other case.
  pub stats_bootstrap_percentile-none :
      (allocated : Bool) (rand : ℕ → ℕ) (values : List D) (n : ℕ)
      → (stats_bootstrap_percentile allocated rand values n ≡ none)
        ↔ ((length values < 2) ⊎ ((n < 100) ⊎ (allocated ≡ false)))
  unfolding stats_bootstrap_percentile
  stats_bootstrap_percentile-none allocated rand values n = ground arith

  some_interval :
      (rand : ℕ → ℕ) (values : List D) (n : ℕ)
      → 2 ≤ length values
      → 100 ≤ n
      → stats_bootstrap_percentile true rand values n ≡ some (percentile_interval rand values n)
  unfolding stats_bootstrap_percentile
  some_interval rand values n h k = ground arith

  module _ (laws : IsOrdered D) where
    -- If there are at least two values and a hundred resamples, memory is at hand and no resample's
    -- mean is NaN, the bootstrap reads both ends inside the table of sorted means, and the lower end
    -- is at most the upper one.
    pub stats_bootstrap_percentile_ordered :
        (rand : ℕ → ℕ) (values : List D) (n : ℕ)
        → 2 ≤ length values
        → 100 ≤ n
        → AllNumbers (resample_means rand values 0 n)
        → (lo hi : D) × (stats_bootstrap_percentile true rand values n ≡ some (lo, hi))
          × ((lo ≼ hi) ≡ true)
          × (lo_index n < length (stats_sort (resample_means rand values 0 n)))
          × (hi_index n < length (stats_sort (resample_means rand values 0 n)))
    unfolding stats_bootstrap_percentile percentile_interval
    stats_bootstrap_percentile_ordered rand values n h k ns =
        let means = stats_sort (resample_means rand values 0 n) in
        let size : length means ≡ n = omega (
          arith,
          length-stats_sort laws (resample_means rand values 0 n) ns,
          length-resample_means rand values 0 n,
        ) in
        let in_order : lo_index n ≤ hi_index n = ground arith in
        let in_range : hi_index n < n = ground arith in
        (
          get_or means (lo_index n) nought,
          get_or means (hi_index n) nought,
          rw (some_interval rand values n h k),
          get_or-le laws means (lo_index n) (hi_index n)
              (stats_sort-IsSorted laws (resample_means rand values 0 n) ns)
              (stats_sort-AllNumbers laws (resample_means rand values 0 n) ns) in_order
              (omega arith),
          omega arith,
          omega arith,
        )

  -- `stats_compute` refuses exactly the runs of fewer than two values, and copies past the end of
  -- its array of 31 values exactly when it is given more than 31.
  pub stats_compute_branches :
      (allocated : Bool) (rand : ℕ → ℕ) (values : List D)
      → ((stats_compute allocated rand values ≡ too_few) ↔ (length values < 2))
        × ((stats_compute allocated rand values ≡ overrun) ↔ (max_iterations < length values))
  unfolding stats_compute
  stats_compute_branches allocated rand values = ground arith
