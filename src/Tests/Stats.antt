-- ===== src/Tests/Stats.antt =====
use mathlib.Core.List.{Perm}
use serv_mark.Base.{
  ℕ, ◌+◌, ◌%◌, ◌≡◌, ◌<◌, true, false, Bool, none, some, List, [], ◌∷◌, refl, arith, negsuc, codes,
  length,
}
use serv_mark.Double.{Milli, milli_double, Milli-IsOrdered, IsNumber, ◌≼◌}
use serv_mark.Base.Sorting.{IsComparator, insertion_sort}
use serv_mark.Stats.Bootstrap.{stats_bootstrap_percentile_ordered}
use serv_mark.Stats.Sort.{IsSorted, AllNumbers, stats_sort_lem}
use serv_mark.Stats.{
  compare_double, stats_sort, stats_mean_stddev, stats_reliability_label, resample_means,
  stats_bootstrap_percentile, lo_index, hi_index,
}
use serv_mark.Tests.Samples.{milli}

abbrev values : List Milli
values = milli 3000 ∷ milli 1000 ∷ some (negsuc 499) ∷ []

sorts : stats_sort values ≡ some (negsuc 499) ∷ milli 1000 ∷ milli 3000 ∷ []
unfolding stats_sort insertion_sort
sorts = refl

means : (stats_mean_stddev values).0 ≡ milli 1166
unfolding stats_mean_stddev
means = refl

abbrev not_a_number : Milli
not_a_number = none

labels :
    (stats_reliability_label (milli 19) ≡ codes "stable")
    × (stats_reliability_label (milli 20) ≡ codes "moderate")
    × (stats_reliability_label (milli 99) ≡ codes "high")
    × (stats_reliability_label not_a_number ≡ codes "unreliable")
unfolding stats_reliability_label
labels = (refl, refl, refl, refl)

stats_sort_lem_example :
    IsComparator (λ x. IsNumber x) (compare_double {D = Milli})
    × IsSorted (stats_sort values)
    × Perm (stats_sort values) values
stats_sort_lem_example = stats_sort_lem Milli-IsOrdered values (refl, (refl, (refl, tt)))

abbrev rand : ℕ → ℕ
rand k = (k + 7) % 11

numbers : (means : List Milli) → Bool
numbers [] = true
numbers (some x ∷ xs) = numbers xs
numbers (none ∷ xs) = false

numbers_sound : (xs : List Milli) → numbers xs ≡ true → AllNumbers xs
unfolding numbers
numbers_sound [] h = tt
numbers_sound (some x ∷ xs) h = (ground arith, numbers_sound xs h)
numbers_sound (none ∷ xs) h = cc

resampled : AllNumbers (resample_means rand values 0 100)
unfolding resample_means numbers stats_mean_stddev
resampled = numbers_sound (resample_means rand values 0 100) refl

stats_bootstrap_percentile_ordered_example :
    (lo hi : Milli) × (stats_bootstrap_percentile true rand values 100 ≡ some (lo, hi))
    × ((lo ≼ hi) ≡ true)
    × (lo_index 100 < length (stats_sort (resample_means rand values 0 100)))
    × (hi_index 100 < length (stats_sort (resample_means rand values 0 100)))
stats_bootstrap_percentile_ordered_example =
    stats_bootstrap_percentile_ordered Milli-IsOrdered rand values 100 (omega arith) (omega arith)
      resampled
