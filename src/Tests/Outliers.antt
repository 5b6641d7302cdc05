-- ===== src/Tests/Outliers.antt =====
use serv_mark.Base.{◌≡◌, true, false, some, List, [], ◌∷◌, ◌++◌, refl, arith, pos, negsuc, get_or}
use serv_mark.Base.Sorting.{insertion_sort}
use serv_mark.Double.{Milli, milli_double, Milli-IsOrdered, nought}
use serv_mark.Stats.Compare.Ranks.{ranks_in, rank_sum-combined}
use serv_mark.Stats.Compare.{rank_sum, combined}
use serv_mark.Stats.Discovery.{
  threshold_from, stats_benjamini_hochberg, stats_benjamini_hochberg-kept,
}
use serv_mark.Stats.Outliers.Marked.{IsModest, stats_detect_outliers-IsModest}
use serv_mark.Stats.Outliers.{
  exchange_pass, exchange_sort, furthest, judge, esd_loop, stats_detect_outliers,
}
use serv_mark.Stats.{stats_sort, stats_mean_stddev}
use serv_mark.Tests.Samples.{milli}

-- The second smallest fails its own test, and the third passes.
abbrev p_values : List Milli
p_values = milli 40 ∷ milli 900 ∷ milli 60 ∷ milli 62 ∷ []

kept :
    stats_benjamini_hochberg (milli 100) p_values
    ≡ milli 40 ∷ some (negsuc 999) ∷ milli 60 ∷ milli 62 ∷ []
unfolding stats_benjamini_hochberg threshold_from stats_sort insertion_sort
kept = refl

stats_benjamini_hochberg-kept_example :
    get_or (stats_benjamini_hochberg (milli 100) p_values) 2 nought ≡ get_or p_values 2 nought
unfolding stats_sort insertion_sort
stats_benjamini_hochberg-kept_example =
    stats_benjamini_hochberg-kept Milli-IsOrdered (milli 100) p_values 2 2
      (refl, (refl, (refl, (refl, tt)))) (omega arith) (omega arith) refl refl

abbrev values : List Milli
values = milli 100 ∷ milli 900 ∷ milli 110 ∷ milli 90 ∷ []

one_marked :
    stats_detect_outliers (λ alpha df. milli 1200) values (milli 50) (pos 1)
    ≡ some (false ∷ true ∷ false ∷ false ∷ [])
unfolding stats_detect_outliers esd_loop judge furthest exchange_sort stats_mean_stddev
one_marked = refl

stats_detect_outliers-IsModest_example :
    IsModest 4 1 (stats_detect_outliers (λ alpha df. milli 1200) values (milli 50) (pos 1))
stats_detect_outliers-IsModest_example =
    stats_detect_outliers-IsModest (λ alpha df. milli 1200) values (milli 50) (pos 1) (omega arith)

abbrev first : List Milli
first = milli 30 ∷ milli 10 ∷ []

abbrev second : List Milli
second = milli 20 ∷ milli 40 ∷ []

rank_sum-combined_example :
    rank_sum 0 1 0 (combined first second) ≡ ranks_in (first ++ second) first
rank_sum-combined_example =
    rank_sum-combined Milli-IsOrdered first second (refl, (refl, (refl, (refl, tt))))
      ((refl, (refl, (refl, tt))), ((refl, (refl, tt)), ((refl, tt), (tt, tt))))

four : rank_sum 0 1 0 (combined first second) ≡ 4
unfolding combined exchange_sort exchange_pass rank_sum
four = refl
