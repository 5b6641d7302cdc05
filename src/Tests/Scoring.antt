-- ===== src/Tests/Scoring.antt =====
use serv_mark.Base.{ℕ, ◌+◌, ◌≡◌, List, [], ◌∷◌, refl, codes, if◌then◌else◌, some, none}
use serv_mark.Double.{Milli, milli_double}
use serv_mark.Result.{Subtest}
use serv_mark.Scoring.Collecting.{few_in_each, all_scores, scores_in, scoring_compute_pillars_lem}
use serv_mark.Scoring.{
  CategoryWeight, scoring_get_categories, t_cats, l_cats, e_cats, pillars_of,
  scoring_compute_pillars, scoring_normalize, scoring_thermal_derating,
}
use serv_mark.Tests.Samples.{milli, subtest}

total : List CategoryWeight → ℕ
total [] = 0
total (c ∷ cs) = c.weight + total cs

weights : total scoring_get_categories ≡ 100
unfolding total scoring_get_categories
weights = refl

abbrev results : List (Subtest Milli ℕ)
results =
    subtest (codes "int-hash") (codes "C1") 3000 10 5
    ∷ subtest (codes "script-shell") (codes "C9") 9000 10 5
    ∷ subtest (codes "proc-mmap") (codes "C6") 2000 150 5
    ∷ subtest (codes "vm-detect") (codes "C14") 0 0 0
    ∷ []

ratios :
    (scoring_normalize (milli 3000) (milli 2000) ≡ milli 1500)
    × (scoring_normalize (milli 3000) (milli 0) ≡ milli 1000)
    × (scoring_thermal_derating (milli 900) (milli 1000) ≡ milli 900)
unfolding scoring_normalize scoring_thermal_derating
ratios = (refl, refl, refl)

scoring_compute_pillars_lem_example :
    scoring_compute_pillars results
    ≡ (if few_in_each results then some (pillars_of (all_scores results)) else none)
scoring_compute_pillars_lem_example = scoring_compute_pillars_lem results

-- The failed benchmark counts as 1, the unstable one and the script not at all.
scores :
    (scores_in t_cats results ≡ milli 3000 ∷ [])
    × (scores_in l_cats results ≡ [])
    × (scores_in e_cats results ≡ milli 1000 ∷ [])
scores = (refl, refl, refl)
