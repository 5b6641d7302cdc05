-- ===== src/Stats/Outliers.antt =====
-- `stats_detect_outliers` of src/core/stats.c, the generalised ESD test. `quantile` is
-- `t_dist_quantile`. No allocation fails; the code does not look at that.
pub mod Marked
use serv_mark.Base.{
  ℕ, zero, suc, ◌+◌, ◌-◌, Bool, true, false, Option, none, some, List, [], ◌∷◌, map, if◌then◌else◌,
  leb, ltb, length, set, replicate, get_or, ℤ, pos_part,
}
use serv_mark.Double.{Double, ◌⊕◌, ◌⊖◌, ◌⊗◌, ◌⊘◌, ◌≺◌, nought}
use serv_mark.Stats.{of_count, stats_mean_stddev}

-- A round: no point is far enough, a point is, or the code reads `indices[-1]`.
pub data Verdict : Type 0 where
  no_outlier outside : Verdict
  outlier : ℕ → Verdict

abbrev pub verdict_on : Bool → Option ℕ → Verdict
verdict_on far none = if far then outside else no_outlier
verdict_on far (some i) = if far then outlier i else no_outlier

module _ {D : Type 0} where
  -- `sorted` and `indices` together, without place `i`.
  abbrev pub remove_at : ℕ → List (D × ℕ) → List (D × ℕ)
  remove_at i [] = []
  remove_at zero (x ∷ xs) = xs
  remove_at (suc i) (x ∷ xs) = x ∷ remove_at i xs

  abbrev pub index_at : ℕ → List (D × ℕ) → ℕ
  index_at i [] = 0
  index_at zero ((x, n) ∷ xs) = n
  index_at (suc i) (x ∷ xs) = index_at i xs

  abbrev pub values_of : List (D × ℕ) → List D
  values_of [] = []
  values_of ((x, n) ∷ xs) = x ∷ values_of xs

  abbrev pub numbered : ℕ → List D → List (D × ℕ)
  numbered n [] = []
  numbered n (x ∷ xs) = (x, n) ∷ numbered (n + 1) xs

module _ {D : Type 0} ⦃d : Double D⦄ where
  open d use {lit, sqrt, fabs}

  -- The inner loop of the sort: place `i` against every later place.
  unfoldable pub exchange_pass : D × ℕ → List (D × ℕ) → (D × ℕ) × List (D × ℕ)
  exchange_pass x [] = (x, [])
  exchange_pass x (y ∷ ys) =
      let swaps = y.0 ≺ x.0 in
      let (least, rest) = exchange_pass (if swaps then y else x) ys in
      (least, (if swaps then x else y) ∷ rest)

  unfoldable pub exchange_sort : ℕ → List (D × ℕ) → List (D × ℕ)
  unfolding exchange_pass
  exchange_sort zero xs = xs
  exchange_sort (suc n) [] = []
  exchange_sort (suc n) (x ∷ xs) =
      let (least, rest) = exchange_pass x xs in least ∷ exchange_sort n rest

  -- The furthest point from place `i` on, with `max_dev` and `max_idx`; `none` is -1.
  unfoldable pub furthest : D → ℕ → D → Option ℕ → List (D × ℕ) → D × Option ℕ
  furthest mean i max_dev max_idx [] = (max_dev, max_idx)
  furthest mean i max_dev max_idx (x ∷ xs) =
      let dev = fabs (x.0 ⊖ mean) in
      let further = max_dev ≺ dev in
      furthest mean (i + 1) (if further then dev else max_dev) (if further then some i else max_idx)
        xs

  -- The critical value for `r` points.
  abbrev pub critical_value : (D → D → D) → D → ℕ → D
  critical_value quantile alpha r =
      let alpha_r = alpha ⊘ (lit 2 1 ⊗ of_count (r + 1)) in
      let t_crit = quantile (lit 2 1 ⊗ alpha_r) (of_count (r - 2)) in
      t_crit ⊗ of_count (r - 1) ⊘ sqrt (of_count r ⊗ (of_count (r - 2) ⊕ t_crit ⊗ t_crit))

  unfoldable pub judge : (D → D → D) → D → List (D × ℕ) → Verdict
  judge quantile alpha points =
      let (mean, stddev) = stats_mean_stddev (values_of points) in
      let (max_dev, max_idx) = furthest mean 0 nought none points in
      if stddev ≺ lit 1 10_000_000_000
      then no_outlier
      else verdict_on (critical_value quantile alpha (length points) ≺ (max_dev ⊘ stddev)) max_idx

  -- What follows a verdict; `again` is the rest of the loop, and `none` is the access out of the array.
  abbrev pub after_verdict :
      List (D × ℕ)
      → List Bool
      → (List (D × ℕ) → List Bool → Option (List Bool))
      → Verdict
      → Option (List Bool)
  after_verdict points mask again no_outlier = some mask
  after_verdict points mask again outside = none
  after_verdict points mask again (outlier i) =
      again (remove_at i points) (set mask (index_at i points) true)

  -- The rounds of the test, `left` of them.
  unfoldable pub esd_loop : (D → D → D) → D → ℕ → List (D × ℕ) → List Bool → Option (List Bool)
  esd_loop quantile alpha zero points mask = some mask
  esd_loop quantile alpha (suc left) points mask = elim (leb (length points) 2) [
    | true ↦ some mask
    | false ↦ after_verdict points mask (esd_loop quantile alpha left) (judge quantile alpha points)
  ]

  unfoldable pub stats_detect_outliers : (D → D → D) → List D → D → ℤ → Option (List Bool)
  stats_detect_outliers quantile values alpha max_outliers =
      let none_marked = replicate (length values) false in
      if ltb (length values) 3
      then some none_marked
      else esd_loop quantile alpha (pos_part max_outliers)
          (exchange_sort (length values) (numbered 0 values)) none_marked
