-- ===== src/Stats/Compare.antt =====
-- The tests of src/core/stats.c that compare two samples, or a sample with the normal distribution:
-- Welch's t test, Mann and Whitney's test, and that of Anderson and Darling. `erf` and `quantile`,
-- which is `t_dist_quantile`, are arguments, and so is `cdf`, which is `t_dist_cdf`. No allocation
-- fails; the code does not look at that.
pub mod Exchange
pub mod Ranks
use mathlib.Core.List.{reverse}
use serv_mark.Base.{
  ℕ, zero, suc, ◌+◌, ◌-◌, ◌*◌, ◌/◌, ◌%◌, ◌==◌, Bool, true, false, ◌&&◌, List, [], ◌∷◌, ◌++◌, map,
  if◌then◌else◌, ltb, length, get_or,
}
use serv_mark.Double.{Double, ◌⊕◌, ◌⊖◌, ◌⊗◌, ◌⊘◌, ◌≺◌, ◌≼◌, nought, one}
use serv_mark.Stats.Outliers.{exchange_sort}
use serv_mark.Stats.{of_count, stats_mean_stddev, stats_sort}

-- `*p_value`, `*ci_lower` and `*ci_upper`.
pub record Welch (D : Type 0) : Type 0 where
  pub p_value : D
  pub ci_lower : D
  pub ci_upper : D

-- `combined` and `group` together: group 0 or 1.
abbrev pub tagged : {D : Type 0} → ℕ → List D → List (D × ℕ)
tagged group [] = []
tagged group (x ∷ xs) = (x, group) ∷ tagged group xs

module _ {D : Type 0} ⦃d : Double D⦄ where
  open d use {lit, of_int, sqrt, fabs, log}

  abbrev pub at_most_one : D → D
  at_most_one p = if one ≺ p then one else p

  abbrev pub at_least_zero : D → D
  at_least_zero p = if p ≺ nought then nought else p

  -- The two-sided p-value of the normal distribution.
  abbrev pub normal_p : (D → D) → D → D
  normal_p erf z = lit 2 1 ⊗ (one ⊖ lit 1 2 ⊗ (one ⊕ erf (fabs z ⊘ sqrt (lit 2 1))))

  unfoldable pub stats_welch_ttest : (D → D) → (D → D → D) → (D → D → D) → List D → List D → Welch D
  stats_welch_ttest erf cdf quantile a b =
      let na = of_count (length a) in
      let nb = of_count (length b) in
      let (ma, sa) = stats_mean_stddev a in
      let (mb, sb) = stats_mean_stddev b in
      let va = sa ⊗ sa ⊘ na in
      let vb = sb ⊗ sb ⊘ nb in
      let se = sqrt (va ⊕ vb) in
      let df_num = (va ⊕ vb) ⊗ (va ⊕ vb) in
      let df_den = va ⊗ va ⊘ (na ⊖ one) ⊕ vb ⊗ vb ⊘ (nb ⊖ one) in
      let df = if nought ≺ df_den then df_num ⊘ df_den else na ⊕ nb ⊖ lit 2 1 in
      let t = if nought ≺ se then (ma ⊖ mb) ⊘ se else nought in
      let p = if nought ≺ df then lit 2 1 ⊗ (one ⊖ cdf (fabs t) df) else normal_p erf t in
      let t_crit =
        if (nought ≺ df) && (df ≺ lit 1000 1) then quantile (lit 5 100) df else lit 196 100 in
      record {
        p_value = at_least_zero (at_most_one p);
        ci_lower = ma ⊖ mb ⊖ t_crit ⊗ se;
        ci_upper = ma ⊖ mb ⊕ t_crit ⊗ se;
      }

  abbrev pub next_rank : D → ℕ → ℕ → List (D × ℕ) → ℕ
  next_rank x i rank [] = rank
  next_rank x i rank (y ∷ ys) = if x ≺ y.0 then i + 2 else rank

  -- The sum of the ranks of group 0, from place `i` on; `rank` is the rank of that place. The code
  -- adds whole numbers to a double.
  unfoldable pub rank_sum : ℕ → ℕ → ℕ → List (D × ℕ) → ℕ
  rank_sum i rank r1 [] = r1
  rank_sum i rank r1 (x ∷ xs) =
      rank_sum (i + 1) (next_rank x.0 i rank xs) (if x.1 == 0 then r1 + rank else r1) xs

  -- The smaller of u1 and u2.
  abbrev pub u_of : ℕ → ℕ → ℕ → D
  u_of na nb r1 =
      let u1 = of_count r1 ⊖ of_count (na * (na + 1)) ⊘ lit 2 1 in
      let u2 = of_count (na * nb) ⊖ u1 in if u1 ≺ u2 then u1 else u2

  abbrev pub median : List D → D
  median diffs =
      let n = length diffs in
      if n % 2 == 0
      then (get_or diffs (n / 2 - 1) nought ⊕ get_or diffs (n / 2) nought) ⊘ lit 2 1
      else get_or diffs (n / 2) nought

  abbrev pub differences : List D → List D → List D
  differences [] b = []
  differences (x ∷ xs) b = map (λ y. x ⊖ y) b ++ differences xs b

  unfoldable pub combined : List D → List D → List (D × ℕ)
  combined a b = exchange_sort (length (tagged 0 a ++ tagged 1 b)) (tagged 0 a ++ tagged 1 b)

  -- `*p_value` and `*hodges_lehmann`; both samples have values.
  unfoldable pub stats_mann_whitney : (D → D) → List D → List D → D × D
  unfolding rank_sum combined
  stats_mann_whitney erf a b =
      let na = length a in
      let nb = length b in
      let u = u_of na nb (rank_sum 0 1 0 (combined a b)) in
      let mu = of_count (na * nb) ⊘ lit 2 1 in
      let su = sqrt (of_count (na * nb) ⊗ (of_count (na + nb) ⊕ one) ⊘ lit 12 1) in
      let z = if nought ≺ su then (u ⊖ mu) ⊘ su else nought in
      (at_most_one (normal_p erf z), median (stats_sort (differences a b)))

  abbrev pub tiny : D
  tiny = lit 1 1_000_000_000_000_000

  abbrev pub at_most_cdf : D → D
  at_most_cdf c = if (one ⊖ tiny) ≺ c then one ⊖ tiny else c

  -- The loop, from place `i` on; `reversed` runs through the sorted values from the end.
  unfoldable pub darling_from : (D → D) → D → D → ℕ → D → List D → List D → D
  darling_from erf mean stddev i acc [] reversed = acc
  darling_from erf mean stddev i acc (x ∷ xs) [] = acc
  darling_from erf mean stddev i acc (x ∷ xs) (y ∷ ys) =
      let zi = (x ⊖ mean) ⊘ stddev in
      let below = lit 1 2 ⊗ (one ⊕ erf (zi ⊘ sqrt (lit 2 1))) in
      let cdf = at_most_cdf (if below ≺ tiny then tiny else below) in
      let cdf_rev = at_most_cdf (lit 1 2 ⊗ (one ⊕ erf ((y ⊖ mean) ⊘ (stddev ⊗ sqrt (lit 2 1))))) in
      let term = (lit 2 1 ⊗ of_count i ⊕ one) ⊗ (log cdf ⊕ log (one ⊖ cdf_rev)) in
      darling_from erf mean stddev (i + 1) (acc ⊕ term) xs ys

  unfoldable pub stats_anderson_darling : (D → D) → List D → D
  unfolding darling_from
  stats_anderson_darling erf values =
      let n = length values in
      let (mean, stddev) = stats_mean_stddev values in
      let sorted = stats_sort values in
      let s = darling_from erf mean stddev 0 nought sorted (reverse sorted) in
      let a2 = nought ⊖ of_count n ⊖ s ⊘ of_count n in
      let a2_star = a2 ⊗ (one ⊕ lit 75 100 ⊘ of_count n ⊕ lit 225 100 ⊘ of_count (n * n)) in
      if ltb n 3 then nought else if stddev ≺ tiny then nought else a2_star

  -- `stats_shapiro_wilk`
  unfoldable pub stats_shapiro_wilk : (D → D) → List D → D
  unfolding stats_anderson_darling
  stats_shapiro_wilk erf values = one ⊘ (one ⊕ stats_anderson_darling erf values)
