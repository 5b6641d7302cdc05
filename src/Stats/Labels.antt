-- ===== src/Stats/Labels.antt =====
-- `stats_reliability_label` and `stats_geometric_mean` against plain descriptions of them.
use serv_mark.Base.{
  ℕ, ◌≡◌, ◌≤◌, inl, inr, Bool, true, false, ◌||◌, none, some, List, [], ◌∷◌, arith, refl,
  if◌then◌else◌, Bool-cases, Text, text_eq, codes, length, map,
}
use serv_mark.Double.{Double, ◌⊕◌, ◌⊘◌, ◌≺◌, ◌≼◌, nought, IsNumber, IsOrdered}
use serv_mark.Stats.{
  cv_stable, cv_moderate, cv_high, of_count, sum_from, log_sum_from, stats_geometric_mean,
  stats_reliability_label,
}

-- How bad a label is.
abbrev pub severity : Text → ℕ
severity label =
    if text_eq label (codes "stable")
    then 0
    else if text_eq label (codes "moderate")
    then 1
    else if text_eq label (codes "high")
    then 2
    else 3

module _ {D : Type 0} ⦃d : Double D⦄ where
  open d use {log, exp}

  module _ (laws : IsOrdered D) where
    open laws use {left_number, right_number, le_trans, le_total, lt-eq-not-le, lit_number}

    below_mono : (a b t : D) → (a ≼ b) ≡ true → IsNumber t → (b ≺ t) ≡ true → (a ≺ t) ≡ true
    below_mono a b t h n k = ground (
      arith,
      lt-eq-not-le b t (right_number a b h) n,
      lt-eq-not-le a t (left_number a b h) n,
      le_trans t a b,
      h,
    )

    -- A larger coefficient of variation never gets a better label; neither of the two is NaN.
    pub stats_reliability_label_mono :
        (a b : D)
        → (a ≼ b) ≡ true
        → severity (stats_reliability_label a) ≤ severity (stats_reliability_label b)
    unfolding stats_reliability_label
    stats_reliability_label_mono a b h = ground (
      arith,
      below_mono a b cv_stable h (lit_number 2 100),
      below_mono a b cv_moderate h (lit_number 5 100),
      below_mono a b cv_high h (lit_number 10 100),
    )

  abbrev pub any_nonpositive : List D → Bool
  any_nonpositive [] = false
  any_nonpositive (x ∷ xs) = (x ≼ nought) || any_nonpositive xs

  log_sum_from-eq :
      (acc : D) (xs : List D)
      → log_sum_from acc xs
        ≡ (if any_nonpositive xs then none else some (sum_from acc (map log xs)))
  unfolding log_sum_from sum_from
  log_sum_from-eq acc [] = refl
  log_sum_from-eq acc (x ∷ xs) = ground (arith, log_sum_from-eq (acc ⊕ log x) xs)

  -- The loop with its early return computes the closed formula: 0 if a value is at most 0, and
  -- otherwise the exponential of the mean of the logarithms.
  pub stats_geometric_mean_lem :
      (values : List D)
      → stats_geometric_mean values ≡ (
          if any_nonpositive values
          then nought
          else exp (sum_from nought (map log values) ⊘ of_count (length values)))
  unfolding stats_geometric_mean
  stats_geometric_mean_lem values = elim (Bool-cases (any_nonpositive values)) [
    | inl bad ↦ rw (bad, log_sum_from-eq nought values, bad)
    | inr good ↦ rw (good, log_sum_from-eq nought values, good)
  ]
