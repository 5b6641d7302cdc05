-- ===== src/Stats/Discovery.antt =====
-- `stats_benjamini_hochberg` of src/core/stats.c: which p-values it keeps at a false discovery rate. No
-- allocation fails; the code does not look at that.
use serv_mark.Base.{
  ℕ, zero, suc, ◌+◌, ◌≡◌, ◌<◌, true, inl, inr, List, [], ◌∷◌, map, arith, refl, ◌∙◌, Bool-cases,
  length, get_or, if◌then◌else◌, negsuc, All,
}
use serv_mark.Double.{Double, IsOrdered, IsNumber, ◌⊗◌, ◌⊘◌, ◌≼◌, nought}
use serv_mark.Stats.Sort.{
  IsSorted, AllNumbers, stats_sort-AllNumbers, stats_sort-IsSorted, length-stats_sort,
}
use serv_mark.Stats.{stats_sort, of_count}

module _ {D : Type 0} ⦃d : Double D⦄ where
  open d use {of_int}

  -- `fdr * (i + 1) / count`
  abbrev pub critical : D → ℕ → ℕ → D
  critical fdr count i = fdr ⊗ of_count (i + 1) ⊘ of_count count

  -- The loop that finds the threshold, from place `i` on.
  unfoldable pub threshold_from : D → ℕ → ℕ → D → List D → D
  threshold_from fdr count i threshold [] = threshold
  threshold_from fdr count i threshold (x ∷ xs) =
      threshold_from fdr count (i + 1) (if x ≼ critical fdr count i then x else threshold) xs

  abbrev pub mark : D → D → D
  mark threshold p = if p ≼ threshold then p else of_int (negsuc 0)

  unfoldable pub stats_benjamini_hochberg : D → List D → List D
  stats_benjamini_hochberg fdr p_values =
      map (mark (threshold_from fdr (length p_values) 0 nought (stats_sort p_values))) p_values

  get_or-map :
      (f : D → D) (xs : List D) (i : ℕ) (o : D)
      → i < length xs
      → get_or (map f xs) i o ≡ f (get_or xs i o)
  get_or-map f [] i o h = absurd (omega arith)
  get_or-map f (x ∷ xs) zero o h = refl
  get_or-map f (x ∷ xs) (suc i) o h = get_or-map f xs i o (omega arith)

module _ {D : Type 0} ⦃d : Double D⦄ (laws : IsOrdered D) where
  open laws use {le_trans}

  -- The threshold never falls while the values rise.
  threshold_from-grows :
      (fdr : D) (count i : ℕ) (t : D) (xs : List D)
      → IsNumber t
      → All (λ y. (t ≼ y) ≡ true) xs
      → AllNumbers xs
      → IsSorted xs
      → (t ≼ threshold_from fdr count i t xs) ≡ true
  unfolding threshold_from
  threshold_from-grows fdr count i t [] n above ns s = n
  threshold_from-grows fdr count i t (x ∷ xs) n (a, above) (m, ns) (below, s) =
      elim (Bool-cases (x ≼ critical fdr count i)) [
        | inl pass ↦ rw pass (
            le_trans t x (threshold_from fdr count (i + 1) x xs) a
              (threshold_from-grows fdr count (i + 1) x xs m below ns s))
        | inr fail ↦ rw fail (threshold_from-grows fdr count (i + 1) t xs n above ns s)
      ]

  -- A value that passes its own test is at most the threshold.
  threshold_from-passing :
      (fdr : D) (count i j : ℕ) (t : D) (xs : List D)
      → AllNumbers xs
      → IsSorted xs
      → j < length xs
      → (get_or xs j nought ≼ critical fdr count (i + j)) ≡ true
      → (get_or xs j nought ≼ threshold_from fdr count i t xs) ≡ true
  unfolding threshold_from
  threshold_from-passing fdr count i j t [] ns s h pass = absurd (omega arith)
  threshold_from-passing fdr count i zero t (x ∷ xs) (m, ns) (below, s) h pass =
      let here : (i + 0) ≡ i = omega arith in
      let pass_here : (x ≼ critical fdr count i) ≡ true = rw (← here) pass in
      rw pass_here (threshold_from-grows fdr count (i + 1) x xs m below ns s)
  threshold_from-passing fdr count i (suc j) t (x ∷ xs) (m, ns) (below, s) h pass =
      let next : (i + suc j) ≡ (i + 1 + j) = omega arith in
      threshold_from-passing fdr count (i + 1) j _ xs ns s (omega arith) (rw (← next) pass)

  -- The procedure steps up: if no p-value is NaN and one of the sorted p-values is at most its own
  -- critical value, then every p-value that is at most that one is kept, whether or not the ones
  -- between pass their own tests.
  pub stats_benjamini_hochberg-kept :
      (fdr : D) (p_values : List D) (i j : ℕ)
      → AllNumbers p_values
      → i < length p_values
      → j < length p_values
      → (get_or (stats_sort p_values) i nought ≼ critical fdr (length p_values) i) ≡ true
      → (get_or p_values j nought ≼ get_or (stats_sort p_values) i nought) ≡ true
      → get_or (stats_benjamini_hochberg fdr p_values) j nought ≡ get_or p_values j nought
  unfolding stats_benjamini_hochberg
  stats_benjamini_hochberg-kept fdr p_values i j ns hi hj pass below =
      let sorted = stats_sort p_values in
      let threshold = threshold_from fdr (length p_values) 0 nought sorted in
      let top : (get_or sorted i nought ≼ threshold) ≡ true =
        threshold_from-passing fdr (length p_values) 0 i nought sorted
          (stats_sort-AllNumbers laws p_values ns) (stats_sort-IsSorted laws p_values ns)
          (omega (arith, length-stats_sort laws p_values ns)) (rw (plus_zero i) pass) in
      let keeps =
        le_trans (get_or p_values j nought) (get_or sorted i nought) threshold below top in
      get_or-map (mark threshold) p_values j nought hj ∙ rw keeps refl
    where
      plus_zero : (n : ℕ) → (0 + n) ≡ n
      plus_zero n = omega arith
