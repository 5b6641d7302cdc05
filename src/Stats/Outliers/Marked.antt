-- ===== src/Stats/Outliers/Marked.antt =====
-- How many values the outlier test marks.
use mathlib.Core.Path.{subst}
use serv_mark.Base.{
  ℕ, zero, suc, ◌+◌, ◌≡◌, ◌≤◌, ◌<◌, Bool, true, false, Option, none, some, List, [], ◌∷◌, inl, inr,
  refl, arith, ap, ◌∙◌, Bool-cases, if◌then◌else◌, leb, ltb, length, set, replicate,
  length-replicate, length-set, ℤ, pos_part,
}
use serv_mark.Double.{Double, ◌≺◌, nought}
use serv_mark.Stats.Outliers.{
  remove_at, numbered, values_of, exchange_pass, exchange_sort, furthest, judge, Verdict,
  no_outlier, outside, outlier, verdict_on, after_verdict, esd_loop, stats_detect_outliers,
  index_at,
}
use serv_mark.Stats.{stats_mean_stddev}

-- The number of marks.
abbrev pub marked : List Bool → ℕ
marked [] = 0
marked (true ∷ mask) = suc (marked mask)
marked (false ∷ mask) = marked mask

marked-set : (mask : List Bool) (i : ℕ) → marked (set mask i true) ≤ marked mask + 1
marked-set [] i = omega arith
marked-set (true ∷ mask) zero = omega arith
marked-set (false ∷ mask) zero = omega arith
marked-set (true ∷ mask) (suc i) = omega (arith, marked-set mask i)
marked-set (false ∷ mask) (suc i) = omega (arith, marked-set mask i)

marked-replicate : (n : ℕ) → marked (replicate n false) ≡ 0
marked-replicate zero = refl
marked-replicate (suc n) = marked-replicate n

-- Of `count` values at most `limit` are marked, and two are left.
abbrev pub IsModest : ℕ → ℕ → Option (List Bool) → Type 0
IsModest count limit none = Unit
IsModest count limit (some mask) =
    (length mask ≡ count) × (marked mask ≤ limit) × (marked mask + 2 ≤ count)

-- A place that is found lies in the array.
abbrev pub InRange : ℕ → Option ℕ → Type 0
InRange n none = Unit
InRange n (some i) = i < n

abbrev pub IsWithin : ℕ → Verdict → Type 0
IsWithin n no_outlier = Unit
IsWithin n outside = Unit
IsWithin n (outlier i) = i < n

verdict_on-IsWithin :
    (n : ℕ) (far : Bool) (o : Option ℕ) → InRange n o → IsWithin n (verdict_on far o)
verdict_on-IsWithin n true none h = tt
verdict_on-IsWithin n false none h = tt
verdict_on-IsWithin n true (some i) h = h
verdict_on-IsWithin n false (some i) h = tt

steady-IsWithin :
    (n : ℕ) (steady : Bool) (v : Verdict)
    → IsWithin n v
    → IsWithin n (if steady then no_outlier else v)
steady-IsWithin n true v h = tt
steady-IsWithin n false v h = h

InRange-step :
    (n : ℕ) (further : Bool) (o : Option ℕ)
    → InRange n o
    → InRange (n + 1) (if further then some n else o)
InRange-step n true o h = omega arith
InRange-step n false none h = tt
InRange-step n false (some i) h = omega arith

module _ {D : Type 0} where
  length-remove_at :
      (i : ℕ) (points : List (D × ℕ))
      → i < length points
      → length (remove_at i points) + 1 ≡ length points
  length-remove_at i [] h = absurd (omega arith)
  length-remove_at zero (x ∷ xs) h = omega arith
  length-remove_at (suc i) (x ∷ xs) h = omega (arith, length-remove_at i xs (omega arith))

  length-numbered : (n : ℕ) (xs : List D) → length (numbered n xs) ≡ length xs
  length-numbered n [] = refl
  length-numbered n (x ∷ xs) = ap suc (length-numbered (n + 1) xs)

module _ {D : Type 0} ⦃d : Double D⦄ where
  furthest-InRange :
      (mean : D) (i : ℕ) (max_dev : D) (max_idx : Option ℕ) (points : List (D × ℕ))
      → InRange i max_idx
      → InRange (i + length points) (furthest mean i max_dev max_idx points).1
  unfolding furthest
  furthest-InRange mean i max_dev max_idx [] h = let same : (i + 0) ≡ i = omega arith in rw same h
  furthest-InRange mean i max_dev max_idx (x ∷ xs) h =
      let next : (i + suc (length xs)) ≡ (i + 1 + length xs) = omega arith in
      rw next (furthest-InRange mean (i + 1) _ _ xs (InRange-step i _ max_idx h))

  judge-IsWithin :
      (quantile : D → D → D) (alpha : D) (points : List (D × ℕ))
      → IsWithin (length points) (judge quantile alpha points)
  unfolding judge
  judge-IsWithin quantile alpha points =
      let mean = (stats_mean_stddev (values_of points)).0 in
      let found = furthest-InRange mean 0 nought none points tt in
      let same : (0 + length points) ≡ length points = omega arith in
      steady-IsWithin (length points) _ _ (
        verdict_on-IsWithin (length points) _ (furthest mean 0 nought none points).1
          (subst (λ n. InRange n (furthest mean 0 nought none points).1) same found))

  length-exchange_pass : (xs : List (D × ℕ)) (x : D × ℕ) → length (exchange_pass x xs).1 ≡ length xs
  unfolding exchange_pass
  length-exchange_pass [] x = refl
  length-exchange_pass (y ∷ ys) x = ap suc (length-exchange_pass ys (if y.0 ≺ x.0 then y else x))

  length-exchange_sort : (n : ℕ) (xs : List (D × ℕ)) → length (exchange_sort n xs) ≡ length xs
  unfolding exchange_sort
  length-exchange_sort zero xs = refl
  length-exchange_sort (suc n) [] = refl
  length-exchange_sort (suc n) (x ∷ xs) =
      ap suc (length-exchange_sort n (exchange_pass x xs).1 ∙ length-exchange_pass xs x)

  after_verdict-IsModest :
      (count limit : ℕ) (points : List (D × ℕ)) (mask : List Bool)
      (again : List (D × ℕ) → List Bool → Option (List Bool)) (v : Verdict)
      → IsWithin (length points) v
      → IsModest count limit (some mask)
      → ((i : ℕ)
          → i < length points
          → IsModest count limit (again (remove_at i points) (set mask (index_at i points) true)))
      → IsModest count limit (after_verdict points mask again v)
  after_verdict-IsModest count limit points mask again no_outlier within now rest = now
  after_verdict-IsModest count limit points mask again outside within now rest = tt
  after_verdict-IsModest count limit points mask again (outlier i) within now rest = rest i within

  esd_loop-IsModest :
      (quantile : D → D → D) (alpha : D) (left : ℕ) (points : List (D × ℕ)) (mask : List Bool)
      (count limit : ℕ)
      → length mask ≡ count
      → marked mask + left ≤ limit
      → marked mask + length points ≤ count
      → 2 ≤ length points
      → IsModest count limit (esd_loop quantile alpha left points mask)
  unfolding esd_loop
  esd_loop-IsModest quantile alpha zero points mask count limit size within fits two =
      (size, omega arith, omega arith)
  esd_loop-IsModest quantile alpha (suc left) points mask count limit size within fits two =
      elim (Bool-cases (leb (length points) 2)) [
        | inl few ↦ rw (esd_loop, few) (size, omega arith, omega arith)
        | inr many ↦
            let enough : 2 < length points = ground arith in
            rw (esd_loop, many)
              (after_verdict-IsModest count limit points mask (esd_loop quantile alpha left)
                (judge quantile alpha points) (judge-IsWithin quantile alpha points)
                (size, omega arith, omega arith)
                (λ i h.
                  let one_mark = marked-set mask (index_at i points) in
                  let shorter = length-remove_at i points h in
                  esd_loop-IsModest quantile alpha left (remove_at i points)
                    (set mask (index_at i points) true) count limit
                    (length-set mask (index_at i points) true ∙ size) (omega arith) (omega arith)
                    (omega arith)))
      ]

  -- Of two or more values, the outlier test yields a mask with a place for each value, unless it reads in front of its array;
  -- the mask marks at most `max_outliers` values and leaves at least two.
  pub stats_detect_outliers-IsModest :
      (quantile : D → D → D) (values : List D) (alpha : D) (max_outliers : ℤ)
      → 2 ≤ length values
      → IsModest
          (length values)
          (pos_part max_outliers)
          (stats_detect_outliers quantile values alpha max_outliers)
  unfolding stats_detect_outliers
  stats_detect_outliers-IsModest quantile values alpha max_outliers h =
      let clean = marked-replicate (length values) in
      let size = length-replicate (length values) false in
      let points = exchange_sort (length values) (numbered 0 values) in
      let points_length : length points ≡ length values =
        length-exchange_sort (length values) (numbered 0 values) ∙ length-numbered 0 values in
      elim (Bool-cases (ltb (length values) 3)) [
        | inl few ↦ rw (stats_detect_outliers, few) (size, omega arith, omega arith)
        | inr many ↦
            rw (stats_detect_outliers, many)
              (esd_loop-IsModest quantile alpha (pos_part max_outliers) points
                (replicate (length values) false) (length values) (pos_part max_outliers) size
                (omega arith) (omega arith) (omega arith))
      ]
