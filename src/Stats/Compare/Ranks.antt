-- ===== src/Stats/Compare/Ranks.antt =====
-- The ranks in Mann and Whitney's test.
use serv_mark.Base.{
  ℕ, ◌+◌, ◌≡◌, Bool, true, false, List, [], ◌∷◌, ◌++◌, arith, refl, ap, ◌∙◌, if◌then◌else◌, ◌==◌,
  All, length,
}
use serv_mark.Double.{Double, ◌≺◌, IsNumber, IsOrdered}
use serv_mark.Stats.Compare.Exchange.{
  total, total-exchange_sort, exchange_sort-All, exchange_sort-Ascending, HaveNumbers, differ,
  Apart, Ascending, lt-asym, lt_irrefl,
}
use serv_mark.Stats.Compare.{tagged, rank_sum, combined}
use serv_mark.Stats.Outliers.{values_of}
use serv_mark.Stats.Sort.{AllNumbers}

module _ {D : Type 0} ⦃d : Double D⦄ where
  -- How many of the values are below `v`.
  abbrev pub count_below : D → List D → ℕ
  count_below v [] = 0
  count_below v (x ∷ xs) = (if x ≺ v then 1 else 0) + count_below v xs

  -- The sum of the ranks that values have among `all`; the rank of the least is 1.
  abbrev pub ranks_in : List D → List D → ℕ
  ranks_in all [] = 0
  ranks_in all (x ∷ xs) = (1 + count_below x all) + ranks_in all xs

  -- No two values tie.
  abbrev pub Untied : List D → Type 0
  Untied [] = Unit
  Untied (x ∷ xs) = All (λ y. differ x y ≡ true) xs × Untied xs

  -- The places of group 0, counted from `n` on.
  abbrev place_sum : ℕ → List (D × ℕ) → ℕ
  place_sum n [] = 0
  place_sum n (x ∷ xs) = (if x.1 == 0 then n else 0) + place_sum (n + 1) xs

  rank_sum_places :
      (xs : List (D × ℕ)) (i r1 : ℕ)
      → Ascending xs
      → rank_sum i (i + 1) r1 xs ≡ r1 + place_sum (i + 1) xs
  unfolding rank_sum
  rank_sum_places [] i r1 h = omega arith
  rank_sum_places (x ∷ []) i r1 h = ground arith
  rank_sum_places (x ∷ y ∷ ys) i r1 ((below, more), h) =
      let next : (i + 2) ≡ (i + 1 + 1) = omega arith in
      let rest = rank_sum_places (y ∷ ys) (i + 1) (if x.1 == 0 then r1 + (i + 1) else r1) h in
      rw (below, next, rest) (ground arith)

  -- An entry that counts as one if it is below `v`.
  abbrev is_below : D → D × ℕ → ℕ
  is_below v y = if y.0 ≺ v then 1 else 0

  abbrev rank_of : ℕ → List (D × ℕ) → D × ℕ → ℕ
  rank_of n all x = if x.1 == 0 then n + total (is_below x.0) all else 0

  total_pointwise :
      (f g : D × ℕ → ℕ) (xs : List (D × ℕ)) → All (λ x. f x ≡ g x) xs → total f xs ≡ total g xs
  total_pointwise f g [] h = refl
  total_pointwise f g (x ∷ xs) (h, hs) = omega (arith, h, total_pointwise f g xs hs)

  everywhere : (P : D × ℕ → Type 0) → ((x : D × ℕ) → P x) → (xs : List (D × ℕ)) → All P xs
  everywhere P h [] = tt
  everywhere P h (x ∷ xs) = (h x, everywhere P h xs)

  -- Above the head, one more is below than in the tail.
  rank_above :
      (n : ℕ) (x : D × ℕ) (all ys : List (D × ℕ))
      → All (λ y. (x.0 ≺ y.0) ≡ true) ys
      → All (λ y. rank_of (n + 1) all y ≡ rank_of n (x ∷ all) y) ys
  rank_above n x all [] h = tt
  rank_above n x all (y ∷ ys) (h, hs) = (rw h (one_more (y.1 == 0)), rank_above n x all ys hs)
    where
      one_more :
          (b : Bool)
          → (if b then n + 1 + total (is_below y.0) all else 0)
            ≡ (if b then n + (1 + total (is_below y.0) all) else 0)
      one_more true = omega arith
      one_more false = refl

  module _ (laws : IsOrdered D) where
    none_below :
        (x : D × ℕ) (ys : List (D × ℕ))
        → IsNumber x.0
        → HaveNumbers ys
        → All (λ y. (x.0 ≺ y.0) ≡ true) ys
        → total (is_below x.0) ys ≡ 0
    none_below x [] n ns h = refl
    none_below x (y ∷ ys) n (m, ns) (h, hs) =
        rw (lt-asym laws x.0 y.0 n m h) (omega (arith, none_below x ys n ns hs))

    -- In a rising list the place of a value is given by how many are below it.
    place_sum_ranks :
        (n : ℕ) (xs : List (D × ℕ))
        → HaveNumbers xs
        → Ascending xs
        → place_sum n xs ≡ total (rank_of n xs) xs
    place_sum_ranks n [] ns s = refl
    place_sum_ranks n (x ∷ xs) (m, ns) (below, s) =
        let least : total (is_below x.0) (x ∷ xs) ≡ 0 =
          rw (lt_irrefl laws x.0 m) (omega (arith, none_below x xs m ns below)) in
        let rest =
          place_sum_ranks (n + 1) xs ns s
          ∙ total_pointwise (rank_of (n + 1) xs) (rank_of n (x ∷ xs)) xs
              (rank_above n x xs xs below) in
        let head : (if x.1 == 0 then n else 0) ≡ rank_of n (x ∷ xs) x = at_head (x.1 == 0) least in
        omega (arith, head, rest)
      where
        at_head :
            (b : Bool)
            → total (is_below x.0) (x ∷ xs) ≡ 0
            → (if b then n else 0) ≡ (if b then n + total (is_below x.0) (x ∷ xs) else 0)
        at_head true e = omega (arith, e)
        at_head false e = refl

  values_of-tagged : (group : ℕ) (xs : List D) → values_of (tagged group xs) ≡ xs
  values_of-tagged group [] = refl
  values_of-tagged group (x ∷ xs) = ap (λ ys. x ∷ ys) (values_of-tagged group xs)

  values_of-append : (xs ys : List (D × ℕ)) → values_of (xs ++ ys) ≡ values_of xs ++ values_of ys
  values_of-append [] ys = refl
  values_of-append ((x, n) ∷ xs) ys = ap (λ zs. x ∷ zs) (values_of-append xs ys)

  values_of-All : (P : D → Type 0) (xs : List (D × ℕ)) → All P (values_of xs) → All (λ x. P x.0) xs
  values_of-All P [] h = tt
  values_of-All P ((x, n) ∷ xs) (h, hs) = (h, values_of-All P xs hs)

  values_of-Apart : (xs : List (D × ℕ)) → Untied (values_of xs) → Apart xs
  values_of-Apart [] h = tt
  values_of-Apart ((x, n) ∷ xs) (h, hs) =
      (values_of-All (λ y. differ x y ≡ true) xs h, values_of-Apart xs hs)

  total_below : (v : D) (xs : List (D × ℕ)) → total (is_below v) xs ≡ count_below v (values_of xs)
  total_below v [] = refl
  total_below v ((x, n) ∷ xs) = ap (λ k. (if x ≺ v then 1 else 0) + k) (total_below v xs)

  total-append :
      (f : D × ℕ → ℕ) (xs ys : List (D × ℕ)) → total f (xs ++ ys) ≡ total f xs + total f ys
  total-append f [] ys = omega arith
  total-append f (x ∷ xs) ys = omega (arith, total-append f xs ys)

  both : List D → List D → List (D × ℕ)
  both a b = tagged 0 a ++ tagged 1 b

  values_of-both : (a b : List D) → values_of (both a b) ≡ a ++ b
  unfolding both
  values_of-both a b =
      values_of-append (tagged 0 a) (tagged 1 b)
      ∙ ap (λ xs. xs ++ values_of (tagged 1 b)) (values_of-tagged 0 a)
      ∙ ap (λ ys. a ++ ys) (values_of-tagged 1 b)

  ranks_first :
      (all : List (D × ℕ)) (xs : List D)
      → total (rank_of 1 all) (tagged 0 xs) ≡ ranks_in (values_of all) xs
  ranks_first all [] = refl
  ranks_first all (x ∷ xs) = omega (arith, total_below x all, ranks_first all xs)

  ranks_second : (all : List (D × ℕ)) (xs : List D) → total (rank_of 1 all) (tagged 1 xs) ≡ 0
  ranks_second all [] = refl
  ranks_second all (x ∷ xs) = omega (arith, ranks_second all xs)

  -- Sorting changes no rank.
  rank_of-combined :
      (a b : List D) (x : D × ℕ) → rank_of 1 (combined a b) x ≡ rank_of 1 (both a b) x
  unfolding combined both
  rank_of-combined a b x =
      ap (λ k. if x.1 == 0 then 1 + k else 0)
        (total-exchange_sort (is_below x.0) (length (both a b)) (both a b))

  total-combined :
      (a b : List D) → total (rank_of 1 (combined a b)) (combined a b) ≡ ranks_in (a ++ b) a
  unfolding combined both
  total-combined a b =
      total_pointwise (rank_of 1 (combined a b)) (rank_of 1 (both a b)) (combined a b) (
        everywhere (λ x. rank_of 1 (combined a b) x ≡ rank_of 1 (both a b) x) (rank_of-combined a b)
          (combined a b))
      ∙ total-exchange_sort (rank_of 1 (both a b)) (length (both a b)) (both a b)
      ∙ total-append (rank_of 1 (both a b)) (tagged 0 a) (tagged 1 b)
      ∙ omega (arith, ranks_first (both a b) a, ranks_second (both a b) b)
      ∙ ap (λ all. ranks_in all a) (values_of-both a b)

  combined-Ascending :
      (laws : IsOrdered D) (a b : List D)
      → HaveNumbers (both a b)
      → Apart (both a b)
      → HaveNumbers (combined a b) × Ascending (combined a b)
  unfolding combined both
  combined-Ascending laws a b numbers apart =
      let all = both a b in
      (
        exchange_sort-All (λ x. IsNumber x.0) (length all) all numbers,
        exchange_sort-Ascending laws (length all) all (omega arith) numbers apart,
      )

  -- Where no value is NaN and no two values tie, neither within the samples nor between them, the sum of
  -- ranks is that of the ranks of the first sample's values among all, where the rank of a value is 1
  -- and the number of the values that are below it.
  pub rank_sum-combined :
      (laws : IsOrdered D) (a b : List D)
      → AllNumbers (a ++ b)
      → Untied (a ++ b)
      → rank_sum 0 1 0 (combined a b) ≡ ranks_in (a ++ b) a
  rank_sum-combined laws a b ns untied =
      let values = values_of-both a b in
      let numbers = values_of-All (λ x. IsNumber x) (both a b) (rw values ns) in
      let apart = values_of-Apart (both a b) (rw values untied) in
      let sorted = combined-Ascending laws a b numbers apart in
      omega (arith, rank_sum_places (combined a b) 0 0 sorted.1)
      ∙ place_sum_ranks laws 1 (combined a b) sorted.0 sorted.1
      ∙ total-combined a b
