-- ===== src/Stats/Sort.antt =====
-- `stats_sort` gives a sorted rearrangement of the values, none of which is NaN.
use mathlib.Core.List.{Perm}
use serv_mark.Base.Sorting.{IsComparator, InOrder, negative, All-perm, length-perm}
use serv_mark.Base.{
  not, Bool, positive, false, ap, sym, ◌∙◌, ℕ, zero, suc, ◌≡◌, ◌≤◌, ◌<◌, true, List, [], ◌∷◌, arith,
  length, get_or, All,
}
use serv_mark.Double.{Double, ◌≼◌, nought, IsNumber, IsOrdered}
use serv_mark.Stats.{stats_sort, compare_double}

module _ {D : Type 0} ⦃d : Double D⦄ where
  -- Each value is at most every later one.
  abbrev pub IsSorted : List D → Type 0
  IsSorted [] = Unit
  IsSorted (x ∷ xs) = All (λ y. (x ≼ y) ≡ true) xs × IsSorted xs

  abbrev pub AllNumbers : List D → Type 0
  AllNumbers = All (λ x. IsNumber x)

module _ {D : Type 0} ⦃d : Double D⦄ (laws : IsOrdered D) where
  open laws use {le_trans, le_total, lt-eq-not-le}

  -- `_compare_double` fails to put two numbers behind each other exactly if the first is at most the
  -- second.
  compare_double-le :
      (x y : D) → IsNumber x → IsNumber y → positive (compare_double x y) ≡ not (x ≼ y)
  unfolding compare_double
  compare_double-le x y n m =
      ground (arith, lt-eq-not-le x y n m, lt-eq-not-le y x m n, le_total x y n m)

  not-false : (b : Bool) → not b ≡ false → b ≡ true
  not-false b h = ground arith

  compare_double-opposite :
      (x y : D) → positive (compare_double x y) ≡ negative (compare_double y x)
  unfolding compare_double
  compare_double-opposite x y = ground arith

  -- `_compare_double` is consistent away from NaN, as `qsort` asks.
  pub compare_double-IsComparator : IsComparator (λ x. IsNumber x) (compare_double {D = D})
  compare_double-IsComparator = record {
    opposite = λ x y n m. compare_double-opposite x y;
    chain = λ x y z n m o h k. chained x y z n m o h k;
  }
    where
      chained :
          (x y z : D)
          → IsNumber x
          → IsNumber y
          → IsNumber z
          → positive (compare_double x y) ≡ false
          → positive (compare_double y z) ≡ false
          → positive (compare_double x z) ≡ false
      chained x y z n m o h k =
          let low = not-false (x ≼ y) (sym (compare_double-le x y n m) ∙ h) in
          let high = not-false (y ≼ z) (sym (compare_double-le y z m o) ∙ k) in
          compare_double-le x z n o ∙ ap not (le_trans x y z low high)

  le_of_order :
      (x : D) (ys : List D)
      → IsNumber x
      → AllNumbers ys
      → All (λ y. positive (compare_double x y) ≡ false) ys
      → All (λ y. (x ≼ y) ≡ true) ys
  le_of_order x [] n ns h = tt
  le_of_order x (y ∷ ys) n (m, ns) (h, hs) =
      (not-false (x ≼ y) (sym (compare_double-le x y n m) ∙ h), le_of_order x ys n ns hs)

  InOrder-IsSorted :
      (xs : List D) → AllNumbers xs → InOrder (compare_double {D = D}) xs → IsSorted xs
  InOrder-IsSorted [] ns s = tt
  InOrder-IsSorted (x ∷ xs) (n, ns) (below, s) =
      (le_of_order x xs n ns below, InOrder-IsSorted xs ns s)

  -- Sorting rearranges the values: it drops none and invents none.
  pub stats_sort-perm : (xs : List D) → AllNumbers xs → Perm (stats_sort xs) xs
  unfolding stats_sort
  stats_sort-perm xs ns = (laws.sorts compare_double compare_double-IsComparator xs ns).1

  pub stats_sort-AllNumbers : (xs : List D) → AllNumbers xs → AllNumbers (stats_sort xs)
  stats_sort-AllNumbers xs ns = All-perm (λ x. x ≼ x) (stats_sort-perm xs ns) ns

  pub length-stats_sort : (xs : List D) → AllNumbers xs → length (stats_sort xs) ≡ length xs
  length-stats_sort xs ns = length-perm (stats_sort-perm xs ns)

  pub stats_sort-IsSorted : (xs : List D) → AllNumbers xs → IsSorted (stats_sort xs)
  unfolding stats_sort
  stats_sort-IsSorted xs ns =
      InOrder-IsSorted (stats_sort xs) (stats_sort-AllNumbers xs ns)
        (laws.sorts compare_double compare_double-IsComparator xs ns).0

  -- In a sorted list an earlier value is at most a later one.
  pub get_or-le :
      (xs : List D) (i j : ℕ)
      → IsSorted xs
      → AllNumbers xs
      → i ≤ j
      → j < length xs
      → (get_or xs i nought ≼ get_or xs j nought) ≡ true
  get_or-le [] i j s ns h k = absurd (omega arith)
  get_or-le (x ∷ xs) zero zero s (n, ns) h k = n
  get_or-le (x ∷ xs) zero (suc j) (below, s) (n, ns) h k = pick xs j below (omega arith)
    where
      pick :
          (ys : List D) (m : ℕ)
          → All (λ y. (x ≼ y) ≡ true) ys
          → m < length ys
          → (x ≼ get_or ys m nought) ≡ true
      pick [] m b l = absurd (omega arith)
      pick (y ∷ ys) zero (b, bs) l = b
      pick (y ∷ ys) (suc m) (b, bs) l = pick ys m bs (omega arith)
  get_or-le (x ∷ xs) (suc i) zero s ns h k = absurd (omega arith)
  get_or-le (x ∷ xs) (suc i) (suc j) (below, s) (n, ns) h k =
      get_or-le xs i j s ns (omega arith) (omega arith)

  -- If no value is NaN, the comparator of the sort is as `qsort` asks, its sign turning when its
  -- arguments are exchanged, and the sorted list rises and has the same values, each as often; `qsort`
  -- is taken to sort by any such comparator.
  pub stats_sort_lem :
      (xs : List D)
      → AllNumbers xs
      → IsComparator (λ x. IsNumber x) (compare_double {D = D})
        × IsSorted (stats_sort xs)
        × Perm (stats_sort xs) xs
  stats_sort_lem xs ns =
      (compare_double-IsComparator, stats_sort-IsSorted xs ns, stats_sort-perm xs ns)
