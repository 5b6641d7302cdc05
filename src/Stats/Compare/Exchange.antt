-- ===== src/Stats/Compare/Exchange.antt =====
-- The exchange sort of `stats_mann_whitney` and `stats_detect_outliers`: it keeps what it sorts, and
-- values that are all different come out in rising order.
use mathlib.Core.Path.{subst}
use serv_mark.Base.{
  ℕ, zero, suc, ◌+◌, ◌≡◌, sym, ◌≤◌, Bool, true, false, ◌||◌, List, [], ◌∷◌, arith, refl, ap,
  Bool-cases, inl, inr, length, All,
}
use serv_mark.Double.{Double, ◌≺◌, ◌≼◌, IsNumber, IsOrdered}
use serv_mark.Stats.Outliers.{exchange_pass, exchange_sort}

module _ {D : Type 0} where
  -- The sum of what `f` makes of the entries.
  abbrev pub total : (D × ℕ → ℕ) → List (D × ℕ) → ℕ
  total f [] = 0
  total f (x ∷ xs) = f x + total f xs

module _ {D : Type 0} ⦃d : Double D⦄ where
  total-exchange_pass :
      (f : D × ℕ → ℕ) (x : D × ℕ) (xs : List (D × ℕ))
      → f (exchange_pass x xs).0 + total f (exchange_pass x xs).1 ≡ f x + total f xs
  unfolding exchange_pass
  total-exchange_pass f x [] = refl
  total-exchange_pass f x (y ∷ ys) = elim (Bool-cases (y.0 ≺ x.0)) [
    | inl swaps ↦ rw swaps (omega (arith, total-exchange_pass f y ys))
    | inr stays ↦ rw stays (omega (arith, total-exchange_pass f x ys))
  ]

  pub total-exchange_sort :
      (f : D × ℕ → ℕ) (n : ℕ) (xs : List (D × ℕ)) → total f (exchange_sort n xs) ≡ total f xs
  unfolding exchange_sort
  total-exchange_sort f zero xs = refl
  total-exchange_sort f (suc n) [] = refl
  total-exchange_sort f (suc n) (x ∷ xs) =
      omega (arith, total-exchange_sort f n (exchange_pass x xs).1, total-exchange_pass f x xs)

  length-exchange_pass : (x : D × ℕ) (xs : List (D × ℕ)) → length (exchange_pass x xs).1 ≡ length xs
  unfolding exchange_pass
  length-exchange_pass x [] = refl
  length-exchange_pass x (y ∷ ys) = elim (Bool-cases (y.0 ≺ x.0)) [
    | inl swaps ↦ rw swaps (ap suc (length-exchange_pass y ys))
    | inr stays ↦ rw stays (ap suc (length-exchange_pass x ys))
  ]

  exchange_pass-All :
      (P : D × ℕ → Type 0) (x : D × ℕ) (xs : List (D × ℕ))
      → P x
      → All P xs
      → P (exchange_pass x xs).0 × All P (exchange_pass x xs).1
  unfolding exchange_pass
  exchange_pass-All P x [] p ps = (p, tt)
  exchange_pass-All P x (y ∷ ys) p (q, qs) = elim (Bool-cases (y.0 ≺ x.0)) [
    | inl swaps ↦ let (first, rest) = exchange_pass-All P y ys q qs in rw swaps (first, (p, rest))
    | inr stays ↦ let (first, rest) = exchange_pass-All P x ys p qs in rw stays (first, (q, rest))
  ]

  pub exchange_sort-All :
      (P : D × ℕ → Type 0) (n : ℕ) (xs : List (D × ℕ)) → All P xs → All P (exchange_sort n xs)
  unfolding exchange_sort
  exchange_sort-All P zero xs ps = ps
  exchange_sort-All P (suc n) [] ps = tt
  exchange_sort-All P (suc n) (x ∷ xs) (p, ps) =
      let (first, rest) = exchange_pass-All P x xs p ps in
      (first, exchange_sort-All P n (exchange_pass x xs).1 rest)

  -- The values of the entries are numbers.
  abbrev pub HaveNumbers : List (D × ℕ) → Type 0
  HaveNumbers xs = All (λ x. IsNumber x.0) xs

  abbrev pub differ : D → D → Bool
  differ x y = (x ≺ y) || (y ≺ x)

  -- No two values tie.
  abbrev pub Apart : List (D × ℕ) → Type 0
  Apart [] = Unit
  Apart (x ∷ xs) = All (λ y. differ x.0 y.0 ≡ true) xs × Apart xs

  -- Every value is below every later one.
  abbrev pub Ascending : List (D × ℕ) → Type 0
  Ascending [] = Unit
  Ascending (x ∷ xs) = All (λ y. (x.0 ≺ y.0) ≡ true) xs × Ascending xs

  -- What a pass leaves: at its head a value at most `v` and below the others, which are apart.
  abbrev IsLeast : D → (D × ℕ) × List (D × ℕ) → Type 0
  IsLeast v r = ((r.0.0 ≼ v) ≡ true) × All (λ y. (r.0.0 ≺ y.0) ≡ true) r.1 × Apart r.1

  exchange_pass_swaps :
      (x y : D × ℕ) (ys : List (D × ℕ))
      → (y.0 ≺ x.0) ≡ true
      → exchange_pass x (y ∷ ys) ≡ ((exchange_pass y ys).0, x ∷ (exchange_pass y ys).1)
  unfolding exchange_pass
  exchange_pass_swaps x y ys h = rw h refl

  exchange_pass_stays :
      (x y : D × ℕ) (ys : List (D × ℕ))
      → (y.0 ≺ x.0) ≡ false
      → exchange_pass x (y ∷ ys) ≡ ((exchange_pass x ys).0, y ∷ (exchange_pass x ys).1)
  unfolding exchange_pass
  exchange_pass_stays x y ys h = rw h refl

  module _ (laws : IsOrdered D) where
    open laws use {le_trans, le_total, lt-eq-not-le}

    pub lt-asym : (x y : D) → IsNumber x → IsNumber y → (x ≺ y) ≡ true → (y ≺ x) ≡ false
    lt-asym x y n m h = ground (arith, lt-eq-not-le x y n m, lt-eq-not-le y x m n, le_total x y n m)

    pub lt_irrefl : (x : D) → IsNumber x → (x ≺ x) ≡ false
    lt_irrefl x n = ground (arith, lt-eq-not-le x x n n)

    lt-le : (x y : D) → IsNumber x → IsNumber y → (x ≺ y) ≡ true → (x ≼ y) ≡ true
    lt-le x y n m h = ground (arith, lt-eq-not-le x y n m, le_total x y n m)

    le-lt :
        (x y z : D)
        → IsNumber x
        → IsNumber y
        → IsNumber z
        → (x ≼ y) ≡ true
        → (y ≺ z) ≡ true
        → (x ≺ z) ≡ true
    le-lt x y z n m o h k =
        ground (arith, lt-eq-not-le x z n o, lt-eq-not-le y z m o, le_trans z x y)

    -- The first of the pass is below the others, which stay apart.
    exchange_pass-IsLeast :
        (x : D × ℕ) (xs : List (D × ℕ))
        → IsNumber x.0
        → HaveNumbers xs
        → Apart (x ∷ xs)
        → IsLeast x.0 (exchange_pass x xs)
    unfolding exchange_pass
    exchange_pass-IsLeast x [] n ns apart = (n, tt, tt)
    exchange_pass-IsLeast x (y ∷ ys) n (m, ns) ((xy, x_ys), (y_ys, ys_apart)) =
        elim (Bool-cases (y.0 ≺ x.0)) [
          | inl swaps ↦
              let r = exchange_pass y ys in
              let (low, below, rest) = exchange_pass-IsLeast y ys m ns (y_ys, ys_apart) in
              let least = exchange_pass-All (λ z. IsNumber z.0) y ys m ns in
              let others = exchange_pass-All (λ z. differ x.0 z.0 ≡ true) y ys xy x_ys in
              subst (IsLeast x.0) (sym (exchange_pass_swaps x y ys swaps)) (
                le_trans r.0.0 y.0 x.0 low (lt-le y.0 x.0 m n swaps),
                (le-lt r.0.0 y.0 x.0 least.0 m n low swaps, below),
                (others.1, rest),
              )
          | inr stays ↦
              let r = exchange_pass x ys in
              let above : (x.0 ≺ y.0) ≡ true = ground arith in
              let turned : differ y.0 x.0 ≡ true = ground arith in
              let (low, below, rest) = exchange_pass-IsLeast x ys n ns (x_ys, ys_apart) in
              let least = exchange_pass-All (λ z. IsNumber z.0) x ys n ns in
              let others = exchange_pass-All (λ z. differ y.0 z.0 ≡ true) x ys turned y_ys in
              subst (IsLeast x.0) (sym (exchange_pass_stays x y ys stays))
                (low, (le-lt r.0.0 x.0 y.0 least.0 n m low above, below), (others.1, rest))
        ]

    -- Numbers that do not tie come out in rising order.
    pub exchange_sort-Ascending :
        (n : ℕ) (xs : List (D × ℕ))
        → length xs ≤ n
        → HaveNumbers xs
        → Apart xs
        → Ascending (exchange_sort n xs)
    unfolding exchange_sort
    exchange_sort-Ascending zero [] h ns apart = tt
    exchange_sort-Ascending zero (x ∷ xs) h ns apart = absurd (omega arith)
    exchange_sort-Ascending (suc n) [] h ns apart = tt
    exchange_sort-Ascending (suc n) (x ∷ xs) h (m, ns) apart =
        let rest = (exchange_pass x xs).1 in
        let (low, below, rest_apart) = exchange_pass-IsLeast x xs m ns apart in
        let numbers = exchange_pass-All (λ z. IsNumber z.0) x xs m ns in
        (
          exchange_sort-All (λ y. ((exchange_pass x xs).0.0 ≺ y.0) ≡ true) n rest below,
          exchange_sort-Ascending n rest (omega (arith, length-exchange_pass x xs)) numbers.1
              rest_apart,
        )
