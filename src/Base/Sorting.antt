-- ===== src/Base/Sorting.antt =====
-- `qsort` of stdlib.h: what its documentation promises, and a sort that keeps the promise. A
-- comparator's result is a number below, at or above zero, as its first argument comes before, beside or
-- after its second.
use mathlib.Core.Bool.{Bool-set}
use mathlib.Core.List.Perm
use mathlib.Core.List.{Perm, Permᴰ}
use mathlib.Core.Logic.{∥∥₁_elim}
use native.Mathlib.Nat.{ℕ_set}
use serv_mark.Base.{
  suc, ◌≡◌, Bool, true, false, ◌&&◌, inl, inr, List, [], ◌∷◌, arith, refl, ap, ◌∙◌, ℤ, pos,
  positive, ltb_ℤ, All, length, if◌then◌else◌, Bool-cases,
}

abbrev pub negative : ℤ → Bool
negative n = ltb_ℤ n (pos 0)

module _ {A : Type 0} where
  -- What `qsort` asks of its comparator on the values of `P`: an argument comes after the other exactly
  -- if the other comes before it, and what does not come after goes on in a row.
  pub record IsComparator (P : A → Type 0) (compare : A → A → ℤ) : Type 0 where
    pub opposite : (x y : A) → P x → P y → positive (compare x y) ≡ negative (compare y x)
    pub chain :
        (x y z : A)
        → P x
        → P y
        → P z
        → positive (compare x y) ≡ false
        → positive (compare y z) ≡ false
        → positive (compare x z) ≡ false

  -- No value comes after a later one.
  abbrev pub InOrder : (A → A → ℤ) → List A → Type 0
  InOrder compare [] = Unit
  InOrder compare (x ∷ xs) = All (λ y. positive (compare x y) ≡ false) xs × InOrder compare xs

  length-Permᴰ : {a b : List A} → Permᴰ a b → length a ≡ length b
  length-Permᴰ Permᴰ.nil = refl
  length-Permᴰ (Permᴰ.cons _ p) = ap suc (length-Permᴰ p)
  length-Permᴰ (Permᴰ.swap _ _) = refl
  length-Permᴰ (Permᴰ.trans p q) = length-Permᴰ p ∙ length-Permᴰ q

  pub length-perm : {a b : List A} → Perm a b → length a ≡ length b
  length-perm p = ∥∥₁_elim p (ℕ_set _ _) length-Permᴰ

  every : (A → Bool) → List A → Bool
  every t [] = true
  every t (x ∷ xs) = t x && every t xs

  every-Permᴰ : (t : A → Bool) {a b : List A} → Permᴰ a b → every t a ≡ every t b
  unfolding every
  every-Permᴰ t Permᴰ.nil = refl
  every-Permᴰ t (Permᴰ.cons e p) = rw (e, every-Permᴰ t p) refl
  every-Permᴰ t (Permᴰ.swap e f) = rw (e, f) (ground arith)
  every-Permᴰ t (Permᴰ.trans p q) = every-Permᴰ t p ∙ every-Permᴰ t q

  every-All : (t : A → Bool) (xs : List A) → every t xs ≡ true → All (λ x. t x ≡ true) xs
  unfolding every
  every-All t [] h = tt
  every-All t (x ∷ xs) h = ground (arith, every-All t xs)

  All-every : (t : A → Bool) (xs : List A) → All (λ x. t x ≡ true) xs → every t xs ≡ true
  unfolding every
  All-every t [] h = refl
  All-every t (x ∷ xs) (h, hs) = ground (arith, All-every t xs hs)

  -- What all values pass, all pass when they are rearranged.
  pub All-perm :
      (t : A → Bool) {a b : List A} → Perm a b → All (λ x. t x ≡ true) b → All (λ x. t x ≡ true) a
  All-perm t {a} {b} p h =
      every-All t a
        (∥∥₁_elim p (Bool-set (every t a) (every t b)) (every-Permᴰ t) ∙ All-every t b h)

module _ {A : Type 0} (compare : A → A → ℤ) where
  put_in : A → List A → List A
  put_in x [] = x ∷ []
  put_in x (y ∷ ys) =
      let rest = put_in x ys in if positive (compare x y) then y ∷ rest else x ∷ y ∷ ys

  -- A sort that does what is asked of `qsort`.
  unfoldable pub insertion_sort : List A → List A
  unfolding put_in
  insertion_sort [] = []
  insertion_sort (x ∷ xs) = put_in x (insertion_sort xs)

  put_in-perm : (x : A) (xs : List A) → Perm (put_in x xs) (x ∷ xs)
  unfolding put_in
  put_in-perm x [] = Perm.refl (x ∷ [])
  put_in-perm x (y ∷ ys) = elim (Bool-cases (positive (compare x y))) [
    | inl later ↦ rw later (Perm.trans (Perm.cons y (put_in-perm x ys)) (Perm.swap x y ys))
    | inr first ↦ rw first (Perm.refl (x ∷ y ∷ ys))
  ]

  insertion_sort-perm : (xs : List A) → Perm (insertion_sort xs) xs
  unfolding insertion_sort
  insertion_sort-perm [] = Perm.refl []
  insertion_sort-perm (x ∷ xs) =
      Perm.trans (put_in-perm x (insertion_sort xs)) (Perm.cons x (insertion_sort-perm xs))

  put_in-All : (P : A → Type 0) (x : A) (xs : List A) → P x → All P xs → All P (put_in x xs)
  unfolding put_in
  put_in-All P x [] p ps = (p, tt)
  put_in-All P x (y ∷ ys) p (q, qs) = ground (arith, put_in-All P x ys p qs)

  insertion_sort-All : (P : A → Type 0) (xs : List A) → All P xs → All P (insertion_sort xs)
  unfolding insertion_sort
  insertion_sort-All P [] ps = tt
  insertion_sort-All P (x ∷ xs) (p, ps) =
      put_in-All P x (insertion_sort xs) p (insertion_sort-All P xs ps)

  not_both : (n : ℤ) → positive n ≡ true → negative n ≡ false
  not_both n h = ground arith

  module _ (P : A → Type 0) (laws : IsComparator P compare) where
    below_chain :
        (x y : A) (ys : List A)
        → P x
        → P y
        → All P ys
        → positive (compare x y) ≡ false
        → All (λ z. positive (compare y z) ≡ false) ys
        → All (λ z. positive (compare x z) ≡ false) ys
    below_chain x y [] p q ps first below = tt
    below_chain x y (z ∷ zs) p q (r, ps) first (b, below) =
        (laws.chain x y z p q r first b, below_chain x y zs p q ps first below)

    put_in-InOrder :
        (x : A) (xs : List A) → P x → All P xs → InOrder compare xs → InOrder compare (put_in x xs)
    unfolding put_in
    put_in-InOrder x [] p ps s = (tt, tt)
    put_in-InOrder x (y ∷ ys) p (q, ps) (below, s) = elim (Bool-cases (positive (compare x y))) [
      | inl later ↦ rw later (
        put_in-All (λ z. positive (compare y z) ≡ false) x ys
            (laws.opposite y x q p ∙ not_both (compare x y) later) below,
        put_in-InOrder x ys p ps s,
      )
      | inr first ↦ rw first ((first, below_chain x y ys p q ps first below), (below, s))
    ]

    in_order : (xs : List A) → All P xs → InOrder compare (insertion_sort xs)
    unfolding insertion_sort
    in_order [] ps = tt
    in_order (x ∷ xs) (p, ps) =
        put_in-InOrder x (insertion_sort xs) p (insertion_sort-All P xs ps) (in_order xs ps)

    -- On values of `P` the sort rearranges the list so that no value comes after a later one.
    pub insertion_sort-InOrder :
        (xs : List A) → All P xs → InOrder compare (insertion_sort xs) × Perm (insertion_sort xs) xs
    insertion_sort-InOrder xs ps = (in_order xs ps, insertion_sort-perm xs)
