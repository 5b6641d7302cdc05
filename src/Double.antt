-- ===== src/Double.antt =====
-- What the program does with a `double`: an interface that every module over floating-point values
-- takes as an instance argument, with `qsort` on an array of them. IEEE arithmetic and the C library
-- are not modelled; a theorem that needs a fact about them names that fact. `lit a b` is the literal
-- a/b, so 0.02 is `lit 2 100`.
use mathlib.Core.List.{Perm}
use serv_mark.Base.Sorting.{IsComparator, InOrder, insertion_sort, insertion_sort-InOrder}
use serv_mark.Base.{
  List, All, ℕ, ◌+◌, ◌*◌, ◌/◌, ◌≡◌, ◌⊎◌, Bool, true, false, not, ◌&&◌, ◌||◌, ◌==◌, Option, none,
  some, arith, ℤ, pos, pos_part, neg_part, sub_ℕ, leb_ℤ, ltb_ℤ, ◌+ℤ◌, ◌-ℤ◌, if◌then◌else◌,
}

pub record Double (D : Type 0) : Type 0 where
  pub lit : ℕ → ℕ → D
  pub of_int : ℤ → D
  pub add : D → D → D
  pub sub : D → D → D
  pub mul : D → D → D
  pub div : D → D → D
  pub lt : D → D → Bool
  pub le : D → D → Bool
  pub eq : D → D → Bool
  pub sqrt : D → D
  pub fabs : D → D
  pub log : D → D
  pub exp : D → D
  pub qsort : (D → D → ℤ) → List D → List D

-- Operators of the source, for an instance in scope. `a > b` is `b ≺ a`.
infixl 65 ◌⊕◌ ◌⊖◌
infixl 70 ◌⊗◌ ◌⊘◌
infix 50 ◌≺◌ ◌≼◌
abbrev pub ◌⊕◌ : {D : Type 0} ⦃d : Double D⦄ → D → D → D
◌⊕◌ ⦃d⦄ = d.add

abbrev pub ◌⊖◌ : {D : Type 0} ⦃d : Double D⦄ → D → D → D
◌⊖◌ ⦃d⦄ = d.sub

abbrev pub ◌⊗◌ : {D : Type 0} ⦃d : Double D⦄ → D → D → D
◌⊗◌ ⦃d⦄ = d.mul

abbrev pub ◌⊘◌ : {D : Type 0} ⦃d : Double D⦄ → D → D → D
◌⊘◌ ⦃d⦄ = d.div

abbrev pub ◌≺◌ : {D : Type 0} ⦃d : Double D⦄ → D → D → Bool
◌≺◌ ⦃d⦄ = d.lt

abbrev pub ◌≼◌ : {D : Type 0} ⦃d : Double D⦄ → D → D → Bool
◌≼◌ ⦃d⦄ = d.le

abbrev pub nought : {D : Type 0} ⦃d : Double D⦄ → D
nought ⦃d⦄ = d.lit 0 1

abbrev pub one : {D : Type 0} ⦃d : Double D⦄ → D
one ⦃d⦄ = d.lit 1 1

-- A value that is `<=` itself: every double but NaN.
abbrev pub IsNumber : {D : Type 0} ⦃d : Double D⦄ → D → Type 0
IsNumber ⦃d⦄ x = d.le x x ≡ true

-- What IEEE comparisons promise, and `qsort`. Away from NaN the order is total, and `<` is its strict
-- part; a list without NaN is rearranged into the order of any comparator that is consistent.
pub record IsOrdered (D : Type 0) ⦃d : Double D⦄ : Type 0 where
  pub left_number : (x y : D) → (x ≼ y) ≡ true → IsNumber x
  pub right_number : (x y : D) → (x ≼ y) ≡ true → IsNumber y
  pub le_trans : (x y z : D) → (x ≼ y) ≡ true → (y ≼ z) ≡ true → (x ≼ z) ≡ true
  pub le_total : (x y : D) → IsNumber x → IsNumber y → ((x ≼ y) ≡ true) ⊎ ((y ≼ x) ≡ true)
  pub lt-eq-not-le : (x y : D) → IsNumber x → IsNumber y → (x ≺ y) ≡ not (y ≼ x)
  pub lit_number : (a b : ℕ) → IsNumber (d.lit a b)
  pub sorts :
      (compare : D → D → ℤ)
      → IsComparator (λ x. IsNumber x) compare
      → (xs : List D) → All (λ x. IsNumber x) xs
      → InOrder compare (d.qsort compare xs) × Perm (d.qsort compare xs) xs

-- The laws can be met: thousandths, with `none` for NaN.
abbrev pub Milli : Type 0
Milli = Option ℤ

abbrev pub lift_test : (ℤ → ℤ → Bool) → Milli → Milli → Bool
lift_test f (some a) (some b) = f a b
lift_test f _ _ = false

abbrev pub lift_two : (ℤ → ℤ → ℤ) → Milli → Milli → Milli
lift_two f (some a) (some b) = some (f a b)
lift_two f _ _ = none

abbrev pub lift_one : (ℤ → ℤ) → Milli → Milli
lift_one f (some a) = some (f a)
lift_one f none = none

-- The quotient of the sizes under the sign of the product.
abbrev pub signed : ℤ → ℤ → ℕ → ℤ
signed a b n =
    if (neg_part a == 0 && neg_part b == 0) || (pos_part a == 0 && pos_part b == 0)
    then pos n
    else sub_ℕ 0 n

abbrev pub size : ℤ → ℕ
size a = pos_part a + neg_part a

abbrev pub divided : Milli → Milli → Milli
divided (some a) (some b) = if size b == 0 then none else some (signed a b (size a * 1000 / size b))
divided _ _ = none

instance abbrev pub milli_double : Double Milli
milli_double = record {
  lit = λ a b. some (pos (a * 1000 / b));
  of_int = λ a. some (sub_ℕ (pos_part a * 1000) (neg_part a * 1000));
  add = lift_two ◌+ℤ◌;
  sub = lift_two ◌-ℤ◌;
  mul = lift_two (λ a b. signed a b (size a * size b / 1000));
  div = divided;
  lt = lift_test ltb_ℤ;
  le = lift_test leb_ℤ;
  eq = lift_test (λ a b. leb_ℤ a b && leb_ℤ b a);
  sqrt = λ x. x;
  fabs = lift_one (λ a. pos (size a));
  log = λ x. x;
  exp = λ x. x;
  qsort = λ compare xs. insertion_sort compare xs;
}

pub Milli-IsOrdered : IsOrdered Milli
Milli-IsOrdered = record {
  left_number = λ x y. ground arith;
  right_number = λ x y. ground arith;
  le_trans = λ x y z. ground arith;
  le_total = λ x y. ground arith;
  lt-eq-not-le = λ x y. ground arith;
  lit_number = λ a b. ground arith;
  sorts = λ compare laws xs ns. insertion_sort-InOrder compare (λ x. IsNumber x) laws xs ns;
}
