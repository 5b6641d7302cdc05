-- ===== src/Base/Member.antt =====
-- Membership as a predicate by recursion, which the tactics take apart.
use mathlib.Core.Bool.{Bool, true}
use mathlib.Core.List.{List, [], ◌∷◌, ◌++◌}
use mathlib.Core.Logic.{◌⊎◌, inl, inr}
use mathlib.Core.Path.{◌≡◌, ◌∙◌, sym, ap, subst}
use native.Mathlib.Omega.{arith}
use serv_mark.Base.Lists.{keep, All}

module _ {A : Type 0} where
  abbrev pub Member : A → List A → Type 0
  Member a [] = ⊥
  Member a (x ∷ xs) = (a ≡ x) ⊎ Member a xs

  pub Member-keep :
      (p : A → Bool) (a : A) (xs : List A) → Member a xs → p a ≡ true → Member a (keep p xs)
  Member-keep p a [] h t = absurd h
  Member-keep p a (x ∷ xs) (inl e) t = let passes : p x ≡ true = ap p (sym e) ∙ t in ground arith
  Member-keep p a (x ∷ xs) (inr m) t = ground (arith, Member-keep p a xs m t)

  pub keep-Member : (p : A → Bool) (a : A) (xs : List A) → Member a (keep p xs) → Member a xs
  keep-Member p a [] h = absurd h
  keep-Member p a (x ∷ xs) h = ground (arith, keep-Member p a xs)

  pub Member-All {κ} : (P : A → Type κ) (a : A) (xs : List A) → All P xs → Member a xs → P a
  Member-All P a [] h m = absurd m
  Member-All P a (x ∷ xs) (h, hs) (inl e) = subst P (sym e) h
  Member-All P a (x ∷ xs) (h, hs) (inr m) = Member-All P a xs hs m

  pub Member-append_left : (a : A) (xs ys : List A) → Member a xs → Member a (xs ++ ys)
  Member-append_left a [] ys m = absurd m
  Member-append_left a (x ∷ xs) ys (inl e) = inl e
  Member-append_left a (x ∷ xs) ys (inr m) = inr (Member-append_left a xs ys m)

  pub Member-append_right : (a : A) (xs ys : List A) → Member a ys → Member a (xs ++ ys)
  Member-append_right a [] ys m = m
  Member-append_right a (x ∷ xs) ys m = inr (Member-append_right a xs ys m)
