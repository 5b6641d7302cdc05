-- ===== src/Output/Array.antt =====
-- The subtests as a JSON array, and the lines of the JSON file.
use serv_mark.Base.{
  ℕ, suc, ◌+◌, ◌-◌, ◌≡◌, Bool, true, false, List, [], ◌∷◌, ◌++◌, ltb, arith, refl, ap,
  if◌then◌else◌, Text, codes, length, map,
}
use serv_mark.Output.{Printf, line, subtest_fields, subtests_from}
use serv_mark.Result.{Subtest}

-- The texts with a comma and the end of the line between them, and the end of the line behind them.
abbrev pub array_text : List Text → Text
array_text [] = []
array_text (t ∷ []) = line t
array_text (t ∷ u ∷ ts) = line (t ++ codes ",") ++ array_text (u ∷ ts)

append_nil : (t : Text) → t ++ [] ≡ t
append_nil [] = refl
append_nil (c ∷ cs) = ap (λ r. c ∷ r) (append_nil cs)

last_one : (count i : ℕ) → i + 1 ≡ count → ltb i (count - 1) ≡ false
last_one count i h = ground arith

not_last : (count i n : ℕ) → i + suc (suc n) ≡ count → ltb i (count - 1) ≡ true
not_last count i n h = ground arith

-- What the loop prints for a text, and for it alone when it is the last.
abbrev item : Text → Bool → Text → Text
item t more rest = line (t ++ (if more then codes "," else [])) ++ rest

item-last : (t : Text) (more : Bool) → more ≡ false → item t more [] ≡ line t
item-last t more h = rw (h, append_nil t) (append_nil (line t))

item-more :
    (t : Text) (more : Bool) {r s : Text}
    → more ≡ true
    → r ≡ s
    → item t more r ≡ line (t ++ codes ",") ++ s
item-more t more h e = rw h (ap (λ r. line (t ++ codes ",") ++ r) e)

module _ {D W : Type 0} (printf : Printf D) where
  subtests_from-array :
      (count i : ℕ) (subtests : List (Subtest D W))
      → i + length subtests ≡ count
      → subtests_from printf count i subtests ≡ array_text (map (subtest_fields printf) subtests)
  unfolding subtests_from
  subtests_from-array count i [] h = refl
  subtests_from-array count i (sr ∷ []) h =
      item-last (subtest_fields printf sr) (ltb i (count - 1)) (last_one count i h)
  subtests_from-array count i (sr ∷ sr' ∷ rest) h =
      item-more (subtest_fields printf sr) (ltb i (count - 1)) (not_last count i (length rest) h)
        (subtests_from-array count (suc i) (sr' ∷ rest) (omega arith))

  -- The subtests of the report are a JSON array: a comma stands behind every one but the last.
  pub subtests_from-whole :
      (subtests : List (Subtest D W))
      → subtests_from printf (length subtests) 0 subtests
        ≡ array_text (map (subtest_fields printf) subtests)
  subtests_from-whole subtests = subtests_from-array (length subtests) 0 subtests (omega arith)
