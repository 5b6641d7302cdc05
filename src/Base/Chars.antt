-- ===== src/Base/Chars.antt =====
-- C strings as lists of character codes, with the end of the list in place of the NUL byte:
-- `strcmp`, `strncmp`, `strchr`, `strstr` and the loops that skip or trim characters.
use Prim.Native.Char.{code}
use Prim.Native.Nat.{ℕ, ◌+◌, ◌-◌}
use Prim.Native.String.{String}
use mathlib.Core.Path.{◌≡◌, refl}
use mathlib.Core.Logic.{◌↔◌}
use mathlib.Core.Bool.{Bool, true, false, not, ◌&&◌, ◌||◌}
use mathlib.Core.Option.{Option, none, some}
use mathlib.Core.List.{List, [], ◌∷◌, ◌++◌}
use native.Mathlib.Omega.{arith}
use serv_mark.Base.Tests.{◌==◌, leb, ltb, if◌then◌else◌}
use serv_mark.Base.Lists.{All}

abbrev pub Text : Type 0
Text = List ℕ

-- The code points of a literal: its bytes, if it is ASCII.
abbrev pub codes : String → Text
codes String.[] = []
codes (String.◌∷◌ c s) = code c ∷ codes s

-- `strcmp(a, b) == 0`
abbrev pub text_eq : Text → Text → Bool
text_eq [] [] = true
text_eq [] (y ∷ ys) = false
text_eq (x ∷ xs) [] = false
text_eq (x ∷ xs) (y ∷ ys) = (x == y) && text_eq xs ys

-- `strncmp(s, p, strlen(p)) == 0`
abbrev pub starts_with : Text → Text → Bool
starts_with s [] = true
starts_with [] (y ∷ ys) = false
starts_with (x ∷ xs) (y ∷ ys) = (x == y) && starts_with xs ys

-- `strstr(s, p) != NULL`
abbrev pub contains : Text → Text → Bool
contains [] p = starts_with [] p
contains (x ∷ xs) p = starts_with (x ∷ xs) p || contains xs p

-- `strchr(s, c)`: what stands before the first `c` and behind it.
abbrev pub split_at : ℕ → Text → Option (Text × Text)
split_at c [] = none
split_at c (x ∷ xs) =
    if x == c
    then some ([], xs)
    else elim (split_at c xs) [ none ↦ none | some (before, after) ↦ some (x ∷ before, after) ]

-- `while (test(*p)) p++;`
abbrev pub drop_while : (ℕ → Bool) → Text → Text
drop_while p [] = []
drop_while p (x ∷ xs) = if p x then drop_while p xs else x ∷ xs

-- The text with the characters at its end that pass the test cut off.
abbrev pub drop_while_end : (ℕ → Bool) → Text → Text
drop_while_end p [] = []
drop_while_end p (x ∷ xs) = elim (drop_while_end p xs) [
  | [] ↦ if p x then [] else x ∷ []
  | y ∷ ys ↦ x ∷ y ∷ ys
]

-- `c == ' ' || c == '\t'`
abbrev pub is_blank : ℕ → Bool
is_blank c = (c == b' ') || (c == 9)

-- `isspace`: space, and \t \n \v \f \r.
abbrev pub is_space : ℕ → Bool
is_space c = (c == b' ') || (leb 9 c && leb c 13)

abbrev pub is_digit : ℕ → Bool
is_digit c = leb b'0' c && leb c b'9'

-- The digits 0-9 and a-f of base sixteen.
abbrev pub hex_digit : ℕ → ℕ
hex_digit d = if ltb d 10 then b'0' + d else b'a' + (d - 10)

pub text_eq_iff : (a b : Text) → (text_eq a b ≡ true) ↔ (a ≡ b)
text_eq_iff [] [] = ground arith
text_eq_iff [] (y ∷ ys) = ground arith
text_eq_iff (x ∷ xs) [] = ground arith
text_eq_iff (x ∷ xs) (y ∷ ys) = ground (arith, text_eq_iff xs ys)

pub text_eq_refl : (a : Text) → text_eq a a ≡ true
text_eq_refl a = (text_eq_iff a a).1 refl

-- A character that a text does not hold.
abbrev pub Lacks : ℕ → Text → Type 0
Lacks c = All (λ x. (x == c) ≡ false)

pub split_at-append : (c : ℕ) (s t : Text) → Lacks c s → split_at c (s ++ c ∷ t) ≡ some (s, t)
split_at-append c [] t h = ground arith
split_at-append c (x ∷ xs) t (h, hs) = ground (arith, split_at-append c xs t hs)

pub split_at-none : (c : ℕ) (s : Text) → Lacks c s → split_at c s ≡ none
split_at-none c [] h = refl
split_at-none c (x ∷ xs) (h, hs) = ground (arith, split_at-none c xs hs)

-- The same, as a test.
abbrev pub lacks : ℕ → Text → Bool
lacks c [] = true
lacks c (x ∷ xs) = not (x == c) && lacks c xs

pub lacks-Lacks : (c : ℕ) (s : Text) → lacks c s ≡ true → Lacks c s
lacks-Lacks c [] h = tt
lacks-Lacks c (x ∷ xs) h = ground (arith, lacks-Lacks c xs)
