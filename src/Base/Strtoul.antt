-- ===== src/Base/Strtoul.antt =====
-- `strtoul` and `strtoull` of 64 bits in base ten or sixteen.
use Prim.Native.Nat.{ℕ, ◌+◌, ◌-◌, ◌*◌, ◌^◌, ◌%◌}
use mathlib.Core.Bool.{Bool, true, false, ◌&&◌, ◌||◌}
use mathlib.Core.List.{[], ◌∷◌}
use serv_mark.Base.Chars.{Text, codes, is_space, is_digit, drop_while, starts_with}
use serv_mark.Base.Lists.{drop}
use serv_mark.Base.Tests.{◌==◌, leb, ltb, if◌then◌else◌}

-- 99 is no digit of any base.
abbrev pub digit_value : ℕ → ℕ
digit_value c =
    if is_digit c
    then c - b'0'
    else if leb b'a' c && leb c b'z'
    then c - b'a' + 10
    else if leb b'A' c && leb c b'Z'
    then c - b'A' + 10
    else 99

-- The digits at the head of a text, after the value that is read so far.
unfoldable pub value_from : ℕ → ℕ → Text → ℕ
value_from base acc [] = acc
value_from base acc (c ∷ cs) =
    let rest = value_from base (acc * base + digit_value c) cs in
    if ltb (digit_value c) base then rest else acc

abbrev pub has_prefix : Text → Bool
has_prefix s = starts_with s (codes "0x") || starts_with s (codes "0X")

-- A prefix with no digit behind it is the number 0 too.
abbrev pub magnitude : ℕ → Text → ℕ
magnitude base s = value_from base 0 (if (base == 16) && has_prefix s then drop 2 s else s)

-- ULONG_MAX when the number is too large.
abbrev pub with_sign : Bool → ℕ → ℕ
with_sign minus v =
    if ltb v (2 ^ 64) then (if minus then (2 ^ 64 - v) % 2 ^ 64 else v) else 2 ^ 64 - 1

abbrev pub strtoul_sign : ℕ → Text → ℕ
strtoul_sign base [] = 0
strtoul_sign base (c ∷ cs) =
    if c == b'-'
    then with_sign true (magnitude base cs)
    else if c == b'+'
    then with_sign false (magnitude base cs)
    else with_sign false (magnitude base (c ∷ cs))

unfoldable pub strtoul : ℕ → Text → ℕ
unfolding value_from
strtoul base s = strtoul_sign base (drop_while is_space s)
