-- ===== src/Base/Scan.antt =====
-- Reading text the way the C library does: `atoi`, `sscanf` with "%d" and "%d-%d", `strtok`, and
-- the lines that `fgets` yields. A number is read exactly: what overflow does in C is left out.
use serv_mark.Base.Chars.{Text, is_space, is_digit, drop_while}
use serv_mark.Base.Int.{ℤ, pos, sub_ℕ}
use serv_mark.Base.Lists.{keep}
use serv_mark.Base.Tests.{◌==◌, leb, if◌then◌else◌}
use Prim.Native.Nat.{ℕ, ◌+◌, ◌-◌, ◌*◌}
use mathlib.Core.Bool.{Bool, true, false, ◌||◌}
use mathlib.Core.List.{List, [], ◌∷◌}
use mathlib.Core.Option.{Option, none, some}

-- The digits at the head of a text, after the value that is read so far, and what follows them.
unfoldable pub digits_from : ℕ → Text → ℕ × Text
digits_from acc [] = (acc, [])
digits_from acc (c ∷ cs) =
    let rest = digits_from (acc * 10 + (c - b'0')) cs in if is_digit c then rest else (acc, c ∷ cs)

-- At least one digit.
unfoldable pub scan_nat : Text → Option (ℕ × Text)
unfolding digits_from
scan_nat [] = none
scan_nat (c ∷ cs) = if is_digit c then some (digits_from 0 (c ∷ cs)) else none

abbrev pub signed_by : Bool → Option (ℕ × Text) → Option (ℤ × Text)
signed_by minus none = none
signed_by minus (some (n, rest)) = some (if minus then sub_ℕ 0 n else pos n, rest)

abbrev pub scan_sign : Text → Option (ℤ × Text)
scan_sign [] = none
scan_sign (c ∷ cs) =
    if c == b'-'
    then signed_by true (scan_nat cs)
    else if c == b'+'
    then signed_by false (scan_nat cs)
    else signed_by false (scan_nat (c ∷ cs))

-- "%d", and `strtol` in base ten: the number and what follows it.
unfoldable pub scan_int : Text → Option (ℤ × Text)
unfolding scan_nat
scan_int s = scan_sign (drop_while is_space s)

unfoldable pub atoi : Text → ℤ
unfolding scan_int
atoi s = elim (scan_int s) [ none ↦ pos 0 | some (n, rest) ↦ n ]

-- What `sscanf` finds with "%d-%d", or else with "%d".
pub data Scanned : Type 0 where
  range : ℤ → ℤ → Scanned
  single : ℤ → Scanned
  nothing : Scanned

abbrev pub scan_upper : ℤ → Option (ℤ × Text) → Scanned
scan_upper start none = single start
scan_upper start (some (end, rest)) = range start end

abbrev pub scan_dash : ℤ → Text → Scanned
scan_dash start [] = single start
scan_dash start (c ∷ cs) = if c == b'-' then scan_upper start (scan_int cs) else single start

unfoldable pub scan_range : Text → Scanned
unfolding scan_int
scan_range s = elim (scan_int s) [ none ↦ nothing | some (start, rest) ↦ scan_dash start rest ]

abbrev pub onto_head : ℕ → List Text → List Text
onto_head c [] = (c ∷ []) ∷ []
onto_head c (t ∷ ts) = (c ∷ t) ∷ ts

-- The pieces between the delimiters, the empty ones too.
unfoldable pub fields : (ℕ → Bool) → Text → List Text
fields delimiter [] = [] ∷ []
fields delimiter (c ∷ cs) =
    let rest = fields delimiter cs in if delimiter c then [] ∷ rest else onto_head c rest

abbrev pub nonempty : Text → Bool
nonempty [] = false
nonempty (c ∷ cs) = true

-- All that repeated calls of `strtok` return.
unfoldable pub tokens : (ℕ → Bool) → Text → List Text
unfolding fields
tokens delimiter s = keep nonempty (fields delimiter s)

-- The lines that `fgets` yields with room for `cap` characters, `room` of them left on the line.
unfoldable pub lines_from : ℕ → ℕ → Text → List Text
lines_from cap room [] = []
lines_from cap room (c ∷ cs) =
    let full = (c == 10) || leb room 1 in
    let rest = lines_from cap (if full then cap else room - 1) cs in
    if full then (c ∷ []) ∷ rest else onto_head c rest

-- `while (fgets(line, size, f))`
unfoldable pub fgets_lines : ℕ → Text → List Text
unfolding lines_from
fgets_lines size s = lines_from (size - 1) (size - 1) s
