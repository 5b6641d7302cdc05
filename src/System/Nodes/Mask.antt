-- ===== src/System/Nodes/Mask.antt =====
-- The CPUs that a cpumap counts.
use native.Mathlib.Nat.{zero-div}
use serv_mark.Base.{
  ℕ, zero, suc, ◌+◌, ◌*◌, ◌-◌, ◌^◌, ◌≡◌, ◌≤◌, ◌<◌, Bool, false, List, [], ◌∷◌, ◌++◌, ◌==◌, arith,
  refl, ap, ◌∙◌, sym, All, All-append, Lacks, length, map, hex_digit, lt→ltb, Text, is_space,
  drop_while_end,
}
use serv_mark.Base.Fgets.{with_newline}
use serv_mark.Base.Scan.{fields, tokens}
use serv_mark.Base.Strtoul.{value_from, strtoul, has_prefix}
use serv_mark.System.Lines.{first_line-line}
use serv_mark.System.Nodes.{set_bits, group_bits, cpu_count_in, is_line_end}
use serv_mark.System.Nodes.Bits.{digits_bits, IsHex, digit_value-hex_digit, room, value_from-bits}

-- One to eight digits.
abbrev pub IsGroup : List ℕ → Type 0
IsGroup ds = (1 ≤ length ds) × (length ds ≤ 8) × All IsHex ds

-- What `n` digits can write when the bound so far is `m`.
abbrev bound : ℕ → ℕ → ℕ
bound zero m = m
bound (suc n) m = bound n (m * 16)

bound-le : (n m : ℕ) → m ≤ bound n m
bound-le zero m = omega arith
bound-le (suc n) m = omega (arith, bound-le n (m * 16))

value_from-bound :
    (n : ℕ) (ds : List ℕ) (acc m : ℕ)
    → All IsHex ds
    → length ds ≤ n
    → acc < m
    → value_from 16 acc (map hex_digit ds) < bound n m
unfolding value_from
value_from-bound n [] acc m h k l = omega (arith, bound-le n m)
value_from-bound zero (d ∷ ds) acc m h k l = absurd (omega arith)
value_from-bound (suc n) (d ∷ ds) acc m (h, hs) k l =
    rw (digit_value-hex_digit d h, lt→ltb d 16 h)
      (value_from-bound n ds (acc * 16 + d) (m * 16) hs (omega arith) (omega arith))

-- Missing digits in front are zeros.
set_bits-zero : (b n : ℕ) → set_bits 0 b n ≡ 0
unfolding set_bits
set_bits-zero b zero = refl
set_bits-zero b (suc n) = rw (zero-div (2 ^ b)) (omega (arith, set_bits-zero (suc b) n))

room_lem : (ds : List ℕ) (k : ℕ) → room ds k ≡ k + 4 * length ds
room_lem [] k = omega arith
room_lem (d ∷ ds) k = omega (arith, room_lem ds (suc (suc (suc (suc k)))))

digits-bits :
    (ds : List ℕ) → IsGroup ds → set_bits (value_from 16 0 (map hex_digit ds)) 0 32 ≡ digits_bits ds
digits-bits ds (some_digit, few, hex) =
    let k = 32 - 4 * length ds in
    let whole : room ds k ≡ 32 = omega (arith, room_lem ds k) in
    let counted = value_from-bits ds 0 k hex in
    let zeros = set_bits-zero 0 k in
    sym (ap (set_bits (value_from 16 0 (map hex_digit ds)) 0) whole)
    ∙ counted
    ∙ omega (arith, zeros)

IsPlain : ℕ → Type 0
IsPlain c =
    (is_space c ≡ false)
    × ((c == b'-') ≡ false)
    × ((c == b'+') ≡ false)
    × ((c == b'x') ≡ false)
    × ((c == b'X') ≡ false)
    × ((c == b',') ≡ false)
    × (is_line_end c ≡ false)

hex_digit-IsPlain : (d : ℕ) → IsHex d → IsPlain (hex_digit d)
unfolding IsPlain
hex_digit-IsPlain d h = ground arith

has_prefix-digits : (ds : List ℕ) → All IsHex ds → has_prefix (map hex_digit ds) ≡ false
unfolding IsPlain
has_prefix-digits [] h = refl
has_prefix-digits (d ∷ []) h = ground arith
has_prefix-digits (d ∷ e ∷ ds) (_, (h, _)) =
    let (_, _, _, small, large, _, _) = hex_digit-IsPlain e h in ground arith

strtoul-digits :
    (ds : List ℕ) → IsGroup ds → strtoul 16 (map hex_digit ds) ≡ value_from 16 0 (map hex_digit ds)
unfolding strtoul IsPlain
strtoul-digits [] (some_digit, few, hex) = absurd (omega arith)
strtoul-digits (d ∷ ds) (some_digit, few, (h, hs)) =
    let (space, minus, plus, _, _, _, _) = hex_digit-IsPlain d h in
    let small = value_from-bound 8 (d ∷ ds) 0 1 (h, hs) few (omega arith) in
    let bare = has_prefix-digits (d ∷ ds) (h, hs) in
    rw
      (
        strtoul,
        space,
        minus,
        plus,
        bare,
        lt→ltb (value_from 16 0 (map hex_digit (d ∷ ds))) (2 ^ 64) (omega (arith, small)),
      )
      refl

-- The groups with commas between them, as the kernel prints a mask.
abbrev pub mask_text : List (List ℕ) → Text
mask_text [] = []
mask_text (ds ∷ []) = map hex_digit ds
mask_text (ds ∷ es ∷ groups) = map hex_digit ds ++ (b',' ∷ mask_text (es ∷ groups))

abbrev pub mask_count : List (List ℕ) → ℕ
mask_count [] = 0
mask_count (ds ∷ groups) = digits_bits ds + mask_count groups

abbrev is_comma : ℕ → Bool
is_comma c = c == b','

fields-one : (s : Text) → Lacks b',' s → fields is_comma s ≡ s ∷ []
unfolding fields
fields-one [] h = refl
fields-one (c ∷ cs) (h, hs) = rw (h, fields-one cs hs) refl

fields-more :
    (s t : Text) → Lacks b',' s → fields is_comma (s ++ (b',' ∷ t)) ≡ s ∷ fields is_comma t
unfolding fields
fields-more [] t h = refl
fields-more (c ∷ cs) t (h, hs) = rw (h, fields-more cs t hs) refl

digits-Lacks : (ds : List ℕ) → All IsHex ds → Lacks b',' (map hex_digit ds)
unfolding IsPlain
digits-Lacks [] h = tt
digits-Lacks (d ∷ ds) (h, hs) = ((hex_digit-IsPlain d h).5, digits-Lacks ds hs)

tokens-mask :
    (groups : List (List ℕ))
    → All IsGroup groups
    → tokens is_comma (mask_text groups) ≡ map (map hex_digit) groups
unfolding tokens fields
tokens-mask [] h = refl
tokens-mask ([] ∷ groups) ((some_digit, few, hex), hs) = absurd (omega arith)
tokens-mask ((d ∷ ds) ∷ []) ((_, _, hex), hs) =
    rw (tokens, fields-one (map hex_digit (d ∷ ds)) (digits-Lacks (d ∷ ds) hex)) refl
tokens-mask ((d ∷ ds) ∷ es ∷ groups) ((_, _, hex), hs) =
    let later = tokens-mask (es ∷ groups) hs in
    rw
      (
        tokens,
        fields-more (map hex_digit (d ∷ ds)) (mask_text (es ∷ groups)) (digits-Lacks (d ∷ ds) hex),
      )
      (ap (λ r. map hex_digit (d ∷ ds) ∷ r) later)

group_bits-mask :
    (groups : List (List ℕ))
    → All IsGroup groups
    → group_bits (map (map hex_digit) groups) ≡ mask_count groups
group_bits-mask [] h = refl
group_bits-mask (ds ∷ groups) (h, hs) =
    rw (strtoul-digits ds h, digits-bits ds h)
      (ap (λ r. digits_bits ds + r) (group_bits-mask groups hs))

-- No character of the mask ends a line.
abbrev NoEnd : Text → Type 0
NoEnd = All (λ c. is_line_end c ≡ false)

digits-NoEnd : (ds : List ℕ) → All IsHex ds → NoEnd (map hex_digit ds)
unfolding IsPlain
digits-NoEnd [] h = tt
digits-NoEnd (d ∷ ds) (h, hs) = ((hex_digit-IsPlain d h).6, digits-NoEnd ds hs)

mask_text-NoEnd : (groups : List (List ℕ)) → All IsGroup groups → NoEnd (mask_text groups)
mask_text-NoEnd [] h = tt
mask_text-NoEnd (ds ∷ []) ((_, _, hex), hs) = digits-NoEnd ds hex
mask_text-NoEnd (ds ∷ es ∷ groups) ((_, _, hex), hs) =
    All-append (λ c. is_line_end c ≡ false) (map hex_digit ds) (b',' ∷ mask_text (es ∷ groups))
      (digits-NoEnd ds hex) (refl, mask_text-NoEnd (es ∷ groups) hs)

drop_while_end-NoEnd : (s : Text) → NoEnd s → drop_while_end is_line_end (s ++ (10 ∷ [])) ≡ s
drop_while_end-NoEnd [] h = refl
drop_while_end-NoEnd (c ∷ []) (h, hs) = rw h refl
drop_while_end-NoEnd (c ∷ x ∷ xs) (h, hs) = rw (drop_while_end-NoEnd (x ∷ xs) hs) refl

NoEnd-Lacks : (s : Text) → NoEnd s → Lacks 10 s
NoEnd-Lacks [] h = tt
NoEnd-Lacks (c ∷ cs) (h, hs) = (ground arith, NoEnd-Lacks cs hs)

-- A cpumap of groups of one to eight digits, with commas between them and the end of the line behind
-- them, that fits the buffer: the count is that of the bits of all its digits.
pub cpu_count_in-mask :
    (groups : List (List ℕ))
    → All IsGroup groups
    → length (mask_text groups) + 1 < 1024
    → cpu_count_in (with_newline (mask_text groups)) ≡ mask_count groups
unfolding cpu_count_in
cpu_count_in-mask groups h short =
    let plain = mask_text-NoEnd groups h in
    let whole =
      first_line-line 1024 (mask_text groups) (NoEnd-Lacks (mask_text groups) plain) short in
    rw (cpu_count_in, whole, drop_while_end-NoEnd (mask_text groups) plain, tokens-mask groups h)
      (group_bits-mask groups h)
