-- ===== src/System/Nodes/Bits.antt =====
-- The bits of a number that is written in digits of base sixteen.
use native.Mathlib.Nat.{div-div-eq-div-mul, two-pow-succ}
use serv_mark.Base.{
  ℕ, zero, suc, ◌+◌, ◌*◌, ◌/◌, ◌%◌, ◌^◌, ◌≡◌, ◌<◌, List, [], ◌∷◌, arith, refl, ap, ◌∙◌, sym, All,
  map, hex_digit, lt→ltb,
}
use serv_mark.Base.Strtoul.{digit_value, value_from}
use serv_mark.System.Nodes.{set_bits}

-- The bits of one digit that are set.
abbrev pub digit_bits : ℕ → ℕ
digit_bits d = d % 2 + d / 2 % 2 + d / 4 % 2 + d / 8 % 2

abbrev pub digits_bits : List ℕ → ℕ
digits_bits [] = 0
digits_bits (d ∷ ds) = digit_bits d + digits_bits ds

abbrev pub IsHex : ℕ → Type 0
IsHex d = d < 16

pub digit_value-hex_digit : (d : ℕ) → IsHex d → digit_value (hex_digit d) ≡ d
digit_value-hex_digit d h = ground arith

four_more : (b : ℕ) → 2 ^ suc (suc (suc (suc b))) ≡ 16 * 2 ^ b
four_more b = omega (
  arith,
  two-pow-succ b,
  two-pow-succ (suc b),
  two-pow-succ (suc (suc b)),
  two-pow-succ (suc (suc (suc b))),
)

shift_bits : (v b n : ℕ) → set_bits v (suc (suc (suc (suc b)))) n ≡ set_bits (v / 16) b n
unfolding set_bits
shift_bits v b zero = refl
shift_bits v b (suc n) =
    let here : v / 2 ^ suc (suc (suc (suc b))) ≡ v / 16 / 2 ^ b =
      ap (λ m. v / m) (four_more b) ∙ sym (div-div-eq-div-mul v 16 (2 ^ b)) in
    rw here (ap (λ r. v / 16 / 2 ^ b % 2 + r) (shift_bits v (suc b) n))

digit_set_bits :
    (acc d k : ℕ)
    → IsHex d
    → set_bits (acc * 16 + d) 0 (suc (suc (suc (suc k)))) ≡ digit_bits d + set_bits acc 0 k
unfolding set_bits
digit_set_bits acc d k h =
    let high : set_bits (acc * 16 + d) 4 k ≡ set_bits acc 0 k =
      shift_bits (acc * 16 + d) 0 k ∙ ap (λ v. set_bits v 0 k) (omega arith) in
    omega (arith, high)

-- Four more places for each digit.
abbrev pub room : List ℕ → ℕ → ℕ
room [] k = k
room (d ∷ ds) k = room ds (suc (suc (suc (suc k))))

pub value_from-bits :
    (ds : List ℕ) (acc k : ℕ)
    → All IsHex ds
    → set_bits (value_from 16 acc (map hex_digit ds)) 0 (room ds k)
      ≡ digits_bits ds + set_bits acc 0 k
unfolding value_from
value_from-bits [] acc k h = omega arith
value_from-bits (d ∷ ds) acc k (h, hs) =
    let step = digit_set_bits acc d k h in
    let rest = value_from-bits ds (acc * 16 + d) (suc (suc (suc (suc k)))) hs in
    rw (digit_value-hex_digit d h, lt→ltb d 16 h) (omega (arith, step, rest))
