-- ===== src/Output/Uuid.antt =====
-- The form of an identifier.
use serv_mark.Base.{
  ℕ, ◌+◌, ◌/◌, ◌%◌, ◌≡◌, Bool, true, false, ◌&&◌, ◌||◌, Option, none, some, List, [], ◌∷◌, ◌==◌,
  leb, Bool-cases, inl, inr, arith, refl, if◌then◌else◌, Text, codes, length, hex_digit,
}
use serv_mark.Output.{hex_digits, hex_bytes, uuid_of_bytes, uuid_of_rand, output_generate_uuid}

abbrev pub is_hex : ℕ → Bool
is_hex c = (leb b'0' c && leb c b'9') || (leb b'a' c && leb c b'f')

-- In a form, x is a digit of base sixteen, V is one of 8, 9, a and b, and all else is itself.
abbrev pub fits : ℕ → ℕ → Bool
fits p c =
    if p == b'x'
    then is_hex c
    else if p == b'V'
    then (c == b'8') || (c == b'9') || (c == b'a') || (c == b'b')
    else c == p

abbrev pub has_form : Text → Text → Bool
has_form [] [] = true
has_form [] (c ∷ cs) = false
has_form (p ∷ ps) [] = false
has_form (p ∷ ps) (c ∷ cs) = fits p c && has_form ps cs

abbrev pub uuid_form : Text
uuid_form = codes "xxxxxxxx-xxxx-4xxx-Vxxx-xxxxxxxxxxxx"

hex_digit-is_hex : (n : ℕ) → is_hex (hex_digit (n % 16)) ≡ true
hex_digit-is_hex n = ground arith

version_digit : (n : ℕ) → hex_digit ((n % 16 + 64) / 16 % 16) ≡ b'4'
version_digit n = ground arith

variant_digit : (n : ℕ) → fits b'V' (hex_digit ((n % 64 + 128) / 16 % 16)) ≡ true
variant_digit n = ground arith

uuid_of_bytes-form : (r : List ℕ) → has_form uuid_form (uuid_of_bytes r) ≡ true
unfolding uuid_of_bytes hex_bytes hex_digits
uuid_of_bytes-form r = simp (hex_digit-is_hex, version_digit, variant_digit) refl

version_digit_rand : (n : ℕ) → hex_digit ((n % 4096 + 16384) / 16 / 16 / 16 % 16) ≡ b'4'
version_digit_rand n = ground arith

variant_digit_rand :
    (n : ℕ) → fits b'V' (hex_digit ((n % 16384 + 32768) / 16 / 16 / 16 % 16)) ≡ true
variant_digit_rand n = ground arith

uuid_of_rand-form : (v : List ℕ) → has_form uuid_form (uuid_of_rand v) ≡ true
unfolding uuid_of_rand hex_digits
uuid_of_rand-form v = simp (hex_digit-is_hex, version_digit_rand, variant_digit_rand) refl

-- Whatever was read of /dev/urandom and whatever `rand` returns, the identifier has 36 characters in
-- the form of a UUID of version 4: dashes at 8, 13, 18 and 23, the digit 4 at 14, one of 8, 9, a and b
-- at 19, and digits of base sixteen elsewhere.
pub output_generate_uuid-form :
    (random : Option (List ℕ)) (v : List ℕ)
    → has_form uuid_form (output_generate_uuid random v) ≡ true
unfolding output_generate_uuid
output_generate_uuid-form none v = uuid_of_rand-form v
output_generate_uuid-form (some r) v = elim (Bool-cases (length r == 16)) [
  | inl enough ↦ rw (output_generate_uuid, enough) (uuid_of_bytes-form r)
  | inr short ↦ rw (output_generate_uuid, short) (uuid_of_rand-form v)
]
