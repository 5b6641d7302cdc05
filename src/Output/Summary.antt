-- ===== src/Output/Summary.antt =====
-- `output_terminal_summary`. The lines of the frame are bytes of UTF-8.
use serv_mark.Base.{
  ℕ, zero, suc, ◌-◌, ◌/◌, ◌%◌, List, [], ◌∷◌, ◌++◌, if◌then◌else◌, ℤ, pos, negsuc, sub_ℕ, ◌-ℤ◌,
  Text, codes, length, replicate,
}
use serv_mark.Double.{Double, ◌⊗◌, ◌≺◌, nought}
use serv_mark.Output.{Printf, RunResult, version, line, by_mode}

abbrev pub bar : Text
bar = 226 ∷ 149 ∷ 145 ∷ []

abbrev pub bars : ℕ → Text
bars zero = []
bars (suc n) = 226 ∷ 149 ∷ 144 ∷ bars n

-- A line of the frame, by the last bytes of its corners.
abbrev pub frame : ℕ → ℕ → Text
frame left right = line ((226 ∷ 149 ∷ left ∷ bars 62) ++ (226 ∷ 149 ∷ right ∷ []))

-- "%-Ns"
abbrev pub pad_right : ℕ → Text → Text
pad_right width s = s ++ replicate (width - length s) b' '

-- "%02d" of what "%d" makes.
abbrev pub two_digits : Text → Text
two_digits s = replicate (2 - length s) b'0' ++ s

-- `elapsed / 60` and `elapsed % 60`, which round towards zero.
abbrev pub minutes : ℤ → ℤ
minutes (pos n) = pos (n / 60)
minutes (negsuc n) = sub_ℕ 0 (suc n / 60)

abbrev pub seconds : ℤ → ℤ
seconds (pos n) = pos (n % 60)
seconds (negsuc n) = sub_ℕ 0 (suc n % 60)

-- A text between two bars, with blanks before the second.
abbrev pub row : Text → ℕ → Text
row s blanks = line (bar ++ s ++ replicate blanks b' ' ++ bar)

module _ {D : Type 0} ⦃d : Double D⦄ (printf : Printf D) where
  -- The loop over the categories, at number `i`.
  unfoldable pub category_rows : ℕ → List D → Text
  category_rows i [] = []
  category_rows i (x ∷ xs) =
      let rest = category_rows (suc i) xs in
      if nought ≺ x
      then row
          (codes "  C" ++ pad_right 2 (printf.decimal (pos i)) ++ codes ": " ++ printf.fixed 2 x) 47
        ++ rest
      else rest

module _ {D W : Type 0} ⦃d : Double D⦄ (printf : Printf D) where
  unfoldable pub output_terminal_summary : RunResult D W → Text
  unfolding category_rows
  output_terminal_summary result =
      let elapsed = result.end_time -ℤ result.start_time in
      line []
      ++ frame 148 151
      ++ row (codes "  ServMark " ++ pad_right 48 version) 1
      ++ row
          (codes "  Mode: "
            ++ pad_right 6 (by_mode result.mode (codes "peak") (codes "sustained"))
            ++ codes "    Elapsed: "
            ++ printf.decimal (minutes elapsed)
            ++ codes "m"
            ++ two_digits (printf.decimal (seconds elapsed))
            ++ codes "s")
          26
      ++ frame 160 163
      ++ row (codes "  Overall:     " ++ printf.fixed 2 result.overall_score) 41
      ++ row (codes "  Throughput:  " ++ printf.fixed 2 result.pillar_throughput) 41
      ++ row (codes "  Latency:     " ++ printf.fixed 2 result.pillar_latency) 41
      ++ row (codes "  Efficiency:  " ++ printf.fixed 2 result.pillar_efficiency) 41
      ++ frame 160 163
      ++ row
          (codes "  Mitigation Tax: "
            ++ printf.fixed 1 (result.mitigation_tax_pct ⊗ d.lit 100 1)
            ++ codes "%    Thermal Derating: "
            ++ printf.fixed 1 (result.thermal_derating_factor ⊗ d.lit 100 1)
            ++ codes "%")
          10
      ++ frame 160 163
      ++ category_rows printf 0 result.category_scores
      ++ frame 154 157
      ++ line []
