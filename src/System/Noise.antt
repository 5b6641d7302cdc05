-- ===== src/System/Noise.antt =====
-- `system_noise_snapshot` and `system_noise_delta`. A value is read exactly; `int64_t` does not
-- overflow here.
pub mod Snapshot
use serv_mark.Base.{
  ℕ, zero, suc, ◌+◌, Bool, true, false, Option, none, some, List, [], ◌∷◌, ◌==◌, if◌then◌else◌, ℤ,
  pos, ◌-ℤ◌, ltb_ℤ, Text, codes, split_at, drop_while, replicate, pos_part, min,
}
use serv_mark.Base.Scan.{atoi}
use serv_mark.Double.{Double, ◌⊖◌, nought}
use serv_mark.System.{Files, proc_stat, first_line, system_read_proc_int}

-- `noise_snapshot_t`; the list is the array of 16.
pub record Noise (D : Type 0) : Type 0 where
  pub interrupts_total : ℤ
  pub context_switches : ℤ
  pub temperature_c : List D
  pub temperature_count : ℤ

abbrev pub after_space : Option (Text × Text) → Option Text
after_space none = none
after_space (some (before, after)) = some (drop_while (λ c. c == b' ') after)

-- The loop that passes `n` fields; `none` is a null pointer.
unfoldable pub skip_fields : ℕ → Text → Option Text
skip_fields zero p = some p
skip_fields (suc n) p = elim (after_space (split_at b' ' p)) [
  | none ↦ none
  | some rest ↦ skip_fields n rest
]

abbrev pub line_of : Option Text → Option Text
line_of none = none
line_of (some content) = first_line 1024 content

module _ {D : Type 0} ⦃d : Double D⦄ where
  -- What `memset` leaves.
  abbrev pub no_noise : Noise D
  no_noise = record {
    interrupts_total = pos 0;
    context_switches = pos 0;
    temperature_c = replicate 16 nought;
    temperature_count = pos 0;
  }

  abbrev pub switches_at : Option Text → Noise D
  switches_at none = no_noise
  switches_at (some p) = record no_noise { context_switches = atoi p }

  abbrev pub from_line : Option Text → Noise D
  from_line none = no_noise
  from_line (some line) = switches_at (skip_fields 10 line)

  unfoldable pub system_noise_snapshot : Files → Noise D
  unfolding skip_fields
  system_noise_snapshot files = elim (system_read_proc_int files proc_stat) [
    | none ↦ no_noise
    | some val ↦ from_line (line_of (files proc_stat))
  ]

  -- The loop over the temperatures, `n` of them left; the rest of `delta` stays as it was.
  unfoldable pub subtract_first : ℕ → List D → List D → List D → List D
  subtract_first zero before after delta = delta
  subtract_first (suc n) (b ∷ bs) (a ∷ as') (x ∷ xs) = (a ⊖ b) ∷ subtract_first n bs as' xs
  subtract_first (suc n) before after delta = delta

  -- `*delta` on return, from what it was.
  unfoldable pub system_noise_delta : Noise D → Noise D → Noise D → Noise D
  unfolding subtract_first
  system_noise_delta before after delta =
      let tc =
        if ltb_ℤ after.temperature_count before.temperature_count
        then after.temperature_count
        else before.temperature_count in
      record {
        interrupts_total = after.interrupts_total -ℤ before.interrupts_total;
        context_switches = after.context_switches -ℤ before.context_switches;
        temperature_c =
            subtract_first (min 16 (pos_part tc)) before.temperature_c after.temperature_c
              delta.temperature_c;
        temperature_count = before.temperature_count;
      }
