-- ===== src/Reference.antt =====
-- The reference baseline file: `scoring_load_reference` (src/core/scoring.c) reads it, and the end of
-- `main` (src/main.c) writes it. A file is the text that it holds, without NUL bytes.
pub mod Lines
pub mod RoundTrip
use serv_mark.Base.{
  ℕ, suc, zero, ◌+◌, Bool, true, false, not, ◌||◌, ltb, ◌==◌, Option, none, some, List, [], ◌∷◌,
  ◌++◌, if◌then◌else◌, Text, codes, is_blank, drop_while, drop_while_end, split_at, length,
}
use serv_mark.Base.Scan.{fgets_lines}
use serv_mark.Result.{Subtest}

abbrev pub line_size : ℕ
line_size = 512

-- `*p == '#' || *p == '\n' || *p == '\0'`
abbrev pub is_skipped : Text → Bool
is_skipped [] = true
is_skipped (c ∷ cs) = (c == b'#') || (c == 10)

-- What both passes look for on a line: the texts before and after the first '='.
unfoldable pub entry_of : Text → Option (Text × Text)
entry_of line = let p = drop_while is_blank line in if is_skipped p then none else split_at b'=' p

-- The first pass.
unfoldable pub count_entries : List Text → ℕ
count_entries [] = 0
count_entries (line ∷ rest) = elim (entry_of line) [
  | none ↦ count_entries rest
  | some e ↦ suc (count_entries rest)
]

abbrev pub is_trailing : ℕ → Bool
is_trailing c = is_blank c || (c == 10)

-- `while (ne > name && …)`: the first character stays.
abbrev pub trim_end : Text → Text
trim_end [] = []
trim_end (c ∷ cs) = c ∷ drop_while_end is_trailing cs

module _ {D : Type 0} (atof : Text → D) where
  -- `(*names)[idx]` and `(*baselines)[idx]`
  abbrev pub parsed : Text × Text → Text × D
  parsed (before, value) = (trim_end (drop_while is_blank before), atof value)

  -- The second pass, with room for `n` more entries.
  unfoldable pub parse_entries : ℕ → List Text → List (Text × D)
  parse_entries n [] = []
  parse_entries zero (line ∷ rest) = []
  parse_entries (suc n) (line ∷ rest) = elim (entry_of line) [
    | none ↦ parse_entries (suc n) rest
    | some e ↦ parsed e ∷ parse_entries n rest
  ]

  -- `none` is -1: no file, no entry, or no memory. The list is the two arrays, and its length stands
  -- beside the count that the function stores.
  unfoldable pub scoring_load_reference : Bool → Option Text → Option (List (Text × D) × ℕ)
  unfolding count_entries parse_entries
  scoring_load_reference allocated none = none
  scoring_load_reference allocated (some file) =
      let lines = fgets_lines line_size file in
      let n = count_entries lines in
      if n == 0 then none else if not allocated then none else some (parse_entries n lines, n)

-- `if (stats.iterations > 0)`
unfoldable pub measured : {D W : Type 0} → List (Subtest D W) → List (Text × D)
measured [] = []
measured (sr ∷ rest) =
    let more = measured rest in
    if ltb 0 sr.stats.iterations then (sr.bench.name, sr.stats.mean) ∷ more else more

module _ {D : Type 0} (format_mean : D → Text) where
  -- `"%s = %.6f\n"`
  abbrev pub reference_line : Text × D → Text
  reference_line (name, mean) = name ++ codes " = " ++ format_mean mean ++ (10 ∷ [])

  abbrev pub render_lines : List (Text × D) → Text
  render_lines [] = []
  render_lines (e ∷ es) = reference_line e ++ render_lines es

  -- `ctime` is the text of the start time with its newline, `path` the name of the file.
  unfoldable pub reference_file : {W : Type 0} → Text → Text → List (Subtest D W) → Text
  reference_file ctime path subtests =
      codes "# ServMark reference baseline "
      ++ ((226 ∷ 128 ∷ 148 ∷ codes " generated ")
          ++ (ctime
              ++ ((10 ∷ codes "# Format: benchmark_name = baseline_value")
                  ++ ((10 ∷ codes "# Use with: ./servmark --reference ")
                      ++ (path ++ (10 ∷ 10 ∷ render_lines (measured subtests)))))))
