-- ===== src/Reference/Lines.antt =====
-- The loader's two passes agree, and `fgets` takes a file apart at its newlines.
use serv_mark.Base.Fgets.{with_newline, lines_from-line}
use serv_mark.Base.Scan.{lines_from, fgets_lines}
use serv_mark.Base.{
  ℕ, zero, suc, ◌≡◌, ◌≤◌, ◌<◌, none, some, List, [], ◌∷◌, ◌++◌, arith, refl, ap, ◌∙◌, Text, length,
  true, ◌==◌, if◌then◌else◌, All, Lacks, map,
}
use serv_mark.Reference.{
  entry_of, count_entries, parsed, parse_entries, scoring_load_reference, line_size,
}

module _ {D : Type 0} (atof : Text → D) where
  -- The entries of the lines, in one pass and with no bound.
  pub entries : List Text → List (Text × D)
  entries [] = []
  entries (line ∷ rest) = elim (entry_of line) [
    | none ↦ entries rest
    | some e ↦ parsed atof e ∷ entries rest
  ]

  pub entries_none : entries [] ≡ []
  unfolding entries
  entries_none = refl

  pub entries_found :
      (line : Text) {e : Text × Text} (rest : List Text)
      → entry_of line ≡ some e
      → entries (line ∷ rest) ≡ parsed atof e ∷ entries rest
  unfolding entries
  entries_found line rest h = rw (h, entries) refl

  pub entries_skipped :
      (line : Text) (rest : List Text) → entry_of line ≡ none → entries (line ∷ rest) ≡ entries rest
  unfolding entries
  entries_skipped line rest h = rw (h, entries) refl

  count_entries-length : (lines : List Text) → length (entries lines) ≡ count_entries lines
  unfolding entries count_entries
  count_entries-length [] = refl
  count_entries-length (line ∷ rest) = ground (arith, count_entries-length rest)

  nil_of_length : (es : List (Text × D)) → length es ≤ 0 → [] ≡ es
  nil_of_length [] h = refl
  nil_of_length (e ∷ es) h = absurd (omega arith)

  parse_entries-enough :
      (n : ℕ) (lines : List Text)
      → count_entries lines ≤ n
      → parse_entries atof n lines ≡ entries lines
  unfolding parse_entries entries count_entries
  parse_entries-enough n [] h = ground arith
  parse_entries-enough zero (line ∷ rest) h =
      nil_of_length (entries (line ∷ rest)) (omega (arith, count_entries-length (line ∷ rest)))
  parse_entries-enough (suc n) (line ∷ rest) h =
      ground (arith, parse_entries-enough n rest, parse_entries-enough (suc n) rest)

  -- Whatever the file holds, the loader refuses it exactly if no line of it is an entry, and else
  -- returns every entry in order: the arrays that the first pass sizes are filled to the end by the
  -- second, and the count that is stored is the number of entries that are set.
  pub scoring_load_reference_lem :
      (file : Text)
      → let es = entries (fgets_lines line_size file) in
        scoring_load_reference atof true (some file)
        ≡ (if length es == 0 then none else some (es, length es))
  unfolding scoring_load_reference
  scoring_load_reference_lem file =
      let lines = fgets_lines line_size file in
      rw
        (
          parse_entries-enough (count_entries lines) lines (omega arith),
          ← count_entries-length lines,
        )
        refl

-- Lines, each with a newline behind it.
abbrev pub join : List Text → Text
join [] = []
join (l ∷ ls) = l ++ (10 ∷ join ls)

-- A line that `fgets` reads in one piece.
pub record Fits (cap : ℕ) (l : Text) : Type 0 where
  pub one_line : Lacks 10 l
  pub short : length l < cap

lines_from-join :
    (cap : ℕ) (ls : List Text)
    → All (Fits cap) ls
    → lines_from cap cap (join ls) ≡ map with_newline ls
unfolding lines_from
lines_from-join cap [] h = refl
lines_from-join cap (l ∷ ls) (h, hs) =
    lines_from-line cap cap l (join ls) h.one_line h.short
    ∙ ap (◌∷◌ (with_newline l)) (lines_from-join cap ls hs)

-- Lines that fit the buffer come back one by one.
pub fgets_lines-join :
    (ls : List Text) → All (Fits 511) ls → fgets_lines line_size (join ls) ≡ map with_newline ls
unfolding fgets_lines
fgets_lines-join ls h = lines_from-join 511 ls h
