-- ===== src/Reference/RoundTrip.antt =====
-- A reference file that `main` writes is read back entry by entry.
use mathlib.Core.List.{append_assoc}
use serv_mark.Base.{
  ℕ, ◌≡◌, ◌<◌, ◌+◌, Option, none, some, List, [], ◌∷◌, ◌++◌, arith, refl, ap, sym, ◌∙◌, Text,
  length, Bool, true, false, ◌==◌, if◌then◌else◌, All, All-append, Lacks, map, codes, is_blank,
  drop_while, drop_while_end, split_at, split_at-append, length-append, lacks, lacks-Lacks, ◌≢◌,
}
use serv_mark.Reference.{
  entry_of, is_trailing, trim_end, scoring_load_reference, line_size, render_lines, reference_file,
  measured,
}
use serv_mark.Base.Fgets.{with_newline}
use serv_mark.Base.Scan.{fgets_lines}
use serv_mark.Reference.Lines.{
  entries, entries_none, entries_found, entries_skipped, scoring_load_reference_lem, join, Fits,
  fgets_lines-join,
}
use serv_mark.Result.{Subtest}

-- A benchmark's name that a line can carry: not empty, no '=' and no newline in it, no '#' or blank in
-- front and no blank at the end.
abbrev pub IsName : Text → Type 0
IsName [] = ⊥
IsName (c ∷ cs) =
    (is_blank c ≡ false)
    × ((c == b'#') ≡ false)
    × Lacks b'=' (c ∷ cs)
    × Lacks 10 (c ∷ cs)
    × (drop_while_end is_trailing cs ≡ cs)

drop_while_end-append :
    (p : ℕ → Bool) (s : Text) (c : ℕ)
    → p c ≡ true
    → drop_while_end p (s ++ (c ∷ [])) ≡ drop_while_end p s
drop_while_end-append p [] c h = ground arith
drop_while_end-append p (x ∷ xs) c h = rw (drop_while_end-append p xs c h) refl

entry_of-append :
    (name value : Text)
    → IsName name
    → entry_of (name ++ (b' ' ∷ b'=' ∷ value)) ≡ some (name ++ (b' ' ∷ []), value)
unfolding entry_of
entry_of-append [] value h = absurd h
entry_of-append (c ∷ cs) value (solid, mark, no_equals, no_newline, tight) =
    let found : split_at b'=' ((c ∷ cs) ++ (b' ' ∷ b'=' ∷ value))
        ≡ some ((c ∷ cs) ++ (b' ' ∷ []), value) =
      ap (split_at b'=') (sym (append_assoc (c ∷ cs) (b' ' ∷ []) (b'=' ∷ value)))
      ∙ split_at-append b'=' ((c ∷ cs) ++ (b' ' ∷ [])) value
          (All-append (λ x. (x == b'=') ≡ false) (c ∷ cs) (b' ' ∷ []) no_equals (refl, tt)) in
    rw solid (rw (mark, no_newline.0) found)

trim_end-name :
    (name : Text) → IsName name → trim_end (drop_while is_blank (name ++ (b' ' ∷ []))) ≡ name
trim_end-name [] h = absurd h
trim_end-name (c ∷ cs) (solid, mark, no_equals, no_newline, tight) =
    rw solid (ap (◌∷◌ c) (drop_while_end-append is_trailing cs b' ' refl ∙ tight))

module _ {D : Type 0} (atof : Text → D) (format_mean : D → Text) where
  -- What the loader reads where the program wrote this mean.
  abbrev pub reread : Text × D → Text × D
  reread (name, mean) = (name, atof ((b' ' ∷ format_mean mean) ++ (10 ∷ [])))

  -- An entry that the file can carry.
  pub record IsWritable (e : Text × D) : Type 0 where
    pub name_ok : IsName e.0
    pub value_line : Lacks 10 (format_mean e.1)
    pub fits : length e.0 + length (format_mean e.1) + 3 < 511

  abbrev entry_line : Text × D → Text
  entry_line (name, mean) = name ++ (b' ' ∷ b'=' ∷ b' ' ∷ format_mean mean)

  IsName-Lacks : (name : Text) → IsName name → Lacks 10 name
  IsName-Lacks [] h = tt
  IsName-Lacks (c ∷ cs) (solid, mark, no_equals, no_newline, tight) = no_newline

  entry_line-Fits : (e : Text × D) → IsWritable e → Fits 511 (entry_line e)
  entry_line-Fits (name, mean) w = record {
    one_line =
        All-append (λ x. (x == 10) ≡ false) name (b' ' ∷ b'=' ∷ b' ' ∷ format_mean mean)
          (IsName-Lacks name w.name_ok) (refl, (refl, (refl, w.value_line)));
    short = omega (arith, length-append name (b' ' ∷ b'=' ∷ b' ' ∷ format_mean mean), w.fits);
  }

  entries-line :
      (e : Text × D) (rest : List Text)
      → IsWritable e
      → entries atof (with_newline (entry_line e) ∷ rest) ≡ reread e ∷ entries atof rest
  entries-line (name, mean) rest w =
      entries_found atof _ rest (
        ap entry_of (append_assoc name (b' ' ∷ b'=' ∷ b' ' ∷ format_mean mean) (10 ∷ []))
        ∙ entry_of-append name ((b' ' ∷ format_mean mean) ++ (10 ∷ [])) w.name_ok)
      ∙ rw (trim_end-name name w.name_ok) refl

  entries_written :
      (es : List (Text × D))
      → All (λ e. IsWritable e) es
      → entries atof (map with_newline (map entry_line es)) ≡ map reread es
  entries_written [] h = entries_none atof
  entries_written (e ∷ es) (h, hs) =
      entries-line e (map with_newline (map entry_line es)) h
      ∙ ap (◌∷◌ (reread e)) (entries_written es hs)

  render_lines-join :
      (es : List (Text × D)) → render_lines format_mean es ≡ join (map entry_line es)
  render_lines-join [] = refl
  render_lines-join ((name, mean) ∷ es) = simp append_assoc (rw (render_lines-join es) refl)

  lines_fit :
      (es : List (Text × D)) → All (λ e. IsWritable e) es → All (Fits 511) (map entry_line es)
  lines_fit [] h = tt
  lines_fit (e ∷ es) (h, hs) = (entry_line-Fits e h, lines_fit es hs)

  abbrev pub stamp_line : Text → Text
  stamp_line stamp =
      codes "# ServMark reference baseline " ++ ((226 ∷ 128 ∷ 148 ∷ codes " generated ") ++ stamp)

  abbrev pub path_line : Text → Text
  path_line path = codes "# Use with: ./servmark --reference " ++ path

  abbrev file_lines : Text → Text → List (Text × D) → List Text
  file_lines stamp path es =
      stamp_line stamp
      ∷ []
      ∷ codes "# Format: benchmark_name = baseline_value"
      ∷ path_line path
      ∷ []
      ∷ map entry_line es

  reference_file-join :
      {W : Type 0} (stamp path : Text) (subtests : List (Subtest D W))
      → reference_file format_mean (with_newline stamp) path subtests
        ≡ join (file_lines stamp path (measured subtests))
  unfolding reference_file
  reference_file-join stamp path subtests =
      simp append_assoc (rw (render_lines-join (measured subtests)) refl)

  entries_file :
      (stamp path : Text) (es : List (Text × D))
      → All (λ e. IsWritable e) es
      → entries atof (map with_newline (file_lines stamp path es)) ≡ map reread es
  unfolding entry_of
  entries_file stamp path es h =
      entries_skipped atof _ _ refl
      ∙ entries_skipped atof _ _ refl
      ∙ entries_skipped atof _ _ refl
      ∙ entries_skipped atof _ _ refl
      ∙ entries_skipped atof _ _ refl
      ∙ entries_written es h

  -- The lines of the header that hold a text from outside are each one line, shorter than the
  -- loader's buffer with its newline.
  pub record IsHeader (stamp path : Text) : Type 0 where
    pub stamp_line_ok : Lacks 10 stamp
    pub stamp_short : length (stamp_line stamp) < 511
    pub path_line_ok : Lacks 10 path
    pub path_short : length (path_line path) < 511

  stamp_size :
      (stamp : Text)
      → length (stamp_line stamp) < 511
      → length (
          (codes "# ServMark reference baseline " ++ (226 ∷ 128 ∷ 148 ∷ codes " generated "))
          ++ stamp)
        < 511
  stamp_size stamp h = h

  headed :
      (front text : Text)
      → lacks 10 front ≡ true
      → Lacks 10 text
      → length (front ++ text) < 511
      → Fits 511 (front ++ text)
  headed front text f t h = record {
    one_line = All-append (λ x. (x == 10) ≡ false) front text (lacks-Lacks 10 front f) t;
    short = h;
  }

  -- The arrays and the count.
  abbrev counted : List (Text × D) → Option (List (Text × D) × ℕ)
  counted es = some (es, length es)

  nonempty_lem :
      (es : List (Text × D))
      → es ≢ []
      → (if length (map reread es) == 0 then none else counted (map reread es))
        ≡ counted (map reread es)
  nonempty_lem [] ne = absurd (ne refl)
  nonempty_lem (e ∷ es) ne = ground arith

  file_lines_fit :
      (stamp path : Text) (es : List (Text × D))
      → IsHeader stamp path
      → All (λ e. IsWritable e) es
      → All (Fits 511) (file_lines stamp path es)
  file_lines_fit stamp path es h w = (
    headed (codes "# ServMark reference baseline " ++ (226 ∷ 128 ∷ 148 ∷ codes " generated ")) stamp
        refl h.stamp_line_ok (stamp_size stamp h.stamp_short),
    (
      record { one_line = tt; short = omega arith },
      (
        record {
          one_line = lacks-Lacks 10 (codes "# Format: benchmark_name = baseline_value") refl;
          short = omega arith;
        },
        (
          headed (codes "# Use with: ./servmark --reference ") path refl h.path_line_ok
              h.path_short,
          (record { one_line = tt; short = omega arith }, lines_fit es w),
        ),
      ),
    ),
  )

  -- The reference file that a run writes with at least one measured benchmark is accepted by the
  -- loader, which returns the measured benchmarks in order under their own names, each with the value
  -- that `atof` reads from the mean as it was printed. A name is not empty and holds no '=' or
  -- newline, no '#' or blank in front and no blank at its end; the other texts stay on one line; and
  -- every line has fewer than 511 characters before its newline.
  pub scoring_load_reference-reference_file :
      {W : Type 0} (stamp path : Text) (subtests : List (Subtest D W))
      → IsHeader stamp path
      → All (λ e. IsWritable e) (measured subtests)
      → measured subtests ≢ []
      → scoring_load_reference atof true
          (some (reference_file format_mean (with_newline stamp) path subtests))
        ≡ some (map reread (measured subtests), length (map reread (measured subtests)))
  scoring_load_reference-reference_file stamp path subtests h w ne =
      let lines = file_lines stamp path (measured subtests) in
      let read : entries atof (fgets_lines line_size (join lines))
          ≡ map reread (measured subtests) =
        ap (entries atof)
          (fgets_lines-join lines (file_lines_fit stamp path (measured subtests) h w))
        ∙ entries_file stamp path (measured subtests) w in
      rw (reference_file-join stamp path subtests) (
        scoring_load_reference_lem atof (join lines)
        ∙ rw read (nonempty_lem (measured subtests) ne))
