-- ===== src/Tests/Reference.antt =====
use serv_mark.Base.{
  ℕ, ◌≡◌, true, none, some, List, [], ◌∷◌, refl, arith, map, codes, Text, pos, length, lacks-Lacks,
  if◌then◌else◌, ◌==◌,
}
use serv_mark.Base.Fgets.{with_newline}
use serv_mark.Base.Scan.{fgets_lines, atoi}
use serv_mark.Double.{Milli}
use serv_mark.Reference.Lines.{entries, scoring_load_reference_lem}
use serv_mark.Reference.RoundTrip.{IsWritable, reread, scoring_load_reference-reference_file}
use serv_mark.Reference.{scoring_load_reference, reference_file, measured, entry_of, line_size}
use serv_mark.Result.{Subtest}
use serv_mark.Tests.Samples.{milli, subtest}

abbrev results : List (Subtest Milli ℕ)
results =
    subtest (codes "int-hash") (codes "C1") 3000 10 5
    ∷ subtest (codes "vm-detect") (codes "C14") 0 0 0
    ∷ subtest (codes "mem-stream") (codes "C4") 12000 10 5
    ∷ []

-- Whole numbers stand in for the printed means.
abbrev as_text : Milli → Text
as_text none = codes "nan"
as_text (some x) = codes "3.0"

abbrev read_number : Text → Milli
read_number s = some (atoi s)

abbrev file : Text
file = codes "# baseline\n\n  int-hash = 3\nno entry\nmem-stream  =\t12\n"

loads :
    scoring_load_reference read_number true (some file)
    ≡ some ((codes "int-hash", some (pos 3)) ∷ (codes "mem-stream", some (pos 12)) ∷ [], 2)
unfolding scoring_load_reference entry_of fgets_lines atoi
loads = refl

refuses : scoring_load_reference read_number true (some (codes "# nothing\n")) ≡ none
unfolding scoring_load_reference entry_of fgets_lines
refuses = refl

scoring_load_reference_lem_example :
    let es = entries read_number (fgets_lines line_size file) in
    scoring_load_reference read_number true (some file)
    ≡ (if length es == 0 then none else some (es, length es))
scoring_load_reference_lem_example = scoring_load_reference_lem read_number file

int_hash_written : IsWritable read_number as_text (codes "int-hash", milli 3000)
int_hash_written = record {
  name_ok = (
    refl,
    refl,
    lacks-Lacks b'=' (codes "int-hash") refl,
    lacks-Lacks 10 (codes "int-hash") refl,
    refl,
  );
  value_line = lacks-Lacks 10 (codes "3.0") refl;
  fits = omega arith;
}

mem_stream_written : IsWritable read_number as_text (codes "mem-stream", milli 12000)
mem_stream_written = record {
  name_ok = (
    refl,
    refl,
    lacks-Lacks b'=' (codes "mem-stream") refl,
    lacks-Lacks 10 (codes "mem-stream") refl,
    refl,
  );
  value_line = lacks-Lacks 10 (codes "3.0") refl;
  fits = omega arith;
}

scoring_load_reference-reference_file_example :
    let es : List (Text × Milli) =
      (codes "int-hash", milli 3000) ∷ (codes "mem-stream", milli 12000) ∷ [] in
    scoring_load_reference read_number true (
      some (
        reference_file as_text
          (with_newline (codes "Wed Nov 25 16:08:45 2026"))
          (codes "out/1.reference.txt")
          results))
    ≡ some (map (reread read_number as_text) es, 2)
unfolding measured
scoring_load_reference-reference_file_example =
    scoring_load_reference-reference_file read_number as_text (codes "Wed Nov 25 16:08:45 2026")
      (codes "out/1.reference.txt") results
      (record {
        stamp_line_ok = lacks-Lacks 10 (codes "Wed Nov 25 16:08:45 2026") refl;
        stamp_short = omega arith;
        path_line_ok = lacks-Lacks 10 (codes "out/1.reference.txt") refl;
        path_short = omega arith;
      })
      (int_hash_written, (mem_stream_written, tt)) (λ e. cc)
