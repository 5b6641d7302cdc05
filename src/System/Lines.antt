-- ===== src/System/Lines.antt =====
-- A file of one line that the buffer holds.
use serv_mark.Base.{ℕ, ◌+◌, ◌≡◌, ◌<◌, ◌-◌, some, [], ◌∷◌, arith, refl, ap, Text, Lacks, length}
use serv_mark.Base.Fgets.{with_newline, lines_from-line}
use serv_mark.Base.Scan.{fgets_lines, lines_from}
use serv_mark.System.{Files, SysFile, first_line, chomp, system_read_proc_str}

pub chomp-with_newline : (l : Text) → chomp (with_newline l) ≡ l
unfolding chomp
chomp-with_newline [] = refl
chomp-with_newline (c ∷ []) = refl
chomp-with_newline (c ∷ x ∷ xs) = ap (λ r. c ∷ r) (chomp-with_newline (x ∷ xs))

pub first_line-line :
    (size : ℕ) (l : Text)
    → Lacks 10 l
    → length l + 1 < size
    → first_line size (with_newline l) ≡ some (with_newline l)
unfolding first_line fgets_lines lines_from
first_line-line size l one_line short =
    let whole : fgets_lines size (with_newline l) ≡ with_newline l ∷ [] =
      lines_from-line (size - 1) (size - 1) l [] one_line (omega arith) in
    rw (first_line, whole) refl

-- A value that stands on a line of its own is read as it is.
pub system_read_proc_str-line :
    (files : Files) (file : SysFile) (len : ℕ) (l : Text)
    → files file ≡ some (with_newline l)
    → Lacks 10 l
    → length l + 1 < len
    → system_read_proc_str files file len ≡ some l
unfolding system_read_proc_str
system_read_proc_str-line files file len l held one_line short =
    let whole = first_line-line len l one_line short in
    rw (system_read_proc_str, held, whole) (ap some (chomp-with_newline l))
