-- ===== src/System/Identity/Distro.antt =====
-- The name of the distribution comes back as os-release quotes it.
use serv_mark.Base.Fgets.{with_newline, lines_from-line}
use serv_mark.Base.Scan.{fgets_lines, lines_from}
use serv_mark.Base.{
  ◌≡◌, ◌<◌, false, some, List, [], ◌∷◌, ◌++◌, ◌==◌, arith, refl, ap, All, All-append, lacks-Lacks,
  Lacks, ◌∙◌, take-all, length, length-append, Text, codes, starts_with,
}
use serv_mark.System.{Files, os_release}
use serv_mark.System.Lines.{chomp-with_newline}
use serv_mark.System.Identity.{distro_in, os_distro, unquote_right}

-- A line before the name: no name itself, and short enough for the buffer.
abbrev pub IsOther : Text → Type 0
IsOther l =
    Lacks 10 l × (length l < 255) × (starts_with (with_newline l) (codes "PRETTY_NAME=") ≡ false)

-- The text of some lines, and what follows them.
abbrev pub text_of : List Text → Text → Text
text_of [] rest = rest
text_of (l ∷ ls) rest = l ++ (10 ∷ text_of ls rest)

unquote_right-quote : (name : Text) → unquote_right (name ++ (b'"' ∷ [])) ≡ name
unfolding unquote_right
unquote_right-quote [] = refl
unquote_right-quote (c ∷ []) = refl
unquote_right-quote (c ∷ x ∷ xs) = ap (λ r. c ∷ r) (unquote_right-quote (x ∷ xs))

append_assoc : (a b c : Text) → (a ++ b) ++ c ≡ a ++ (b ++ c)
append_assoc [] b c = refl
append_assoc (x ∷ a) b c = ap (λ r. x ∷ r) (append_assoc a b c)

abbrev quoted : Text → Text
quoted name = b'"' ∷ (name ++ (b'"' ∷ []))

distro_in-name :
    (name : Text) (lines : List Text)
    → length name < 128
    → distro_in (with_newline (codes "PRETTY_NAME=" ++ quoted name) ∷ lines) ≡ name
unfolding distro_in
distro_in-name name lines short =
    rw (chomp-with_newline (quoted name), unquote_right-quote name)
      (take-all 127 name (omega arith))

distro_in-other :
    (l : Text) (lines : List Text)
    → starts_with l (codes "PRETTY_NAME=") ≡ false
    → distro_in (l ∷ lines) ≡ distro_in lines
unfolding distro_in
distro_in-other l lines h = rw h refl

abbrev name_line : Text → Text
name_line name = codes "PRETTY_NAME=" ++ quoted name

name_line-lines :
    (name rest : Text)
    → Lacks 10 name
    → length name < 128
    → lines_from 255 255 (name_line name ++ (10 ∷ rest))
      ≡ with_newline (name_line name) ∷ lines_from 255 255 rest
name_line-lines name rest one_line short =
    lines_from-line 255 255 (name_line name) rest
      (prefix_lacks (name ++ (b'"' ∷ []))
        (All-append (λ x. (x == 10) ≡ false) name (b'"' ∷ []) one_line (refl, tt)))
      (omega (arith, length-append name (b'"' ∷ [])))
  where
    prefix_lacks : (t : Text) → Lacks 10 t → Lacks 10 (codes "PRETTY_NAME=" ++ (b'"' ∷ t))
    prefix_lacks t h =
        All-append (λ x. (x == 10) ≡ false) (codes "PRETTY_NAME=\"") t
          (lacks-Lacks 10 (codes "PRETTY_NAME=\"") refl) h

distro_in-lines :
    (before : List Text) (name rest : Text)
    → All IsOther before
    → Lacks 10 name
    → length name < 128
    → distro_in (lines_from 255 255 (text_of before (name_line name ++ (10 ∷ rest)))) ≡ name
distro_in-lines [] name rest _ one_line short =
    ap distro_in (name_line-lines name rest one_line short)
    ∙ distro_in-name name (lines_from 255 255 rest) short
distro_in-lines (l ∷ ls) name rest ((lacks, fits, other), hs) one_line short =
    ap distro_in (lines_from-line 255 255 l (text_of ls (name_line name ++ (10 ∷ rest))) lacks fits)
    ∙ distro_in-other (with_newline l) _ other
    ∙ distro_in-lines ls name rest hs one_line short

-- The name on the first line `PRETTY_NAME="name"` of os-release is what is stored, if it holds no
-- newline and is shorter than its buffer of 128, and the lines before it are shorter than the buffer
-- for lines and give no name themselves.
pub os_distro-name :
    (files : Files) (before : List Text) (name rest : Text)
    → files os_release
      ≡ some (text_of before (codes "PRETTY_NAME=\"" ++ (name ++ codes "\"") ++ (10 ∷ rest)))
    → All IsOther before
    → Lacks 10 name
    → length name < 128
    → os_distro files ≡ name
unfolding os_distro fgets_lines
os_distro-name files before name rest held others one_line short =
    rw (os_distro, held) (distro_in-lines before name rest others one_line short)
