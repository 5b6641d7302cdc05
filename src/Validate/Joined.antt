-- ===== src/Validate/Joined.antt =====
-- The report on the state of the machine as a list of checks.
use serv_mark.Base.{
  ℕ, ◌≡◌, Bool, true, false, Option, none, some, List, [], ◌∷◌, ◌++◌, refl, ap, sym, ◌∙◌, Text,
  codes,
}
use serv_mark.System.{Files, scaling_governor, system_read_proc_str}
use serv_mark.Validate.{
  put_governor, put_files, governor_check, disk_check, files_check, swap_check, header, footer,
  validate_system, put,
}

-- The checks that are made, in order.
abbrev pub governor_checks : Option Text → List Text
governor_checks none = []
governor_checks (some gov) = governor_check gov ∷ []

abbrev pub files_checks : (ℕ → Text) → Option ℕ → List Text
files_checks natural none = []
files_checks natural (some rlim_cur) = files_check natural rlim_cur ∷ []

abbrev pub checks : (ℕ → Text) → Option Text → Option ℕ → List Text
checks natural gov limit =
    governor_checks gov ++ disk_check ∷ (files_checks natural limit ++ swap_check ∷ [])

-- The checks with a comma and the end of the line between them.
abbrev pub joined : List Text → Text
joined [] = []
joined (t ∷ []) = t
joined (t ∷ u ∷ ts) = t ++ b',' ∷ 10 ∷ joined (u ∷ ts)

list_nil : (ts : List Text) → ts ++ [] ≡ ts
list_nil [] = refl
list_nil (t ∷ ts) = ap (λ r. t ∷ r) (list_nil ts)

append_assoc : (a b c : Text) → (a ++ b) ++ c ≡ a ++ (b ++ c)
append_assoc [] b c = refl
append_assoc (x ∷ a) b c = ap (λ r. x ∷ r) (append_assoc a b c)

joined-snoc :
    (t : Text) (ts : List Text) (check : Text)
    → joined (t ∷ ts ++ check ∷ []) ≡ joined (t ∷ ts) ++ b',' ∷ 10 ∷ check
joined-snoc t [] check = refl
joined-snoc t (u ∷ ts) check =
    ap (λ r. t ++ b',' ∷ 10 ∷ r) (joined-snoc u ts check)
    ∙ sym (append_assoc t (b',' ∷ 10 ∷ joined (u ∷ ts)) (b',' ∷ 10 ∷ check))

abbrev separator : Text
separator = codes "," ++ 10 ∷ []

abbrev is_empty : List Text → Bool
is_empty [] = true
is_empty (t ∷ ts) = false

-- The text and the flag after some checks.
abbrev Printed : List Text → Text × Bool → Type 0
Printed done s = (s.0 ≡ header ++ joined done) × (s.1 ≡ is_empty done)

put-Printed :
    (done : List Text) (s : Text × Bool) (check : Text)
    → Printed done s
    → Printed (done ++ check ∷ []) (put s check)
put-Printed [] (out, true) check (text, flag) = (ap (λ o. o ++ [] ++ check) text, refl)
put-Printed [] (out, false) check (text, flag) = absurd cc
put-Printed (t ∷ ts) (out, first) check (text, flag) = rw flag (
  ap (λ o. o ++ separator ++ check) text
      ∙ ap (λ r. r ++ check) (append_assoc header (joined (t ∷ ts)) separator)
      ∙ append_assoc header (joined (t ∷ ts) ++ separator) check
      ∙ ap (λ r. header ++ r)
          (append_assoc (joined (t ∷ ts)) separator check ∙ sym (joined-snoc t ts check)),
  refl,
)

put_governor-Printed :
    (gov : Option Text) → Printed (governor_checks gov) (put_governor gov (header, true))
put_governor-Printed none = (refl, refl)
put_governor-Printed (some gov) = put-Printed [] (header, true) (governor_check gov) (refl, refl)

put_files-Printed :
    (natural : ℕ → Text) (limit : Option ℕ) (done : List Text) (s : Text × Bool)
    → Printed done s
    → Printed (done ++ files_checks natural limit) (put_files natural limit s)
put_files-Printed natural none done s h = rw (list_nil done) h
put_files-Printed natural (some rlim_cur) done s h =
    put-Printed done s (files_check natural rlim_cur) h

list_assoc : (a b c : List Text) → (a ++ b) ++ c ≡ a ++ (b ++ c)
list_assoc [] b c = refl
list_assoc (x ∷ a) b c = ap (λ r. x ∷ r) (list_assoc a b c)

-- The report is the header, the checks that could be made with commas between them, and the footer:
-- the governor when it can be read, the disk, the file limit when it is known, and the swap.
pub validate_system-joined :
    (natural : ℕ → Text) (files : Files) (limit : Option ℕ)
    → validate_system natural files limit
      ≡ (header
          ++ joined (checks natural (system_read_proc_str files (scaling_governor 0) 32) limit))
        ++ footer
unfolding validate_system
validate_system-joined natural files limit =
    let gov = system_read_proc_str files (scaling_governor 0) 32 in
    let s1 = put_governor gov (header, true) in
    let s2 = put s1 disk_check in
    let s3 = put_files natural limit s2 in
    let h2 = put-Printed (governor_checks gov) s1 disk_check (put_governor-Printed gov) in
    let h3 = put_files-Printed natural limit (governor_checks gov ++ disk_check ∷ []) s2 h2 in
    let h4 =
      put-Printed ((governor_checks gov ++ disk_check ∷ []) ++ files_checks natural limit) s3
        swap_check h3 in
    ap (λ o. o ++ footer)
      (h4.0
        ∙ ap (λ cs. header ++ joined cs)
            (list_assoc (governor_checks gov ++ disk_check ∷ []) (files_checks natural limit)
                (swap_check ∷ [])
              ∙ list_assoc (governor_checks gov) (disk_check ∷ [])
                  (files_checks natural limit ++ swap_check ∷ [])))
