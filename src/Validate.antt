-- ===== src/Validate.antt =====
-- src/core/validate.c: the report on the state of the machine. `getrlimit` is not part of the
-- repository: its answer is an argument, `none` when it fails.
pub mod Joined
use serv_mark.Base.{
  ℕ, Bool, true, false, Option, none, some, List, [], ◌∷◌, ◌++◌, leb, if◌then◌else◌, Text, codes,
  text_eq,
}
use serv_mark.System.{Files, scaling_governor, system_read_proc_str}

-- `if (!first) fprintf(out, ",\n"); first = 0;` and the check behind it: the text so far, and `first`.
abbrev pub put : Text × Bool → Text → Text × Bool
put (out, first) check = (out ++ (if first then [] else codes "," ++ (10 ∷ [])) ++ check, false)

abbrev pub governor_check : Text → Text
governor_check gov =
    codes "    {\"check\":\"cpu_governor\",\"expected\":\"performance\",\"actual\":\""
    ++ gov
    ++ codes "\",\"severity\":\""
    ++ (if text_eq gov (codes "performance") then codes "info" else codes "warning")
    ++ codes "\"}"

abbrev pub disk_check : Text
disk_check =
    codes
      "    {\"check\":\"disk_space\",\"expected\":\">50GB\",\"actual\":\"ok\",\"severity\":\"info\"}"

abbrev pub file_severity : ℕ → Text
file_severity rlim_cur = if leb 1048576 rlim_cur then codes "info" else codes "error"

-- `natural` is "%lu".
abbrev pub files_check : (ℕ → Text) → ℕ → Text
files_check natural rlim_cur =
    codes "    {\"check\":\"open_files\",\"expected\":\">=1048576\",\"actual\":\""
    ++ natural rlim_cur
    ++ codes "\",\"severity\":\""
    ++ file_severity rlim_cur
    ++ codes "\"}"

abbrev pub swap_check : Text
swap_check =
    codes
      "    {\"check\":\"swap\",\"expected\":\"off_or_idle\",\"actual\":\"checked\",\"severity\":\"info\"}"

abbrev pub put_governor : Option Text → Text × Bool → Text × Bool
put_governor none s = s
put_governor (some gov) s = put s (governor_check gov)

abbrev pub put_files : (ℕ → Text) → Option ℕ → Text × Bool → Text × Bool
put_files natural none s = s
put_files natural (some rlim_cur) s = put s (files_check natural rlim_cur)

abbrev pub header : Text
header =
    (b'{' ∷ 10 ∷ codes "  \"status\": \"ready\",") ++ (10 ∷ codes "  \"checks\": [") ++ (10 ∷ [])

abbrev pub footer : Text
footer = 10 ∷ codes "  ]" ++ (10 ∷ b'}' ∷ 10 ∷ [])

-- What is printed.
unfoldable pub validate_system : (ℕ → Text) → Files → Option ℕ → Text
validate_system natural files limit =
    let gov = system_read_proc_str files (scaling_governor 0) 32 in
    let s1 = put_governor gov (header, true) in
    let s2 = put s1 disk_check in
    let s3 = put_files natural limit s2 in let s4 = put s3 swap_check in s4.0 ++ footer
