-- ===== src/Harness/CpuSpec.antt =====
-- `harness_parse_cpu_spec` of src/core/harness.c: the list of CPUs that `--cpu-pin` names. The number
-- of CPUs that are online, and the files of sysfs, are arguments; warnings on stderr are left out.
pub mod Sound
use serv_mark.Base.Scan.{Scanned, range, single, nothing, scan_range, tokens}
use serv_mark.Base.{
  ℕ, zero, suc, ◌+◌, ◌-◌, Bool, true, false, not, ◌&&◌, Option, none, some, List, [], ◌∷◌, ◌++◌,
  leb, ◌==◌, if◌then◌else◌, ℤ, pos, ◌+ℤ◌, leb_ℤ, ltb_ℤ, Text, codes, text_eq, is_blank, drop_while,
  length,
}

abbrev pub max_pins : ℕ
max_pins = 512

-- `for (c = start; c <= end && c < ncpu && count < 512; c++) list[count++] = c;` with `room` places
-- left.
unfoldable pub push_range : ℤ → ℤ → ℕ → ℤ → List ℤ
push_range ncpu end zero c = []
push_range ncpu end (suc room) c =
    let rest = push_range ncpu end room (c +ℤ pos 1) in
    if leb_ℤ c end && ltb_ℤ c ncpu then c ∷ rest else []

-- What one token adds to the list.
unfoldable pub token_cpus : ℤ → ℕ → Scanned → List ℤ
unfolding push_range
token_cpus ncpu room (range start end) = push_range ncpu end room start
token_cpus ncpu room (single start) =
    if leb_ℤ (pos 0) start && ltb_ℤ start ncpu then start ∷ [] else []
token_cpus ncpu room nothing = []

abbrev pub scan_token : Text → Scanned
scan_token tok = scan_range (drop_while is_blank tok)

-- `while (tok && count < 512)`
unfoldable pub explicit_cpus : ℤ → ℕ → List Text → List ℤ
unfolding token_cpus
explicit_cpus ncpu zero toks = []
explicit_cpus ncpu (suc room) [] = []
explicit_cpus ncpu (suc room) (tok ∷ toks) =
    let found = token_cpus ncpu (suc room) (scan_token tok) in
    found ++ explicit_cpus ncpu (suc room - length found) toks

-- 0, 1, …, as far as `n` numbers from `c`.
unfoldable pub count_up : ℕ → ℕ → List ℤ
count_up zero c = []
count_up (suc n) c = pos c ∷ count_up n (c + 1)

-- `sscanf` with "%d-%*d" and then "%d": the first number.
abbrev pub first_number : Scanned → Option ℤ
first_number (range a b) = some a
first_number (single a) = some a
first_number nothing = none

-- What opening a node's file `cpulist` and reading its first line gives.
pub data NodeFile : Type 0 where
  missing : NodeFile
  empty : NodeFile
  line : Text → NodeFile

-- The nodes from `ni` on, at most `n` of them.
unfoldable pub numa_cpus : (ℕ → NodeFile) → ℕ → ℕ → List ℤ
numa_cpus nodes zero ni = []
numa_cpus nodes (suc n) ni =
    let rest = numa_cpus nodes n (ni + 1) in
    elim (nodes ni) [
      | missing ↦ []
      | empty ↦ rest
      | line text ↦ elim (first_number (scan_range text)) [ none ↦ rest | some c ↦ c ∷ rest ]
    ]

-- The list or a null pointer, and `*count_out`.
abbrev pub Pins : Type 0
Pins = Option (List ℤ) × ℤ

abbrev pub listed : List ℤ → Pins
listed list = (some list, pos (length list))

abbrev pub no_pins : Pins
no_pins = (none, pos 0)

-- With no node the list is freed.
abbrev pub listed_nonempty : List ℤ → Pins
listed_nonempty [] = no_pins
listed_nonempty (c ∷ cs) = listed (c ∷ cs)

abbrev pub is_comma : ℕ → Bool
is_comma c = c == b','

-- `allocated` says that the calls of `calloc` and `strdup` succeed. Where the allocation for
-- "auto-all" fails the count is set all the same.
unfoldable pub parse_spec : ℕ → (ℕ → NodeFile) → Bool → Text → Pins
unfolding count_up numa_cpus explicit_cpus
parse_spec ncpu nodes allocated spec =
    if text_eq spec (codes "auto")
    then no_pins
    else if text_eq spec (codes "auto-all")
    then if allocated then listed (count_up ncpu 0) else (none, pos ncpu)
    else if not allocated
    then no_pins
    else if text_eq spec (codes "auto-numa")
    then listed_nonempty (numa_cpus nodes 64 0)
    else listed (explicit_cpus (pos ncpu) max_pins (tokens is_comma spec))

unfoldable pub harness_parse_cpu_spec : ℕ → (ℕ → NodeFile) → Bool → Option Text → Pins
unfolding parse_spec
harness_parse_cpu_spec ncpu nodes allocated none = no_pins
harness_parse_cpu_spec ncpu nodes allocated (some []) = no_pins
harness_parse_cpu_spec ncpu nodes allocated (some (c ∷ cs)) =
    parse_spec ncpu nodes allocated (c ∷ cs)
