-- ===== src/Harness/Cores.antt =====
-- `harness_get_physical_cores` of src/core/harness.c: which CPUs share a core. The files of the kernel
-- are an argument: what `thread_siblings_list` of each CPU holds, or `none` where it cannot be opened.
pub mod Bounds
use serv_mark.Base.{
  ltb, ◌&&◌, ℕ, zero, suc, ◌+◌, Bool, true, false, Option, none, some, List, [], ◌∷◌, if◌then◌else◌,
  ◌==◌, ℤ, pos, negsuc, ltb_ℤ, ◌+ℤ◌, Text, set, get_or, replicate,
}
use serv_mark.Base.Scan.{Scanned, range, single, nothing, scan_range, tokens, fgets_lines}
use serv_mark.Harness.NumaBind.{rounds}

-- `phys_map`, `seen` and `phys_id`.
pub record Cores : Type 0 where
  pub phys_map : List ℕ
  pub seen : List Bool
  pub phys_id : ℕ

-- The result: no memory, a write in front of the arrays, or the map with `*num_physical`.
pub data PhysicalCores : Type 0 where
  no_cores outside : PhysicalCores
  cores : List ℕ → ℕ → PhysicalCores

abbrev pub siblings_size : ℕ
siblings_size = 256

abbrev pub claim : ℕ → Cores → Cores
claim s c = record c { phys_map = set c.phys_map s c.phys_id; seen = set c.seen s true }

-- A sibling joins the core of `cpu`; `none` is a write in front of the arrays.
unfoldable pub share : ℕ → ℤ → Cores → Option Cores
share cpu (negsuc s) c = none
share cpu (pos s) c = some (if s == cpu then c else claim s c)

abbrev pub then_share : Option Cores → (Cores → Option Cores) → Option Cores
then_share none f = none
then_share (some c) f = f c

-- `n` rounds of the loop over a range.
unfoldable pub share_rounds : ℕ → ℕ → ℤ → Cores → Option Cores
share_rounds cpu zero s c = some c
share_rounds cpu (suc n) s c = then_share (share cpu s c) (share_rounds cpu n (s +ℤ pos 1))

unfoldable pub share_token : ℕ → ℕ → Scanned → Cores → Option Cores
share_token ncpu cpu (range start end) c = share_rounds cpu (rounds start end ncpu ncpu) start c
share_token ncpu cpu (single start) c = if ltb_ℤ start (pos ncpu) then share cpu start c else some c
share_token ncpu cpu nothing c = some c

unfoldable pub share_tokens : ℕ → ℕ → List Text → Cores → Option Cores
share_tokens ncpu cpu [] c = some c
share_tokens ncpu cpu (tok ∷ toks) c =
    then_share (share_token ncpu cpu (scan_range tok) c) (share_tokens ncpu cpu toks)

-- The first line of the file, if there is one.
abbrev pub share_lines : ℕ → ℕ → List Text → Cores → Option Cores
share_lines ncpu cpu [] c = some c
share_lines ncpu cpu (line ∷ lines) c = share_tokens ncpu cpu (tokens (λ x. x == b',') line) c

abbrev pub share_file : ℕ → ℕ → Option Text → Cores → Option Cores
share_file ncpu cpu none c = some c
share_file ncpu cpu (some file) c = share_lines ncpu cpu (fgets_lines siblings_size file) c

abbrev pub next_core : Option Cores → Option Cores
next_core none = none
next_core (some c) = some (record c { phys_id = c.phys_id + 1 })

-- A CPU that no core has yet.
unfoldable pub visit : (ℕ → Option Text) → ℕ → ℕ → Cores → Option Cores
visit siblings ncpu cpu c =
    if get_or c.seen cpu false
    then some c
    else next_core (share_file ncpu cpu (siblings cpu) (claim cpu c))

-- The loop over the CPUs, `n` of them left from `cpu` on.
unfoldable pub visit_from : (ℕ → Option Text) → ℕ → ℕ → ℕ → Cores → Option Cores
visit_from siblings ncpu zero cpu c = some c
visit_from siblings ncpu (suc n) cpu c =
    then_share (visit siblings ncpu cpu c) (visit_from siblings ncpu n (cpu + 1))

abbrev pub as_result : Option Cores → PhysicalCores
as_result none = outside
as_result (some c) = cores c.phys_map c.phys_id

abbrev pub unseen : ℕ → Cores
unseen ncpu = record { phys_map = replicate ncpu 0; seen = replicate ncpu false; phys_id = 0 }

unfoldable pub harness_get_physical_cores : Bool → (ℕ → Option Text) → ℕ → PhysicalCores
harness_get_physical_cores allocated siblings ncpu =
    if ltb 0 ncpu && allocated
    then as_result (visit_from siblings ncpu ncpu 0 (unseen ncpu))
    else no_cores
