-- ===== src/Harness/NumaBind.antt =====
-- `harness_parse_numa_bind` of src/core/harness.c: the NUMA node of each CPU that `--numa-topo` names.
-- The table `cpu_to_numa` is the list of its `max_cpu` entries, -1 for a CPU with no node.
pub mod Bounds
pub mod Split
use serv_mark.Base.Scan.{
  Scanned, range, single, nothing, scan_int, scan_range, atoi, tokens, fgets_lines,
}
use serv_mark.Base.{
  ℕ, zero, suc, ◌+◌, ◌-◌, ◌%◌, min, Bool, true, false, ◌&&◌, ◌||◌, Option, none, some, List, [],
  ◌∷◌, ◌++◌, ltb, leb, ◌==◌, if◌then◌else◌, ℤ, pos, negsuc, pos_part, suc_ℤ, ◌+ℤ◌, ◌-ℤ◌, leb_ℤ,
  ltb_ℤ, Text, codes, is_blank, drop_while, drop_while_end, split_at, set, replicate, length,
}

-- The table and the count `bound`.
pub record Binding : Type 0 where
  pub cpu_to_numa : List ℤ
  pub bound : ℕ

-- `cpu_to_numa[c] = nid; bound++;` for a CPU below the table's end. A write in front of the table is a
-- fault, `none`.
unfoldable pub bind_cpu : ℤ → ℤ → Binding → Option Binding
bind_cpu nid (pos c) b =
    some (record { cpu_to_numa = set b.cpu_to_numa c nid; bound = b.bound + 1 })
bind_cpu nid (negsuc c) b = none

abbrev pub then_bind : Option Binding → (Binding → Option Binding) → Option Binding
then_bind none f = none
then_bind (some b) f = f b

-- `for (c = start; …; c++)`, for `n` rounds.
unfoldable pub bind_rounds : ℤ → ℕ → ℤ → Binding → Option Binding
unfolding bind_cpu
bind_rounds nid zero c b = some b
bind_rounds nid (suc n) c b = then_bind (bind_cpu nid c b) (bind_rounds nid n (suc_ℤ c))

abbrev pub min_ℤ : ℤ → ℤ → ℤ
min_ℤ a b = if leb_ℤ a b then a else b

-- The rounds of `for (c = start; c <= end && c < ncpu && c < max_cpu; c++)`: as long as `c` is below
-- the least of the three bounds.
abbrev pub rounds : ℤ → ℤ → ℕ → ℕ → ℕ
rounds start end ncpu max_cpu = pos_part (min_ℤ (end +ℤ pos 1) (pos (min ncpu max_cpu)) -ℤ start)

unfoldable pub bind_scanned : ℕ → ℕ → ℤ → Scanned → Binding → Option Binding
unfolding bind_rounds
bind_scanned ncpu max_cpu nid (range start end) b =
    bind_rounds nid (rounds start end ncpu max_cpu) start b
bind_scanned ncpu max_cpu nid (single start) b =
    if leb_ℤ (pos 0) start && ltb_ℤ start (pos ncpu) && ltb_ℤ start (pos max_cpu)
    then bind_cpu nid start b
    else some b
bind_scanned ncpu max_cpu nid nothing b = some b

-- What stands before and after the colon.
abbrev pub bind_parts : ℕ → ℕ → Option (Text × Text) → Binding → Option Binding
bind_parts ncpu max_cpu none b = some b
bind_parts ncpu max_cpu (some (cpu_part, node_part)) b =
    bind_scanned ncpu max_cpu (atoi node_part) (scan_range cpu_part) b

unfoldable pub bind_token : ℕ → ℕ → Text → Binding → Option Binding
unfolding bind_scanned
bind_token ncpu max_cpu tok b = bind_parts ncpu max_cpu (split_at b':' (drop_while is_blank tok)) b

-- The loop over the tokens, which the source has twice.
unfoldable pub bind_tokens : ℕ → ℕ → List Text → Binding → Option Binding
unfolding bind_token
bind_tokens ncpu max_cpu [] b = some b
bind_tokens ncpu max_cpu (tok ∷ toks) b =
    then_bind (bind_token ncpu max_cpu tok b) (bind_tokens ncpu max_cpu toks)

-- `cpu_to_numa[i] = i % nnodes` for the first `n` entries from `i` on.
unfoldable pub interleave_from : ℕ → ℕ → ℕ → List ℤ → List ℤ
interleave_from nnodes zero i t = t
interleave_from nnodes (suc n) i t = interleave_from nnodes n (i + 1) (set t i (pos (i % nnodes)))

abbrev pub is_line_end : ℕ → Bool
is_line_end c = (c == 10) || (c == 13)

-- `*p == '#' || *p == '\n' || *p == '\0'`
abbrev pub is_skipped : Text → Bool
is_skipped [] = true
is_skipped (c ∷ cs) = (c == b'#') || (c == 10)

-- The lines of the file that count, with commas between them; `none` is a null `combined`.
unfoldable pub combine : Option Text → List Text → Option Text
combine combined [] = combined
combine combined (line ∷ rest) =
    let p = drop_while is_blank line in
    let kept = drop_while_end is_line_end p in
    combine
      (if is_skipped p then combined else elim combined [
        | none ↦ some kept
        | some [] ↦ some kept
        | some (c ∷ cs) ↦ some ((c ∷ cs) ++ (b',' ∷ kept))
      ])
      rest

abbrev pub is_comma : ℕ → Bool
is_comma c = c == b','

abbrev pub unbound : ℕ → Binding
unbound max_cpu = record { cpu_to_numa = replicate max_cpu (negsuc 0); bound = 0 }

-- "N": `none` if the text is not a number from 1 to 16 alone.
abbrev pub node_count : Option (ℤ × Text) → Option ℕ
node_count (some (pos n, [])) = if ltb 0 n && leb n 16 then some n else none
node_count _ = none

abbrev pub bind_file : ℕ → ℕ → Option Text → Option Binding
bind_file ncpu max_cpu none = some (unbound max_cpu)
bind_file ncpu max_cpu (some combined) =
    bind_tokens ncpu max_cpu (tokens is_comma combined) (unbound max_cpu)

-- "@path" and the inline format. `read_file` is what `fopen` and the reads give.
unfoldable pub bind_listed : ℕ → ℕ → (Text → Option Text) → Text → Option Binding
unfolding bind_tokens combine
bind_listed ncpu max_cpu read_file [] = some (unbound max_cpu)
bind_listed ncpu max_cpu read_file (c ∷ cs) =
    if c == b'@'
    then elim (read_file cs) [
      | none ↦ some (unbound max_cpu)
      | some text ↦ bind_file ncpu max_cpu (combine none (fgets_lines 4096 text))
    ]
    else bind_tokens ncpu max_cpu (tokens is_comma (c ∷ cs)) (unbound max_cpu)

abbrev pub interleaved : ℕ → ℕ → ℕ → Binding
interleaved ncpu max_cpu nnodes = record {
  cpu_to_numa = interleave_from nnodes (min ncpu max_cpu) 0 (replicate max_cpu (negsuc 0));
  bound = min ncpu max_cpu;
}

-- A specification that is not empty, with every allocation made.
unfoldable pub harness_parse_numa_bind : ℕ → ℕ → (Text → Option Text) → Text → Option Binding
unfolding bind_listed interleave_from
harness_parse_numa_bind ncpu max_cpu read_file spec = elim (node_count (scan_int spec)) [
  | some n ↦ some (interleaved ncpu max_cpu n)
  | none ↦ bind_listed ncpu max_cpu read_file spec
]
