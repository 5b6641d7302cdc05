-- ===== src/Harness/NumaBind/Bounds.antt =====
-- When the parser writes in front of its table.
use serv_mark.Base.Scan.{Scanned, range, single, nothing, scan_range, atoi, scan_int, tokens}
use serv_mark.Base.{
  ℕ, zero, suc, ◌+◌, ◌≡◌, ◌≢◌, ◌≤◌, ◌⊎◌, ◌↔◌, inl, inr, false, Option, none, some, List, [], ◌∷◌,
  arith, refl, Option-cases, ℤ, pos, negsuc, ◌≤ℤ◌, Text, codes, starts_with, is_blank, drop_while,
  split_at, set,
}
use serv_mark.Harness.NumaBind.{
  Binding, bind_cpu, bind_rounds, rounds, bind_scanned, bind_parts, bind_token, bind_tokens,
  is_comma, unbound, node_count, bind_listed, harness_parse_numa_bind,
}

-- A range that begins below zero and is not empty.
abbrev pub IsFaulty : Scanned → Type 0
IsFaulty (range (negsuc s) end) = negsuc s ≤ℤ end
IsFaulty (range (pos s) end) = ⊥
IsFaulty (single start) = ⊥
IsFaulty nothing = ⊥

abbrev pub FaultyParts : Option (Text × Text) → Type 0
FaultyParts none = ⊥
FaultyParts (some (cpu_part, node_part)) = IsFaulty (scan_range cpu_part)

-- Some token of the list is a faulty range with a colon behind it.
abbrev pub AnyFaulty : List Text → Type 0
AnyFaulty [] = ⊥
AnyFaulty (tok ∷ toks) = FaultyParts (split_at b':' (drop_while is_blank tok)) ⊎ AnyFaulty toks

bind_rounds_pos :
    (nid : ℤ) (n c : ℕ) (b : Binding) → (b' : Binding) × (bind_rounds nid n (pos c) b ≡ some b')
unfolding bind_rounds
bind_rounds_pos nid zero c b = (b, refl)
bind_rounds_pos nid (suc n) c b =
    bind_rounds_pos nid n (c + 1)
      (record { cpu_to_numa = set b.cpu_to_numa c nid; bound = b.bound + 1 })

rounds_below :
    (s : ℕ) (end : ℤ) (ncpu max_cpu : ℕ)
    → (1 ≤ rounds (negsuc s) end ncpu max_cpu) ↔ (negsuc s ≤ℤ end)
rounds_below s (pos e) ncpu max_cpu = ground arith
rounds_below s (negsuc e) ncpu max_cpu = ground arith

-- Running the loop fails exactly if its range is faulty.
bind_scanned-none :
    (ncpu max_cpu : ℕ) (nid : ℤ) (t : Scanned) (b : Binding)
    → (bind_scanned ncpu max_cpu nid t b ≡ none) ↔ IsFaulty t
unfolding bind_scanned bind_rounds bind_cpu
bind_scanned-none ncpu max_cpu nid (range (pos s) end) b =
    let (b', e) = bind_rounds_pos nid (rounds (pos s) end ncpu max_cpu) s b in
    ((λ h. cc), (λ f. absurd f))
bind_scanned-none ncpu max_cpu nid (range (negsuc s) end) b =
    faulty_range (rounds (negsuc s) end ncpu max_cpu) (rounds_below s end ncpu max_cpu)
  where
    faulty_range :
        (n : ℕ)
        → (1 ≤ n) ↔ (negsuc s ≤ℤ end)
        → (bind_rounds nid n (negsuc s) b ≡ none) ↔ (negsuc s ≤ℤ end)
    faulty_range zero h = ((λ e. cc), (λ f. absurd (omega (arith, h.1 f))))
    faulty_range (suc n) h = ((λ e. h.0 (omega arith)), (λ f. refl))
bind_scanned-none ncpu max_cpu nid (single (pos s)) b = ground arith
bind_scanned-none ncpu max_cpu nid (single (negsuc s)) b = ground arith
bind_scanned-none ncpu max_cpu nid nothing b = ground arith

some_ne_none : {o : Option Binding} {b : Binding} → o ≡ some b → o ≢ none
some_ne_none e n = cc

bind_token-none :
    (ncpu max_cpu : ℕ) (parts : Option (Text × Text)) (b : Binding)
    → (bind_parts ncpu max_cpu parts b ≡ none) ↔ FaultyParts parts
bind_token-none ncpu max_cpu none b = ((λ e. cc), (λ f. absurd f))
bind_token-none ncpu max_cpu (some (cpu_part, node_part)) b =
    bind_scanned-none ncpu max_cpu (atoi node_part) (scan_range cpu_part) b

-- The loop over the tokens writes in front of the table exactly if some token with a colon is a range
-- that begins below zero and is not empty, whatever the numbers of CPUs and the table are.
pub bind_tokens-none :
    (ncpu max_cpu : ℕ) (toks : List Text) (b : Binding)
    → (bind_tokens ncpu max_cpu toks b ≡ none) ↔ AnyFaulty toks
unfolding bind_tokens bind_token
bind_tokens-none ncpu max_cpu [] b = ((λ e. cc), (λ f. absurd f))
bind_tokens-none ncpu max_cpu (tok ∷ toks) b =
    let parts = split_at b':' (drop_while is_blank tok) in
    let here = bind_token-none ncpu max_cpu parts b in
    elim (Option-cases (bind_parts ncpu max_cpu parts b)) [
      | inl fault ↦ ((λ e. inl (here.0 fault)), (λ f. rw fault refl))
      | inr (b', e) ↦
          let later = bind_tokens-none ncpu max_cpu toks b' in
          (
            (λ n. inr (later.0 (rw e at n))),
            (λ f. elim f [
              | inl bad ↦ absurd (some_ne_none e (here.1 bad))
              | inr rest ↦ rw e (later.1 rest)
            ]),
          )
    ]

-- An inline specification is one that is no plain number of nodes and names no file.
pub record IsInline (spec : Text) : Type 0 where
  pub no_count : node_count (scan_int spec) ≡ none
  pub no_file : starts_with spec (codes "@") ≡ false
  pub some_text : spec ≢ []

inline_tokens :
    (ncpu max_cpu : ℕ) (read_file : Text → Option Text) (spec : Text)
    → IsInline spec
    → harness_parse_numa_bind ncpu max_cpu read_file spec
      ≡ bind_tokens ncpu max_cpu (tokens is_comma spec) (unbound max_cpu)
unfolding harness_parse_numa_bind bind_listed
inline_tokens ncpu max_cpu read_file [] i = absurd (i.some_text refl)
inline_tokens ncpu max_cpu read_file (c ∷ cs) i =
    rw (i.no_count, harness_parse_numa_bind) (ground (arith, i.no_file))

-- Parsing an inline specification writes in front of the table exactly if one of its tokens is a range
-- that begins below zero and is not empty, with a colon behind it.
pub harness_parse_numa_bind-none :
    (ncpu max_cpu : ℕ) (read_file : Text → Option Text) (spec : Text)
    → IsInline spec
    → (harness_parse_numa_bind ncpu max_cpu read_file spec ≡ none)
      ↔ AnyFaulty (tokens is_comma spec)
harness_parse_numa_bind-none ncpu max_cpu read_file spec i =
    rw (inline_tokens ncpu max_cpu read_file spec i)
      (bind_tokens-none ncpu max_cpu (tokens is_comma spec) (unbound max_cpu))
