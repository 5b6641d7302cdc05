-- ===== src/Harness/NumaBind/Split.antt =====
-- The shorthand "N": the CPUs are dealt out to N nodes in turn.
use serv_mark.Base.Scan.{scan_int}
use serv_mark.Base.{
  ℕ, zero, suc, ◌+◌, ◌%◌, ◌≡◌, ◌≤◌, ◌<◌, ◌∙◌, min, Option, none, some, List, [], ◌∷◌, arith, refl,
  ◌==◌, Bool-cases, inl, inr, ℤ, pos, negsuc, Text, get_elem?, set, length, replicate, length-set,
  length-replicate, get_elem?-set_self, get_elem?-set_ne,
}
use serv_mark.Harness.NumaBind.{
  Binding, interleave_from, interleaved, node_count, harness_parse_numa_bind,
}

length-interleave_from : (k n i : ℕ) (t : List ℤ) → length (interleave_from k n i t) ≡ length t
unfolding interleave_from
length-interleave_from k zero i t = refl
length-interleave_from k (suc n) i t =
    length-interleave_from k n (i + 1) (set t i (pos (i % k))) ∙ length-set t i (pos (i % k))

-- An entry in front of the loop's start, or behind its end, is left alone.
interleave_from-below :
    (k n i j : ℕ) (t : List ℤ) → j < i → get_elem? (interleave_from k n i t) j ≡ get_elem? t j
unfolding interleave_from
interleave_from-below k zero i j t h = refl
interleave_from-below k (suc n) i j t h =
    interleave_from-below k n (i + 1) j (set t i (pos (i % k))) (omega arith)
    ∙ get_elem?-set_ne t (pos (i % k)) (λ e. omega arith)

interleave_from-within :
    (k n i j : ℕ) (t : List ℤ)
    → i ≤ j
    → j < i + n
    → i + n ≤ length t
    → get_elem? (interleave_from k n i t) j ≡ some (pos (j % k))
unfolding interleave_from
interleave_from-within k zero i j t lo hi fits = absurd (omega arith)
interleave_from-within k (suc n) i j t lo hi fits = elim (Bool-cases (i == j)) [
  | inl here ↦
      let same : i ≡ j = ground arith in
      interleave_from-below k n (i + 1) j (set t i (pos (i % k))) (omega arith)
      ∙ rw (← same) (get_elem?-set_self t i (pos (i % k)) (omega arith))
  | inr later ↦
      let apart : i < j = ground arith in
      interleave_from-within k n (i + 1) j (set t i (pos (i % k))) (omega arith) (omega arith)
        (omega (arith, length-set t i (pos (i % k))))
]

node_count_bounds : (r : Option (ℤ × Text)) {n : ℕ} → node_count r ≡ some n → (0 < n) × (n ≤ 16)
node_count_bounds none h = cc
node_count_bounds (some (pos n, [])) h = ground arith
node_count_bounds (some (pos n, c ∷ cs)) h = cc
node_count_bounds (some (negsuc n, rest)) h = cc

-- For a specification that is a plain number of nodes, the parser binds as many CPUs as there are
-- below both bounds, each to its number modulo the number of nodes: so every node that it binds is
-- one of the nodes asked for, of which there are 1 to 16, and no write leaves the table.
pub harness_parse_numa_bind-interleaved :
    (ncpu max_cpu : ℕ) (read_file : Text → Option Text) (spec : Text) (n : ℕ)
    → node_count (scan_int spec) ≡ some n
    → (b : Binding) × (harness_parse_numa_bind ncpu max_cpu read_file spec ≡ some b)
      × (b.bound ≡ min ncpu max_cpu)
      × (length b.cpu_to_numa ≡ max_cpu)
      × ((cpu : ℕ)
          → cpu < ncpu
          → cpu < max_cpu
          → (get_elem? b.cpu_to_numa cpu ≡ some (pos (cpu % n))) × (cpu % n < n) × (n ≤ 16))
unfolding harness_parse_numa_bind
harness_parse_numa_bind-interleaved ncpu max_cpu read_file spec n h =
    let (positive, few) = node_count_bounds (scan_int spec) h in
    let empty : List ℤ = replicate max_cpu (negsuc 0) in
    let size : length empty ≡ max_cpu = length-replicate max_cpu (negsuc 0) in
    (
      interleaved ncpu max_cpu n,
      rw (h, harness_parse_numa_bind) refl,
      refl,
      length-interleave_from n (min ncpu max_cpu) 0 empty ∙ size,
      λ cpu below within. (
        interleave_from-within n (min ncpu max_cpu) 0 cpu empty (omega arith) (omega arith)
            (omega arith),
        omega arith,
        few,
      ),
    )
