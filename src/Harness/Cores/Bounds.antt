-- ===== src/Harness/Cores/Bounds.antt =====
-- The cores that the map names are below their number, which is at most that of the CPUs.
use serv_mark.Base.{
  ltb, ◌&&◌, ℕ, zero, suc, ◌+◌, ◌≡◌, ◌≤◌, ◌<◌, Bool, false, Option, none, some, List, [], ◌∷◌,
  arith, refl, ◌∙◌, Bool-cases, inl, inr, ℤ, pos, negsuc, ltb_ℤ, ◌+ℤ◌, ◌==◌, length, set,
  length-set, replicate, length-replicate, get_or, All, All-map, Text,
}
use serv_mark.Base.Scan.{Scanned, range, single, nothing, scan_range, tokens, fgets_lines}
use serv_mark.Harness.Cores.{
  Cores, PhysicalCores, no_cores, outside, cores, claim, share, then_share, share_rounds,
  share_token, share_tokens, share_lines, share_file, next_core, visit, visit_from, as_result,
  unseen, siblings_size, harness_get_physical_cores,
}
use serv_mark.Harness.NumaBind.{rounds}

All-set : (P : ℕ → Type 0) (xs : List ℕ) (i v : ℕ) → P v → All P xs → All P (set xs i v)
All-set P [] i v p ps = tt
All-set P (x ∷ xs) zero v p (q, qs) = (p, qs)
All-set P (x ∷ xs) (suc i) v p (q, qs) = (q, All-set P xs i v p qs)

All-replicate : (P : ℕ → Type 0) (n v : ℕ) → P v → All P (replicate n v)
All-replicate P zero v p = tt
All-replicate P (suc n) v p = (p, All-replicate P n v p)

-- While core `k` collects its CPUs.
abbrev pub IsClaiming : ℕ → ℕ → Cores → Type 0
IsClaiming n k c = (length c.phys_map ≡ n) × (c.phys_id ≡ k) × All (λ p. p ≤ k) c.phys_map

-- Between two CPUs, of which `k` are done, one at least.
abbrev pub IsSettled : ℕ → ℕ → Cores → Type 0
IsSettled n k c =
    (length c.phys_map ≡ n)
    × (0 < c.phys_id)
    × (c.phys_id ≤ k)
    × All (λ p. p < c.phys_id) c.phys_map

abbrev pub IfInside : (Cores → Type 0) → Option Cores → Type 0
IfInside P none = Unit
IfInside P (some c) = P c

then_share-IfInside :
    (P Q : Cores → Type 0) (o : Option Cores) (f : Cores → Option Cores)
    → IfInside P o
    → ((c : Cores) → P c → IfInside Q (f c))
    → IfInside Q (then_share o f)
then_share-IfInside P Q none f h g = tt
then_share-IfInside P Q (some c) f h g = g c h

claim-IsClaiming : (n k s : ℕ) (c : Cores) → IsClaiming n k c → IsClaiming n k (claim s c)
claim-IsClaiming n k s c (size, now, low) = (
  length-set c.phys_map s c.phys_id ∙ size,
  now,
  All-set (λ p. p ≤ k) c.phys_map s c.phys_id (omega arith) low,
)

module _ (n k cpu : ℕ) where
  share-IsClaiming :
      (s : ℤ) (c : Cores) → IsClaiming n k c → IfInside (IsClaiming n k) (share cpu s c)
  unfolding share
  share-IsClaiming (negsuc s) c h = tt
  share-IsClaiming (pos s) c h = elim (Bool-cases (s == cpu)) [
    | inl own ↦ rw (share, own) h
    | inr other ↦ rw (share, other) (claim-IsClaiming n k s c h)
  ]

  share_rounds-IsClaiming :
      (r : ℕ) (s : ℤ) (c : Cores)
      → IsClaiming n k c
      → IfInside (IsClaiming n k) (share_rounds cpu r s c)
  unfolding share_rounds
  share_rounds-IsClaiming zero s c h = h
  share_rounds-IsClaiming (suc r) s c h =
      then_share-IfInside (IsClaiming n k) (IsClaiming n k) (share cpu s c)
        (share_rounds cpu r (s +ℤ pos 1)) (share-IsClaiming s c h)
        (share_rounds-IsClaiming r (s +ℤ pos 1))

  share_token-IsClaiming :
      (t : Scanned) (c : Cores)
      → IsClaiming n k c
      → IfInside (IsClaiming n k) (share_token n cpu t c)
  unfolding share_token
  share_token-IsClaiming (range start end) c h =
      share_rounds-IsClaiming (rounds start end n n) start c h
  share_token-IsClaiming (single start) c h = elim (Bool-cases (ltb_ℤ start (pos n))) [
    | inl here ↦ rw (share_token, here) (share-IsClaiming start c h)
    | inr beyond ↦ rw (share_token, beyond) h
  ]
  share_token-IsClaiming nothing c h = h

  share_tokens-IsClaiming :
      (toks : List Text) (c : Cores)
      → IsClaiming n k c
      → IfInside (IsClaiming n k) (share_tokens n cpu toks c)
  unfolding share_tokens
  share_tokens-IsClaiming [] c h = h
  share_tokens-IsClaiming (tok ∷ toks) c h =
      then_share-IfInside (IsClaiming n k) (IsClaiming n k) (share_token n cpu (scan_range tok) c)
        (share_tokens n cpu toks) (share_token-IsClaiming (scan_range tok) c h)
        (share_tokens-IsClaiming toks)

  share_lines-IsClaiming :
      (lines : List Text) (c : Cores)
      → IsClaiming n k c
      → IfInside (IsClaiming n k) (share_lines n cpu lines c)
  share_lines-IsClaiming [] c h = h
  share_lines-IsClaiming (line ∷ lines) c h =
      share_tokens-IsClaiming (tokens (λ x. x == b',') line) c h

  share_file-IsClaiming :
      (file : Option Text) (c : Cores)
      → IsClaiming n k c
      → IfInside (IsClaiming n k) (share_file n cpu file c)
  share_file-IsClaiming none c h = h
  share_file-IsClaiming (some file) c h =
      share_lines-IsClaiming (fgets_lines siblings_size file) c h

next_core-IsSettled :
    (n k : ℕ) (o : Option Cores)
    → IfInside (IsClaiming n k) o
    → IfInside (IsSettled n (k + 1)) (next_core o)
next_core-IsSettled n k none h = tt
next_core-IsSettled n k (some c) (size, now, low) =
    (size, omega arith, omega arith, All-map (λ p q. omega arith) c.phys_map low)

IsSettled-later :
    (n j k : ℕ)
    → j ≤ k
    → (o : Option Cores) → IfInside (IsSettled n j) o
    → IfInside (IsSettled n k) o
IsSettled-later n j k below none h = tt
IsSettled-later n j k below (some c) (size, some_core, few, low) =
    (size, some_core, omega arith, low)

module _ (siblings : ℕ → Option Text) (n : ℕ) where
  -- A CPU that no core has yet opens one.
  opened-IsSettled :
      (cpu : ℕ) (c : Cores)
      → length c.phys_map ≡ n
      → c.phys_id ≤ cpu
      → All (λ p. p ≤ c.phys_id) c.phys_map
      → IfInside (IsSettled n (cpu + 1)) (next_core (share_file n cpu (siblings cpu) (claim cpu c)))
  opened-IsSettled cpu c size few low =
      let k = c.phys_id in
      let shared =
        share_file-IsClaiming n k cpu (siblings cpu) (claim cpu c)
          (claim-IsClaiming n k cpu c (size, refl, low)) in
      IsSettled-later n (k + 1) (cpu + 1) (omega arith) _
        (next_core-IsSettled n k (share_file n cpu (siblings cpu) (claim cpu c)) shared)

  visit-IsSettled :
      (cpu : ℕ) (c : Cores)
      → IsSettled n cpu c
      → IfInside (IsSettled n (cpu + 1)) (visit siblings n cpu c)
  unfolding visit
  visit-IsSettled cpu c (size, some_core, few, low) = elim (Bool-cases (get_or c.seen cpu false)) [
    | inl old ↦ rw (visit, old) (size, some_core, omega arith, low)
    | inr fresh ↦
        rw (visit, fresh)
          (opened-IsSettled cpu c size few (All-map (λ p q. omega arith) c.phys_map low))
  ]

  visit_from-IsSettled :
      (left cpu : ℕ) (c : Cores)
      → IsSettled n cpu c
      → IfInside (IsSettled n (cpu + left)) (visit_from siblings n left cpu c)
  unfolding visit_from
  visit_from-IsSettled zero cpu c (size, some_core, few, low) = (size, some_core, omega arith, low)
  visit_from-IsSettled (suc left) cpu c h =
      let next : (cpu + suc left) ≡ (cpu + 1 + left) = omega arith in
      rw next (
        then_share-IfInside (IsSettled n (cpu + 1)) (IsSettled n (cpu + 1 + left))
          (visit siblings n cpu c) (visit_from siblings n left (cpu + 1)) (visit-IsSettled cpu c h)
          (visit_from-IsSettled left (cpu + 1)))

-- What the function promises of a map with its number of cores.
abbrev pub IsSound : ℕ → PhysicalCores → Type 0
IsSound n no_cores = Unit
IsSound n outside = Unit
IsSound n (cores phys_map num) =
    (length phys_map ≡ n) × (0 < num) × (num ≤ n) × All (λ p. p < num) phys_map

as_result-IsSound :
    (n : ℕ) (o : Option Cores) → IfInside (IsSettled n n) o → IsSound n (as_result o)
as_result-IsSound n none h = tt
as_result-IsSound n (some c) h = h

-- CPU 0 opens the first core.
visit_all-IsSettled :
    (siblings : ℕ → Option Text) (n : ℕ)
    → 0 < n
    → IfInside (IsSettled n n) (visit_from siblings n n 0 (unseen n))
unfolding visit_from visit
visit_all-IsSettled siblings zero some_cpu = absurd (omega arith)
visit_all-IsSettled siblings (suc m) some_cpu =
    let n = suc m in
    let after_first = λ (c : Cores) (h : IsSettled n (0 + 1) c).
      IsSettled-later n (0 + 1 + m) n (omega arith) _
        (visit_from-IsSettled siblings n m (0 + 1) c h) in
    then_share-IfInside (IsSettled n (0 + 1)) (IsSettled n n) _ (visit_from siblings n m (0 + 1))
      (opened-IsSettled siblings n 0 (unseen n) (length-replicate n 0) (omega arith)
        (All-replicate (λ p. p ≤ 0) n 0 (omega arith)))
      after_first

-- Whatever the kernel's files hold, the function returns nothing, or writes in front of its arrays, or
-- it returns a map with a core for each CPU, with at least one core, at most as many cores as CPUs,
-- and every core of the map below their number.
pub harness_get_physical_cores-IsSound :
    (allocated : Bool) (siblings : ℕ → Option Text) (ncpu : ℕ)
    → IsSound ncpu (harness_get_physical_cores allocated siblings ncpu)
unfolding harness_get_physical_cores
harness_get_physical_cores-IsSound allocated siblings ncpu =
    elim (Bool-cases (ltb 0 ncpu && allocated)) [
      | inl ready ↦
          rw (harness_get_physical_cores, ready)
            (as_result-IsSound ncpu (visit_from siblings ncpu ncpu 0 (unseen ncpu))
              (visit_all-IsSettled siblings ncpu (ground arith)))
      | inr idle ↦ rw (harness_get_physical_cores, idle) tt
    ]
