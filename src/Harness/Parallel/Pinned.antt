-- ===== src/Harness/Parallel/Pinned.antt =====
-- The CPU that a parallel instance is pinned to, from the map of CPUs to cores.
use native.Mathlib.Nat.{mod-eq_of_lt}
use serv_mark.Base.{
  ℕ, suc, ◌+◌, ◌-◌, ◌%◌, ◌≡◌, ◌≢◌, ◌≤◌, ◌<◌, true, false, Option, none, some, List, [], ◌∷◌, arith,
  refl, ◌==◌, Bool-cases, inl, inr, pos, pos_part, get_elem?, ltb, ap, sym,
}
use serv_mark.Base.Member.{Member}
use serv_mark.Harness.Parallel.{Placement, first_cpu_of, pin_cpu}

get_elem?-behind :
    (p : ℕ) (ps : List ℕ) (c r : ℕ) {v : Option ℕ}
    → c + 1 ≤ r
    → get_elem? ps (r - (c + 1)) ≡ v
    → get_elem? (p ∷ ps) (r - c) ≡ v
get_elem?-behind p ps c r far e =
    let step : (r - c) ≡ suc (r - (c + 1)) = omega arith in rw (step, e) refl

get_elem?-here : (p : ℕ) (ps : List ℕ) (c : ℕ) → get_elem? (p ∷ ps) (c - c) ≡ some p
get_elem?-here p ps c = let none_left : (c - c) ≡ 0 = omega arith in rw none_left refl

Member-behind :
    (core p : ℕ) (ps : List ℕ) → Member core (p ∷ ps) → (p == core) ≡ false → Member core ps
Member-behind core p ps on further = ground arith

-- The CPU that the search yields, and its core.
first_cpu_of_lem :
    (core : ℕ) (cores : List ℕ) (c other : ℕ)
    → Member core cores
    → (c ≤ first_cpu_of core cores c other)
      × (get_elem? cores (first_cpu_of core cores c other - c) ≡ some core)
unfolding first_cpu_of
first_cpu_of_lem core [] c other on = elim on [ ]
first_cpu_of_lem core (p ∷ ps) c other on = elim (Bool-cases (p == core)) [
  | inl here ↦
      let same : p ≡ core = ground arith in
      rw here (omega arith, rw (get_elem?-here p ps c) (ap some same))
  | inr further ↦
      let rest = first_cpu_of_lem core ps (c + 1) other (Member-behind core p ps on further) in
      rw further (omega (arith, rest.0), get_elem?-behind p ps c _ rest.0 rest.1)
]

-- The placement of a run without manual pins, on a machine whose map is known.
abbrev pub automatic : List ℕ → ℕ → Placement
automatic phys_map num_phys = record {
  manual_pins = none;
  phys_map = some phys_map;
  num_phys = num_phys;
}

pin_cpu-automatic :
    (phys_map : List ℕ) (num_phys i : ℕ)
    → i < num_phys
    → pin_cpu (automatic phys_map num_phys) i ≡ pos (first_cpu_of i phys_map 0 i)
unfolding pin_cpu
pin_cpu-automatic phys_map num_phys i h =
    let some_core : ltb 0 num_phys ≡ true = ground arith in
    let small : (i % num_phys) ≡ i = mod-eq_of_lt h in rw (some_core, small) refl

-- The core of the CPU that an instance is pinned to.
core_of_pin :
    (phys_map : List ℕ) (num_phys i : ℕ)
    → Member i phys_map
    → i < num_phys
    → get_elem? phys_map (pos_part (pin_cpu (automatic phys_map num_phys) i)) ≡ some i
core_of_pin phys_map num_phys i on h =
    let (low, at_core) = first_cpu_of_lem i phys_map 0 i on in
    let same : (first_cpu_of i phys_map 0 i - 0) ≡ first_cpu_of i phys_map 0 i = omega arith in
    rw (pin_cpu-automatic phys_map num_phys i h, ← same) at_core

-- Different instances below the number of cores share no CPU, if no pins are given and every core below that
-- number has a CPU in the map.
pub pin_cpu_distinct :
    (phys_map : List ℕ) (num_phys i j : ℕ)
    → ((core : ℕ) → core < num_phys → Member core phys_map)
    → i < num_phys
    → j < num_phys
    → i ≢ j
    → pin_cpu (automatic phys_map num_phys) i ≢ pin_cpu (automatic phys_map num_phys) j
pin_cpu_distinct phys_map num_phys i j covered hi hj different same =
    let first = core_of_pin phys_map num_phys i (covered i hi) hi in
    let second = core_of_pin phys_map num_phys j (covered j hj) hj in
    let at_second : get_elem? phys_map (pos_part (pin_cpu (automatic phys_map num_phys) j))
        ≡ some i =
      rw (sym same) first in
    absurd (different cc)
