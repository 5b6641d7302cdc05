-- ===== src/Harness/Setup.antt =====
-- The static variables of `harness_run_parallel` in src/core/harness.c and their initialisation, which
-- the first call makes. The arrays are allocated; warnings are left out, but not the reads for them.
pub mod Pins
use serv_mark.Base.{
  ℕ, zero, suc, ◌+◌, Bool, true, false, ◌&&◌, ◌||◌, Option, none, some, List, [], ◌∷◌, ltb,
  if◌then◌else◌, ℤ, pos, negsuc, ltb_ℤ, Text, replicate, get_or,
}
use serv_mark.Config.{RunConfig}
use serv_mark.Harness.Cores.{PhysicalCores, no_cores, outside, cores, harness_get_physical_cores}
use serv_mark.Harness.CpuSpec.{NodeFile, harness_parse_cpu_spec}
use serv_mark.Harness.NumaBind.{Binding, unbound, harness_parse_numa_bind}
use serv_mark.Harness.Parallel.{Placement}
use serv_mark.Harness.Policy.{Membind, membind_of}

-- `s_phys_map`, `s_num_phys`, `s_manual_pins` and `s_manual_pin_count` are the placement.
pub record Statics : Type 0 where
  pub placement : Placement
  pub cpu_to_numa : List ℤ
  pub numa_topo_set : Bool
  pub membind : Membind

-- The number of processors and the files that the parsers read.
pub record Surroundings : Type 0 where
  pub ncpu : ℕ
  pub siblings : ℕ → Option Text
  pub nodes : ℕ → NodeFile
  pub read_file : Text → Option Text
  pub allocated : Bool

abbrev pub is_null {ℓ} : {A : Type ℓ} → Option A → Bool
is_null none = true
is_null (some x) = false

-- The map of the cores; `none` is a write in front of its arrays.
abbrev pub detected : PhysicalCores → Placement → Option Placement
detected no_cores p = some (record p { phys_map = none })
detected outside p = none
detected (cores map n) p = some (record p { phys_map = some map; num_phys = n })

abbrev pub pinned : Surroundings → Option Text → Placement → Placement
pinned env none p = p
pinned env (some spec) p = record p {
  manual_pins = (harness_parse_cpu_spec env.ncpu env.nodes env.allocated (some spec)).0;
}

-- `s_cpu_to_numa` with the number of CPUs that are bound.
abbrev pub topology : Surroundings → Option Text → Option Binding
topology env none = some (unbound env.ncpu)
topology env (some []) = some (unbound env.ncpu)
topology env (some (c ∷ cs)) = harness_parse_numa_bind env.ncpu env.ncpu env.read_file (c ∷ cs)

abbrev pub one_more : Bool → Option ℕ → Option ℕ
one_more missing none = none
one_more missing (some n) = some (if missing then suc n else n)

-- `missing`; `none` is a read in front of the array.
unfoldable pub missing_in : ℕ → List ℤ → List ℤ → Option ℕ
missing_in ncpu cpu_to_numa [] = some 0
missing_in ncpu cpu_to_numa (negsuc c ∷ pins) = none
missing_in ncpu cpu_to_numa (pos c ∷ pins) =
    one_more (ltb c ncpu && ltb_ℤ (get_or cpu_to_numa c (pos 0)) (pos 0))
      (missing_in ncpu cpu_to_numa pins)

abbrev pub checked : Surroundings → Placement → Binding → Option ℕ
checked env p b = elim p.manual_pins [
  | none ↦ some 0
  | some pins ↦ if ltb 0 b.bound then missing_in env.ncpu b.cpu_to_numa pins else some 0
]

abbrev pub statics_of : Option Text → Placement → Binding → Option ℕ → Option Statics
statics_of membind_spec p b none = none
statics_of membind_spec p b (some missing) = some (record {
  placement = p;
  cpu_to_numa = b.cpu_to_numa;
  numa_topo_set = ltb 0 b.bound;
  membind = membind_of membind_spec;
})

abbrev pub with_binding : Surroundings → Option Text → Placement → Option Binding → Option Statics
with_binding env membind_spec p none = none
with_binding env membind_spec p (some b) = statics_of membind_spec p b (checked env p b)

module _ {D : Type 0} where
  abbrev pub with_placement : Surroundings → RunConfig D → Option Placement → Option Statics
  with_placement env config none = none
  with_placement env config (some p) =
      with_binding env config.membind_spec (pinned env config.cpu_pin_spec p)
        (topology env config.numa_topo_spec)

  -- `none` is undefined behaviour on the way.
  unfoldable pub set_up : Surroundings → RunConfig D → Statics → Option Statics
  unfolding missing_in
  set_up env config s =
      if is_null s.placement.phys_map && is_null s.placement.manual_pins
      then with_placement env config
          (detected (harness_get_physical_cores env.allocated env.siblings env.ncpu) s.placement)
      else some s
