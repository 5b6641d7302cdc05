-- ===== src/Harness/Setup/Pins.antt =====
-- Where the instances of a run with an explicit list of CPUs are pinned.
use mathlib.Core.Path.{subst}
use serv_mark.Base.Scan.{tokens}
use serv_mark.Base.{
  ℕ, ◌≡◌, ◌⊎◌, inl, inr, ◌%◌, zero, suc, true, Option, none, some, List, [], ◌∷◌, refl, ap, ◌∙◌, ℤ,
  pos, Text, All, length, get_or,
}
use serv_mark.Config.{RunConfig}
use serv_mark.Harness.CpuSpec.Sound.{IsExplicit, Named, Below, harness_parse_cpu_spec_explicit}
use serv_mark.Harness.CpuSpec.{is_comma, harness_parse_cpu_spec}
use serv_mark.Harness.NumaBind.{Binding}
use serv_mark.Harness.Parallel.{Placement, pin_cpu}
use serv_mark.Harness.Setup.{
  Statics, Surroundings, set_up, with_placement, with_binding, statics_of, pinned, topology,
  checked,
}

abbrev PinsAre : Option (List ℤ) → Option Statics → Type 0
PinsAre pins none = Unit
PinsAre pins (some s) = s.placement.manual_pins ≡ pins

statics_of-PinsAre :
    (spec : Option Text) (p : Placement) (b : Binding) (o : Option ℕ)
    → PinsAre p.manual_pins (statics_of spec p b o)
statics_of-PinsAre spec p b none = tt
statics_of-PinsAre spec p b (some n) = refl

with_binding-PinsAre :
    (env : Surroundings) (spec : Option Text) (p : Placement) (o : Option Binding)
    → PinsAre p.manual_pins (with_binding env spec p o)
with_binding-PinsAre env spec p none = tt
with_binding-PinsAre env spec p (some b) = statics_of-PinsAre spec p b (checked env p b)

pinned-PinsAre :
    (env : Surroundings) (spec : Text) (p : Placement) (o : Option Text)
    → o ≡ some spec
    → (pinned env o p).manual_pins
      ≡ (harness_parse_cpu_spec env.ncpu env.nodes env.allocated (some spec)).0
pinned-PinsAre env spec p o e = rw e refl

All-get_or : (P : ℤ → Type 0) (xs : List ℤ) (i : ℕ) (d : ℤ) → All P xs → P d → P (get_or xs i d)
All-get_or P [] i d h hd = hd
All-get_or P (x ∷ xs) zero d (h, hs) hd = h
All-get_or P (x ∷ xs) (suc i) d (h, hs) hd = All-get_or P xs i d hs hd

pin_cpu-All :
    (P : ℤ → Type 0) (p : Placement) (list : List ℤ)
    → p.manual_pins ≡ some list
    → All P list
    → (list ≡ []) ⊎ ((i : ℕ) → P (pin_cpu p i))
unfolding pin_cpu
pin_cpu-All P p [] e h = inl refl
pin_cpu-All P p (c ∷ cs) e (h, hs) =
    inr (λ i. rw (pin_cpu, e) (All-get_or P (c ∷ cs) (i % length (c ∷ cs)) c (h, hs) h))

module _ {D : Type 0} where
  with_placement-PinsAre :
      (env : Surroundings) (config : RunConfig D) (spec : Text) (o : Option Placement)
      → config.cpu_pin_spec ≡ some spec
      → PinsAre
          (harness_parse_cpu_spec env.ncpu env.nodes env.allocated (some spec)).0
          (with_placement env config o)
  with_placement-PinsAre env config spec none e = tt
  with_placement-PinsAre env config spec (some p) e =
      subst
        (λ pins. PinsAre pins (
          with_binding env config.membind_spec (pinned env config.cpu_pin_spec p)
            (topology env config.numa_topo_spec)))
        (pinned-PinsAre env spec p config.cpu_pin_spec e)
        (with_binding-PinsAre env config.membind_spec (pinned env config.cpu_pin_spec p)
          (topology env config.numa_topo_spec))

  set_up-PinsAre :
      (env : Surroundings) (config : RunConfig D) (s : Statics) (spec : Text)
      → s.placement.phys_map ≡ none
      → s.placement.manual_pins ≡ none
      → config.cpu_pin_spec ≡ some spec
      → PinsAre
          (harness_parse_cpu_spec env.ncpu env.nodes env.allocated (some spec)).0
          (set_up env config s)
  unfolding set_up
  set_up-PinsAre env config s spec no_map no_pins e =
      rw (set_up, no_map, no_pins) (with_placement-PinsAre env config spec _ e)

  -- After the first set-up with an explicit list of CPUs, if its behaviour is defined and memory is
  -- at hand, every instance is
  -- pinned to a CPU that the list names and that is below the number of CPUs, or the list names none.
  pub set_up-pins :
      (env : Surroundings) (config : RunConfig D) (s ready : Statics) (spec : Text)
      → s.placement.phys_map ≡ none
      → s.placement.manual_pins ≡ none
      → env.allocated ≡ true
      → config.cpu_pin_spec ≡ some spec
      → IsExplicit spec
      → set_up env config s ≡ some ready
      → (ready.placement.manual_pins ≡ some [])
        ⊎ ((i : ℕ)
            → Named (tokens is_comma spec) (pin_cpu ready.placement i)
              × Below (pos env.ncpu) (pin_cpu ready.placement i))
  set_up-pins env config s ready spec no_map no_pins memory given explicit done =
      let (list, parsed, sound, _, _) =
        harness_parse_cpu_spec_explicit env.ncpu env.nodes spec explicit in
      let held =
        subst (PinsAre (harness_parse_cpu_spec env.ncpu env.nodes env.allocated (some spec)).0) done
          (set_up-PinsAre env config s spec no_map no_pins given) in
      let pins : ready.placement.manual_pins ≡ some list =
        held
        ∙ ap (λ a. (harness_parse_cpu_spec env.ncpu env.nodes a (some spec)).0) memory
        ∙ ap (λ r. r.0) parsed in
      elim (pin_cpu-All (λ c. Named (tokens is_comma spec) c × Below (pos env.ncpu) c)
        ready.placement list pins sound) [
          | inl nothing ↦ inl (pins ∙ ap some nothing)
          | inr all ↦ inr all
        ]
