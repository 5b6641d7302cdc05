-- ===== src/System/Governor/Restore.antt =====
-- The governors that come back when a lock is undone.
use serv_mark.Base.{
  ℕ, zero, suc, ◌+◌, ◌≡◌, ◌≤◌, ◌<◌, ◌⊎◌, inl, inr, Bool, false, Option, none, some, [], ◌∷◌, ◌++◌,
  ◌==◌, arith, refl, sym, ◌∙◌, if◌then◌else◌, Bool-cases, ℤ, Text, length, get_or,
}
use serv_mark.System.Governor.{
  Cpufreq, Frequency, cpu_limit, lock_governors, max_line, raise_floor, pin_minimum,
  system_lock_frequency, restore_one, restore_governors, system_restore_frequency, max_governors,
}
use serv_mark.System.Governor.Locked.{
  lock_governors-opens, Holds, IsLocked, IsPassed, lock_governors-at,
}

-- Restoring: `t` is what was saved of a CPU.
abbrev pub back : Text → Bool → Option Text → Option Text
back [] opens now = now
back (c ∷ cs) opens now = if opens then some ((c ∷ cs) ++ 10 ∷ []) else now

restore_one-governor :
    (cpu j : ℕ) (t : Text) (s : Frequency)
    → (restore_one cpu t s).cpus.governor j ≡ (
        if cpu == j
        then back t (s.cpus.governor_opens cpu) (s.cpus.governor j)
        else s.cpus.governor j)
restore_one-governor cpu j [] s = ground arith
restore_one-governor cpu j (c ∷ cs) s = ground arith

pub restore_one-frame :
    (cpu : ℕ) (t : Text) (s : Frequency)
    → ((restore_one cpu t s).saved ≡ s.saved)
      × ((restore_one cpu t s).cpus.governor_opens ≡ s.cpus.governor_opens)
restore_one-frame cpu [] s = (refl, refl)
restore_one-frame cpu (c ∷ cs) s = ground arith

restore_governors-outside :
    (n cpu j : ℕ) (s : Frequency)
    → (j < cpu) ⊎ (cpu + n ≤ j)
    → (restore_governors n cpu s).cpus.governor j ≡ s.cpus.governor j
unfolding restore_governors
restore_governors-outside zero cpu j s h = refl
restore_governors-outside (suc n) cpu j s h =
    let t = get_or s.saved cpu [] in
    let other : (cpu == j) ≡ false = ground arith in
    let further : (j < cpu + 1) ⊎ (cpu + 1 + n ≤ j) = ground arith in
    restore_governors-outside n (cpu + 1) j (restore_one cpu t s) further
    ∙ restore_one-governor cpu j t s
    ∙ rw other refl

restore_governors-inside :
    (n cpu j : ℕ) (s : Frequency)
    → cpu ≤ j
    → j < cpu + n
    → (restore_governors n cpu s).cpus.governor j
      ≡ back (get_or s.saved j []) (s.cpus.governor_opens j) (s.cpus.governor j)
unfolding restore_governors
restore_governors-inside zero cpu j s low high = absurd (omega arith)
restore_governors-inside (suc n) cpu j s low high =
    let t = get_or s.saved cpu [] in
    let s1 = restore_one cpu t s in
    let (saved, opens) = restore_one-frame cpu t s in
    elim (Bool-cases (cpu == j)) [
      | inl here ↦
          let same : cpu ≡ j = ground arith in
          restore_governors-outside n (cpu + 1) j s1 (inl (omega arith))
          ∙ restore_one-governor cpu j t s
          ∙ rw (here, same) refl
      | inr later ↦
          restore_governors-inside n (cpu + 1) j s1 (ground arith) (omega arith)
          ∙ rw (saved, opens) (rw (restore_one-governor cpu j t s, later) refl)
    ]

raise_floor-frame :
    (cpu : ℕ) (line : Option Text) (c : Cpufreq)
    → ((raise_floor cpu line c).governor ≡ c.governor)
      × ((raise_floor cpu line c).governor_opens ≡ c.governor_opens)
raise_floor-frame cpu none c = (refl, refl)
raise_floor-frame cpu (some line) c = ground arith

pub pin_minimum-frame :
    (n cpu : ℕ) (c : Cpufreq)
    → ((pin_minimum n cpu c).governor ≡ c.governor)
      × ((pin_minimum n cpu c).governor_opens ≡ c.governor_opens)
unfolding pin_minimum
pin_minimum-frame zero cpu c = (refl, refl)
pin_minimum-frame (suc n) cpu c =
    let line = max_line (c.max_freq cpu) in
    let rest = pin_minimum-frame n (cpu + 1) (raise_floor cpu line c) in
    let (governor, opens) = raise_floor-frame cpu line c in (rest.0 ∙ governor, rest.1 ∙ opens)

-- What the restored governors are, from the state that a lock leaves.
restored :
    (j : ℕ) (name : Text) (s s' : Frequency)
    → Holds j name s.cpus
    → s'.cpus.governor_opens ≡ s.cpus.governor_opens
    → IsLocked j name s' ⊎ IsPassed j s s'
    → (restore_governors s'.saved_count 0 s').cpus.governor j ≡ s.cpus.governor j
restored j [] s s' holds same (inl (below, opens, kept)) = absurd ((holds (rw (← same) opens)).1)
restored j (c ∷ cs) s s' holds same (inl (below, opens, kept)) =
    let line = (holds (rw (← same) opens)).0 in
    restore_governors-inside s'.saved_count 0 j s' (omega arith) (omega arith)
    ∙ rw (kept, opens) (sym line)
restored j name s s' holds same (inr (after, untouched)) =
    restore_governors-outside s'.saved_count 0 j s' (inr (omega arith)) ∙ untouched

-- The second loop of the lock changes nothing of this.
after_pin :
    (n j : ℕ) (name : Text) (s s' : Frequency)
    → IsLocked j name s' ⊎ IsPassed j s s'
    → let s2 = record s' { cpus = pin_minimum n 0 s'.cpus } in IsLocked j name s2 ⊎ IsPassed j s s2
after_pin n j name s s' (inl (below, opens, kept)) =
    inl (below, rw ((pin_minimum-frame n 0 s'.cpus).1) opens, kept)
after_pin n j name s s' (inr (after, untouched)) =
    inr (after, rw ((pin_minimum-frame n 0 s'.cpus).0) untouched)

abbrev pin_opens : ℕ → Frequency → ℕ → Bool
pin_opens n s = (pin_minimum n 0 s.cpus).governor_opens

-- For one CPU.
pub restored_one :
    (nconf : ℤ) (s : Frequency) (j : ℕ) (name : Text)
    → j < length s.saved
    → Holds j name s.cpus
    → (system_restore_frequency (system_lock_frequency nconf s)).cpus.governor j ≡ s.cpus.governor j
unfolding system_restore_frequency system_lock_frequency
restored_one nconf s j name room holds =
    let n = cpu_limit nconf in
    let s0 = record s { saved_count = 0 } in
    let s1 = lock_governors n 0 s0 in
    let opens : pin_opens n s1 ≡ s.cpus.governor_opens =
      (pin_minimum-frame n 0 s1.cpus).1 ∙ lock_governors-opens n 0 s0 in
    restored j name s (record s1 { cpus = pin_minimum n 0 s1.cpus }) holds opens
      (after_pin n j name s s1 (lock_governors-at n 0 j name s0 refl (omega arith) room holds))

-- Restoring after a lock gives every CPU below 4096 the governor that it had, if the table has its
-- 4096 places and the governor file of each such CPU that can be written held the name of a governor,
-- of 1 to 30 characters, on a line: whichever files cannot be written, and also where the lock broke
-- off at one of them.
pub system_restore_frequency-lock :
    (nconf : ℤ) (s : Frequency) (names : ℕ → Text)
    → length s.saved ≡ max_governors
    → ((j : ℕ) → j < max_governors → Holds j (names j) s.cpus)
    → (j : ℕ) → j < max_governors
    → (system_restore_frequency (system_lock_frequency nconf s)).cpus.governor j ≡ s.cpus.governor j
system_restore_frequency-lock nconf s names size holds j below =
    restored_one nconf s j (names j) (rw size below) (holds j below)
