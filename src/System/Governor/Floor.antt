-- ===== src/System/Governor/Floor.antt =====
-- What a restore does not undo: the lowest frequency, and a lock that was taken twice.
use serv_mark.Base.{
  ℕ, zero, suc, ◌+◌, ◌≡◌, ◌≢◌, ◌≤◌, ◌<◌, inl, inr, true, Option, none, some, [], ◌∷◌, ◌==◌, arith,
  refl, ap, ◌∙◌, Bool-cases, ℤ, Text, length, get_or, codes, lacks-Lacks,
}
use serv_mark.System.Governor.Locked.{lock_governors-before, update_self, length-save_governor}
use serv_mark.System.Governor.Restore.{restored_one, pin_minimum-frame}
use serv_mark.System.Governor.{
  Cpufreq, Frequency, cpu_limit, performance, lock_governors, lock_at, max_line, raise_floor,
  pin_minimum, system_lock_frequency, restore_one, restore_governors, system_restore_frequency,
  max_governors, read_governor,
}

-- The files of the frequencies pass the first loop and a restore as they are.
abbrev pub SameFloor : Cpufreq → Cpufreq → Type 0
SameFloor c c' =
    (c'.min_freq ≡ c.min_freq) × (c'.max_freq ≡ c.max_freq) × (c'.min_opens ≡ c.min_opens)

lock_governors-SameFloor :
    (n cpu : ℕ) (s : Frequency) → SameFloor s.cpus (lock_governors n cpu s).cpus
unfolding lock_governors
lock_governors-SameFloor zero cpu s = (refl, refl, refl)
lock_governors-SameFloor (suc n) cpu s = elim (Bool-cases (s.cpus.governor_opens cpu)) [
  | inl opens ↦ rw (lock_governors, opens) (lock_governors-SameFloor n (cpu + 1) (lock_at cpu s))
  | inr shut ↦ rw (lock_governors, shut) (refl, refl, refl)
]

restore_one-min_freq :
    (cpu : ℕ) (t : Text) (s : Frequency) → (restore_one cpu t s).cpus.min_freq ≡ s.cpus.min_freq
restore_one-min_freq cpu [] s = refl
restore_one-min_freq cpu (c ∷ cs) s = ground arith

restore_governors-min_freq :
    (n cpu : ℕ) (s : Frequency) → (restore_governors n cpu s).cpus.min_freq ≡ s.cpus.min_freq
unfolding restore_governors
restore_governors-min_freq zero cpu s = refl
restore_governors-min_freq (suc n) cpu s =
    let t = get_or s.saved cpu [] in
    restore_governors-min_freq n (cpu + 1) (restore_one cpu t s) ∙ restore_one-min_freq cpu t s

raise_floor-max :
    (cpu : ℕ) (line : Option Text) (c : Cpufreq)
    → ((raise_floor cpu line c).max_freq ≡ c.max_freq)
      × ((raise_floor cpu line c).min_opens ≡ c.min_opens)
raise_floor-max cpu none c = (refl, refl)
raise_floor-max cpu (some line) c = ground arith

raise_floor-ne :
    (cpu j : ℕ) (line : Option Text) (c : Cpufreq)
    → cpu ≢ j
    → (raise_floor cpu line c).min_freq j ≡ c.min_freq j
raise_floor-ne cpu j none c other = refl
raise_floor-ne cpu j (some line) c other = ground arith

pin_minimum-before :
    (n cpu j : ℕ) (c : Cpufreq) → j < cpu → (pin_minimum n cpu c).min_freq j ≡ c.min_freq j
unfolding pin_minimum
pin_minimum-before zero cpu j c h = refl
pin_minimum-before (suc n) cpu j c h =
    let line = max_line (c.max_freq cpu) in
    pin_minimum-before n (cpu + 1) j (raise_floor cpu line c) (omega arith)
    ∙ raise_floor-ne cpu j line c (omega arith)

pin_minimum-at :
    (n cpu j : ℕ) (line : Text) (c : Cpufreq)
    → cpu ≤ j
    → j < cpu + n
    → max_line (c.max_freq j) ≡ some line
    → c.min_opens j ≡ true
    → (pin_minimum n cpu c).min_freq j ≡ some line
unfolding pin_minimum
pin_minimum-at zero cpu j line c low high read opens = absurd (omega arith)
pin_minimum-at (suc n) cpu j line c low high read opens =
    let now = max_line (c.max_freq cpu) in
    elim (Bool-cases (cpu == j)) [
      | inl here ↦
          let same : j ≡ cpu = ground arith in
          let found : max_line (c.max_freq cpu) ≡ some line = rw (← same) read in
          let open_here : c.min_opens cpu ≡ true = rw (← same) opens in
          pin_minimum-before n (cpu + 1) j (raise_floor cpu now c) (omega arith)
          ∙ rw (same, found, open_here) (update_self c.min_freq cpu line)
      | inr later ↦
          let (max_same, opens_same) = raise_floor-max cpu now c in
          pin_minimum-at n (cpu + 1) j line (raise_floor cpu now c) (ground arith) (omega arith)
            (rw max_same read) (rw opens_same opens)
    ]

-- The lowest frequency that a lock has raised to the highest stays there after the restore: it is the
-- line of scaling_max_freq, for every CPU of the loop whose two files can be opened.
pub system_restore_frequency-min_freq :
    (nconf : ℤ) (s : Frequency) (j : ℕ) (line : Text)
    → j < cpu_limit nconf
    → max_line (s.cpus.max_freq j) ≡ some line
    → s.cpus.min_opens j ≡ true
    → (system_restore_frequency (system_lock_frequency nconf s)).cpus.min_freq j ≡ some line
unfolding system_restore_frequency system_lock_frequency
system_restore_frequency-min_freq nconf s j line below read opens =
    let n = cpu_limit nconf in
    let s1 = lock_governors n 0 (record s { saved_count = 0 }) in
    let (min_same, max_same, opens_same) =
      lock_governors-SameFloor n 0 (record s { saved_count = 0 }) in
    let s2 = record s1 { cpus = pin_minimum n 0 s1.cpus } in
    ap (λ (f : ℕ → Option Text). f j) (restore_governors-min_freq s2.saved_count 0 s2)
    ∙ pin_minimum-at n 0 j line s1.cpus (omega arith) (omega arith) (rw max_same read)
        (rw opens_same opens)

-- A lock whose files can all be written sets every governor of the loop.
lock_governors-performance :
    (n cpu j : ℕ) (s : Frequency)
    → ((k : ℕ) → k < cpu + n → s.cpus.governor_opens k ≡ true)
    → cpu ≤ j
    → j < cpu + n
    → (lock_governors n cpu s).cpus.governor j ≡ some performance
unfolding lock_governors
lock_governors-performance zero cpu j s opens low high = absurd (omega arith)
lock_governors-performance (suc n) cpu j s opens low high =
    rw (lock_governors, opens cpu (omega arith))
      (elim (Bool-cases (cpu == j)) [
        | inl here ↦
            let same : j ≡ cpu = ground arith in
            rw same (
              (lock_governors-before n (cpu + 1) cpu (lock_at cpu s) (omega arith)).1
              ∙ update_self s.cpus.governor cpu performance)
        | inr later ↦
            lock_governors-performance n (cpu + 1) j (lock_at cpu s) (λ k h. opens k (omega arith))
              (ground arith) (omega arith)
      ])

length-lock_governors :
    (n cpu : ℕ) (s : Frequency) → length (lock_governors n cpu s).saved ≡ length s.saved
unfolding lock_governors
length-lock_governors zero cpu s = refl
length-lock_governors (suc n) cpu s =
    let one = length-save_governor (read_governor (s.cpus.governor cpu)) cpu s.saved in
    elim (Bool-cases (s.cpus.governor_opens cpu)) [
      | inl opens ↦
          rw (lock_governors, opens) (length-lock_governors n (cpu + 1) (lock_at cpu s) ∙ one)
      | inr shut ↦ rw (lock_governors, shut) one
    ]

-- If the frequency is locked twice before it is restored, the governors that were there before are
-- lost: a CPU of the loop keeps the governor of the lock, where all files of the loop can be written.
pub system_restore_frequency-lock_twice :
    (nconf : ℤ) (s : Frequency) (j : ℕ)
    → length s.saved ≡ max_governors
    → ((k : ℕ) → k < cpu_limit nconf → s.cpus.governor_opens k ≡ true)
    → j < cpu_limit nconf
    → j < max_governors
    → (system_restore_frequency
          (system_lock_frequency nconf (system_lock_frequency nconf s))).cpus.governor
        j
      ≡ some performance
unfolding system_lock_frequency
system_restore_frequency-lock_twice nconf s j size opens below small =
    let n = cpu_limit nconf in
    let s0 = record s { saved_count = 0 } in
    let s1 = lock_governors n 0 s0 in
    let locked : (system_lock_frequency nconf s).cpus.governor j ≡ some performance =
      ap (λ (f : ℕ → Option Text). f j) ((pin_minimum-frame n 0 s1.cpus).0)
      ∙ lock_governors-performance n 0 j s0 (λ k h. opens k (omega arith)) (omega arith)
          (omega arith) in
    restored_one nconf (system_lock_frequency nconf s) j (codes "performance")
      (rw (length-lock_governors n 0 s0, size) small)
      (λ o. (locked, (lacks-Lacks 10 (codes "performance") refl, omega arith)))
    ∙ locked
