-- ===== src/Mpmc/Race.antt =====
-- Two producers at once: `mpmc_enqueue` taken apart into its atomic loads and stores, in any order
-- between the two. Every thread sees the stores of the other at once; weaker orders of memory allow
-- more.
use mathlib.Core.Path.{subst}
use serv_mark.Base.{
  ℕ, ◌≡◌, false, Bool-cases, inl, inr, [], ◌∷◌, ◌==◌, if◌then◌else◌, refl, ap, set, get_elem?, some,
  get_elem?-set_self, arith, length-set, ◌∙◌,
}
use serv_mark.Mpmc.{Queue, next, mpmc_enqueue}
use serv_mark.Mpmc.Refinement.{Represents}

-- Where a producer stands, with its local `t`, and its result at the end.
pub data Place : Type 0 where
  begun : Place
  loaded reserved stored : ℕ → Place
  finished : ℕ → Place

-- The next load or store of a producer.
unfoldable pub advance : ℕ → Place × Queue → Place × Queue
advance item (begun, q) = (loaded q.tail, q)
advance item (loaded t, q) = (if next t == q.head then finished 0 else reserved t, q)
advance item (reserved t, q) = (stored t, record q { items = set q.items t item })
advance item (stored t, q) = (finished 1, record q { tail = next t })
advance item (finished ret, q) = (finished ret, q)

-- Both producers, with their items.
pub record Producers : Type 0 where
  pub queue : Queue
  pub first : Place
  pub second : Place

pub data Step (a b : ℕ) : Producers → Producers → Type 0 where
  by_first :
      (s : Producers)
      → Step a b s (record {
        queue = (advance a (s.first, s.queue)).1;
        first = (advance a (s.first, s.queue)).0;
        second = s.second;
      })
  by_second :
      (s : Producers)
      → Step a b s (record {
        queue = (advance b (s.second, s.queue)).1;
        first = s.first;
        second = (advance b (s.second, s.queue)).0;
      })

pub data Reach (a b : ℕ) : Producers → Producers → Type 0 where
  here : (s : Producers) → Reach a b s s
  step : {s t u : Producers} → Step a b s t → Reach a b t u → Reach a b s u

abbrev pub completed : ℕ × Queue → Place × Queue
completed (ret, q) = (finished ret, q)

-- A producer on its own does what `mpmc_enqueue` does.
pub advance-mpmc_enqueue :
    (item : ℕ) (q : Queue)
    → advance item (advance item (advance item (advance item (begun, q))))
      ≡ completed (mpmc_enqueue item q)
unfolding advance mpmc_enqueue
advance-mpmc_enqueue item q = elim (Bool-cases (next q.tail == q.head)) [
  | inl full ↦ rw (advance, mpmc_enqueue, full) refl
  | inr free ↦ rw (advance, mpmc_enqueue, free) refl
]

abbrev pub both : Queue → Place → Place → Producers
both q first second = record { queue = q; first = first; second = second }

free_place :
    (q : Queue) (t : ℕ)
    → (next t == q.head) ≡ false
    → (if next t == q.head then finished 0 else reserved t) ≡ reserved t
free_place q t free = rw free refl

-- The load of the head, where there is room.
check_first :
    (a b : ℕ) (q : Queue) (t : ℕ) (second : Place)
    → (next t == q.head) ≡ false
    → Step a b (both q (loaded t) second) (both q (reserved t) second)
unfolding advance
check_first a b q t second free =
    subst (λ p. Step a b (both q (loaded t) second) (both q p second)) (free_place q t free)
      (by_first (both q (loaded t) second))

check_second :
    (a b : ℕ) (q : Queue) (t : ℕ) (first : Place)
    → (next t == q.head) ≡ false
    → Step a b (both q first (loaded t)) (both q first (reserved t))
unfolding advance
check_second a b q t first free =
    subst (λ p. Step a b (both q first (loaded t)) (both q first p)) (free_place q t free)
      (by_second (both q first (loaded t)))

-- What two producers leave that both load the tail before either stores it.
abbrev pub overwritten : ℕ → ℕ → Queue → Queue
overwritten a b q = record q { items = set (set q.items q.tail a) q.tail b; tail = next q.tail }

overwrites :
    (a b : ℕ) (q : Queue)
    → (next q.tail == q.head) ≡ false
    → Reach a b (both q begun begun) (both (overwritten a b q) (finished 1) (finished 1))
unfolding advance
overwrites a b q free =
    let t = q.tail in
    let q1 = record q { items = set q.items t a } in
    let q2 = record q { items = set (set q.items t a) t b } in
    let q3 = record q2 { tail = next t } in
    step (by_first (both q begun begun)) (
      step (by_second (both q (loaded t) begun)) (
        step (check_first a b q t (loaded t) free) (
          step (check_second a b q t (reserved t) free) (
            step (by_first (both q (reserved t) (reserved t))) (
              step (by_second (both q1 (stored t) (reserved t))) (
                step (by_first (both q2 (stored t) (stored t))) (
                  step (by_second (both q3 (finished 1) (stored t)))
                    (here (both q3 (finished 1) (finished 1))))))))))

room_left : (q : Queue) → Represents q [] → (next q.tail == q.head) ≡ false
room_left q r = let same = r.end in let low = r.start in ground arith

-- Two producers that start on an empty queue can both be told that their items were put in, when the
-- queue holds just one of the two.
pub Reach-lost :
    (a b : ℕ) (q : Queue)
    → Represents q []
    → Reach a b (both q begun begun) (both (overwritten a b q) (finished 1) (finished 1))
      × Represents (overwritten a b q) (b ∷ [])
Reach-lost a b q r =
    let same = r.end in
    let low = r.start in
    let wide = length-set q.items q.tail a ∙ r.size in
    (
      overwrites a b q (room_left q r),
      record {
        size = length-set (set q.items q.tail a) q.tail b ∙ wide;
        start = r.start;
        room = omega arith;
        held = (
          subst (λ p. get_elem? (set (set q.items q.tail a) q.tail b) p ≡ some b) same
              (get_elem?-set_self (set q.items q.tail a) q.tail b (omega arith)),
          tt,
        );
        end = ap next same;
      },
    )
