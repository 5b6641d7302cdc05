-- ===== src/Mpmc/Refinement.antt =====
-- The ring of 1024 places against a queue as a list of at most 1023 items.
use mathlib.Core.Path.{subst}
use serv_mark.Base.{
  ℕ, zero, suc, ◌+◌, ◌%◌, ◌≡◌, ◌<◌, Bool, true, false, some, List, [], ◌∷◌, ◌++◌, ◌==◌, arith, refl,
  ap, ◌∙◌, sym, if◌then◌else◌, length, length-set, length-append, length-replicate, set, get_or,
  get_elem?, get_elem?-set_self,
}
use serv_mark.Mpmc.{Queue, empty_queue, queue_size, next, mpmc_enqueue, mpmc_dequeue}
use serv_mark.Mpmc.Positions.{Holds, behind, behind_lem, behind-append, Holds-append, Holds-set}

-- The queue stands for the list.
pub record Represents (q : Queue) (xs : List ℕ) : Type 0 where
  pub size : length q.items ≡ 1024
  pub start : q.head < 1024
  pub room : length xs < 1024
  pub held : Holds q.items q.head xs
  pub end : q.tail ≡ behind q.head xs

tail_lem : (q : Queue) (xs : List ℕ) → Represents q xs → q.tail ≡ (q.head + length xs) % 1024
tail_lem q xs r = r.end ∙ behind_lem q.head xs r.start

get_or-get_elem? : (xs : List ℕ) (i d x : ℕ) → get_elem? xs i ≡ some x → get_or xs i d ≡ x
get_or-get_elem? [] i d x h = absurd cc
get_or-get_elem? (y ∷ ys) zero d x h = ground arith
get_or-get_elem? (y ∷ ys) (suc i) d x h = get_or-get_elem? ys i d x h

-- What is done with a queue.
pub data Operation : Type 0 where
  enqueue : ℕ → Operation
  dequeue : Operation

-- The code, with what it returns.
unfoldable pub perform : Operation → Queue → ℕ × Queue
unfolding mpmc_enqueue mpmc_dequeue
perform (enqueue item) q = mpmc_enqueue item q
perform dequeue q = mpmc_dequeue q

-- The specification: first in, first out.
abbrev pub specified : Operation → List ℕ → ℕ × List ℕ
specified (enqueue item) xs = if length xs == 1023 then (0, xs) else (1, xs ++ item ∷ [])
specified dequeue [] = (0, [])
specified dequeue (x ∷ xs) = (x, xs)

abbrev pub results : {S : Type 0} → (Operation → S → ℕ × S) → List Operation → S → List ℕ
results step [] s = []
results step (o ∷ os) s = (step o s).0 ∷ results step os (step o s).1

-- The ring is full exactly if the list is.
full_iff :
    (q : Queue) (xs : List ℕ) → Represents q xs → (next q.tail == q.head) ≡ (length xs == 1023)
full_iff q xs r = let at = tail_lem q xs r in let low = r.start in let few = r.room in ground arith

one_more :
    (xs : List ℕ) (item : ℕ)
    → length xs < 1024
    → (length xs == 1023) ≡ false
    → length (xs ++ item ∷ []) < 1024
one_more xs item few free = ground (arith, length-append xs (item ∷ []))

enqueued :
    (q : Queue) (xs : List ℕ) (item : ℕ)
    → Represents q xs
    → (length xs == 1023) ≡ false
    → Represents
        (record q { items = set q.items q.tail item; tail = next q.tail })
        (xs ++ item ∷ [])
enqueued q xs item r free =
    let at = tail_lem q xs r in
    let low = r.start in
    let wide = r.size in
    record {
      size = length-set q.items q.tail item ∙ r.size;
      start = r.start;
      room = one_more xs item r.room free;
      held =
          Holds-append (set q.items q.tail item) q.head xs item
            (Holds-set q.items q.head (length xs) q.tail xs item r.start r.room (omega arith) at
              r.held)
            (subst (λ p. get_elem? (set q.items q.tail item) p ≡ some item) r.end
              (get_elem?-set_self q.items q.tail item (omega arith)));
      end = ap next r.end ∙ sym (behind-append q.head xs item);
    }

-- One operation returns the same, and leaves a queue that stands for the list.
abbrev Agrees : ℕ × Queue → ℕ × List ℕ → Type 0
Agrees (a, q) (b, xs) = (a ≡ b) × Represents q xs

enqueue-Agrees :
    (q q' : Queue) (xs xs' : List ℕ) (full full' : Bool)
    → full ≡ full'
    → Represents q xs
    → (full' ≡ false → Represents q' xs')
    → Agrees (if full then (0, q) else (1, q')) (if full' then (0, xs) else (1, xs'))
enqueue-Agrees q q' xs xs' true true e r h = (refl, r)
enqueue-Agrees q q' xs xs' true false e r h = absurd cc
enqueue-Agrees q q' xs xs' false true e r h = absurd cc
enqueue-Agrees q q' xs xs' false false e r h = (refl, h refl)

empty_test : (q : Queue) → q.tail ≡ q.head → (q.head == q.tail) ≡ true
empty_test q e = ground arith

nonempty_test :
    (q : Queue) (x : ℕ) (xs : List ℕ) → Represents q (x ∷ xs) → (q.head == q.tail) ≡ false
nonempty_test q x xs r =
    let at = tail_lem q (x ∷ xs) r in let low = r.start in let few = r.room in ground arith

dequeued :
    (q : Queue) (x : ℕ) (xs : List ℕ)
    → Represents q (x ∷ xs)
    → Represents (record q { head = next q.head }) xs
dequeued q x xs r =
    let few = r.room in
    record { size = r.size; start = omega arith; room = omega arith; held = r.held.1; end = r.end }

perform-Agrees :
    (o : Operation) (q : Queue) (xs : List ℕ)
    → Represents q xs
    → Agrees (perform o q) (specified o xs)
unfolding perform
perform-Agrees (enqueue item) q xs r =
    enqueue-Agrees q (record q { items = set q.items q.tail item; tail = next q.tail }) xs
      (xs ++ item ∷ []) (next q.tail == q.head) (length xs == 1023) (full_iff q xs r) r
      (enqueued q xs item r)
perform-Agrees dequeue q [] r = rw (empty_test q r.end) (refl, r)
perform-Agrees dequeue q (x ∷ xs) r =
    rw (nonempty_test q x xs r) (get_or-get_elem? q.items q.head 0 x r.held.0, dequeued q x xs r)

perform-results :
    (os : List Operation) (q : Queue) (xs : List ℕ)
    → Represents q xs
    → results perform os q ≡ results specified os xs
perform-results [] q xs r = refl
perform-results (o ∷ os) q xs r =
    let (same, after) = perform-Agrees o q xs r in
    ap (λ a. a ∷ results perform os (perform o q).1) same
    ∙ ap (λ rest. (specified o xs).0 ∷ rest)
        (perform-results os (perform o q).1 (specified o xs).1 after)

pub empty-Represents : Represents empty_queue []
empty-Represents = record {
  size = length-replicate {A = ℕ} queue_size 0;
  start = omega arith;
  room = omega arith;
  held = tt;
  end = refl;
}

-- Whatever is put into the queue and taken from it, one operation after the other, the ring returns
-- what a list of at most 1023 items does, first in, first out: 0 for a full list and 1 otherwise when
-- an item is put in, and the item, or 0 from an empty list, when one is taken.
pub perform-fifo : (os : List Operation) → results perform os empty_queue ≡ results specified os []
perform-fifo os = perform-results os empty_queue [] empty-Represents
