-- ===== src/Tests/Mpmc.antt =====
use serv_mark.Base.{◌≡◌, List, [], ◌∷◌, refl}
use serv_mark.Mpmc.Race.{Reach, both, begun, finished, overwritten, Reach-lost}
use serv_mark.Mpmc.Refinement.{
  Operation, enqueue, dequeue, Represents, empty-Represents, perform, specified, results,
  perform-fifo,
}
use serv_mark.Mpmc.{empty_queue}

abbrev calls : List Operation
calls = enqueue 7 ∷ enqueue 0 ∷ dequeue ∷ dequeue ∷ dequeue ∷ []

-- An item 0 and an empty queue look alike.
returned_items : results specified calls [] ≡ 1 ∷ 1 ∷ 7 ∷ 0 ∷ 0 ∷ []
returned_items = refl

perform-fifo_example : results perform calls empty_queue ≡ results specified calls []
perform-fifo_example = perform-fifo calls

Reach-lost_example :
    Reach 5 6
      (both empty_queue begun begun)
      (both (overwritten 5 6 empty_queue) (finished 1) (finished 1))
    × Represents (overwritten 5 6 empty_queue) (6 ∷ [])
Reach-lost_example = Reach-lost 5 6 empty_queue empty-Represents
