-- ===== src/Registry/Refinement.antt =====
-- The table against a list of at most 128 benchmarks: whatever is done with it, nobody can tell the
-- two apart.
use serv_mark.Base.{
  ℕ, ◌≡◌, Bool, true, false, some, List, [], ◌∷◌, ◌++◌, arith, refl, ap, ◌∙◌, leb, ◌==◌,
  if◌then◌else◌, ℤ, pos, negsuc, Text, text_eq, length, length-append, keep,
}
use serv_mark.Benchmark.{Benchmark}
use serv_mark.Registry.Laws.{IsValid, select-eq-keep}
use serv_mark.Registry.{
  Registry, Listing, listed, out_of_memory, max_benchmarks, no_benchmarks, benchmark_register,
  benchmark_get_all, benchmark_get_by_category, benchmark_get_by_tier,
}

-- What a caller does, and what it gets; the Boolean says that `calloc` gives an array.
pub data Operation (D W : Type 0) : Type 0 where
  register : Benchmark D W → Operation D W
  get_all : Operation D W
  get_by_category : Bool → Text → Operation D W
  get_by_tier : Bool → ℕ → Operation D W

pub data Answer (D W : Type 0) : Type 0 where
  code : ℤ → Answer D W
  listing : Listing D W → Answer D W

module _ {D W : Type 0} where
  abbrev pub coded : ℤ × Registry D W → Answer D W × Registry D W
  coded (ret, r) = (code ret, r)

  -- The code.
  unfoldable pub perform : Operation D W → Registry D W → Answer D W × Registry D W
  unfolding benchmark_register benchmark_get_all benchmark_get_by_category benchmark_get_by_tier
  perform (register b) r = coded (benchmark_register b r)
  perform get_all r = (listing (benchmark_get_all true r), r)
  perform (get_by_category allocated category) r =
      (listing (benchmark_get_by_category true allocated (some category) r), r)
  perform (get_by_tier allocated tier) r =
      (listing (benchmark_get_by_tier true allocated tier r), r)

  abbrev pub found : Bool → List (Benchmark D W) → Listing D W
  found true bs = listed bs (length bs)
  found false bs = out_of_memory

  -- The specification, on a list.
  abbrev pub specified : Operation D W → List (Benchmark D W) → Answer D W × List (Benchmark D W)
  specified (register b) bs =
      if leb max_benchmarks (length bs)
      then (code (negsuc 0), bs)
      else (code (pos 0), bs ++ (b ∷ []))
  specified get_all bs = (listing (found true bs), bs)
  specified (get_by_category allocated category) bs =
      (listing (found allocated (keep (λ b. text_eq b.category category) bs)), bs)
  specified (get_by_tier allocated tier) bs =
      (listing (found allocated (keep (λ b. b.tier == tier) bs)), bs)

  -- All answers to a sequence of operations.
  abbrev pub answers :
      {S : Type 0}
      → (Operation D W → S → Answer D W × S)
      → List (Operation D W)
      → S
      → List (Answer D W)
  answers step [] s = []
  answers step (o ∷ os) s = (step o s).0 ∷ answers step os (step o s).1

  -- One operation gives the same answer, and leaves the table that stands for the list.
  perform-specified :
      (o : Operation D W) (r : Registry D W)
      → IsValid r
      → ((perform o r).0 ≡ (specified o r.benchmarks).0)
        × ((perform o r).1.benchmarks ≡ (specified o r.benchmarks).1)
        × IsValid (perform o r).1
  unfolding perform
  perform-specified (register b) r v = ground (arith, length-append r.benchmarks (b ∷ []))
  perform-specified get_all r v = (ap (λ n. listing (listed r.benchmarks n)) v.counted, refl, v)
  perform-specified (get_by_category true category) r v =
      let all =
        select-eq-keep (λ b. text_eq b.category category) r.benchmark_count r.benchmarks
          v.counted in
      (ap (λ fs. listing (listed fs (length fs))) all, refl, v)
  perform-specified (get_by_category false category) r v = (refl, refl, v)
  perform-specified (get_by_tier true tier) r v =
      let all = select-eq-keep (λ b. b.tier == tier) r.benchmark_count r.benchmarks v.counted in
      (ap (λ fs. listing (listed fs (length fs))) all, refl, v)
  perform-specified (get_by_tier false tier) r v = (refl, refl, v)

  perform-answers :
      (os : List (Operation D W)) (r : Registry D W) (bs : List (Benchmark D W))
      → IsValid r
      → r.benchmarks ≡ bs
      → answers perform os r ≡ answers specified os bs
  perform-answers [] r bs v e = refl
  perform-answers (o ∷ os) r bs v e =
      let (same, next, valid) = perform-specified o r v in
      let spec : specified o r.benchmarks ≡ specified o bs = ap (specified o) e in
      ap (λ a. a ∷ answers perform os (perform o r).1) (same ∙ ap (λ x. x.0) spec)
      ∙ ap (λ rest. (specified o bs).0 ∷ rest)
          (perform-answers os (perform o r).1 (specified o bs).1 valid (next ∙ ap (λ x. x.1) spec))

  -- Whatever callers register and ask for, in whatever order and with whatever luck in allocation, the
  -- table gives the same answers as a list that takes a benchmark at its end if it has fewer than 128,
  -- that lists itself, and that is filtered by category or by tier.
  pub perform-refines :
      (os : List (Operation D W)) → answers perform os no_benchmarks ≡ answers specified os []
  perform-refines os =
      perform-answers os no_benchmarks [] (record { counted = refl; bounded = omega arith }) refl
