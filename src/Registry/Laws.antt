-- ===== src/Registry/Laws.antt =====
-- The table never holds more than 128 benchmarks, and the queries find all of those that match.
use mathlib.Core.List.{append-nil, append_assoc}
use serv_mark.Base.{
  ℕ, zero, suc, ◌+◌, ◌≡◌, ◌≤◌, Bool, true, some, List, [], ◌∷◌, ◌++◌, arith, refl, sym, ap, ◌∙◌,
  ◌↔◌, Text, text_eq, text_eq_iff, length, length-append, take, keep, keep-All,
}
use serv_mark.Base.Member.{Member, Member-keep, keep-Member, Member-All}
use serv_mark.Benchmark.{Benchmark}
use serv_mark.Registry.{
  Registry, listed, max_benchmarks, select, benchmark_register, benchmark_get_by_category,
  no_benchmarks, register_all,
}

module _ {D W : Type 0} where
  pub record IsValid (r : Registry D W) : Type 0 where
    pub counted : r.benchmark_count ≡ length r.benchmarks
    pub bounded : r.benchmark_count ≤ max_benchmarks

  pub benchmark_register-IsValid :
      (b : Benchmark D W) (r : Registry D W) → IsValid r → IsValid (benchmark_register b r).1
  unfolding benchmark_register
  benchmark_register-IsValid b r v = ground (arith, length-append r.benchmarks (b ∷ []))

  pub register_all-IsValid :
      (bs : List (Benchmark D W)) (r : Registry D W) → IsValid r → IsValid (register_all bs r)
  unfolding register_all
  register_all-IsValid [] r v = v
  register_all-IsValid (b ∷ bs) r v =
      register_all-IsValid bs (benchmark_register b r).1 (benchmark_register-IsValid b r v)

  register_all-take :
      (bs : List (Benchmark D W)) (r : Registry D W) (room : ℕ)
      → r.benchmark_count + room ≡ max_benchmarks
      → (register_all bs r).benchmarks ≡ r.benchmarks ++ take room bs
  unfolding register_all benchmark_register
  register_all-take [] r zero e = sym (append-nil r.benchmarks)
  register_all-take [] r (suc n) e = sym (append-nil r.benchmarks)
  register_all-take (b ∷ bs) r zero e = ground (arith, register_all-take bs r zero e)
  register_all-take (b ∷ bs) r (suc n) e =
      let next : Registry D W = record {
        benchmarks = r.benchmarks ++ (b ∷ []);
        benchmark_count = r.benchmark_count + 1;
      } in
      ground (
        arith,
        register_all-take bs next n (omega arith),
        append_assoc r.benchmarks (b ∷ []) (take n bs),
      )

  -- Whatever benchmarks the constructors register, in whatever number, the table then holds the
  -- first 128 of them in their order and counts just those.
  pub register_all-first :
      (bs : List (Benchmark D W))
      → let r = register_all bs no_benchmarks in
        (r.benchmarks ≡ take max_benchmarks bs)
        × (r.benchmark_count ≡ length (take max_benchmarks bs))
        × (r.benchmark_count ≤ max_benchmarks)
  register_all-first bs =
      let held = register_all-take bs no_benchmarks max_benchmarks refl in
      let valid =
        register_all-IsValid bs no_benchmarks (record { counted = refl; bounded = omega arith }) in
      (held, valid.counted ∙ ap length held, valid.bounded)

  pub select-eq-keep :
      (p : Benchmark D W → Bool) (n : ℕ) (bs : List (Benchmark D W))
      → n ≡ length bs
      → select p n bs ≡ keep p bs
  unfolding select
  select-eq-keep p zero [] e = refl
  select-eq-keep p zero (b ∷ bs) e = absurd (omega arith)
  select-eq-keep p (suc n) [] e = refl
  select-eq-keep p (suc n) (b ∷ bs) e = ground (arith, select-eq-keep p n bs)

  -- On a table whose count is right, a query by category whose allocation succeeds returns the
  -- benchmarks of the table whose category is the one asked for, all of them and no others, in the
  -- table's order, with their number.
  pub get_by_category_exact :
      (category : Text) (r : Registry D W)
      → IsValid r
      → (found : List (Benchmark D W)) × (benchmark_get_by_category true true (some category) r
          ≡ listed found (length found))
        × (found ≡ keep (λ b. text_eq b.category category) r.benchmarks)
        × ((b : Benchmark D W) → Member b found ↔ (Member b r.benchmarks × (b.category ≡ category)))
  unfolding benchmark_get_by_category
  get_by_category_exact category r v =
      let test : Benchmark D W → Bool = λ b. text_eq b.category category in
      let all : select test r.benchmark_count r.benchmarks ≡ keep test r.benchmarks =
        select-eq-keep test r.benchmark_count r.benchmarks v.counted in
      (
        keep test r.benchmarks,
        rw all refl,
        refl,
        λ b. (
          λ m. (
            keep-Member test b r.benchmarks m,
            (text_eq_iff b.category category).0
                (Member-All (λ x. test x ≡ true) b _ (keep-All test r.benchmarks) m),
          ),
          λ m. Member-keep test b r.benchmarks m.0 ((text_eq_iff b.category category).1 m.1),
        ),
      )
