-- ===== src/Mpmc/Positions.antt =====
-- Where the items of the queue stand in its array.
use serv_mark.Base.{
  ℕ, zero, suc, ◌+◌, ◌%◌, ◌≡◌, ◌≤◌, ◌<◌, some, List, [], ◌∷◌, ◌++◌, arith, refl, ◌∙◌, length, set,
  get_elem?, get_elem?-set_ne,
}
use serv_mark.Mpmc.{next}

-- The array holds the list from place `p` on, round its end.
abbrev pub Holds : List ℕ → ℕ → List ℕ → Type 0
Holds items p [] = Unit
Holds items p (x ∷ xs) = (get_elem? items p ≡ some x) × Holds items (next p) xs

-- The place behind the list.
abbrev pub behind : ℕ → List ℕ → ℕ
behind p [] = p
behind p (x ∷ xs) = behind (next p) xs

pub behind_lem : (p : ℕ) (xs : List ℕ) → p < 1024 → behind p xs ≡ (p + length xs) % 1024
behind_lem p [] h = omega arith
behind_lem p (x ∷ xs) h = omega (arith, behind_lem (next p) xs (omega arith))

pub behind-append : (p : ℕ) (xs : List ℕ) (v : ℕ) → behind p (xs ++ v ∷ []) ≡ next (behind p xs)
behind-append p [] v = refl
behind-append p (x ∷ xs) v = behind-append (next p) xs v

pub Holds-append :
    (items : List ℕ) (p : ℕ) (xs : List ℕ) (v : ℕ)
    → Holds items p xs
    → get_elem? items (behind p xs) ≡ some v
    → Holds items p (xs ++ v ∷ [])
Holds-append items p [] v h e = (e, tt)
Holds-append items p (x ∷ xs) v (h, hs) e = (h, Holds-append items (next p) xs v hs e)

-- A write at a place from the end of the list on, round the array's end, changes none of it.
pub Holds-set :
    (items : List ℕ) (p k t : ℕ) (xs : List ℕ) (v : ℕ)
    → p < 1024
    → k < 1024
    → length xs ≤ k
    → t ≡ (p + k) % 1024
    → Holds items p xs
    → Holds (set items t v) p xs
Holds-set items p k t [] v hp hk fits at h = tt
Holds-set items p zero t (x ∷ xs) v hp hk fits at h = absurd (omega arith)
Holds-set items p (suc k) t (x ∷ xs) v hp hk fits at (h, hs) = (
  get_elem?-set_ne items v (λ e. omega arith) ∙ h,
  Holds-set items (next p) k t xs v (omega arith) (omega arith) (omega arith) (omega arith) hs,
)
