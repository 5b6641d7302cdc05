-- ===== src/Base/Fgets.antt =====
-- A line that fits the buffer of `fgets` comes back whole.
use Prim.Native.Nat.{ℕ, ◌-◌, ◌<◌}
use mathlib.Core.List.{[], ◌∷◌, ◌++◌}
use mathlib.Core.Path.{◌≡◌, refl}
use native.Mathlib.Omega.{arith}
use serv_mark.Base.Chars.{Text, Lacks}
use serv_mark.Base.Lists.{length}
use serv_mark.Base.Scan.{lines_from}

abbrev pub with_newline : Text → Text
with_newline l = l ++ (10 ∷ [])

pub lines_from-line :
    (cap room : ℕ) (l rest : Text)
    → Lacks 10 l
    → length l < room
    → lines_from cap room (l ++ (10 ∷ rest)) ≡ with_newline l ∷ lines_from cap cap rest
unfolding lines_from
lines_from-line cap room [] rest h k = refl
lines_from-line cap room (c ∷ cs) rest (h, hs) k =
    ground (arith, lines_from-line cap (room - 1) cs rest)
