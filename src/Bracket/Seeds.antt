-- ===== src/Bracket/Seeds.antt =====
-- `nextPow2`, `ilog2` and `seedOrder`. Each loop has its bound as fuel, and is shown to end by its
-- own test.
pub mod Powers
pub mod Order
use plan_my_pickle_backend.Base.{
  ℕ, zero, suc, ◌+◌, ◌-◌, ◌*◌, ◌/◌, List, [], ◌∷◌, ltb, if◌then◌else◌, length,
}

-- `for p < n { p *= 2 }`
pub double_until : ℕ → ℕ → ℕ → ℕ
double_until zero n p = p
double_until (suc fuel) n p = let rest = double_until fuel n (p * 2) in if ltb p n then rest else p

unfoldable pub next_pow2 : ℕ → ℕ
unfolding double_until
next_pow2 n = double_until n n 1

-- `for v > 1 { v >>= 1; k++ }`
pub halve_until : ℕ → ℕ → ℕ → ℕ
halve_until zero v k = k
halve_until (suc fuel) v k =
    let rest = halve_until fuel (v / 2) (k + 1) in if ltb 1 v then rest else k

unfoldable pub ilog2 : ℕ → ℕ
unfolding halve_until
ilog2 n = halve_until n n 0

-- One doubling: each seed is followed by its opponent in a field of `len`.
pub expand : ℕ → List ℕ → List ℕ
expand len [] = []
expand len (r ∷ rs) = r ∷ (len + 1 - r) ∷ expand len rs

pub expand_until : ℕ → ℕ → List ℕ → List ℕ
unfolding expand
expand_until zero n order = order
expand_until (suc fuel) n order =
    let rest = expand_until fuel n (expand (length order * 2) order) in
    if ltb (length order) n then rest else order

unfoldable pub seed_order : ℕ → List ℕ
unfolding expand_until
seed_order n = expand_until n n (1 ∷ [])
