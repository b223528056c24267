-- ===== src/Base/Sums.antt =====
-- Sums over a range, for counting what a loop over court numbers hands out.
use Prim.Native.Nat.{ℕ, zero, suc, ◌+◌, ◌≤◌, ◌<◌}
use mathlib.Core.Path.{◌≡◌, refl, ap}
use native.Mathlib.Omega.{arith}

-- `f k + f (k + 1) + ...`, `m` summands.
pub sum_range : (ℕ → ℕ) → ℕ → ℕ → ℕ
sum_range f k zero = 0
sum_range f k (suc m) = f k + sum_range f (suc k) m

pub sum_range-suc : (f : ℕ → ℕ) (k m : ℕ) → sum_range f k (suc m) ≡ f k + sum_range f (suc k) m
unfolding sum_range
sum_range-suc f k m = refl

pub sum_range-zero : (f : ℕ → ℕ) (k : ℕ) → sum_range f k 0 ≡ 0
unfolding sum_range
sum_range-zero f k = refl

pub sum_range-add :
    (f g : ℕ → ℕ) (k m : ℕ) → sum_range (λ i. f i + g i) k m ≡ sum_range f k m + sum_range g k m
unfolding sum_range
sum_range-add f g k zero = omega arith
sum_range-add f g k (suc m) = omega (arith, sum_range-add f g (suc k) m)

-- Summands that agree on the range.
pub sum_range_ext :
    (f g : ℕ → ℕ) (k m : ℕ)
    → ((i : ℕ) → k ≤ i → i < k + m → f i ≡ g i)
    → sum_range f k m ≡ sum_range g k m
unfolding sum_range
sum_range_ext f g k zero h = refl
sum_range_ext f g k (suc m) h = omega (
  arith,
  h k (omega arith) (omega arith),
  sum_range_ext f g (suc k) m (λ i lo hi. h i (omega arith) (omega arith)),
)

-- A range from `suc k` seen from `k`.
pub sum_range-shift : (f : ℕ → ℕ) (k m : ℕ) → sum_range (λ i. f (suc i)) k m ≡ sum_range f (suc k) m
unfolding sum_range
sum_range-shift f k zero = refl
sum_range-shift f k (suc m) = omega (arith, sum_range-shift f (suc k) m)

-- The last summand split off.
pub sum_range-last : (f : ℕ → ℕ) (k m : ℕ) → sum_range f k (suc m) ≡ sum_range f k m + f (k + m)
unfolding sum_range
sum_range-last f k zero = let e : k + 0 ≡ k = omega arith in omega (arith, ap f e)
sum_range-last f k (suc m) =
    let e : suc k + m ≡ k + suc m = omega arith in omega (arith, sum_range-last f (suc k) m, ap f e)
