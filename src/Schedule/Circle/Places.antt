-- ===== src/Schedule/Circle/Places.antt =====
-- Who stands at a place after some rotations.
use plan_my_pickle_backend.Base.{
  ℕ, zero, suc, ◌+◌, ◌-◌, ◌/◌, ◌≤◌, ◌<◌, ◌≡◌, refl, sym, ap, ◌∙◌, List, [], ◌∷◌, some, String,
  arith, leb, ◌==◌, if◌then◌else◌, length, length-take, length-drop, take, drop, get_or, get_elem?,
}
use plan_my_pickle_backend.Schedule.Circle.{bye, pairs_from, rotate, rounds_from}

-- The list after `r` rotations.
pub turned : ℕ → List String → List String
turned zero arr = arr
turned (suc r) arr = turned r (rotate arr)

pub length-rotate : (arr : List String) → 2 ≤ length arr → length (rotate arr) ≡ length arr
unfolding rotate
length-rotate arr h = omega (arith, length-take (length arr - 2) (drop 1 arr), length-drop 1 arr)

get_or-take :
    (xs : List String) (n i : ℕ) (d : String) → i < n → get_or (take n xs) i d ≡ get_or xs i d
get_or-take xs zero i d h = absurd (omega arith)
get_or-take [] (suc n) i d h = refl
get_or-take (x ∷ xs) (suc n) zero d h = refl
get_or-take (x ∷ xs) (suc n) (suc i) d h = get_or-take xs n i d (omega arith)

get_or-drop1 :
    (xs : List String) (i : ℕ) (d : String) → get_or (drop 1 xs) i d ≡ get_or xs (suc i) d
get_or-drop1 [] i d = refl
get_or-drop1 (x ∷ xs) i d = refl

-- Where the occupant of a place comes from in one rotation.
abbrev from : ℕ → ℕ → ℕ
from n i = if i == 0 then 0 else if i == 1 then n - 1 else i - 1

rotate-at :
    (arr : List String) (i : ℕ)
    → i < length arr
    → get_or (rotate arr) i bye ≡ get_or arr (from (length arr) i) bye
unfolding rotate
rotate-at arr zero h = refl
rotate-at arr (suc zero) h = refl
rotate-at arr (suc (suc i)) h =
    let e : from (length arr) (suc (suc i)) ≡ suc i = ground arith in
    get_or-take (drop 1 arr) (length arr - 2) i bye (omega arith)
    ∙ get_or-drop1 arr i bye
    ∙ ap (λ j. get_or arr j bye) (sym e)

-- Where the occupant of place `i` stood `r` rotations before, in a field of `n`.
unfoldable pub source : ℕ → ℕ → ℕ → ℕ
source n r i = if i == 0 then 0 else if leb i r then i + (n - 1) - r else i - r

source_zero : (n i : ℕ) → source n 0 i ≡ i
unfolding source
source_zero n i = ground arith

source-from : (n r i : ℕ) → i < n → suc r < n → from n (source n r i) ≡ source n (suc r) i
unfolding source
source-from n r i h lt = ground arith

pub source-lt : (n r i : ℕ) → i < n → r < n → source n r i < n
unfolding source
source-lt n r i h lt = ground arith

pub turned-at :
    (arr : List String) (r i : ℕ)
    → i < length arr
    → suc r ≤ length arr
    → get_or (turned r arr) i bye ≡ get_or arr (source (length arr) r i) bye
unfolding turned
turned-at arr zero i h lt = ap (λ j. get_or arr j bye) (sym (source_zero (length arr) i))
turned-at arr (suc r) i h lt =
    let len = length-rotate arr (omega arith) in
    turned-at (rotate arr) r i (omega (arith, len)) (omega (arith, len))
    ∙ ap (λ n. get_or (rotate arr) (source n r i) bye) len
    ∙ rotate-at arr (source (length arr) r i) (source-lt (length arr) r i h (omega arith))
    ∙ ap (λ j. get_or arr j bye) (source-from (length arr) r i h (omega arith))

pub length-turned :
    (r : ℕ) (arr : List String) → 2 ≤ length arr → length (turned r arr) ≡ length arr
unfolding turned
length-turned zero arr h = refl
length-turned (suc r) arr h =
    length-turned r (rotate arr) (omega (arith, length-rotate arr h)) ∙ length-rotate arr h

-- The round at index `r`.
pub rounds_from-at :
    (k r : ℕ) (arr : List String)
    → r < k
    → get_elem? (rounds_from k arr) r
      ≡ some (pairs_from (turned r arr) (length (turned r arr)) 0 (length (turned r arr) / 2))
unfolding rounds_from turned
rounds_from-at zero r arr h = absurd (omega arith)
rounds_from-at (suc k) zero arr h = refl
rounds_from-at (suc k) (suc r) arr h = rounds_from-at k r (rotate arr) (omega arith)

pub length-rounds_from : (k : ℕ) (arr : List String) → length (rounds_from k arr) ≡ k
unfolding rounds_from
length-rounds_from zero arr = refl
length-rounds_from (suc k) arr = ap suc (length-rounds_from k (rotate arr))
