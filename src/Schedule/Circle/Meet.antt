-- ===== src/Schedule/Circle/Meet.antt =====
-- Two places of the circle face each other in exactly one round.
use plan_my_pickle_backend.Base.{
  ℕ, suc, ◌+◌, ◌-◌, ◌*◌, ◌/◌, ◌%◌, ◌<◌, ◌≡◌, ◌≢◌, arith, ltb, ◌==◌, if◌then◌else◌,
}
use plan_my_pickle_backend.Schedule.Circle.Places.{source}

-- The place of the player at `x` of the roster in round `r`.
abbrev pub loc : ℕ → ℕ → ℕ → ℕ
loc n r x = if x == 0 then 0 else if ltb (x + r) n then x + r else x + r - (n - 1)

pub source-loc : (n r x : ℕ) → suc r < n → x < n → (source n r (loc n r x) ≡ x) × (loc n r x < n)
unfolding source
source-loc n r x h lt = (ground arith, ground arith)

pub loc-source : (n r i : ℕ) → suc r < n → i < n → loc n r (source n r i) ≡ i
unfolding source
loc-source n r i h lt = ground arith

-- The round in which they meet, for x < y.
abbrev pub meeting : ℕ → ℕ → ℕ → ℕ
meeting n x y =
    if x == 0
    then n - 1 - y
    else if (x + y) % 2 == 0
    then (2 * (n - 1) - (x + y)) / 2
    else if ltb (x + y) n
    then (n - 1 - (x + y)) / 2
    else (3 * (n - 1) - (x + y)) / 2

pub meeting-loc :
    (n h x y : ℕ)
    → n ≡ 2 * h
    → x < y
    → y < n
    → (suc (meeting n x y) < n) × (loc n (meeting n x y) x + loc n (meeting n x y) y ≡ n - 1)
meeting-loc n h x y even lt hi = (ground arith, ground arith)

pub unique-loc :
    (n h x y r q : ℕ)
    → n ≡ 2 * h
    → x ≢ y
    → x < n
    → y < n
    → suc r < n
    → suc q < n
    → loc n r x + loc n r y ≡ n - 1
    → loc n q x + loc n q y ≡ n - 1
    → r ≡ q
unique-loc n h x y r q even ne hx hy hr hq p s = ground arith
