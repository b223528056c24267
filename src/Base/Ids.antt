-- ===== src/Base/Ids.antt =====
-- Player ids are Go strings. A list of them seen as a bag: how often each id occurs in it.
use Prim.Native.Nat.{ℕ, ◌+◌, ◌≤◌, ◌<◌}
use Prim.Native.String.{String}
use mathlib.Core.Path.{◌≡◌, refl}
use mathlib.Core.Logic.{◌≢◌, ◌⊎◌}
use mathlib.Core.Bool.{Bool, true, false, ◌||◌}
use mathlib.Core.List.{List, [], ◌∷◌, ◌++◌}
use native.Mathlib.Omega.{arith}
use text.Mathlib.Text.{◌==◌ as str_eq}
use text.Mathlib.TextEquality.{eq_iff}
use plan_my_pickle_backend.Base.Tests.{if◌then◌else◌}

-- 1 if the two ids are the same text, else 0.
unfoldable pub hit : String → String → ℕ
hit x a = if str_eq x a then 1 else 0

abbrev pub count : String → List String → ℕ
count a [] = 0
count a (x ∷ xs) = hit x a + count a xs

-- The two lists hold the same ids, each as often.
abbrev pub SameIds : List String → List String → Type 0
SameIds xs ys = (a : String) → count a xs ≡ count a ys

-- No id occurs twice.
abbrev pub IsDistinct : List String → Type 0
IsDistinct xs = (a : String) → count a xs ≤ 1

pub hit-le : (x a : String) → hit x a ≤ 1
unfolding hit
hit-le x a = ground arith

pub hit_self : (a : String) → hit a a ≡ 1
unfolding hit
hit_self a = ground (arith, eq_iff a a)

pub hit_ne : (x a : String) → x ≢ a → hit x a ≡ 0
unfolding hit
hit_ne x a h = ground (arith, eq_iff x a)

pub hit-cases : (x a : String) → (x ≡ a) ⊎ (hit x a ≡ 0)
unfolding hit
hit-cases x a = ground (arith, eq_iff x a)

pub str_eq-hit : (x a : String) → str_eq x a ≡ true → hit x a ≡ 1
unfolding hit
str_eq-hit x a h = ground arith

pub str_ne-hit : (x a : String) → str_eq x a ≡ false → hit x a ≡ 0
unfolding hit
str_ne-hit x a h = ground arith

pub hit-pos : (x a : String) → hit x a ≢ 0 → x ≡ a
unfolding hit
hit-pos x a h = ground (arith, eq_iff x a)

pub count-append : (a : String) (xs ys : List String) → count a (xs ++ ys) ≡ count a xs + count a ys
count-append a [] ys = omega arith
count-append a (x ∷ xs) ys = omega (arith, count-append a xs ys)

-- The test of a Go `map[string]bool` that holds the ids of a list.
abbrev pub contains : List String → String → Bool
contains [] a = false
contains (x ∷ xs) a = str_eq x a || contains xs a

pub contains-count : (xs : List String) (a : String) → contains xs a ≡ true → 0 < count a xs
contains-count [] a h = ground arith
contains-count (x ∷ xs) a h = ground (arith, str_eq-hit x a, contains-count xs a)

pub not_contains-count : (xs : List String) (a : String) → contains xs a ≡ false → count a xs ≡ 0
not_contains-count [] a h = refl
not_contains-count (x ∷ xs) a h = ground (arith, str_ne-hit x a, not_contains-count xs a)

-- The total of a measure over a list of ids.
abbrev pub weigh : (String → ℕ) → List String → ℕ
weigh g [] = 0
weigh g (x ∷ xs) = g x + weigh g xs

pub weigh-append :
    (g : String → ℕ) (xs ys : List String) → weigh g (xs ++ ys) ≡ weigh g xs + weigh g ys
weigh-append g [] ys = omega arith
weigh-append g (x ∷ xs) ys = omega (arith, weigh-append g xs ys)

pub count-weigh : (a : String) (xs : List String) → count a xs ≡ weigh (λ y. hit y a) xs
count-weigh a [] = refl
count-weigh a (x ∷ xs) = omega (arith, count-weigh a xs)
