-- ===== src/Rotation.antt =====
-- internal/engine/rotation.go: the live "up and down the river" format. The types, and the
-- check of a layout; the children have the seeding, the movement and the fairness pass.
-- A Go `[2]string` is a pair, a Go map from court numbers is a function.
pub mod Layout
pub mod Seed
pub mod Fair
pub mod Placed
pub mod Move
use plan_my_pickle_backend.Base.{
  ℕ, zero, suc, ◌+◌, ◌≡◌, Bool, true, false, not, ◌||◌, Option, none, some, List, [], ◌∷◌, ◌++◌,
  String, ◌==◌, str_eq, if◌then◌else◌, contains, IsDistinct, count,
}

abbrev pub Team : Type 0
Team = String × String

pub record RotCourt : Type 0 where
  pub court : ℕ
  pub team_a : Team
  pub team_b : Team

pub data LoserMode : Type 0 where
  losers_down losers_stay : LoserMode

pub record RotResult : Type 0 where
  pub court : ℕ
  pub winner : String

-- The ids on a court, in the order TeamA[0], TeamA[1], TeamB[0], TeamB[1].
abbrev pub court_ids : RotCourt → List String
court_ids c = c.team_a.0 ∷ c.team_a.1 ∷ c.team_b.0 ∷ c.team_b.1 ∷ []

abbrev pub seated : List RotCourt → List String
seated [] = []
seated (c ∷ cs) = court_ids c ++ seated cs

-- One pass over ids against the set `seen`; `none` is `return false`.
unfoldable pub scan_ids : List String → List String → Option (List String)
scan_ids [] seen = some seen
scan_ids (x ∷ xs) seen = if str_eq x "" || contains seen x then none else scan_ids xs (x ∷ seen)

unfoldable pub scan_courts : List RotCourt → ℕ → List String → Option (List String)
scan_courts [] i seen = some seen
scan_courts (c ∷ cs) i seen =
    if not (c.court == suc i) then none else elim (scan_ids (court_ids c) seen) [
      | none ↦ none
      | some seen' ↦ scan_courts cs (suc i) seen'
    ]

abbrev pub is_some {ℓ} : {A : Type ℓ} → Option A → Bool
is_some none = false
is_some (some x) = true

unfoldable pub layout_and_bench_ok : List RotCourt → List String → Bool
unfolding scan_courts scan_ids
layout_and_bench_ok courts bench = elim (scan_courts courts 0 []) [
  | none ↦ false
  | some seen ↦ is_some (scan_ids bench seen)
]

unfoldable pub layout_ok : List RotCourt → Bool
unfolding layout_and_bench_ok
layout_ok courts = layout_and_bench_ok courts []

-- Courts numbered on from `i`, contiguously.
abbrev pub IsNumbered : ℕ → List RotCourt → Type 0
IsNumbered i [] = Unit
IsNumbered i (c ∷ cs) = (c.court ≡ suc i) × IsNumbered (suc i) cs

-- A layout that is safe to move: courts 1..n, no blank id, and nobody in two places.
pub record IsLayout (courts : List RotCourt) (bench : List String) : Type 0 where
  pub numbered : IsNumbered 0 courts
  pub no_blank : count "" (seated courts ++ bench) ≡ 0
  pub distinct : IsDistinct (seated courts ++ bench)
