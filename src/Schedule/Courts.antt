-- ===== src/Schedule/Courts.antt =====
-- The placement on courts: no two matches of a round share a court and a slot.
use plan_my_pickle_backend.Base.{
  ℕ, zero, suc, ◌+◌, ◌*◌, ◌/◌, ◌%◌, ◌≤◌, ◌<◌, ◌≡◌, refl, ap, ◌∙◌, List, [], ◌∷◌, some, arith,
  get_elem?, div-add-mod, mod-lt,
}
use plan_my_pickle_backend.Schedule.{
  MatchSpec, RoundSpec, RawMatch, placed_match, place_matches, place_rounds, place_courts,
}

place_matches-at :
    (num_courts k i : ℕ) (ms : List RawMatch) {m : RawMatch}
    → get_elem? ms i ≡ some m
    → get_elem? (place_matches num_courts k ms) i ≡ some (placed_match num_courts (k + i) m)
unfolding place_matches
place_matches-at n k i [] h = cc
place_matches-at n k zero (m ∷ ms) h =
    let e : k ≡ k + 0 = omega arith in ground (arith, h, ap (λ j. placed_match n j m) e)
place_matches-at n k (suc i) (m ∷ ms) {m = x} h =
    let e : suc k + i ≡ k + suc i = omega arith in
    place_matches-at n (suc k) i ms h ∙ ap (λ j. some (placed_match n j x)) e

place_matches-of :
    (num_courts k j : ℕ) (ms : List RawMatch) {y : MatchSpec}
    → get_elem? (place_matches num_courts k ms) j ≡ some y
    → (m : RawMatch) × (get_elem? ms j ≡ some m) × (y ≡ placed_match num_courts (k + j) m)
unfolding place_matches
place_matches-of n k j [] h = cc
place_matches-of n k zero (m ∷ ms) h =
    let e : k ≡ k + 0 = omega arith in (m, refl, ground (arith, h, ap (λ i. placed_match n i m) e))
place_matches-of n k (suc j) (m ∷ ms) {y} h =
    let e : suc k + j ≡ k + suc j = omega arith in
    let (x, at, same) = place_matches-of n (suc k) j ms h in
    (x, at, same ∙ ap (λ i. placed_match n i x) e)

place_matches-nil : (n : ℕ) → place_matches n 0 [] ≡ []
unfolding place_matches
place_matches-nil n = refl

place_rounds-at :
    (num_courts round_no r : ℕ) (raw : List (List RawMatch)) {ms : List RawMatch}
    → get_elem? raw r ≡ some ms
    → (spec : RoundSpec) × (get_elem? (place_rounds num_courts round_no raw) r ≡ some spec)
      × (spec.round_number ≡ round_no + r + 1)
      × (spec.matches ≡ place_matches num_courts 0 ms)
unfolding place_rounds
place_rounds-at n round_no r [] h = cc
place_rounds-at n round_no zero ([] ∷ rest) h =
    (_, refl, omega arith, ground (arith, h, place_matches-nil n))
place_rounds-at n round_no zero ((x ∷ xs) ∷ rest) h = (
  record { round_number = round_no + 1; matches = place_matches n 0 (x ∷ xs) },
  ground arith,
  omega arith,
  ground (arith, h),
)
place_rounds-at n round_no (suc r) (raw ∷ rest) h =
    let (spec, at, number, found) = place_rounds-at n (round_no + 1) r rest h in
    (spec, at, omega (arith, number), found)

slot-court-injective : (n i j : ℕ) → i % n + 1 ≡ j % n + 1 → i / n ≡ j / n → i ≡ j
slot-court-injective n i j p q =
    omega (arith, p, div-add-mod i n, div-add-mod j n, ap (λ t. n * t) q)

placed_match-slots :
    (n i j : ℕ) (x y : RawMatch)
    → 0 < n
    → (1 ≤ (placed_match n i x).court_number)
      × ((placed_match n i x).court_number ≤ n)
      × ((placed_match n i x).court_number ≡ (placed_match n j y).court_number
          → (placed_match n i x).slot ≡ (placed_match n j y).slot
          → i ≡ j)
unfolding placed_match
placed_match-slots n i j x y h =
    (omega arith, omega (arith, mod-lt i h), λ p q. slot-court-injective n i j p q)

placed_match-teams :
    (n i : ℕ) (x : RawMatch)
    → ((placed_match n i x).team1 ≡ x.t1) × ((placed_match n i x).team2 ≡ x.t2)
unfolding placed_match
placed_match-teams n i x = (refl, refl)

-- On `n` courts, n at least 1, each round keeps its place and gets the number of that place from
-- 1, and each of its matches keeps its place and its teams and gets a court from 1 to n; two matches
-- of one round with the same court and the same slot are one.
pub place_courts-at :
    (num_courts : ℕ) (raw : List (List RawMatch)) (r i : ℕ) {ms : List RawMatch} {m : RawMatch}
    → 0 < num_courts
    → get_elem? raw r ≡ some ms
    → get_elem? ms i ≡ some m
    → (spec : RoundSpec) × (x : MatchSpec) × (get_elem? (place_courts raw num_courts) r ≡ some spec)
      × (spec.round_number ≡ r + 1)
      × (get_elem? spec.matches i ≡ some x)
      × (x.team1 ≡ m.t1)
      × (x.team2 ≡ m.t2)
      × (1 ≤ x.court_number)
      × (x.court_number ≤ num_courts)
      × ((j : ℕ) (y : MatchSpec)
          → get_elem? spec.matches j ≡ some y
          → x.court_number ≡ y.court_number
          → x.slot ≡ y.slot
          → i ≡ j)
unfolding place_courts
place_courts-at n raw r i {m = m} some_court at_r at_i =
    let (spec, found, number, same) = place_rounds-at n 0 r raw at_r in
    let (teams1, teams2) = placed_match-teams n (0 + i) m in
    let (low, high, _) = placed_match-slots n (0 + i) 0 m m some_court in
    (
      spec,
      placed_match n (0 + i) m,
      found,
      omega (arith, number),
      rw same (place_matches-at n 0 i _ at_i),
      teams1,
      teams2,
      low,
      high,
      λ j y at_j court slot.
          let (m', _, e) = place_matches-of n 0 j _ (rw same at at_j) in
          let apart = (placed_match-slots n (0 + i) (0 + j) m m' some_court).2 in
          let k : 0 + i ≡ 0 + j =
            apart (court ∙ ap (λ z. z.court_number) e) (slot ∙ ap (λ z. z.slot) e) in
          omega (arith, k),
    )
