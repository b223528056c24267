-- ===== src/Night/Staying.antt =====
-- How many of a layout stay when some of its players have left, and that a night has a court for
-- them exactly if they are four.
use plan_my_pickle_backend.Base.{
  ℕ, suc, ◌+◌, ◌≤◌, ◌<◌, ◌≡◌, ◌↔◌, refl, inl, inr, List, [], ◌∷◌, ◌++◌, String, str_eq, Bool-cases,
  length, count, hit, hit_self, hit_ne, hit-cases, contains, SameIds, arith, eq_iff, ℤ, true,
  if◌then◌else◌, ap, sym, ◌∙◌,
}
use plan_my_pickle_backend.Rotation.{RotCourt, seated, IsLayout}
use plan_my_pickle_backend.Night.{not_left, settle_departures, grow_courts}
use plan_my_pickle_backend.Night.Settle.{settle_departures-IsLayout}
use plan_my_pickle_backend.Night.Grow.{IsGrown, grow_courts-IsLayout}

-- How many of a list are not gone.
abbrev pub staying : List String → List String → ℕ
staying gone [] = 0
staying gone (x ∷ xs) = (if contains gone x then 0 else 1) + staying gone xs

-- A list without the first occurrence of an id.
abbrev drop_one : String → List String → List String
drop_one y [] = []
drop_one y (x ∷ xs) = let rest = drop_one y xs in if str_eq x y then xs else x ∷ rest

drop_one-count :
    (y a : String) (xs : List String)
    → 0 < count y xs
    → hit y a + count a (drop_one y xs) ≡ count a xs
drop_one-count y a [] h = absurd (omega arith)
drop_one-count y a (x ∷ xs) h = elim (Bool-cases (str_eq x y)) [
  | inl same ↦ let e = ap (λ z. hit z a) ((eq_iff x y).0 same) in rw same (omega (arith, e))
  | inr other ↦
      let ne : hit x y ≡ 0 = hit_ne x y (λ e. absurd (let t = (eq_iff x y).1 e in cc)) in
      rw other (omega (arith, drop_one-count y a xs (omega (arith, h, ne))))
]

drop_one-length :
    (y : String) (xs : List String) → 0 < count y xs → suc (length (drop_one y xs)) ≡ length xs
drop_one-length y [] h = absurd (omega arith)
drop_one-length y (x ∷ xs) h = elim (Bool-cases (str_eq x y)) [
  | inl same ↦ rw same refl
  | inr other ↦
      let ne : hit x y ≡ 0 = hit_ne x y (λ e. absurd (let t = (eq_iff x y).1 e in cc)) in
      rw other (omega (arith, drop_one-length y xs (omega (arith, h, ne))))
]

-- A list with everybody of another who is not gone, each as often, is as long as those are many.
staying-length :
    (gone ys xs : List String)
    → ((a : String) → count a xs ≡ (if contains gone a then 0 else count a ys))
    → length xs ≡ staying gone ys
staying-length gone [] [] h = refl
staying-length gone [] (x ∷ xs) h = absurd (ground (arith, h x, hit_self x))
staying-length gone (y ∷ ys) xs h = elim (Bool-cases (contains gone y)) [
  | inl left ↦
      let rest = staying-length gone ys xs (λ a. elim (hit-cases y a) [
        | inl e ↦
            let left_too : contains gone a ≡ true = sym (ap (contains gone) e) ∙ left in
            ground (arith, h a, left_too)
        | inr other ↦ ground (arith, h a, other)
      ]) in
      rw left (omega (arith, rest))
  | inr stays ↦
      let here : 0 < count y xs = ground (arith, h y, stays, hit_self y) in
      let rest =
        staying-length gone ys (drop_one y xs)
          (λ a. ground (arith, h a, drop_one-count y a xs here)) in
      rw stays (omega (arith, rest, drop_one-length y xs here))
]

not_left-count :
    (gone xs : List String) (a : String)
    → count a (not_left gone xs) ≡ (if contains gone a then 0 else count a xs)
unfolding not_left
not_left-count gone [] a = ground arith
not_left-count gone (x ∷ xs) a = elim (hit-cases x a) [
  | inl e ↦
      let alike : contains gone x ≡ contains gone a = ap (contains gone) e in
      ground (arith, alike, not_left-count gone xs a)
  | inr other ↦ ground (arith, other, not_left-count gone xs a)
]

-- The same players, the same number who stay.
pub staying_same : (gone xs ys : List String) → SameIds xs ys → staying gone xs ≡ staying gone ys
staying_same gone xs ys same =
    let left = not_left gone xs in
    sym (staying-length gone xs left (not_left-count gone xs))
    ∙ staying-length gone ys left (λ a. ground (arith, not_left-count gone xs a, same a))

-- A layout with a court seats four or more.
court_seats :
    (courts : List RotCourt) (bench : List String)
    → 0 < length courts
    → 4 ≤ length (seated courts ++ bench)
court_seats [] bench h = absurd (omega arith)
court_seats (c ∷ courts) bench h = omega arith

-- With four or more waiting, or a court, a grown layout has a court.
grown_court :
    (courts : List RotCourt) (bench : List String) (cap : ℤ)
    → IsGrown (record { courts = courts; bench = bench }) cap
    → 4 ≤ length (seated courts ++ bench)
    → 0 < length courts
grown_court [] bench cap grown enough = elim grown [
  | inl few ↦ omega (arith, few, enough)
  | inr (above, below) ↦ omega (arith, above, below)
]
grown_court (c ∷ courts) bench cap grown enough = omega arith

-- From a safe layout, whoever has left: with departures settled and courts re-opened there is a
-- court exactly if at least four players stay.
pub four_staying :
    (courts : List RotCourt) (bench gone : List String) (cap : ℤ)
    → IsLayout courts bench
    → let settled = settle_departures courts bench gone in
      let next = grow_courts settled.courts settled.bench cap in
      (0 < length next.courts) ↔ (4 ≤ staying gone (seated courts ++ bench))
four_staying courts bench gone cap v =
    let settled = settle_departures courts bench gone in
    let next = grow_courts settled.courts settled.bench cap in
    let (w, left) = settle_departures-IsLayout courts bench gone v in
    let (_, same, grown) = grow_courts-IsLayout settled.courts settled.bench cap w in
    let n =
      staying-length gone (seated courts ++ bench) (seated next.courts ++ next.bench)
        (λ a. same a ∙ left a) in
    (
      λ some_court. omega (arith, n, court_seats next.courts next.bench some_court),
      λ enough. grown_court next.courts next.bench cap grown (omega (arith, n, enough)),
    )
