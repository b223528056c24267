-- ===== src/Arrange/Going.antt =====
-- What a step of the interleaving loop does to the counters and the tables.
use plan_my_pickle_backend.Base.{
  ℕ, zero, suc, ◌+◌, ◌*◌, ◌≤◌, ◌<◌, ◌≡◌, ◌⊎◌, refl, ap, inl, inr, List, [], ◌∷◌, ◌++◌, String, All,
  length, IsDistinct, weigh, weigh-append, arith,
}
use plan_my_pickle_backend.Arrange.{Agenda, Board, Turn, SlotSeat, seats_of}
use plan_my_pickle_backend.Arrange.Steps.{Step, put, next}
use plan_my_pickle_backend.Arrange.Left.{
  flatten, left_of, left_of_fresh, left_in, left-put, IsCounted, Step-IsCounted,
}

-- Nobody sits in a slot later than this one.
abbrev pub IsUpTo : ℕ → Board → Type 0
IsUpTo slot b = All (λ s. s.seat_slot ≤ slot) b.occupied × All (λ s. s.seat_slot ≤ slot) b.last_slot

seats_of-le :
    (slot : ℕ) (players : List String) (seats : List SlotSeat)
    → All (λ s. s.seat_slot ≤ slot) seats
    → All (λ s. s.seat_slot ≤ slot) (seats_of slot players ++ seats)
seats_of-le slot [] seats h = h
seats_of-le slot (a ∷ players) seats h = (omega arith, seats_of-le slot players seats h)

-- Since the state `t` a match has been placed, or nothing has.
abbrev IsSince : Turn → Turn → Type 0
IsSince t u = (u.remaining < t.remaining) ⊎ ((u.remaining ≡ t.remaining) × (u.board ≡ t.board))

abbrev pub IsGoing : Agenda → ℕ → Turn → Turn → Type 0
IsGoing i slot t u = IsCounted i u × IsUpTo slot u.board × IsSince t u

Step-IsUpTo :
    (i : Agenda) (slot : ℕ) {x y : Turn}
    → Step i slot x y
    → IsUpTo slot x.board
    → IsUpTo slot y.board
Step-IsUpTo i slot (put x div court known going more own free fine) (h, l) =
    (seats_of-le slot _ x.board.occupied h, seats_of-le slot _ x.board.last_slot l)
Step-IsUpTo i slot (next x div known going over) h = h

Step-IsSince :
    (i : Agenda) (slot : ℕ) (t : Turn) {x y : Turn}
    → IsDistinct i.div_order
    → Step i slot x y
    → IsCounted i x
    → IsSince t x
    → IsSince t y
Step-IsSince i slot t distinct (put x div court known going more own free fine) (rest, all) since =
    let less = left-put i (λ _. 1) slot div court x (omega (arith, distinct div)) going more in
    elim since [
      | inl fewer ↦ inl (omega (arith, fewer))
      | inr (same, board) ↦ inl (omega (arith, same, rest, less))
    ]
Step-IsSince i slot t distinct (next x div known going over) counted since = since

pub Step-IsGoing :
    (i : Agenda) (slot : ℕ) (t u v : Turn)
    → IsDistinct i.div_order
    → Step i slot u v
    → IsGoing i slot t u
    → IsGoing i slot t v
Step-IsGoing i slot t u v distinct step (counted, up, since) = (
  Step-IsCounted i slot u v distinct step counted,
  Step-IsUpTo i slot step up,
  Step-IsSince i slot t distinct step counted since,
)

pub mul_place :
    (r r' m turns idle : ℕ)
    → r' < r
    → r * (m + 1) ≤ suc turns + idle
    → idle ≤ m
    → r' * (m + 1) ≤ turns
mul_place r r' m turns idle less h low = grind arith

pub mul_zero : (r m idle : ℕ) → r * (m + 1) ≤ idle → idle ≤ m → r ≡ 0
mul_zero zero m idle h low = refl
mul_zero (suc r) m idle h low = absurd (grind arith)

-- The matches of the divisions, in their order.
abbrev pub matches_of : Agenda → List String → List String
matches_of i [] = []
matches_of i (d ∷ divs) = flatten (i.div_rounds d) ++ matches_of i divs

pub matches_of-weigh :
    (i : Agenda) (g : String → ℕ) (divs : List String)
    → weigh (left_in i g (λ _. 0) (λ _. 0)) divs ≡ weigh g (matches_of i divs)
matches_of-weigh i g [] = refl
matches_of-weigh i g (d ∷ divs) = omega (
  arith,
  weigh-append g (flatten (i.div_rounds d)) (matches_of i divs),
  ap (weigh g) (left_of_fresh (i.div_rounds d)),
  matches_of-weigh i g divs,
)

pub weigh_one : (xs : List String) → weigh (λ _. 1) xs ≡ length xs
weigh_one [] = refl
weigh_one (x ∷ xs) = omega (arith, weigh_one xs)

weigh_none : (g : String → ℕ) (xs : List String) → weigh (λ _. 1) xs ≡ 0 → weigh g xs ≡ 0
weigh_none g [] h = refl
weigh_none g (x ∷ xs) h = absurd (omega (arith, h))

pub left_none :
    (i : Agenda) (g : String → ℕ) (idx at : String → ℕ) (divs : List String)
    → weigh (left_in i (λ _. 1) idx at) divs ≡ 0
    → weigh (left_in i g idx at) divs ≡ 0
left_none i g idx at [] h = refl
left_none i g idx at (d ∷ divs) h = omega (
  arith,
  h,
  weigh_none g (left_of (i.div_rounds d) (idx d) (at d)) (omega (arith, h)),
  left_none i g idx at divs (omega (arith, h)),
)
