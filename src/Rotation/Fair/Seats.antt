-- ===== src/Rotation/Fair/Seats.antt =====
-- A write to one seat: whose place it takes, and whose it leaves alone.
use plan_my_pickle_backend.Base.{
  ℕ, zero, suc, ◌+◌, ◌≡◌, ◌≢◌, refl, ap, ◌∙◌, List, [], ◌∷◌, Option, some, none, String, arith, All,
  hit, hit_self, count, count-append, count-weigh, weigh, weigh-append, get_elem?, set,
}
use plan_my_pickle_backend.Rotation.{RotCourt, court_ids, seated}
use plan_my_pickle_backend.Rotation.Fair.{SeatRef, seat_refs, put_id, set_seat}
use plan_my_pickle_backend.Base.{ids_by}

-- Who sits in a seat.
abbrev pub sitter : List RotCourt → ℕ → ℕ → Option String
sitter [] ci idx = none
sitter (c ∷ cs) zero idx = get_elem? (court_ids c) idx
sitter (c ∷ cs) (suc ci) idx = sitter cs ci idx

-- The seat holds the player that the reference names.
abbrev pub Sits : List RotCourt → SeatRef → Type 0
Sits courts s = sitter courts s.court s.idx ≡ some s.id

differs : (x y : String) → hit y x ≡ 0 → x ≢ y
differs x y h e = absurd (omega (arith, h, ap (λ z. hit z x) e, hit_self x))

module _ (g : String → ℕ) where
  put_id-weigh :
      (w : String) (c : RotCourt) (idx : ℕ) (x : String)
      → get_elem? (court_ids c) idx ≡ some x
      → weigh g (court_ids (put_id c idx w)) + g x ≡ weigh g (court_ids c) + g w
  unfolding put_id
  put_id-weigh w c zero x h = ground arith
  put_id-weigh w c (suc zero) x h = ground arith
  put_id-weigh w c (suc (suc zero)) x h = ground arith
  put_id-weigh w c (suc (suc (suc zero))) x h = ground arith
  put_id-weigh w c (suc (suc (suc (suc i)))) x h = cc

  -- A write to a seat trades its sitter's weight for the newcomer's.
  pub set_seat-weigh :
      (w : String) (courts : List RotCourt) (ci idx : ℕ) (x : String)
      → sitter courts ci idx ≡ some x
      → weigh g (seated (set_seat courts ci idx w)) + g x ≡ weigh g (seated courts) + g w
  unfolding set_seat
  set_seat-weigh w [] ci idx x h = cc
  set_seat-weigh w (c ∷ cs) zero idx x h = omega (
    arith,
    put_id-weigh w c idx x h,
    weigh-append g (court_ids c) (seated cs),
    weigh-append g (court_ids (put_id c idx w)) (seated cs),
  )
  set_seat-weigh w (c ∷ cs) (suc ci) idx x h = omega (
    arith,
    set_seat-weigh w cs ci idx x h,
    weigh-append g (court_ids c) (seated cs),
    weigh-append g (court_ids c) (seated (set_seat cs ci idx w)),
  )

pub set_seat-count :
    (a w : String) (courts : List RotCourt) (ci idx : ℕ) (x : String)
    → sitter courts ci idx ≡ some x
    → count a (seated (set_seat courts ci idx w)) + hit x a ≡ count a (seated courts) + hit w a
set_seat-count a w courts ci idx x h = omega (
  arith,
  set_seat-weigh (λ y. hit y a) w courts ci idx x h,
  count-weigh a (seated (set_seat courts ci idx w)),
  count-weigh a (seated courts),
)

pub put_id-set :
    (w : String) (c : RotCourt) (i : ℕ) → court_ids (put_id c i w) ≡ set (court_ids c) i w
unfolding put_id
put_id-set w c zero = refl
put_id-set w c (suc zero) = refl
put_id-set w c (suc (suc zero)) = refl
put_id-set w c (suc (suc (suc zero))) = refl
put_id-set w c (suc (suc (suc (suc i)))) = refl

-- A write leaves every other player's place alone.
set_other :
    (w : String) (xs : List String) (i j : ℕ) {x y : String}
    → get_elem? xs i ≡ some x
    → get_elem? xs j ≡ some y
    → x ≢ y
    → get_elem? (set xs i w) j ≡ some y
set_other w [] i j p q ne = cc
set_other w (z ∷ xs) zero zero p q ne = absurd (ne cc)
set_other w (z ∷ xs) zero (suc j) p q ne = q
set_other w (z ∷ xs) (suc i) zero p q ne = q
set_other w (z ∷ xs) (suc i) (suc j) p q ne = set_other w xs i j p q ne

set_seat-other :
    (w : String) (courts : List RotCourt) (ci i cj j : ℕ) {x y : String}
    → sitter courts ci i ≡ some x
    → sitter courts cj j ≡ some y
    → x ≢ y
    → sitter (set_seat courts ci i w) cj j ≡ some y
unfolding set_seat
set_seat-other w [] ci i cj j p q ne = cc
set_seat-other w (c ∷ cs) zero i zero j p q ne =
    ap (λ xs. get_elem? xs j) (put_id-set w c i) ∙ set_other w (court_ids c) i j p q ne
set_seat-other w (c ∷ cs) zero i (suc cj) j p q ne = q
set_seat-other w (c ∷ cs) (suc ci) i zero j p q ne = q
set_seat-other w (c ∷ cs) (suc ci) i (suc cj) j p q ne = set_seat-other w cs ci i cj j p q ne

-- The references to the seats name the seated players, each seat's own.
pub seat_refs-count :
    (a : String) (k : ℕ) (courts : List RotCourt)
    → count a (ids_by (λ s. s.id) (seat_refs k courts)) ≡ count a (seated courts)
seat_refs-count a k [] = refl
seat_refs-count a k (c ∷ cs) =
    omega (arith, count-append a (court_ids c) (seated cs), seat_refs-count a (suc k) cs)

-- The seats that are left still hold the players they are named by.
pub set_seat-Sits :
    (w x : String) (courts : List RotCourt) (ci i : ℕ) (seats : List SeatRef)
    → sitter courts ci i ≡ some x
    → count x (ids_by (λ s. s.id) seats) ≡ 0
    → All (Sits courts) seats
    → All (Sits (set_seat courts ci i w)) seats
set_seat-Sits w x courts ci i [] p none_of h = tt
set_seat-Sits w x courts ci i (s ∷ seats) p none_of h = (
  set_seat-other w courts ci i s.court s.idx p h.0 (λ e. differs x s.id (omega arith) e),
  set_seat-Sits w x courts ci i seats p (omega arith) h.1,
)
