-- ===== src/Night/SettleLoop.antt =====
-- The loop of `settleDepartures`: each turn fills the vacated seats or drops the bottom court.
use plan_my_pickle_backend.Base.{
  ℕ, zero, suc, ◌+◌, ◌<◌, ◌≡◌, refl, ap, inl, inr, true, false, List, [], ◌∷◌, ◌++◌, String, arith,
  leb, Bool-cases, length, count, count-append,
}
use plan_my_pickle_backend.Rotation.{RotCourt, court_ids, seated, IsNumbered}
use plan_my_pickle_backend.Night.{
  vacant, survivors, fill_court, fill_courts, without_last, last_ids, settle_loop,
}
use plan_my_pickle_backend.Night.Fill.{
  survivors-count, survivors-none, fill_courts-count, fill_courts-none,
}

-- The last court taken off.
without_last-count :
    (a : String) (cs : List RotCourt)
    → count a (seated (without_last cs)) + count a (last_ids cs) ≡ count a (seated cs)
without_last-count a [] = refl
without_last-count a (c ∷ []) = omega (arith, count-append a (court_ids c) [])
without_last-count a (c ∷ d ∷ cs) = omega (
  arith,
  without_last-count a (d ∷ cs),
  count-append a (court_ids c) (seated (without_last (d ∷ cs))),
  count-append a (court_ids c) (seated (d ∷ cs)),
)

without_last-length :
    (cs : List RotCourt) → 0 < length cs → suc (length (without_last cs)) ≡ length cs
without_last-length [] h = absurd (omega arith)
without_last-length (c ∷ []) h = refl
without_last-length (c ∷ d ∷ cs) h = ap suc (without_last-length (d ∷ cs) (omega arith))

without_last-IsNumbered :
    (i : ℕ) (cs : List RotCourt) → IsNumbered i cs → IsNumbered i (without_last cs)
without_last-IsNumbered i [] v = tt
without_last-IsNumbered i (c ∷ []) v = tt
without_last-IsNumbered i (c ∷ d ∷ cs) v = (v.0, without_last-IsNumbered (suc i) (d ∷ cs) v.1)

fill_courts-IsNumbered :
    (left : List String) (i : ℕ) (cs : List RotCourt) (waiting : List String)
    → IsNumbered i cs
    → IsNumbered i (fill_courts left cs waiting).value
unfolding fill_courts fill_court
fill_courts-IsNumbered left i [] waiting v = tt
fill_courts-IsNumbered left i (c ∷ cs) waiting v =
    (v.0, fill_courts-IsNumbered left (suc i) cs waiting v.1)

fill_courts-length :
    (left : List String) (cs : List RotCourt) (waiting : List String)
    → length (fill_courts left cs waiting).value ≡ length cs
unfolding fill_courts
fill_courts-length left [] waiting = refl
fill_courts-length left (c ∷ cs) waiting = ap suc (fill_courts-length left cs waiting)

pub settle_loop-count :
    (left : List String) (a : String) (fuel : ℕ) (courts : List RotCourt) (waiting : List String)
    → vacant left a ≡ false
    → count a (seated (settle_loop fuel left courts waiting).courts)
        + count a (settle_loop fuel left courts waiting).bench
      ≡ count a (seated courts) + count a waiting
unfolding settle_loop
settle_loop-count left a zero courts waiting s = refl
settle_loop-count left a (suc fuel) courts waiting s =
    let filled = fill_courts left courts waiting in
    let kept = fill_courts-count left a courts waiting s in
    let queue = survivors left (last_ids filled.value) ++ filled.waiting in
    elim (Bool-cases filled.stranded) [
      | inr whole ↦ rw whole kept
      | inl stranded ↦ elim (Bool-cases (leb (length filled.value) 1)) [
        | inl few ↦
            rw (stranded, few)
              (omega (
                arith,
                kept,
                count-append a (survivors left (seated filled.value)) filled.waiting,
                survivors-count left a (seated filled.value) s,
              ))
        | inr more ↦
            rw (stranded, more)
              (omega (
                arith,
                kept,
                settle_loop-count left a fuel (without_last filled.value) queue s,
                count-append a (survivors left (last_ids filled.value)) filled.waiting,
                survivors-count left a (last_ids filled.value) s,
                without_last-count a filled.value,
              ))
      ]
    ]

pub settle_loop-none :
    (left : List String) (a : String) (fuel : ℕ) (courts : List RotCourt) (waiting : List String)
    → vacant left a ≡ true
    → length courts < fuel
    → count a waiting ≡ 0
    → (count a (seated (settle_loop fuel left courts waiting).courts) ≡ 0)
      × (count a (settle_loop fuel left courts waiting).bench ≡ 0)
unfolding settle_loop
settle_loop-none left a zero courts waiting g enough w = absurd (omega arith)
settle_loop-none left a (suc fuel) courts waiting g enough w =
    let filled = fill_courts left courts waiting in
    let (w', h) = fill_courts-none left a courts waiting g w in
    let len = fill_courts-length left courts waiting in
    let queue = survivors left (last_ids filled.value) ++ filled.waiting in
    elim (Bool-cases filled.stranded) [
      | inr whole ↦ rw whole (ground arith, w')
      | inl stranded ↦ elim (Bool-cases (leb (length filled.value) 1)) [
        | inl few ↦
            rw (stranded, few)
              (
                refl,
                omega (
                  arith,
                  w',
                  count-append a (survivors left (seated filled.value)) filled.waiting,
                  survivors-none left a (seated filled.value) g,
                ),
              )
        | inr more ↦
            rw (stranded, more)
              (settle_loop-none left a fuel (without_last filled.value) queue g
                (ground (arith, without_last-length filled.value))
                (omega (
                  arith,
                  w',
                  count-append a (survivors left (last_ids filled.value)) filled.waiting,
                  survivors-none left a (last_ids filled.value) g,
                )))
      ]
    ]

pub settle_loop-IsNumbered :
    (left : List String) (fuel : ℕ) (courts : List RotCourt) (waiting : List String)
    → IsNumbered 0 courts
    → IsNumbered 0 (settle_loop fuel left courts waiting).courts
unfolding settle_loop
settle_loop-IsNumbered left zero courts waiting v = v
settle_loop-IsNumbered left (suc fuel) courts waiting v =
    let filled = fill_courts left courts waiting in
    let same = fill_courts-IsNumbered left 0 courts waiting v in
    elim (Bool-cases filled.stranded) [
      | inr whole ↦ rw whole same
      | inl stranded ↦ elim (Bool-cases (leb (length filled.value) 1)) [
        | inl few ↦ rw (stranded, few) tt
        | inr more ↦
            rw (stranded, more)
              (settle_loop-IsNumbered left fuel (without_last filled.value)
                (survivors left (last_ids filled.value) ++ filled.waiting)
                (without_last-IsNumbered 0 filled.value same))
      ]
    ]
