-- ===== src/Night/Settle.antt =====
-- `settleDepartures` seats nobody who has left, and loses nobody who stays.
use plan_my_pickle_backend.Base.{
  suc, ◌≤◌, ◌≡◌, refl, ap, inl, inr, true, false, List, [], ◌∷◌, ◌++◌, String, arith, if◌then◌else◌,
  Bool-cases, length, count, count-append, contains, eq_iff,
}
use plan_my_pickle_backend.Rotation.{RotCourt, seated, IsNumbered, IsLayout}
use plan_my_pickle_backend.Night.{vacant, not_left, settle_loop, settle_departures}
use plan_my_pickle_backend.Night.Fill.{not_left-count, not_left-none}
use plan_my_pickle_backend.Night.SettleLoop.{
  settle_loop-count, settle_loop-none, settle_loop-IsNumbered,
}

settle_departures-count :
    (courts : List RotCourt) (bench left : List String) (a : String)
    → vacant left a ≡ false
    → let settled = settle_departures courts bench left in
      count a (seated settled.courts ++ settled.bench) ≡ count a (seated courts ++ bench)
unfolding settle_departures
settle_departures-count courts bench [] a s = ground arith
settle_departures-count courts bench (l ∷ left) a s =
    let gone = l ∷ left in
    let fuel = suc (length courts) in
    let settled = settle_loop fuel gone courts (not_left gone bench) in
    omega (
      arith,
      count-append a (seated settled.courts) settled.bench,
      count-append a (seated courts) bench,
      settle_loop-count gone a fuel courts (not_left gone bench) s,
      not_left-count gone a bench s,
    )

settle_departures-none :
    (courts : List RotCourt) (bench left : List String) (a : String)
    → vacant left a ≡ true
    → count "" (seated courts ++ bench) ≡ 0
    → let settled = settle_departures courts bench left in
      count a (seated settled.courts ++ settled.bench) ≡ 0
unfolding settle_departures
settle_departures-none courts bench [] a g b =
    ground (arith, eq_iff a "", ap (λ x. count x (seated courts ++ bench)))
settle_departures-none courts bench (l ∷ left) a g b =
    let gone = l ∷ left in
    let fuel = suc (length courts) in
    let settled = settle_loop fuel gone courts (not_left gone bench) in
    let (none_seated, none_waiting) =
      settle_loop-none gone a fuel courts (not_left gone bench) g (omega arith)
        (not_left-none gone a bench g (omega (arith, b, count-append "" (seated courts) bench))) in
    omega (arith, none_seated, none_waiting, count-append a (seated settled.courts) settled.bench)

settle_departures-IsNumbered :
    (courts : List RotCourt) (bench left : List String)
    → IsNumbered 0 courts
    → IsNumbered 0 (settle_departures courts bench left).courts
unfolding settle_departures
settle_departures-IsNumbered courts bench [] v = v
settle_departures-IsNumbered courts bench (l ∷ left) v =
    settle_loop-IsNumbered (l ∷ left) (suc (length courts)) courts (not_left (l ∷ left) bench) v

settled_le :
    (courts : List RotCourt) (bench left : List String)
    → IsLayout courts bench
    → (a : String)
    → count a (
        seated (settle_departures courts bench left).courts
        ++ (settle_departures courts bench left).bench)
      ≤ 1
settled_le courts bench left v a = elim (Bool-cases (vacant left a)) [
  | inl g ↦ omega (arith, settle_departures-none courts bench left a g v.no_blank)
  | inr s ↦ omega (arith, settle_departures-count courts bench left a s, v.distinct a)
]

settled-count :
    (courts : List RotCourt) (bench left : List String)
    → IsLayout courts bench
    → (a : String)
    → count a (
        seated (settle_departures courts bench left).courts
        ++ (settle_departures courts bench left).bench)
      ≡ (if contains left a then 0 else count a (seated courts ++ bench))
settled-count courts bench left v a = elim (Bool-cases (vacant left a)) [
  | inl g ↦ ground (
    arith,
    settle_departures-none courts bench left a g v.no_blank,
    eq_iff a "",
    v.no_blank,
    ap (λ x. count x (seated courts ++ bench)),
  )
  | inr s ↦ ground (arith, settle_departures-count courts bench left a s)
]

-- From a safe layout, whoever has left: the layout after the departures are settled is safe, those
-- who have left are neither on a court nor on the bench, and everybody else is, once.
pub settle_departures-IsLayout :
    (courts : List RotCourt) (bench left : List String)
    → IsLayout courts bench
    → let settled = settle_departures courts bench left in
      IsLayout settled.courts settled.bench
      × ((a : String)
          → count a (seated settled.courts ++ settled.bench)
            ≡ (if contains left a then 0 else count a (seated courts ++ bench)))
settle_departures-IsLayout courts bench left v =
    let settled = settle_departures courts bench left in
    (
      record {
        numbered = settle_departures-IsNumbered courts bench left v.numbered;
        no_blank = settle_departures-none courts bench left "" refl v.no_blank;
        distinct = λ a. settled_le courts bench left v a;
      },
      λ a. settled-count courts bench left v a,
    )
