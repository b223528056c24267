-- ===== src/Schedule/Circle/Once.antt =====
-- Every two players meet once: what `singlesRoundRobin` promises.
use plan_my_pickle_backend.Base.{
  ℕ, suc, ◌-◌, ◌*◌, ◌≤◌, ◌<◌, ◌≡◌, ◌≢◌, refl, sym, ap, ◌∙◌, ◌⊎◌, inl, inr, subst, List, some,
  some-injective, String, arith, length, get_or, get_elem?, length_of_get, count, IsDistinct,
  le→ltb,
}
use plan_my_pickle_backend.Schedule.{RawMatch}
use plan_my_pickle_backend.Schedule.Circle.{bye, rounds_from, even_field, singles_round_robin}
use plan_my_pickle_backend.Schedule.Circle.Places.{rounds_from-at, length-rounds_from}
use plan_my_pickle_backend.Schedule.Circle.Pairs.{
  place_of, even_field-even, even_field-count, even_field-IsDistinct,
}
use plan_my_pickle_backend.Schedule.Circle.Laws.{Meets, Meets-comm, circle_round, exists, unique}

-- With two places or more, the guard passes.
singles-of :
    (players : List String)
    → 2 ≤ length (even_field players)
    → singles_round_robin players
      ≡ rounds_from (length (even_field players) - 1) (even_field players)
unfolding singles_round_robin
singles-of players h = rw (le→ltb (length (even_field players)) 2 h) refl

-- The round of `p` where two players at different places meet, in either order.
some_round :
    (p : List String) (h x y : ℕ)
    → length p ≡ 2 * h
    → IsDistinct p
    → x ≢ y
    → x < length p
    → y < length p
    → get_or p x bye ≢ bye
    → get_or p y bye ≢ bye
    → (r : ℕ) × (suc r < length p) × Meets (get_or p x bye) (get_or p y bye) (circle_round p r)
some_round p h x y even d ne hx hy nx ny =
    let order : (x < y) ⊎ (y < x) = omega (arith, ne) in
    elim order [
      | inl lt ↦ exists p h even d x y lt hy nx ny
      | inr lt ↦
          let (r, hr, m) = exists p h even d y x lt hx ny nx in
          (r, hr, Meets-comm (get_or p y bye) (get_or p x bye) (circle_round p r) m)
    ]

once_at :
    (p : List String) (h x y : ℕ)
    → length p ≡ 2 * h
    → IsDistinct p
    → x ≢ y
    → x < length p
    → y < length p
    → get_or p x bye ≢ bye
    → get_or p y bye ≢ bye
    → (r : ℕ) × (round : List RawMatch) × (get_elem? (rounds_from (length p - 1) p) r ≡ some round)
      × Meets (get_or p x bye) (get_or p y bye) round
      × ((q : ℕ) (other : List RawMatch)
          → get_elem? (rounds_from (length p - 1) p) q ≡ some other
          → Meets (get_or p x bye) (get_or p y bye) other
          → q ≡ r)
once_at p h x y even d ne hx hy nx ny =
    let (r, hr, m) = some_round p h x y even d ne hx hy nx ny in
    (
      r,
      circle_round p r,
      rounds_from-at (length p - 1) r p (omega arith),
      m,
      λ q other at m'.
          let hq = length_of_get (rounds_from (length p - 1) p) q at in
          let hq' : suc q < length p = omega (arith, hq, length-rounds_from (length p - 1) p, hx) in
          let same : other ≡ circle_round p q =
            some-injective other (circle_round p q)
              (sym at ∙ rounds_from-at (length p - 1) q p (omega (arith, hq'))) in
          unique p h even d x y q r ne hx hy hq' hr
            (subst (λ l. Meets (get_or p x bye) (get_or p y bye) l) same m') m,
    )

-- Of distinct players, none of them blank, every two meet in exactly one round of the schedule
-- that `singlesRoundRobin` returns: there is a round with a match between them, and a round with
-- such a match is that round.
pub singles_round_robin-Meets :
    (players : List String) (a b : String)
    → IsDistinct players
    → count "" players ≡ 0
    → 0 < count a players
    → 0 < count b players
    → a ≢ b
    → (r : ℕ) × (round : List RawMatch) × (get_elem? (singles_round_robin players) r ≡ some round)
      × Meets a b round
      × ((q : ℕ) (other : List RawMatch)
          → get_elem? (singles_round_robin players) q ≡ some other
          → Meets a b other
          → q ≡ r)
singles_round_robin-Meets players a b d no_blank in_a in_b ne =
    let na : a ≢ bye = λ e. omega (arith, in_a, no_blank, ap (λ c. count c players) e) in
    let nb : b ≢ bye = λ e. omega (arith, in_b, no_blank, ap (λ c. count c players) e) in
    let p = even_field players in
    let (h, even) = even_field-even players in
    let (x, hx, ex) = place_of p a (omega (arith, in_a, even_field-count players a na)) in
    let (y, hy, ey) = place_of p b (omega (arith, in_b, even_field-count players b nb)) in
    let far : x ≢ y = λ e. ne (sym ex ∙ ap (λ i. get_or p i bye) e ∙ ey) in
    let found =
      once_at p h x y even (even_field-IsDistinct players d no_blank) far hx hy
        (λ e. na (sym ex ∙ e)) (λ e. nb (sym ey ∙ e)) in
    rw (singles-of players (omega (arith, far, hx, hy)), sym ex, sym ey) found
