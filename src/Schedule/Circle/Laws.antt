-- ===== src/Schedule/Circle/Laws.antt =====
-- Every two players meet in exactly one round of `singlesRoundRobin`.
use plan_my_pickle_backend.Base.{
  ℕ, suc, ◌+◌, ◌-◌, ◌*◌, ◌/◌, ◌<◌, ◌≡◌, ◌≢◌, sym, ap, ◌∙◌, ◌⊎◌, inl, inr, List, some, String, arith,
  length, get_or, get_elem?, IsDistinct,
}
use plan_my_pickle_backend.Schedule.{RawMatch}
use plan_my_pickle_backend.Schedule.Circle.{bye, single, pairs_from}
use plan_my_pickle_backend.Schedule.Circle.Places.{
  turned, turned-at, length-turned, source, source-lt,
}
use plan_my_pickle_backend.Schedule.Circle.Meet.{
  loc, source-loc, loc-source, meeting, meeting-loc, unique-loc,
}
use plan_my_pickle_backend.Schedule.Circle.Pairs.{pairs_from-of, pairs_from-at, place_unique}

-- A match of the round is between the two, in either order.
pub record Meets (a b : String) (round : List RawMatch) : Type 0 where
  pub index : ℕ
  pub game : RawMatch
  pub at : get_elem? round index ≡ some game
  pub between : (game ≡ single a b) ⊎ (game ≡ single b a)

-- The round at index `r` of the circle over `p`.
abbrev pub circle_round : List String → ℕ → List RawMatch
circle_round p r = pairs_from (turned r p) (length (turned r p)) 0 (length (turned r p) / 2)

pub Meets-comm : (a b : String) (round : List RawMatch) → Meets a b round → Meets b a round
Meets-comm a b round m = record {
  index = m.index;
  game = m.game;
  at = m.at;
  between = elim m.between [ inl e ↦ inr e | inr e ↦ inl e ];
}

module _ (p : List String) (h : ℕ) (even : length p ≡ 2 * h) (d : IsDistinct p) where
  -- Who stands where in round `r`.
  stands :
      (r i : ℕ)
      → suc r < length p
      → i < length p
      → get_or (turned r p) i bye ≡ get_or p (source (length p) r i) bye
  stands r i hr hi = turned-at p r i hi (omega arith)

  -- Two that stand opposite, at the lower place first, meet.
  Meets-at :
      (r i : ℕ) (a b : String)
      → suc r < length p
      → i < h
      → get_or (turned r p) i bye ≡ a
      → get_or (turned r p) (length p - 1 - i) bye ≡ b
      → a ≢ bye
      → b ≢ bye
      → Meets a b (circle_round p r)
  Meets-at r i a b hr hi ea eb na nb =
      let len = length-turned r p (omega arith) in
      let e : get_or (turned r p) (length (turned r p) - 1 - i) bye ≡ b =
        ap (λ n. get_or (turned r p) (n - 1 - i) bye) len ∙ eb in
      let (j, at) =
        pairs_from-at (turned r p) (length (turned r p)) 0 (length (turned r p) / 2) i (omega arith)
          (omega (arith, len, even)) (λ q. na (sym ea ∙ q)) (λ q. nb (sym e ∙ q)) in
      record {
        index = j;
        game =
            single (get_or (turned r p) i bye)
              (get_or (turned r p) (length (turned r p) - 1 - i) bye);
        at = at;
        between = inl (λ k. single (ea k) (e k));
      }

  stands_loc :
      (r x : ℕ)
      → suc r < length p
      → x < length p
      → get_or (turned r p) (loc (length p) r x) bye ≡ get_or p x bye
  stands_loc r x hr hx =
      let (back, inside) = source-loc (length p) r x hr hx in
      stands r (loc (length p) r x) hr inside ∙ ap (λ i. get_or p i bye) back

  -- For x < y on the roster.
  pub exists :
      (x y : ℕ)
      → x < y
      → y < length p
      → get_or p x bye ≢ bye
      → get_or p y bye ≢ bye
      → (r : ℕ) × (suc r < length p) × Meets (get_or p x bye) (get_or p y bye) (circle_round p r)
  exists x y lt hy nx ny =
      let r = meeting (length p) x y in
      let (hr, opposite) = meeting-loc (length p) h x y even lt hy in
      let i = loc (length p) r x in
      let j = loc (length p) r y in
      let at_x = stands_loc r x hr (omega arith) in
      let at_y = stands_loc r y hr hy in
      let facing_i : length p - 1 - i ≡ j = omega (arith, opposite) in
      let facing_j : length p - 1 - j ≡ i = omega (arith, opposite) in
      let half : (i < h) ⊎ (j < h) = omega (arith, opposite, even) in
      (
        r,
        hr,
        elim half [
          | inl lo ↦
              Meets-at r i (get_or p x bye) (get_or p y bye) hr lo at_x
                (ap (λ t. get_or (turned r p) t bye) facing_i ∙ at_y) nx ny
          | inr lo ↦ Meets-comm (get_or p y bye) (get_or p x bye) (circle_round p r) (
              Meets-at r j (get_or p y bye) (get_or p x bye) hr lo at_y
                (ap (λ t. get_or (turned r p) t bye) facing_j ∙ at_x) ny nx)
        ],
      )

  place_of_stander :
      (r k x : ℕ)
      → suc r < length p
      → k < length p
      → x < length p
      → get_or (turned r p) k bye ≡ get_or p x bye
      → k ≡ loc (length p) r x
  place_of_stander r k x hr hk hx e =
      let s = source (length p) r k in
      let same : s ≡ x =
        place_unique p s x d (source-lt (length p) r k hk (omega arith)) hx
          (sym (stands r k hr hk) ∙ e) in
      sym (loc-source (length p) r k hr hk) ∙ ap (loc (length p) r) same

  facing :
      (x y r : ℕ)
      → x < length p
      → y < length p
      → suc r < length p
      → Meets (get_or p x bye) (get_or p y bye) (circle_round p r)
      → loc (length p) r x + loc (length p) r y ≡ length p - 1
  facing x y r hx hy hr m =
      let len = length-turned r p (omega arith) in
      let (k, _, hk, e) =
        pairs_from-of (turned r p) (length (turned r p)) 0 (length (turned r p) / 2) m.index m.at in
      let inside : k < length p = omega (arith, len, even) in
      let other : length p - 1 - k < length p = omega arith in
      let same = ap (λ n. get_or (turned r p) (n - 1 - k) bye) len in
      elim m.between [
        | inl f ↦ omega (
          arith,
          place_of_stander r k x hr inside hx (cc),
          place_of_stander r (length p - 1 - k) y hr other hy (sym same ∙ cc),
        )
        | inr f ↦ omega (
          arith,
          place_of_stander r k y hr inside hy (cc),
          place_of_stander r (length p - 1 - k) x hr other hx (sym same ∙ cc),
        )
      ]

  pub unique :
      (x y r q : ℕ)
      → x ≢ y
      → x < length p
      → y < length p
      → suc r < length p
      → suc q < length p
      → Meets (get_or p x bye) (get_or p y bye) (circle_round p r)
      → Meets (get_or p x bye) (get_or p y bye) (circle_round p q)
      → r ≡ q
  unique x y r q ne hx hy hr hq m m' =
      unique-loc (length p) h x y r q even ne hx hy hr hq (facing x y r hx hy hr m)
        (facing x y q hx hy hq m')
