-- ===== src/Night/Fill.antt =====
-- The vacated seats are filled from the queue, and nobody who has left is on it.
use plan_my_pickle_backend.Base.{
  ◌+◌, ◌≡◌, refl, ap, ◌⊎◌, inl, inr, true, false, List, [], ◌∷◌, String, arith, hit, hit-cases,
  hit_self, count, count-append, eq_iff,
}
use plan_my_pickle_backend.Rotation.{RotCourt, court_ids, seated}
use plan_my_pickle_backend.Night.{vacant, not_left, survivors, fill_seat, fill_court, fill_courts}

-- Who has left and who stays are different people.
vacant-hit : (left : List String) (x a : String) → (hit x a ≡ 0) ⊎ (vacant left x ≡ vacant left a)
vacant-hit left x a = elim (hit-cases x a) [ inl e ↦ inr (ap (vacant left) e) | inr e ↦ inl e ]

module _ (left : List String) (a : String) where
  pub not_left-count :
      (xs : List String) → vacant left a ≡ false → count a (not_left left xs) ≡ count a xs
  unfolding not_left
  not_left-count [] s = refl
  not_left-count (x ∷ xs) s = ground (arith, vacant-hit left x a, not_left-count xs s)

  pub not_left-none :
      (xs : List String) → vacant left a ≡ true → count "" xs ≡ 0 → count a (not_left left xs) ≡ 0
  unfolding not_left
  not_left-none [] g b = refl
  not_left-none (x ∷ xs) g b =
      ground
        (arith, vacant-hit left x a, not_left-none xs g (omega arith), eq_iff x "", hit_self "")

  pub survivors-count :
      (xs : List String) → vacant left a ≡ false → count a (survivors left xs) ≡ count a xs
  unfolding survivors
  survivors-count [] s = refl
  survivors-count (x ∷ xs) s = ground (arith, vacant-hit left x a, survivors-count xs s)

  pub survivors-none : (xs : List String) → vacant left a ≡ true → count a (survivors left xs) ≡ 0
  unfolding survivors
  survivors-none [] g = refl
  survivors-none (x ∷ xs) g = ground (arith, vacant-hit left x a, survivors-none xs g)

  fill_seat-count :
      (seat : String) (waiting : List String)
      → vacant left a ≡ false
      → hit (fill_seat left seat waiting).value a + count a (fill_seat left seat waiting).waiting
        ≡ hit seat a + count a waiting
  unfolding fill_seat
  fill_seat-count seat [] s = ground arith
  fill_seat-count seat (w ∷ waiting) s = ground (arith, vacant-hit left seat a)

  fill_court-count :
      (c : RotCourt) (waiting : List String)
      → vacant left a ≡ false
      → count a (court_ids (fill_court left c waiting).value)
          + count a (fill_court left c waiting).waiting
        ≡ count a (court_ids c) + count a waiting
  unfolding fill_court
  fill_court-count c waiting s =
      let a0 = fill_seat left c.team_a.0 waiting in
      let a1 = fill_seat left c.team_a.1 a0.waiting in
      let b0 = fill_seat left c.team_b.0 a1.waiting in
      omega (
        arith,
        fill_seat-count c.team_a.0 waiting s,
        fill_seat-count c.team_a.1 a0.waiting s,
        fill_seat-count c.team_b.0 a1.waiting s,
        fill_seat-count c.team_b.1 b0.waiting s,
      )

  pub fill_courts-count :
      (cs : List RotCourt) (waiting : List String)
      → vacant left a ≡ false
      → count a (seated (fill_courts left cs waiting).value)
          + count a (fill_courts left cs waiting).waiting
        ≡ count a (seated cs) + count a waiting
  unfolding fill_courts
  fill_courts-count [] waiting s = refl
  fill_courts-count (c ∷ cs) waiting s =
      let below = fill_courts left cs waiting in
      let here = fill_court left c below.waiting in
      omega (
        arith,
        fill_courts-count cs waiting s,
        fill_court-count c below.waiting s,
        count-append a (court_ids here.value) (seated below.value),
        count-append a (court_ids c) (seated cs),
      )

  -- Those who have left do not wait, and keep a seat only if one was stranded.
  fill_seat-none :
      (seat : String) (waiting : List String)
      → vacant left a ≡ true
      → count a waiting ≡ 0
      → (count a (fill_seat left seat waiting).waiting ≡ 0)
        × (((fill_seat left seat waiting).stranded ≡ true)
            ⊎ (hit (fill_seat left seat waiting).value a ≡ 0))
  unfolding fill_seat
  fill_seat-none seat [] g w = ground (arith, vacant-hit left seat a)
  fill_seat-none seat (x ∷ waiting) g w = ground (arith, vacant-hit left seat a)

  fill_court-none :
      (c : RotCourt) (waiting : List String)
      → vacant left a ≡ true
      → count a waiting ≡ 0
      → (count a (fill_court left c waiting).waiting ≡ 0)
        × (((fill_court left c waiting).stranded ≡ true)
            ⊎ (count a (court_ids (fill_court left c waiting).value) ≡ 0))
  unfolding fill_court
  fill_court-none c waiting g w =
      let a0 = fill_seat left c.team_a.0 waiting in
      let a1 = fill_seat left c.team_a.1 a0.waiting in
      let b0 = fill_seat left c.team_b.0 a1.waiting in
      let b1 = fill_seat left c.team_b.1 b0.waiting in
      let (w1, h1) = fill_seat-none c.team_a.0 waiting g w in
      let (w2, h2) = fill_seat-none c.team_a.1 a0.waiting g w1 in
      let (w3, h3) = fill_seat-none c.team_b.0 a1.waiting g w2 in
      let (w4, h4) = fill_seat-none c.team_b.1 b0.waiting g w3 in (w4, ground arith)

  pub fill_courts-none :
      (cs : List RotCourt) (waiting : List String)
      → vacant left a ≡ true
      → count a waiting ≡ 0
      → (count a (fill_courts left cs waiting).waiting ≡ 0)
        × (((fill_courts left cs waiting).stranded ≡ true)
            ⊎ (count a (seated (fill_courts left cs waiting).value) ≡ 0))
  unfolding fill_courts
  fill_courts-none [] waiting g w = (w, inr refl)
  fill_courts-none (c ∷ cs) waiting g w =
      let below = fill_courts left cs waiting in
      let here = fill_court left c below.waiting in
      let (w1, h1) = fill_courts-none cs waiting g w in
      let (w2, h2) = fill_court-none c below.waiting g w1 in
      (w2, ground (arith, count-append a (court_ids here.value) (seated below.value)))
