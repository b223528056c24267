-- ===== src/Night/Grow.antt =====
-- `growCourts` re-opens courts as far as the queue and the cap allow.
use plan_my_pickle_backend.Base.{
  ℕ, suc, ◌+◌, ◌<◌, ◌≡◌, refl, ◌∙◌, ◌⊎◌, inl, inr, not, ◌&&◌, List, [], ◌∷◌, ◌++◌, String, arith,
  Bool-cases, length, count, count-append, SameIds, ℤ, pos, ltb_ℤ, ◌≤ℤ◌, ◌<ℤ◌,
}
use plan_my_pickle_backend.Rotation.{RotCourt, court_ids, seated, IsNumbered, IsLayout}
use plan_my_pickle_backend.Rotation.Move.{Round}
use plan_my_pickle_backend.Night.{grow_courts}

seated-append :
    (a : String) (cs ds : List RotCourt)
    → count a (seated (cs ++ ds)) ≡ count a (seated cs) + count a (seated ds)
seated-append a [] ds = omega arith
seated-append a (c ∷ cs) ds = omega (
  arith,
  seated-append a cs ds,
  count-append a (court_ids c) (seated (cs ++ ds)),
  count-append a (court_ids c) (seated cs),
)

IsNumbered-append_one :
    (i : ℕ) (cs : List RotCourt) (c : RotCourt)
    → IsNumbered i cs
    → c.court ≡ i + length cs + 1
    → IsNumbered i (cs ++ c ∷ [])
IsNumbered-append_one i [] c v e = (omega (arith, e), tt)
IsNumbered-append_one i (d ∷ cs) c v e =
    (v.0, IsNumbered-append_one (suc i) cs c v.1 (omega (arith, e)))

-- The queue is short, or the venue is full.
abbrev pub IsGrown : Round → ℤ → Type 0
IsGrown r max_courts =
    (length r.bench < 4) ⊎ ((pos 0 <ℤ max_courts) × (max_courts ≤ℤ pos (length r.courts)))

record Grown (courts : List RotCourt) (bench : List String) (max_courts : ℤ) (r : Round)
    : Type 0 where
  numbered : IsNumbered 0 courts → IsNumbered 0 r.courts
  same :
      (a : String)
      → count a (seated r.courts) + count a r.bench ≡ count a (seated courts) + count a bench
  grown : IsGrown r max_courts

grow_courts-Grown :
    (courts : List RotCourt) (bench : List String) (max_courts : ℤ)
    → Grown courts bench max_courts (grow_courts courts bench max_courts)
unfolding grow_courts
grow_courts-Grown courts [] m = record {
  numbered = λ v. v;
  same = λ a. refl;
  grown = inl (omega arith);
}
grow_courts-Grown courts (a ∷ []) m = record {
  numbered = λ v. v;
  same = λ x. refl;
  grown = inl (omega arith);
}
grow_courts-Grown courts (a ∷ b ∷ []) m = record {
  numbered = λ v. v;
  same = λ x. refl;
  grown = inl (omega arith);
}
grow_courts-Grown courts (a ∷ b ∷ c ∷ []) m = record {
  numbered = λ v. v;
  same = λ x. refl;
  grown = inl (omega arith);
}
grow_courts-Grown courts (a ∷ b ∷ c ∷ d ∷ bench) m =
    let court : RotCourt = record { court = length courts + 1; team_a = (a, c); team_b = (b, d) } in
    let rest = grow_courts-Grown (courts ++ court ∷ []) bench m in
    elim (Bool-cases (ltb_ℤ (pos 0) m && not (ltb_ℤ (pos (length courts)) m))) [
      | inl full ↦ rw full (record { numbered = λ v. v; same = λ x. refl; grown = ground arith })
      | inr room ↦ rw room (record {
        numbered = λ v. rest.numbered (IsNumbered-append_one 0 courts court v (omega arith));
        same = λ x. omega (
          arith,
          rest.same x,
          seated-append x courts (court ∷ []),
          count-append x (court_ids court) [],
        );
        grown = rest.grown;
      })
    ]

-- A safe layout stays safe with the same players when courts are re-opened; afterwards fewer than
-- four wait, or the cap is reached.
pub grow_courts-IsLayout :
    (courts : List RotCourt) (bench : List String) (max_courts : ℤ)
    → IsLayout courts bench
    → let grown = grow_courts courts bench max_courts in
      IsLayout grown.courts grown.bench
      × SameIds (seated grown.courts ++ grown.bench) (seated courts ++ bench)
      × IsGrown grown max_courts
grow_courts-IsLayout courts bench m v =
    let r = grow_courts courts bench m in
    let g = grow_courts-Grown courts bench m in
    let same : SameIds (seated r.courts ++ r.bench) (seated courts ++ bench) = λ a. omega (
      arith,
      g.same a,
      count-append a (seated r.courts) r.bench,
      count-append a (seated courts) bench,
    ) in
    (
      record {
        numbered = g.numbered v.numbered;
        no_blank = same "" ∙ v.no_blank;
        distinct = λ a. omega (arith, same a, v.distinct a);
      },
      same,
      g.grown,
    )
