-- ===== src/Rotation/Layout.antt =====
-- `layoutAndBenchOK` decides `IsLayout`.
use plan_my_pickle_backend.Base.{
  ℕ, suc, ◌+◌, ◌≤◌, ◌≡◌, refl, ◌↔◌, true, none, some, List, [], ◌∷◌, ◌++◌, String, arith, str_eq,
  contains, contains-count, not_contains-count, count, hit, hit_self, hit-le, hit-cases, str_eq-hit,
  str_ne-hit, ◌||◌, IsDistinct, Bool-cases, Option-cases, inl, inr, sym, ◌∙◌,
}
use plan_my_pickle_backend.Rotation.{
  RotCourt, court_ids, seated, scan_ids, scan_courts, is_some, layout_and_bench_ok, IsNumbered,
  IsLayout,
}

-- The ids pass the scan: none is blank, and none is met twice.
record Fresh (xs seen : List String) : Type 0 where
  no_blank : count "" xs ≡ 0
  distinct : (a : String) → count a xs + count a seen ≤ 1

pub new_distinct :
    (x : String) (seen : List String) (a : String)
    → count a seen ≤ 1
    → count x seen ≡ 0
    → count a (x ∷ seen) ≤ 1
new_distinct x seen a d unseen = ground (arith, hit-cases x a, hit-le x a)

scan_ids-Fresh :
    (xs seen : List String) → IsDistinct seen → is_some (scan_ids xs seen) ≡ true → Fresh xs seen
unfolding scan_ids
scan_ids-Fresh [] seen d h = record { no_blank = refl; distinct = λ a. omega (arith, d a) }
scan_ids-Fresh (x ∷ xs) seen d h = elim (Bool-cases (str_eq x "" || contains seen x)) [
  | inl bad ↦ absurd (ground (arith, bad))
  | inr fine ↦
      let unseen : count x seen ≡ 0 = ground (arith, not_contains-count seen x) in
      let named : hit x "" ≡ 0 = ground (arith, str_ne-hit x "") in
      let d' = λ (a : String). new_distinct x seen a (d a) unseen in
      let rest = scan_ids-Fresh xs (x ∷ seen) d' (ground arith) in
      record {
        no_blank = omega (arith, rest.no_blank);
        distinct = λ a. omega (arith, rest.distinct a);
      }
]

Fresh-scan_ids : (xs seen : List String) → Fresh xs seen → is_some (scan_ids xs seen) ≡ true
unfolding scan_ids
Fresh-scan_ids [] seen f = refl
Fresh-scan_ids (x ∷ xs) seen f =
    let rest : Fresh xs (x ∷ seen) = record {
      no_blank = omega (arith, f.no_blank);
      distinct = λ a. omega (arith, f.distinct a);
    } in
    ground (
      arith,
      f.distinct x,
      hit_self x,
      str_eq-hit x "",
      contains-count seen x,
      Fresh-scan_ids xs (x ∷ seen) rest,
    )

scan_ids-append :
    (xs ys seen : List String)
    → scan_ids (xs ++ ys) seen ≡ elim (scan_ids xs seen) [ none ↦ none | some s ↦ scan_ids ys s ]
unfolding scan_ids
scan_ids-append [] ys seen = refl
scan_ids-append (x ∷ xs) ys seen = ground (arith, scan_ids-append xs ys (x ∷ seen))

scan_courts-scan_ids :
    (cs : List RotCourt) (i : ℕ) (seen : List String)
    → IsNumbered i cs
    → scan_courts cs i seen ≡ scan_ids (seated cs) seen
unfolding scan_courts
scan_courts-scan_ids [] i seen v = unfold scan_ids in refl
scan_courts-scan_ids (c ∷ cs) i seen v = elim (Option-cases (scan_ids (court_ids c) seen)) [
  | inl e ↦ ground (arith, e, scan_ids-append (court_ids c) (seated cs) seen)
  | inr (s, e) ↦ ground (
    arith,
    e,
    scan_ids-append (court_ids c) (seated cs) seen,
    scan_courts-scan_ids cs (suc i) s v.1,
  )
]

scan_courts-IsNumbered :
    (cs : List RotCourt) (i : ℕ) (seen : List String)
    → is_some (scan_courts cs i seen) ≡ true
    → IsNumbered i cs
unfolding scan_courts
scan_courts-IsNumbered [] i seen h = tt
scan_courts-IsNumbered (c ∷ cs) i seen h = elim (Option-cases (scan_ids (court_ids c) seen)) [
  | inl e ↦ absurd (ground (arith, e))
  | inr (s, e) ↦ (ground (arith, e), scan_courts-IsNumbered cs (suc i) s (ground (arith, e)))
]

layout-scan_ids :
    (courts : List RotCourt) (bench : List String)
    → IsNumbered 0 courts
    → layout_and_bench_ok courts bench ≡ is_some (scan_ids (seated courts ++ bench) [])
unfolding layout_and_bench_ok
layout-scan_ids courts bench v = ground (
  arith,
  Option-cases (scan_courts courts 0 []),
  scan_courts-scan_ids courts 0 [] v,
  scan_ids-append (seated courts) bench [],
)

layout-IsNumbered :
    (courts : List RotCourt) (bench : List String)
    → layout_and_bench_ok courts bench ≡ true
    → IsNumbered 0 courts
unfolding layout_and_bench_ok
layout-IsNumbered courts bench h = scan_courts-IsNumbered courts 0 [] (ground arith)

-- The check accepts exactly the layouts that are safe to move: courts numbered 1..n, no blank
-- id on a court or on the bench, and nobody in two places.
pub layout_and_bench_ok-iff_IsLayout :
    (courts : List RotCourt) (bench : List String)
    → (layout_and_bench_ok courts bench ≡ true) ↔ IsLayout courts bench
layout_and_bench_ok-iff_IsLayout courts bench = (
  λ h.
      let numbered = layout-IsNumbered courts bench h in
      let f =
        scan_ids-Fresh (seated courts ++ bench) [] (λ a. omega arith)
          (sym (layout-scan_ids courts bench numbered) ∙ h) in
      record {
        numbered = numbered;
        no_blank = f.no_blank;
        distinct = λ a. omega (arith, f.distinct a);
      },
  λ v.
      layout-scan_ids courts bench v.numbered
      ∙ Fresh-scan_ids (seated courts ++ bench) []
          (record { no_blank = v.no_blank; distinct = λ a. omega (arith, v.distinct a) }),
)
