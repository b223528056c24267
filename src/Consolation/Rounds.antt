-- ===== src/Consolation/Rounds.antt =====
-- The relabelled rounds have no gap, whatever was drawn.
use plan_my_pickle_backend.Base.{
  ℕ, suc, ◌+◌, ◌/◌, tabulate, ◌≤◌, ◌<◌, ◌≡◌, refl, sym, ap, inl, inr, subst, ◌↔◌, ==_iff, Bool,
  true, false, List, [], ◌∷◌, map, ltb, ◌==◌, if◌then◌else◌, Bool-cases, length, total,
  sort_stable-total, arith,
}
use plan_my_pickle_backend.Bracket.Seeds.{ilog2}
use plan_my_pickle_backend.Consolation.{
  ConsolationMatchSpec, Drawn, has_nat, keys, ordered_rounds, remap_from, remap, relabel,
  relabel_match, match_rounds, generate_consolation, play_rounds, main_token, no_matches,
}
use plan_my_pickle_backend.Consolation.Flow.{zero_or_pos}

abbrev pub times : ℕ → List ℕ → ℕ
times q rs = total (λ r. if r == q then 1 else 0) rs

has_nat-times : (q : ℕ) (rs : List ℕ) → (has_nat q rs ≡ true) ↔ (0 < times q rs)
has_nat-times q [] = (λ e. cc, λ h. absurd (omega (arith, h)))
has_nat-times q (r ∷ rs) =
    let (f, g) = has_nat-times q rs in (λ e. ground (arith, e, f), λ h. ground (arith, h, g))

abbrev one_at : ℕ → ℕ → ℕ
one_at q r = if r == q then 1 else 0

one_at_seen : (q r : ℕ) (seen : List ℕ) → has_nat r seen ≡ true → one_at q r ≤ times q seen
one_at_seen q r seen old = elim (Bool-cases (r == q)) [
  | inl t ↦
      let here : 0 < times q seen =
        subst (λ p. 0 < times p seen) ((==_iff r q).0 t) ((has_nat-times r seen).0 old) in
      rw t (omega (arith, here))
  | inr f ↦ rw f (omega arith)
]

one_at_new :
    (q r : ℕ) (seen : List ℕ)
    → times q seen ≤ 1
    → has_nat r seen ≡ false
    → one_at q r + times q seen ≤ 1
one_at_new q r seen h new = elim (Bool-cases (r == q)) [
  | inl t ↦
      let absent : 0 < times q seen → ⊥ = λ u.
        let e =
          (has_nat-times r seen).1 (subst (λ p. 0 < times p seen) (sym ((==_iff r q).0 t)) u) in
        cc in
      rw t
        (elim (zero_or_pos (times q seen)) [ inl z ↦ omega (arith, z) | inr u ↦ absurd (absent u) ])
  | inr f ↦ rw f (omega (arith, h))
]

keys-times :
    (q : ℕ) (seen rs : List ℕ)
    → (times q seen ≤ 1)
    → (times q (keys seen rs) ≤ 1)
      × ((0 < times q (keys seen rs)) ↔ (0 < times q seen + times q rs))
unfolding keys
keys-times q seen [] h = (h, (λ u. omega (arith, u), λ u. omega (arith, u)))
keys-times q seen (r ∷ rs) h = elim (Bool-cases (has_nat r seen)) [
  | inl old ↦
      let (one, (f, g)) = keys-times q seen rs h in
      rw old (one, (λ u. omega (arith, f u), λ u. g (omega (arith, u, one_at_seen q r seen old))))
  | inr new ↦
      let (one, (f, g)) = keys-times q (r ∷ seen) rs (one_at_new q r seen h new) in
      rw new (one, (λ u. omega (arith, f u), λ u. g (omega (arith, u))))
]

ordered_rounds-times :
    (q : ℕ) (rs : List ℕ)
    → (times q (ordered_rounds rs) ≤ 1) × ((0 < times q (ordered_rounds rs)) ↔ (0 < times q rs))
unfolding ordered_rounds
ordered_rounds-times q rs =
    let (one, (f, g)) = keys-times q [] rs (omega arith) in
    let same = sort_stable-total ltb (λ r. if r == q then 1 else 0) (keys [] rs) in
    (
      omega (arith, same, one),
      (
        λ u. omega (arith, f (omega (arith, same, u))),
        λ u. omega (arith, same, g (omega (arith, u))),
      ),
    )

remap_from_bounds :
    (i : ℕ) (rs : List ℕ) (q : ℕ)
    → 0 < times q rs
    → (i ≤ remap_from i rs q) × (remap_from i rs q < i + length rs)
unfolding remap_from
remap_from_bounds i [] q h = absurd (omega (arith, h))
remap_from_bounds i (r ∷ rs) q h = elim (Bool-cases (r == q)) [
  | inl t ↦ rw t (omega arith, omega arith)
  | inr f ↦ rw f (
      let (a, b) = remap_from_bounds (suc i) rs q (ground (arith, h, f)) in
      (omega (arith, a), omega (arith, b)))
]

-- Each number from `i` on is the place of some round.
remap_from_onto :
    (i : ℕ) (rs : List ℕ) (p : ℕ)
    → ((q : ℕ) → times q rs ≤ 1)
    → i ≤ p
    → p < i + length rs
    → (q : ℕ) × (0 < times q rs) × (remap_from i rs q ≡ p)
unfolding remap_from
remap_from_onto i [] p one lo hi = absurd (omega (arith, lo, hi))
remap_from_onto i (r ∷ rs) p one lo hi = elim (Bool-cases (p == i)) [
  | inl t ↦
      let self : (r == r) ≡ true = ground arith in
      (r, rw self (omega arith), rw self (ground (arith, t)))
  | inr f ↦
      let (q, there, place) =
        remap_from_onto (suc i) rs p (λ q. omega (arith, one q)) (ground (arith, lo, f))
          (omega (arith, hi)) in
      let other : (r == q) ≡ false = elim (Bool-cases (r == q)) [
        | inl e ↦ absurd (ground (arith, one q, there, e))
        | inr e ↦ e
      ] in
      (q, omega (arith, there), rw other place)
]

pub times_self : (q : ℕ) (rs : List ℕ) → 0 < times q (q ∷ rs)
times_self q rs = let self : (q == q) ≡ true = ground arith in rw self (omega arith)

-- What a map of the rounds has, and from where.
pub times-map : (f : ℕ → ℕ) (q : ℕ) (rs : List ℕ) → 0 < times q rs → 0 < times (f q) (map f rs)
times-map f q [] h = absurd (omega (arith, h))
times-map f q (r ∷ rs) h = elim (Bool-cases (r == q)) [
  | inl t ↦
      subst (λ p. 0 < times (f p) (f r ∷ map f rs)) ((==_iff r q).0 t) (times_self (f r) (map f rs))
  | inr e ↦ omega (arith, times-map f q rs (ground (arith, h, e)))
]

map-times :
    (f : ℕ → ℕ) (p : ℕ) (rs : List ℕ)
    → 0 < times p (map f rs)
    → (q : ℕ) × (0 < times q rs) × (f q ≡ p)
map-times f p [] h = absurd (omega (arith, h))
map-times f p (r ∷ rs) h = elim (Bool-cases (f r == p)) [
  | inl t ↦ (r, times_self r rs, (==_iff (f r) p).0 t)
  | inr e ↦
      let (q, there, same) = map-times f p rs (ground (arith, h, e)) in
      (q, omega (arith, there), same)
]

match_rounds-map :
    (ordered : List ℕ) (ms : List ConsolationMatchSpec)
    → match_rounds (map (relabel_match ordered) ms) ≡ map (remap ordered) (match_rounds ms)
unfolding relabel_match
match_rounds-map ordered [] = refl
match_rounds-map ordered (m ∷ ms) = ap (◌∷◌ (remap ordered m.round)) (match_rounds-map ordered ms)

-- The places of the rounds are the numbers from 1 to the number of different rounds.
pub remap-times :
    (rs : List ℕ) (p : ℕ)
    → let ordered = ordered_rounds rs in
      (0 < times p (map (remap ordered) rs)) ↔ ((0 < p) × (p ≤ length ordered))
unfolding remap
remap-times rs p =
    let ordered = ordered_rounds rs in
    (
      λ h.
          let (q, there, same) = map-times (remap ordered) p rs h in
          let (lo, hi) = remap_from_bounds 1 ordered q ((ordered_rounds-times q rs).1.1 there) in
          (omega (arith, lo, same), omega (arith, hi, same)),
      λ h.
          let (q, there, same) =
            remap_from_onto 1 ordered p (λ q. (ordered_rounds-times q rs).0) (omega (arith, h.0))
              (omega (arith, h.1)) in
          subst (λ p. 0 < times p (map (remap ordered) rs)) same
            (times-map (remap ordered) q rs ((ordered_rounds-times q rs).1.0 there)),
    )

-- Whatever was drawn: each round of the plan up to its number of rounds has a match, and no other round does.
pub relabel-rounds :
    (st : Drawn) (p : ℕ)
    → (0 < times p (match_rounds (relabel st).matches)) ↔ ((0 < p) × (p ≤ (relabel st).rounds))
unfolding relabel
relabel-rounds st p =
    let ordered = ordered_rounds (match_rounds st.matches) in
    let same = match_rounds-map ordered st.matches in
    let (f, g) = remap-times (match_rounds st.matches) p in
    (
      λ h. f (subst (λ rs. 0 < times p rs) same h),
      λ h. subst (λ rs. 0 < times p rs) (sym same) (g h),
    )

-- In the plan of a back draw each round up to its number of rounds has a match, and no other round does.
pub generate_consolation-rounds :
    (size : ℕ) (is_bye : ℕ → Bool) (p : ℕ)
    → let plan = generate_consolation size is_bye in
      (0 < times p (match_rounds plan.matches)) ↔ ((0 < p) × (p ≤ plan.rounds))
unfolding generate_consolation
generate_consolation-rounds size is_bye p = elim (Bool-cases (ltb (size / 2) 2)) [
  | inl t ↦ rw t (λ h. absurd (omega (arith, h)), λ h. absurd (omega (arith, h.0, h.1)))
  | inr f ↦
      let out =
        (play_rounds (ilog2 (size / 2)) 1 (tabulate (main_token is_bye) 0 (size / 2))
          no_matches).1 in
      rw f (relabel-rounds out p)
]
