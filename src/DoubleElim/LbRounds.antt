-- ===== src/DoubleElim/LbRounds.antt =====
-- The losers rounds of a double elimination have no gap, and `LBRounds` is their number.
use plan_my_pickle_backend.Base.{
  ℕ, ◌*◌, ◌-◌, ◌≤◌, ◌<◌, ◌≡◌, refl, sym, ap, ◌∙◌, subst, inl, inr, ◌⊎◌, ◌↔◌, false, ◌&&◌, List, [],
  ◌∷◌, ◌++◌, map, String, length, leb, ltb, ◌==◌, if◌then◌else◌, Bool-cases, arith,
}
use plan_my_pickle_backend.Bracket.Generate.{BracketMatchSpec, generate_bracket}
use plan_my_pickle_backend.Consolation.{ordered_rounds, remap}
use plan_my_pickle_backend.Consolation.Flow.{zero_or_pos}
use plan_my_pickle_backend.Consolation.Rounds.{times, times_self, times-map, remap-times}
use plan_my_pickle_backend.DoubleElim.{
  Tier, grand_final, is_winners, is_losers, DeMatch, de_match, winners_match, w1_bye, set_lose,
  losers_rounds, renumber_match, renumber_lb_rounds, max_round, lb_round_count, single_match,
  losers_tree, generate_double_elim,
}

-- A number that is not below any round, nor below the start, and is one of these.
abbrev IsTop : ℕ → List ℕ → ℕ → Type 0
IsTop top rs n = (top ≤ n) × ((p : ℕ) → 0 < times p rs → p ≤ n) × ((n ≡ top) ⊎ (0 < times n rs))

max_round-IsTop : (top : ℕ) (rs : List ℕ) → IsTop top rs (max_round top rs)
unfolding max_round
max_round-IsTop top [] = (omega arith, λ p h. absurd (omega (arith, h)), inl refl)
max_round-IsTop top (r ∷ rs) = elim (Bool-cases (ltb top r)) [
  | inl up ↦
      let e : max_round top (r ∷ rs) ≡ max_round r rs = rw up refl in
      let (lo, all, which) = max_round-IsTop r rs in
      subst (IsTop top (r ∷ rs)) (sym e) (
        ground (arith, lo, up),
        λ p h. elim (Bool-cases (r == p)) [
          | inl same ↦ ground (arith, lo, same)
          | inr f ↦ all p (ground (arith, h, f))
        ],
        elim which [
          | inl same ↦ inr (subst (λ q. 0 < times q (r ∷ rs)) (sym same) (times_self r rs))
          | inr h ↦ inr (omega (arith, h))
        ],
      )
  | inr down ↦
      let e : max_round top (r ∷ rs) ≡ max_round top rs = rw down refl in
      let (lo, all, which) = max_round-IsTop top rs in
      subst (IsTop top (r ∷ rs)) (sym e) (
        lo,
        λ p h. elim (Bool-cases (r == p)) [
          | inl same ↦ ground (arith, lo, down, same)
          | inr f ↦ all p (ground (arith, h, f))
        ],
        elim which [ inl same ↦ inl same | inr h ↦ inr (omega (arith, h)) ],
      )
]

-- The largest of rounds that are those from 1 to `n`.
max_round-range :
    (n : ℕ) (rs : List ℕ) → ((p : ℕ) → (0 < times p rs) ↔ ((0 < p) × (p ≤ n))) → max_round 0 rs ≡ n
max_round-range n rs f =
    let (_, all, which) = max_round-IsTop 0 rs in
    let below : max_round 0 rs ≤ n = elim which [
      | inl e ↦ omega (arith, e)
      | inr h ↦ ((f (max_round 0 rs)).0 h).1
    ] in
    elim (zero_or_pos n) [
      | inl z ↦ omega (arith, below, z)
      | inr h ↦ omega (arith, below, all n ((f n).1 (h, omega arith)))
    ]

renumber-losers :
    (rounds : List ℕ) (ms : List DeMatch)
    → losers_rounds (map (renumber_match rounds) ms) ≡ map (remap rounds) (losers_rounds ms)
unfolding renumber_match
renumber-losers rounds [] = refl
renumber-losers rounds (m ∷ ms) = elim (Bool-cases (is_losers m.tier)) [
  | inl l ↦ rw l (ap (◌∷◌ (remap rounds m.round)) (renumber-losers rounds ms))
  | inr o ↦ rw o (renumber-losers rounds ms)
]

abbrev IsRange : List ℕ → ℕ → Type 0
IsRange rs n = (p : ℕ) → (0 < times p rs) ↔ ((0 < p) × (p ≤ n))

renumber_lb_rounds-IsRange :
    (ms : List DeMatch)
    → IsRange (losers_rounds (renumber_lb_rounds ms)) (length (ordered_rounds (losers_rounds ms)))
unfolding renumber_lb_rounds
renumber_lb_rounds-IsRange ms p =
    let rounds = ordered_rounds (losers_rounds ms) in
    let (f, g) = remap-times (losers_rounds ms) p in
    elim (Bool-cases (length rounds == 0)) [
      | inl nothing ↦ rw nothing (
        λ h.
            let (lo, hi) =
              (remap-times (losers_rounds ms) (remap rounds p)).0
                (times-map (remap rounds) p (losers_rounds ms) h) in
            absurd (ground (arith, lo, hi, nothing)),
        λ h. absurd (ground (arith, h.0, h.1, nothing)),
      )
      | inr some_round ↦
          let e : losers_rounds (map (renumber_match rounds) ms)
              ≡ map (remap rounds) (losers_rounds ms) =
            renumber-losers rounds ms in
          rw some_round (
            λ h. f (subst (λ rs. 0 < times p rs) e h),
            λ h. subst (λ rs. 0 < times p rs) (sym e) (g h),
          )
    ]

-- The winners matches are no losers matches.
drawn-losers : (ms : List BracketMatchSpec) → losers_rounds (map winners_match ms) ≡ []
unfolding winners_match
drawn-losers [] = refl
drawn-losers (m ∷ ms) = drawn-losers ms

append-losers :
    (ms : List DeMatch) (m : DeMatch)
    → is_losers m.tier ≡ false
    → losers_rounds (ms ++ m ∷ []) ≡ losers_rounds ms
append-losers [] m o = rw o refl
append-losers (x ∷ ms) m o = elim (Bool-cases (is_losers x.tier)) [
  | inl l ↦ rw l (ap (◌∷◌ x.round) (append-losers ms m o))
  | inr n ↦ rw n (append-losers ms m o)
]

set_lose-losers :
    (kr ks : ℕ) (t : Tier) (r s team : ℕ) (ms : List DeMatch)
    → losers_rounds (set_lose kr ks t r s team ms) ≡ losers_rounds ms
unfolding set_lose
set_lose-losers kr ks t r s team [] = refl
set_lose-losers kr ks t r s team (m ∷ ms) =
    elim (Bool-cases (is_winners m.tier && m.round == kr && m.slot == ks)) [
      | inl hit ↦ rw hit refl
      | inr miss ↦ elim (Bool-cases (is_losers m.tier)) [
        | inl l ↦ rw (miss, l) (ap (◌∷◌ m.round) (set_lose-losers kr ks t r s team ms))
        | inr o ↦ rw (miss, o) (set_lose-losers kr ks t r s team ms)
      ]
    ]

single_match-losers : (ms : List DeMatch) → losers_rounds (single_match ms) ≡ losers_rounds ms
unfolding single_match
single_match-losers ms = elim (Bool-cases (w1_bye 0 ms)) [
  | inl bye ↦ rw bye refl
  | inr played ↦ rw played (set_lose-losers 1 0 grand_final 1 0 2 ms)
]

-- Of no rounds the range is empty.
none-IsRange : (rs : List ℕ) → rs ≡ [] → IsRange rs 0
none-IsRange rs e p =
    let none_of_p : times p rs ≡ 0 = ap (times p) e in
    (λ h. absurd (omega (arith, h, none_of_p)), λ h. absurd (omega (arith, h.0, h.1)))

-- Whatever the field: the losers matches of the plan are in the rounds from 1 to its number of losers rounds, and
-- each of these rounds has one.
pub generate_double_elim-rounds :
    (sides : List (List String)) (p : ℕ)
    → let plan = generate_double_elim sides in
      (0 < times p (losers_rounds plan.matches)) ↔ ((0 < p) × (p ≤ plan.lb_rounds))
unfolding generate_double_elim lb_round_count
generate_double_elim-rounds sides p =
    let wb = generate_bracket sides in
    let drawn = map winners_match wb.matches in
    let final = de_match grand_final 1 0 in
    let all =
      losers_tree wb.size (if leb 2 wb.rounds then 2 * (wb.rounds - 1) else 0) drawn
      ++ final ∷ [] in
    elim (Bool-cases (wb.rounds == 1)) [
      | inl one ↦ rw one (
          none-IsRange (losers_rounds (single_match drawn ++ final ∷ []))
            (append-losers (single_match drawn) final refl
              ∙ single_match-losers drawn
              ∙ drawn-losers wb.matches)
            p)
      | inr more ↦
          let range = renumber_lb_rounds-IsRange all in
          let e =
            max_round-range (length (ordered_rounds (losers_rounds all)))
              (losers_rounds (renumber_lb_rounds all)) range in
          rw (more, e) (range p)
    ]
