-- ===== src/DoubleElim/Wires.antt =====
-- Wiring a feed, and drawing the losers tree, leave the winners matches as they are.
use plan_my_pickle_backend.Base.{
  ℕ, zero, suc, ◌%◌, ◌≡◌, refl, ap, ◌∙◌, inl, inr, true, false, ◌&&◌, List, [], ◌∷◌, ◌++◌, ◌==◌,
  if◌then◌else◌, Bool-cases, arith,
}
use plan_my_pickle_backend.DoubleElim.{
  Tier, no_tier, winners, losers, grand_final, is_winners, is_losers, DeMatch, lb_match_count, Tok,
  unset, bye_tok, wloser, lbwinner, real, de_match, set_lose, set_win, wire, LosersTree, emit,
  route, flow_slots, flow_rounds,
}

-- A match but for the feed of its loser.
abbrev pub winner_side : DeMatch → DeMatch
winner_side m = record m { lose_tier = no_tier; lose_round = 0; lose_slot = 0; lose_team = 0 }

-- The winners matches, but for the feeds of their losers.
abbrev pub winners_part : List DeMatch → List DeMatch
winners_part [] = []
winners_part (m ∷ ms) =
    if is_winners m.tier then winner_side m ∷ winners_part ms else winners_part ms

pub set_lose-winners :
    (kr ks : ℕ) (t : Tier) (r s team : ℕ) (ms : List DeMatch)
    → winners_part (set_lose kr ks t r s team ms) ≡ winners_part ms
unfolding set_lose
set_lose-winners kr ks t r s team [] = refl
set_lose-winners kr ks t r s team (m ∷ ms) =
    elim (Bool-cases (is_winners m.tier && m.round == kr && m.slot == ks)) [
      | inl hit ↦ rw hit refl
      | inr miss ↦ elim (Bool-cases (is_winners m.tier)) [
        | inl w ↦ rw (miss, w) (ap (◌∷◌ (winner_side m)) (set_lose-winners kr ks t r s team ms))
        | inr o ↦ rw (miss, o) (set_lose-winners kr ks t r s team ms)
      ]
    ]

losers_not_winners : (t : Tier) → is_losers t ≡ true → is_winners t ≡ false
losers_not_winners no_tier h = cc
losers_not_winners winners h = cc
losers_not_winners losers h = refl
losers_not_winners grand_final h = cc

set_win-winners :
    (kr ks : ℕ) (t : Tier) (r s team : ℕ) (ms : List DeMatch)
    → winners_part (set_win kr ks t r s team ms) ≡ winners_part ms
unfolding set_win
set_win-winners kr ks t r s team [] = refl
set_win-winners kr ks t r s team (m ∷ ms) =
    elim (Bool-cases (is_losers m.tier && m.round == kr && m.slot == ks)) [
      | inl hit ↦
          let o : is_winners m.tier ≡ false = losers_not_winners m.tier (ground (arith, hit)) in
          rw (hit, o) refl
      | inr miss ↦ elim (Bool-cases (is_winners m.tier)) [
        | inl w ↦ rw (miss, w) (ap (◌∷◌ (winner_side m)) (set_win-winners kr ks t r s team ms))
        | inr o ↦ rw (miss, o) (set_win-winners kr ks t r s team ms)
      ]
    ]

wire-winners :
    (k : Tok) (t : Tier) (r s team : ℕ) (ms : List DeMatch)
    → winners_part (wire k t r s team ms) ≡ winners_part ms
unfolding wire
wire-winners unset t r s team ms = refl
wire-winners bye_tok t r s team ms = refl
wire-winners (wloser kr ks) t r s team ms = set_lose-winners kr ks t r s team ms
wire-winners (lbwinner kr ks) t r s team ms = set_win-winners kr ks t r s team ms

pub append-winners :
    (ms : List DeMatch) (m : DeMatch)
    → is_winners m.tier ≡ false
    → winners_part (ms ++ m ∷ []) ≡ winners_part ms
append-winners [] m o = rw o refl
append-winners (x ∷ ms) m o = elim (Bool-cases (is_winners x.tier)) [
  | inl w ↦ rw w (ap (◌∷◌ (winner_side x)) (append-winners ms m o))
  | inr n ↦ rw n (append-winners ms m o)
]

emit-winners :
    (lr j : ℕ) (t1 t2 : Tok) (ms : List DeMatch)
    → winners_part (emit lr j t1 t2 ms).1 ≡ winners_part ms
unfolding emit
emit-winners lr j t1 t2 ms = elim (Bool-cases (real t1 && real t2)) [
  | inl both ↦ rw both (
      wire-winners t2 losers lr j 2 (wire t1 losers lr j 1 (ms ++ de_match losers lr j ∷ []))
      ∙ wire-winners t1 losers lr j 1 (ms ++ de_match losers lr j ∷ [])
      ∙ append-winners ms (de_match losers lr j) refl)
  | inr f ↦ elim (Bool-cases (real t1)) [
    | inl a ↦ rw (f, a) refl
    | inr n ↦ elim (Bool-cases (real t2)) [ inl b ↦ rw (f, n, b) refl | inr o ↦ rw (f, n, o) refl ]
  ]
]

route-winners :
    (lb_rounds lr j : ℕ) (out : Tok) (st : LosersTree)
    → winners_part (route lb_rounds lr j out st).matches ≡ winners_part st.matches
unfolding route
route-winners lb_rounds lr j out st = elim (Bool-cases (lr == lb_rounds)) [
  | inl last ↦ elim (Bool-cases (real out)) [
    | inl a ↦ rw (last, a) (wire-winners out grand_final 1 0 2 st.matches)
    | inr n ↦ rw (last, n) refl
  ]
  | inr f ↦ elim (Bool-cases (lr % 2 == 1)) [
    | inl minor ↦ rw (f, minor) refl
    | inr major ↦ rw (f, major) refl
  ]
]

flow_slots-winners :
    (lb_rounds lr m j : ℕ) (st : LosersTree)
    → winners_part (flow_slots lb_rounds lr m j st).matches ≡ winners_part st.matches
unfolding flow_slots
flow_slots-winners lb_rounds lr zero j st = refl
flow_slots-winners lb_rounds lr (suc m) j st =
    let (t1, t2) = st.incoming lr j in
    let (out, ms) = emit lr j t1 t2 st.matches in
    let next : LosersTree = record st { matches = ms } in
    flow_slots-winners lb_rounds lr m (suc j) (route lb_rounds lr j out next)
    ∙ route-winners lb_rounds lr j out next
    ∙ emit-winners lr j t1 t2 st.matches

pub flow_rounds-winners :
    (n lb_rounds k lr : ℕ) (st : LosersTree)
    → winners_part (flow_rounds n lb_rounds k lr st).matches ≡ winners_part st.matches
unfolding flow_rounds
flow_rounds-winners n lb_rounds zero lr st = refl
flow_rounds-winners n lb_rounds (suc k) lr st =
    flow_rounds-winners n lb_rounds k (suc lr) (flow_slots lb_rounds lr (lb_match_count n lr) 0 st)
    ∙ flow_slots-winners lb_rounds lr (lb_match_count n lr) 0 st
