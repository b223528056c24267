-- ===== src/Compass/Steps.antt =====
-- Step by step the tree of a direction is the back draw.
use plan_my_pickle_backend.Base.{
  ℕ, zero, suc, ◌+◌, ◌≤◌, ◌≡◌, refl, sym, ap, ◌∙◌, inl, inr, Bool, true, ◌&&◌, ◌==◌, List, [], ◌∷◌,
  ◌++◌, map, ltb, Bool-cases, tabulate, lt→ltb, arith,
}
use plan_my_pickle_backend.Consolation.{
  ConsolationMatchSpec, LoserDrop, ConsolationPlan, Token, empty, loser, winner, is_empty, Drawn,
  set_feed, record_token, with_match, meet, play_round, play_rounds, main_token, ordered_rounds,
  relabel, relabel_match, relabel_drop, match_rounds,
}
use plan_my_pickle_backend.Compass.{
  ConsNode, ConsDrop, ConsTree, LaneState, set_node_feed, record_source, with_node, new_node,
  pair_up, lane_round, lane_rounds, source_token, relabel_node, relabel_source, node_rounds,
  relabel_tree,
}

-- The match of the back draw that a node is.
abbrev pub match_of : ConsNode → ConsolationMatchSpec
match_of m = record {
  round = m.round;
  slot = m.slot;
  feeds_round = m.feeds_round;
  feeds_slot = m.feeds_slot;
  feeds_team = m.feeds_team;
}

abbrev pub drop_as : ConsDrop → LoserDrop
drop_as d = record { main_slot = d.source; round = d.round; slot = d.slot; team = d.team }

abbrev drawn : LaneState → Drawn
drawn st = record { matches = map match_of st.nodes; drops = map drop_as st.drops }

map-append {ℓ} :
    {A B : Type ℓ} (f : A → B) (xs ys : List A) → map f (xs ++ ys) ≡ map f xs ++ map f ys
map-append f [] ys = refl
map-append f (x ∷ xs) ys = ap (◌∷◌ (f x)) (map-append f xs ys)

set_feed-map :
    (kr kj r j team : ℕ) (ms : List ConsNode)
    → map match_of (set_node_feed kr kj r j team ms) ≡ set_feed kr kj r j team (map match_of ms)
unfolding set_node_feed set_feed
set_feed-map kr kj r j team [] = refl
set_feed-map kr kj r j team (m ∷ ms) = elim (Bool-cases (m.round == kr && m.slot == kj)) [
  | inl t ↦ rw t refl
  | inr f ↦ rw f (ap (◌∷◌ (match_of m)) (set_feed-map kr kj r j team ms))
]

record_token-drawn :
    (r j team : ℕ) (t : Token) (st : LaneState)
    → drawn (record_source r j team t st) ≡ record_token r j team t (drawn st)
unfolding record_source record_token
record_token-drawn r j team empty st = refl
record_token-drawn r j team (loser i) st =
    let d : ConsDrop = record { source = i; round = r; slot = j; team = team } in
    ap (λ ds. record { matches = map match_of st.nodes; drops = ds })
      (map-append drop_as st.drops (d ∷ []))
record_token-drawn r j team (winner kr kj) st =
    ap (λ ms. record { matches = ms; drops = map drop_as st.drops })
      (set_feed-map kr kj r j team st.nodes)

with_match-drawn : (r j : ℕ) (st : LaneState) → drawn (with_node r j st) ≡ with_match r j (drawn st)
with_match-drawn r j st =
    ap (λ ms. record { matches = ms; drops = map drop_as st.drops })
      (map-append match_of st.nodes (new_node r j ∷ []))

meet-drawn :
    (r j : ℕ) (a b : Token) (st : LaneState)
    → meet r j a b (drawn st) ≡ ((pair_up r j a b st).0, drawn (pair_up r j a b st).1)
unfolding meet pair_up
meet-drawn r j a b st = elim (Bool-cases (is_empty a)) [
  | inl ea ↦ elim (Bool-cases (is_empty b)) [
    | inl eb ↦ rw (ea, eb) refl
    | inr fb ↦ rw (ea, fb) refl
  ]
  | inr fa ↦ elim (Bool-cases (is_empty b)) [
    | inl eb ↦ rw (fa, eb) refl
    | inr fb ↦
        let one = record_source r j 1 a (with_node r j st) in
        let first : drawn one ≡ record_token r j 1 a (with_match r j (drawn st)) =
          record_token-drawn r j 1 a (with_node r j st)
          ∙ ap (record_token r j 1 a) (with_match-drawn r j st) in
        let second : drawn (record_source r j 2 b one)
            ≡ record_token r j 2 b (record_token r j 1 a (with_match r j (drawn st))) =
          record_token-drawn r j 2 b one ∙ ap (record_token r j 2 b) first in
        rw (fa, fb) (ap (λ d. (winner r j, d)) (sym second))
  ]
]

play_round-drawn :
    (r j : ℕ) (cur : List Token) (st : LaneState)
    → play_round r j cur (drawn st) ≡ ((lane_round r j cur st).0, drawn (lane_round r j cur st).1)
unfolding play_round lane_round
play_round-drawn r j [] st = refl
play_round-drawn r j (a ∷ []) st = refl
play_round-drawn r j (a ∷ b ∷ cur) st =
    let (t, out) = pair_up r j a b st in
    rw (meet-drawn r j a b st, play_round-drawn r (suc j) cur out) refl

pub play_rounds-drawn :
    (k r : ℕ) (cur : List Token) (st : LaneState)
    → play_rounds k r cur (drawn st)
      ≡ ((lane_rounds k r cur st).0, drawn (lane_rounds k r cur st).1)
unfolding play_rounds lane_rounds
play_rounds-drawn zero r cur st = refl
play_rounds-drawn (suc k) r cur st =
    let (next, out) = lane_round r 0 cur st in
    rw (play_round-drawn r 0 cur st, play_rounds-drawn k (suc r) next out) refl

match_rounds-map_of : (ms : List ConsNode) → match_rounds (map match_of ms) ≡ node_rounds ms
match_rounds-map_of [] = refl
match_rounds-map_of (m ∷ ms) = ap (◌∷◌ m.round) (match_rounds-map_of ms)

relabel_match-map :
    (ordered : List ℕ) (ms : List ConsNode)
    → map (relabel_match ordered) (map match_of ms) ≡ map match_of (map (relabel_node ordered) ms)
unfolding relabel_match relabel_node
relabel_match-map ordered [] = refl
relabel_match-map ordered (m ∷ ms) =
    ap (◌∷◌ (match_of (relabel_node ordered m))) (relabel_match-map ordered ms)

relabel_drop-map :
    (ordered : List ℕ) (ds : List ConsDrop)
    → map (relabel_drop ordered) (map drop_as ds) ≡ map drop_as (map (relabel_source ordered) ds)
unfolding relabel_drop relabel_source
relabel_drop-map ordered [] = refl
relabel_drop-map ordered (d ∷ ds) =
    ap (◌∷◌ (drop_as (relabel_source ordered d))) (relabel_drop-map ordered ds)

-- The plan of a back draw that a tree is.
abbrev pub plan_of : ConsTree → ConsolationPlan
plan_of t = record {
  rounds = t.rounds;
  matches = map match_of t.matches;
  drops = map drop_as t.drops;
}

pub relabel-drawn : (k : ℕ) (st : LaneState) → relabel (drawn st) ≡ plan_of (relabel_tree k st)
unfolding relabel relabel_tree
relabel-drawn k st =
    let ordered = ordered_rounds (node_rounds st.nodes) in
    rw
      (
        match_rounds-map_of st.nodes,
        relabel_match-map ordered st.nodes,
        relabel_drop-map ordered st.drops,
      )
      refl

pub tokens_same :
    (is_bye : ℕ → Bool) (n i m : ℕ)
    → i + m ≤ n
    → tabulate (source_token n is_bye) i m ≡ tabulate (main_token is_bye) i m
tokens_same is_bye n i zero h = refl
tokens_same is_bye n i (suc m) h =
    let low : ltb i n ≡ true = lt→ltb i n (omega (arith, h)) in
    let rest = tokens_same is_bye n (suc i) m (omega (arith, h)) in
    elim (Bool-cases (is_bye i)) [
      | inl t ↦ rw (low, t) (ap (◌∷◌ empty) rest)
      | inr f ↦ rw (low, f) (ap (◌∷◌ (loser i)) rest)
    ]
