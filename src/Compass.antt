-- ===== src/Compass.antt =====
-- internal/engine/compass.go: the tree that a direction of the compass plays, among the losers of a
-- round of another direction.
pub mod Steps
pub mod Mirror
use plan_my_pickle_backend.Base.{
  ℕ, zero, suc, ◌+◌, ◌==◌, ◌&&◌, not, Bool, true, false, Option, none, some, List, [], ◌∷◌, ◌++◌,
  map, length, ltb, if◌then◌else◌, tabulate,
}
use plan_my_pickle_backend.Bracket.Seeds.{next_pow2, ilog2}
use plan_my_pickle_backend.Consolation.{
  Token, empty, loser, winner, is_empty, ordered_rounds, remap,
}

-- A match of the tree; `sround` and `sslot` keep the place that it had before the rounds are renumbered.
pub record ConsNode : Type 0 where
  pub round : ℕ
  pub slot : ℕ
  pub sround : ℕ
  pub sslot : ℕ
  pub feeds_round : ℕ
  pub feeds_slot : ℕ
  pub feeds_team : ℕ

pub record ConsDrop : Type 0 where
  pub source : ℕ
  pub round : ℕ
  pub slot : ℕ
  pub team : ℕ

pub record ConsTree : Type 0 where
  pub rounds : ℕ
  pub struct_rounds : ℕ
  pub matches : List ConsNode
  pub drops : List ConsDrop

pub record LaneState : Type 0 where
  pub nodes : List ConsNode
  pub drops : List ConsDrop

pub set_node_feed : ℕ → ℕ → ℕ → ℕ → ℕ → List ConsNode → List ConsNode
set_node_feed kr kj r j team [] = []
set_node_feed kr kj r j team (m ∷ ms) =
    if m.round == kr && m.slot == kj
    then record m { feeds_round = r; feeds_slot = j; feeds_team = team } ∷ ms
    else m ∷ set_node_feed kr kj r j team ms

pub record_source : ℕ → ℕ → ℕ → Token → LaneState → LaneState
unfolding set_node_feed
record_source r j team empty st = st
record_source r j team (loser i) st = record st {
  drops = st.drops ++ record { source = i; round = r; slot = j; team = team } ∷ [];
}
record_source r j team (winner kr kj) st = record st {
  nodes = set_node_feed kr kj r j team st.nodes;
}

abbrev pub new_node : ℕ → ℕ → ConsNode
new_node r j = record {
  round = r;
  slot = j;
  sround = r;
  sslot = j;
  feeds_round = 0;
  feeds_slot = 0;
  feeds_team = 0;
}

abbrev pub with_node : ℕ → ℕ → LaneState → LaneState
with_node r j st = record st { nodes = st.nodes ++ new_node r j ∷ [] }

-- The token that goes on from two, and the match if both are real.
pub pair_up : ℕ → ℕ → Token → Token → LaneState → Token × LaneState
unfolding record_source
pair_up r j a b st =
    if is_empty a && is_empty b
    then (empty, st)
    else if is_empty a
    then (b, st)
    else if is_empty b
    then (a, st)
    else (winner r j, record_source r j 2 b (record_source r j 1 a (with_node r j st)))

pub lane_round : ℕ → ℕ → List Token → LaneState → List Token × LaneState
unfolding pair_up
lane_round r j [] st = ([], st)
lane_round r j (a ∷ []) st = ([], st)
lane_round r j (a ∷ b ∷ cur) st =
    let (t, st1) = pair_up r j a b st in
    let (next, st2) = lane_round r (suc j) cur st1 in (t ∷ next, st2)

pub lane_rounds : ℕ → ℕ → List Token → LaneState → List Token × LaneState
unfolding lane_round
lane_rounds zero r cur st = (cur, st)
lane_rounds (suc k) r cur st =
    let (next, st1) = lane_round r 0 cur st in lane_rounds k (suc r) next st1

-- The token of a source; the padding has none.
abbrev pub source_token : ℕ → (ℕ → Bool) → ℕ → Token
source_token n is_bye i = if ltb i n && not (is_bye i) then loser i else empty

abbrev pub real_tokens : List Token → ℕ
real_tokens [] = 0
real_tokens (t ∷ ts) = if is_empty t then real_tokens ts else suc (real_tokens ts)

pub relabel_node : List ℕ → ConsNode → ConsNode
relabel_node ordered m = record m {
  round = remap ordered m.round;
  feeds_round = if m.feeds_round == 0 then 0 else remap ordered m.feeds_round;
}

pub relabel_source : List ℕ → ConsDrop → ConsDrop
relabel_source ordered d = record d { round = remap ordered d.round }

abbrev pub node_rounds : List ConsNode → List ℕ
node_rounds [] = []
node_rounds (m ∷ ms) = m.round ∷ node_rounds ms

pub relabel_tree : ℕ → LaneState → ConsTree
unfolding relabel_node relabel_source
relabel_tree struct_rounds st =
    let ordered = ordered_rounds (node_rounds st.nodes) in
    record {
      rounds = length ordered;
      struct_rounds = struct_rounds;
      matches = map (relabel_node ordered) st.nodes;
      drops = map (relabel_source ordered) st.drops;
    }

-- Of `n` sources; `none` if fewer than two of them have a loser.
pub build_consolation_tree : ℕ → (ℕ → Bool) → Option ConsTree
unfolding lane_rounds relabel_tree
build_consolation_tree n is_bye =
    let lane = next_pow2 n in
    let tokens = tabulate (source_token n is_bye) 0 lane in
    if ltb n 2
    then none
    else if ltb (real_tokens tokens) 2
    then none
    else some (
        relabel_tree (ilog2 lane)
          (lane_rounds (ilog2 lane) 1 tokens (record { nodes = []; drops = [] })).1)
