-- ===== src/Consolation.antt =====
-- internal/engine/consolation.go: the back draw, in which the losers of round 1 of a bracket play on.
-- A match key is the pair of the round and the slot that it prints, and the map of keys is the list
-- of matches.
pub mod Meet
pub mod Flow
pub mod Drops
pub mod Rounds
use plan_my_pickle_backend.Base.{
  ℕ, zero, suc, ◌+◌, ◌/◌, ◌==◌, ◌&&◌, ◌||◌, Bool, true, false, List, [], ◌∷◌, ◌++◌, map, length,
  ltb, if◌then◌else◌, tabulate, sort_stable,
}
use plan_my_pickle_backend.Bracket.Seeds.{ilog2}

pub record ConsolationMatchSpec : Type 0 where
  pub round : ℕ
  pub slot : ℕ
  pub feeds_round : ℕ
  pub feeds_slot : ℕ
  pub feeds_team : ℕ

pub record LoserDrop : Type 0 where
  pub main_slot : ℕ
  pub round : ℕ
  pub slot : ℕ
  pub team : ℕ

pub record ConsolationPlan : Type 0 where
  pub rounds : ℕ
  pub matches : List ConsolationMatchSpec
  pub drops : List LoserDrop

-- What flows up the tree: nobody, the loser of a slot, or the winner of the match with a key.
pub data Token : Type 0 where
  empty : Token
  loser : ℕ → Token
  winner : ℕ → ℕ → Token

pub record Drawn : Type 0 where
  pub matches : List ConsolationMatchSpec
  pub drops : List LoserDrop

abbrev pub has_key : ℕ → ℕ → ConsolationMatchSpec → Bool
has_key r j m = m.round == r && m.slot == j

-- The feed of the match with the key.
unfoldable pub set_feed : ℕ → ℕ → ℕ → ℕ → ℕ → List ConsolationMatchSpec → List ConsolationMatchSpec
set_feed kr kj r j team [] = []
set_feed kr kj r j team (m ∷ ms) =
    if has_key kr kj m
    then record m { feeds_round = r; feeds_slot = j; feeds_team = team } ∷ ms
    else m ∷ set_feed kr kj r j team ms

unfoldable pub record_token : ℕ → ℕ → ℕ → Token → Drawn → Drawn
unfolding set_feed
record_token r j team empty st = st
record_token r j team (loser i) st = record st {
  drops = st.drops ++ record { main_slot = i; round = r; slot = j; team = team } ∷ [];
}
record_token r j team (winner kr kj) st = record st { matches = set_feed kr kj r j team st.matches }

abbrev pub new_spec : ℕ → ℕ → ConsolationMatchSpec
new_spec r j = record { round = r; slot = j; feeds_round = 0; feeds_slot = 0; feeds_team = 0 }

abbrev pub with_match : ℕ → ℕ → Drawn → Drawn
with_match r j st = record st { matches = st.matches ++ new_spec r j ∷ [] }

abbrev pub is_empty : Token → Bool
is_empty empty = true
is_empty (loser i) = false
is_empty (winner kr kj) = false

-- The token that goes on from two, and the match if both are real.
unfoldable pub meet : ℕ → ℕ → Token → Token → Drawn → Token × Drawn
unfolding record_token
meet r j a b st =
    if is_empty a && is_empty b
    then (empty, st)
    else if is_empty a
    then (b, st)
    else if is_empty b
    then (a, st)
    else (winner r j, record_token r j 2 b (record_token r j 1 a (with_match r j st)))

-- The pairs of a round from slot `j` on.
unfoldable pub play_round : ℕ → ℕ → List Token → Drawn → List Token × Drawn
unfolding meet
play_round r j [] st = ([], st)
play_round r j (a ∷ []) st = ([], st)
play_round r j (a ∷ b ∷ cur) st =
    let (t, st1) = meet r j a b st in
    let (next, st2) = play_round r (suc j) cur st1 in (t ∷ next, st2)

-- `k` rounds from round `r` on.
unfoldable pub play_rounds : ℕ → ℕ → List Token → Drawn → List Token × Drawn
unfolding play_round
play_rounds zero r cur st = (cur, st)
play_rounds (suc k) r cur st =
    let (next, st1) = play_round r 0 cur st in play_rounds k (suc r) next st1

-- The tokens of the main matches.
abbrev pub main_token : (ℕ → Bool) → ℕ → Token
main_token is_bye i = if is_bye i then empty else loser i

abbrev pub has_nat : ℕ → List ℕ → Bool
has_nat r [] = false
has_nat r (x ∷ xs) = x == r || has_nat r xs

-- The keys of a Go map that is set at each of a list, sorted.
pub keys : List ℕ → List ℕ → List ℕ
keys seen [] = seen
keys seen (r ∷ rs) = if has_nat r seen then keys seen rs else keys (r ∷ seen) rs

unfoldable pub ordered_rounds : List ℕ → List ℕ
unfolding keys
ordered_rounds rs = sort_stable ltb (keys [] rs)

-- The place of a round among the ordered ones from `i` on; 0 for one that is not among them.
pub remap_from : ℕ → List ℕ → ℕ → ℕ
remap_from i [] r = 0
remap_from i (x ∷ xs) r = if x == r then i else remap_from (suc i) xs r

pub remap : List ℕ → ℕ → ℕ
unfolding remap_from
remap ordered r = remap_from 1 ordered r

unfoldable pub relabel_match : List ℕ → ConsolationMatchSpec → ConsolationMatchSpec
relabel_match ordered m = record m {
  round = remap ordered m.round;
  feeds_round = if m.feeds_round == 0 then 0 else remap ordered m.feeds_round;
}

unfoldable pub relabel_drop : List ℕ → LoserDrop → LoserDrop
relabel_drop ordered d = record d { round = remap ordered d.round }

abbrev pub match_rounds : List ConsolationMatchSpec → List ℕ
match_rounds [] = []
match_rounds (m ∷ ms) = m.round ∷ match_rounds ms

unfoldable pub relabel : Drawn → ConsolationPlan
unfolding relabel_match relabel_drop ordered_rounds remap
relabel st =
    let ordered = ordered_rounds (match_rounds st.matches) in
    record {
      rounds = length ordered;
      matches = map (relabel_match ordered) st.matches;
      drops = map (relabel_drop ordered) st.drops;
    }

abbrev pub no_matches : Drawn
no_matches = record { matches = []; drops = [] }

-- For the main bracket of a size; `is_bye` tells the matches of its round 1 without a loser.
unfoldable pub generate_consolation : ℕ → (ℕ → Bool) → ConsolationPlan
unfolding play_rounds relabel
generate_consolation size is_bye =
    let entrants = size / 2 in
    if ltb entrants 2
    then record { rounds = 0; matches = []; drops = [] }
    else relabel
        (play_rounds (ilog2 entrants) 1 (tabulate (main_token is_bye) 0 entrants) no_matches).1
