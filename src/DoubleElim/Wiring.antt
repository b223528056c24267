-- ===== src/DoubleElim/Wiring.antt =====
-- The matches of a double elimination, who comes into a slot, and the wiring of their feeds.
use plan_my_pickle_backend.Base.{
  ℕ, ◌+◌, ◌/◌, ◌^◌, Bool, true, false, not, ◌&&◌, none, some, List, [], ◌∷◌, ◌==◌, if◌then◌else◌,
}
use plan_my_pickle_backend.Bracket.Generate.{Side, BracketMatchSpec}

-- `no_tier` is the empty string, no feed.
pub data Tier : Type 0 where
  no_tier : Tier
  winners : Tier
  losers : Tier
  grand_final : Tier

abbrev pub is_winners : Tier → Bool
is_winners no_tier = false
is_winners winners = true
is_winners losers = false
is_winners grand_final = false

abbrev pub is_losers : Tier → Bool
is_losers no_tier = false
is_losers winners = false
is_losers losers = true
is_losers grand_final = false

pub record DeMatch : Type 0 where
  pub tier : Tier
  pub round : ℕ
  pub slot : ℕ
  pub side1 : Side
  pub side2 : Side
  pub resolved_winner : Side
  pub win_tier : Tier
  pub win_round : ℕ
  pub win_slot : ℕ
  pub win_team : ℕ
  pub lose_tier : Tier
  pub lose_round : ℕ
  pub lose_slot : ℕ
  pub lose_team : ℕ

pub record DoubleElimPlan : Type 0 where
  pub size : ℕ
  pub wb_rounds : ℕ
  pub lb_rounds : ℕ
  pub matches : List DeMatch

-- The matches of the losers round `lr` of a field of `n`, before byes.
unfoldable pub lb_match_count : ℕ → ℕ → ℕ
lb_match_count n lr = n / 2 ^ ((lr + 1) / 2 + 1)

-- Who is in a slot: nobody yet, a bye, the loser of a winners match or the winner of a losers match.
pub data Tok : Type 0 where
  unset : Tok
  bye_tok : Tok
  wloser : ℕ → ℕ → Tok
  lbwinner : ℕ → ℕ → Tok

abbrev pub real : Tok → Bool
real unset = false
real bye_tok = false
real (wloser r s) = true
real (lbwinner r s) = true

abbrev pub de_match : Tier → ℕ → ℕ → DeMatch
de_match t r s = record {
  tier = t;
  round = r;
  slot = s;
  side1 = none;
  side2 = none;
  resolved_winner = none;
  win_tier = no_tier;
  win_round = 0;
  win_slot = 0;
  win_team = 0;
  lose_tier = no_tier;
  lose_round = 0;
  lose_slot = 0;
  lose_team = 0;
}

-- A match of the single elimination in the winners tier; the final's winner goes to the grand final.
unfoldable pub winners_match : BracketMatchSpec → DeMatch
winners_match m =
    let final = m.feeds_round == 0 in
    record (de_match winners m.round m.slot) {
      side1 = m.side1;
      side2 = m.side2;
      resolved_winner = m.resolved_winner;
      win_tier = if final then grand_final else winners;
      win_round = if final then 1 else m.feeds_round;
      win_slot = if final then 0 else m.feeds_slot;
      win_team = if final then 1 else m.feeds_team;
    }

abbrev pub is_none : Side → Bool
is_none none = true
is_none (some ids) = false

-- Whether the winners match at a slot of round 1 is a bye.
unfoldable pub w1_bye : ℕ → List DeMatch → Bool
w1_bye s [] = false
w1_bye s (m ∷ ms) =
    if is_winners m.tier && m.round == 1 && m.slot == s
    then not (is_none m.resolved_winner)
    else w1_bye s ms

unfoldable pub wloser_tok : List DeMatch → ℕ → ℕ → Tok
unfolding w1_bye
wloser_tok ms r s = if r == 1 && w1_bye s ms then bye_tok else wloser r s

-- The loser of a winners match goes to a place.
unfoldable pub set_lose : ℕ → ℕ → Tier → ℕ → ℕ → ℕ → List DeMatch → List DeMatch
set_lose kr ks t r s team [] = []
set_lose kr ks t r s team (m ∷ ms) =
    if is_winners m.tier && m.round == kr && m.slot == ks
    then record m { lose_tier = t; lose_round = r; lose_slot = s; lose_team = team } ∷ ms
    else m ∷ set_lose kr ks t r s team ms

-- The winner of a losers match goes to a place.
unfoldable pub set_win : ℕ → ℕ → Tier → ℕ → ℕ → ℕ → List DeMatch → List DeMatch
set_win kr ks t r s team [] = []
set_win kr ks t r s team (m ∷ ms) =
    if is_losers m.tier && m.round == kr && m.slot == ks
    then record m { win_tier = t; win_round = r; win_slot = s; win_team = team } ∷ ms
    else m ∷ set_win kr ks t r s team ms

unfoldable pub wire : Tok → Tier → ℕ → ℕ → ℕ → List DeMatch → List DeMatch
unfolding set_lose set_win
wire unset t r s team ms = ms
wire bye_tok t r s team ms = ms
wire (wloser kr ks) t r s team ms = set_lose kr ks t r s team ms
wire (lbwinner kr ks) t r s team ms = set_win kr ks t r s team ms
