-- ===== src/Schedule/Mixer.antt =====
-- `doublesRotating`: the greedy social mixer, doubles with new partners in each round.
pub mod Teams
pub mod Games
pub mod Rounds
use Prim.Native.Nat.{Ordering}
use Prim.Native.String.{◌++◌ as str_append, compare as str_compare}
use plan_my_pickle_backend.Base.{
  ℕ, zero, suc, ◌+◌, ◌-◌, ◌%◌, Bool, true, false, ◌&&◌, ◌||◌, List, [], ◌∷◌, ◌++◌, String, str_eq,
  ltb, ◌==◌, if◌then◌else◌, length, take, drop, get_or, sort_stable, ℤ, pos_part,
}
use plan_my_pickle_backend.Schedule.{RawMatch}

-- Go's `<` on strings.
abbrev pub str_ltb : String → String → Bool
str_ltb x y = elim (str_compare x y) [ Ordering.lt ↦ true | _ ↦ false ]

-- One key for the two orders of a pair.
pub key : String → String → String
key a b = if str_ltb b a then str_append b (str_append "|" a) else str_append a (str_append "|" b)

-- The maps that the rounds share; a key that is not there reads as 0.
pub record Counts : Type 0 where
  pub partner_count : String → ℕ
  pub opp_count : String → ℕ
  pub games : String → ℕ

abbrev pub bump : (String → ℕ) → String → String → ℕ
bump m k j = if str_eq j k then m j + 1 else m j

abbrev pub pc : Counts → String → String → ℕ
pc st a b = st.partner_count (key a b)

abbrev pub oc : Counts → String → String → ℕ
oc st a b = st.opp_count (key a b)

pub less_triple : ℕ → ℕ → String → ℕ → ℕ → String → Bool
less_triple pc_a oc_a cand_a pc_b oc_b cand_b =
    if pc_a == pc_b
    then (if oc_a == oc_b then str_ltb cand_a cand_b else ltb oc_a oc_b)
    else ltb pc_a pc_b

-- Fewest games first, then by id.
pub fresher : Counts → String → String → Bool
fresher st x y = if st.games x == st.games y then str_ltb x y else ltb (st.games x) (st.games y)

-- `append(xs[:i], xs[i+1:]...)`
abbrev pub without {ℓ} : {A : Type ℓ} → List A → ℕ → List A
without xs i = take i xs ++ drop (suc i) xs

-- The loop over the candidates of `all` from index `i` on.
pub best_partner : Counts → String → List String → List String → ℕ → ℕ → ℕ
unfolding less_triple key
best_partner st a all [] i best = best
best_partner st a all (x ∷ xs) i best =
    let b = get_or all best "" in
    best_partner st a all xs (suc i)
      (if less_triple (pc st a x) (oc st a x) x (pc st a b) (oc st a b) b then i else best)

-- Teams of two, fewest repeat partnerships first; the fuel is the number of those remaining.
pub form_teams : ℕ → Counts → List String → List (List String)
unfolding best_partner
form_teams zero st remaining = []
form_teams (suc fuel) st [] = []
form_teams (suc fuel) st (a ∷ remaining) =
    let best = best_partner st a remaining remaining 0 0 in
    (a ∷ get_or remaining best "" ∷ []) ∷ form_teams fuel st (without remaining best)

pub opp_cost_of : Counts → String → List String → ℕ
unfolding key
opp_cost_of st x [] = 0
opp_cost_of st x (y ∷ t2) = oc st x y + opp_cost_of st x t2

pub opp_cost : Counts → List String → List String → ℕ
unfolding opp_cost_of
opp_cost st [] t2 = 0
opp_cost st (x ∷ t1) t2 = opp_cost_of st x t2 + opp_cost st t1 t2

abbrev pub join : List String → String
join [] = ""
join (s ∷ ss) = str_append s (join ss)

-- Whether a team of cost `c` beats the best so far.
pub cheaper : ℕ → List String → ℕ → List String → Bool
cheaper c t best_cost best = ltb c best_cost || (c == best_cost && str_ltb (join t) (join best))

pub best_opponents : Counts → List String → List (List String) → List (List String) → ℕ → ℕ → ℕ → ℕ
unfolding opp_cost cheaper
best_opponents st t1 all [] i best best_cost = best
best_opponents st t1 all (t2 ∷ ts) i best best_cost =
    let c = opp_cost st t1 t2 in
    let wins = cheaper c t2 best_cost (get_or all best []) in
    best_opponents st t1 all ts (suc i) (if wins then i else best) (if wins then c else best_cost)

pub bump_opponents_of : String → List String → (String → ℕ) → String → ℕ
unfolding key
bump_opponents_of x [] m = m
bump_opponents_of x (y ∷ t2) m = bump_opponents_of x t2 (bump m (key x y))

pub bump_opponents : List String → List String → (String → ℕ) → String → ℕ
unfolding bump_opponents_of
bump_opponents [] t2 m = m
bump_opponents (x ∷ t1) t2 m = bump_opponents t1 t2 (bump_opponents_of x t2 m)

pub bump_all : List String → (String → ℕ) → String → ℕ
bump_all [] m = m
bump_all (x ∷ xs) m = bump_all xs (bump m x)

-- The maps after a match.
pub played_match : List String → List String → Counts → Counts
unfolding bump_opponents bump_all key
played_match t1 t2 st = record {
  partner_count =
      bump (bump st.partner_count (key (get_or t1 0 "") (get_or t1 1 "")))
        (key (get_or t2 0 "") (get_or t2 1 ""));
  opp_count = bump_opponents t1 t2 st.opp_count;
  games = bump_all (t1 ++ t2) st.games;
}

-- Teams against teams, fewest repeat opponents first; the fuel is the number of teams.
pub pair_teams : ℕ → Counts → List (List String) → List RawMatch × Counts
unfolding best_opponents played_match
pair_teams zero st teams = ([], st)
pair_teams (suc fuel) st [] = ([], st)
pair_teams (suc fuel) st (t1 ∷ trem) =
    let best = best_opponents st t1 trem trem 0 0 (opp_cost st t1 (get_or trem 0 [])) in
    let t2 = get_or trem best [] in
    let (ms, st') = pair_teams fuel (played_match t1 t2 st) (without trem best) in
    (record { t1 = t1; t2 = t2 } ∷ ms, st')

-- The players of a round: all but the remainder by 4 of those with the most games.
pub active : List String → Counts → List String
unfolding fresher
active players st =
    let pool = sort_stable (fresher st) players in take (length pool - length pool % 4) pool

pub mix_round : List String → Counts → List RawMatch × Counts
unfolding active form_teams pair_teams
mix_round players st =
    let act = active players st in
    let teams = form_teams (length act) st act in
    if ltb (length act) 4 then ([], st) else pair_teams (length teams) st teams

pub mix_rounds : ℕ → List String → Counts → List (List RawMatch)
unfolding mix_round
mix_rounds zero players st = []
mix_rounds (suc k) players st =
    let (ms, st') = mix_round players st in ms ∷ mix_rounds k players st'

pub no_counts : Counts
no_counts = record { partner_count = λ _. 0; opp_count = λ _. 0; games = λ _. 0 }

pub doubles_rotating : List String → ℤ → List (List RawMatch)
unfolding mix_rounds no_counts
doubles_rotating players num_rounds = mix_rounds (pos_part num_rounds) players no_counts
