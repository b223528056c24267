-- ===== src/DoubleElim.antt =====
-- internal/engine/double_elim.go: a winners bracket, a losers bracket and a grand final. A match pointer is
-- a tier, a round and a slot in the list of matches.
mod Wiring
pub mod Wires
pub mod Winners
pub mod LbRounds
unfoldable pub use Wiring.*
use plan_my_pickle_backend.Base.{
  String, ℕ, zero, suc, ◌+◌, ◌-◌, ◌*◌, ◌/◌, ◌%◌, ◌^◌, Bool, true, false, not, ◌&&◌, Option, none,
  some, List, [], ◌∷◌, ◌++◌, map, length, leb, ltb, ◌==◌, if◌then◌else◌,
}
use plan_my_pickle_backend.Bracket.Generate.{Side, BracketMatchSpec, BracketPlan, generate_bracket}
use plan_my_pickle_backend.Consolation.{ordered_rounds, remap}

-- The Go map of the pairs that come into a losers match.
abbrev pub Incoming : Type 0
Incoming = ℕ → ℕ → Tok × Tok

pub set_in : ℕ → ℕ → ℕ → Tok → Incoming → Incoming
set_in lr s team t inc = λ qr qs.
    if qr == lr && qs == s
    then (if team == 1 then (t, (inc qr qs).1) else ((inc qr qs).0, t))
    else inc qr qs

-- The source slot of the loser who drops into slot `j` of a major round, from winners round `r`.
pub come_around : ℕ → ℕ → ℕ → ℕ
come_around cnt r j = if r % 2 == 1 && ltb 1 cnt then (j + cnt / 2) % cnt else cnt - 1 - j

-- `m` slots of a losers round from `j` on get the losers of the winners bracket.
pub seed_slots : List DeMatch → ℕ → ℕ → ℕ → ℕ → Incoming → Incoming
unfolding wloser_tok set_in come_around
seed_slots ms cnt lr zero j inc = inc
seed_slots ms cnt lr (suc m) j inc =
    let r = lr / 2 + 1 in
    let first =
      set_in 1 j 2 (wloser_tok ms 1 (2 * j + 1)) (set_in 1 j 1 (wloser_tok ms 1 (2 * j)) inc) in
    let major = set_in lr j 2 (wloser_tok ms r (come_around cnt r j)) inc in
    seed_slots ms cnt lr m (suc j) (if lr == 1 then first else if lr % 2 == 0 then major else inc)

-- `k` losers rounds from `lr` on.
pub seed_rounds : List DeMatch → ℕ → ℕ → ℕ → Incoming → Incoming
unfolding seed_slots lb_match_count
seed_rounds ms n zero lr inc = inc
seed_rounds ms n (suc k) lr inc =
    let cnt = lb_match_count n lr in seed_rounds ms n k (suc lr) (seed_slots ms cnt lr cnt 0 inc)

pub record LosersTree : Type 0 where
  pub matches : List DeMatch
  pub incoming : Incoming

-- Who comes out of a slot of the losers bracket, and the match if both sides are real.
pub emit : ℕ → ℕ → Tok → Tok → List DeMatch → Tok × List DeMatch
unfolding wire
emit lr j t1 t2 ms =
    if real t1 && real t2
    then (
      lbwinner lr j,
      wire t2 losers lr j 2 (wire t1 losers lr j 1 (ms ++ de_match losers lr j ∷ [])),
    )
    else if real t1
    then (t1, ms)
    else if real t2
    then (t2, ms)
    else (bye_tok, ms)

-- Where it goes on to.
pub route : ℕ → ℕ → ℕ → Tok → LosersTree → LosersTree
unfolding wire set_in
route lb_rounds lr j out st =
    if lr == lb_rounds
    then record st {
      matches = if real out then wire out grand_final 1 0 2 st.matches else st.matches;
    }
    else if lr % 2 == 1
    then record st { incoming = set_in (lr + 1) j 1 out st.incoming }
    else record st { incoming = set_in (lr + 1) (j / 2) (j % 2 + 1) out st.incoming }

pub flow_slots : ℕ → ℕ → ℕ → ℕ → LosersTree → LosersTree
unfolding emit route
flow_slots lb_rounds lr zero j st = st
flow_slots lb_rounds lr (suc m) j st =
    let (t1, t2) = st.incoming lr j in
    let (out, ms) = emit lr j t1 t2 st.matches in
    flow_slots lb_rounds lr m (suc j) (route lb_rounds lr j out (record st { matches = ms }))

pub flow_rounds : ℕ → ℕ → ℕ → ℕ → LosersTree → LosersTree
unfolding flow_slots lb_match_count
flow_rounds n lb_rounds zero lr st = st
flow_rounds n lb_rounds (suc k) lr st =
    flow_rounds n lb_rounds k (suc lr) (flow_slots lb_rounds lr (lb_match_count n lr) 0 st)

-- The rounds of the losers matches.
abbrev pub losers_rounds : List DeMatch → List ℕ
losers_rounds [] = []
losers_rounds (m ∷ ms) = if is_losers m.tier then m.round ∷ losers_rounds ms else losers_rounds ms

pub renumber_match : List ℕ → DeMatch → DeMatch
renumber_match rounds m = record m {
  round = if is_losers m.tier then remap rounds m.round else m.round;
  win_round = if is_losers m.win_tier then remap rounds m.win_round else m.win_round;
  lose_round = if is_losers m.lose_tier then remap rounds m.lose_round else m.lose_round;
}

pub renumber_lb_rounds : List DeMatch → List DeMatch
unfolding renumber_match
renumber_lb_rounds ms =
    let rounds = ordered_rounds (losers_rounds ms) in
    if length rounds == 0 then ms else map (renumber_match rounds) ms

pub max_round : ℕ → List ℕ → ℕ
max_round top [] = top
max_round top (r ∷ rs) = max_round (if ltb top r then r else top) rs

pub lb_round_count : List DeMatch → ℕ
unfolding max_round
lb_round_count ms = max_round 0 (losers_rounds ms)

-- The winners bracket with the losers bracket that is drawn below it.
pub losers_tree : ℕ → ℕ → List DeMatch → List DeMatch
unfolding flow_rounds seed_rounds
losers_tree n lb_rounds ms =
    let incoming = seed_rounds ms n lb_rounds 1 (λ lr s. (unset, unset)) in
    (flow_rounds n lb_rounds lb_rounds 1 (record { matches = ms; incoming = incoming })).matches

-- The losers of the only match go to the grand final.
pub single_match : List DeMatch → List DeMatch
unfolding set_lose
single_match ms = if w1_bye 0 ms then ms else set_lose 1 0 grand_final 1 0 2 ms

pub generate_double_elim : List (List String) → DoubleElimPlan
unfolding winners_match losers_tree renumber_lb_rounds single_match lb_round_count
generate_double_elim seeded_sides =
    let wb = generate_bracket seeded_sides in
    let drawn = map winners_match wb.matches in
    let final = de_match grand_final 1 0 ∷ [] in
    let tree = losers_tree wb.size (if leb 2 wb.rounds then 2 * (wb.rounds - 1) else 0) drawn in
    let matches = renumber_lb_rounds (tree ++ final) in
    if wb.rounds == 1
    then record {
      size = wb.size;
      wb_rounds = wb.rounds;
      lb_rounds = 0;
      matches = single_match drawn ++ final;
    }
    else record {
      size = wb.size;
      wb_rounds = wb.rounds;
      lb_rounds = lb_round_count matches;
      matches = matches;
    }
