-- ===== src/Schedule/Mixer/Games.antt =====
-- The games of a round: the teams paired up.
use plan_my_pickle_backend.Base.{
  ℕ, zero, suc, ◌*◌, ◌≤◌, ◌<◌, ◌≡◌, refl, List, [], ◌∷◌, ◌++◌, String, arith, length, get_or, count,
  count-append, All,
}
use plan_my_pickle_backend.Schedule.{RawMatch}
use plan_my_pickle_backend.Schedule.Mixer.{
  Counts, without, best_opponents, opp_cost, played_match, pair_teams,
}
use plan_my_pickle_backend.Schedule.Mixer.Teams.{
  members, length-without, without-members, best_opponents-lt, IsPair,
}

-- All ids of a round.
abbrev pub round_ids : List RawMatch → List String
round_ids [] = []
round_ids (m ∷ ms) = m.t1 ++ m.t2 ++ round_ids ms

-- Both sides of a match are teams of two.
abbrev pub IsDoubles : RawMatch → Type 0
IsDoubles m = (length m.t1 ≡ 2) × (length m.t2 ≡ 2)

-- A team taken out by its index is a team of two, like the others.
without-All :
    (ts : List (List String)) (i : ℕ)
    → i < length ts
    → All IsPair ts
    → IsPair (get_or ts i []) × All IsPair (without ts i)
without-All [] i h v = absurd (omega arith)
without-All (t ∷ ts) zero h v = v
without-All (t ∷ ts) (suc i) h v =
    let (one, rest) = without-All ts i (omega arith) v.1 in (one, (v.0, rest))

-- Out of 2h teams come h matches, with the same players.
pub pair_teams-h :
    (h fuel : ℕ) (st : Counts) (ts : List (List String))
    → length ts ≡ 2 * h
    → length ts ≤ fuel
    → All IsPair ts
    → (length (pair_teams fuel st ts).0 ≡ h)
      × All IsDoubles (pair_teams fuel st ts).0
      × ((a : String) → count a (round_ids (pair_teams fuel st ts).0) ≡ count a (members ts))
unfolding pair_teams
pair_teams-h zero zero st [] e f v = (refl, tt, λ a. refl)
pair_teams-h zero (suc fuel) st [] e f v = (refl, tt, λ a. refl)
pair_teams-h zero fuel st (t ∷ ts) e f v = absurd (omega arith)
pair_teams-h (suc h) fuel st [] e f v = absurd (omega arith)
pair_teams-h (suc h) zero st (t ∷ ts) e f v = absurd (omega arith)
pair_teams-h (suc h) (suc fuel) st (t1 ∷ ts) e f v =
    let best = best_opponents st t1 ts ts 0 0 (opp_cost st t1 (get_or ts 0 [])) in
    let t2 = get_or ts best [] in
    let inside =
      best_opponents-lt st t1 ts ts 0 0 (opp_cost st t1 (get_or ts 0 [])) (length ts) (omega arith)
        (omega arith) in
    let shorter = length-without ts best inside in
    let (two, others) = without-All ts best inside v.1 in
    let st' = played_match t1 t2 st in
    let rest = pair_teams fuel st' (without ts best) in
    let (len, doubles, same) =
      pair_teams-h h fuel st' (without ts best) (omega arith) (omega arith) others in
    (
      omega arith,
      ((v.0, two), doubles),
      λ a. omega (
        arith,
        same a,
        without-members a ts best inside,
        count-append a (t1 ++ t2) (round_ids rest.0),
        count-append a t1 t2,
        count-append a t1 (members ts),
      ),
    )
