-- ===== src/Schedule/Mixer/Rounds.antt =====
-- What a round of the mixer is: everybody who is active plays once.
use plan_my_pickle_backend.Base.{
  ℕ, zero, suc, ◌-◌, ◌*◌, ◌/◌, ◌%◌, ◌≤◌, ◌<◌, ◌≡◌, refl, ap, inl, inr, List, some, String, arith,
  length, length-take, take-append-drop, take, drop, get_elem?, count, count-append, All,
  sort_stable, sort_stable-count, sort_stable-length, ids_by_self, Bool-cases, ltb, pos,
}
use plan_my_pickle_backend.Schedule.{RawMatch}
use plan_my_pickle_backend.Schedule.Mixer.{
  Counts, form_teams, fresher, active, mix_round, mix_rounds, no_counts, doubles_rotating,
}
use plan_my_pickle_backend.Schedule.Mixer.Teams.{form_teams-h}
use plan_my_pickle_backend.Schedule.Mixer.Games.{round_ids, IsDoubles, pair_teams-h}

active-count :
    (a : String) (players : List String) (st : Counts)
    → count a (active players st) ≤ count a players
unfolding active
active-count a players st =
    let pool = sort_stable (fresher st) players in
    let n = length pool - length pool % 4 in
    omega (
      arith,
      count-append a (take n pool) (drop n pool),
      ap (count a) (take-append-drop n pool),
      ids_by_self a pool,
      ids_by_self a players,
      sort_stable-count (fresher st) (λ x. x) a players,
    )

length-active :
    (players : List String) (st : Counts) → length (active players st) ≡ 4 * (length players / 4)
unfolding active
length-active players st =
    let pool = sort_stable (fresher st) players in
    omega (
      arith,
      length-take (length pool - length pool % 4) pool,
      sort_stable-length (fresher st) players,
    )

-- What a round of the mixer is for a roster.
pub record IsMixed (players : List String) (round : List RawMatch) : Type 0 where
  -- as many games as the roster fills
  pub size : length round ≡ length players / 4
  -- each of two teams of two
  pub doubles : All IsDoubles round
  -- and nobody plays more often than they stand on the roster
  pub fair_use : (a : String) → count a (round_ids round) ≤ count a players

mix_round-IsMixed : (players : List String) (st : Counts) → IsMixed players (mix_round players st).0
unfolding mix_round
mix_round-IsMixed players st =
    let act = active players st in
    let m = length players / 4 in
    let len = length-active players st in
    let (t_len, t_pairs, t_same) =
      form_teams-h (2 * m) (length act) st act (omega (arith, len)) (omega arith) in
    let teams = form_teams (length act) st act in
    let (p_len, p_doubles, p_same) =
      pair_teams-h m (length teams) st teams (omega (arith, t_len)) (omega arith) t_pairs in
    elim (Bool-cases (ltb (length act) 4)) [
      | inl few ↦
          rw few (record { size = ground (arith, len); doubles = tt; fair_use = λ a. omega arith })
      | inr enough ↦ rw enough (record {
        size = p_len;
        doubles = p_doubles;
        fair_use = λ a. omega (arith, p_same a, t_same a, active-count a players st);
      })
    ]

mix_rounds-IsMixed :
    (k r : ℕ) (players : List String) (st : Counts)
    → r < k
    → (round : List RawMatch) × (get_elem? (mix_rounds k players st) r ≡ some round)
      × IsMixed players round
unfolding mix_rounds
mix_rounds-IsMixed zero r players st h = absurd (omega arith)
mix_rounds-IsMixed (suc k) zero players st h =
    ((mix_round players st).0, refl, mix_round-IsMixed players st)
mix_rounds-IsMixed (suc k) (suc r) players st h =
    mix_rounds-IsMixed k r players (mix_round players st).1 (omega arith)

length-mix_rounds :
    (k : ℕ) (players : List String) (st : Counts) → length (mix_rounds k players st) ≡ k
unfolding mix_rounds
length-mix_rounds zero players st = refl
length-mix_rounds (suc k) players st = ap suc (length-mix_rounds k players (mix_round players st).1)

-- The mixer returns the rounds it is asked for, and each of them has as many games as the roster
-- fills, of two teams of two, where nobody plays more often than they stand on the roster: of
-- distinct players nobody plays twice, and only the remainder by four sits out.
pub doubles_rotating-IsMixed :
    (players : List String) (num_rounds r : ℕ)
    → r < num_rounds
    → (length (doubles_rotating players (pos num_rounds)) ≡ num_rounds)
      × (round : List RawMatch) × (get_elem? (doubles_rotating players (pos num_rounds)) r
          ≡ some round)
      × IsMixed players round
unfolding doubles_rotating
doubles_rotating-IsMixed players num_rounds r h =
    let (round, at, mixed) = mix_rounds-IsMixed num_rounds r players no_counts h in
    (length-mix_rounds num_rounds players no_counts, round, at, mixed)
