-- ===== src/Schedule/Mixer/Teams.antt =====
-- The teams of a round, and the entries that the loops take out by their index.
use plan_my_pickle_backend.Base.{
  ℕ, zero, suc, ◌+◌, ◌*◌, ◌≤◌, ◌<◌, ◌≡◌, refl, List, [], ◌∷◌, ◌++◌, String, arith, length,
  length-append, length-take, length-drop, take, drop, get_or, hit, count, count-append, All,
  if◌then◌else◌,
}
use plan_my_pickle_backend.Schedule.Mixer.{
  Counts, without, best_partner, form_teams, best_opponents, cheaper, opp_cost, less_triple, pc, oc,
}

-- An entry taken out by its index.
pub length-without {ℓ} :
    {A : Type ℓ} (xs : List A) (i : ℕ) → i < length xs → suc (length (without xs i)) ≡ length xs
length-without xs i h =
    omega
      (arith, length-append (take i xs) (drop (suc i) xs), length-take i xs, length-drop (suc i) xs)

without-count :
    (a : String) (xs : List String) (i : ℕ)
    → i < length xs
    → hit (get_or xs i "") a + count a (without xs i) ≡ count a xs
without-count a [] i h = absurd (omega arith)
without-count a (x ∷ xs) zero h = refl
without-count a (x ∷ xs) (suc i) h = omega (arith, without-count a xs i (omega arith))

-- All ids of a list of teams.
abbrev pub members : List (List String) → List String
members [] = []
members (t ∷ ts) = t ++ members ts

pub without-members :
    (a : String) (ts : List (List String)) (i : ℕ)
    → i < length ts
    → count a (get_or ts i []) + count a (members (without ts i)) ≡ count a (members ts)
without-members a [] i h = absurd (omega arith)
without-members a (t ∷ ts) zero h = omega (arith, count-append a t (members ts))
without-members a (t ∷ ts) (suc i) h = omega (
  arith,
  without-members a ts i (omega arith),
  count-append a t (members ts),
  count-append a t (members (without ts i)),
)

best_partner-lt :
    (st : Counts) (a : String) (all xs : List String) (i best n : ℕ)
    → best < n
    → i + length xs ≤ n
    → best_partner st a all xs i best < n
unfolding best_partner
best_partner-lt st a all [] i best n h e = h
best_partner-lt st a all (x ∷ xs) i best n h e =
    let b = get_or all best "" in
    best_partner-lt st a all xs (suc i)
      (if less_triple (pc st a x) (oc st a x) x (pc st a b) (oc st a b) b then i else best) n
      (ground arith) (omega arith)

pub best_opponents-lt :
    (st : Counts) (t1 : List String) (all ts : List (List String)) (i best cost n : ℕ)
    → best < n
    → i + length ts ≤ n
    → best_opponents st t1 all ts i best cost < n
unfolding best_opponents
best_opponents-lt st t1 all [] i best cost n h e = h
best_opponents-lt st t1 all (t2 ∷ ts) i best cost n h e =
    let wins = cheaper (opp_cost st t1 t2) t2 cost (get_or all best []) in
    best_opponents-lt st t1 all ts (suc i) (if wins then i else best)
      (if wins then opp_cost st t1 t2 else cost) n (ground arith) (omega arith)

-- A team of two.
abbrev pub IsPair : List String → Type 0
IsPair t = length t ≡ 2

-- Out of 2h players come h teams of two, with the same players.
pub form_teams-h :
    (h fuel : ℕ) (st : Counts) (xs : List String)
    → length xs ≡ 2 * h
    → length xs ≤ fuel
    → (length (form_teams fuel st xs) ≡ h)
      × All IsPair (form_teams fuel st xs)
      × ((a : String) → count a (members (form_teams fuel st xs)) ≡ count a xs)
unfolding form_teams
form_teams-h zero zero st [] e f = (refl, tt, λ a. refl)
form_teams-h zero (suc fuel) st [] e f = (refl, tt, λ a. refl)
form_teams-h zero fuel st (x ∷ xs) e f = absurd (omega arith)
form_teams-h (suc h) fuel st [] e f = absurd (omega arith)
form_teams-h (suc h) zero st (x ∷ xs) e f = absurd (omega arith)
form_teams-h (suc h) (suc fuel) st (x ∷ xs) e f =
    let best = best_partner st x xs xs 0 0 in
    let inside = best_partner-lt st x xs xs 0 0 (length xs) (omega arith) (omega arith) in
    let shorter = length-without xs best inside in
    let (len, pairs, same) = form_teams-h h fuel st (without xs best) (omega arith) (omega arith) in
    (omega arith, (refl, pairs), λ a. omega (arith, same a, without-count a xs best inside))
