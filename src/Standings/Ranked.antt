-- ===== src/Standings/Ranked.antt =====
-- What the order of the standings is.
use plan_my_pickle_backend.Base.{
  ℕ, zero, suc, ap, ◌+◌, if◌then◌else◌, ◌≤◌, ◌≡◌, refl, ◌∙◌, inl, inr, Bool, true, false, List, [],
  ◌∷◌, map, Bool-cases, All, length, ltb, total, total-append, sort_stable, sort_stable-total,
  sort_stable-All, arith,
}
use plan_my_pickle_backend.Standings.{
  Standing, Fraction, HeadToHead, fill_win_pct, group_wins, more_points, better_record, wins_tie,
  take_rank, drop_rank, settle_group, settle_ties, rank_standings_with,
}
use plan_my_pickle_backend.Standings.Adjacent.{Adjacent, sort_stable-Adjacent}
use plan_my_pickle_backend.Standings.Runs.{wins_tie_asym, take_rank-total}

pub settle_group-total :
    (d : Bool) (h : HeadToHead) (w : Standing → ℕ) (grp : List Standing)
    → total w (settle_group d h grp) ≡ total w grp
unfolding settle_group
settle_group-total d h w grp = elim (Bool-cases (ltb 1 (length grp))) [
  | inl e ↦ rw e (sort_stable-total (wins_tie d (group_wins h grp)) w grp)
  | inr e ↦ rw e refl
]

pub settle_group-All :
    (d : Bool) (h : HeadToHead) (P : Standing → Type 0) (grp : List Standing)
    → All P grp
    → All P (settle_group d h grp)
unfolding settle_group
settle_group-All d h P grp p = elim (Bool-cases (ltb 1 (length grp))) [
  | inl e ↦ rw e (sort_stable-All (wins_tie d (group_wins h grp)) P grp p)
  | inr e ↦ rw e p
]

short-Adjacent :
    (R : Standing → Standing → Type 0) (grp : List Standing) → length grp ≤ 1 → Adjacent R grp
short-Adjacent R [] h = tt
short-Adjacent R (x ∷ []) h = (tt, tt)
short-Adjacent R (x ∷ y ∷ grp) h = absurd (omega arith)

pub settle_group-Adjacent :
    (d : Bool) (h : HeadToHead) (grp : List Standing)
    → Adjacent (λ a b. wins_tie d (group_wins h grp) b a ≡ false) (settle_group d h grp)
unfolding settle_group
settle_group-Adjacent d h grp = elim (Bool-cases (ltb 1 (length grp))) [
  | inl e ↦ rw e (
      sort_stable-Adjacent (wins_tie d (group_wins h grp)) (wins_tie_asym d (group_wins h grp)) grp)
  | inr e ↦ rw e (short-Adjacent _ grp (ground (arith, e)))
]

settle_ties-total :
    (fuel : ℕ) (d : Bool) (h : HeadToHead) (w : Standing → ℕ) (out : List Standing)
    → total w (settle_ties fuel d h out) ≡ total w out
unfolding settle_ties
settle_ties-total zero d h w out = refl
settle_ties-total (suc fuel) d h w [] = refl
settle_ties-total (suc fuel) d h w (x ∷ out) =
    let grp = x ∷ take_rank d x out in
    let rest = drop_rank d x out in
    omega (
      arith,
      total-append w (settle_group d h grp) (settle_ties fuel d h rest),
      settle_group-total d h w grp,
      settle_ties-total fuel d h w rest,
      take_rank-total d x w out,
    )

-- A row with its share of the games won, 0 if none has been played.
abbrev share : ℕ → ℕ → Fraction
share zero zero = record { num = 0; den = 1 }
share zero (suc l) = record { num = 0; den = suc l }
share (suc w) l = record { num = suc w; den = suc w + l }

abbrev pub rated : Standing → Standing
rated s = record s { win_pct = share s.wins s.losses }

share_lem :
    (w l : ℕ)
    → (if ltb 0 (w + l) then record { num = w; den = w + l } else record { num = 0; den = 1 })
      ≡ share w l
share_lem zero zero = refl
share_lem zero (suc l) =
    let played : ltb 0 (0 + suc l) ≡ true = ground arith in
    let all : 0 + suc l ≡ suc l = omega arith in
    rw played (ap (λ d. record { num = 0; den = d }) all)
share_lem (suc w) l = let played : ltb 0 (suc w + l) ≡ true = ground arith in rw played refl

fill_win_pct-rated : (s : Standing) → fill_win_pct s ≡ rated s
fill_win_pct-rated s = ap (λ p. record s { win_pct = p }) (share_lem s.wins s.losses)

filled_total :
    (w : Standing → ℕ) (out : List Standing)
    → total w (map fill_win_pct out) ≡ total (λ s. w (rated s)) out
filled_total w [] = refl
filled_total w (s ∷ out) = omega (arith, ap w (fill_win_pct-rated s), filled_total w out)

-- Whatever the order is by, every row is there as often as before, with the share of its games that
-- are won, 0 if it has played none, as its win percentage.
pub rank_standings_with-total :
    (out : List Standing) (h : HeadToHead) (by_wins diff_first : Bool) (w : Standing → ℕ)
    → total w (rank_standings_with out h by_wins diff_first) ≡ total (λ s. w (rated s)) out
unfolding rank_standings_with
rank_standings_with-total out h true d w =
    let filled = map fill_win_pct out in
    let sorted = sort_stable (better_record d) filled in
    settle_ties-total (length sorted) d h w sorted
    ∙ sort_stable-total (better_record d) w filled
    ∙ filled_total w out
rank_standings_with-total out h false d w =
    sort_stable-total (more_points h) w (map fill_win_pct out) ∙ filled_total w out
