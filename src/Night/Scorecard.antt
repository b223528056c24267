-- ===== src/Night/Scorecard.antt =====
-- What a call of `AdvanceRotationSession` reads, and the results of the round from it: the scorecard
-- first, then the taps. A failed read is `none`.
use plan_my_pickle_backend.Base.{
  ℕ, Bool, true, false, ◌&&◌, ◌||◌, Option, none, some, List, [], ◌∷◌, String, str_eq,
  if◌then◌else◌, ℤ, pos, ◌+ℤ◌, ltb_ℤ,
}
use plan_my_pickle_backend.Rotation.{Team, RotCourt, LoserMode, RotResult}

pub record SessionRow : Type 0 where
  pub status : String
  pub current_round : ℕ
  pub bench : List String
  pub court_count : ℤ
  pub planned_rounds : ℤ
  -- The instant in nanoseconds; `none` if it is blank or no time.
  pub stop_at : Option ℤ
  pub round_minutes : ℤ

pub record CourtRow : Type 0 where
  pub court : ℕ
  pub team_a : Team
  pub team_b : Team
  pub winner : String

pub record Substitution : Type 0 where
  pub out_player : String
  pub in_player : String

pub record PlayerRow : Type 0 where
  pub id : String
  pub active : Bool

pub record Reads : Type 0 where
  -- `some none` if there is no such session
  pub session : Option (Option SessionRow)
  pub rows : Option (List CourtRow)
  pub scores_ready : Option Bool
  pub scores : Option (List (String × Option ℤ))
  pub subs : Option (List Substitution)
  pub gone : Option (List String)
  pub active_rows : Option (List PlayerRow)
  pub mode : Option LoserMode
  -- 0 for an id that the counts lack
  pub played : String → ℕ
  -- the status read again before handing over
  pub status_again : Option String

-- Why a round is held.
pub data Hold : Type 0 where
  unreadable : Hold
  not_found : Hold
  not_live : Hold
  paused : Hold
  no_courts : ℕ → Hold
  tied : List ℕ → Hold
  inconsistent : ℕ → Hold
  too_few : Hold

pub data Halt : Type 0 where
  held : Hold → Halt
  -- someone else has advanced
  stale : Halt
  -- the session has reached its limit
  ended : Halt

pub data Flow (A : Type 0) : Type 0 where
  halt : Halt → Flow A
  go : A → Flow A

infixl 5 ◌>>=◌ ◌>>◌
abbrev pub ◌>>=◌ : {A B : Type 0} → Flow A → (A → Flow B) → Flow B
halt h >>= f = halt h
go a >>= f = f a

abbrev pub ◌>>◌ : {B : Type 0} → Flow (Unit {0}) → Flow B → Flow B
m >> k = m >>= λ _. k

abbrev pub hold_if : Bool → Halt → Flow (Unit {0})
hold_if true h = halt h
hold_if false h = go tt

abbrev pub read : {A : Type 0} → Option A → Hold → Flow A
read none h = halt (held h)
read (some a) h = go a

-- `scoreOf`, later rows over earlier ones; a null score is none.
unfoldable pub add_scores : List (String × Option ℤ) → (String → Option ℤ) → String → Option ℤ
add_scores [] m = m
add_scores ((p, none) ∷ rows) m = add_scores rows m
add_scores ((p, some v) ∷ rows) m = add_scores rows (λ q. if str_eq q p then some v else m q)

-- A team's points, and whether every seat that is taken has a score.
unfoldable pub team_points_from : (String → Option ℤ) → List String → ℤ → Bool → ℤ × Bool
team_points_from score_of [] total complete = (total, complete)
team_points_from score_of (p ∷ ps) total complete =
    if str_eq p "" then team_points_from score_of ps total complete else elim (score_of p) [
      | none ↦ team_points_from score_of ps total false
      | some v ↦ team_points_from score_of ps (total +ℤ v) complete
    ]

unfoldable pub team_points : (String → Option ℤ) → Team → ℤ × Bool
unfolding team_points_from
team_points score_of t = team_points_from score_of (t.0 ∷ t.1 ∷ []) (pos 0) true

-- What the scorecard says of a court.
pub data Scored : Type 0 where
  no_score : Scored
  tie : Scored
  won : String → Scored

unfoldable pub scored : (String → Option ℤ) → CourtRow → Scored
unfolding team_points
scored score_of r =
    let (a_pts, a_full) = team_points score_of r.team_a in
    let (b_pts, b_full) = team_points score_of r.team_b in
    if a_full && b_full && (ltb_ℤ (pos 0) a_pts || ltb_ℤ (pos 0) b_pts)
    then (if ltb_ℤ b_pts a_pts
        then won "a"
        else if ltb_ℤ a_pts b_pts
        then won "b"
        else if str_eq r.winner "a" || str_eq r.winner "b"
        then won r.winner
        else tie)
    else no_score

-- The side that moves up: by the scorecard, by the tap, or team A.
unfoldable pub moving_winner : Scored → String → String
moving_winner (won w) tap = w
moving_winner tie tap = if str_eq tap "" then "a" else tap
moving_winner no_score tap = if str_eq tap "" then "a" else tap

unfoldable pub court_result : (String → Option ℤ) → CourtRow → RotResult
unfolding scored moving_winner
court_result score_of r = record {
  court = r.court;
  winner = moving_winner (scored score_of r) r.winner;
}

abbrev pub court_of : CourtRow → RotCourt
court_of r = record { court = r.court; team_a = r.team_a; team_b = r.team_b }

unfoldable pub tied_courts : (String → Option ℤ) → List CourtRow → List ℕ
unfolding scored
tied_courts score_of [] = []
tied_courts score_of (r ∷ rows) = elim (scored score_of r) [
  | no_score ↦ tied_courts score_of rows
  | tie ↦ r.court ∷ tied_courts score_of rows
  | won w ↦ tied_courts score_of rows
]
