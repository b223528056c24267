-- ===== src/Night/Advance.antt =====
-- `AdvanceRotationSession`: the step from one round of a live night to the next. What it reads from
-- the database is the record `Reads`, where a failed read is `none`; what it hands to the database
-- is the result.
pub mod Safe
pub mod Goes
use plan_my_pickle_backend.Base.{
  ℕ, zero, suc, ◌+◌, ◌*◌, Bool, true, false, not, ◌&&◌, ◌||◌, Option, none, some, List, [], ◌∷◌,
  ◌++◌, map, String, str_eq, ltb, leb, ◌==◌, if◌then◌else◌, length, contains, ℤ, pos, pos_part,
  ◌+ℤ◌, ltb_ℤ,
}
use plan_my_pickle_backend.Rotation.{Team, RotCourt, LoserMode, RotResult, court_ids, seated}
use plan_my_pickle_backend.Rotation.Move.{Round}
use plan_my_pickle_backend.Rotation.Fair.{next_round_fair}
use plan_my_pickle_backend.Night.{same_layout, dedupe_ids, settle_departures, grow_courts}
use plan_my_pickle_backend.Night.Scorecard.{
  SessionRow, CourtRow, Substitution, PlayerRow, Reads, Hold, unreadable, not_found, not_live,
  paused, no_courts, tied, inconsistent, too_few, Halt, held, stale, ended, Flow, halt, go, ◌>>=◌,
  ◌>>◌, hold_if, read, add_scores, Scored, no_score, tie, won, scored, court_result, court_of,
  tied_courts,
}

-- A Go `map[string]string` as an association list without repeated keys.
unfoldable pub takeover_put : List (String × String) → String → String → List (String × String)
takeover_put [] k v = (k, v) ∷ []
takeover_put ((j, w) ∷ m) k v = if str_eq j k then (j, v) ∷ m else (j, w) ∷ takeover_put m k v

unfoldable pub takeover_get : List (String × String) → String → Option String
takeover_get [] k = none
takeover_get ((j, w) ∷ m) k = if str_eq j k then some w else takeover_get m k

unfoldable pub takeovers : List Substitution → List (String × String) → List (String × String)
unfolding takeover_put
takeovers [] m = m
takeovers (s ∷ subs) m = takeovers subs (takeover_put m s.out_player s.in_player)

-- Follows the handovers of those who have left, `hops` at most.
unfoldable pub resolve : ℕ → List String → List (String × String) → String → String
unfolding takeover_get
resolve zero gone takeover id = id
resolve (suc hops) gone takeover id =
    elim (if contains gone id then takeover_get takeover id else none) [
      | none ↦ id
      | some next ↦ resolve hops gone takeover next
    ]

abbrev pub map_court : (String → String) → RotCourt → RotCourt
map_court f c = record c {
  team_a = (f c.team_a.0, f c.team_a.1);
  team_b = (f c.team_b.0, f c.team_b.1);
}

-- The queue without those who are blank, seated, or in it already.
unfoldable pub requeue : List String → List String → List String → List String
requeue on queued [] = []
requeue on queued (x ∷ bench) =
    if str_eq x "" || contains on x || contains queued x
    then requeue on queued bench
    else x ∷ requeue on (x ∷ queued) bench

-- The substitutes in the seats and the places of those they took over from.
unfoldable pub hand_over : List Substitution → List String → Round → Round
unfolding takeovers resolve requeue
hand_over [] gone cur = cur
hand_over (s ∷ subs) gone cur =
    let takeover = takeovers (s ∷ subs) [] in
    let f = resolve (suc (length takeover)) gone takeover in
    let courts = map (map_court f) cur.courts in
    record { courts = courts; bench = requeue (seated courts) [] (map f cur.bench) }

-- The ids of the rows that are active.
unfoldable pub active_ids : List PlayerRow → List String
active_ids [] = []
active_ids (r ∷ rows) =
    if not (str_eq r.id "") && r.active then r.id ∷ active_ids rows else active_ids rows

unfoldable pub kept : List String → List String → List String
kept active [] = []
kept active (x ∷ bench) = if contains active x then x ∷ kept active bench else kept active bench

-- The active players who are neither seated nor on the bench, in the order of the rows.
unfoldable pub arrivals : List String → List String → List String → List PlayerRow → List String
arrivals active on bench [] = []
arrivals active on bench (r ∷ rows) =
    if not (str_eq r.id "")
      && contains active r.id
      && not (contains on r.id)
      && not (contains bench r.id)
    then r.id ∷ arrivals active on bench rows
    else arrivals active on bench rows

-- The bench against the live roster; as it is if the roster cannot be read.
unfoldable pub reconcile : Option (List PlayerRow) → List RotCourt → List String → List String
unfolding active_ids kept arrivals
reconcile none courts bench = bench
reconcile (some rows) courts bench =
    kept (active_ids rows) bench ++ arrivals (active_ids rows) (seated courts) bench rows

-- The games played with the round that is being closed.
unfoldable pub count_round : List String → (String → ℕ) → String → ℕ
count_round [] m = m
count_round (x ∷ xs) m =
    count_round xs (if str_eq x "" then m else λ q. if str_eq q x then m q + 1 else m q)

-- Whether the night ends with the round `closed`; `now` and `stop_at` are in nanoseconds.
unfoldable pub should_stop : SessionRow → ℕ → ℤ → Bool
should_stop s closed now =
    let mins = if ltb_ℤ (pos 0) s.round_minutes then pos_part s.round_minutes else 1 in
    (ltb_ℤ (pos 0) s.planned_rounds && not (ltb_ℤ (pos closed) s.planned_rounds))
    || elim s.stop_at [ none ↦ false | some stop ↦ ltb_ℤ stop (now +ℤ pos (60000000000 * mins)) ]

-- From the engine's move to the hand-over.
unfoldable pub move_on :
    SessionRow
    → Round
    → List RotResult
    → LoserMode
    → (String → ℕ)
    → List String
    → Option String
    → ℤ
    → Flow Round
unfolding count_round should_stop
move_on s cur results mode played gone status_again now =
    let moved =
      next_round_fair (count_round (seated cur.courts) played) cur.courts results cur.bench mode in
    let settled = settle_departures moved.courts moved.bench gone in
    let next = grow_courts settled.courts settled.bench s.court_count in
    do
      hold_if (not (length cur.courts == 0) && same_layout cur.courts moved.courts)
          (held (inconsistent s.current_round))
      hold_if (length next.courts == 0) (held too_few)
      hold_if (should_stop s s.current_round now) ended
      hold_if (elim status_again [ none ↦ false | some status ↦ str_eq status "paused" ])
          (held paused)
      go next

-- The scores of the round; none of anybody where the scorecard is not there.
unfoldable pub round_scores : Reads → Flow (String → Option ℤ)
unfolding add_scores
round_scores r = do
  ready ← read r.scores_ready unreadable
  rows ← (if ready then read r.scores unreadable else go [])
  go (add_scores rows (λ _. none))

-- The round that is to be closed.
pub record Closing : Type 0 where
  pub session : SessionRow
  pub rows : List CourtRow
  pub score_of : String → Option ℤ

-- The guards, and the reads of the round; `expected` is the round that the caller saw, 0 for any.
unfoldable pub closing : Reads → ℕ → Flow Closing
unfolding round_scores
closing r expected = do
  found ← read r.session unreadable
  s ← read found not_found
  hold_if (not (str_eq s.status "live") && not (str_eq s.status "paused")) (held not_live)
  hold_if (str_eq s.status "paused") (held paused)
  hold_if (ltb 0 expected && not (expected == s.current_round)) stale
  rows ← read r.rows unreadable
  hold_if (length rows == 0) (held (no_courts s.current_round))
  score_of ← round_scores r
  go (record { session = s; rows = rows; score_of = score_of })

-- The winners that the scorecard decides, which are written back court by court.
unfoldable pub decided_winners : (String → Option ℤ) → List CourtRow → List (ℕ × String)
unfolding scored
decided_winners score_of [] = []
decided_winners score_of (r ∷ rows) = elim (scored score_of r) [
  | no_score ↦ decided_winners score_of rows
  | tie ↦ decided_winners score_of rows
  | won w ↦ (r.court, w) ∷ decided_winners score_of rows
]

-- What a call writes to the round's courts; a write that fails is not noticed.
unfoldable pub winner_writes : Reads → ℕ → List (ℕ × String)
unfolding closing decided_winners
winner_writes r expected = elim (closing r expected) [
  | halt h ↦ []
  | go c ↦ decided_winners c.score_of c.rows
]

-- The layout of the next round, or why there is none.
unfoldable pub advance_rotation_session : Reads → ℕ → ℤ → Flow Round
unfolding closing tied_courts court_result hand_over reconcile move_on
advance_rotation_session r expected now = do
  c ← closing r expected
  hold_if (not (length (tied_courts c.score_of c.rows) == 0))
      (held (tied (tied_courts c.score_of c.rows)))
  subs ← read r.subs unreadable
  gone ← read r.gone unreadable
  let cur =
      hand_over subs gone
        (record { courts = map court_of c.rows; bench = dedupe_ids c.session.bench })
  let bench = reconcile r.active_rows cur.courts cur.bench
  mode ← read r.mode unreadable
  move_on c.session (record { courts = cur.courts; bench = bench })
      (map (court_result c.score_of) c.rows) mode r.played gone r.status_again now
