-- ===== src/Night/Advance/Goes.antt =====
-- When a live night goes on: what `AdvanceRotationSession` does from a safe layout.
use plan_my_pickle_backend.Base.{
  ℕ, ◌<◌, ◌≡◌, refl, ◌&&◌, Bool, true, false, List, [], ◌∷◌, some, String, ◌==◌, arith, ℤ, length,
  not, ◌≤◌, ◌≢◌, ◌⊎◌, ◌↔◌, ap, inl, inr, ◌*◌, ◌++◌, ◌||◌, Option, none, str_eq, zero, suc,
  if◌then◌else◌, Bool-cases, eq_iff, some-injective, pos, negsuc, pos_part, ltb_ℤ, ◌+ℤ◌, ◌≤ℤ◌, ◌<ℤ◌,
}
use plan_my_pickle_backend.Rotation.{RotCourt, LoserMode, RotResult, seated, IsLayout}
use plan_my_pickle_backend.Rotation.Move.{Round}
use plan_my_pickle_backend.Rotation.Fair.{next_round_fair}
use plan_my_pickle_backend.Night.{same_layout, settle_departures, grow_courts}
use plan_my_pickle_backend.Night.Scorecard.{
  SessionRow, Halt, held, ended, inconsistent, too_few, paused, Flow, go, ◌>>◌, hold_if,
}
use plan_my_pickle_backend.Night.Advance.{move_on, count_round, should_stop}
use plan_my_pickle_backend.Night.Staying.{staying, staying_same, four_staying}
use plan_my_pickle_backend.Rotation.Fair.Laws.{next_round_fair-IsLayout}
use plan_my_pickle_backend.Night.Moved.{next_round_fair-moves}

some_court-moves :
    (played : String → ℕ) (courts : List RotCourt) (results : List RotResult) (bench : List String)
    (mode : LoserMode)
    → IsLayout courts bench
    → 0 < length courts
    → same_layout courts (next_round_fair played courts results bench mode).courts ≡ false
some_court-moves played [] results bench mode v h = absurd (omega (arith, h))
some_court-moves played (c ∷ cs) results bench mode v h =
    next_round_fair-moves played c cs results bench mode v

-- The chain comes to its end.
abbrev IsGo : {B : Type 0} → Flow B → Type 0
IsGo {B} k = (x : B) × (k ≡ go x)

hold_if_goes :
    {B : Type 0} (b : Bool) (h : Halt) (k : Flow B)
    → IsGo (hold_if b h >> k) ↔ ((b ≡ false) × IsGo k)
hold_if_goes true h k = (λ (x, e). cc, λ (e, _). cc)
hold_if_goes false h k = (λ run. (refl, run), λ (_, run). run)

-- The minutes of a round: those of the session if they are positive, else 1.
abbrev pub minutes : ℤ → ℕ
minutes (pos zero) = 1
minutes (pos (suc n)) = suc n
minutes (negsuc n) = 1

-- A time that is not after the time to stop, if there is one.
abbrev pub IsInTime : Option ℤ → ℤ → Type 0
IsInTime none end = Unit
IsInTime (some stop) end = end ≤ℤ stop

-- A night that goes on: four players stay, the planned rounds are not all played, another round ends
-- in time, and nobody has paused the session.
pub record GoesOn (s : SessionRow) (cur : Round) (gone : List String) (status : Option String)
    (now : ℤ) : Type 0 where
  pub enough : 4 ≤ staying gone (seated cur.courts ++ cur.bench)
  pub rounds_left : (s.planned_rounds ≤ℤ pos 0) ⊎ (pos s.current_round <ℤ s.planned_rounds)
  pub in_time : IsInTime s.stop_at (now +ℤ pos (60000000000 * minutes s.round_minutes))
  pub not_paused : status ≢ some "paused"

minutes_set : (z : ℤ) → (if ltb_ℤ (pos 0) z then pos_part z else 1) ≡ minutes z
minutes_set (pos zero) = ground arith
minutes_set (pos (suc n)) = ground arith
minutes_set (negsuc n) = ground arith

abbrev is_late : Option ℤ → ℤ → Bool
is_late stop end = elim stop [ none ↦ false | some at ↦ ltb_ℤ at end ]

not_late : (stop : Option ℤ) (end : ℤ) → (is_late stop end ≡ false) ↔ IsInTime stop end
not_late none end = (λ _. tt, λ _. refl)
not_late (some stop) end = (λ h. ground arith, λ h. ground arith)

abbrev reached : SessionRow → ℕ → Bool
reached s closed = ltb_ℤ (pos 0) s.planned_rounds && not (ltb_ℤ (pos closed) s.planned_rounds)

should_stop_lem :
    (s : SessionRow) (closed : ℕ) (now : ℤ)
    → should_stop s closed now
      ≡ (reached s closed || is_late s.stop_at (now +ℤ pos (60000000000 * minutes s.round_minutes)))
unfolding should_stop
should_stop_lem s closed now =
    ap (λ m. reached s closed || is_late s.stop_at (now +ℤ pos (60000000000 * m)))
      (minutes_set s.round_minutes)

should_stop-false :
    (s : SessionRow) (now : ℤ)
    → (should_stop s s.current_round now ≡ false) ↔ (
        ((s.planned_rounds ≤ℤ pos 0) ⊎ (pos s.current_round <ℤ s.planned_rounds))
        × IsInTime s.stop_at (now +ℤ pos (60000000000 * minutes s.round_minutes)))
should_stop-false s now =
    let end = now +ℤ pos (60000000000 * minutes s.round_minutes) in
    let (there, back) = not_late s.stop_at end in
    rw (should_stop_lem s s.current_round now) (
      λ h. (ground arith, there (ground arith)),
      λ (rounds, time). let quiet = back time in ground arith,
    )

abbrev is_paused : Option String → Bool
is_paused none = false
is_paused (some now) = str_eq now "paused"

not_paused_status : (status : Option String) → (is_paused status ≡ false) ↔ (status ≢ some "paused")
not_paused_status none = (λ _ e. cc, λ _. refl)
not_paused_status (some now) = (
  λ h e. let t = (eq_iff now "paused").1 (some-injective _ _ e) in cc,
  λ ne. elim (Bool-cases (str_eq now "paused")) [
    | inl t ↦ absurd (ne (ap some ((eq_iff now "paused").0 t)))
    | inr f ↦ f
  ],
)

-- From a safe layout with a court: a round is handed over exactly if four players or more are not
-- gone, the planned rounds are not all played (or none are planned), the next round would not end
-- after the time to stop (if there is one), and the status does not read paused.
pub move_on-iff_GoesOn :
    (s : SessionRow) (cur : Round) (results : List RotResult) (mode : LoserMode)
    (played : String → ℕ) (gone : List String) (status : Option String) (now : ℤ)
    → IsLayout cur.courts cur.bench
    → 0 < length cur.courts
    → ((next : Round) × (move_on s cur results mode played gone status now ≡ go next))
      ↔ GoesOn s cur gone status now
unfolding move_on
move_on-iff_GoesOn s cur results mode played gone status now v h =
    let counted = count_round (seated cur.courts) played in
    let moved = next_round_fair counted cur.courts results cur.bench mode in
    let settled = settle_departures moved.courts moved.bench gone in
    let next = grow_courts settled.courts settled.bench s.court_count in
    let (w, same, _) = next_round_fair-IsLayout counted cur.courts results cur.bench mode v in
    let (staying4, court) = four_staying moved.courts moved.bench gone s.court_count w in
    let alike =
      staying_same gone (seated moved.courts ++ moved.bench) (seated cur.courts ++ cur.bench)
        same in
    let differs = some_court-moves counted cur.courts results cur.bench mode v h in
    let stops = should_stop-false s now in
    let quiet = not_paused_status status in
    let pause = is_paused status in
    let k3 = hold_if pause (held paused) >> go next in
    let k2 = hold_if (should_stop s s.current_round now) ended >> k3 in
    let k1 = hold_if (length next.courts == 0) (held too_few) >> k2 in
    let moves : (not (length cur.courts == 0) && same_layout cur.courts moved.courts) ≡ false =
      ground (arith, differs) in
    let stay = held (inconsistent s.current_round) in
    (
      λ run.
          let (_, run1) =
            (hold_if_goes (not (length cur.courts == 0) && same_layout cur.courts moved.courts) stay
                k1).0
              run in
          let (left, run2) = (hold_if_goes (length next.courts == 0) (held too_few) k2).0 run1 in
          let (on, run3) = (hold_if_goes (should_stop s s.current_round now) ended k3).0 run2 in
          let (free, _) = (hold_if_goes pause (held paused) (go next)).0 run3 in
          record {
            enough = omega (arith, alike, staying4 (ground (arith, left)));
            rounds_left = (stops.0 on).0;
            in_time = (stops.0 on).1;
            not_paused = quiet.0 free;
          },
      λ g.
          let left = court (omega (arith, alike, g.enough)) in
          (hold_if_goes (not (length cur.courts == 0) && same_layout cur.courts moved.courts) stay
              k1).1
            (
              moves,
              (hold_if_goes (length next.courts == 0) (held too_few) k2).1 (
                ground (arith, left),
                (hold_if_goes (should_stop s s.current_round now) ended k3).1 (
                  stops.1 (g.rounds_left, g.in_time),
                  (hold_if_goes pause (held paused) (go next)).1
                      (quiet.1 g.not_paused, (next, refl)),
                ),
              ),
            ),
    )
