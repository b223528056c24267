-- ===== src/Night/Advance/Safe.antt =====
-- Whatever was read, a round that is handed over is safe to play.
use plan_my_pickle_backend.Base.{
  ℕ, suc, ◌<◌, ltb, ◌≡◌, refl, sym, ap, ◌∙◌, subst, inl, inr, Bool, true, false, not, ◌&&◌, Option,
  none, some, List, [], ◌∷◌, ◌++◌, map, String, arith, str_eq, eq_iff, ◌==◌, if◌then◌else◌,
  Bool-cases, length, count, contains, ℤ,
}
use plan_my_pickle_backend.Rotation.{
  RotCourt, LoserMode, RotResult, seated, IsLayout, layout_and_bench_ok,
}
use plan_my_pickle_backend.Rotation.Layout.{layout_and_bench_ok-iff_IsLayout}
use plan_my_pickle_backend.Rotation.Move.{Round}
use plan_my_pickle_backend.Rotation.Fair.{next_round_fair}
use plan_my_pickle_backend.Rotation.Fair.Laws.{next_round_fair_refuses, next_round_fair-IsLayout}
use plan_my_pickle_backend.Night.{same_layout, settle_departures, grow_courts, dedupe_ids}
use plan_my_pickle_backend.Night.Settle.{settle_departures-IsLayout}
use plan_my_pickle_backend.Night.Grow.{grow_courts-IsLayout}
use plan_my_pickle_backend.Night.Scorecard.{
  SessionRow, Substitution, Reads, Hold, Halt, Flow, go, halt, held, ◌>>=◌, ◌>>◌, hold_if, read,
  not_found, not_live, stale, inconsistent, too_few, paused, ended, tied, unreadable, court_of,
  court_result, tied_courts, no_courts,
}
use plan_my_pickle_backend.Night.Advance.{
  round_scores, count_round, should_stop, move_on, map_court, hand_over, reconcile, Closing,
  closing, takeovers, resolve, advance_rotation_session,
}

same_layout_refl : (cs : List RotCourt) → same_layout cs cs ≡ true
unfolding same_layout
same_layout_refl [] = refl
same_layout_refl (c ∷ cs) = ground (
  arith,
  same_layout_refl cs,
  eq_iff c.team_a.0 c.team_a.0,
  eq_iff c.team_a.1 c.team_a.1,
  eq_iff c.team_b.0 c.team_b.0,
  eq_iff c.team_b.1 c.team_b.1,
)

hold_if-eq-go :
    {B : Type 0} (b : Bool) (h : Halt) (k : Flow B) {x : B}
    → (hold_if b h >> k) ≡ go x
    → (b ≡ false) × (k ≡ go x)
hold_if-eq-go true h k e = cc
hold_if-eq-go false h k e = (refl, e)

read-eq-go :
    {A B : Type 0} (o : Option A) (h : Hold) (f : A → Flow B) {x : B}
    → (read o h >>= f) ≡ go x
    → (a : A) × (o ≡ some a) × (f a ≡ go x)
read-eq-go none h f e = cc
read-eq-go (some a) h f e = (a, refl, e)

-- A layout on which a round may be played: safe, with a court, and with nobody on it who is gone.
pub record IsPlayable (gone : List String) (next : Round) : Type 0 where
  pub layout : IsLayout next.courts next.bench
  pub some_court : 0 < length next.courts
  pub nobody_gone :
      (a : String) → (if contains gone a then count a (seated next.courts ++ next.bench) else 0) ≡ 0

-- Departures settled and courts re-opened, from a safe layout.
settled_and_grown :
    (courts : List RotCourt) (bench gone : List String) (cap : ℤ)
    → IsLayout courts bench
    → let settled = settle_departures courts bench gone in
      let next = grow_courts settled.courts settled.bench cap in
      0 < length next.courts → IsPlayable gone next
settled_and_grown courts bench gone cap v some_court =
    let settled = settle_departures courts bench gone in
    let next = grow_courts settled.courts settled.bench cap in
    let (w, left) = settle_departures-IsLayout courts bench gone v in
    let (u, same, _) = grow_courts-IsLayout settled.courts settled.bench cap w in
    record {
      layout = u;
      some_court = some_court;
      nobody_gone = λ a. ground (arith, same a, left a);
    }

module _ (s : SessionRow) (cur : Round) (results : List RotResult) (mode : LoserMode)
    (played : String → ℕ) (gone : List String) (status_again : Option String) (now : ℤ) where
  abbrev moved : Round
  moved = next_round_fair (count_round (seated cur.courts) played) cur.courts results cur.bench mode

  -- The engine refused nothing, if the layout is not the same.
  moved-IsLayout :
      0 < length cur.courts
      → same_layout cur.courts moved.courts ≡ false
      → IsLayout moved.courts moved.bench
  moved-IsLayout h differs = elim (Bool-cases (layout_and_bench_ok cur.courts cur.bench)) [
    | inl ok ↦
        (next_round_fair-IsLayout (count_round (seated cur.courts) played) cur.courts results
          cur.bench mode ((layout_and_bench_ok-iff_IsLayout cur.courts cur.bench).0 ok)).0
    | inr bad ↦
        let same : moved ≡ cur =
          next_round_fair_refuses (count_round (seated cur.courts) played) cur.courts results
            cur.bench mode
            (λ v. cc ((layout_and_bench_ok-iff_IsLayout cur.courts cur.bench).1 v)) in
        let clash : false ≡ true =
          sym differs
          ∙ ap (λ r. same_layout cur.courts r.courts) same
          ∙ same_layout_refl cur.courts in
        cc
  ]

  move_on-IsPlayable :
      {next : Round}
      → 0 < length cur.courts
      → move_on s cur results mode played gone status_again now ≡ go next
      → IsPlayable gone next
  unfolding move_on
  move_on-IsPlayable {next} h e =
      let settled = settle_departures moved.courts moved.bench gone in
      let round = grow_courts settled.courts settled.bench s.court_count in
      let (differs, e1) =
        hold_if-eq-go (not (length cur.courts == 0) && same_layout cur.courts moved.courts)
          (held (inconsistent s.current_round)) _ e in
      let (some_court, e2) = hold_if-eq-go (length round.courts == 0) (held too_few) _ e1 in
      let (_, e3) = hold_if-eq-go (should_stop s s.current_round now) ended _ e2 in
      let (_, e4) =
        hold_if-eq-go (elim status_again [ none ↦ false | some status ↦ str_eq status "paused" ])
          (held paused) _ e3 in
      let settled_again : IsPlayable gone round =
        settled_and_grown moved.courts moved.bench gone s.court_count
          (moved-IsLayout h (ground (arith, differs))) (ground (arith, some_court)) in
      let same : round ≡ next = cc in subst (IsPlayable gone) same settled_again

>>=-eq-go :
    {A B : Type 0} (m : Flow A) (f : A → Flow B) {x : B}
    → (m >>= f) ≡ go x
    → (a : A) × (m ≡ go a) × (f a ≡ go x)
>>=-eq-go (halt h) f e = cc
>>=-eq-go (go a) f e = (a, refl, e)

length-map : {A B : Type 0} (f : A → B) (xs : List A) → length (map f xs) ≡ length xs
length-map f [] = refl
length-map f (x ∷ xs) = ap suc (length-map f xs)

length-hand_over :
    (subs : List Substitution) (gone : List String) (cur : Round)
    → length (hand_over subs gone cur).courts ≡ length cur.courts
unfolding hand_over
length-hand_over [] gone cur = refl
length-hand_over (s ∷ subs) gone cur =
    let takeover = takeovers (s ∷ subs) [] in
    length-map (map_court (resolve (suc (length takeover)) gone takeover)) cur.courts

closing-eq-go :
    (r : Reads) (expected : ℕ) {c : Closing} → closing r expected ≡ go c → 0 < length c.rows
unfolding closing
closing-eq-go r expected {c} e =
    let (found, _, e1) = read-eq-go r.session unreadable _ e in
    let (s, _, e2) = read-eq-go found not_found _ e1 in
    let (_, e3) =
      hold_if-eq-go (not (str_eq s.status "live") && not (str_eq s.status "paused")) (held not_live)
        _ e2 in
    let (_, e4) = hold_if-eq-go (str_eq s.status "paused") (held paused) _ e3 in
    let (_, e5) = hold_if-eq-go (ltb 0 expected && not (expected == s.current_round)) stale _ e4 in
    let (rows, _, e6) = read-eq-go r.rows unreadable _ e5 in
    let (some_row, e7) = hold_if-eq-go (length rows == 0) (held (no_courts s.current_round)) _ e6 in
    let (score_of, _, e8) = >>=-eq-go (round_scores r) _ e7 in
    let same : rows ≡ c.rows = cc in subst (λ rs. 0 < length rs) same (ground (arith, some_row))

-- If everything is read and a round is handed over, then the round is safe, has a court, and has nobody who left.
pub advance_rotation_session-IsPlayable :
    (r : Reads) (expected : ℕ) (now : ℤ) (gone : List String) (next : Round)
    → r.gone ≡ some gone
    → advance_rotation_session r expected now ≡ go next
    → IsPlayable gone next
unfolding advance_rotation_session
advance_rotation_session-IsPlayable r expected now gone next g e =
    let (c, e1, e2) = >>=-eq-go (closing r expected) _ e in
    let (_, e3) =
      hold_if-eq-go (not (length (tied_courts c.score_of c.rows) == 0))
        (held (tied (tied_courts c.score_of c.rows))) _ e2 in
    let (subs, _, e4) = read-eq-go r.subs unreadable _ e3 in
    let (left, f, e5) = read-eq-go r.gone unreadable _ e4 in
    let (mode, _, e6) = read-eq-go r.mode unreadable _ e5 in
    let start : Round = record {
      courts = map court_of c.rows;
      bench = dedupe_ids c.session.bench;
    } in
    let cur = hand_over subs left start in
    let full : 0 < length cur.courts = ground (
      arith,
      length-hand_over subs left start,
      length-map court_of c.rows,
      closing-eq-go r expected e1,
    ) in
    let same : left ≡ gone = cc in
    subst (λ g. IsPlayable g next) same
      (move_on-IsPlayable c.session
        (record { courts = cur.courts; bench = reconcile r.active_rows cur.courts cur.bench })
        (map (court_result c.score_of) c.rows) mode r.played left r.status_again now full e6)
