-- ===== src/Examples/Nights.antt =====
-- A live night: the reads of one call that advances it.
use plan_my_pickle_backend.Base.{
  ℕ, ◌↔◌, ◌*◌, arith, false, ◌≡◌, refl, true, List, [], ◌∷◌, ◌++◌, some, none, String,
  if◌then◌else◌, pos, contains, hit, count, ◌+ℤ◌, sort_stable, insert_stable,
}
use plan_my_pickle_backend.Rotation.{
  losers_down, seated, scan_ids, scan_courts, layout_and_bench_ok, layout_ok, IsLayout,
}
use plan_my_pickle_backend.Rotation.Layout.{layout_and_bench_ok-iff_IsLayout}
use plan_my_pickle_backend.Rotation.Move.{
  win_map, winner_of, loser_of, enter, collect_teams, bye_swap, from_above, from_below, next_court,
  no_teams, teams_of, next_round, Round, min2,
}
use plan_my_pickle_backend.Rotation.Fair.{
  next_round_fair, fair_pass, swap_loop, busier, rested, put_id, set_seat, bench_ok, waiting_still,
}
use plan_my_pickle_backend.Night.{
  same_layout, dedupe_from, dedupe_ids, not_left, survivors, fill_seat, fill_court, fill_courts,
  settle_loop, settle_departures, grow_courts,
}
use plan_my_pickle_backend.Night.Scorecard.{
  go, SessionRow, Reads, scored, court_result, tied_courts, add_scores, team_points,
  team_points_from, moving_winner,
}
use plan_my_pickle_backend.Night.Settle.{settle_departures-IsLayout}
use plan_my_pickle_backend.Night.Advance.{
  takeover_put, takeover_get, takeovers, resolve, requeue, hand_over, active_ids, kept, arrivals,
  reconcile, count_round, should_stop, move_on, round_scores, closing, decided_winners,
  winner_writes, advance_rotation_session,
}
use plan_my_pickle_backend.Night.Moved.{next_round_fair-moves}
use plan_my_pickle_backend.Night.Advance.Goes.{GoesOn, move_on-iff_GoesOn}
use plan_my_pickle_backend.Night.Advance.Safe.{IsPlayable, advance_rotation_session-IsPlayable}
use plan_my_pickle_backend.Examples.Courts.{
  court1, court2, results, courts, bench, played, courts-IsLayout,
}

abbrev gone : List String
gone = "p2" ∷ []

abbrev session : SessionRow
session = record {
  status = "live";
  current_round = 3;
  bench = bench;
  court_count = pos 2;
  planned_rounds = pos 0;
  stop_at = none;
  round_minutes = pos 12;
}

-- Side b has won court 1 by the scorecard, side a court 2 by the tap; p2 has left.
abbrev reads : Reads
reads = record {
  session = some (some session);
  rows = some (
      record { court = 1; team_a = ("p1", "p3"); team_b = ("p2", "p4"); winner = "" }
      ∷ record { court = 2; team_a = ("p5", "p7"); team_b = ("p6", "p8"); winner = "a" }
      ∷ []);
  scores_ready = some true;
  scores = some (
      ("p1", some (pos 7))
      ∷ ("p3", some (pos 7))
      ∷ ("p2", some (pos 11))
      ∷ ("p4", some (pos 11))
      ∷ []);
  subs = some [];
  gone = some gone;
  active_rows = none;
  mode = some losers_down;
  played = played;
  status_again = some "live";
}

abbrev next : Round
next = record {
  courts =
      record { court = 1; team_a = ("p5", "p6"); team_b = ("p7", "p4") }
      ∷ record { court = 2; team_a = ("p9", "p1"); team_b = ("p8", "p3") }
      ∷ [];
  bench = [];
}

advance_example : IsPlayable gone next
unfolding next_round_fair fair_pass swap_loop busier rested sort_stable insert_stable min2 put_id
    set_seat bench_ok waiting_still win_map winner_of loser_of enter collect_teams bye_swap
    from_above from_below next_court no_teams teams_of next_round same_layout dedupe_from dedupe_ids
    not_left survivors fill_seat fill_court fill_courts settle_loop settle_departures grow_courts
    takeover_put takeover_get takeovers resolve requeue hand_over active_ids kept arrivals reconcile
    count_round should_stop move_on round_scores closing decided_winners winner_writes
    advance_rotation_session scan_ids scan_courts layout_and_bench_ok layout_ok scored court_result
    tied_courts add_scores team_points team_points_from moving_winner ◌+ℤ◌ hit
advance_example = advance_rotation_session-IsPlayable reads 3 (pos 0) gone next refl refl

settled_example :
    let settled = settle_departures courts bench gone in
    IsLayout settled.courts settled.bench
    × ((a : String)
        → count a (seated settled.courts ++ settled.bench)
          ≡ (if contains gone a then 0 else count a (seated courts ++ bench)))
settled_example = settle_departures-IsLayout courts bench gone courts-IsLayout

abbrev queue : List String
queue = "p9" ∷ "p10" ∷ "p11" ∷ "p12" ∷ "p13" ∷ []

queue-IsLayout : IsLayout courts queue
unfolding layout_and_bench_ok scan_courts scan_ids
queue-IsLayout = (layout_and_bench_ok-iff_IsLayout courts queue).0 refl

moves_example :
    same_layout courts (next_round_fair played courts results bench losers_down).courts ≡ false
moves_example =
    next_round_fair-moves played court1 (court2 ∷ []) results bench losers_down courts-IsLayout

abbrev closed : Round
closed = record { courts = courts; bench = bench }

-- Round 3 of 5, with a time to stop some minutes from now.
abbrev closing_at : ℕ → SessionRow
closing_at minutes = record session {
  planned_rounds = pos 5;
  stop_at = some (pos (60000000000 * minutes));
}

goes_example :
    ((after : Round) × (move_on
          (closing_at 20)
          closed
          results
          losers_down
          played
          gone
          (some "live")
          (pos 0)
        ≡ go after))
    ↔ GoesOn (closing_at 20) closed gone (some "live") (pos 0)
goes_example =
    move_on-iff_GoesOn (closing_at 20) closed results losers_down played gone (some "live") (pos 0)
      courts-IsLayout (omega arith)
