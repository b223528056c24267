-- ===== src/Scoring/Loop.antt =====
-- The loop of `validateSeries` over the games, from a tally that is still open.
use plan_my_pickle_backend.Base.{
  ◌≢◌, ℕ, suc, ◌+◌, ◌-◌, ◌<◌, ◌≡◌, refl, ◌⊎◌, inl, inr, true, false, not, none, arith, List, [],
  ◌∷◌, leb, ◌==◌, ◌&&◌, ◌||◌, sym, ◌∙◌, +ℤ_zero, +ℤ_assoc, length, All, Option-cases, if◌then◌else◌,
  ℤ, pos, ◌+ℤ◌, +ℤ_parts, eq_of_parts,
}
use plan_my_pickle_backend.Scoring.{
  GameScore, Outcome, Tally, accepted, refused, validate_game, check_games, add_game, conclude,
  already_decided,
}
use plan_my_pickle_backend.Scoring.Game.{IsLegal, validate_game-iff_IsLegal}
use plan_my_pickle_backend.Scoring.Decided.{
  wins1, wins2, points1, points2, last_to_team1, IsDecided,
}

module _ (best n needed : ℕ) (ptw win_by : ℤ) where
  -- What the loop has established when it accepts, for a tally that is still open.
  pub record Holds (gs : List GameScore) (t : Tally) (o : Outcome) : Type 0 where
    pub legal : All (λ g. IsLegal g.team1 g.team2 ptw win_by) gs
    pub decided :
        IsDecided needed (t.wins1 + wins1 gs) (t.wins2 + wins2 gs) (last_to_team1 gs) o.winner
    pub total1 : o.total1 ≡ t.points1 +ℤ points1 gs
    pub total2 : o.total2 ≡ t.points2 +ℤ points2 gs

  conclude_open :
      (t : Tally) {o : Outcome}
      → t.wins1 < needed
      → t.wins2 < needed
      → conclude best needed t ≢ accepted o
  unfolding conclude
  conclude_open t a b h = ground arith

  check_games_illegal :
      (g : GameScore) (gs : List GameScore) (i : ℕ) (t : Tally)
      → validate_game g.team1 g.team2 ptw win_by ≢ none
      → {o : Outcome} → check_games best n needed ptw win_by (g ∷ gs) i t ≢ accepted o
  unfolding check_games
  check_games_illegal g gs i t bad h = ground arith

  check_games_legal :
      (g : GameScore) (gs : List GameScore) (i : ℕ) (t : Tally)
      → validate_game g.team1 g.team2 ptw win_by ≡ none
      → check_games best n needed ptw win_by (g ∷ gs) i t ≡ (
          if (leb needed (add_game g t).wins1 || leb needed (add_game g t).wins2)
            && not (i == n - 1)
          then refused already_decided
          else check_games best n needed ptw win_by gs (i + 1) (add_game g t))
  unfolding check_games
  check_games_legal g gs i t e = rw (e, check_games)

  Holds-last :
      (g : GameScore) (t : Tally) (o : Outcome)
      → IsLegal g.team1 g.team2 ptw win_by
      → t.wins1 < needed
      → t.wins2 < needed
      → conclude best needed (add_game g t) ≡ accepted o
      → Holds (g ∷ []) t o
  unfolding conclude add_game
  Holds-last g t o l a b h = record {
    legal = (l, tt);
    decided = ground arith;
    total1 = ground (arith, eq_of_parts (g.team1 +ℤ pos 0) g.team1, +ℤ_parts g.team1 (pos 0));
    total2 = ground (arith, eq_of_parts (g.team2 +ℤ pos 0) g.team2, +ℤ_parts g.team2 (pos 0));
  }

  Holds-cons :
      (g h : GameScore) (gs : List GameScore) (t : Tally) (o : Outcome)
      → IsLegal g.team1 g.team2 ptw win_by
      → Holds (h ∷ gs) (add_game g t) o
      → Holds (g ∷ h ∷ gs) t o
  unfolding add_game
  Holds-cons g h gs t o l v = record {
    legal = (l, v.legal);
    decided = ground (arith, v.decided);
    total1 = v.total1 ∙ +ℤ_assoc t.points1 g.team1 (points1 (h ∷ gs));
    total2 = v.total2 ∙ +ℤ_assoc t.points2 g.team2 (points2 (h ∷ gs));
  }

  check_games-nil :
      (i : ℕ) (t : Tally) → check_games best n needed ptw win_by [] i t ≡ conclude best needed t
  unfolding check_games
  check_games-nil i t = refl

  -- Before the last game the loop goes on only while neither side has clinched.
  still_open :
      (g : GameScore) (gs : List GameScore) (i : ℕ) (t : Tally) (o : Outcome)
      → validate_game g.team1 g.team2 ptw win_by ≡ none
      → suc i < n
      → check_games best n needed ptw win_by (g ∷ gs) i t ≡ accepted o
      → ((add_game g t).wins1 < needed)
        × ((add_game g t).wins2 < needed)
        × (check_games best n needed ptw win_by gs (i + 1) (add_game g t) ≡ accepted o)
  still_open g gs i t o fine more h = ground (arith, check_games_legal g gs i t fine)

  pub check_games-Holds :
      (gs : List GameScore) (i : ℕ) (t : Tally) (o : Outcome)
      → i + length gs ≡ n
      → t.wins1 < needed
      → t.wins2 < needed
      → check_games best n needed ptw win_by gs i t ≡ accepted o
      → Holds gs t o
  check_games-Holds [] i t o e a b h = absurd (conclude_open t a b (sym (check_games-nil i t) ∙ h))
  check_games-Holds (g ∷ []) i t o e a b h =
      elim (Option-cases (validate_game g.team1 g.team2 ptw win_by)) [
        | inr (x, bad) ↦ absurd (check_games_illegal g [] i t (λ q. cc) h)
        | inl fine ↦
            Holds-last g t o ((validate_game-iff_IsLegal g.team1 g.team2 ptw win_by).0 fine) a b (
              ground
                (arith, check_games_legal g [] i t fine, check_games-nil (i + 1) (add_game g t)))
      ]
  check_games-Holds (g ∷ h ∷ gs) i t o e a b q =
      elim (Option-cases (validate_game g.team1 g.team2 ptw win_by)) [
        | inr (x, bad) ↦ absurd (check_games_illegal g (h ∷ gs) i t (λ q'. cc) q)
        | inl fine ↦
            let t' : Tally = add_game g t in
            let (open1, open2, go_on) = still_open g (h ∷ gs) i t o fine (omega arith) q in
            Holds-cons g h gs t o ((validate_game-iff_IsLegal g.team1 g.team2 ptw win_by).0 fine)
              (check_games-Holds (h ∷ gs) (i + 1) t' o (omega arith) open1 open2 go_on)
      ]

  Outcome_eq :
      (o : Outcome) (w : ℕ) (a b : ℤ)
      → o.winner ≡ w
      → o.total1 ≡ a
      → o.total2 ≡ b
      → o ≡ record { winner = w; total1 = a; total2 = b }
  Outcome_eq o w a b p q r = λ i. record { winner = p i; total1 = q i; total2 = r i }

  Holds-conclude :
      (g : GameScore) (t : Tally) (o : Outcome)
      → Holds (g ∷ []) t o
      → conclude best needed (add_game g t) ≡ accepted o
  unfolding conclude add_game
  Holds-conclude g t o v = ground (
    arith,
    v.decided,
    +ℤ_zero g.team1,
    +ℤ_zero g.team2,
    Outcome_eq o 1 (t.points1 +ℤ g.team1) (t.points2 +ℤ g.team2),
    Outcome_eq o 2 (t.points1 +ℤ g.team1) (t.points2 +ℤ g.team2),
  )

  Holds-tail :
      (g h : GameScore) (gs : List GameScore) (t : Tally) (o : Outcome)
      → Holds (g ∷ h ∷ gs) t o
      → Holds (h ∷ gs) (add_game g t) o
  unfolding add_game
  Holds-tail g h gs t o v = record {
    legal = v.legal.1;
    decided = ground (arith, v.decided);
    total1 = v.total1 ∙ sym (+ℤ_assoc t.points1 g.team1 (points1 (h ∷ gs)));
    total2 = v.total2 ∙ sym (+ℤ_assoc t.points2 g.team2 (points2 (h ∷ gs)));
  }

  -- A side that wins the last game has one win there.
  last-le-wins :
      (h : GameScore) (gs : List GameScore)
      → ((last_to_team1 (h ∷ gs) ≡ true) × (0 < wins1 (h ∷ gs)))
        ⊎ ((last_to_team1 (h ∷ gs) ≡ false) × (0 < wins2 (h ∷ gs)))
  last-le-wins h [] = ground arith
  last-le-wins h (k ∷ gs) = ground (arith, last-le-wins k gs)

  -- So neither side has clinched before the last game.
  Holds-open :
      (g h : GameScore) (gs : List GameScore) (t : Tally) (o : Outcome)
      → Holds (g ∷ h ∷ gs) t o
      → ((add_game g t).wins1 < needed) × ((add_game g t).wins2 < needed)
  unfolding add_game
  Holds-open g h gs t o v = ground (arith, v.decided, last-le-wins h gs)

  pub Holds-check_games :
      (gs : List GameScore) (i : ℕ) (t : Tally) (o : Outcome)
      → i + length gs ≡ n
      → 0 < length gs
      → Holds gs t o
      → check_games best n needed ptw win_by gs i t ≡ accepted o
  Holds-check_games [] i t o e some_game v = absurd (omega arith)
  Holds-check_games (g ∷ []) i t o e some_game v =
      let fine = (validate_game-iff_IsLegal g.team1 g.team2 ptw win_by).1 v.legal.0 in
      ground (
        arith,
        check_games_legal g [] i t fine,
        check_games-nil (i + 1) (add_game g t),
        Holds-conclude g t o v,
      )
  Holds-check_games (g ∷ h ∷ gs) i t o e some_game v =
      let fine = (validate_game-iff_IsLegal g.team1 g.team2 ptw win_by).1 v.legal.0 in
      let ih =
        Holds-check_games (h ∷ gs) (i + 1) (add_game g t) o (omega arith) (omega arith)
          (Holds-tail g h gs t o v) in
      ground (arith, check_games_legal g (h ∷ gs) i t fine, Holds-open g h gs t o v, ih)
