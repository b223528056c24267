-- ===== src/Night/Moved.antt =====
-- A night whose layout is safe is never held for standing still.
use plan_my_pickle_backend.Base.{
  ℕ, ◌+◌, ◌≤◌, ◌<◌, ◌≡◌, refl, sym, ap, ◌∙◌, ◌⊎◌, inl, inr, true, false, List, [], ◌∷◌, some,
  String, str_eq, eq_iff, arith, Bool-cases, hit, hit_self, count, count-append, subst,
  some-injective,
}
use plan_my_pickle_backend.Rotation.{
  Team, RotCourt, LoserMode, RotResult, court_ids, seated, IsLayout,
}
use plan_my_pickle_backend.Rotation.Move.{next_round, winner_of}
use plan_my_pickle_backend.Rotation.Move.Conserve.{next_round-IsLayout}
use plan_my_pickle_backend.Rotation.Move.Shift.{Splits, Lands, reported}
use plan_my_pickle_backend.Rotation.Move.Climb.{next_round-winners}
use plan_my_pickle_backend.Rotation.Fair.{next_round_fair}
use plan_my_pickle_backend.Rotation.Fair.Seats.{sitter}
use plan_my_pickle_backend.Rotation.Fair.Kept.{fair_pass-at}
use plan_my_pickle_backend.Rotation.Fair.Laws.{fair-cases}
use plan_my_pickle_backend.Night.{same_layout}

hit_eq : (x y : String) → x ≡ y → hit x y ≡ 1
hit_eq x y e = ap (λ z. hit z y) e ∙ hit_self y

-- Nobody has two places around a court of a safe layout.
one_place :
    (d : RotCourt) (ds : List RotCourt) (bench : List String) (x : String)
    → IsLayout (d ∷ ds) bench
    → hit d.team_a.0 x + hit d.team_a.1 x + hit d.team_b.0 x + hit d.team_b.1 x + count x bench ≤ 1
one_place d ds bench x v = omega (
  arith,
  v.distinct x,
  count-append x (seated (d ∷ ds)) bench,
  count-append x (court_ids d) (seated ds),
)

-- Of a pair that is split, neither player sits where a team of two would have them.
Splits-apart :
    (d : RotCourt) (ds : List RotCourt) (bench : List String) (t : Team)
    → IsLayout (d ∷ ds) bench
    → Splits t d
    → ((d.team_a.1 ≡ t.1) ⊎ (0 < count t.1 bench) → ⊥)
      × ((d.team_b.0 ≡ t.0) ⊎ (0 < count t.0 bench) → ⊥)
Splits-apart d ds bench t v (inl (p, q)) =
    let one0 = one_place d ds bench t.0 v in
    let one1 = one_place d ds bench t.1 v in
    let there0 = hit_eq d.team_a.0 t.0 p in
    let there1 = hit_eq d.team_b.0 t.1 q in
    (
      λ h. elim h [
        | inl e ↦ omega (arith, one1, there1, hit_eq d.team_a.1 t.1 e)
        | inr b ↦ omega (arith, one1, there1, b)
      ],
      λ h. elim h [
        | inl e ↦ omega (arith, one0, there0, hit_eq d.team_b.0 t.0 e)
        | inr b ↦ omega (arith, one0, there0, b)
      ],
    )
Splits-apart d ds bench t v (inr (p, q)) =
    let one0 = one_place d ds bench t.0 v in
    let one1 = one_place d ds bench t.1 v in
    let there0 = hit_eq d.team_a.1 t.0 p in
    let there1 = hit_eq d.team_b.1 t.1 q in
    (
      λ h. elim h [
        | inl e ↦ omega (arith, one1, there1, hit_eq d.team_a.1 t.1 e)
        | inr b ↦ omega (arith, one1, there1, b)
      ],
      λ h. elim h [
        | inl e ↦ omega (arith, one0, there0, hit_eq d.team_b.0 t.0 e)
        | inr b ↦ omega (arith, one0, there0, b)
      ],
    )

-- The same of the first court of a layout.
Lands-apart :
    (courts : List RotCourt) (bench : List String) (t : Team)
    → IsLayout courts bench
    → Lands courts 0 t
    → ((sitter courts 0 1 ≡ some t.1) ⊎ (0 < count t.1 bench) → ⊥)
      × ((sitter courts 0 2 ≡ some t.0) ⊎ (0 < count t.0 bench) → ⊥)
Lands-apart [] bench t v (d, e, s) = cc
Lands-apart (c ∷ cs) bench t v (d, e, s) =
    let same : d ≡ c = cc in
    let (f, g) = Splits-apart c cs bench t v (subst (Splits t) same s) in
    (
      λ h. elim h [ inl p ↦ f (inl (some-injective c.team_a.1 t.1 p)) | inr b ↦ f (inr b) ],
      λ h. elim h [ inl p ↦ g (inl (some-injective c.team_b.0 t.0 p)) | inr b ↦ g (inr b) ],
    )

winner_of-cases :
    (win : ℕ → String) (c : RotCourt) → (winner_of win c ≡ c.team_a) ⊎ (winner_of win c ≡ c.team_b)
unfolding winner_of
winner_of-cases win c = elim (Bool-cases (str_eq (win c.court) "b")) [
  | inl b ↦ inr (rw b refl)
  | inr a ↦ inl (rw a refl)
]

-- A player whom the fairness pass seats is in the seat of the plain round, or on its bench.
fair-at :
    (played : String → ℕ) (courts : List RotCourt) (results : List RotResult) (bench : List String)
    (mode : LoserMode) (i : ℕ) (x : String)
    → let plain = next_round courts results bench mode in
      sitter (next_round_fair played courts results bench mode).courts 0 i ≡ some x
      → (sitter plain.courts 0 i ≡ some x) ⊎ (0 < count x plain.bench)
fair-at played courts results bench mode i x h =
    elim (fair-cases played courts results bench mode) [
      | inl e ↦ inl (ap (λ r. sitter r.courts 0 i) (sym e) ∙ h)
      | inr e ↦
          fair_pass-at played 0 i x (next_round courts results bench mode)
            (ap (λ r. sitter r.courts 0 i) (sym e) ∙ h)
    ]

-- The seats of a court that is the first of the same layout.
same_layout-seats :
    (c : RotCourt) (cs ds : List RotCourt)
    → same_layout (c ∷ cs) ds ≡ true
    → (sitter ds 0 1 ≡ some c.team_a.1) × (sitter ds 0 2 ≡ some c.team_b.0)
unfolding same_layout
same_layout-seats c cs [] e = cc
same_layout-seats c cs (d ∷ ds) e =
    let a1 : str_eq c.team_a.1 d.team_a.1 ≡ true = ground (arith, e) in
    let b0 : str_eq c.team_b.0 d.team_b.0 ≡ true = ground (arith, e) in
    (
      ap some (sym ((eq_iff c.team_a.1 d.team_a.1).0 a1)),
      ap some (sym ((eq_iff c.team_b.0 d.team_b.0).0 b0)),
    )

-- From a safe layout with a court the next one differs from it, whatever the results, the mode and the games
-- played, so the check for a layout that has not moved never holds such a night.
pub next_round_fair-moves :
    (played : String → ℕ) (c : RotCourt) (cs : List RotCourt) (results : List RotResult)
    (bench : List String) (mode : LoserMode)
    → IsLayout (c ∷ cs) bench
    → same_layout (c ∷ cs) (next_round_fair played (c ∷ cs) results bench mode).courts ≡ false
next_round_fair-moves played c cs results bench mode v =
    let plain = next_round (c ∷ cs) results bench mode in
    let fair = next_round_fair played (c ∷ cs) results bench mode in
    let (w, _, _) = next_round-IsLayout (c ∷ cs) results bench mode v in
    let lands : Lands plain.courts 0 (winner_of (reported results) c) =
      next_round-winners (c ∷ cs) results bench mode v 0 refl in
    elim (Bool-cases (same_layout (c ∷ cs) fair.courts)) [
      | inl same ↦
          let (a1, b0) = same_layout-seats c cs fair.courts same in
          elim (winner_of-cases (reported results) c) [
            | inl a ↦
                let (f, _) =
                  Lands-apart plain.courts plain.bench c.team_a w
                    (subst (Lands plain.courts 0) a lands) in
                absurd (f (fair-at played (c ∷ cs) results bench mode 1 c.team_a.1 a1))
            | inr b ↦
                let (_, g) =
                  Lands-apart plain.courts plain.bench c.team_b w
                    (subst (Lands plain.courts 0) b lands) in
                absurd (g (fair-at played (c ∷ cs) results bench mode 2 c.team_b.0 b0))
          ]
      | inr differs ↦ differs
    ]
