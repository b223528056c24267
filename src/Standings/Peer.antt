-- ===== src/Standings/Peer.antt =====
-- The tie-break of two rows with as many wins.
use plan_my_pickle_backend.Base.{
  ℕ, ◌<◌, ◌≡◌, ◌≢◌, ◌⊎◌, refl, inl, inr, true, false, List, [], ◌∷◌, String, Bool-cases, All, ◌==◌,
  if◌then◌else◌, total, arith, ◌<ℤ◌, eqb_ℤ, eq_of_parts,
}
use plan_my_pickle_backend.Schedule.Mixer.{str_ltb}
use plan_my_pickle_backend.Standings.{Standing, HeadToHead, versus, group_wins, wins_tie}

-- The head-to-head wins of a player over those in the table who have `w` wins.
abbrev pub peer_wins : HeadToHead → List Standing → ℕ → String → ℕ
peer_wins h table w a = total (λ b. if b.wins == w then versus h a b else 0) table

-- The tie-break of two peers, each step of it where those before are even: head-to-head wins, then
-- point difference, then points, then the id.
abbrev pub IsTieOver : (String → ℕ) → Standing → Standing → Type 0
IsTieOver gw a b =
    (gw b.player_id < gw a.player_id)
    ⊎ ((gw b.player_id ≡ gw a.player_id)
        × ((b.point_diff <ℤ a.point_diff)
            ⊎ ((b.point_diff ≡ a.point_diff)
                × ((b.points_for < a.points_for)
                    ⊎ ((b.points_for ≡ a.points_for)
                        × (str_ltb b.player_id a.player_id ≡ false))))))

pub not_wins_tie :
    (gw : String → ℕ) (a b : Standing) → wins_tie false gw b a ≡ false → IsTieOver gw a b
unfolding wins_tie
not_wins_tie gw a b h = elim (Bool-cases (gw b.player_id == gw a.player_id)) [
  | inr ne ↦ inl (ground (arith, ne, h))
  | inl e ↦ elim (Bool-cases (eqb_ℤ b.point_diff a.point_diff)) [
    | inr ne ↦ inr (ground (arith, e), inl (ground (arith, ne, h, e)))
    | inl e' ↦ elim (Bool-cases (b.points_for == a.points_for)) [
      | inr ne ↦ inr (
        ground (arith, e),
        inr (
          eq_of_parts b.point_diff a.point_diff (ground (arith, e')),
          inl (ground (arith, ne, h, e, e')),
        ),
      )
      | inl e'' ↦ inr (
        ground (arith, e),
        inr (
          eq_of_parts b.point_diff a.point_diff (ground (arith, e')),
          inr (ground (arith, e''), ground (arith, h, e, e', e'')),
        ),
      )
    ]
  ]
]

-- A row may stand right above another: it has more wins, or as many and the tie-break for it.
abbrev pub IsRankedOver : HeadToHead → List Standing → Standing → Standing → Type 0
IsRankedOver h table a b =
    (b.wins < a.wins) ⊎ ((b.wins ≡ a.wins) × IsTieOver (peer_wins h table a.wins) a b)

pub peer_wins-same :
    (h : HeadToHead) (w : ℕ) (a : String) (grp : List Standing)
    → All (λ y. y.wins ≡ w) grp
    → peer_wins h grp w a ≡ group_wins h grp a
peer_wins-same h w a [] same = refl
peer_wins-same h w a (y ∷ grp) same =
    let e : (y.wins == w) ≡ true = ground (arith, same.0) in
    rw e (omega (arith, peer_wins-same h w a grp same.1))

pub peer_wins-none :
    (h : HeadToHead) (w : ℕ) (a : String) (grp : List Standing)
    → All (λ y. y.wins ≢ w) grp
    → peer_wins h grp w a ≡ 0
peer_wins-none h w a [] apart = refl
peer_wins-none h w a (y ∷ grp) apart =
    let e : (y.wins == w) ≡ false = ground (arith, apart.0) in
    rw e (omega (arith, peer_wins-none h w a grp apart.1))

pub All-both {ℓ κ} :
    {A : Type ℓ} (P Q : A → Type κ) (xs : List A) → All P xs → All Q xs → All (λ x. P x × Q x) xs
All-both P Q [] p q = tt
All-both P Q (x ∷ xs) p q = ((p.0, q.0), All-both P Q xs p.1 q.1)
