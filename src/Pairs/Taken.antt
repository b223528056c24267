-- ===== src/Pairs/Taken.antt =====
-- The pairs of partners: nobody is in two of them, and everybody in them is registered.
use plan_my_pickle_backend.Base.{
  ◌+◌, ◌≤◌, ◌<◌, ◌≡◌, ◌≢◌, ◌⊎◌, refl, sym, ap, ◌∙◌, inl, inr, true, false, not, ◌&&◌, List, [], ◌∷◌,
  ◌++◌, String, str_eq, Bool-cases, All, append-All, length, contains, count, count-append,
  contains-count, not_contains-count, hit_ne, hit-cases, hit-le, arith, ltb,
}
use plan_my_pickle_backend.Pairs.{Reg, team_members, partners, partner_pairs}

-- A team has two members.
abbrev pub IsPair : List String → Type 0
IsPair p = length p ≡ 2

-- Nobody is registered as the own partner.
abbrev pub HasOthers : List Reg → Type 0
HasOthers regs = All (λ r. r.player_id ≢ r.partner_id) regs

pub team_members-append :
    (a : String) (ps qs : List (List String))
    → count a (team_members (ps ++ qs)) ≡ count a (team_members ps) + count a (team_members qs)
team_members-append a [] qs = omega arith
team_members-append a (p ∷ ps) qs = omega (
  arith,
  count-append a p (team_members (ps ++ qs)),
  count-append a p (team_members ps),
  team_members-append a ps qs,
)

-- A registration makes no pair, or one with a partner who is there, when neither has one.
partners-cases :
    (present used : List String) (r : Reg)
    → (partners present used r ≡ [])
      ⊎ ((partners present used r ≡ (r.player_id ∷ r.partner_id ∷ []) ∷ [])
          × (contains used r.player_id ≡ false)
          × (contains used r.partner_id ≡ false)
          × (contains present r.partner_id ≡ true))
unfolding partners
partners-cases present used r = elim (Bool-cases (contains used r.player_id)) [
  | inl taken ↦ inl (rw taken refl)
  | inr free ↦
      elim (Bool-cases (
        not (str_eq r.partner_id "")
        && contains present r.partner_id
        && not (contains used r.partner_id))) [
          | inr nope ↦ inl (rw (free, nope) refl)
          | inl both ↦ inr (rw (free, both) refl, free, ground (arith, both), ground (arith, both))
        ]
]

partners-count :
    (a : String) (present used : List String) (r : Reg)
    → r.player_id ≢ r.partner_id
    → count a used ≤ 1
    → count a (team_members (partners present used r)) + count a used ≤ 1
partners-count a present used r apart low = elim (partners-cases present used r) [
  | inl e ↦ rw e (omega (arith, low))
  | inr (e, free, free', _) ↦
      let one = hit-le r.player_id a in
      let two = hit-le r.partner_id a in
      elim (hit-cases r.player_id a) [
        | inl here ↦
            let none_used = not_contains-count used a (ap (contains used) (sym here) ∙ free) in
            let other = hit_ne r.partner_id a (λ there. apart (here ∙ sym there)) in
            rw e (omega (arith, none_used, other, one))
        | inr gone ↦ elim (hit-cases r.partner_id a) [
          | inl there ↦
              let none_used = not_contains-count used a (ap (contains used) (sym there) ∙ free') in
              rw e (omega (arith, none_used, gone, two))
          | inr gone' ↦ rw e (omega (arith, gone, gone', low))
        ]
      ]
]

partners-present :
    (a : String) (present used : List String) (r : Reg)
    → contains present r.player_id ≡ true
    → 0 < count a (team_members (partners present used r))
    → 0 < count a present
partners-present a present used r here h = elim (partners-cases present used r) [
  | inl e ↦ let gone = ap (λ ps. count a (team_members ps)) e in absurd (omega (arith, h, gone))
  | inr (e, _, _, there) ↦
      let sum = ap (λ ps. count a (team_members ps)) e in
      elim (hit-cases r.player_id a) [
        | inl same ↦ contains-count present a (ap (contains present) (sym same) ∙ here)
        | inr gone ↦ elim (hit-cases r.partner_id a) [
          | inl same ↦ contains-count present a (ap (contains present) (sym same) ∙ there)
          | inr gone' ↦ absurd (omega (arith, h, sum, gone, gone'))
        ]
      ]
]

partners-IsPair : (present used : List String) (r : Reg) → All IsPair (partners present used r)
partners-IsPair present used r = elim (partners-cases present used r) [
  | inl e ↦ rw e tt
  | inr (e, _, _, _) ↦ rw e (refl, tt)
]

module _ (present : List String) where
  pub partner_pairs-count :
      (a : String) (used : List String) (regs : List Reg)
      → HasOthers regs
      → count a used ≤ 1
      → count a (team_members (partner_pairs present used regs)) + count a used ≤ 1
  unfolding partner_pairs
  partner_pairs-count a used [] others low = omega (arith, low)
  partner_pairs-count a used (r ∷ regs) others low =
      let made = partners present used r in
      let used' = team_members made ++ used in
      let first = partners-count a present used r others.0 low in
      let split = count-append a (team_members made) used in
      omega (
        arith,
        first,
        split,
        team_members-append a made (partner_pairs present used' regs),
        partner_pairs-count a used' regs others.1 (omega (arith, first, split)),
      )

  pub partner_pairs-present :
      (a : String) (used : List String) (regs : List Reg)
      → All (λ r. contains present r.player_id ≡ true) regs
      → 0 < count a (team_members (partner_pairs present used regs))
      → 0 < count a present
  unfolding partner_pairs
  partner_pairs-present a used [] here h = absurd (omega arith)
  partner_pairs-present a used (r ∷ regs) here h =
      let made = partners present used r in
      let used' = team_members made ++ used in
      let split = team_members-append a made (partner_pairs present used' regs) in
      elim (Bool-cases (ltb 0 (count a (team_members made)))) [
        | inl some_here ↦ partners-present a present used r here.0 (ground (arith, some_here))
        | inr none_here ↦
            let rest : 0 < count a (team_members (partner_pairs present used' regs)) =
              ground (arith, none_here, split, h) in
            partner_pairs-present a used' regs here.1 rest
      ]

  pub partner_pairs-IsPair :
      (used : List String) (regs : List Reg) → All IsPair (partner_pairs present used regs)
  unfolding partner_pairs
  partner_pairs-IsPair used [] = tt
  partner_pairs-IsPair used (r ∷ regs) =
      let made = partners present used r in
      append-All IsPair made (partner_pairs present (team_members made ++ used) regs)
        (partners-IsPair present used r) (partner_pairs-IsPair (team_members made ++ used) regs)
