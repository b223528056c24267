-- ===== src/Pairs/Dropped.antt =====
-- Everybody registered is in one team, or is dropped; and one at most is.
use plan_my_pickle_backend.Base.{
  ◌+◌, ◌≤◌, ◌<◌, ◌≡◌, refl, sym, subst, ap, ◌∙◌, inl, inr, Bool, true, false, List, [], ◌∷◌, ◌++◌,
  String, str_eq, Bool-cases, All, append-All, length, contains, count, count-append,
  contains-count, not_contains-count, hit, hit_self, hit_ne, hit-le, hit-pos, ◌||◌, IsDistinct,
  SameIds, append_assoc, arith, eq_iff,
}
use plan_my_pickle_backend.Pairs.{
  Reg, Event, player_ids, team_members, partner_pairs, players_without, pair_leftover,
  pairs_from_regs, dropped_doubles_players,
}
use plan_my_pickle_backend.Pairs.Taken.{
  IsPair, HasOthers, team_members-append, partner_pairs-count, partner_pairs-present,
  partner_pairs-IsPair,
}

players_without-in :
    (used : List String) (a : String) (regs : List Reg)
    → contains used a ≡ true
    → count a (players_without used regs) ≡ 0
unfolding players_without
players_without-in used a [] h = refl
players_without-in used a (r ∷ regs) h = elim (Bool-cases (contains used r.player_id)) [
  | inl t ↦ rw t (players_without-in used a regs h)
  | inr f ↦
      let apart = hit_ne r.player_id a (λ e.
        absurd
          (let both : true ≡ false = sym h ∙ ap (contains used) (sym e) ∙ f in ground arith)) in
      rw f (omega (arith, apart, players_without-in used a regs h))
]

players_without-out :
    (used : List String) (a : String) (regs : List Reg)
    → contains used a ≡ false
    → count a (players_without used regs) ≡ count a (player_ids regs)
unfolding players_without
players_without-out used a [] h = refl
players_without-out used a (r ∷ regs) h = elim (Bool-cases (contains used r.player_id)) [
  | inl t ↦
      let apart = hit_ne r.player_id a (λ e.
        absurd (let both : true ≡ false = sym t ∙ ap (contains used) e ∙ h in ground arith)) in
      rw t (omega (arith, apart, players_without-out used a regs h))
  | inr f ↦ rw f (omega (arith, players_without-out used a regs h))
]

-- Teams whose members are registered players, each once, and those who are in none.
covered :
    (ps : List (List String)) (regs : List Reg)
    → IsDistinct (player_ids regs)
    → IsDistinct (team_members ps)
    → ((a : String) → 0 < count a (team_members ps) → 0 < count a (player_ids regs))
    → SameIds (team_members ps ++ players_without (team_members ps) regs) (player_ids regs)
covered ps regs distinct once there a =
    let split = count-append a (team_members ps) (players_without (team_members ps) regs) in
    elim (Bool-cases (contains (team_members ps) a)) [
      | inl t ↦
          let here = contains-count (team_members ps) a t in
          omega (
            arith,
            split,
            players_without-in (team_members ps) a regs t,
            here,
            there a here,
            distinct a,
            once a,
          )
      | inr f ↦ omega (
        arith,
        split,
        players_without-out (team_members ps) a regs f,
        not_contains-count (team_members ps) a f,
      )
    ]

-- The last of an odd number.
odd_one : List String → List String
odd_one [] = []
odd_one (a ∷ []) = a ∷ []
odd_one (a ∷ b ∷ xs) = odd_one xs

odd_one-length : (xs : List String) → length (odd_one xs) ≤ 1
unfolding odd_one
odd_one-length [] = omega arith
odd_one-length (a ∷ []) = omega arith
odd_one-length (a ∷ b ∷ xs) = odd_one-length xs

pair_leftover-count :
    (a : String) (xs : List String)
    → count a (team_members (pair_leftover xs)) + count a (odd_one xs) ≡ count a xs
unfolding pair_leftover odd_one
pair_leftover-count a [] = omega arith
pair_leftover-count a (x ∷ []) = omega arith
pair_leftover-count a (x ∷ y ∷ xs) = omega (arith, pair_leftover-count a xs)

pair_leftover-IsPair : (xs : List String) → All IsPair (pair_leftover xs)
unfolding pair_leftover
pair_leftover-IsPair [] = tt
pair_leftover-IsPair (x ∷ []) = tt
pair_leftover-IsPair (x ∷ y ∷ xs) = (refl, pair_leftover-IsPair xs)

few_ids : (xs ys : List String) → length ys ≤ 1 → SameIds xs ys → length xs ≤ 1
few_ids [] ys h same = omega arith
few_ids (x ∷ []) ys h same = omega arith
few_ids (x ∷ z ∷ xs) [] h same = absurd (omega (arith, same x, hit_self x))
few_ids (x ∷ z ∷ xs) (y ∷ []) h same =
    let first : y ≡ x = hit-pos y x (λ e. absurd (omega (arith, e, same x, hit_self x))) in
    let second : y ≡ z = hit-pos y z (λ e. absurd (omega (arith, e, same z, hit_self z))) in
    let twice = ap (λ v. hit v x) (sym second ∙ first) in
    absurd (omega (arith, same x, hit-le y x, hit_self x, twice))
few_ids (x ∷ z ∷ xs) (y ∷ w ∷ ys) h same = absurd (omega (arith, h))

player_ids-contains :
    (front regs : List Reg)
    → All (λ r. contains (player_ids (front ++ regs)) r.player_id ≡ true) regs
player_ids-contains front [] = tt
player_ids-contains front (r ∷ regs) = (
  here front,
  subst (λ all. All (λ q. contains (player_ids all) q.player_id ≡ true) regs)
      (append_assoc front (r ∷ []) regs) (player_ids-contains (front ++ r ∷ []) regs),
)
  where
    here : (front : List Reg) → contains (player_ids (front ++ r ∷ regs)) r.player_id ≡ true
    here [] = ground (arith, eq_iff r.player_id r.player_id)
    here (q ∷ front) = ground (arith, here front)

-- The teams of the field, everybody in them, and the one who may be left.
pairs_from_regs-lem :
    (regs : List Reg)
    → IsDistinct (player_ids regs)
    → HasOthers regs
    → All IsPair (pairs_from_regs regs)
      × ((a : String)
          → count a (team_members (pairs_from_regs regs))
              + count a (
                  odd_one
                    (players_without (team_members (partner_pairs (player_ids regs) [] regs)) regs))
            ≡ count a (player_ids regs))
unfolding pairs_from_regs
pairs_from_regs-lem regs distinct others =
    let ids = player_ids regs in
    let pairs = partner_pairs ids [] regs in
    let rest = players_without (team_members pairs) regs in
    let once : IsDistinct (team_members pairs) =
      λ a. omega (arith, partner_pairs-count ids a [] regs others (omega arith)) in
    let all =
      covered pairs regs distinct once
        (λ a. partner_pairs-present ids a [] regs (player_ids-contains [] regs)) in
    (
      append-All IsPair pairs (pair_leftover rest) (partner_pairs-IsPair ids [] regs)
          (pair_leftover-IsPair rest),
      λ a. omega (
        arith,
        all a,
        count-append a (team_members pairs) rest,
        team_members-append a pairs (pair_leftover rest),
        pair_leftover-count a rest,
      ),
    )

-- An event whose doubles teams are formed before the draw.
abbrev pub is_preformed : Event → Bool
is_preformed ev =
    str_eq ev.partner_mode "fixed"
    || str_eq ev.tournament_format "single_elim"
    || str_eq ev.tournament_format "double_elim"
    || str_eq ev.tournament_format "compass"

dropped_doubles_players-preformed :
    (ev : Event) (regs : List Reg)
    → str_eq ev.format "doubles" ≡ true
    → is_preformed ev ≡ true
    → dropped_doubles_players ev regs ≡ players_without (team_members (pairs_from_regs regs)) regs
unfolding dropped_doubles_players
dropped_doubles_players-preformed ev regs doubles formed = rw (doubles, formed) refl

-- In a doubles event whose teams are preformed, where no player is registered twice or as the own
-- partner: every team has two members, nobody is in two teams or twice in one, the members and those
-- who are dropped are the registered players, and one at most is dropped.
pub dropped_doubles_players_lem :
    (ev : Event) (regs : List Reg)
    → str_eq ev.format "doubles" ≡ true
    → is_preformed ev ≡ true
    → IsDistinct (player_ids regs)
    → HasOthers regs
    → All IsPair (pairs_from_regs regs)
      × IsDistinct (team_members (pairs_from_regs regs))
      × SameIds
          (team_members (pairs_from_regs regs) ++ dropped_doubles_players ev regs)
          (player_ids regs)
      × (length (dropped_doubles_players ev regs) ≤ 1)
dropped_doubles_players_lem ev regs doubles formed distinct others =
    let ms = team_members (pairs_from_regs regs) in
    let left = players_without ms regs in
    let odd =
      odd_one (players_without (team_members (partner_pairs (player_ids regs) [] regs)) regs) in
    let (two_each, sum) = pairs_from_regs-lem regs distinct others in
    let once : IsDistinct ms = λ a. omega (arith, sum a, distinct a) in
    let all : SameIds (ms ++ left) (player_ids regs) =
      covered (pairs_from_regs regs) regs distinct once (λ a h. omega (arith, sum a, h)) in
    let same : SameIds left odd = λ a. omega (arith, all a, sum a, count-append a ms left) in
    let few = few_ids left odd (odd_one-length _) same in
    rw (dropped_doubles_players-preformed ev regs doubles formed) (two_each, once, all, few)
