-- ===== src/Arrange/Rounds.antt =====
-- The other mode of arrangePlacements: the matches of a round, slot after slot.
use plan_my_pickle_backend.Base.{
  ℕ, zero, suc, ◌+◌, ◌≤◌, ◌<◌, ◌≡◌, ◌≢◌, ◌⊎◌, refl, sym, ap, ◌∙◌, inl, inr, true, false, some, List,
  [], ◌∷◌, String, ◌==◌, Bool-cases, All, All-map, length, take, get_elem?, ids_by, count, hit, min,
  arith, ==_iff,
}
use plan_my_pickle_backend.Arrange.{Board, has_court, place_match, place_round}
use plan_my_pickle_backend.Arrange.Keyed.{
  Placement, Pairwise, without_id-All, without_id-Pairwise, place-count,
}

-- No two of the courts are one.
abbrev pub IsCourtSet : List ℕ → Type 0
IsCourtSet [] = Unit
IsCourtSet (c ∷ courts) = (has_court courts c ≡ false) × IsCourtSet courts

-- Two placements of one slot are on different courts.
abbrev pub IsClear : Placement → Placement → Type 0
IsClear q p = q.1.slot ≡ p.1.slot → q.1.court ≢ p.1.court

-- A placement of an earlier slot, or of this one on one of the first courts.
abbrev IsInSlot : List ℕ → ℕ → ℕ → Placement → Type 0
IsInSlot courts idx slot q =
    (q.1.slot < slot) ⊎ ((q.1.slot ≡ slot) × (has_court (take idx courts) q.1.court ≡ true))

get_elem?-lt {ℓ} :
    {A : Type ℓ} (xs : List A) (k : ℕ) → k < length xs → (x : A) × (get_elem? xs k ≡ some x)
get_elem?-lt [] k h = absurd (omega arith)
get_elem?-lt (x ∷ xs) zero h = (x, refl)
get_elem?-lt (x ∷ xs) (suc k) h = get_elem?-lt xs k (omega arith)

has_court-get :
    (courts : List ℕ) (k c : ℕ) → get_elem? courts k ≡ some c → has_court courts c ≡ true
has_court-get [] k c e = cc
has_court-get (d ∷ courts) zero c e = ground (arith, e, ==_iff d c)
has_court-get (d ∷ courts) (suc k) c e = ground (arith, has_court-get courts k c e)

fresh_court :
    (courts : List ℕ) (k c : ℕ)
    → IsCourtSet courts
    → get_elem? courts k ≡ some c
    → has_court (take k courts) c ≡ false
fresh_court [] k c h e = cc
fresh_court (d ∷ courts) zero c h e = refl
fresh_court (d ∷ courts) (suc k) c h e = elim (Bool-cases (d == c)) [
  | inl t ↦ absurd (
      let same : d ≡ c = (==_iff d c).0 t in
      let both : true ≡ false =
        sym (has_court-get courts k c e) ∙ ap (has_court courts) (sym same) ∙ h.0 in
      ground arith)
  | inr ne ↦ ground (arith, ne, fresh_court courts k c h.1 e)
]

taken_court :
    (courts : List ℕ) (k c : ℕ)
    → get_elem? courts k ≡ some c
    → has_court (take (suc k) courts) c ≡ true
taken_court [] k c e = cc
taken_court (d ∷ courts) zero c e = ground (arith, e, ==_iff d c)
taken_court (d ∷ courts) (suc k) c e = ground (arith, taken_court courts k c e)

more_courts :
    (courts : List ℕ) (k c : ℕ)
    → has_court (take k courts) c ≡ true
    → has_court (take (suc k) courts) c ≡ true
more_courts [] zero c e = e
more_courts [] (suc k) c e = e
more_courts (d ∷ courts) zero c e = ground (arith, e)
more_courts (d ∷ courts) (suc k) c e = ground (arith, e, more_courts courts k c)

abbrev pub ids_on : Board → List String
ids_on b = ids_by (λ p. p.0) b.placements

-- From one board to another the matches have been placed, each one once, and no two placements clash.
abbrev pub IsAdded : List String → Board → Board → Type 0
IsAdded ms b b' =
    Pairwise IsClear b'.placements
    × (b'.scheduled ≡ b.scheduled + length ms)
    × ((a : String) (k : ℕ)
        → count a (ids_on b) ≡ min 1 k
        → count a (ids_on b') ≡ min 1 (k + count a ms))

module _ (courts : List ℕ) (set : IsCourtSet courts) (some_court : 0 < length courts) where
  place_match-IsClear :
      (m : String) (idx slot c : ℕ) (ps : List Placement)
      → get_elem? courts idx ≡ some c
      → All (IsInSlot courts idx slot) ps
      → All (λ q. IsClear q (m, record { court = c; slot = slot })) ps
  place_match-IsClear m idx slot c ps e h =
      All-map _ _ ps
        (λ q here same on. elim here [
          | inl before ↦ absurd (omega (arith, before, same))
          | inr (_, taken) ↦ absurd (
              let both : true ≡ false =
                sym taken ∙ ap (has_court (take idx courts)) on ∙ fresh_court courts idx c set e in
              ground arith)
        ])
        h

  IsInSlot-next :
      (idx slot : ℕ) (ps : List Placement)
      → All (IsInSlot courts idx slot) ps
      → All (IsInSlot courts (suc idx) slot) ps
  IsInSlot-next idx slot ps h =
      All-map _ _ ps
        (λ q here. elim here [
          | inl before ↦ inl before
          | inr (same, taken) ↦ inr (same, more_courts courts idx q.1.court taken)
        ])
        h

  -- A match placed, and the rest of its round.
  IsAdded-next :
      (m : String) (round : List String) (c slot : ℕ) (b b' : Board)
      → IsAdded round (place_match m c slot b) b'
      → IsAdded (m ∷ round) b b'
  IsAdded-next m round c slot b b' (clear, n, kept) = (
    clear,
    omega (arith, n),
    λ a k h.
        let placed = kept a (hit m a + k) (place-count m a b.placements k h) in
        omega (arith, placed),
  )

  place_round-here :
      (m : String) (round : List String) (idx slot c : ℕ) (b : Board)
      → idx < length courts
      → get_elem? courts idx ≡ some c
      → place_round courts idx slot (m ∷ round) b
        ≡ place_round courts (suc idx) slot round (place_match m c slot b)
  unfolding place_round
  place_round-here m round idx slot c b low e =
      let within : (idx == length courts) ≡ false = ground arith in
      let one : idx + 1 ≡ suc idx = omega arith in
      rw (within, e, place_round, within)
        (ap (λ k. place_round courts k slot round (place_match m c slot b)) one)

  place_round-wrap :
      (m : String) (round : List String) (idx slot c : ℕ) (b : Board)
      → idx ≡ length courts
      → get_elem? courts 0 ≡ some c
      → place_round courts idx slot (m ∷ round) b
        ≡ place_round courts 1 (suc slot) round (place_match m c (suc slot) b)
  unfolding place_round
  place_round-wrap m round idx slot c b full e =
      let over : (idx == length courts) ≡ true = (==_iff idx (length courts)).1 full in
      let one : slot + 1 ≡ suc slot = omega arith in
      rw (over, e, place_round, over)
        (ap (λ k. place_round courts 1 k round (place_match m c k b)) one)

  -- What the matches of a round come to.
  abbrev Placed : ℕ → ℕ → List String → Board → Type 0
  Placed idx slot round b =
      (slot' : ℕ) × (b' : Board) × (place_round courts idx slot round b ≡ some (slot', b'))
      × (slot ≤ slot')
      × All (λ q. q.1.slot < suc slot') b'.placements
      × IsAdded round b b'

  pub place_round-Placed :
      (round : List String) (idx slot : ℕ) (b : Board)
      → idx ≤ length courts
      → All (IsInSlot courts idx slot) b.placements
      → Pairwise IsClear b.placements
      → Placed idx slot round b
  unfolding place_round
  place_round-Placed [] idx slot b low here clear = (
    slot,
    b,
    refl,
    omega arith,
    All-map _ _ b.placements
        (λ q h. elim h [ inl before ↦ omega (arith, before) | inr (same, _) ↦ omega (arith, same) ])
        here,
    (clear, omega arith, λ a k h. omega (arith, h)),
  )
  place_round-Placed (m ∷ round) idx slot b low here clear =
      elim (Bool-cases (idx == length courts)) [
        | inr within ↦
            let less : idx < length courts = ground (arith, within) in
            let (c, e) = get_elem?-lt courts idx less in
            let b1 = place_match m c slot b in
            let (slot', b', run, later, before, added) =
              place_round-Placed round (suc idx) slot b1 (omega arith)
                (
                  inr (refl, taken_court courts idx c e),
                  without_id-All _ m b.placements (IsInSlot-next idx slot b.placements here),
                )
                (
                  without_id-All _ m b.placements
                      (place_match-IsClear m idx slot c b.placements e here),
                  without_id-Pairwise IsClear m b.placements clear,
                ) in
            (
              slot',
              b',
              place_round-here m round idx slot c b less e ∙ run,
              later,
              before,
              IsAdded-next m round c slot b b' added,
            )
        | inl full ↦
            let (c, e) = get_elem?-lt courts 0 some_court in
            let b1 = place_match m c (suc slot) b in
            let older : All (IsInSlot courts 0 (suc slot)) b.placements =
              All-map _ _ b.placements
                (λ q h. elim h [
                  | inl before ↦ inl (omega (arith, before))
                  | inr (same, _) ↦ inl (omega (arith, same))
                ])
                here in
            let (slot', b', run, later, before, added) =
              place_round-Placed round 1 (suc slot) b1 (omega arith)
                (
                  inr (refl, taken_court courts 0 c e),
                  without_id-All _ m b.placements (IsInSlot-next 0 (suc slot) b.placements older),
                )
                (
                  without_id-All _ m b.placements
                      (place_match-IsClear m 0 (suc slot) c b.placements e older),
                  without_id-Pairwise IsClear m b.placements clear,
                ) in
            (
              slot',
              b',
              place_round-wrap m round idx slot c b ((==_iff idx (length courts)).0 full) e ∙ run,
              omega (arith, later),
              before,
              IsAdded-next m round c (suc slot) b b' added,
            )
      ]
