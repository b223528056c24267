-- ===== src/Flex/Idempotent.antt =====
-- No pair is scheduled twice, and when a schedule is generated again nothing is added.
use plan_my_pickle_backend.Base.{
  ◌+◌, ◌≤◌, ◌<◌, subst, hit_self, some-injective, ◌≡◌, refl, sym, ◌∙◌, inl, inr, Bool, true, false,
  some, List, [], ◌∷◌, ◌++◌, map, String, Bool-cases, All, All-append, append-All, length, ltb,
  count, contains, contains-count, not_contains-count, SameIds, arith,
}
use plan_my_pickle_backend.Flex.{
  FlexMatchup, pair_key, have_keys, pairs_with, pairs_among, flex_pairings_to_create, pending,
  insert_rows, generate_flex_schedule,
}

-- The pair has a key that is there, or that is not.
abbrev pub Has : List String → String × String → Type 0
Has have p = contains have (pair_key p.0 p.1) ≡ true

abbrev pub IsNew : List String → String × String → Type 0
IsNew have p = contains have (pair_key p.0 p.1) ≡ false

module _ (have : List String) where
  pairs_with-IsNew : (a : String) (teams : List String) → All (IsNew have) (pairs_with have a teams)
  unfolding pairs_with
  pairs_with-IsNew a [] = tt
  pairs_with-IsNew a (b ∷ teams) = elim (Bool-cases (contains have (pair_key a b))) [
    | inl t ↦ rw t (pairs_with-IsNew a teams)
    | inr f ↦ rw f (f, pairs_with-IsNew a teams)
  ]

  pairs_among-IsNew : (teams : List String) → All (IsNew have) (pairs_among have teams)
  unfolding pairs_among
  pairs_among-IsNew [] = tt
  pairs_among-IsNew (a ∷ teams) =
      append-All (IsNew have) (pairs_with have a teams) (pairs_among have teams)
        (pairs_with-IsNew a teams) (pairs_among-IsNew teams)

  -- With more keys, among them those of the pairs that were made.
  module _ (more : List String)
      (grows : (k : String) → contains have k ≡ true → contains more k ≡ true) where
    pairs_with-again :
        (a : String) (teams : List String)
        → All (Has more) (pairs_with have a teams)
        → pairs_with more a teams ≡ []
    unfolding pairs_with
    pairs_with-again a [] h = refl
    pairs_with-again a (b ∷ teams) h = elim (Bool-cases (contains have (pair_key a b))) [
      | inl t ↦
          let e : pairs_with have a (b ∷ teams) ≡ pairs_with have a teams = rw t refl in
          rw (grows (pair_key a b) t) (pairs_with-again a teams (subst (All (Has more)) e h))
      | inr f ↦
          let e : pairs_with have a (b ∷ teams) ≡ (a, b) ∷ pairs_with have a teams = rw f refl in
          let (here, rest) : All (Has more) ((a, b) ∷ pairs_with have a teams) =
            subst (All (Has more)) e h in
          rw here (pairs_with-again a teams rest)
    ]

    pairs_among-again :
        (teams : List String)
        → All (Has more) (pairs_among have teams)
        → pairs_among more teams ≡ []
    unfolding pairs_among
    pairs_among-again [] h = refl
    pairs_among-again (a ∷ teams) h =
        let (f, g) = All-append (Has more) (pairs_with have a teams) (pairs_among have teams) h in
        rw (pairs_with-again a teams f) (pairs_among-again teams g)

have_keys-append :
    (ms ns : List FlexMatchup) (k : String)
    → count k (have_keys (ms ++ ns)) ≡ count k (have_keys ms) + count k (have_keys ns)
have_keys-append [] ns k = omega arith
have_keys-append (m ∷ ms) ns k = omega (arith, have_keys-append ms ns k)

count-contains : (xs : List String) (k : String) → 0 < count k xs → contains xs k ≡ true
count-contains xs k h = elim (Bool-cases (contains xs k)) [
  | inl t ↦ t
  | inr f ↦ absurd (omega (arith, h, not_contains-count xs k f))
]

-- The pairs whose keys are among others.
own_keys :
    (more : List String) (ps : List (String × String))
    → ((k : String) → count k (have_keys (map pending ps)) ≤ count k more)
    → All (Has more) ps
own_keys more [] h = tt
own_keys more ((a, b) ∷ ps) h = (
  count-contains more (pair_key a b) (omega (arith, h (pair_key a b), hit_self (pair_key a b))),
  own_keys more ps (λ k. omega (arith, h k)),
)

-- No pair is made that has the key of a matchup which exists already.
pub flex_pairings_to_create-IsNew :
    (teams : List String) (existing : List FlexMatchup)
    → All (IsNew (have_keys existing)) (flex_pairings_to_create teams existing)
unfolding flex_pairings_to_create
flex_pairings_to_create-IsNew teams existing = pairs_among-IsNew (have_keys existing) teams

-- Nothing is left to create once the matchups are there, whatever the order in which they are read.
flex_pairings_to_create-again :
    (teams : List String) (existing after : List FlexMatchup)
    → SameIds
        (have_keys after)
        (have_keys (existing ++ map pending (flex_pairings_to_create teams existing)))
    → flex_pairings_to_create teams after ≡ []
unfolding flex_pairings_to_create
flex_pairings_to_create-again teams existing after same =
    let made = pairs_among (have_keys existing) teams in
    pairs_among-again (have_keys existing) (have_keys after)
      (λ k t. count-contains (have_keys after) k (
        omega (
          arith,
          same k,
          have_keys-append existing (map pending made) k,
          contains-count (have_keys existing) k t,
        )))
      teams
      (own_keys (have_keys after) made
        (λ k. omega (arith, same k, have_keys-append existing (map pending made) k)))

insert_rows-true : (rows : List FlexMatchup) → insert_rows rows true ≡ some rows
unfolding insert_rows
insert_rows-true [] = refl
insert_rows-true (r ∷ rs) = refl

-- When a schedule has been generated and its rows are read back with the old ones, in whatever order, then to
-- generate it again for the same teams inserts nothing.
pub generate_flex_schedule-again :
    (teams : List String) (existing rows after : List FlexMatchup) (inserted : Bool)
    → generate_flex_schedule (some teams) (some existing) true ≡ some rows
    → SameIds (have_keys after) (have_keys (existing ++ rows))
    → generate_flex_schedule (some teams) (some after) inserted ≡ some []
unfolding generate_flex_schedule
generate_flex_schedule-again teams existing rows after inserted e same =
    elim (Bool-cases (ltb (length teams) 2)) [
      | inl few ↦ rw few refl
      | inr enough ↦
          let made = map pending (flex_pairings_to_create teams existing) in
          let first : generate_flex_schedule (some teams) (some existing) true ≡ some made =
            rw enough (insert_rows-true made) in
          let both : some made ≡ some rows = sym first ∙ e in
          let these : made ≡ rows = some-injective made rows both in
          let nothing = flex_pairings_to_create-again teams existing after (
            subst (λ rs. SameIds (have_keys after) (have_keys (existing ++ rs))) (sym these)
              same) in
          rw (enough, nothing) refl
    ]
