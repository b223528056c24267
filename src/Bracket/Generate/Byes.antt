-- ===== src/Bracket/Generate/Byes.antt =====
-- The byes of round 1: who is seated in round 2 without a game.
use plan_my_pickle_backend.Base.{
  ℕ, zero, suc, ◌+◌, ◌*◌, ◌/◌, ◌%◌, ◌<◌, ◌≡◌, ◌≢◌, refl, sym, ap, ◌∙◌, ◌⊎◌, inl, inr, false, none,
  arith, ltb, ◌==◌, if◌then◌else◌, Bool-cases, Option-cases, length, get_or, set, length-set,
  get_or-set_self, get_or-set_ne, subst,
}
use plan_my_pickle_backend.Bracket.Generate.{
  Side, is_bye, BracketMatchSpec, Rounds, no_match, put_match, past_bye, seat_winner, resolve_bye,
  resolve_byes,
}
use plan_my_pickle_backend.Bracket.Generate.Step.{
  past_bye-is_bye, past_bye-none, entry, advance-seats, resolve_bye-none, resolve_bye-some,
  bye_winner,
}

-- A field of 4h places whose first matches have the sides `a i` and `b i`; `next` is round 2.
module _ (a b : ℕ → Side) (next : ℕ → BracketMatchSpec) where
  -- Who has gone past a bye at slot `i`, if anybody, when the loop has done `k` slots.
  abbrev so_far : ℕ → ℕ → Side
  so_far k i = if ltb i k then bye_winner a b i else none

  -- The match of round 2 at slot `j` by then.
  abbrev opened : ℕ → ℕ → BracketMatchSpec
  opened k j = record (next j) { side1 = so_far k (2 * j); side2 = so_far k (2 * j + 1) }

  so_far-is_bye : (k i : ℕ) → is_bye (so_far k i) ≡ false
  so_far-is_bye k i = elim (Bool-cases (ltb i k)) [
    | inl e ↦ rw e (past_bye-is_bye (entry (a i) (b i) i none))
    | inr e ↦ rw e refl
  ]

  so_far-other : (k i : ℕ) → i ≢ k → so_far k i ≡ so_far (suc k) i
  so_far-other k i ne = ground (arith, ne)

  so_far_self : (k i : ℕ) → i ≡ k → bye_winner a b k ≡ so_far (suc k) i
  so_far_self k i e = ground (arith, ap (bye_winner a b) e)

  so_far-none : (k i : ℕ) → bye_winner a b k ≡ none → so_far k i ≡ so_far (suc k) i
  so_far-none k i e =
      let cases : (i ≡ k) ⊎ (i ≢ k) = ground arith in
      elim cases [
        | inl same ↦ ground (arith, ap (bye_winner a b) same)
        | inr ne ↦ so_far-other k i ne
      ]

  opened-none : (k j : ℕ) → bye_winner a b k ≡ none → opened k j ≡ opened (suc k) j
  opened-none k j e = λ i. record (next j) {
    side1 = so_far-none k (2 * j) e i;
    side2 = so_far-none k (2 * j + 1) e i;
  }

  opened-other : (k j : ℕ) → j ≢ k / 2 → opened k j ≡ opened (suc k) j
  opened-other k j ne =
      let p = so_far-other k (2 * j) (λ e. ne (omega (arith, e))) in
      let q = so_far-other k (2 * j + 1) (λ e. ne (omega (arith, e))) in
      λ i. record (next j) { side1 = p i; side2 = q i }

  opened-seat :
      (k j : ℕ)
      → j ≡ k / 2
      → seat_winner (opened k j) (k % 2 + 1) (bye_winner a b k) ≡ opened (suc k) j
  opened-seat k j half = elim (Bool-cases (k % 2 + 1 == 1)) [
    | inl even ↦
        let p = so_far_self k (2 * j) (ground (arith, half, even)) in
        let q = so_far-other k (2 * j + 1) (λ e. ground (arith, half, even, e)) in
        rw even (λ i. record (next j) { side1 = p i; side2 = q i })
    | inr odd ↦
        let p = so_far-other k (2 * j) (λ e. ground (arith, half, odd, e)) in
        let q = so_far_self k (2 * j + 1) (ground (arith, half, odd)) in
        rw odd (λ i. record (next j) { side1 = p i; side2 = q i })
  ]

  -- The rounds when the loop has done `k` of the slots.
  pub record Resolved (h k : ℕ) (rounds : Rounds) : Type 0 where
    pub length1 : length (rounds 1) ≡ 2 * h
    pub length2 : length (rounds 2) ≡ h
    pub at1 : (i : ℕ) → i < 2 * h → get_or (rounds 1) i no_match ≡ entry (a i) (b i) i (so_far k i)
    pub at2 : (j : ℕ) → j < h → get_or (rounds 2) j no_match ≡ opened k j

  so_far-zero : (i : ℕ) → none ≡ so_far 0 i
  so_far-zero i = ground arith

  -- Before the loop.
  pub Resolved-zero :
      (h : ℕ) (rounds : Rounds)
      → length (rounds 1) ≡ 2 * h
      → length (rounds 2) ≡ h
      → ((i : ℕ) → i < 2 * h → get_or (rounds 1) i no_match ≡ entry (a i) (b i) i none)
      → ((j : ℕ)
          → j < h
          → get_or (rounds 2) j no_match ≡ record (next j) { side1 = none; side2 = none })
      → Resolved h 0 rounds
  Resolved-zero h rounds l1 l2 p q = record {
    length1 = l1;
    length2 = l2;
    at1 = λ i hi. p i hi ∙ ap (entry (a i) (b i) i) (so_far-zero i);
    at2 = λ j hj. q j hj ∙ (λ i. record (next j) {
      side1 = so_far-zero (2 * j) i;
      side2 = so_far-zero (2 * j + 1) i;
    });
  }

  -- Two writes, at slot `k` of round 1 and at slot `j` of round 2.
  Resolved-written :
      (h k : ℕ) (rounds : Rounds)
      → k < 2 * h
      → Resolved h k rounds
      → Resolved h (suc k) (
          put_match
            (put_match rounds 1 k (entry (a k) (b k) k (bye_winner a b k)))
            2
            (k / 2)
            (opened (suc k) (k / 2)))
  Resolved-written h k rounds inside v = record {
    length1 = length-set (rounds 1) k (entry (a k) (b k) k (bye_winner a b k)) ∙ v.length1;
    length2 = length-set (rounds 2) (k / 2) (opened (suc k) (k / 2)) ∙ v.length2;
    at1 = λ i hi.
        let cases : (k ≡ i) ⊎ (k ≢ i) = ground arith in
        elim cases [
          | inl same ↦
              ap
                (λ q. get_or (set (rounds 1) k (entry (a k) (b k) k (bye_winner a b k))) q no_match)
                (sym same)
              ∙ get_or-set_self (rounds 1) k (entry (a k) (b k) k (bye_winner a b k)) no_match
                  (omega (arith, v.length1))
              ∙ ap (entry (a k) (b k) k) (so_far_self k k refl)
              ∙ ap (λ q. entry (a q) (b q) q (so_far (suc k) q)) same
          | inr ne ↦
              get_or-set_ne (rounds 1) k i (entry (a k) (b k) k (bye_winner a b k)) no_match ne
              ∙ v.at1 i hi
              ∙ ap (entry (a i) (b i) i) (so_far-other k i (λ e. ne (sym e)))
        ];
    at2 = λ j hj.
        let cases : (k / 2 ≡ j) ⊎ (k / 2 ≢ j) = ground arith in
        elim cases [
          | inl same ↦
              ap (λ q. get_or (set (rounds 2) (k / 2) (opened (suc k) (k / 2))) q no_match)
                (sym same)
              ∙ get_or-set_self (rounds 2) (k / 2) (opened (suc k) (k / 2)) no_match
                  (omega (arith, v.length2))
              ∙ ap (opened (suc k)) same
          | inr ne ↦
              get_or-set_ne (rounds 2) (k / 2) j (opened (suc k) (k / 2)) no_match ne
              ∙ v.at2 j hj
              ∙ opened-other k j (λ e. ne (sym e))
        ];
  }

  Resolved-idle :
      (h k : ℕ) (rounds : Rounds)
      → bye_winner a b k ≡ none
      → Resolved h k rounds
      → Resolved h (suc k) rounds
  Resolved-idle h k rounds e v = record {
    length1 = v.length1;
    length2 = v.length2;
    at1 = λ i hi. v.at1 i hi ∙ ap (entry (a i) (b i) i) (so_far-none k i e);
    at2 = λ j hj. v.at2 j hj ∙ opened-none k j e;
  }

  Resolved-bye :
      (fuel h k : ℕ) (rounds : Rounds)
      → k < 2 * h
      → Resolved h k rounds
      → Resolved h (suc k) (resolve_bye (suc fuel) k rounds)
  Resolved-bye fuel h k rounds inside v =
      let open_yet : so_far k k ≡ none = ground arith in
      let em : get_or (rounds 1) k no_match ≡ entry (a k) (b k) k none =
        v.at1 k inside ∙ ap (entry (a k) (b k) k) open_yet in
      let e : past_bye (get_or (rounds 1) k no_match) ≡ bye_winner a b k = ap past_bye em in
      let et : seat_winner (get_or (rounds 2) (k / 2) no_match) (k % 2 + 1) (bye_winner a b k)
          ≡ opened (suc k) (k / 2) =
        ap (λ m. seat_winner m (k % 2 + 1) (bye_winner a b k)) (v.at2 (k / 2) (omega arith))
        ∙ opened-seat k (k / 2) refl in
      let quiet =
        past_bye-none (opened (suc k) (k / 2)) (so_far-is_bye (suc k) (2 * (k / 2)))
          (so_far-is_bye (suc k) (2 * (k / 2) + 1)) in
      elim (Option-cases (bye_winner a b k)) [
        | inl nobody ↦
            rw (resolve_bye-none (suc fuel) k rounds (e ∙ nobody))
              (Resolved-idle h k rounds nobody v)
        | inr (ids, somebody) ↦
            let run =
              resolve_bye-some (suc fuel) k rounds (bye_winner a b k) e somebody
              ∙ advance-seats fuel rounds k (bye_winner a b k) (a k) (b k) em
                  (ap past_bye et ∙ quiet)
              ∙ ap
                  (put_match (put_match rounds 1 k (entry (a k) (b k) k (bye_winner a b k))) 2
                    (k / 2))
                  et in
            subst (Resolved h (suc k)) (sym run) (Resolved-written h k rounds inside v)
      ]

  -- The whole loop.
  pub Resolved-byes :
      (fuel h k left : ℕ) (rounds : Rounds)
      → k + left ≡ 2 * h
      → Resolved h k rounds
      → Resolved h (2 * h) (resolve_byes (suc fuel) k left rounds)
  unfolding resolve_byes
  Resolved-byes fuel h k zero rounds e v =
      let done : k ≡ 2 * h = omega arith in subst (λ q. Resolved h q rounds) done v
  Resolved-byes fuel h k (suc left) rounds e v =
      Resolved-byes fuel h (suc k) left (resolve_bye (suc fuel) k rounds) (omega arith)
        (Resolved-bye fuel h k rounds (omega arith) v)

  so_far-done : (k i : ℕ) → i < k → so_far k i ≡ bye_winner a b i
  so_far-done k i h = ground (arith, h)

  -- After the loop.
  pub Resolved-first :
      (h i : ℕ) (rounds : Rounds)
      → Resolved h (2 * h) rounds
      → i < 2 * h
      → get_or (rounds 1) i no_match ≡ entry (a i) (b i) i (bye_winner a b i)
  Resolved-first h i rounds v hi = v.at1 i hi ∙ ap (entry (a i) (b i) i) (so_far-done (2 * h) i hi)

  pub Resolved-second :
      (h j : ℕ) (rounds : Rounds)
      → Resolved h (2 * h) rounds
      → j < h
      → ((get_or (rounds 2) j no_match).side1 ≡ bye_winner a b (2 * j))
        × ((get_or (rounds 2) j no_match).side2 ≡ bye_winner a b (2 * j + 1))
  Resolved-second h j rounds v hj = (
    ap (λ m. m.side1) (v.at2 j hj) ∙ so_far-done (2 * h) (2 * j) (omega arith),
    ap (λ m. m.side2) (v.at2 j hj) ∙ so_far-done (2 * h) (2 * j + 1) (omega arith),
  )
