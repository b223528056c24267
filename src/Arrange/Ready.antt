-- ===== src/Arrange/Ready.antt =====
-- When the turn of a division is over it is done, or has a match to place.
use plan_my_pickle_backend.Base.{
  ℕ, zero, suc, ◌+◌, ◌≤◌, ◌<◌, ◌≡◌, refl, sym, subst, ap, ◌∙◌, inl, inr, true, false, List, [], ◌∷◌,
  String, str_eq, leb, Bool-cases, All, length, get_or, arith, eq_iff,
}
use plan_my_pickle_backend.Arrange.{
  Agenda, Turn, courts_for, fill_division, division_turn, slot_turn, place_next, end_round,
  round_over, set_at,
}
use plan_my_pickle_backend.Arrange.Steps.{
  cur_round, cur_match, court_turn-cases, fill_division-none, fill_division-some,
}
use plan_my_pickle_backend.Arrange.Left.{set_at_self, set_at_ne}

abbrev pub HasNext : List (List String) → ℕ → ℕ → Type 0
HasNext rounds ri k = ri < length rounds → k < length (get_or rounds ri [])

abbrev pub IsReadyAt : Agenda → Turn → String → Type 0
IsReadyAt i t x = HasNext (i.div_rounds x) (t.round_idx x) (t.pos_in_round x)

abbrev pub IsReady : Agenda → Turn → Type 0
IsReady i t = (x : String) → IsReadyAt i t x

-- No round is empty.
abbrev pub HasRounds : Agenda → Type 0
HasRounds i = (d : String) → All (λ r. 0 < length r) (i.div_rounds d)

pub at-All :
    (rounds : List (List String)) (k : ℕ)
    → All (λ r. 0 < length r) rounds
    → k < length rounds
    → 0 < length (get_or rounds k [])
at-All [] k h less = absurd (omega arith)
at-All (r ∷ rounds) zero h less = h.0
at-All (r ∷ rounds) (suc k) h less = at-All rounds k h.1 (omega arith)

module _ (i : Agenda) (slot : ℕ) (div : String) where
  -- Nothing changes but for the one division.
  abbrev IsBeside : Turn → Turn → Type 0
  IsBeside t u =
      (u.round_idx ≡ t.round_idx)
      × ((x : String) → str_eq div x ≡ false → u.pos_in_round x ≡ t.pos_in_round x)

  fill_division-IsBeside :
      (courts : List ℕ) (t : Turn)
      → IsBeside t (fill_division i slot div (cur_round i t div) courts t)
  unfolding fill_division
  fill_division-IsBeside [] t = (refl, λ x ne. refl)
  fill_division-IsBeside (c ∷ courts) t =
      let round = cur_round i t div in
      elim (court_turn-cases i slot div c t) [
        | inl e ↦
            subst (IsBeside t) (sym (fill_division-none i slot div round c courts t e))
              (refl, λ x ne. refl)
        | inr (inl e) ↦
            subst (IsBeside t) (sym (fill_division-some i slot div round c courts t t e))
              (fill_division-IsBeside courts t)
        | inr (inr (e, left, free, fine)) ↦
            let t' = place_next i slot div (cur_match i t div) c t in
            let (idx, at) = fill_division-IsBeside courts t' in
            subst (IsBeside t) (sym (fill_division-some i slot div round c courts t t' e))
              (idx, λ x ne. at x ne ∙ set_at_ne t.pos_in_round div x (t.pos_in_round div + 1) ne)
      ]

  ready-IsBeside :
      (t u : Turn) (x : String)
      → IsBeside t u
      → str_eq div x ≡ false
      → IsReadyAt i t x
      → IsReadyAt i u x
  ready-IsBeside t u x (idx, at) ne ready =
      subst (λ ri. HasNext (i.div_rounds x) ri (u.pos_in_round x)) (sym (ap (λ f. f x) idx))
        (subst (λ k. HasNext (i.div_rounds x) (t.round_idx x) k) (sym (at x ne)) ready)

  -- A division that goes on to its next round.
  end_round-IsReady :
      (u : Turn) (x : String)
      → HasRounds i
      → (str_eq div x ≡ false → IsReadyAt i u x)
      → IsReadyAt i (end_round div u) x
  end_round-IsReady u x rounds ready =
      let idx = set_at u.round_idx div (u.round_idx div + 1) in
      elim (Bool-cases (str_eq div x)) [
        | inl t ↦
            subst (λ y. HasNext (i.div_rounds y) (idx y) (set_at u.pos_in_round div 0 y))
              ((eq_iff div x).0 t)
              (subst (HasNext (i.div_rounds div) (idx div)) (sym (set_at_self u.pos_in_round div 0))
                (at-All (i.div_rounds div) (idx div) (rounds div)))
        | inr ne ↦
            subst (λ ri. HasNext (i.div_rounds x) ri (set_at u.pos_in_round div 0 x))
              (sym (set_at_ne u.round_idx div x (u.round_idx div + 1) ne))
              (subst (HasNext (i.div_rounds x) (u.round_idx x))
                (sym (set_at_ne u.pos_in_round div x 0 ne)) (ready ne))
      ]

  pub division_turn-done :
      (t : Turn) → length (i.div_rounds div) ≤ t.round_idx div → division_turn i slot div t ≡ t
  unfolding division_turn
  division_turn-done t done =
      let e : leb (length (i.div_rounds div)) (t.round_idx div) ≡ true = ground arith in
      rw (e, division_turn) refl

  pub division_turn-going :
      (t : Turn)
      → t.round_idx div < length (i.div_rounds div)
      → division_turn i slot div t
        ≡ round_over div
            (cur_round i t div)
            (fill_division i slot div (cur_round i t div) (courts_for i div) t)
  unfolding division_turn
  division_turn-going t going =
      let e : leb (length (i.div_rounds div)) (t.round_idx div) ≡ false = ground arith in
      rw (e, division_turn) refl

  going-IsReady :
      (t u : Turn) (x : String)
      → HasRounds i
      → IsBeside t u
      → IsReady i t
      → IsReadyAt i (round_over div (cur_round i t div) u) x
  going-IsReady t u x rounds beside ready =
      let round = cur_round i t div in
      elim (Bool-cases (leb (length round) (u.pos_in_round div))) [
        | inl over ↦
            rw over (end_round-IsReady u x rounds (λ ne. ready-IsBeside t u x beside ne (ready x)))
        | inr more ↦ elim (Bool-cases (str_eq div x)) [
          | inr ne ↦ rw more (ready-IsBeside t u x beside ne (ready x))
          | inl same ↦
              let less : u.pos_in_round div < length round = ground (arith, more) in
              let here : IsReadyAt i u div =
                subst (λ ri. HasNext (i.div_rounds div) ri (u.pos_in_round div))
                  (sym (ap (λ f. f div) beside.0)) (λ _. less) in
              rw more (subst (IsReadyAt i u) ((eq_iff div x).0 same) here)
        ]
      ]

  pub division_turn-IsReady :
      (t : Turn) → HasRounds i → IsReady i t → IsReady i (division_turn i slot div t)
  division_turn-IsReady t rounds ready x =
      elim (Bool-cases (leb (length (i.div_rounds div)) (t.round_idx div))) [
        | inl done ↦
            subst (λ v. IsReadyAt i v x) (sym (division_turn-done t (ground (arith, done))))
              (ready x)
        | inr going ↦
            subst (λ v. IsReadyAt i v x) (sym (division_turn-going t (ground (arith, going))))
              (going-IsReady t _ x rounds (fill_division-IsBeside (courts_for i div) t) ready)
      ]

pub slot_turn-IsReady :
    (i : Agenda) (slot : ℕ) (divs : List String) (t : Turn)
    → HasRounds i
    → IsReady i t
    → IsReady i (slot_turn i slot divs t)
unfolding slot_turn
slot_turn-IsReady i slot [] t rounds ready = ready
slot_turn-IsReady i slot (d ∷ divs) t rounds ready =
    slot_turn-IsReady i slot divs (division_turn i slot d t) rounds
      (division_turn-IsReady i slot d t rounds ready)
