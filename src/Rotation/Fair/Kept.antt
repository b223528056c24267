-- ===== src/Rotation/Fair/Kept.antt =====
-- Who stands in a seat after the fairness pass: whoever the plain round puts there, or somebody from its bench.
use plan_my_pickle_backend.Base.{
  ℕ, zero, suc, ◌<◌, ◌≡◌, refl, sym, ap, ◌∙◌, ◌⊎◌, inl, inr, List, [], ◌∷◌, ◌++◌, String, some,
  arith, Bool-cases, hit, hit_self, count, get_elem?, set, leb, length, ◌==◌, sort_stable,
  sort_stable-count, ids_by_self,
}
use plan_my_pickle_backend.Rotation.{RotCourt, court_ids}
use plan_my_pickle_backend.Rotation.Move.{Round, min2}
use plan_my_pickle_backend.Rotation.Fair.{
  SeatRef, seat_refs, set_seat, Swapped, swap_loop, busier, rested, fair_pass,
}
use plan_my_pickle_backend.Rotation.Fair.Seats.{sitter, put_id-set}

set-at :
    (w : String) (xs : List String) (i j : ℕ) (y : String)
    → get_elem? (set xs i w) j ≡ some y
    → (get_elem? xs j ≡ some y) ⊎ (y ≡ w)
set-at w [] i j y h = cc
set-at w (x ∷ xs) zero zero y h = inr cc
set-at w (x ∷ xs) zero (suc j) y h = inl h
set-at w (x ∷ xs) (suc i) zero y h = inl h
set-at w (x ∷ xs) (suc i) (suc j) y h = set-at w xs i j y h

set_seat-at :
    (w : String) (courts : List RotCourt) (ci i cj j : ℕ) (y : String)
    → sitter (set_seat courts ci i w) cj j ≡ some y
    → (sitter courts cj j ≡ some y) ⊎ (y ≡ w)
unfolding set_seat
set_seat-at w [] ci i cj j y h = inl h
set_seat-at w (c ∷ cs) zero i zero j y h =
    set-at w (court_ids c) i j y (sym (ap (λ xs. get_elem? xs j) (put_id-set w c i)) ∙ h)
set_seat-at w (c ∷ cs) zero i (suc cj) j y h = inl h
set_seat-at w (c ∷ cs) (suc ci) i zero j y h = inl h
set_seat-at w (c ∷ cs) (suc ci) i (suc cj) j y h = set_seat-at w cs ci i cj j y h

module _ (played : String → ℕ) (cj j : ℕ) (y : String) where
  swap_loop-at :
      (k : ℕ) (seats : List SeatRef) (order : List String) (st : Swapped)
      → sitter (swap_loop played k seats order st).courts cj j ≡ some y
      → (sitter st.courts cj j ≡ some y) ⊎ (0 < count y order)
  unfolding swap_loop
  swap_loop-at zero seats order st h = inl h
  swap_loop-at (suc k) [] order st h = inl h
  swap_loop-at (suc k) (s ∷ seats) [] st h = inl h
  swap_loop-at (suc k) (s ∷ seats) (w ∷ order) st h =
      elim (Bool-cases (leb (played s.id) (played w))) [
        | inl stop ↦
            let e : swap_loop played (suc k) (s ∷ seats) (w ∷ order) st ≡ st = rw stop refl in
            inl (ap (λ d. sitter d.courts cj j) (sym e) ∙ h)
        | inr more ↦
            let st' : Swapped = record {
              courts = set_seat st.courts s.court s.idx w;
              took_off = st.took_off ++ s.id ∷ [];
              came_on = w ∷ st.came_on;
            } in
            let e : swap_loop played (suc k) (s ∷ seats) (w ∷ order) st
                ≡ swap_loop played k seats order st' =
              rw more refl in
            elim (swap_loop-at k seats order st' (ap (λ d. sitter d.courts cj j) (sym e) ∙ h)) [
              | inr came ↦ inr (omega (arith, came))
              | inl stays ↦ elim (set_seat-at w st.courts s.court s.idx cj j y stays) [
                | inl here ↦ inl here
                | inr new ↦ inr (omega (arith, ap (λ x. hit x y) new, hit_self y))
              ]
            ]
      ]

  -- In the round after the pass.
  pub fair_pass-at :
      (next : Round)
      → sitter (fair_pass played next).courts cj j ≡ some y
      → (sitter next.courts cj j ≡ some y) ⊎ (0 < count y next.bench)
  unfolding fair_pass
  fair_pass-at next h =
      let start : Swapped = record { courts = next.courts; took_off = []; came_on = [] } in
      let order = sort_stable (rested played) next.bench in
      let seats = sort_stable (busier played) (seat_refs 0 next.courts) in
      let done = swap_loop played (min2 (length next.bench)) seats order start in
      elim (Bool-cases (length done.took_off == 0)) [
        | inl none_off ↦
            let e : fair_pass played next ≡ next = rw none_off refl in
            inl (ap (λ r. sitter r.courts cj j) (sym e) ∙ h)
        | inr some_off ↦
            let e : (fair_pass played next).courts ≡ done.courts = rw some_off refl in
            elim (swap_loop-at (min2 (length next.bench)) seats order start
              (ap (λ cs. sitter cs cj j) (sym e) ∙ h)) [
                | inl stays ↦ inl stays
                | inr came ↦ inr (
                    omega (
                      arith,
                      came,
                      sort_stable-count (rested played) (λ x. x) y next.bench,
                      ids_by_self y next.bench,
                      ids_by_self y order,
                    ))
              ]
      ]
