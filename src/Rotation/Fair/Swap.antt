-- ===== src/Rotation/Fair/Swap.antt =====
-- The swap loop: each seat that it writes to still holds the player it was sorted by.
use plan_my_pickle_backend.Base.{
  ℕ, zero, suc, ◌+◌, ◌≤◌, ◌<◌, ◌≡◌, refl, subst, append_assoc, ◌∙◌, inl, inr, List, [], ◌∷◌, ◌++◌,
  String, arith, Bool-cases, All, hit_self, count, count-append, weigh, IsDistinct, length,
  length-append, get_elem?, leb,
}
use plan_my_pickle_backend.Rotation.{RotCourt, court_ids, seated, IsNumbered}
use plan_my_pickle_backend.Rotation.Fair.{SeatRef, seat_refs, put_id, set_seat, Swapped, swap_loop}
use plan_my_pickle_backend.Base.{ids_by}
use plan_my_pickle_backend.Rotation.Fair.Seats.{
  sitter, Sits, set_seat-weigh, set_seat-count, set_seat-Sits,
}

module _ (played : String → ℕ) where
  -- A swap loop trades the players it takes off for those it lets on, and each trade takes at
  -- least one game off the courts' total.
  pub record Traded (courts : List RotCourt) (order : List String) (off on : List String)
      (done : Swapped) : Type 0 where
    pub exchanged :
        (a : String)
        → count a (seated done.courts) + count a done.took_off + count a on
          ≡ count a (seated courts) + count a off + count a done.came_on
    pub from_bench : (a : String) → count a done.came_on ≤ count a on + count a order
    pub as_many : length done.took_off + length on ≡ length off + length done.came_on
    pub lighter :
        weigh played (seated done.courts) + length done.took_off
        ≤ weigh played (seated courts) + length off

  Traded-stop :
      (order : List String) (st : Swapped) → Traded st.courts order st.took_off st.came_on st
  Traded-stop order st = record {
    exchanged = λ a. omega arith;
    from_bench = λ a. omega arith;
    as_many = omega arith;
    lighter = omega arith;
  }

  -- The state after one swap.
  abbrev swapped : SeatRef → String → Swapped → Swapped
  swapped s w st = record {
    courts = set_seat st.courts s.court s.idx w;
    took_off = st.took_off ++ s.id ∷ [];
    came_on = w ∷ st.came_on;
  }

  Traded-swap :
      (s : SeatRef) (w : String) (order : List String) (st done : Swapped)
      → Sits st.courts s
      → played w < played s.id
      → Traded (swapped s w st).courts order (swapped s w st).took_off (swapped s w st).came_on done
      → Traded st.courts (w ∷ order) st.took_off st.came_on done
  Traded-swap s w order st done sits narrows t = record {
    exchanged = λ a. omega (
      arith,
      t.exchanged a,
      set_seat-count a w st.courts s.court s.idx s.id sits,
      count-append a st.took_off (s.id ∷ []),
    );
    from_bench = λ a. omega (arith, t.from_bench a);
    as_many = omega (arith, t.as_many, length-append st.took_off (s.id ∷ []));
    lighter = omega (
      arith,
      t.lighter,
      set_seat-weigh played w st.courts s.court s.idx s.id sits,
      length-append st.took_off (s.id ∷ []),
    );
  }

  pub swap_loop-Traded :
      (k : ℕ) (seats : List SeatRef) (order : List String) (st : Swapped)
      → All (Sits st.courts) seats
      → IsDistinct (ids_by (λ s. s.id) seats)
      → Traded st.courts order st.took_off st.came_on (swap_loop played k seats order st)
  unfolding swap_loop
  swap_loop-Traded zero seats order st h d = Traded-stop order st
  swap_loop-Traded (suc k) [] order st h d = Traded-stop order st
  swap_loop-Traded (suc k) (s ∷ seats) [] st h d = Traded-stop [] st
  swap_loop-Traded (suc k) (s ∷ seats) (w ∷ order) st h d =
      elim (Bool-cases (leb (played s.id) (played w))) [
        | inl stop ↦ rw (stop, swap_loop) (Traded-stop (w ∷ order) st)
        | inr go ↦
            let alone : count s.id (ids_by (λ t. t.id) seats) ≡ 0 =
              omega (arith, d s.id, hit_self s.id) in
            rw (go, swap_loop)
              (Traded-swap s w order st _ h.0 (ground arith) (
                swap_loop-Traded k seats order (swapped s w st)
                  (set_seat-Sits w s.id st.courts s.court s.idx seats h.0 alone h.1)
                  (λ a. omega (arith, d a))))
      ]

sitter-at :
    (pre : List RotCourt) (c : RotCourt) (cs : List RotCourt) (k i : ℕ)
    → length pre ≡ k
    → sitter (pre ++ c ∷ cs) k i ≡ get_elem? (court_ids c) i
sitter-at [] c cs zero i e = refl
sitter-at [] c cs (suc k) i e = absurd (omega arith)
sitter-at (p ∷ pre) c cs zero i e = absurd (omega arith)
sitter-at (p ∷ pre) c cs (suc k) i e = sitter-at pre c cs k i (omega arith)

-- Every reference names the sitter of its own seat.
seat_refs-Sits_after :
    (pre courts : List RotCourt) (k : ℕ)
    → length pre ≡ k
    → All (Sits (pre ++ courts)) (seat_refs k courts)
seat_refs-Sits_after pre [] k e = tt
seat_refs-Sits_after pre (c ∷ cs) k e = (
  sitter-at pre c cs k 0 e,
  (
    sitter-at pre c cs k 1 e,
    (
      sitter-at pre c cs k 2 e,
      (
        sitter-at pre c cs k 3 e,
        subst (λ l. All (Sits l) (seat_refs (suc k) cs)) (append_assoc pre (c ∷ []) cs)
            (seat_refs-Sits_after (pre ++ c ∷ []) cs (suc k)
              (omega (arith, length-append pre (c ∷ [])))),
      ),
    ),
  ),
)

pub seat_refs-Sits : (courts : List RotCourt) → All (Sits courts) (seat_refs 0 courts)
seat_refs-Sits courts = seat_refs-Sits_after [] courts 0 refl

put_id-court : (w : String) (c : RotCourt) (i : ℕ) → (put_id c i w).court ≡ c.court
unfolding put_id
put_id-court w c zero = refl
put_id-court w c (suc zero) = refl
put_id-court w c (suc (suc zero)) = refl
put_id-court w c (suc (suc (suc zero))) = refl
put_id-court w c (suc (suc (suc (suc i)))) = refl

set_seat-IsNumbered :
    (w : String) (courts : List RotCourt) (k ci i : ℕ)
    → IsNumbered k courts
    → IsNumbered k (set_seat courts ci i w)
unfolding set_seat
set_seat-IsNumbered w [] k ci i h = tt
set_seat-IsNumbered w (c ∷ cs) k zero i h = (put_id-court w c i ∙ h.0, h.1)
set_seat-IsNumbered w (c ∷ cs) k (suc ci) i h = (h.0, set_seat-IsNumbered w cs (suc k) ci i h.1)

pub swap_loop-IsNumbered :
    (played : String → ℕ) (k : ℕ) (seats : List SeatRef) (order : List String) (st : Swapped)
    → IsNumbered 0 st.courts
    → IsNumbered 0 (swap_loop played k seats order st).courts
unfolding swap_loop
swap_loop-IsNumbered played zero seats order st h = h
swap_loop-IsNumbered played (suc k) [] order st h = h
swap_loop-IsNumbered played (suc k) (s ∷ seats) [] st h = h
swap_loop-IsNumbered played (suc k) (s ∷ seats) (w ∷ order) st h =
    elim (Bool-cases (leb (played s.id) (played w))) [
      | inl stop ↦ rw (stop, swap_loop) h
      | inr go ↦
          rw (go, swap_loop)
            (swap_loop-IsNumbered played k seats order (swapped played s w st)
              (set_seat-IsNumbered w st.courts 0 s.court s.idx h))
    ]
