-- ===== src/Arrange/Left.antt =====
-- What the divisions have left: every match is either placed, once, or left.
use plan_my_pickle_backend.Base.{
  ℕ, zero, suc, ◌+◌, ◌≤◌, ◌<◌, ◌≡◌, refl, sym, subst, ap, ◌∙◌, inl, inr, false, List, [], ◌∷◌, ◌++◌,
  String, str_eq, Bool-cases, length, drop, get_or, count, hit, hit_self, hit_ne, IsDistinct, weigh,
  weigh-append, ids_by, arith, eq_iff, min,
}
use plan_my_pickle_backend.Arrange.{Agenda, Turn, place_next, end_round, set_at}
use plan_my_pickle_backend.Arrange.Keyed.{place-count}
use plan_my_pickle_backend.Arrange.Steps.{Step, put, next, cur_round, cur_match}

abbrev pub flatten : List (List String) → List String
flatten [] = []
flatten (r ∷ rounds) = r ++ flatten rounds

-- The matches of the rounds from a place on.
abbrev pub left_of : List (List String) → ℕ → ℕ → List String
left_of [] ri k = []
left_of (r ∷ rounds) zero k = drop k r ++ flatten rounds
left_of (r ∷ rounds) (suc ri) k = left_of rounds ri k

drop-weigh :
    (g : String → ℕ) (r : List String) (k : ℕ)
    → k < length r
    → weigh g (drop k r) ≡ g (get_or r k "") + weigh g (drop (suc k) r)
drop-weigh g [] k h = absurd (omega arith)
drop-weigh g (m ∷ r) zero h = refl
drop-weigh g (m ∷ r) (suc k) h = drop-weigh g r k (omega arith)

drop-weigh_over : (g : String → ℕ) (r : List String) (k : ℕ) → length r ≤ k → weigh g (drop k r) ≡ 0
drop-weigh_over g [] zero h = refl
drop-weigh_over g [] (suc k) h = refl
drop-weigh_over g (m ∷ r) zero h = absurd (omega arith)
drop-weigh_over g (m ∷ r) (suc k) h = drop-weigh_over g r k (omega arith)

left_of-put :
    (g : String → ℕ) (rounds : List (List String)) (ri k : ℕ)
    → ri < length rounds
    → k < length (get_or rounds ri [])
    → weigh g (left_of rounds ri k)
      ≡ g (get_or (get_or rounds ri []) k "") + weigh g (left_of rounds ri (suc k))
left_of-put g [] ri k h hk = absurd (omega arith)
left_of-put g (r ∷ rounds) zero k h hk = omega (
  arith,
  weigh-append g (drop k r) (flatten rounds),
  weigh-append g (drop (suc k) r) (flatten rounds),
  drop-weigh g r k hk,
)
left_of-put g (r ∷ rounds) (suc ri) k h hk = left_of-put g rounds ri k (omega arith) hk

pub left_of_fresh : (rounds : List (List String)) → left_of rounds 0 0 ≡ flatten rounds
left_of_fresh [] = refl
left_of_fresh (r ∷ rounds) = refl

left_of-next :
    (g : String → ℕ) (rounds : List (List String)) (ri k : ℕ)
    → ri < length rounds
    → length (get_or rounds ri []) ≤ k
    → weigh g (left_of rounds ri k) ≡ weigh g (left_of rounds (suc ri) 0)
left_of-next g [] ri k h hk = absurd (omega arith)
left_of-next g (r ∷ rounds) zero k h hk = omega (
  arith,
  weigh-append g (drop k r) (flatten rounds),
  drop-weigh_over g r k hk,
  ap (weigh g) (left_of_fresh rounds),
)
left_of-next g (r ∷ rounds) (suc ri) k h hk = left_of-next g rounds ri k (omega arith) hk

pub left_of_done :
    (g : String → ℕ) (rounds : List (List String)) (ri k : ℕ)
    → length rounds ≤ ri
    → weigh g (left_of rounds ri k) ≡ 0
left_of_done g [] ri k h = refl
left_of_done g (r ∷ rounds) zero k h = absurd (omega arith)
left_of_done g (r ∷ rounds) (suc ri) k h = left_of_done g rounds ri k (omega arith)

-- Two measures that agree but at one key.
module _ (f h : String → ℕ) (d : String) (k : ℕ)
    (other : (x : String) → str_eq d x ≡ false → f x ≡ h x) where
  weigh_same : (xs : List String) → count d xs ≡ 0 → weigh f xs ≡ weigh h xs
  weigh_same [] n = refl
  weigh_same (x ∷ xs) n = elim (Bool-cases (str_eq d x)) [
    | inl t ↦
        let e : d ≡ x = (eq_iff d x).0 t in
        let one : hit x d ≡ 1 = subst (λ y. hit y d ≡ 1) e (hit_self d) in
        absurd (omega (arith, n, one))
    | inr ne ↦ omega (arith, n, other x ne, weigh_same xs)
  ]

  weigh_change : f d ≡ k + h d → (xs : List String) → count d xs ≡ 1 → weigh f xs ≡ k + weigh h xs
  weigh_change at [] n = absurd (omega arith)
  weigh_change at (x ∷ xs) n = elim (Bool-cases (str_eq d x)) [
    | inl t ↦
        let e : d ≡ x = (eq_iff d x).0 t in
        let one : hit x d ≡ 1 = subst (λ y. hit y d ≡ 1) e (hit_self d) in
        omega (arith, n, one, at, weigh_same xs, ap f e, ap h e)
    | inr ne ↦
        let zero_hit : hit x d ≡ 0 =
          hit_ne x d (λ e. absurd (let t = (eq_iff d x).1 (sym e) in cc)) in
        omega (arith, n, zero_hit, other x ne, weigh_change at xs)
  ]

pub set_at_self : (f : String → ℕ) (k : String) (v : ℕ) → set_at f k v k ≡ v
set_at_self f k v = rw ((eq_iff k k).1 refl) refl

pub set_at_ne : (f : String → ℕ) (k x : String) (v : ℕ) → str_eq k x ≡ false → set_at f k v x ≡ f x
set_at_ne f k x v e = rw e refl

module _ (i : Agenda) (g : String → ℕ) where
  -- What a division has left, and all of them.
  abbrev pub left_in : (String → ℕ) → (String → ℕ) → String → ℕ
  left_in idx at d = weigh g (left_of (i.div_rounds d) (idx d) (at d))

  abbrev pub left : Turn → ℕ
  left t = weigh (left_in t.round_idx t.pos_in_round) i.div_order

  pub left-put :
      (slot : ℕ) (div : String) (court : ℕ) (t : Turn)
      → count div i.div_order ≡ 1
      → t.round_idx div < length (i.div_rounds div)
      → t.pos_in_round div < length (cur_round i t div)
      → left t ≡ g (cur_match i t div) + left (place_next i slot div (cur_match i t div) court t)
  left-put slot div court t once going more =
      let at' = set_at t.pos_in_round div (t.pos_in_round div + 1) in
      let here : at' div ≡ suc (t.pos_in_round div) =
        set_at_self t.pos_in_round div (t.pos_in_round div + 1) ∙ omega arith in
      weigh_change (left_in t.round_idx t.pos_in_round) (left_in t.round_idx at') div
        (g (cur_match i t div))
        (λ x ne.
          ap (λ k. weigh g (left_of (i.div_rounds x) (t.round_idx x) k))
            (sym (set_at_ne t.pos_in_round div x (t.pos_in_round div + 1) ne)))
        (left_of-put g (i.div_rounds div) (t.round_idx div) (t.pos_in_round div) going more
          ∙ ap
              (λ k.
                g (cur_match i t div) + weigh g (left_of (i.div_rounds div) (t.round_idx div) k))
              (sym here))
        i.div_order once

  pub left-next :
      (div : String) (t : Turn)
      → count div i.div_order ≡ 1
      → t.round_idx div < length (i.div_rounds div)
      → length (cur_round i t div) ≤ t.pos_in_round div
      → left t ≡ left (end_round div t)
  left-next div t once going over =
      let idx' = set_at t.round_idx div (t.round_idx div + 1) in
      let at' = set_at t.pos_in_round div 0 in
      let here : idx' div ≡ suc (t.round_idx div) =
        set_at_self t.round_idx div (t.round_idx div + 1) ∙ omega arith in
      let change =
        weigh_change (left_in t.round_idx t.pos_in_round) (left_in idx' at') div 0
          (λ x ne.
            ap (λ k. weigh g (left_of (i.div_rounds x) k (t.pos_in_round x)))
              (sym (set_at_ne t.round_idx div x (t.round_idx div + 1) ne))
            ∙ ap (λ k. weigh g (left_of (i.div_rounds x) (idx' x) k))
                (sym (set_at_ne t.pos_in_round div x 0 ne)))
          (omega (
            arith,
            left_of-next g (i.div_rounds div) (t.round_idx div) (t.pos_in_round div) going over
                ∙ ap (λ k. weigh g (left_of (i.div_rounds div) k 0)) (sym here)
                ∙ ap (λ k. weigh g (left_of (i.div_rounds div) (idx' div) k))
                    (sym (set_at_self t.pos_in_round div 0)),
          ))
          i.div_order once in
      omega (arith, change)

-- The matches that have been placed, the last one first.
abbrev pub placed_ids : Turn → List String
placed_ids t = ids_by (λ p. p.0) t.board.placements

-- An id that is `n` times in the rounds is placed or left as often, and has one placement if it is
-- placed at all.
abbrev pub IsKept : Agenda → String → ℕ → Turn → Type 0
IsKept i a n t = (k : ℕ) × (k + left i (λ y. hit y a) t ≡ n) × (count a (placed_ids t) ≡ min 1 k)

pub Step-IsKept :
    (i : Agenda) (a : String) (n slot : ℕ) (t u : Turn)
    → IsDistinct i.div_order
    → Step i slot t u
    → IsKept i a n t
    → IsKept i a n u
Step-IsKept i a n slot _ _ distinct (put t div court known going more own free fine) (k, all, one) =
    let m = cur_match i t div in
    let less =
      left-put i (λ y. hit y a) slot div court t (omega (arith, distinct div)) going more in
    (hit m a + k, omega (arith, all, less), place-count m a t.board.placements k one)
Step-IsKept i a n slot _ _ distinct (next t div known going over) (k, all, one) =
    let same = left-next i (λ y. hit y a) div t (omega (arith, distinct div)) going over in
    (k, omega (arith, all, same), one)

-- The two counters of the loop.
abbrev pub IsCounted : Agenda → Turn → Type 0
IsCounted i t =
    (t.remaining ≡ left i (λ _. 1) t) × (t.board.scheduled + t.remaining ≡ i.total_matches)

pub Step-IsCounted :
    (i : Agenda) (slot : ℕ) (t u : Turn)
    → IsDistinct i.div_order
    → Step i slot t u
    → IsCounted i t
    → IsCounted i u
Step-IsCounted i slot _ _ distinct (put t div court known going more own free fine) (rest, all) =
    let less = left-put i (λ _. 1) slot div court t (omega (arith, distinct div)) going more in
    (omega (arith, rest, less), omega (arith, rest, all, less))
Step-IsCounted i slot _ _ distinct (next t div known going over) (rest, all) =
    (omega (arith, rest, left-next i (λ _. 1) div t (omega (arith, distinct div)) going over), all)
