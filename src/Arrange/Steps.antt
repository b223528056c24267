-- ===== src/Arrange/Steps.antt =====
-- The turns of the interleaving loop as steps: a match is placed, or a division goes on to its next
-- round.
use plan_my_pickle_backend.Base.{
  ℕ, zero, suc, ◌≤◌, ◌<◌, ◌≡◌, ◌⊎◌, refl, sym, subst, ap, ◌∙◌, inl, inr, true, false, none, some,
  List, [], ◌∷◌, ◌++◌, append_assoc, String, leb, ltb, Bool-cases, count-append, All, length,
  get_or, count, hit_self, arith, ==_iff,
}
use plan_my_pickle_backend.Arrange.{
  Agenda, Turn, has_court, courts_for, conflict_at, place_next, end_round, court_turn,
  fill_division, division_turn, slot_turn, new_slot, interleave_loop,
}

abbrev pub cur_round : Agenda → Turn → String → List String
cur_round i t div = get_or (i.div_rounds div) (t.round_idx div) []

abbrev pub cur_match : Agenda → Turn → String → String
cur_match i t div = get_or (cur_round i t div) (t.pos_in_round div) ""

pub data Step (i : Agenda) (slot : ℕ) : Turn → Turn → Type 0 where
  put :
      (t : Turn) (div : String) (court : ℕ)
      → 0 < count div i.div_order
      → t.round_idx div < length (i.div_rounds div)
      → t.pos_in_round div < length (cur_round i t div)
      → has_court (courts_for i div) court ≡ true
      → has_court t.used_court court ≡ false
      → conflict_at i t.board slot (cur_match i t div) ≡ false
      → Step i slot t (place_next i slot div (cur_match i t div) court t)
  next :
      (t : Turn) (div : String)
      → 0 < count div i.div_order
      → t.round_idx div < length (i.div_rounds div)
      → length (cur_round i t div) ≤ t.pos_in_round div
      → Step i slot t (end_round div t)

pub data Steps (i : Agenda) (slot : ℕ) : Turn → Turn → Type 0 where
  stay : (t : Turn) → Steps i slot t t
  and : {t u v : Turn} → Step i slot t u → Steps i slot u v → Steps i slot t v

pub Steps-append :
    (i : Agenda) (slot : ℕ) {t u v : Turn} → Steps i slot t u → Steps i slot u v → Steps i slot t v
Steps-append i slot (stay t) r = r
Steps-append i slot (and s q) r = and s (Steps-append i slot q r)

-- What every step keeps, the steps keep.
pub Steps-keep :
    (i : Agenda) (slot : ℕ) (P : Turn → Type 0)
    → ((t u : Turn) → Step i slot t u → P t → P u)
    → {t u : Turn} → Steps i slot t u
    → P t
    → P u
Steps-keep i slot P keep (stay t) p = p
Steps-keep i slot P keep (and {t} {u} s q) p = Steps-keep i slot P keep q (keep t u s p)

pub court_turn-put :
    (i : Agenda) (slot : ℕ) (div : String) (c : ℕ) (t : Turn)
    → leb (length (cur_round i t div)) (t.pos_in_round div) ≡ false
    → has_court t.used_court c ≡ false
    → conflict_at i t.board slot (cur_match i t div) ≡ false
    → court_turn i slot div (cur_round i t div) c t
      ≡ some (place_next i slot div (cur_match i t div) c t)
unfolding court_turn
court_turn-put i slot div c t left free fine = rw (left, free, fine) refl

-- What a court does: it breaks the loop, it is passed over, or it gets the next match.
pub court_turn-cases :
    (i : Agenda) (slot : ℕ) (div : String) (c : ℕ) (t : Turn)
    → (court_turn i slot div (cur_round i t div) c t ≡ none)
      ⊎ ((court_turn i slot div (cur_round i t div) c t ≡ some t)
          ⊎ ((court_turn i slot div (cur_round i t div) c t
                ≡ some (place_next i slot div (cur_match i t div) c t))
              × (t.pos_in_round div < length (cur_round i t div))
              × (has_court t.used_court c ≡ false)
              × (conflict_at i t.board slot (cur_match i t div) ≡ false)))
unfolding court_turn
court_turn-cases i slot div c t =
    elim (Bool-cases (leb (length (cur_round i t div)) (t.pos_in_round div))) [
      | inl over ↦ inl (rw over refl)
      | inr left ↦ elim (Bool-cases (has_court t.used_court c)) [
        | inl used ↦ inr (inl (rw (left, used) refl))
        | inr free ↦ elim (Bool-cases (conflict_at i t.board slot (cur_match i t div))) [
          | inl clash ↦ inl (rw (left, free, clash) refl)
          | inr fine ↦
              inr (
                inr
                  (court_turn-put i slot div c t left free fine, ground (arith, left), free, fine))
        ]
      ]
    ]

pub fill_division-none :
    (i : Agenda) (slot : ℕ) (div : String) (round : List String) (c : ℕ) (courts : List ℕ)
    (t : Turn)
    → court_turn i slot div round c t ≡ none
    → fill_division i slot div round (c ∷ courts) t ≡ t
unfolding fill_division
fill_division-none i slot div round c courts t e = rw (e, fill_division) refl

pub fill_division-some :
    (i : Agenda) (slot : ℕ) (div : String) (round : List String) (c : ℕ) (courts : List ℕ)
    (t u : Turn)
    → court_turn i slot div round c t ≡ some u
    → fill_division i slot div round (c ∷ courts) t ≡ fill_division i slot div round courts u
unfolding fill_division
fill_division-some i slot div round c courts t u e = rw (e, fill_division) refl

module _ (i : Agenda) (slot : ℕ) (div : String) (known : 0 < count div i.div_order) where
  -- The steps of a turn, which stays in its round.
  abbrev pub Goes : Turn → Turn → Type 0
  Goes t u = Steps i slot t u × (u.round_idx ≡ t.round_idx)

  pub fill_division-Steps :
      (courts : List ℕ) (t : Turn)
      → t.round_idx div < length (i.div_rounds div)
      → All (λ c. has_court (courts_for i div) c ≡ true) courts
      → Goes t (fill_division i slot div (cur_round i t div) courts t)
  unfolding fill_division
  fill_division-Steps [] t going own = (stay t, refl)
  fill_division-Steps (c ∷ courts) t going own =
      let round = cur_round i t div in
      elim (court_turn-cases i slot div c t) [
        | inl e ↦
            subst (Goes t) (sym (fill_division-none i slot div round c courts t e)) (stay t, refl)
        | inr (inl e) ↦
            subst (Goes t) (sym (fill_division-some i slot div round c courts t t e))
              (fill_division-Steps courts t going own.1)
        | inr (inr (e, left, free, fine)) ↦
            let t' = place_next i slot div (cur_match i t div) c t in
            let (steps, same) = fill_division-Steps courts t' going own.1 in
            subst (Goes t) (sym (fill_division-some i slot div round c courts t t' e))
              (and (put t div c known going left own.0 free fine) steps, same)
      ]

has_court-at : (front courts : List ℕ) (c : ℕ) → has_court (front ++ c ∷ courts) c ≡ true
has_court-at [] courts c = ground (arith, ==_iff c c)
has_court-at (d ∷ front) courts c = ground (arith, has_court-at front courts c)

has_court-append : (front courts : List ℕ) → All (λ c. has_court (front ++ courts) c ≡ true) courts
has_court-append front [] = tt
has_court-append front (c ∷ courts) = (
  has_court-at front courts c,
  subst (λ all. All (λ d. has_court all d ≡ true) courts) (append_assoc front (c ∷ []) courts)
      (has_court-append (front ++ c ∷ []) courts),
)

pub has_court_self : (courts : List ℕ) → All (λ c. has_court courts c ≡ true) courts
has_court_self courts = has_court-append [] courts

-- The turn of a division.
pub division_turn-Steps :
    (i : Agenda) (slot : ℕ) (div : String) (t : Turn)
    → 0 < count div i.div_order
    → Steps i slot t (division_turn i slot div t)
unfolding division_turn
division_turn-Steps i slot div t known =
    elim (Bool-cases (leb (length (i.div_rounds div)) (t.round_idx div))) [
      | inl done ↦ rw done (stay t)
      | inr going ↦
          let round = cur_round i t div in
          let u = fill_division i slot div round (courts_for i div) t in
          let less : t.round_idx div < length (i.div_rounds div) = ground (arith, going) in
          let (steps, same) =
            fill_division-Steps i slot div known (courts_for i div) t less
              (has_court_self (courts_for i div)) in
          elim (Bool-cases (leb (length round) (u.pos_in_round div))) [
            | inr more ↦ rw (going, more) steps
            | inl over ↦
                let at : u.round_idx div ≡ t.round_idx div = ap (λ f. f div) same in
                let here : cur_round i u div ≡ round =
                  ap (λ r. get_or (i.div_rounds div) r []) at in
                rw (going, over)
                  (Steps-append i slot steps (
                    and
                      (next u div known (omega (arith, at, less)) (rw here (ground (arith, over))))
                      (stay (end_round div u))))
          ]
    ]

-- The turns of the divisions in a slot.
pub slot_turn-Steps :
    (i : Agenda) (slot : ℕ) (divs : List String) (t : Turn)
    → All (λ d. 0 < count d i.div_order) divs
    → Steps i slot t (slot_turn i slot divs t)
unfolding slot_turn
slot_turn-Steps i slot [] t known = stay t
slot_turn-Steps i slot (div ∷ divs) t known =
    Steps-append i slot (division_turn-Steps i slot div t known.0)
      (slot_turn-Steps i slot divs (division_turn i slot div t) known.1)

pub interleave_loop-over :
    (i : Agenda) (turns slot : ℕ) (t : Turn)
    → ltb 0 t.remaining ≡ false
    → interleave_loop turns i slot t ≡ t
unfolding interleave_loop
interleave_loop-over i zero slot t e = refl
interleave_loop-over i (suc turns) slot t e = rw (e, interleave_loop) refl

pub interleave_loop-more :
    (i : Agenda) (turns slot : ℕ) (t : Turn)
    → ltb 0 t.remaining ≡ true
    → interleave_loop (suc turns) i slot t
      ≡ interleave_loop turns i (suc slot) (slot_turn i slot i.div_order (new_slot t))
unfolding interleave_loop
interleave_loop-more i turns slot t e = rw (e, interleave_loop) refl

counted : (order front ds : List String) → order ≡ front ++ ds → All (λ d. 0 < count d order) ds
counted order front [] e = tt
counted order front (d ∷ ds) e = (
  rw e (omega (arith, count-append d front (d ∷ ds), hit_self d)),
  counted order (front ++ d ∷ []) ds (e ∙ sym (append_assoc front (d ∷ []) ds)),
)

pub known_divisions : (ds : List String) → All (λ d. 0 < count d ds) ds
known_divisions ds = counted ds [] ds refl

-- What every step keeps, and a new slot, the loop keeps.
pub interleave_loop-keep :
    (i : Agenda) (P : ℕ → Turn → Type 0)
    → ((slot : ℕ) (t u : Turn) → Step i slot t u → P slot t → P slot u)
    → ((slot : ℕ) (t : Turn) → P slot t → P (suc slot) (new_slot t))
    → (turns slot : ℕ) (t : Turn) → P slot (new_slot t)
    → (s : ℕ) × P s (new_slot (interleave_loop turns i slot t))
unfolding interleave_loop
interleave_loop-keep i P keep fresh zero slot t p = (slot, p)
interleave_loop-keep i P keep fresh (suc turns) slot t p = elim (Bool-cases (ltb 0 t.remaining)) [
  | inr over ↦
      subst (λ u. (s : ℕ) × P s (new_slot u)) (sym (interleave_loop-over i (suc turns) slot t over))
        (slot, p)
  | inl more ↦
      let u = slot_turn i slot i.div_order (new_slot t) in
      let steps = slot_turn-Steps i slot i.div_order (new_slot t) (known_divisions i.div_order) in
      let after = fresh slot u (Steps-keep i slot (P slot) (keep slot) steps p) in
      subst (λ v. (s : ℕ) × P s (new_slot v)) (sym (interleave_loop-more i turns slot t more))
        (interleave_loop-keep i P keep fresh turns (suc slot) u after)
]
