-- ===== src/Standings/Runs.antt =====
-- The tests of the standings are asymmetric, and the runs of a rank part the table.
use Prim.Native.Nat.{Ordering, compare as compare_ℕ}
use Prim.Native.Char.{code}
use Prim.Native.String.{[] as nil, ◌∷◌ as cons, compare as str_compare, then}
use Prim.Native.String.compare
use plan_my_pickle_backend.Base.{
  ℕ, ◌+◌, ◌≤◌, ◌<◌, ◌≡◌, refl, sym, ap, ◌∙◌, inl, inr, Bool, true, false, List, [], ◌∷◌, String,
  Bool-cases, All, All-map, arith, length, total,
}
use plan_my_pickle_backend.Schedule.Mixer.{str_ltb}
use plan_my_pickle_backend.Standings.Adjacent.{Adjacent}
use plan_my_pickle_backend.Standings.{Standing, same_rank, wins_tie, take_rank, drop_rank}

flip : Ordering → Ordering
flip Ordering.lt = Ordering.gt
flip Ordering.eq = Ordering.eq
flip Ordering.gt = Ordering.lt

then-flip : (o p : Ordering) → then (flip o) (flip p) ≡ flip (then o p)
unfolding flip
then-flip Ordering.lt p = refl
then-flip Ordering.eq p = refl
then-flip Ordering.gt p = refl

compare_ℕ-flip : (a b : ℕ) → compare_ℕ b a ≡ flip (compare_ℕ a b)
unfolding flip
compare_ℕ-flip a b = ground arith

str_compare-flip : (s t : String) → str_compare t s ≡ flip (str_compare s t)
unfolding flip
str_compare-flip nil nil = refl
str_compare-flip nil (cons d t) = compare.cons-nil d t ∙ ap flip (sym (compare.nil-cons d t))
str_compare-flip (cons c s) nil = compare.nil-cons c s ∙ ap flip (sym (compare.cons-nil c s))
str_compare-flip (cons c s) (cons d t) =
    compare.cons-cons d c t s
    ∙ ap (λ o. then o (str_compare t s)) (compare_ℕ-flip (code c) (code d))
    ∙ ap (then (flip (compare_ℕ (code c) (code d)))) (str_compare-flip s t)
    ∙ then-flip (compare_ℕ (code c) (code d)) (str_compare s t)
    ∙ ap flip (sym (compare.cons-cons c d s t))

is_lt : Ordering → Bool
is_lt Ordering.lt = true
is_lt Ordering.eq = false
is_lt Ordering.gt = false

is_lt-flip : (o : Ordering) → is_lt o ≡ true → is_lt (flip o) ≡ false
unfolding flip is_lt
is_lt-flip Ordering.lt h = refl
is_lt-flip Ordering.eq h = refl
is_lt-flip Ordering.gt h = ground arith

str_ltb-is_lt : (s t : String) → str_ltb s t ≡ is_lt (str_compare s t)
unfolding is_lt
str_ltb-is_lt s t = refl

str_ltb_asym : (s t : String) → str_ltb s t ≡ true → str_ltb t s ≡ false
str_ltb_asym s t h =
    str_ltb-is_lt t s
    ∙ ap is_lt (str_compare-flip s t)
    ∙ is_lt-flip (str_compare s t) (sym (str_ltb-is_lt s t) ∙ h)

pub wins_tie_asym :
    (diff_first : Bool) (gw : String → ℕ) (a b : Standing)
    → wins_tie diff_first gw a b ≡ true
    → wins_tie diff_first gw b a ≡ false
unfolding wins_tie
wins_tie_asym d gw a b h = ground (arith, str_ltb_asym a.player_id b.player_id)

-- The rows of a rank and the others are the table.
pub take_rank-total :
    (d : Bool) (x : Standing) (w : Standing → ℕ) (out : List Standing)
    → total w (take_rank d x out) + total w (drop_rank d x out) ≡ total w out
unfolding take_rank drop_rank
take_rank-total d x w [] = omega arith
take_rank-total d x w (y ∷ out) = elim (Bool-cases (same_rank d y x)) [
  | inl e ↦ rw e (omega (arith, take_rank-total d x w out))
  | inr e ↦ rw e (omega arith)
]

pub drop_rank-length :
    (d : Bool) (x : Standing) (out : List Standing) → length (drop_rank d x out) ≤ length out
unfolding drop_rank
drop_rank-length d x [] = omega arith
drop_rank-length d x (y ∷ out) = elim (Bool-cases (same_rank d y x)) [
  | inl e ↦ rw e (omega (arith, drop_rank-length d x out))
  | inr e ↦ rw e (omega arith)
]

module _ (P : Standing → Type 0) (d : Bool) (x : Standing) where
  pub take_rank-All : (out : List Standing) → All P out → All P (take_rank d x out)
  unfolding take_rank
  take_rank-All [] h = tt
  take_rank-All (y ∷ out) h = elim (Bool-cases (same_rank d y x)) [
    | inl e ↦ rw e (h.0, take_rank-All out h.1)
    | inr e ↦ rw e tt
  ]

  pub drop_rank-All : (out : List Standing) → All P out → All P (drop_rank d x out)
  unfolding drop_rank
  drop_rank-All [] h = tt
  drop_rank-All (y ∷ out) h = elim (Bool-cases (same_rank d y x)) [
    | inl e ↦ rw e (drop_rank-All out h.1)
    | inr e ↦ rw e h
  ]

-- Never more wins further down.
abbrev pub Falls : List Standing → Type 0
Falls [] = Unit
Falls (x ∷ out) = All (λ y. y.wins ≤ x.wins) out × Falls out

same_rank-wins : (y x : Standing) → same_rank false y x ≡ true → y.wins ≡ x.wins
unfolding same_rank
same_rank-wins y x h = ground arith

other_rank-wins : (y x : Standing) → same_rank false y x ≡ false → y.wins ≤ x.wins → y.wins < x.wins
unfolding same_rank
other_rank-wins y x h low = ground arith

module _ (x : Standing) where
  pub take_rank-wins : (out : List Standing) → All (λ y. y.wins ≡ x.wins) (take_rank false x out)
  unfolding take_rank
  take_rank-wins [] = tt
  take_rank-wins (y ∷ out) = elim (Bool-cases (same_rank false y x)) [
    | inl e ↦ rw e (same_rank-wins y x e, take_rank-wins out)
    | inr e ↦ rw e tt
  ]

  pub drop_rank-wins :
      (out : List Standing)
      → All (λ y. y.wins ≤ x.wins) out
      → Falls out
      → All (λ y. y.wins < x.wins) (drop_rank false x out)
  unfolding drop_rank
  drop_rank-wins [] low falls = tt
  drop_rank-wins (y ∷ out) low falls = elim (Bool-cases (same_rank false y x)) [
    | inl e ↦ rw e (drop_rank-wins out low.1 falls.1)
    | inr e ↦
        let less = other_rank-wins y x e low.0 in
        rw e (less, All-map _ _ out (λ z h. omega (arith, h, less)) falls.0)
  ]

  pub drop_rank-Falls : (out : List Standing) → Falls out → Falls (drop_rank false x out)
  unfolding drop_rank
  drop_rank-Falls [] falls = tt
  drop_rank-Falls (y ∷ out) falls = elim (Bool-cases (same_rank false y x)) [
    | inl e ↦ rw e (drop_rank-Falls out falls.1)
    | inr e ↦ rw e falls
  ]

pub Adjacent-Falls : (out : List Standing) → Adjacent (λ a b. b.wins ≤ a.wins) out → Falls out
Adjacent-Falls [] h = tt
Adjacent-Falls (x ∷ []) h = (tt, tt)
Adjacent-Falls (x ∷ y ∷ out) h =
    let rest = Adjacent-Falls (y ∷ out) h.1 in
    ((h.0, All-map _ _ out (λ z low. omega (arith, low, h.0)) rest.0), rest)
