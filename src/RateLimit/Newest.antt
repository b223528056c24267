-- ===== src/RateLimit/Newest.antt =====
-- What it is to drop the newest time.
use plan_my_pickle_backend.Base.{
  ℕ, suc, ◌≤◌, ◌≡◌, refl, sym, ap, ◌∙◌, inl, inr, Bool, true, false, ◌||◌, List, [], ◌∷◌, ◌++◌, leb,
  if◌then◌else◌, Bool-cases, take, drop, arith,
}
use plan_my_pickle_backend.RateLimit.{newest_from, drop_newest}

-- Some time is not before `b`.
abbrev pub any_from : ℕ → List ℕ → Bool
any_from b [] = false
any_from b (t ∷ ts) = leb b t || any_from b ts

newest_from-shift :
    (i m b : ℕ) (ts : List ℕ) → newest_from (suc i) (suc m) b ts ≡ suc (newest_from i m b ts)
unfolding newest_from
newest_from-shift i m b [] = refl
newest_from-shift i m b (t ∷ ts) = elim (Bool-cases (leb b t)) [
  | inl e ↦ rw e (newest_from-shift (suc i) i t ts)
  | inr e ↦ rw e (newest_from-shift (suc i) m b ts)
]

newest_from-none : (i m b : ℕ) (ts : List ℕ) → any_from b ts ≡ false → newest_from i m b ts ≡ m
unfolding newest_from
newest_from-none i m b [] h = refl
newest_from-none i m b (t ∷ ts) h = ground (arith, newest_from-none (suc i) m b ts)

-- Once a time is not before the best so far, the best so far does not matter.
newest_from-any :
    (i m n b c : ℕ) (ts : List ℕ)
    → any_from b ts ≡ true
    → c ≤ b
    → newest_from i m b ts ≡ newest_from i n c ts
unfolding newest_from
newest_from-any i m n b c [] h low = ground arith
newest_from-any i m n b c (t ∷ ts) h low = elim (Bool-cases (leb b t)) [
  | inl e ↦ let f : leb c t ≡ true = ground arith in rw (e, f) refl
  | inr e ↦ elim (Bool-cases (leb c t)) [
    | inr f ↦ rw (e, f) (newest_from-any (suc i) m n b c ts (ground (arith, h, e)) low)
    | inl f ↦
        rw (e, f) (newest_from-any (suc i) m i b t ts (ground (arith, h, e)) (ground (arith, e)))
  ]
]

abbrev cut : ℕ → List ℕ → List ℕ
cut k ts = take k ts ++ drop (suc k) ts

drop_newest-cut : (t : ℕ) (ts : List ℕ) → drop_newest (t ∷ ts) ≡ cut (newest_from 1 0 t ts) (t ∷ ts)
unfolding drop_newest newest_from
drop_newest-cut t ts =
    let e : leb t t ≡ true = ground arith in rw (e, drop_newest, newest_from) refl

newest_from-next :
    (t u : ℕ) (ts : List ℕ)
    → any_from t (u ∷ ts) ≡ true
    → newest_from 1 0 t (u ∷ ts) ≡ suc (newest_from 1 0 u ts)
unfolding newest_from
newest_from-next t u ts h =
    let e : leb 0 u ≡ true = ground arith in
    let first : newest_from 1 1 0 (u ∷ ts) ≡ newest_from 2 1 u ts = rw (e, newest_from) refl in
    newest_from-any 1 0 1 t 0 (u ∷ ts) h (omega arith) ∙ first ∙ newest_from-shift 1 0 u ts

-- A time is dropped where it stands, if none after it is as new; else one of those after it is.
pub drop_newest-cons :
    (t : ℕ) (ts : List ℕ)
    → drop_newest (t ∷ ts) ≡ (if any_from t ts then t ∷ drop_newest ts else ts)
drop_newest-cons t ts = elim (Bool-cases (any_from t ts)) [
  | inr h ↦ rw h (drop_newest-cut t ts ∙ ap (λ k. cut k (t ∷ ts)) (newest_from-none 1 0 t ts h))
  | inl h ↦ rw h (drop_newest-later t ts h)
]
  where
    drop_newest-later :
        (t : ℕ) (ts : List ℕ) → any_from t ts ≡ true → drop_newest (t ∷ ts) ≡ t ∷ drop_newest ts
    drop_newest-later t [] h = ground arith
    drop_newest-later t (u ∷ ts) h =
        drop_newest-cut t (u ∷ ts)
        ∙ ap (λ k. cut k (t ∷ u ∷ ts)) (newest_from-next t u ts h)
        ∙ ap (◌∷◌ t) (sym (drop_newest-cut u ts))
