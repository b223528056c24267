-- ===== src/RateLimit/Window.antt =====
-- What is kept of a list of times when the window moves on, or the newest is dropped.
use plan_my_pickle_backend.Base.{
  ℕ, ◌+◌, ◌≤◌, ◌<◌, ◌≡◌, refl, sym, ap, ◌∙◌, inl, inr, true, false, ◌||◌, List, [], ◌∷◌, ◌++◌, leb,
  ltb, Bool-cases, All, length, arith,
}
use plan_my_pickle_backend.RateLimit.{recent, drop_newest, newest}
use plan_my_pickle_backend.RateLimit.Newest.{any_from, drop_newest-cons}

pub recent-again :
    (w t now : ℕ) (ts : List ℕ) → t ≤ now → recent w now (recent w t ts) ≡ recent w now ts
unfolding recent
recent-again w t now [] h = refl
recent-again w t now (x ∷ ts) h = elim (Bool-cases (ltb t (x + w))) [
  | inl e ↦ elim (Bool-cases (ltb now (x + w))) [
    | inl f ↦ rw (e, recent, f) (ap (◌∷◌ x) (recent-again w t now ts h))
    | inr f ↦ rw (e, recent, f) (recent-again w t now ts h)
  ]
  | inr e ↦ let f : ltb now (x + w) ≡ false = ground arith in rw (e, f) (recent-again w t now ts h)
]

pub recent-append :
    (w now : ℕ) (xs ys : List ℕ) → recent w now (xs ++ ys) ≡ recent w now xs ++ recent w now ys
unfolding recent
recent-append w now [] ys = refl
recent-append w now (x ∷ xs) ys = elim (Bool-cases (ltb now (x + w))) [
  | inl e ↦ rw e (ap (◌∷◌ x) (recent-append w now xs ys))
  | inr e ↦ rw e (recent-append w now xs ys)
]

pub recent-length : (w now : ℕ) (ts : List ℕ) → length (recent w now ts) ≤ length ts
unfolding recent
recent-length w now [] = omega arith
recent-length w now (x ∷ ts) = ground (arith, recent-length w now ts)

-- For a time after the cutoff one as new is kept exactly if there is one.
recent-any :
    (w now b : ℕ) (ts : List ℕ) → now < b + w → any_from b (recent w now ts) ≡ any_from b ts
unfolding recent
recent-any w now b [] h = refl
recent-any w now b (x ∷ ts) h = elim (Bool-cases (ltb now (x + w))) [
  | inl e ↦ rw e (ap (λ r. leb b x || r) (recent-any w now b ts h))
  | inr e ↦ let f : leb b x ≡ false = ground arith in rw (e, f) (recent-any w now b ts h)
]

recent-none :
    (w now b : ℕ) (ts : List ℕ) → b + w ≤ now → any_from b ts ≡ false → recent w now ts ≡ []
unfolding recent
recent-none w now b [] h none_from = refl
recent-none w now b (x ∷ ts) h none_from =
    let f : ltb now (x + w) ≡ false = ground (arith, none_from) in
    rw f (recent-none w now b ts h (ground (arith, none_from)))

recent-in :
    (w now x : ℕ) (ts : List ℕ)
    → ltb now (x + w) ≡ true
    → recent w now (x ∷ ts) ≡ x ∷ recent w now ts
unfolding recent
recent-in w now x ts e = rw e refl

recent-out :
    (w now x : ℕ) (ts : List ℕ) → ltb now (x + w) ≡ false → recent w now (x ∷ ts) ≡ recent w now ts
unfolding recent
recent-out w now x ts e = rw e refl

drop_newest-later :
    (x : ℕ) (ts : List ℕ) → any_from x ts ≡ true → drop_newest (x ∷ ts) ≡ x ∷ drop_newest ts
drop_newest-later x ts h = drop_newest-cons x ts ∙ rw h refl

drop_newest-here : (x : ℕ) (ts : List ℕ) → any_from x ts ≡ false → drop_newest (x ∷ ts) ≡ ts
drop_newest-here x ts h = drop_newest-cons x ts ∙ rw h refl

pub drop_newest-nil : drop_newest [] ≡ []
unfolding drop_newest
drop_newest-nil = refl

pub recent-nil : (w now : ℕ) → recent w now [] ≡ []
unfolding recent
recent-nil w now = refl

-- The newest is dropped from what is kept.
pub recent-drop_newest :
    (w now : ℕ) (ts : List ℕ) → recent w now (drop_newest ts) ≡ drop_newest (recent w now ts)
recent-drop_newest w now [] =
    ap (recent w now) drop_newest-nil
    ∙ recent-nil w now
    ∙ sym drop_newest-nil
    ∙ ap drop_newest (sym (recent-nil w now))
recent-drop_newest w now (x ∷ ts) =
    let again = recent-drop_newest w now ts in
    elim (Bool-cases (ltb now (x + w))) [
      | inl e ↦
          let same = recent-any w now x ts (ground (arith, e)) in
          elim (Bool-cases (any_from x ts)) [
            | inl h ↦
                ap (recent w now) (drop_newest-later x ts h)
                ∙ recent-in w now x (drop_newest ts) e
                ∙ ap (◌∷◌ x) again
                ∙ sym (drop_newest-later x (recent w now ts) (same ∙ h))
                ∙ ap drop_newest (sym (recent-in w now x ts e))
            | inr h ↦
                ap (recent w now) (drop_newest-here x ts h)
                ∙ sym (drop_newest-here x (recent w now ts) (same ∙ h))
                ∙ ap drop_newest (sym (recent-in w now x ts e))
          ]
      | inr e ↦ elim (Bool-cases (any_from x ts)) [
        | inl h ↦
            ap (recent w now) (drop_newest-later x ts h)
            ∙ recent-out w now x (drop_newest ts) e
            ∙ again
            ∙ ap drop_newest (sym (recent-out w now x ts e))
        | inr h ↦
            let nothing = recent-none w now x ts (ground (arith, e)) h in
            ap (recent w now) (drop_newest-here x ts h)
            ∙ nothing
            ∙ sym drop_newest-nil
            ∙ ap drop_newest (sym (recent-out w now x ts e ∙ nothing))
      ]
    ]

newest-low : (b : ℕ) (ts : List ℕ) → b ≤ newest b ts
unfolding newest
newest-low b [] = omega arith
newest-low b (x ∷ ts) = ground (arith, newest-low x ts, newest-low b ts)

-- Nothing is kept where the newest time is not after the cutoff.
pub newest-recent : (w now b : ℕ) (ts : List ℕ) → newest b ts + w ≤ now → recent w now ts ≡ []
unfolding newest recent
newest-recent w now b [] h = refl
newest-recent w now b (x ∷ ts) h = elim (Bool-cases (ltb b x)) [
  | inl e ↦
      let h' : newest x ts + w ≤ now = ground (arith, h, e) in
      let out : ltb now (x + w) ≡ false = ground (arith, newest-low x ts) in
      rw out (newest-recent w now x ts h')
  | inr e ↦
      let h' : newest b ts + w ≤ now = ground (arith, h, e) in
      let out : ltb now (x + w) ≡ false = ground (arith, newest-low b ts, e) in
      rw out (newest-recent w now b ts h')
]

-- The newest of times up to `now` is the one that has just been added.
pub drop_newest-append :
    (now : ℕ) (ts : List ℕ) → All (λ t. t ≤ now) ts → drop_newest (ts ++ now ∷ []) ≡ ts
drop_newest-append now [] h = drop_newest-here now [] refl
drop_newest-append now (x ∷ ts) h =
    drop_newest-later x (ts ++ now ∷ []) (any_from-append ts h.0)
    ∙ ap (◌∷◌ x) (drop_newest-append now ts h.1)
  where
    any_from-append : {b : ℕ} (us : List ℕ) → b ≤ now → any_from b (us ++ now ∷ []) ≡ true
    any_from-append [] low = ground arith
    any_from-append (u ∷ us) low = ground (arith, any_from-append us low)

pub recent-All : (P : ℕ → Type 0) (w now : ℕ) (ts : List ℕ) → All P ts → All P (recent w now ts)
unfolding recent
recent-All P w now [] h = h
recent-All P w now (x ∷ ts) h = elim (Bool-cases (ltb now (x + w))) [
  | inl e ↦ rw e (h.0, recent-All P w now ts h.1)
  | inr e ↦ rw e (recent-All P w now ts h.1)
]
