-- ===== src/RateLimit/Bounds.antt =====
-- How many times the limiter holds, and what a refund undoes.
use plan_my_pickle_backend.Base.{
  ℕ, ◌+◌, ◌≤◌, ◌≡◌, refl, sym, ◌∙◌, inl, inr, true, false, List, [], ◌∷◌, ◌++◌, String, str_eq, leb,
  if◌then◌else◌, Bool-cases, All, length, length-append, eq_iff, arith,
}
use plan_my_pickle_backend.RateLimit.{
  RateLimiter, set_hits, recent, allow, drop_newest, refund, newest, sweep,
}
use plan_my_pickle_backend.RateLimit.Newest.{any_from, drop_newest-cons}
use plan_my_pickle_backend.RateLimit.Window.{
  recent-length, drop_newest-append, recent-All, drop_newest-nil,
}
use plan_my_pickle_backend.RateLimit.Ledger.{Call, attempt, take_back, tick}

unfoldable pub after : List Call → RateLimiter → RateLimiter
unfolding allow refund sweep
after [] rl = rl
after (attempt key now ∷ calls) rl = after calls (allow key now rl).1
after (take_back key ∷ calls) rl = after calls (refund key rl)
after (tick now ∷ calls) rl = after calls (sweep now rl)

-- No key holds more times than the limit.
abbrev pub IsBounded : RateLimiter → Type 0
IsBounded rl = (k : String) → length (rl.hits k) ≤ rl.limit

drop_newest-length : (ts : List ℕ) → length (drop_newest ts) ≤ length ts
drop_newest-length [] = rw drop_newest-nil (omega arith)
drop_newest-length (t ∷ ts) = elim (Bool-cases (any_from t ts)) [
  | inl h ↦ rw (drop_newest-cons t ts, h) (omega (arith, drop_newest-length ts))
  | inr h ↦ rw (drop_newest-cons t ts, h) (omega arith)
]

write-IsBounded :
    (key : String) (ts : List ℕ) (rl : RateLimiter)
    → IsBounded rl
    → length ts ≤ rl.limit
    → IsBounded (set_hits key ts rl)
write-IsBounded key ts rl bounded fits k = elim (Bool-cases (str_eq key k)) [
  | inl h ↦ rw h fits
  | inr h ↦ rw h (bounded k)
]

allow-IsBounded :
    (key : String) (now : ℕ) (rl : RateLimiter) → IsBounded rl → IsBounded (allow key now rl).1
unfolding allow
allow-IsBounded key now rl bounded =
    let ts = recent rl.window now (rl.hits key) in
    let few = recent-length rl.window now (rl.hits key) in
    elim (Bool-cases (leb rl.limit (length ts))) [
      | inl full ↦ rw full (write-IsBounded key ts rl bounded (omega (arith, few, bounded key)))
      | inr room ↦ rw room (
          write-IsBounded key (ts ++ now ∷ []) rl bounded
            (ground (arith, room, length-append ts (now ∷ []))))
    ]

sweep-IsBounded : (now : ℕ) (rl : RateLimiter) → IsBounded rl → IsBounded (sweep now rl)
unfolding sweep
sweep-IsBounded now rl bounded k = elim (Bool-cases (leb (newest 0 (rl.hits k) + rl.window) now)) [
  | inl old ↦ rw old (omega arith)
  | inr new ↦ rw new (bounded k)
]

refund-IsBounded : (key : String) (rl : RateLimiter) → IsBounded rl → IsBounded (refund key rl)
unfolding refund
refund-IsBounded key rl bounded =
    write-IsBounded key (drop_newest (rl.hits key)) rl bounded
      (omega (arith, bounded key, drop_newest-length (rl.hits key)))

-- Whatever is called, in whatever order and at whatever times: if no key holds more times than the limit
-- at first, none does afterwards.
pub after-IsBounded :
    (calls : List Call) (rl : RateLimiter) → IsBounded rl → IsBounded (after calls rl)
unfolding after
after-IsBounded [] rl h = h
after-IsBounded (attempt key now ∷ calls) rl h =
    after-IsBounded calls (allow key now rl).1 (allow-IsBounded key now rl h)
after-IsBounded (take_back key ∷ calls) rl h =
    after-IsBounded calls (refund key rl) (refund-IsBounded key rl h)
after-IsBounded (tick now ∷ calls) rl h =
    after-IsBounded calls (sweep now rl) (sweep-IsBounded now rl h)

write_twice :
    (key k : String) (xs ys zs : List ℕ)
    → (if str_eq key k then xs else (if str_eq key k then ys else zs))
      ≡ (if str_eq key k then xs else zs)
write_twice key k xs ys zs = elim (Bool-cases (str_eq key k)) [
  | inl h ↦ rw h refl
  | inr h ↦ rw h refl
]

-- If no time of the key is later than now, a refund after an attempt that was allowed leaves the times of
-- each key as they were, but that the expired ones of the key are gone.
pub refund-allow :
    (key : String) (now : ℕ) (rl : RateLimiter)
    → All (λ t. t ≤ now) (rl.hits key)
    → (allow key now rl).0 ≡ true
    → (k : String)
    → (refund key (allow key now rl).1).hits k
      ≡ (if str_eq key k then recent rl.window now (rl.hits key) else rl.hits k)
unfolding allow refund
refund-allow key now rl past allowed k =
    let ts = recent rl.window now (rl.hits key) in
    elim (Bool-cases (leb rl.limit (length ts))) [
      | inl full ↦
          let no : (allow key now rl).0 ≡ false = rw full refl in
          absurd (let both : true ≡ false = sym allowed ∙ no in ground arith)
      | inr room ↦
          let drop : drop_newest (if str_eq key key then ts ++ now ∷ [] else rl.hits key) ≡ ts =
            rw ((eq_iff key key).1 refl) (
              drop_newest-append now ts
                (recent-All (λ t. t ≤ now) rl.window now (rl.hits key) past)) in
          rw (room, drop) (write_twice key k ts (ts ++ now ∷ []) (rl.hits k))
    ]
