-- ===== src/RateLimit.antt =====
-- internal/api/server.go: the sliding-window limiter of attempts. A time is a number of seconds, and
-- the Go map from keys to times is a function, with no time for a key that it does not hold.
pub mod Newest
pub mod Window
pub mod Ledger
pub mod Bounds
use plan_my_pickle_backend.Base.{
  ℕ, zero, suc, ◌+◌, Bool, true, false, List, [], ◌∷◌, ◌++◌, String, str_eq, ltb, leb,
  if◌then◌else◌, length, take, drop, get_or,
}

pub record RateLimiter : Type 0 where
  pub hits : String → List ℕ
  pub limit : ℕ
  pub window : ℕ

-- The entry of a key written.
abbrev pub set_hits : String → List ℕ → RateLimiter → RateLimiter
set_hits key ts rl = record rl { hits = λ k. if str_eq key k then ts else rl.hits k }

-- The times after the cutoff, which is `now` less the window.
unfoldable pub recent : ℕ → ℕ → List ℕ → List ℕ
recent window now [] = []
recent window now (t ∷ ts) =
    if ltb now (t + window) then t ∷ recent window now ts else recent window now ts

unfoldable pub allow : String → ℕ → RateLimiter → Bool × RateLimiter
unfolding recent
allow key now rl =
    let ts = recent rl.window now (rl.hits key) in
    if leb rl.limit (length ts)
    then (false, set_hits key ts rl)
    else (true, set_hits key (ts ++ now ∷ []) rl)

-- The index of the newest time, the last of them; `i` is the index of the next one.
unfoldable pub newest_from : ℕ → ℕ → ℕ → List ℕ → ℕ
newest_from i maxi latest [] = maxi
newest_from i maxi latest (t ∷ ts) =
    if leb latest t then newest_from (suc i) i t ts else newest_from (suc i) maxi latest ts

unfoldable pub drop_newest : List ℕ → List ℕ
unfolding newest_from
drop_newest [] = []
drop_newest (t ∷ ts) =
    let maxi = newest_from 0 0 t (t ∷ ts) in take maxi (t ∷ ts) ++ drop (suc maxi) (t ∷ ts)

unfoldable pub refund : String → RateLimiter → RateLimiter
unfolding drop_newest
refund key rl = set_hits key (drop_newest (rl.hits key)) rl

unfoldable pub newest : ℕ → List ℕ → ℕ
newest latest [] = latest
newest latest (t ∷ ts) = if ltb latest t then newest t ts else newest latest ts

-- A tick of `sweep`: the keys whose newest time is not after the cutoff are deleted.
unfoldable pub sweep : ℕ → RateLimiter → RateLimiter
unfolding newest
sweep now rl = record rl {
  hits = λ k. if leb (newest 0 (rl.hits k) + rl.window) now then [] else rl.hits k;
}
