-- ===== src/Examples/Limits.antt =====
-- Two attempts in ten seconds.
use plan_my_pickle_backend.Base.{
  ◌≤◌, ◌≡◌, refl, true, false, List, [], ◌∷◌, str_eq, if◌then◌else◌, length, arith,
}
use plan_my_pickle_backend.RateLimit.{RateLimiter, allow, refund, sweep, recent}
use plan_my_pickle_backend.RateLimit.Ledger.{Call, attempt, take_back, tick, decisions}
use plan_my_pickle_backend.RateLimit.Bounds.{after, after-IsBounded, refund-allow}

abbrev two_in_ten : RateLimiter
two_in_ten = record { hits = λ _. []; limit = 2; window = 10 }

abbrev a_day : List Call
a_day =
    attempt "ip" 100
    ∷ attempt "ip" 103
    ∷ attempt "ip" 104
    ∷ take_back "ip"
    ∷ attempt "ip" 105
    ∷ tick 112
    ∷ attempt "ip" 113
    ∷ []

decisions_test : decisions a_day two_in_ten ≡ true ∷ true ∷ false ∷ true ∷ true ∷ []
unfolding decisions allow refund sweep
decisions_test = refl

held_example : length ((after a_day two_in_ten).hits "ip") ≤ 2
unfolding after
held_example = after-IsBounded a_day two_in_ten (λ k. omega arith) "ip"

abbrev one_each : RateLimiter
one_each = record { hits = λ _. 95 ∷ []; limit = 2; window = 10 }

refund_example :
    (refund "ip" (allow "ip" 100 one_each).1).hits "ip"
    ≡ (if str_eq "ip" "ip" then recent 10 100 (95 ∷ []) else 95 ∷ [])
unfolding allow
refund_example = refund-allow "ip" 100 one_each (omega arith, tt) refl "ip"
