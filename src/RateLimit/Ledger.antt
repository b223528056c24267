-- ===== src/RateLimit/Ledger.antt =====
-- What the limiter promises: it decides as a ledger does that keeps every attempt it has charged.
use plan_my_pickle_backend.Base.{
  ℕ, ◌≤◌, ◌≡◌, Bool, List, [], ◌∷◌, ◌++◌, String, str_eq, ltb, if◌then◌else◌, length,
}
use plan_my_pickle_backend.RateLimit.{RateLimiter, recent, allow, drop_newest, refund, sweep}

-- A call of the limiter, with the time at which it is made where that is read.
pub data Call : Type 0 where
  attempt : String → ℕ → Call
  take_back : String → Call
  tick : ℕ → Call

-- The clock does not go back.
abbrev pub IsTimed : ℕ → List Call → Type 0
IsTimed t [] = Unit
IsTimed t (attempt key now ∷ calls) = (t ≤ now) × IsTimed now calls
IsTimed t (take_back key ∷ calls) = IsTimed t calls
IsTimed t (tick now ∷ calls) = (t ≤ now) × IsTimed now calls

-- The decisions on the attempts, in their order.
unfoldable pub decisions : List Call → RateLimiter → List Bool
unfolding allow refund sweep
decisions [] rl = []
decisions (attempt key now ∷ calls) rl = (allow key now rl).0 ∷ decisions calls (allow key now rl).1
decisions (take_back key ∷ calls) rl = decisions calls (refund key rl)
decisions (tick now ∷ calls) rl = decisions calls (sweep now rl)

-- The times charged to each key.
abbrev pub Ledger : Type 0
Ledger = String → List ℕ

abbrev pub charge : String → List ℕ → Ledger → Ledger
charge key ts led k = if str_eq key k then ts else led k

abbrev fits_in : ℕ → List ℕ → Bool
fits_in limit ts = ltb (length ts) limit

-- Whether fewer attempts than the limit are charged in the window.
abbrev pub fits : ℕ → ℕ → ℕ → List ℕ → Bool
fits limit window now ts = fits_in limit (recent window now ts)

abbrev pub charged_on : Bool → String → ℕ → Ledger → Ledger
charged_on fit key now led = if fit then charge key (led key ++ now ∷ []) led else led

unfoldable pub ledger_decisions : ℕ → ℕ → List Call → Ledger → List Bool
ledger_decisions limit window [] led = []
ledger_decisions limit window (attempt key now ∷ calls) led =
    fits limit window now (led key)
    ∷ ledger_decisions limit window calls (charged_on (fits limit window now (led key)) key now led)
ledger_decisions limit window (take_back key ∷ calls) led =
    ledger_decisions limit window calls (charge key (drop_newest (led key)) led)
ledger_decisions limit window (tick now ∷ calls) led = ledger_decisions limit window calls led

-- From a time on the two lists look the same.
abbrev pub IsSameFrom : ℕ → ℕ → (String → List ℕ) → Ledger → Type 0
IsSameFrom w t f led = (k : String) → recent w t (f k) ≡ recent w t (led k)
