-- ===== src/Examples.antt =====
-- Concrete inputs at which the theorems hold: a roster, a layout, results.
pub mod Scores
pub mod Courts
pub mod Draws
pub mod Nights
pub mod Ladders
pub mod BackDraws
pub mod DoubleDraws
pub mod Divisions
pub mod Arranged
pub mod Limits
pub mod Teams
pub mod Tables
pub mod Dealing
use plan_my_pickle_backend.Base.{◌≡◌, true, List, [], String, count, IsDistinct}
use plan_my_pickle_backend.Rotation.{layout_and_bench_ok}
use plan_my_pickle_backend.Rotation.Layout.{layout_and_bench_ok-iff_IsLayout}

-- A roster that passes the check as a bench is distinct, and has no blank id.
pub roster_IsDistinct : (xs : List String) → layout_and_bench_ok [] xs ≡ true → IsDistinct xs
roster_IsDistinct xs ok = ((layout_and_bench_ok-iff_IsLayout [] xs).0 ok).distinct

pub roster_no_blank : (xs : List String) → layout_and_bench_ok [] xs ≡ true → count "" xs ≡ 0
roster_no_blank xs ok = ((layout_and_bench_ok-iff_IsLayout [] xs).0 ok).no_blank
