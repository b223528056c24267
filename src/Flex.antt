-- ===== src/Flex.antt =====
-- internal/service/flex.go: the matchups that a flex division still needs. Of a team its id is kept.
pub mod Idempotent
use plan_my_pickle_backend.Base.{
  ℕ, Bool, true, false, Option, none, some, List, [], ◌∷◌, ◌++◌, map, String, ltb, if◌then◌else◌,
  length, contains,
}
use Prim.Native.String.{compare as str_compare, ◌++◌ as str_append}
use Prim.Native.Nat.{Ordering}

pub record FlexMatchup : Type 0 where
  pub team_a_id : String
  pub team_b_id : String

abbrev pub str_gtb : String → String → Bool
str_gtb a b = elim (str_compare a b) [ Ordering.gt ↦ true | _ ↦ false ]

-- The key of a pair in either order.
unfoldable pub pair_key : String → String → String
pair_key a b =
    if str_gtb a b then str_append b (str_append "|" a) else str_append a (str_append "|" b)

-- The keys of the Go map of the matchups that exist.
abbrev pub have_keys : List FlexMatchup → List String
have_keys [] = []
have_keys (m ∷ ms) = pair_key m.team_a_id m.team_b_id ∷ have_keys ms

-- The inner loop: the pairs of a team with those after it.
unfoldable pub pairs_with : List String → String → List String → List (String × String)
pairs_with have a [] = []
pairs_with have a (b ∷ teams) =
    if contains have (pair_key a b)
    then pairs_with have a teams
    else (a, b) ∷ pairs_with have a teams

unfoldable pub pairs_among : List String → List String → List (String × String)
unfolding pairs_with
pairs_among have [] = []
pairs_among have (a ∷ teams) = pairs_with have a teams ++ pairs_among have teams

unfoldable pub flex_pairings_to_create : List String → List FlexMatchup → List (String × String)
unfolding pairs_among
flex_pairings_to_create teams existing = pairs_among (have_keys existing) teams

abbrev pub pending : String × String → FlexMatchup
pending (a, b) = record { team_a_id = a; team_b_id = b }

-- No call of the database without rows; `inserted` is whether it takes them.
unfoldable pub insert_rows : List FlexMatchup → Bool → Option (List FlexMatchup)
insert_rows [] inserted = some []
insert_rows (r ∷ rs) inserted = if inserted then some (r ∷ rs) else none

-- The rows that a call inserts, or `none` for an error. A failed read is `none`.
unfoldable pub generate_flex_schedule :
    Option (List String) → Option (List FlexMatchup) → Bool → Option (List FlexMatchup)
unfolding flex_pairings_to_create insert_rows
generate_flex_schedule none existing inserted = none
generate_flex_schedule (some teams) existing inserted =
    if ltb (length teams) 2 then some [] else elim existing [
      | none ↦ none
      | some ms ↦ insert_rows (map pending (flex_pairings_to_create teams ms)) inserted
    ]
