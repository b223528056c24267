-- ===== src/Examples/Teams.antt =====
-- Five registrations: a couple, one who asks for somebody taken, and two without a partner.
use plan_my_pickle_backend.Base.{
  ◌≤◌, ◌≡◌, ◌≢◌, refl, false, List, [], ◌∷◌, ◌++◌, String, str_eq, All, length, IsDistinct, SameIds,
  eq_iff,
}
use plan_my_pickle_backend.Examples.{roster_IsDistinct}
use plan_my_pickle_backend.Rotation.{layout_and_bench_ok}
use plan_my_pickle_backend.Pairs.{
  Reg, Event, team_members, pairs_from_regs, dropped_doubles_players,
}
use plan_my_pickle_backend.Pairs.Taken.{IsPair}
use plan_my_pickle_backend.Pairs.Dropped.{dropped_doubles_players_lem}

abbrev entry : String → String → Reg
entry player partner = record { reg_id = "r"; player_id = player; partner_id = partner }

abbrev field : List Reg
field =
    entry "Ana" "Ben" ∷ entry "Cai" "Ana" ∷ entry "Ben" "Ana" ∷ entry "Dee" "" ∷ entry "Eve" "" ∷ []

abbrev fixed_doubles : Event
fixed_doubles = record { format = "doubles"; partner_mode = "fixed"; tournament_format = "pools" }

differ : (a b : String) → str_eq a b ≡ false → a ≢ b
differ a b f e = absurd (let t = (eq_iff a b).1 e in cc)

pairs_test : pairs_from_regs field ≡ ("Ana" ∷ "Ben" ∷ []) ∷ ("Cai" ∷ "Dee" ∷ []) ∷ []
unfolding pairs_from_regs
pairs_test = refl

left_over_example :
    All IsPair (pairs_from_regs field)
    × IsDistinct (team_members (pairs_from_regs field))
    × SameIds
        (team_members (pairs_from_regs field) ++ dropped_doubles_players fixed_doubles field)
        ("Ana" ∷ "Cai" ∷ "Ben" ∷ "Dee" ∷ "Eve" ∷ [])
    × (length (dropped_doubles_players fixed_doubles field) ≤ 1)
unfolding layout_and_bench_ok
left_over_example =
    dropped_doubles_players_lem fixed_doubles field refl refl
      (roster_IsDistinct ("Ana" ∷ "Cai" ∷ "Ben" ∷ "Dee" ∷ "Eve" ∷ []) refl)
      (
        differ "Ana" "Ben" refl,
        (
          differ "Cai" "Ana" refl,
          (differ "Ben" "Ana" refl, (differ "Dee" "" refl, (differ "Eve" "" refl, tt))),
        ),
      )
