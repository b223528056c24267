-- ===== src/Pairs.antt =====
-- internal/service/service.go: the teams of a doubles field, from its registrations.
pub mod Taken
pub mod Dropped
use plan_my_pickle_backend.Base.{
  Bool, true, false, not, ◌&&◌, ◌||◌, List, [], ◌∷◌, ◌++◌, String, str_eq, if◌then◌else◌, contains,
}

pub record Reg : Type 0 where
  pub reg_id : String
  pub player_id : String
  pub partner_id : String

abbrev pub player_ids : List Reg → List String
player_ids [] = []
player_ids (r ∷ regs) = r.player_id ∷ player_ids regs

abbrev pub team_members : List (List String) → List String
team_members [] = []
team_members (p ∷ pairs) = p ++ team_members pairs

-- The pair that a registration makes with its partner, if it makes one.
unfoldable pub partners : List String → List String → Reg → List (List String)
partners present used r =
    if contains used r.player_id
    then []
    else if not (str_eq r.partner_id "")
        && contains present r.partner_id
        && not (contains used r.partner_id)
    then (r.player_id ∷ r.partner_id ∷ []) ∷ []
    else []

unfoldable pub partner_pairs : List String → List String → List Reg → List (List String)
unfolding partners
partner_pairs present used [] = []
partner_pairs present used (r ∷ regs) =
    let made = partners present used r in
    made ++ partner_pairs present (team_members made ++ used) regs

-- Those whom a set does not hold.
unfoldable pub players_without : List String → List Reg → List String
players_without used [] = []
players_without used (r ∷ regs) =
    if contains used r.player_id
    then players_without used regs
    else r.player_id ∷ players_without used regs

unfoldable pub pair_leftover : List String → List (List String)
pair_leftover [] = []
pair_leftover (a ∷ []) = []
pair_leftover (a ∷ b ∷ leftover) = (a ∷ b ∷ []) ∷ pair_leftover leftover

unfoldable pub pairs_from_regs : List Reg → List (List String)
unfolding partner_pairs players_without pair_leftover
pairs_from_regs regs =
    let pairs = partner_pairs (player_ids regs) [] regs in
    pairs ++ pair_leftover (players_without (team_members pairs) regs)

-- What the function reads of an event.
pub record Event : Type 0 where
  pub format : String
  pub partner_mode : String
  pub tournament_format : String

unfoldable pub dropped_doubles_players : Event → List Reg → List String
unfolding pairs_from_regs
dropped_doubles_players ev regs =
    if not (str_eq ev.format "doubles")
    then []
    else if not (
        str_eq ev.partner_mode "fixed"
        || str_eq ev.tournament_format "single_elim"
        || str_eq ev.tournament_format "double_elim"
        || str_eq ev.tournament_format "compass")
    then []
    else players_without (team_members (pairs_from_regs regs)) regs
